-- ===== src/RecordKeys/Tests.antt =====
-- Keys at concrete numbers and strings.
use cloud_project.Prelude.{◌<◌, ◌≡◌, ◌↔◌, inr, refl, true, [], ◌∷◌, ◌++◌, some, arith}
use cloud_project.Prelude.Int.{pos, negsuc, ltb_ℤ}
use cloud_project.BTree.Keys.{Before}
use cloud_project.RecordKeys.{
  fold_integer, fold_timestamp, fold_u64, fold_varchar, unfold_integer, unfold_timestamp,
  unfold_u64, unfold_varchar, bytes4,
}
use cloud_project.RecordKeys.Laws.{fold_order, fold_varchar_order}
use cloud_project.RecordKeys.RoundTrip.{unfold-fold, unfold_varchar-fold_varchar}

fold_order_example :
    ((ltb_ℤ (negsuc 4) (pos 7) ≡ true) ↔ Before (fold_integer (negsuc 4)) (fold_integer (pos 7)))
    × ((ltb_ℤ (pos 9) (negsuc 2) ≡ true)
        ↔ Before (fold_timestamp (pos 9)) (fold_timestamp (negsuc 2)))
    × ((1 < 256) ↔ Before (fold_u64 1) (fold_u64 256))
fold_order_example =
    fold_order (negsuc 4) (pos 7) (pos 9) (negsuc 2) 1 256 (omega arith) (omega arith) (omega arith)
      (omega arith) (omega arith) (omega arith)

fold_varchar_order_example :
    Before (fold_varchar (97 ∷ []) ++ (255 ∷ [])) (fold_varchar (97 ∷ 98 ∷ []) ++ [])
fold_varchar_order_example =
    fold_varchar_order (97 ∷ []) (97 ∷ 98 ∷ []) (255 ∷ []) [] (omega arith, omega arith, tt)
      (omega arith, omega arith, (omega arith, omega arith, tt)) (inr (refl, tt))

unfold-fold_example :
    (unfold_integer (fold_integer (negsuc 4) ++ (1 ∷ [])) ≡ some (negsuc 4, 1 ∷ []))
    × (unfold_timestamp (fold_timestamp (pos 9) ++ (1 ∷ [])) ≡ some (pos 9, 1 ∷ []))
    × (unfold_u64 (fold_u64 256 ++ (1 ∷ [])) ≡ some (256, 1 ∷ []))
unfold-fold_example =
    unfold-fold (negsuc 4) (pos 9) 256 (1 ∷ []) (omega arith) (omega arith) (omega arith)

unfold_varchar-fold_varchar_example :
    unfold_varchar (fold_varchar (97 ∷ 98 ∷ []) ++ (3 ∷ [])) ≡ some (97 ∷ 98 ∷ [], 3 ∷ [])
unfold_varchar-fold_varchar_example =
    unfold_varchar-fold_varchar (97 ∷ 98 ∷ []) (3 ∷ [])
      (omega arith, omega arith, (omega arith, omega arith, tt))

-- -5 and 7.
keys :
    (fold_integer (negsuc 4) ≡ 127 ∷ 255 ∷ 255 ∷ 251 ∷ [])
    × (fold_integer (pos 7) ≡ 128 ∷ 0 ∷ 0 ∷ 7 ∷ [])
unfolding fold_integer bytes4
keys = (refl, refl)
