-- ===== src/RecordKeys/RoundTrip.antt =====
-- Types.hpp: what is folded unfolds again.
use cloud_project.Prelude.{
  ℕ, ◌-◌, ◌/◌, ◌%◌, ◌^◌, ◌<◌, ◌≡◌, refl, ap, ◌∙◌, arith, List, [], ◌∷◌, ◌++◌, some, lt→ltb,
  le→ltb_false, ne→==_false, bit_xor,
}
use cloud_project.Prelude.Bits.{bit_xor-bit_xor}
use cloud_project.Prelude.Int.{ℤ, pos, negsuc}
use cloud_project.RecordKeys.{
  word_of, signed_of, bytes4, bytes8, load4, load8, fold_integer, fold_timestamp, fold_u64,
  fold_varchar, unfold_integer, unfold_timestamp, unfold_u64, unfold_varchar, map_first,
}
use cloud_project.RecordKeys.Laws.{IsWord, IsText, biased_integer, biased_timestamp, biased_bound}

load4-bytes4 : (u : ℕ) (rest : List ℕ) → u < 2 ^ 32 → load4 (bytes4 u ++ rest) ≡ some (u, rest)
unfolding load4 bytes4
load4-bytes4 u rest h = ap (λ (v : ℕ). some (v, rest)) (omega arith)

load8-bytes8 : (u : ℕ) (rest : List ℕ) → u < 2 ^ 64 → load8 (bytes8 u ++ rest) ≡ some (u, rest)
unfolding load8 bytes8 bytes4
load8-bytes8 u rest h = ap (λ (v : ℕ). some (v, rest)) (omega arith)

integer_back : (x : ℤ) → IsWord (2 ^ 31) x → signed_of (2 ^ 32) (word_of (2 ^ 32) x) ≡ x
integer_back (pos n) h = rw (lt→ltb (n % 2 ^ 32) (2 ^ 32 / 2) (omega arith)) (ap pos (omega arith))
integer_back (negsuc n) h =
    rw (le→ltb_false ((2 ^ 32 - 1 - n) % 2 ^ 32) (2 ^ 32 / 2) (omega arith))
      (ap negsuc (omega arith))

timestamp_back : (x : ℤ) → IsWord (2 ^ 63) x → signed_of (2 ^ 64) (word_of (2 ^ 64) x) ≡ x
timestamp_back (pos n) h =
    rw (lt→ltb (n % 2 ^ 64) (2 ^ 64 / 2) (omega arith)) (ap pos (omega arith))
timestamp_back (negsuc n) h =
    rw (le→ltb_false ((2 ^ 64 - 1 - n) % 2 ^ 64) (2 ^ 64 / 2) (omega arith))
      (ap negsuc (omega arith))

-- What is folded unfolds again, whatever stands behind it.
pub unfold-fold :
    (x t : ℤ) (u : ℕ) (rest : List ℕ)
    → IsWord (2 ^ 31) x
    → IsWord (2 ^ 63) t
    → u < 2 ^ 64
    → (unfold_integer (fold_integer x ++ rest) ≡ some (x, rest))
      × (unfold_timestamp (fold_timestamp t ++ rest) ≡ some (t, rest))
      × (unfold_u64 (fold_u64 u ++ rest) ≡ some (u, rest))
unfolding fold_integer fold_timestamp fold_u64 unfold_integer unfold_timestamp unfold_u64
unfold-fold x t u rest hx ht hu = (
  ap (map_first (λ w. signed_of (2 ^ 32) (bit_xor w (2 ^ 31)))) (
        load4-bytes4 (bit_xor (word_of (2 ^ 32) x) (2 ^ 31)) rest
          (omega (arith, biased_integer x hx, biased_bound (2 ^ 31) x (omega arith) hx)))
      ∙ ap (λ w. some (signed_of (2 ^ 32) w, rest)) (bit_xor-bit_xor (word_of (2 ^ 32) x) (2 ^ 31))
      ∙ ap (λ z. some (z, rest)) (integer_back x hx),
  ap (map_first (λ w. signed_of (2 ^ 64) (bit_xor w (2 ^ 63)))) (
        load8-bytes8 (bit_xor (word_of (2 ^ 64) t) (2 ^ 63)) rest
          (omega (arith, biased_timestamp t ht, biased_bound (2 ^ 63) t (omega arith) ht)))
      ∙ ap (λ w. some (signed_of (2 ^ 64) w, rest)) (bit_xor-bit_xor (word_of (2 ^ 64) t) (2 ^ 63))
      ∙ ap (λ z. some (z, rest)) (timestamp_back t ht),
  load8-bytes8 u rest hu,
)

-- A string without a zero byte unfolds again, whatever stands behind it.
pub unfold_varchar-fold_varchar :
    (str rest : List ℕ) → IsText str → unfold_varchar (fold_varchar str ++ rest) ≡ some (str, rest)
unfolding fold_varchar unfold_varchar
unfold_varchar-fold_varchar [] rest h = refl
unfold_varchar-fold_varchar (x ∷ str) rest h =
    rw
      (
        ne→==_false x 0 (λ e. absurd (omega (arith, e, h.0))),
        unfold_varchar-fold_varchar str rest h.2,
      )
      refl
