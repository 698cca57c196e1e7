-- ===== src/ResidentPageSet/Tests.antt =====
-- Runs of the resident page set, and its theorems at a set of four slots.
use mathlib.Core.Path.{subst}
use cloud_project.Prelude.{
  ℕ, zero, suc, ◌-◌, ◌*◌, ◌^◌, ◌≤◌, ◌<◌, ◌≡◌, ◌≢◌, refl, true, false, List, [], ◌∷◌, arith,
  get_or-replicate, some, none, done, aborted, out_of_rounds, bit_and, inl, inr, ◌↔◌, ◌⊎◌,
}
use cloud_project.ResidentPageSet.{
  ResidentPageSet, empty, tombstone, entry, is_free, bit_length, next_pow2, make, hash, insert,
  remove, insert_loop, remove_loop, fill, bury, iterate_clock_batch, batch_loop, iterate_all,
  occupied,
}
use cloud_project.ResidentPageSet.Members.{IsMember, Probed, IsValid}
use cloud_project.ResidentPageSet.Make.{next_pow2-some}
use cloud_project.ResidentPageSet.Insert.{Inserts, insert-Inserts}
use cloud_project.ResidentPageSet.Remove.{Removes, remove-Removes, remove_endless}
use cloud_project.ResidentPageSet.Clock.{note, Noted, clock_calls, clock_calls_all}

abbrev slots : List ℕ → ℕ → ℕ → ResidentPageSet
slots ht hand n = record { ht = ht; count = 4; mask = 3; clock_pos = hand; size = n }

abbrev four : ResidentPageSet
four = slots (empty ∷ empty ∷ empty ∷ empty ∷ []) 0 0

rounded :
    (next_pow2 2 ≡ some 2)
    × (next_pow2 3 ≡ some 4)
    × (next_pow2 4 ≡ some 4)
    × (next_pow2 5 ≡ some 8)
    × (next_pow2 1 ≡ none)
    × (next_pow2 (2 ^ 31) ≡ some (2 ^ 64 - 2 ^ 31))
    × (make 2 ≡ some four)
unfolding next_pow2 bit_length make
rounded = (refl, refl, refl, refl, refl, refl, refl)

abbrev with7 : ResidentPageSet
with7 = slots (7 ∷ empty ∷ empty ∷ empty ∷ []) 0 1

abbrev with78 : ResidentPageSet
with78 = slots (7 ∷ 8 ∷ empty ∷ empty ∷ []) 0 2

-- The page ids 7, 8 and 9 share their first slot; a tombstone is passed over, and taken again.
runs :
    (insert four 7 ≡ done with7)
    × (insert with7 8 ≡ done with78)
    × (insert with7 7 ≡ aborted)
    × (remove with78 7 ≡ done (true, slots (tombstone ∷ 8 ∷ empty ∷ empty ∷ []) 0 1))
    × (remove (slots (tombstone ∷ 8 ∷ empty ∷ empty ∷ []) 0 1) 8
        ≡ done (true, slots (tombstone ∷ tombstone ∷ empty ∷ empty ∷ []) 0 0))
    × (insert (slots (tombstone ∷ 8 ∷ empty ∷ empty ∷ []) 0 1) 9
        ≡ done (slots (9 ∷ 8 ∷ empty ∷ empty ∷ []) 0 2))
    × (remove with78 9 ≡ done (false, with78))
    × (iterate_clock_batch 3 note (with78, []) ≡ (slots with78.ht 3 2, 7 ∷ 8 ∷ []))
    × (iterate_all with78 ≡ 7 ∷ 8 ∷ [])
unfolding insert insert_loop remove remove_loop hash fill bury iterate_clock_batch batch_loop
    iterate_all occupied
runs = (refl, refl, refl, refl, refl, refl, refl, refl, refl)

four_free : (i : ℕ) → is_free (entry four i) ≡ true
four_free i = rw (get_or-replicate 4 i empty) refl

four-IsValid : IsValid 2 four
unfolding occupied
four-IsValid = record {
  shaped = omega arith;
  small = omega arith;
  probed = λ i h used. absurd (ground (arith, four_free i));
  unique = λ i j hi hj used same. absurd (ground (arith, four_free i));
  sized = refl;
}

four_absent : (q : ℕ) → ¬ IsMember q four
four_absent q (i, h, here, real) = ground (arith, four_free i)

next_pow2-some_example :
    (k : ℕ) × (next_pow2 1000 ≡ some (2 ^ k)) × (1000 ≤ 2 ^ k) × (2 ^ k < 2 * 1000) × (k ≤ 30)
next_pow2-some_example = next_pow2-some 1000 (omega arith) (omega arith)

seven : Inserts 2 four four-IsValid 7 refl (four_absent 7) (insert four 7)
seven = insert-Inserts 2 four four-IsValid 7 refl (four_absent 7) (omega arith)

seven_after : seven.after ≡ with7
unfolding insert insert_loop hash fill
seven_after = cc (seven.result_lem, runs.0)

with7-IsValid : IsValid 2 with7
with7-IsValid = subst (IsValid 2) seven_after seven.valid_after

eight_ne : ◌≢◌ {A = ℕ} 8 7
eight_ne = omega arith

not-8 : ¬ IsMember 8 with7
not-8 m =
    elim ((subst (λ s. IsMember 8 s ↔ (IsMember 8 four ⊎ ◌≡◌ {A = ℕ} 8 7)) seven_after
        (seven.members 8)).0
      m) [ inl old ↦ four_absent 8 old | inr e ↦ eight_ne e ]

insert-Inserts_example : Inserts 2 with7 with7-IsValid 8 refl not-8 (insert with7 8)
insert-Inserts_example = insert-Inserts 2 with7 with7-IsValid 8 refl not-8 (omega arith)

with78-IsValid : IsValid 2 with78
unfolding insert insert_loop hash fill
with78-IsValid =
    subst (IsValid 2) (cc (insert-Inserts_example.result_lem, runs.1))
      insert-Inserts_example.valid_after

remove-Removes_example : Removes 2 with78 with78-IsValid 8 refl (remove with78 8)
remove-Removes_example = remove-Removes 2 with78 with78-IsValid 8 refl (1, omega arith, refl, refl)

-- A table of one slot, taken by 5: the search for 6 has no end.
abbrev one : ResidentPageSet
one = record { ht = 5 ∷ []; count = 1; mask = 0; clock_pos = 0; size = 1 }

one-IsValid : IsValid 0 one
unfolding occupied
one-IsValid = record {
  shaped = omega arith;
  small = omega arith;
  probed =
      λ i h used. let e : 0 ≡ i = omega arith in (0, subst (λ t. Probed one t 0) e (omega arith));
  unique = λ i j hi hj used same. omega arith;
  sized = refl;
}

one_absent : ¬ IsMember 6 one
one_absent (zero, h, here, real) = omega arith
one_absent (suc i, h, here, real) = omega arith

one_full : (e : ℕ) → e < 1 → entry one e ≢ empty
one_full zero h = omega arith
one_full (suc e) h = absurd (omega arith)

remove_endless_example : remove_loop 1_000_000 one 6 (bit_and (hash 6) 0) ≡ out_of_rounds
remove_endless_example = remove_endless 0 one one-IsValid 6 refl one_absent one_full 1_000_000

clock_calls_all_example : Noted 8 (clock_calls 2 3 (with78, [])).1
clock_calls_all_example =
    clock_calls_all 2 3 2 8 with78 (omega arith) (omega arith) (omega arith)
      (1, omega arith, refl, refl)
