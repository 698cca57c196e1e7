-- ===== src/ResidentPageSet/Members.antt =====
-- page.hpp, `struct ResidentPageSet`: `insert` and `remove` as operations on a set of page ids.
use mathlib.Core.Path.{subst}
use native.Mathlib.Nat.{mod-lt, mod-add-mod, mod-eq_of_lt, add-mod_right}
use cloud_project.Prelude.{
  ℕ, zero, suc, ◌+◌, ◌-◌, ◌%◌, ◌≤◌, ◌<◌, ◌≡◌, ◌≢◌, inl, inr, refl, sym, ap, ◌∙◌, true, false, List,
  [], ◌∷◌, arith, Bool-cases, ==_iff, ◌==◌, if◌then◌else◌, length, get_or, set, get_or-set_self,
  get_or-set_ne, length-set, dec_lt,
}
use cloud_project.ResidentPageSet.{
  ResidentPageSet, empty, tombstone, entry, is_free, hash, occupied,
}
use cloud_project.ResidentPageSet.Probe.{IsShaped}

-- A page id, which is neither of the two marks, is stored in some slot.
abbrev pub IsMember : ℕ → ResidentPageSet → Type 0
IsMember pid s = (i : ℕ) × (i < s.count) × (entry s i ≡ pid) × (is_free pid ≡ false)

-- The slot `i` is `d` steps from the page id's own slot, and no slot on the way is empty.
pub record Probed (s : ResidentPageSet) (i d : ℕ) : Type 0 where
  pub near : d < s.count
  pub there : (hash (entry s i) + d) % s.count ≡ i
  pub full : (e : ℕ) → e < d → entry s ((hash (entry s i) + e) % s.count) ≢ empty

-- A set as the operations keep it: every page id is found by probing, stands in one slot only, and
-- `size` counts them.
pub record IsValid (k : ℕ) (s : ResidentPageSet) : Type 0 where
  pub shaped : IsShaped k s
  pub small : k < 64
  pub probed : (i : ℕ) → i < s.count → is_free (entry s i) ≡ false → (d : ℕ) × Probed s i d
  pub unique :
      (i j : ℕ)
      → i < s.count
      → j < s.count
      → is_free (entry s i) ≡ false
      → entry s i ≡ entry s j
      → i ≡ j
  pub sized : s.size ≡ length (occupied s.ht)

-- From any slot every slot is reached within one round.
pub distance : (count p i : ℕ) → i < count → (d : ℕ) × (d < count) × ((p + d) % count ≡ i)
distance count p i h = elim (dec_lt i (p % count)) [
  | yes behind ↦ (
    i + count - p % count,
    omega (arith, mod-lt p {m = count} (omega arith)),
    sym (mod-add-mod p count (i + count - p % count))
        ∙ ap (λ (t : ℕ). t % count) (omega (arith, mod-lt p {m = count} (omega arith)))
        ∙ add-mod_right i count
        ∙ mod-eq_of_lt h,
  )
  | no ahead ↦ (
    i - p % count,
    omega arith,
    sym (mod-add-mod p count (i - p % count))
        ∙ ap (λ (t : ℕ). t % count) (omega arith)
        ∙ mod-eq_of_lt h,
  )
]

-- Filling a free slot with a page id adds one to the count of page ids, burying one takes one away.
pub length-occupied-fill :
    (slots : List ℕ) (i pid : ℕ)
    → i < length slots
    → is_free (get_or slots i empty) ≡ true
    → is_free pid ≡ false
    → length (occupied (set slots i pid)) ≡ suc (length (occupied slots))
unfolding occupied
length-occupied-fill [] i pid h free real = absurd (omega arith)
length-occupied-fill (x ∷ slots) zero pid h free real = rw (free, real) refl
length-occupied-fill (x ∷ slots) (suc i) pid h free real = elim (Bool-cases (is_free x)) [
  | inl skip ↦ rw skip (length-occupied-fill slots i pid (omega arith) free real)
  | inr keep ↦ rw keep (ap suc (length-occupied-fill slots i pid (omega arith) free real))
]

pub length-occupied-bury :
    (slots : List ℕ) (i : ℕ)
    → i < length slots
    → is_free (get_or slots i empty) ≡ false
    → suc (length (occupied (set slots i tombstone))) ≡ length (occupied slots)
unfolding occupied
length-occupied-bury [] i h real = absurd (omega arith)
length-occupied-bury (x ∷ slots) zero h real = rw real refl
length-occupied-bury (x ∷ slots) (suc i) h real = elim (Bool-cases (is_free x)) [
  | inl skip ↦ rw skip (length-occupied-bury slots i (omega arith) real)
  | inr keep ↦ rw keep (ap suc (length-occupied-bury slots i (omega arith) real))
]

pub length-occupied-le : (slots : List ℕ) → length (occupied slots) ≤ length slots
unfolding occupied
length-occupied-le [] = omega arith
length-occupied-le (x ∷ slots) = ground (arith, length-occupied-le slots)

-- What a slot holds after a write.
pub get_or-set :
    (slots : List ℕ) (i j v : ℕ)
    → i < length slots
    → get_or (set slots i v) j empty ≡ (if i == j then v else get_or slots j empty)
get_or-set slots i j v h = elim (Bool-cases (i == j)) [
  | inl same ↦
      let e : i ≡ j = (==_iff i j).0 same in
      rw same
        (subst (λ t. get_or (set slots i v) t empty ≡ v) e (get_or-set_self slots i v empty h))
  | inr other ↦
      let ne : i ≢ j = λ e. ground (arith, e, ==_iff i j) in
      rw other (get_or-set_ne slots i j v empty ne)
]

-- The slots of a set whose shape is kept.
pub set-IsShaped :
    {k : ℕ} {s : ResidentPageSet} (i v z : ℕ)
    → IsShaped k s
    → IsShaped k (record s { ht = set s.ht i v; size = z })
set-IsShaped {k} {s} i v z shaped = record {
  slots = shaped.slots;
  masked = shaped.masked;
  stored = length-set s.ht i v ∙ shaped.stored;
  some_slot = shaped.some_slot;
}

-- With fewer page ids than slots some slot is free.
pub free_slot :
    (slots : List ℕ)
    → length (occupied slots) < length slots
    → (i : ℕ) × (i < length slots) × (is_free (get_or slots i empty) ≡ true)
unfolding occupied
free_slot [] h = absurd (omega arith)
free_slot (x ∷ slots) h = elim (Bool-cases (is_free x)) [
  | inl here ↦ (0, omega arith, here)
  | inr used ↦
      let rest : length (occupied slots) < length slots = ground arith in
      let (i, p, e) = free_slot slots rest in (suc i, omega arith, e)
]
