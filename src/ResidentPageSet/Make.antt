-- ===== src/ResidentPageSet/Make.antt =====
-- page.hpp, `ResidentPageSet::ResidentPageSet` and `next_pow2`: the size of the table.
use native.Mathlib.Nat.{pow-suc, pow-le-pow_right}
use cloud_project.Prelude.{
  ℕ, zero, suc, ◌-◌, ◌*◌, ◌/◌, ◌^◌, ◌≤◌, ◌<◌, ◌≡◌, refl, true, false, [], arith, ◌==◌, lt→ltb,
  le→ltb_false, get_or, replicate, get_or-replicate, length-replicate, Option, some, none, dec_lt,
  ne→==_false,
}
use cloud_project.ResidentPageSet.{
  ResidentPageSet, empty, is_free, bit_length_below, bit_length, next_pow2, make, occupied,
}
use cloud_project.ResidentPageSet.Members.{IsMember, IsValid}

bit_length_below-zero : (f : ℕ) → bit_length_below f 0 ≡ 0
unfolding bit_length_below
bit_length_below-zero zero = refl
bit_length_below-zero (suc f) = refl

bit_length_below-pos :
    (f n : ℕ) → 0 < n → bit_length_below (suc f) n ≡ suc (bit_length_below f (n / 2))
unfolding bit_length_below
bit_length_below-pos f n h = ground arith

-- The number of binary digits of `n` is the exponent of the first power of two above it.
bit_length_below-bounds :
    (f n : ℕ)
    → 0 < n
    → n < 2 ^ f
    → (n < 2 ^ bit_length_below f n) × (2 ^ bit_length_below f n ≤ 2 * n)
bit_length_below-bounds zero n pos h = absurd (omega arith)
bit_length_below-bounds (suc f) n pos h =
    rw (bit_length_below-pos f n pos, pow-suc 2 (bit_length_below f (n / 2)))
      (elim (dec_lt 0 (n / 2)) [
        | yes more ↦ omega (
          arith,
          pow-suc 2 f,
          bit_length_below-bounds f (n / 2) more (omega (arith, pow-suc 2 f)),
        )
        | no one ↦ let z : n / 2 ≡ 0 = omega arith in rw (z, bit_length_below-zero f) (omega arith)
      ])

bit_length-bounds :
    (n : ℕ) → 0 < n → n < 2 ^ 64 → (n < 2 ^ bit_length n) × (2 ^ bit_length n ≤ 2 * n)
unfolding bit_length
bit_length-bounds n pos h = bit_length_below-bounds 64 n pos h

exponent-lt : (a b : ℕ) → 2 ^ a < 2 ^ b → a < b
exponent-lt a b h = elim (dec_lt a b) [
  | yes less ↦ less
  | no more ↦
      absurd (omega (arith, pow-le-pow_right {n = 2} (omega arith) {i = b} {j = a} (omega arith)))
]

le_pred : {a : ℕ} → a < 31 → a ≤ 30
le_pred h = omega arith

-- Up to 2 ^ 30 the constructor's rounding gives the first power of two that is not below `x`.
pub next_pow2-some :
    (x : ℕ)
    → 2 ≤ x
    → x ≤ 2 ^ 30
    → (k : ℕ) × (next_pow2 x ≡ some (2 ^ k)) × (x ≤ 2 ^ k) × (2 ^ k < 2 * x) × (k ≤ 30)
unfolding next_pow2
next_pow2-some x two small =
    let bounds = bit_length-bounds (x - 1) (omega arith) (omega arith) in
    let low : bit_length (x - 1) ≤ 30 =
      le_pred (exponent-lt (bit_length (x - 1)) 31 (omega arith)) in
    (
      bit_length (x - 1),
      rw (le→ltb_false x 2 two, lt→ltb (bit_length (x - 1)) 31 (omega arith)) refl,
      omega arith,
      omega arith,
      low,
    )

-- Above 2 ^ 31 it shifts a 32-bit 1 by 32 or more, which has no defined value.
pub next_pow2_overflow : (x : ℕ) → 2 ^ 31 < x → x < 2 ^ 64 → next_pow2 x ≡ none
unfolding next_pow2
next_pow2_overflow x big fits =
    let bounds = bit_length-bounds (x - 1) (omega arith) (omega arith) in
    let high : 31 < bit_length (x - 1) = exponent-lt 31 (bit_length (x - 1)) (omega arith) in
    let other : (bit_length (x - 1) == 31) ≡ false = ne→==_false _ _ (λ e. omega arith) in
    rw (le→ltb_false x 2 (omega arith), le→ltb_false (bit_length (x - 1)) 31 (omega arith), other)
      refl

occupied-replicate : (n : ℕ) → occupied (replicate n empty) ≡ []
unfolding occupied
occupied-replicate zero = refl
occupied-replicate (suc n) = occupied-replicate n

-- What the constructor promises for `max_count` page ids: an empty set, with room for half as many
-- again.
pub record Makes (max_count : ℕ) (result : Option ResidentPageSet) : Type 0 where
  pub made : ResidentPageSet
  pub bits : ℕ
  pub result_lem : result ≡ some made
  pub valid : IsValid bits made
  pub room : max_count * 3 / 2 ≤ made.count
  pub no_members : (q : ℕ) → ¬ IsMember q made
  pub hand : made.clock_pos ≡ 0

-- The constructor makes a valid empty set for every pool of two to 2 ^ 29 pages.
pub make-Makes :
    (max_count : ℕ) → 2 ≤ max_count → max_count ≤ 2 ^ 29 → Makes max_count (make max_count)
unfolding make occupied
make-Makes max_count two small =
    let (k, e, low, high, bits) = next_pow2-some (max_count * 3 / 2) (omega arith) (omega arith) in
    let free : (i : ℕ) → is_free (get_or (replicate (2 ^ k) empty) i empty) ≡ true =
      λ i. rw (get_or-replicate (2 ^ k) i empty) refl in
    rw (e, make)
      (record {
        made = record {
          ht = replicate (2 ^ k) empty;
          count = 2 ^ k;
          mask = 2 ^ k - 1;
          clock_pos = 0;
          size = 0;
        };
        bits = k;
        result_lem = refl;
        valid = record {
          shaped = record {
            slots = refl;
            masked = refl;
            stored = length-replicate (2 ^ k) empty;
            some_slot = omega arith;
          };
          small = omega arith;
          probed = λ i h used. absurd (ground (arith, free i));
          unique = λ i j hi hj used same. absurd (ground (arith, free i));
          sized = rw (occupied-replicate (2 ^ k)) refl;
        };
        room = low;
        no_members = λ q (i, h, here, real). ground (arith, free i);
        hand = refl;
      })
