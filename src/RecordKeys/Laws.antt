-- ===== src/RecordKeys/Laws.antt =====
-- Types.hpp: folded keys are in the order of what they stand for.
use cloud_project.Prelude.{
  ℕ, ◌+◌, ◌-◌, ◌%◌, ◌^◌, ◌<◌, ◌≡◌, ◌↔◌, inl, inr, ap, arith, true, List, [], ◌∷◌, ◌++◌, ltb, ltb→lt,
  ◌==◌, ==_iff, Bool-cases, bit_xor,
}
use mathlib.Core.Path.{subst}
use cloud_project.Prelude.Bits.{bit_xor-high}
use cloud_project.Prelude.Int.{ℤ, pos, negsuc, ltb_ℤ}
use cloud_project.BTree.Keys.{Before, Before-trans, Before-irrefl, AreBytes, num, num-Before}
use cloud_project.RecordKeys.{
  word_of, bytes4, bytes8, fold_integer, fold_timestamp, fold_u64, fold_varchar,
}

-- The word of a signed integer with the sign bit turned: the integer above the smallest one.
abbrev pub biased : (half : ℕ) → ℤ → ℕ
biased half (pos n) = half + n
biased half (negsuc n) = half - 1 - n

-- The integers of a word.
abbrev pub IsWord : (half : ℕ) → ℤ → Type 0
IsWord half (pos n) = n < half
IsWord half (negsuc n) = n < half

pub biased_integer :
    (x : ℤ) → IsWord (2 ^ 31) x → bit_xor (word_of (2 ^ 32) x) (2 ^ 31) ≡ biased (2 ^ 31) x
biased_integer (pos n) h =
    omega (arith, (bit_xor-high 31 (n % 2 ^ 32) (omega arith)).0 (omega arith))
biased_integer (negsuc n) h =
    omega (arith, (bit_xor-high 31 ((2 ^ 32 - 1 - n) % 2 ^ 32) (omega arith)).1 (omega arith))

pub biased_timestamp :
    (x : ℤ) → IsWord (2 ^ 63) x → bit_xor (word_of (2 ^ 64) x) (2 ^ 63) ≡ biased (2 ^ 63) x
biased_timestamp (pos n) h =
    omega (arith, (bit_xor-high 63 (n % 2 ^ 64) (omega arith)).0 (omega arith))
biased_timestamp (negsuc n) h =
    omega (arith, (bit_xor-high 63 ((2 ^ 64 - 1 - n) % 2 ^ 64) (omega arith)).1 (omega arith))

biased_less :
    (half : ℕ) (x y : ℤ)
    → IsWord half x
    → IsWord half y
    → (ltb_ℤ x y ≡ true) ↔ (biased half x < biased half y)
biased_less half (pos n) (pos m) a b = (λ h. ground arith, λ h. ground arith)
biased_less half (pos n) (negsuc m) a b = (λ h. ground arith, λ h. ground arith)
biased_less half (negsuc n) (pos m) a b = (λ h. ground arith, λ h. ground arith)
biased_less half (negsuc n) (negsuc m) a b = (λ h. ground arith, λ h. ground arith)

num-bytes4 : (u : ℕ) → u < 2 ^ 32 → num 4 (bytes4 u) ≡ u
unfolding bytes4
num-bytes4 u h = omega arith

bytes4-AreBytes : (u : ℕ) → AreBytes (bytes4 u)
unfolding bytes4
bytes4-AreBytes u = (omega arith, (omega arith, (omega arith, (omega arith, tt))))

num-bytes8 : (u : ℕ) → u < 2 ^ 64 → num 8 (bytes8 u) ≡ u
unfolding bytes4 bytes8
num-bytes8 u h = omega arith

bytes8-AreBytes : (u : ℕ) → AreBytes (bytes8 u)
unfolding bytes4 bytes8
bytes8-AreBytes u = (
  omega arith,
  (
    omega arith,
    (omega arith, (omega arith, (omega arith, (omega arith, (omega arith, (omega arith, tt)))))),
  ),
)

-- Keys of `n` bytes are in the order of the numbers that they stand for.
ordered :
    (n u v : ℕ) (xs ys : List ℕ)
    → AreBytes xs
    → AreBytes ys
    → num n xs ≡ u
    → num n ys ≡ v
    → (u ≡ v → xs ≡ ys)
    → (u < v) ↔ Before xs ys
ordered n u v xs ys bx by e f same = (λ h. num-Before n xs ys bx by (omega (arith, e, f)), back)
  where
    back : Before xs ys → u < v
    back h = elim (Bool-cases (ltb u v)) [
      | inl less ↦ ltb→lt _ _ less
      | inr rest ↦ elim (Bool-cases (u == v)) [
        | inl equal ↦
            absurd (Before-irrefl ys (subst (λ l. Before l ys) (same ((==_iff u v).0 equal)) h))
        | inr other ↦
            let more : v < u = ground arith in
            absurd (
              Before-irrefl xs
                (Before-trans xs ys xs h (num-Before n ys xs by bx (omega (arith, e, f, more)))))
      ]
    ]

↔-trans : {A B C : Type 0} → A ↔ B → B ↔ C → A ↔ C
↔-trans f g = (λ a. g.0 (f.0 a), λ c. f.1 (g.1 c))

pub biased_bound : (half : ℕ) (x : ℤ) → 0 < half → IsWord half x → biased half x < half + half
biased_bound half (pos n) some_half h = omega arith
biased_bound half (negsuc n) some_half h = omega arith

-- The keys of signed integers, of time stamps and of 64-bit numbers are in the order of the numbers.
pub fold_order :
    (x y t s : ℤ) (u v : ℕ)
    → IsWord (2 ^ 31) x
    → IsWord (2 ^ 31) y
    → IsWord (2 ^ 63) t
    → IsWord (2 ^ 63) s
    → u < 2 ^ 64
    → v < 2 ^ 64
    → ((ltb_ℤ x y ≡ true) ↔ Before (fold_integer x) (fold_integer y))
      × ((ltb_ℤ t s ≡ true) ↔ Before (fold_timestamp t) (fold_timestamp s))
      × ((u < v) ↔ Before (fold_u64 u) (fold_u64 v))
unfolding fold_integer fold_timestamp fold_u64
fold_order x y t s u v hx hy ht hs hu hv = (
  rw (biased_integer x hx, biased_integer y hy)
      (↔-trans (biased_less (2 ^ 31) x y hx hy) (
        ordered 4 _ _ _ _ (bytes4-AreBytes _) (bytes4-AreBytes _)
          (num-bytes4 _ (biased_bound (2 ^ 31) x (omega arith) hx))
          (num-bytes4 _ (biased_bound (2 ^ 31) y (omega arith) hy)) (ap bytes4))),
  rw (biased_timestamp t ht, biased_timestamp s hs)
      (↔-trans (biased_less (2 ^ 63) t s ht hs) (
        ordered 8 _ _ _ _ (bytes8-AreBytes _) (bytes8-AreBytes _)
          (num-bytes8 _ (biased_bound (2 ^ 63) t (omega arith) ht))
          (num-bytes8 _ (biased_bound (2 ^ 63) s (omega arith) hs)) (ap bytes8))),
  ordered 8 u v _ _ (bytes8-AreBytes u) (bytes8-AreBytes v) (num-bytes8 u hu) (num-bytes8 v hv)
      (ap bytes8),
)

-- The bytes of a string without a zero byte.
abbrev pub IsText : List ℕ → Type 0
IsText [] = Unit {0}
IsText (x ∷ xs) = (0 < x) × (x < 256) × IsText xs

-- The keys of strings without a zero byte are in the order of the strings, and so are keys that go
-- on behind them.
pub fold_varchar_order :
    (xs ys more more' : List ℕ)
    → IsText xs
    → IsText ys
    → Before xs ys
    → Before (fold_varchar xs ++ more) (fold_varchar ys ++ more')
unfolding fold_varchar
fold_varchar_order [] [] more more' a b h = absurd h
fold_varchar_order [] (y ∷ ys) more more' a b h = inl b.0
fold_varchar_order (x ∷ xs) [] more more' a b h = absurd h
fold_varchar_order (x ∷ xs) (y ∷ ys) more more' a b (inl h) = inl h
fold_varchar_order (x ∷ xs) (y ∷ ys) more more' a b (inr h) =
    inr (h.0, fold_varchar_order xs ys more more' a.2 b.2 h.1)
