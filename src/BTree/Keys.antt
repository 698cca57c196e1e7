-- ===== src/BTree/Keys.antt =====
-- btree.hpp: keys as strings of bytes, their first four bytes as a number, and their order.
use cloud_project.Prelude.{
  ℕ, zero, suc, ◌+◌, ◌*◌, ◌^◌, ◌≤◌, ◌<◌, ◌≡◌, ◌⊎◌, inl, inr, refl, ap, ◌∙◌, arith, List, [], ◌∷◌,
  ◌++◌, bit_or, if◌then◌else◌, ◌==◌, Bool-cases, ltb, ltb→lt, ==_iff,
}
use native.Mathlib.Nat.{mul-le-mul_right, one-le-pow, pow-suc}
use cloud_project.Prelude.Bits.{fields-bit_or}
use cloud_project.Prelude.Int.{ℤ, pos, sub_ℕ}

-- The key's first four bytes, the first one highest, filled up with zeros.
unfoldable pub head : List ℕ → ℕ
head [] = 0
head (a ∷ []) = a * 2 ^ 24
head (a ∷ b ∷ []) = (a * 2 ^ 8 + b) * 2 ^ 16
head (a ∷ b ∷ c ∷ []) = bit_or ((a * 2 ^ 8 + b) * 2 ^ 16) (c * 2 ^ 8)
head (a ∷ b ∷ c ∷ d ∷ key) = ((a * 2 ^ 8 + b) * 2 ^ 8 + c) * 2 ^ 8 + d

-- The first `num` bytes compared; both keys have as many.
unfoldable pub cust_memcmp : (p1 p2 : List ℕ) (num : ℕ) → ℤ
cust_memcmp p1 p2 zero = pos 0
cust_memcmp [] p2 (suc num) = pos 0
cust_memcmp (a ∷ p1) [] (suc num) = pos 0
cust_memcmp (a ∷ p1) (b ∷ p2) (suc num) =
    let rest = cust_memcmp p1 p2 num in if a == b then rest else sub_ℕ a b

-- The order of byte strings: `Before xs ys` when `xs` comes before `ys`.
abbrev pub Before : (xs ys : List ℕ) → Type 0
Before [] [] = ⊥
Before [] (y ∷ ys) = Unit
Before (x ∷ xs) [] = ⊥
Before (x ∷ xs) (y ∷ ys) = (x < y) ⊎ ((x ≡ y) × Before xs ys)

pub Before-trans : (xs ys zs : List ℕ) → Before xs ys → Before ys zs → Before xs zs
Before-trans [] [] zs h k = absurd h
Before-trans [] (y ∷ ys) [] h k = absurd k
Before-trans [] (y ∷ ys) (z ∷ zs) h k = tt
Before-trans (x ∷ xs) [] zs h k = absurd h
Before-trans (x ∷ xs) (y ∷ ys) [] h k = absurd k
Before-trans (x ∷ xs) (y ∷ ys) (z ∷ zs) (inl h) (inl k) = inl (omega arith)
Before-trans (x ∷ xs) (y ∷ ys) (z ∷ zs) (inl h) (inr k) = inl (omega arith)
Before-trans (x ∷ xs) (y ∷ ys) (z ∷ zs) (inr h) (inl k) = inl (omega arith)
Before-trans (x ∷ xs) (y ∷ ys) (z ∷ zs) (inr h) (inr k) =
    inr (h.0 ∙ k.0, Before-trans xs ys zs h.1 k.1)

pub Before-irrefl : (xs : List ℕ) → Before xs xs → ⊥
Before-irrefl [] h = h
Before-irrefl (x ∷ xs) (inl h) = absurd (omega arith)
Before-irrefl (x ∷ xs) (inr h) = Before-irrefl xs h.1

pub Before-prefix : (p xs ys : List ℕ) → Before xs ys → Before (p ++ xs) (p ++ ys)
Before-prefix [] xs ys h = h
Before-prefix (x ∷ p) xs ys h = inr (refl, Before-prefix p xs ys h)

pub Before-cancel : (p xs ys : List ℕ) → Before (p ++ xs) (p ++ ys) → Before xs ys
Before-cancel [] xs ys h = h
Before-cancel (x ∷ p) xs ys (inl h) = absurd (omega arith)
Before-cancel (x ∷ p) xs ys (inr h) = Before-cancel p xs ys h.1

-- Every element is a byte.
abbrev pub AreBytes : List ℕ → Type 0
AreBytes [] = Unit
AreBytes (x ∷ xs) = (x < 256) × AreBytes xs

-- The first `n` bytes as a number, filled up with zeros.
abbrev pub num : (n : ℕ) → List ℕ → ℕ
num zero xs = 0
num (suc n) [] = 0
num (suc n) (x ∷ xs) = x * 256 ^ n + num n xs

num_bound : (n : ℕ) (xs : List ℕ) → AreBytes xs → num n xs < 256 ^ n
num_bound zero xs b = omega arith
num_bound (suc n) [] b = omega (arith, one-le-pow (suc n) 256)
num_bound (suc n) (x ∷ xs) b =
    omega (arith, num_bound n xs b.1, pow-suc 256 n, mul-le-mul_right (256 ^ n) b.0)

head_lem : (xs : List ℕ) → AreBytes xs → head xs ≡ num 4 xs
unfolding head
head_lem [] b = refl
head_lem (x ∷ []) b = omega arith
head_lem (x ∷ y ∷ []) b = omega arith
head_lem (x ∷ y ∷ z ∷ []) b = omega (arith, fields-bit_or 16 (z * 2 ^ 8) (x * 2 ^ 8 + y))
head_lem (x ∷ y ∷ z ∷ w ∷ xs) b = omega arith

pub num-Before :
    (n : ℕ) (xs ys : List ℕ) → AreBytes xs → AreBytes ys → num n xs < num n ys → Before xs ys
num-Before zero xs ys bx by h = absurd (omega arith)
num-Before (suc n) [] [] bx by h = absurd (omega arith)
num-Before (suc n) [] (y ∷ ys) bx by h = tt
num-Before (suc n) (x ∷ xs) [] bx by h = absurd (omega arith)
num-Before (suc n) (x ∷ xs) (y ∷ ys) bx by h = elim (Bool-cases (ltb x y)) [
  | inl less ↦ inl (ltb→lt x y less)
  | inr not_less ↦ elim (Bool-cases (x == y)) [
    | inl equal ↦
        let e : x ≡ y = (==_iff x y).0 equal in
        inr (e, num-Before n xs ys bx.1 by.1 (omega (arith, ap (λ (t : ℕ). t * 256 ^ n) e)))
    | inr other ↦
        let more : y + 1 ≤ x = ground arith in
        absurd (omega (arith, mul-le-mul_right (256 ^ n) more, num_bound n ys by.1))
  ]
]

-- A smaller head comes before.
pub head-Before : (xs ys : List ℕ) → AreBytes xs → AreBytes ys → head xs < head ys → Before xs ys
head-Before xs ys bx by h = num-Before 4 xs ys bx by (omega (arith, head_lem xs bx, head_lem ys by))

-- How two keys compare.
pub data Order (xs ys : List ℕ) : Type 0 where
  before : Before xs ys → Order xs ys
  same : xs ≡ ys → Order xs ys
  after : Before ys xs → Order xs ys
