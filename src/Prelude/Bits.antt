-- ===== src/Prelude/Bits.antt =====
-- `|`, `&` and `^` on words, as arithmetic: disjoint fields, masks, and the exclusive or of bits.
mod Step
pub use Step.{bit_or_step, bit_and_step, bit_xor_step}
use mathlib.Core.Path.{◌≡◌, refl, sym, ap, ◌∙◌, ◌≡⟨◌⟩◌, ◌∎}
use mathlib.Core.WellFounded
use Prim.Native.Nat.{
  ℕ, zero, suc, ◌+◌, ◌-◌, ◌*◌, ◌/◌, ◌%◌, ◌^◌, ◌≤◌, ◌<◌, differ, bit_and, bit_or, bit_xor,
  bit_or-bitwise,
}
use native.Mathlib.Nat.{pow-suc, one-le-pow, mod-add-div', mod-lt}
use native.Mathlib.Omega.{arith}
use cloud_project.Prelude.Loops.{lt_wf}

pub bit_or-zero : (a : ℕ) → bit_or a 0 ≡ a
bit_or-zero a = WellFounded.induction lt_wf {C = λ n. bit_or n 0 ≡ n} a go
  where
    go : (n : ℕ) → ((m : ℕ) → m < n → bit_or m 0 ≡ m) → bit_or n 0 ≡ n
    go zero ih = refl
    go (suc n) ih = omega (arith, bit_or_step (suc n) 0, ih (suc n / 2) (omega arith))

pub bit_and-zero : (a : ℕ) → bit_and a 0 ≡ 0
bit_and-zero a = WellFounded.induction lt_wf {C = λ n. bit_and n 0 ≡ 0} a go
  where
    go : (n : ℕ) → ((m : ℕ) → m < n → bit_and m 0 ≡ 0) → bit_and n 0 ≡ 0
    go zero ih = refl
    go (suc n) ih = omega (arith, bit_and_step (suc n) 0, ih (suc n / 2) (omega arith))

zero-bit_or : (b : ℕ) → bit_or 0 b ≡ b
zero-bit_or b = simp bit_or-bitwise

mul-pow-suc : (q k : ℕ) → q * 2 ^ suc k ≡ 2 * (q * 2 ^ k)
mul-pow-suc q k = omega (arith, ap (λ (t : ℕ). q * t) (pow-suc 2 k))

-- A low field of `k` bits and a field above it do not meet.
pub bit_or-fields : (k r q : ℕ) → r < 2 ^ k → bit_or r (q * 2 ^ k) ≡ r + q * 2 ^ k
bit_or-fields zero r q fits = ground (arith, zero-bit_or q)
bit_or-fields (suc k) r q fits =
    ground (
      arith,
      bit_or_step r (q * 2 ^ suc k),
      mul-pow-suc q k,
      pow-suc 2 k,
      bit_or-fields k (r / 2) q,
    )

pub fields-bit_or : (k r q : ℕ) → r < 2 ^ k → bit_or (q * 2 ^ k) r ≡ r + q * 2 ^ k
fields-bit_or zero r q fits = ground (arith, bit_or-zero q)
fields-bit_or (suc k) r q fits =
    ground (
      arith,
      bit_or_step (q * 2 ^ suc k) r,
      mul-pow-suc q k,
      pow-suc 2 k,
      fields-bit_or k (r / 2) q,
    )

low-mask-half : (k : ℕ) → ((2 ^ suc k - 1) / 2 ≡ 2 ^ k - 1) × ((2 ^ suc k - 1) % 2 ≡ 1)
low-mask-half k = omega (arith, pow-suc 2 k, one-le-pow k 2)

bit_and-fields : (k r q : ℕ) → r < 2 ^ k → bit_and (r + q * 2 ^ k) (2 ^ k - 1) ≡ r
bit_and-fields zero r q fits = rw (bit_and-zero (r + q * 1)) (omega arith)
bit_and-fields (suc k) r q fits = ground (
  arith,
  bit_and_step (r + q * 2 ^ suc k) (2 ^ suc k - 1),
  low-mask-half k,
  mul-pow-suc q k,
  pow-suc 2 k,
  bit_and-fields k (r / 2) q,
)

-- `x & (2 ^ k - 1)` keeps the low `k` bits.
pub bit_and-mask : (k a : ℕ) → bit_and a (2 ^ k - 1) ≡ a % 2 ^ k
bit_and-mask k a =
    bit_and a (2 ^ k - 1)
    ≡⟨ ap (λ (t : ℕ). bit_and t (2 ^ k - 1)) (sym (mod-add-div' a (2 ^ k))) ⟩
      bit_and (a % 2 ^ k + a / 2 ^ k * 2 ^ k) (2 ^ k - 1)
    ≡⟨ bit_and-fields k (a % 2 ^ k) (a / 2 ^ k) (mod-lt a (one-le-pow k 2 (omega arith))) ⟩
      a % 2 ^ k ∎

differ_twice : (x y : ℕ) → x < 2 → y < 2 → (differ (differ x y) y ≡ x) × (differ x y < 2)
differ_twice zero zero p q = omega arith
differ_twice zero (suc zero) p q = omega arith
differ_twice (suc zero) zero p q = omega arith
differ_twice (suc zero) (suc zero) p q = omega arith
differ_twice (suc (suc x)) y p q = absurd (omega arith)
differ_twice x (suc (suc y)) p q = absurd (omega arith)

bit_xor_digit :
    (a b : ℕ)
    → (bit_xor a b / 2 ≡ bit_xor (a / 2) (b / 2)) × (bit_xor a b % 2 ≡ differ (a % 2) (b % 2))
bit_xor_digit a b =
    omega (arith, bit_xor_step a b, differ_twice (a % 2) (b % 2) (omega arith) (omega arith))

bit_xor-bit_xor_below : (n a b : ℕ) → a ≤ n → b ≤ n → bit_xor (bit_xor a b) b ≡ a
bit_xor-bit_xor_below zero zero zero p q = refl
bit_xor-bit_xor_below zero (suc a) b p q = absurd (omega arith)
bit_xor-bit_xor_below zero a (suc b) p q = absurd (omega arith)
bit_xor-bit_xor_below (suc n) a b p q =
    bit_xor (bit_xor a b) b
    ≡⟨ bit_xor_step (bit_xor a b) b ⟩
      bit_xor (bit_xor a b / 2) (b / 2) * 2 + differ (bit_xor a b % 2) (b % 2)
    ≡⟨ rw
        (
          digit.0,
          digit.1,
          bit_xor-bit_xor_below n (a / 2) (b / 2) (omega arith) (omega arith),
          twice.0,
        )
        (omega arith) ⟩
      a ∎
  where
    digit : (bit_xor a b / 2 ≡ bit_xor (a / 2) (b / 2)) × (bit_xor a b % 2 ≡ differ (a % 2) (b % 2))
    digit = bit_xor_digit a b

    twice : (differ (differ (a % 2) (b % 2)) (b % 2) ≡ a % 2) × (differ (a % 2) (b % 2) < 2)
    twice = differ_twice (a % 2) (b % 2) (omega arith) (omega arith)

-- The exclusive or with `b` undoes itself.
pub bit_xor-bit_xor : (a b : ℕ) → bit_xor (bit_xor a b) b ≡ a
bit_xor-bit_xor a b = bit_xor-bit_xor_below (a + b) a b (omega arith) (omega arith)

-- It stays within the width of its arguments.
pub bit_xor-lt : (k a b : ℕ) → a < 2 ^ k → b < 2 ^ k → bit_xor a b < 2 ^ k
bit_xor-lt zero a b p q =
    let ea : a ≡ 0 = omega arith in let eb : b ≡ 0 = omega arith in rw (ea, eb) (omega arith)
bit_xor-lt (suc k) a b p q = omega (
  arith,
  bit_xor_digit a b,
  differ_twice (a % 2) (b % 2) (omega arith) (omega arith),
  pow-suc 2 k,
  bit_xor-lt k (a / 2) (b / 2) (omega (arith, pow-suc 2 k)) (omega (arith, pow-suc 2 k)),
)

differ-zero : (x : ℕ) → x < 2 → differ x 0 ≡ x
differ-zero zero h = refl
differ-zero (suc zero) h = refl
differ-zero (suc (suc x)) h = absurd (omega arith)

-- The exclusive or with the highest bit turns it: one way for numbers below it, the other for the
-- rest.
pub bit_xor-high :
    (k u : ℕ)
    → u < 2 ^ suc k
    → (u < 2 ^ k → bit_xor u (2 ^ k) ≡ u + 2 ^ k) × (2 ^ k ≤ u → bit_xor u (2 ^ k) + 2 ^ k ≡ u)
bit_xor-high zero zero h = (λ a. refl, λ b. absurd (omega arith))
bit_xor-high zero (suc zero) h = (λ a. absurd (omega arith), λ b. refl)
bit_xor-high zero (suc (suc u)) h = absurd (omega arith)
bit_xor-high (suc k) u h =
    let ih = bit_xor-high k (u / 2) (omega (arith, pow-suc 2 (suc k), h)) in
    let halves : 2 ^ suc k / 2 ≡ 2 ^ k = omega (arith, pow-suc 2 k) in
    let even : 2 ^ suc k % 2 ≡ 0 = omega (arith, pow-suc 2 k) in
    let step : bit_xor u (2 ^ suc k) ≡ bit_xor (u / 2) (2 ^ k) * 2 + u % 2 =
      bit_xor_step u (2 ^ suc k)
      ∙ ap (λ (t : ℕ). bit_xor (u / 2) t * 2 + differ (u % 2) (2 ^ suc k % 2)) halves
      ∙ ap (λ (t : ℕ). bit_xor (u / 2) (2 ^ k) * 2 + t)
          (ap (differ (u % 2)) even ∙ differ-zero (u % 2) (omega arith)) in
    (
      λ a. omega (arith, step, pow-suc 2 k, ih.0 (omega (arith, pow-suc 2 k, a))),
      λ b. omega (arith, step, pow-suc 2 k, ih.1 (omega (arith, pow-suc 2 k, b))),
    )
