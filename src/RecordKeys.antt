-- ===== src/RecordKeys.antt =====
-- repo/PrediCache/benchmarks/shared/Types.hpp: integers and strings as keys whose bytes compare as
-- they do, and back. The number of bytes that a function returns is the length of its list.
pub mod Laws
pub mod RoundTrip
mod Tests
use cloud_project.Prelude.{
  ℕ, zero, suc, ◌+◌, ◌-◌, ◌*◌, ◌/◌, ◌%◌, ◌^◌, Bool, List, [], ◌∷◌, ◌++◌, Option, some, none, ltb,
  ◌==◌, if◌then◌else◌, bit_xor, length, get_or, take, drop,
}
use cloud_project.Prelude.Int.{ℤ, pos, negsuc, ltb_ℤ}
use cloud_project.BTree.Keys.{cust_memcmp}

-- The word of a signed integer, and the signed integer of a word, of `2 ^ 32` or `2 ^ 64` values.
abbrev pub word_of : (size : ℕ) → ℤ → ℕ
word_of size (pos n) = n % size
word_of size (negsuc n) = (size - 1 - n) % size

abbrev pub signed_of : (size : ℕ) → ℕ → ℤ
signed_of size u = if ltb u (size / 2) then pos u else negsuc (size - u - 1)

-- The bytes of a word, the highest first: `bswap` and a store, on a little endian machine.
unfoldable pub bytes4 : ℕ → List ℕ
bytes4 u = u / 2 ^ 24 % 256 ∷ u / 2 ^ 16 % 256 ∷ u / 2 ^ 8 % 256 ∷ u % 256 ∷ []

unfoldable pub bytes8 : ℕ → List ℕ
bytes8 u = bytes4 (u / 2 ^ 32) ++ bytes4 (u % 2 ^ 32)

-- A load and `bswap`, with what stands behind; `none` when there are not as many bytes.
unfoldable pub load4 : List ℕ → Option (ℕ × List ℕ)
load4 (a ∷ b ∷ c ∷ d ∷ rest) = some (((a * 2 ^ 8 + b) * 2 ^ 8 + c) * 2 ^ 8 + d, rest)
load4 _ = none

unfoldable pub load8 : List ℕ → Option (ℕ × List ℕ)
load8 (a ∷ b ∷ c ∷ d ∷ e ∷ f ∷ g ∷ h ∷ rest) = some (
  ((((((a * 2 ^ 8 + b) * 2 ^ 8 + c) * 2 ^ 8 + d) * 2 ^ 8 + e) * 2 ^ 8 + f) * 2 ^ 8 + g) * 2 ^ 8 + h,
  rest,
)
load8 _ = none

unfoldable pub fold_integer : ℤ → List ℕ
fold_integer x = bytes4 (bit_xor (word_of (2 ^ 32) x) (2 ^ 31))

unfoldable pub fold_timestamp : ℤ → List ℕ
fold_timestamp x = bytes8 (bit_xor (word_of (2 ^ 64) x) (2 ^ 63))

unfoldable pub fold_u64 : ℕ → List ℕ
fold_u64 x = bytes8 x

-- A string without a zero byte, with one behind it.
unfoldable pub fold_varchar : List ℕ → List ℕ
fold_varchar str = str ++ (0 ∷ [])

abbrev pub map_first : {A B : Type 0} → (A → B) → Option (A × List ℕ) → Option (B × List ℕ)
map_first f none = none
map_first f (some (x, rest)) = some (f x, rest)

unfoldable pub unfold_integer : List ℕ → Option (ℤ × List ℕ)
unfold_integer input = map_first (λ u. signed_of (2 ^ 32) (bit_xor u (2 ^ 31))) (load4 input)

unfoldable pub unfold_timestamp : List ℕ → Option (ℤ × List ℕ)
unfold_timestamp input = map_first (λ u. signed_of (2 ^ 64) (bit_xor u (2 ^ 63))) (load8 input)

unfoldable pub unfold_u64 : List ℕ → Option (ℕ × List ℕ)
unfold_u64 input = load8 input

-- Up to the zero byte, which `strlen` finds.
unfoldable pub unfold_varchar : List ℕ → Option (List ℕ × List ℕ)
unfold_varchar [] = none
unfold_varchar (x ∷ input) =
    let rest = unfold_varchar input in if x == 0 then some ([], input) else map_first (◌∷◌ x) rest
