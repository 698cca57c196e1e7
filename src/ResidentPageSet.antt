-- ===== src/ResidentPageSet.antt =====
-- repo/PrediCache/page.hpp, `struct ResidentPageSet`: an open addressing hash table of the page ids
-- that are cached, with tombstones and a clock hand. A loop takes a number of rounds; where it
-- needs more than there are slots, the program's loop goes round for ever.
pub mod Probe
pub mod Members
pub mod Insert
pub mod Remove
pub mod Make
pub mod Clock
mod Tests
use cloud_project.Prelude.{
  ℕ, zero, suc, ◌+◌, ◌-◌, ◌*◌, ◌/◌, ◌%◌, ◌^◌, Bool, true, false, ◌&&◌, ◌||◌, Option, none, some,
  List, [], ◌∷◌, ◌==◌, ltb, if◌then◌else◌, get_or, set, replicate, Run, done, aborted,
  out_of_rounds, u64, shr, max_u64, bit_and, bit_xor, not,
}

abbrev pub empty : ℕ
empty = max_u64

abbrev pub tombstone : ℕ
tombstone = 0xffff_ffff_ffff_fffe

pub record ResidentPageSet : Type 0 where
  pub ht : List ℕ
  pub count : ℕ
  pub mask : ℕ
  pub clock_pos : ℕ
  pub size : ℕ

-- How many binary digits `n` has: 64 less `__builtin_clzl(n)`.
bit_length_below : ℕ → ℕ → ℕ
bit_length_below zero n = 0
bit_length_below (suc f) n = let rest = bit_length_below f (n / 2) in if n == 0 then 0 else rest + 1

unfoldable pub bit_length : ℕ → ℕ
unfolding bit_length_below
bit_length n = bit_length_below 64 n

-- `1 << (64 - __builtin_clzl(x - 1))`: the shifted 1 is a 32-bit `int`. `none` is undefined
-- behaviour: the count of leading zeros of 0, and a shift by 32 or more.
unfoldable pub next_pow2 : ℕ → Option ℕ
next_pow2 x =
    let k = bit_length (x - 1) in
    if ltb x 2
    then none
    else if ltb k 31
    then some (2 ^ k)
    else if k == 31
    then some (2 ^ 64 - 2 ^ 31)
    else none

-- The constructor. `maxCount * 1.5` is a double; the product is exact below 2 ^ 52.
unfoldable pub make : ℕ → Option ResidentPageSet
make max_count = elim (next_pow2 (max_count * 3 / 2)) [
  | none ↦ none
  | some count ↦ some (record {
    ht = replicate count empty;
    count = count;
    mask = count - 1;
    clock_pos = 0;
    size = 0;
  })
]

-- The mixing function, on `u64`.
unfoldable pub hash : ℕ → ℕ
hash k =
    let m : ℕ = 0xc6a4a7935bd1e995 in
    let h₀ = bit_xor 0x8445d61a4e774912 (u64 (8 * m)) in
    let k₁ = u64 (k * m) in
    let k₂ = bit_xor k₁ (shr k₁ 47) in
    let k₃ = u64 (k₂ * m) in
    let h₁ = u64 (bit_xor h₀ k₃ * m) in
    let h₂ = u64 (bit_xor h₁ (shr h₁ 47) * m) in bit_xor h₂ (shr h₂ 47)

-- The entry in a slot.
abbrev pub entry : ResidentPageSet → ℕ → ℕ
entry s pos = get_or s.ht pos empty

-- `(pos + 1) & mask`
abbrev pub next_slot : ResidentPageSet → ℕ → ℕ
next_slot s pos = bit_and (pos + 1) s.mask

abbrev pub is_free : ℕ → Bool
is_free curr = curr == empty || curr == tombstone

unfoldable pub fill : ResidentPageSet → ℕ → ℕ → ResidentPageSet
fill s pos pid = record s { ht = set s.ht pos pid; size = u64 (s.size + 1) }

unfoldable pub bury : ResidentPageSet → ℕ → ResidentPageSet
bury s pos = record s { ht = set s.ht pos tombstone; size = u64 (s.size + 2 ^ 64 - 1) }

-- The loop of `insert`: the first empty slot or tombstone takes the page id. With no other thread
-- the compare-exchange succeeds.
unfoldable pub insert_loop : ℕ → ResidentPageSet → ℕ → ℕ → Run ResidentPageSet
insert_loop zero s pid pos = out_of_rounds
insert_loop (suc rounds) s pid pos =
    let rest = insert_loop rounds s pid (next_slot s pos) in
    if entry s pos == pid
    then aborted
    else if is_free (entry s pos)
    then done (fill s pos pid)
    else rest

unfoldable pub insert : ResidentPageSet → ℕ → Run ResidentPageSet
insert s pid = insert_loop s.count s pid (bit_and (hash pid) s.mask)

-- The loop of `remove`: an empty slot ends it, the page id's slot becomes a tombstone.
unfoldable pub remove_loop : ℕ → ResidentPageSet → ℕ → ℕ → Run (Bool × ResidentPageSet)
remove_loop zero s pid pos = out_of_rounds
remove_loop (suc rounds) s pid pos =
    let rest = remove_loop rounds s pid (next_slot s pos) in
    if entry s pos == empty
    then done (false, s)
    else if entry s pos == pid
    then done (true, bury s pos)
    else rest

unfoldable pub remove : ResidentPageSet → ℕ → Run (Bool × ResidentPageSet)
remove s pid = remove_loop s.count s pid (bit_and (hash pid) s.mask)

-- What `fn` does with a page id: it may change the set, and keeps notes of its own.
abbrev pub Visitor : Type 0 → Type 0
Visitor A = ℕ → ResidentPageSet × A → ResidentPageSet × A

-- The `for` loop of `iterateClockBatch`.
unfoldable pub batch_loop :
    {A : Type 0} → ℕ → Visitor A → ℕ → ResidentPageSet × A → ResidentPageSet × A
batch_loop zero fn pos (s, a) = (s, a)
batch_loop (suc rounds) fn pos (s, a) =
    batch_loop rounds fn (next_slot s pos)
      (if is_free (entry s pos) then (s, a) else fn (entry s pos) (s, a))

unfoldable pub iterate_clock_batch :
    {A : Type 0} → ℕ → Visitor A → ResidentPageSet × A → ResidentPageSet × A
iterate_clock_batch batch fn (s, a) =
    batch_loop batch fn s.clock_pos (record s { clock_pos = (s.clock_pos + batch) % s.count }, a)

-- The loop of `iterateAll`, over the slots that are left.
unfoldable pub occupied : List ℕ → List ℕ
occupied [] = []
occupied (curr ∷ slots) = let rest = occupied slots in if is_free curr then rest else curr ∷ rest

unfoldable pub iterate_all : ResidentPageSet → List ℕ
iterate_all s = occupied s.ht
