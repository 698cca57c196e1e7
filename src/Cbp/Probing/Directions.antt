-- ===== src/Cbp/Probing/Directions.antt =====
-- cbp.hpp, TPB: the directions of probes.
use cloud_project.Prelude.{
  ℕ, ◌+◌, ◌≤◌, ◌<◌, ◌≡◌, inl, inr, refl, ap, ◌∙◌, arith, ltb, if◌then◌else◌, u8, Bool-cases, ltb→lt,
  le→ltb_false, lt→ltb,
}
use cloud_project.Prelude.Int.{ℤ, pos, negsuc, ◌+ℤ◌, neg, pos_part}
use cloud_project.Cbp.Defs.{min_log, max_log}
use cloud_project.Cbp.HillClimb.Laws.{IsDir}
use cloud_project.Cbp.Probing.{probe_dir, tried}

pub probe_dir_again :
    (base : ℕ) (d : ℤ)
    → IsDir d
    → min_log ≤ base
    → base ≤ max_log
    → probe_dir base (probe_dir base d) ≡ probe_dir base d
unfolding probe_dir
probe_dir_again base d (inl e) low high = rw e (ground arith)
probe_dir_again base d (inr e) low high = rw e (ground arith)

pub up_from : (b : ℕ) → b < max_log → tried b (pos 1) ≡ b + 1
unfolding probe_dir tried
up_from b high = ground arith

pub down_from : (b : ℕ) → min_log < b → b ≤ max_log → tried b (negsuc 0) + 1 ≡ b
unfolding probe_dir tried
down_from b low high = ground arith

-- A probe goes up below the upper limit, or down above the lower one.
pub data Goes (base : ℕ) (d : ℤ) : Type 0 where
  up : base < max_log → probe_dir base d ≡ pos 1 → tried base d ≡ base + 1 → Goes base d
  down : min_log < base → probe_dir base d ≡ negsuc 0 → tried base d + 1 ≡ base → Goes base d

pub goes : (base : ℕ) (d : ℤ) → IsDir d → min_log ≤ base → base ≤ max_log → Goes base d
unfolding probe_dir tried
goes base d (inl e) low high = elim (Bool-cases (ltb base max_log)) [
  | inl room ↦ up (ltb→lt _ _ room) (rw e (ground arith)) (rw e (ground arith))
  | inr top ↦ down (ground arith) (rw e (ground arith)) (rw e (ground arith))
]
goes base d (inr e) low high = elim (Bool-cases (ltb min_log base)) [
  | inl room ↦ down (ltb→lt _ _ room) (rw e (ground arith)) (rw e (ground arith))
  | inr bottom ↦ up (ground arith) (rw e (ground arith)) (rw e (ground arith))
]

-- An adopted probe leaves the direction back to the exponent that it came from.
pub turned :
    (base : ℕ) (d : ℤ)
    → Goes base d
    → (if ltb base (tried base d) then negsuc 0 else pos 1) ≡ neg (probe_dir base d)
turned base d (up high way e) = rw (way, e, lt→ltb base (base + 1) (omega arith)) refl
turned base d (down low way e) = rw (way, le→ltb_false base (tried base d) (omega arith)) refl

pub tried_back :
    (base : ℕ) (d : ℤ)
    → min_log ≤ base
    → base ≤ max_log
    → Goes base d
    → tried (tried base d) (neg (probe_dir base d)) ≡ base
tried_back base d low high (up h way e) =
    rw (way, e) (omega (arith, down_from (base + 1) (omega arith) (omega arith)))
tried_back base d low high (down l way e) = rw way (up_from (tried base d) (omega arith) ∙ e)

pub tried_again :
    (base : ℕ) (d : ℤ)
    → IsDir d
    → min_log ≤ base
    → base ≤ max_log
    → tried base (probe_dir base d) ≡ tried base d
unfolding tried
tried_again base d way low high =
    ap (λ x. u8 (pos_part (pos base +ℤ x))) (probe_dir_again base d way low high)
