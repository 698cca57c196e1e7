-- ===== src/FrameTable/Operations.antt =====
-- ht.hpp: what insert, remove and access do to the table as a map from page ids to frames.
use cloud_project.Prelude.{
  sym, ℕ, zero, suc, ◌+◌, ◌^◌, ◌<◌, ◌≡◌, ◌≢◌, refl, ap, ◌∙◌, arith, Bool, true, Option, none, some,
  ◌==◌, if◌then◌else◌, max_u64, List, [], ◌∷◌, get_or, set, length, done,
}
use mathlib.Core.Path.{subst}
use cloud_project.PageState.{locked, get_state, version_of}
use cloud_project.FrameTable.Frames.{BufferFrame, EntryQueue, Place, fresh_bucket}
use cloud_project.FrameTable.Rounds.{insert_round, remove_round, access_round}
use cloud_project.FrameTable.Table.{Table, bucket_at, insert, remove, access}
use cloud_project.FrameTable.Locks.{HasRoom, Keeps, frame_at}
use cloud_project.FrameTable.Insert.{insert_round-present}
use cloud_project.FrameTable.Remove.{Frees, remove_round-Drops}
use cloud_project.FrameTable.Access.{Answers, access_round-Answers}
use cloud_project.FrameTable.Map.{
  place_of, bucket_of, frame_of, IsValid, with_bucket, index_bound, step_lem, with_bucket-IsValid,
  with_bucket-lookups, at_place, same_place,
}

set-get_or {ℓ} :
    {A : Type ℓ} (xs : List A) (i : ℕ) (d : A) → i < length xs → set xs i (get_or xs i d) ≡ xs
set-get_or [] i d h = refl
set-get_or (x ∷ xs) zero d h = refl
set-get_or (x ∷ xs) (suc i) d h = ap (◌∷◌ x) (set-get_or xs i d (omega arith))

module _ (q : EntryQueue) (hash : ℕ → ℕ) (Free : q.Queue → Type 0) where
  -- The map after an operation: what it holds for `pid`, and otherwise what it held.
  abbrev pub Becomes : (pid : ℕ) → Option BufferFrame → (t t' : Table q) → Type 0
  Becomes pid o t t' =
      (p : ℕ) → p ≢ max_u64 → frame_of q hash p t' ≡ (if p == pid then o else frame_of q hash p t)

  -- A new entry: locked exclusively, for the page id, and where the returned pointer points to.
  pub record Registers (pid : ℕ) (t : Table q) (place : Place) (t' : Table q) : Type 0 where
    pub frame : BufferFrame
    pub there : frame_at place (bucket_of q hash pid t') ≡ frame
    pub page_of : frame.pid ≡ pid
    pub held : get_state frame.state ≡ locked
    pub becomes : Becomes pid (some frame) t t'
    pub valid : IsValid q hash Free t'

  module _ (keeps : Keeps q Free) (rounds pid : ℕ) (t : Table q) (v : IsValid q hash Free t) where
    unchanged : with_bucket q hash pid (bucket_of q hash pid t) t.entries t ≡ t
    unchanged =
        ap (λ bs. record t { buckets = bs })
          (set-get_or t.buckets (place_of q hash pid t) fresh_bucket
            (index_bound q hash (hash pid) t v.some_buckets))

    module _ (real : pid ≢ max_u64) (room : HasRoom (bucket_of q hash pid t)) where
      -- On a well-formed table, with a bucket that is before its last version, `remove` of a page id
      -- whose entry is locked exclusively, at a version before the last one, answers true and takes
      -- the entry out: the table holds nothing for the page id and what it held for all others, and
      -- stays well-formed. The entry is freed at the next version: in the head, if it was there, with
      -- the queue as it was, and otherwise it is put in the queue.
      pub remove-Frees :
          (f : BufferFrame)
          → frame_of q hash pid t ≡ some f
          → get_state f.state ≡ locked
          → version_of f.state + 1 < 2 ^ 56
          → (t' : Table q) × (remove q (suc rounds) pid (hash pid) t ≡ done (true, t'))
            × Becomes pid none t t'
            × IsValid q hash Free t'
            × Frees q pid f (bucket_of q hash pid t) (bucket_of q hash pid t') t.entries t'.entries
      unfolding remove
      remove-Frees f present held count =
          let b = bucket_of q hash pid t in
          let (b', entries', e, drops, free, frees) =
            remove_round-Drops pid b (v.buckets (place_of q hash pid t)) room real q Free keeps
              t.entries v.entries f present held count in
          (
            with_bucket q hash pid b' entries' t,
            step_lem q hash rounds pid (remove_round q pid) t true b' entries' e,
            with_bucket-lookups q hash Free pid b' entries' t v none drops.lookups,
            with_bucket-IsValid q hash Free pid b' entries' t v drops.valid free,
            subst (λ x. Frees q pid f b x t.entries entries')
                (sym (
                  ap (λ j. bucket_at q j (with_bucket q hash pid b' entries' t))
                    (same_place q hash Free pid b' entries' t v pid)
                  ∙ at_place q hash Free pid b' entries' t v))
                frees,
          )

    -- `insert` of a page id that has an entry returns the null pointer and changes nothing.
    pub insert_present :
        (f : BufferFrame)
        → frame_of q hash pid t ≡ some f
        → insert q (suc rounds) pid (hash pid) t ≡ done (none, t)
    unfolding insert
    insert_present f present =
        let b = bucket_of q hash pid t in
        step_lem q hash rounds pid (insert_round q pid) t none b t.entries
          (insert_round-present q pid b t.entries f (v.buckets (place_of q hash pid t)) present)
        ∙ ap (λ x. done (none, x)) unchanged

    -- Whatever the random number is, and with and without `move`, `access` returns the entry that
    -- the table has for the page id with the entry's word, or the null pointer when it has none,
    -- and changes nothing: the branch that moves an entry of the chain to an empty head is dead.
    pub access-Answers :
        (move : Bool) (random : ℕ)
        → (reply : Option (Place × ℕ)) × (access q move random (suc rounds) pid (hash pid) t
            ≡ done (reply, t))
          × Answers (bucket_of q hash pid t) (frame_of q hash pid t) reply
    unfolding access
    access-Answers move random =
        let b = bucket_of q hash pid t in
        let (reply, e, answers) =
          access_round-Answers q move random pid b t.entries (v.buckets (place_of q hash pid t)) in
        (
          reply,
          step_lem q hash rounds pid (access_round q move random pid) t reply b t.entries e
              ∙ ap (λ x. done (reply, x)) unchanged,
          answers,
        )
