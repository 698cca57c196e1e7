-- ===== src/FrameTable/Map.antt =====
-- ht.hpp: the whole table as a map from page ids to frames.
use cloud_project.Prelude.{
  ℕ, suc, ◌-◌, ◌*◌, ◌/◌, ◌<◌, ◌≡◌, ◌≢◌, refl, sym, ap, ◌∙◌, arith, false, Option, some, ◌==◌,
  ==_iff, ne→==_false, Bool-cases, inl, inr, if◌then◌else◌, max_u64, set, length, length-set,
  get_or-set_self, get_or-set_ne, done,
}
use mathlib.Core.Path.{subst}
use cloud_project.FrameTable.Frames.{BufferFrame, Bucket, EntryQueue, frames, fresh_bucket}
use cloud_project.FrameTable.Chain.{lookup}
use cloud_project.FrameTable.Rounds.{Round, answer}
use cloud_project.FrameTable.Table.{Table, index, bucket_at, on_bucket, retry}
use cloud_project.FrameTable.Locks.{HasRoom, Keeps, frame_at}
use cloud_project.FrameTable.Locks as Locks

module _ (q : EntryQueue) (hash : ℕ → ℕ) where
  -- The bucket of a page id, and its frame.
  abbrev pub place_of : ℕ → Table q → ℕ
  place_of pid t = index q (hash pid) t

  abbrev pub bucket_of : ℕ → Table q → Bucket
  bucket_of pid t = bucket_at q (place_of pid t) t

  abbrev pub frame_of : ℕ → Table q → Option BufferFrame
  frame_of pid t = lookup pid (frames (bucket_of pid t))

  -- Between two operations.
  pub record IsValid (Free : q.Queue → Type 0) (t : Table q) : Type 0 where
    pub some_buckets : 0 < length t.buckets
    pub buckets : (i : ℕ) → Locks.IsValid (bucket_at q i t)
    pub entries : Free t.entries

  pub index_bound : (n : ℕ) (t : Table q) → 0 < length t.buckets → index q n t < length t.buckets
  unfolding index
  index_bound n t h = grind arith

  -- A table with another bucket for a page id.
  abbrev pub with_bucket : ℕ → Bucket → q.Queue → Table q → Table q
  with_bucket pid b' entries' t = record {
    buckets = set t.buckets (place_of pid t) b';
    entries = entries';
  }

  pub step_lem {ℓ} :
      {A : Type ℓ} (rounds pid : ℕ) (op : Bucket → q.Queue → Option (Round (A × Bucket × q.Queue)))
      (t : Table q) (a : A) (b' : Bucket) (entries' : q.Queue)
      → op (bucket_of pid t) t.entries ≡ some (answer (a, b', entries'))
      → on_bucket q (suc rounds) (hash pid) op t ≡ done (a, with_bucket pid b' entries' t)
  unfolding on_bucket retry
  step_lem rounds pid op t a b' entries' h = rw h refl

  module _ (Free : q.Queue → Type 0) (pid : ℕ) (b' : Bucket) (entries' : q.Queue) (t : Table q)
      (v : IsValid Free t) where
    abbrev t' : Table q
    t' = with_bucket pid b' entries' t

    pub same_length : length t'.buckets ≡ length t.buckets
    same_length = length-set t.buckets (place_of pid t) b'

    pub same_place : (p : ℕ) → place_of p t' ≡ place_of p t
    unfolding index
    same_place p = ap (λ (n : ℕ). hash p - hash p / n * n) same_length

    pub at_place : bucket_at q (place_of pid t) t' ≡ b'
    at_place =
        get_or-set_self t.buckets (place_of pid t) b' fresh_bucket
          (index_bound (hash pid) t v.some_buckets)

    pub with_bucket-IsValid : Locks.IsValid b' → Free entries' → IsValid Free t'
    with_bucket-IsValid vb free = record {
      some_buckets = subst (λ n. 0 < n) (sym same_length) v.some_buckets;
      buckets = λ i. elim (Bool-cases (i == place_of pid t)) [
        | inl here ↦
            subst Locks.IsValid
              (sym (ap (λ j. bucket_at q j t') ((==_iff i (place_of pid t)).0 here) ∙ at_place)) vb
        | inr other ↦
            subst Locks.IsValid
              (sym (
                get_or-set_ne t.buckets (place_of pid t) i b' fresh_bucket
                  (λ e. ground (arith, e))))
              (v.buckets i)
      ];
      entries = free;
    }

    -- What changes in the bucket is all that changes in the table.
    pub with_bucket-lookups :
        (o : Option BufferFrame)
        → ((p : ℕ)
            → p ≢ max_u64
            → lookup p (frames b') ≡ (if p == pid then o else lookup p (frames (bucket_of pid t))))
        → (p : ℕ) → p ≢ max_u64
        → frame_of p t' ≡ (if p == pid then o else frame_of p t)
    with_bucket-lookups o change p real = elim (Bool-cases (place_of p t == place_of pid t)) [
      | inl here ↦
          let e : place_of p t ≡ place_of pid t = (==_iff _ _).0 here in
          let same : bucket_of p t' ≡ b' =
            ap (λ j. bucket_at q j t') (same_place p ∙ e) ∙ at_place in
          ap (λ b. lookup p (frames b)) same
          ∙ change p real
          ∙ ap (λ j. if p == pid then o else lookup p (frames (bucket_at q j t))) (sym e)
      | inr other ↦
          let ne : (p == pid) ≡ false =
            ne→==_false p pid (λ e. ground (arith, ap (λ x. place_of x t) e)) in
          let kept : bucket_of p t' ≡ bucket_of p t =
            ap (λ j. bucket_at q j t') (same_place p)
            ∙ get_or-set_ne t.buckets (place_of pid t) (place_of p t) b' fresh_bucket
                (λ e. ground (arith, e)) in
          rw ne (ap (λ b. lookup p (frames b)) kept)
    ]
