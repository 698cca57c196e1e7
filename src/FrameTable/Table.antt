-- ===== src/FrameTable/Table.antt =====
-- ht.hpp: insert, remove and access as a whole.
use cloud_project.Prelude.{
  ℕ, zero, suc, ◌-◌, ◌*◌, ◌/◌, Bool, Option, none, some, List, Run, done, aborted, out_of_rounds,
  get_or, set, length,
}
use cloud_project.FrameTable.Frames.{EntryQueue, Bucket, fresh_bucket, Place}
use cloud_project.FrameTable.Rounds.{
  Round, restart, answer, insert_round, remove_round, access_round,
}

-- The loop around the rounds; nobody else changes the bucket between them.
unfoldable pub retry {ℓ} : {A : Type ℓ} → (rounds : ℕ) → Option (Round A) → Run A
retry zero r = out_of_rounds
retry (suc rounds) none = aborted
retry (suc rounds) (some restart) = retry rounds (some restart)
retry (suc rounds) (some (answer a)) = done a

module _ (q : EntryQueue) where
  open q use {Queue}

  pub record Table : Type 0 where
    pub buckets : List Bucket
    pub entries : Queue

  -- `hash - hash / countDivider * count`
  unfoldable pub index : (hash : ℕ) → Table → ℕ
  index hash t = hash - hash / length t.buckets * length t.buckets

  abbrev pub bucket_at : ℕ → Table → Bucket
  bucket_at i t = get_or t.buckets i fresh_bucket

  -- A bucket's operation as one of the table.
  unfoldable pub on_bucket {ℓ} :
      {A : Type ℓ}
      → (rounds hash : ℕ) (op : Bucket → Queue → Option (Round (A × Bucket × Queue))) → Table
      → Run (A × Table)
  on_bucket {A} rounds hash op t = store (retry rounds (op (bucket_at (index hash t) t) t.entries))
    where
      store : Run (A × Bucket × Queue) → Run (A × Table)
      store (done r) =
          done (r.0, record { buckets = set t.buckets (index hash t) (r.1); entries = r.2 })
      store aborted = aborted
      store out_of_rounds = out_of_rounds

  unfoldable pub insert : (rounds pid hash : ℕ) → Table → Run (Option Place × Table)
  insert rounds pid hash t = on_bucket rounds hash (insert_round q pid) t

  unfoldable pub remove : (rounds pid hash : ℕ) → Table → Run (Bool × Table)
  remove rounds pid hash t = on_bucket rounds hash (remove_round q pid) t

  unfoldable pub access :
      (move : Bool) (random rounds pid hash : ℕ) → Table → Run (Option (Place × ℕ) × Table)
  access move random rounds pid hash t = on_bucket rounds hash (access_round q move random pid) t
