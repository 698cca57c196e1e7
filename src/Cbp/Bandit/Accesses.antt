-- ===== src/Cbp/Bandit/Accesses.antt =====
-- cbp.hpp, v4: a thread's accesses in a row, counted on its own up to the flush.
use cloud_project.Prelude.{
  ℕ, ◌+◌, ◌≤◌, ◌<◌, ◌≡◌, inl, inr, refl, sym, ap, ◌∙◌, Bool, true, false, ◌||◌, List, [], ◌∷◌,
  arith, ltb, ◌==◌, if◌then◌else◌, u32, sub_u64, length, Bool-cases, lt→ltb, get_or, set,
  get_or-set_self, length-set,
}
use cloud_project.Cbp.Defs.{FloatOps, v4_flush, num_decision_epochs}
use cloud_project.Cbp.Bandit.{
  Two, pick, put, ThreadAcc, Bandit, no_acc, arm_of, epochs, due, adapt, flush, note_access_v4,
}

abbrev with_t_acc : List ThreadAcc → Bandit → Bandit
with_t_acc accs b = record b { t_acc = accs }

-- Accesses of one thread to one class, each with or without a hit.
pub note_all : (fl : FloatOps) (thread cls : ℕ) → List Bool → Bandit → Bandit
note_all fl thread cls [] b = b
note_all fl thread cls (hit ∷ hs) b = note_all fl thread cls hs (note_access_v4 fl thread cls hit b)

pub count : List Bool → ℕ
count [] = 0
count (hit ∷ hs) = (if hit then 1 else 0) + count hs

abbrev pub counted : (thread cls : ℕ) → Bandit → ℕ
counted thread cls b = pick (arm_of cls) (get_or b.t_acc thread no_acc).arm_total

abbrev pub counted_hits : (thread cls : ℕ) → Bandit → ℕ
counted_hits thread cls b = pick (arm_of cls) (get_or b.t_acc thread no_acc).arm_hits

pub record Counts (thread cls t h : ℕ) (b b' : Bandit) : Type 0 where
  pub total : counted thread cls b' ≡ t
  pub hits : counted_hits thread cls b' ≡ h
  pub threads : length b'.t_acc ≡ length b.t_acc
  pub same : b' ≡ record b { t_acc = b'.t_acc }

pick-put : (arm : ℕ) {A : Type 0} (x : A) (t : Two A) → pick arm (put arm x t) ≡ x
pick-put arm x t = elim (Bool-cases (arm == 0)) [ inl e ↦ rw e refl | inr e ↦ rw e refl ]

one_at_most : (hit : Bool) → (if hit then 1 else 0) ≤ 1
one_at_most true = omega arith
one_at_most false = omega arith

note_one :
    (fl : FloatOps) (thread cls t h : ℕ) (hit : Bool) (b : Bandit)
    → thread < length b.t_acc
    → counted thread cls b ≡ t
    → counted_hits thread cls b ≡ h
    → h ≤ t
    → t + 1 < v4_flush
    → Counts thread cls (t + 1) (h + (if hit then 1 else 0)) b (note_access_v4 fl thread cls hit b)
unfolding note_access_v4
note_one fl thread cls t h hit b inside tot hs few room =
    rw (lt→ltb (u32 (counted thread cls b + 1)) v4_flush (omega arith)) (record {
      total =
          ap (λ a. pick (arm_of cls) a.arm_total) (get_or-set_self b.t_acc thread _ no_acc inside)
          ∙ pick-put (arm_of cls) _ _
          ∙ omega arith;
      hits =
          ap (λ a. pick (arm_of cls) a.arm_hits) (get_or-set_self b.t_acc thread _ no_acc inside)
          ∙ pick-put (arm_of cls) _ _
          ∙ omega (arith, one_at_most hit);
      threads = length-set b.t_acc thread _;
      same = refl;
    })

note_some :
    (fl : FloatOps) (thread cls t h : ℕ) (hs : List Bool) (b : Bandit)
    → thread < length b.t_acc
    → counted thread cls b ≡ t
    → counted_hits thread cls b ≡ h
    → h ≤ t
    → t + length hs < v4_flush
    → Counts thread cls (t + length hs) (h + count hs) b (note_all fl thread cls hs b)
unfolding note_all count
note_some fl thread cls t h [] b inside tot hits few room = record {
  total = omega arith;
  hits = omega arith;
  threads = refl;
  same = refl;
}
note_some fl thread cls t h (hit ∷ hs) b inside tot hits few room =
    let after = note_access_v4 fl thread cls hit b in
    let one = note_one fl thread cls t h hit b inside tot hits few (omega arith) in
    let rest =
      note_some fl thread cls (t + 1) (h + (if hit then 1 else 0)) hs after (rw one.threads inside)
        one.total one.hits (omega (arith, one_at_most hit)) (omega arith) in
    record {
      total = rest.total ∙ omega arith;
      hits = rest.hits ∙ omega arith;
      threads = rest.threads ∙ one.threads;
      same = rest.same ∙ ap (with_t_acc (note_all fl thread cls hs after).t_acc) one.same;
    }

adapt_t_acc :
    (fl : FloatOps) (b : Bandit) (accs : List ThreadAcc)
    → adapt fl (record b { t_acc = accs }) ≡ record (adapt fl b) { t_acc = accs }
unfolding adapt due
adapt_t_acc fl b accs =
    elim (Bool-cases (ltb (sub_u64 (epochs b.g_arm) b.last_decision_epoch) num_decision_epochs)) [
      | inl early ↦ rw early refl
      | inr late ↦
          rw late
            (elim (Bool-cases
              (ltb b.g_arm.zeroth.total v4_flush || ltb b.g_arm.first.total v4_flush)) [
                | inl few ↦ rw few refl
                | inr enough ↦ rw enough refl
              ])
    ]

-- What the global counters hold when one full count of a thread has been added.
abbrev pub flushed : (cls h : ℕ) → Bandit → Bandit
flushed cls h b = record b {
  g_arm = put (arm_of cls) (flush v4_flush h (pick (arm_of cls) b.g_arm)) b.g_arm;
}

abbrev emptied : (thread cls : ℕ) → Bandit → List ThreadAcc
emptied thread cls b = set b.t_acc thread (record {
  arm_total = put (arm_of cls) 0 (get_or b.t_acc thread no_acc).arm_total;
  arm_hits = put (arm_of cls) 0 (get_or b.t_acc thread no_acc).arm_hits;
})

note_full :
    (fl : FloatOps) (thread cls h : ℕ) (hit : Bool) (b : Bandit)
    → counted thread cls b + 1 ≡ v4_flush
    → counted_hits thread cls b ≡ h
    → h < v4_flush
    → note_access_v4 fl thread cls hit b
      ≡ with_t_acc (emptied thread cls b) (adapt fl (flushed cls (h + (if hit then 1 else 0)) b))
unfolding note_access_v4
note_full fl thread cls h hit b full hits few =
    let tot : u32 (counted thread cls b + 1) ≡ v4_flush = omega arith in
    let sum : u32 (counted_hits thread cls b + (if hit then 1 else 0))
        ≡ h + (if hit then 1 else 0) =
      omega (arith, one_at_most hit) in
    rw (tot, sum)
      (adapt_t_acc fl (flushed cls (h + (if hit then 1 else 0)) b) (emptied thread cls b))

emptied_counts :
    (thread cls : ℕ) (b b' : Bandit)
    → thread < length b.t_acc
    → (counted thread cls (with_t_acc (emptied thread cls b) b') ≡ 0)
      × (counted_hits thread cls (with_t_acc (emptied thread cls b) b') ≡ 0)
emptied_counts thread cls b b' inside = (
  ap (λ a. pick (arm_of cls) a.arm_total) (get_or-set_self b.t_acc thread _ no_acc inside)
      ∙ pick-put (arm_of cls) 0 _,
  ap (λ a. pick (arm_of cls) a.arm_hits) (get_or-set_self b.t_acc thread _ no_acc inside)
      ∙ pick-put (arm_of cls) 0 _,
)

count_bound : (hs : List Bool) → count hs ≤ length hs
unfolding count
count_bound [] = omega arith
count_bound (hit ∷ hs) = omega (arith, count_bound hs, one_at_most hit)

pub full_count_adapts :
    (fl : FloatOps) (thread cls : ℕ) (hs : List Bool) (hit : Bool) (b : Bandit)
    → thread < length b.t_acc
    → counted thread cls b ≡ 0
    → counted_hits thread cls b ≡ 0
    → length hs + 1 ≡ v4_flush
    → (note_access_v4 fl thread cls hit (note_all fl thread cls hs b)
        ≡ record (adapt fl (flushed cls (count hs + (if hit then 1 else 0)) b)) {
          t_acc = (note_access_v4 fl thread cls hit (note_all fl thread cls hs b)).t_acc;
        })
      × (counted thread cls (note_access_v4 fl thread cls hit (note_all fl thread cls hs b)) ≡ 0)
      × (counted_hits thread cls (note_access_v4 fl thread cls hit (note_all fl thread cls hs b))
          ≡ 0)
full_count_adapts fl thread cls hs hit b inside tot hits full = (
  last ∙ again ∙ ap (λ l. with_t_acc l whole) (sym (ap accs last)),
  rw last none_left.0,
  rw last none_left.1,
)
  where
    accs : Bandit → List ThreadAcc
    accs b' = b'.t_acc

    h : ℕ
    h = count hs + (if hit then 1 else 0)

    b1 : Bandit
    b1 = note_all fl thread cls hs b

    whole : Bandit
    whole = adapt fl (flushed cls h b)

    some_counts : Counts thread cls (0 + length hs) (0 + count hs) b b1
    some_counts = note_some fl thread cls 0 0 hs b inside tot hits (omega arith) (omega arith)

    last :
        note_access_v4 fl thread cls hit b1
        ≡ with_t_acc (emptied thread cls b1) (adapt fl (flushed cls h b1))
    last =
        note_full fl thread cls (count hs) hit b1 (omega (arith, some_counts.total))
          (some_counts.hits ∙ omega arith) (omega (arith, count_bound hs))

    again :
        with_t_acc (emptied thread cls b1) (adapt fl (flushed cls h b1))
        ≡ with_t_acc (emptied thread cls b1) whole
    again =
        ap (λ x. with_t_acc (emptied thread cls b1) (adapt fl (flushed cls h x))) some_counts.same
        ∙ ap (with_t_acc (emptied thread cls b1)) (adapt_t_acc fl (flushed cls h b) b1.t_acc)

    none_left :
        (counted thread cls (with_t_acc (emptied thread cls b1) (adapt fl (flushed cls h b1))) ≡ 0)
        × (counted_hits thread cls
              (with_t_acc (emptied thread cls b1) (adapt fl (flushed cls h b1)))
            ≡ 0)
    none_left =
        emptied_counts thread cls b1 (adapt fl (flushed cls h b1)) (rw some_counts.threads inside)
