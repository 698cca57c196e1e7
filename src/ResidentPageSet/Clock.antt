-- ===== src/ResidentPageSet/Clock.antt =====
-- page.hpp, `ResidentPageSet::iterateClockBatch`: the clock hand goes round all slots.
use mathlib.Core.Path.{subst}
use native.Mathlib.Nat.{mod-lt, mod-add-mod, mod-eq_of_lt, zero-add, add-zero}
use cloud_project.Prelude.{
  ℕ, zero, suc, ◌+◌, ◌-◌, ◌*◌, ◌%◌, ◌≤◌, ◌<◌, ◌≡◌, ◌⊎◌, inl, inr, refl, sym, ap, ◌∙◌, Bool, true,
  false, List, [], ◌∷◌, ◌++◌, arith, Bool-cases, if◌then◌else◌, dec_lt,
}
use cloud_project.ResidentPageSet.{
  ResidentPageSet, entry, is_free, next_slot, Visitor, batch_loop, iterate_clock_batch,
}
use cloud_project.ResidentPageSet.Probe.{IsShaped, slot, next_slot_lem}
use cloud_project.ResidentPageSet.Members.{IsMember, distance}

-- A visitor that only notes the page ids.
abbrev pub note : Visitor (List ℕ)
note pid (s, notes) = (s, notes ++ pid ∷ [])

abbrev pub Noted : ℕ → List ℕ → Type 0
Noted q [] = ⊥
Noted q (x ∷ xs) = (x ≡ q) ⊎ Noted q xs

Noted-append : (q : ℕ) (xs ys : List ℕ) → Noted q xs → Noted q (xs ++ ys)
Noted-append q [] ys h = absurd h
Noted-append q (x ∷ xs) ys (inl e) = inl e
Noted-append q (x ∷ xs) ys (inr h) = inr (Noted-append q xs ys h)

Noted-append_last : (q : ℕ) (xs : List ℕ) → Noted q (xs ++ q ∷ [])
Noted-append_last q [] = inl refl
Noted-append_last q (x ∷ xs) = inr (Noted-append_last q xs)

-- `calls` calls in a row, each with the same batch.
pub clock_calls : ℕ → ℕ → ResidentPageSet × List ℕ → ResidentPageSet × List ℕ
clock_calls zero batch r = r
clock_calls (suc calls) batch r = clock_calls calls batch (iterate_clock_batch batch note r)

module _ (k : ℕ) (s : ResidentPageSet) (shaped : IsShaped k s) where
  open shaped use {some_slot}

  -- One round: a free slot is passed over, a page id is noted.
  batch_loop-skip :
      (n pos : ℕ) (notes : List ℕ)
      → is_free (entry s pos) ≡ true
      → batch_loop (suc n) note pos (s, notes) ≡ batch_loop n note (next_slot s pos) (s, notes)
  unfolding batch_loop
  batch_loop-skip n pos notes skip =
      ap
        (λ (b : Bool).
          batch_loop n note (next_slot s pos)
            (if b then (s, notes) else (s, notes ++ entry s pos ∷ [])))
        skip

  batch_loop-visit :
      (n pos : ℕ) (notes : List ℕ)
      → is_free (entry s pos) ≡ false
      → batch_loop (suc n) note pos (s, notes)
        ≡ batch_loop n note (next_slot s pos) (s, notes ++ entry s pos ∷ [])
  unfolding batch_loop
  batch_loop-visit n pos notes visit =
      ap
        (λ (b : Bool).
          batch_loop n note (next_slot s pos)
            (if b then (s, notes) else (s, notes ++ entry s pos ∷ [])))
        visit

  batch_loop-keeps : (n pos : ℕ) (notes : List ℕ) → (batch_loop n note pos (s, notes)).0 ≡ s
  unfolding batch_loop
  batch_loop-keeps zero pos notes = refl
  batch_loop-keeps (suc n) pos notes = elim (Bool-cases (is_free (entry s pos))) [
    | inl skip ↦
        ap (λ (r : ResidentPageSet × List ℕ). r.0) (batch_loop-skip n pos notes skip)
        ∙ batch_loop-keeps n (next_slot s pos) notes
    | inr visit ↦
        ap (λ (r : ResidentPageSet × List ℕ). r.0) (batch_loop-visit n pos notes visit)
        ∙ batch_loop-keeps n (next_slot s pos) (notes ++ entry s pos ∷ [])
  ]

  batch_loop-Noted_old :
      (q n pos : ℕ) (notes : List ℕ) → Noted q notes → Noted q (batch_loop n note pos (s, notes)).1
  unfolding batch_loop
  batch_loop-Noted_old q zero pos notes old = old
  batch_loop-Noted_old q (suc n) pos notes old = elim (Bool-cases (is_free (entry s pos))) [
    | inl skip ↦
        subst (λ r. Noted q r.1) (sym (batch_loop-skip n pos notes skip))
          (batch_loop-Noted_old q n (next_slot s pos) notes old)
    | inr visit ↦
        subst (λ r. Noted q r.1) (sym (batch_loop-visit n pos notes visit))
          (batch_loop-Noted_old q n (next_slot s pos) (notes ++ entry s pos ∷ [])
            (Noted-append q notes _ old))
  ]

  -- A batch of `n` from slot `p` notes the page id `e` steps on.
  batch_loop-Noted :
      (q p e d n : ℕ) (notes : List ℕ)
      → is_free q ≡ false
      → e < n
      → entry s (slot k s shaped p (d + e)) ≡ q
      → Noted q (batch_loop n note (slot k s shaped p d) (s, notes)).1
  batch_loop-Noted q p e d zero notes real h there = absurd (omega arith)
  batch_loop-Noted q p zero d (suc n) notes real h there =
      let here : entry s (slot k s shaped p d) ≡ q = rw add-zero at there in
      subst (λ r. Noted q r.1) (sym (batch_loop-visit n (slot k s shaped p d) notes (rw here real)))
        (batch_loop-Noted_old q n _ _
          (subst (λ t. Noted q (notes ++ t ∷ [])) (sym here) (Noted-append_last q notes)))
  batch_loop-Noted q p (suc e) d (suc n) notes real h there =
      let there' : entry s (slot k s shaped p (suc d + e)) ≡ q =
        subst (λ t. entry s (slot k s shaped p t) ≡ q) (omega arith) there in
      elim (Bool-cases (is_free (entry s (slot k s shaped p d)))) [
        | inl skip ↦
            subst (λ r. Noted q r.1) (sym (batch_loop-skip n (slot k s shaped p d) notes skip))
              (rw (next_slot_lem k s shaped p d)
                (batch_loop-Noted q p e (suc d) n notes real (omega arith) there'))
        | inr visit ↦
            subst (λ r. Noted q r.1) (sym (batch_loop-visit n (slot k s shaped p d) notes visit))
              (rw (next_slot_lem k s shaped p d)
                (batch_loop-Noted q p e (suc d) n _ real (omega arith) there'))
      ]

-- The hand after one call.
abbrev advance : ℕ → ResidentPageSet → ResidentPageSet
advance batch s = record s { clock_pos = (s.clock_pos + batch) % s.count }

module _ (k batch : ℕ) (q : ℕ) where
  advance-IsShaped : (s : ResidentPageSet) → IsShaped k s → IsShaped k (advance batch s)
  advance-IsShaped s shaped = record {
    slots = shaped.slots;
    masked = shaped.masked;
    stored = shaped.stored;
    some_slot = shaped.some_slot;
  }

  -- One call, with the set and the notes apart.
  iterate_lem :
      (s : ResidentPageSet) (notes : List ℕ)
      → IsShaped k s
      → iterate_clock_batch batch note (s, notes)
        ≡ (advance batch s, (batch_loop batch note s.clock_pos (advance batch s, notes)).1)
  unfolding iterate_clock_batch
  iterate_lem s notes shaped =
      ap
        (λ (t : ResidentPageSet).
          (t, (batch_loop batch note s.clock_pos (advance batch s, notes)).1))
        (batch_loop-keeps k (advance batch s) (advance-IsShaped s shaped) batch s.clock_pos notes)

  clock_calls-suc :
      (calls : ℕ) (s : ResidentPageSet) (notes : List ℕ)
      → IsShaped k s
      → clock_calls (suc calls) batch (s, notes)
        ≡ clock_calls calls batch
            (advance batch s, (batch_loop batch note s.clock_pos (advance batch s, notes)).1)
  unfolding clock_calls
  clock_calls-suc calls s notes shaped = ap (clock_calls calls batch) (iterate_lem s notes shaped)

  clock_calls-Noted_old :
      (calls : ℕ) (s : ResidentPageSet) (notes : List ℕ)
      → IsShaped k s
      → Noted q notes
      → Noted q (clock_calls calls batch (s, notes)).1
  unfolding clock_calls
  clock_calls-Noted_old zero s notes shaped old = old
  clock_calls-Noted_old (suc calls) s notes shaped old =
      subst (λ r. Noted q r.1) (sym (clock_calls-suc calls s notes shaped))
        (clock_calls-Noted_old calls (advance batch s) _ (advance-IsShaped s shaped) (
          batch_loop-Noted_old k (advance batch s) (advance-IsShaped s shaped) q batch s.clock_pos
            notes old))

  clock_calls-Noted :
      (calls far : ℕ) (s : ResidentPageSet) (notes : List ℕ)
      → IsShaped k s
      → s.clock_pos < s.count
      → is_free q ≡ false
      → far < calls * batch
      → entry s ((s.clock_pos + far) % s.count) ≡ q
      → Noted q (clock_calls calls batch (s, notes)).1
  unfolding clock_calls
  clock_calls-Noted zero far s notes shaped hand real h there = absurd (omega arith)
  clock_calls-Noted (suc calls) far s notes shaped hand real h there = elim (dec_lt far batch) [
    | yes now ↦
        subst (λ r. Noted q r.1) (sym (clock_calls-suc calls s notes shaped))
          (clock_calls-Noted_old calls s' _ shaped' (
            subst (λ p. Noted q (batch_loop batch note p (s', notes)).1) start
              (batch_loop-Noted k s' shaped' q s.clock_pos far 0 batch notes real now
                (rw zero-add there))))
    | no later ↦
        subst (λ r. Noted q r.1) (sym (clock_calls-suc calls s notes shaped))
          (clock_calls-Noted calls (far - batch) s' _ shaped' (mod-lt _ shaped.some_slot) real
            (omega arith) (subst (λ t. entry s t ≡ q) (sym (moved (omega arith))) there))
  ]
    where
      s' : ResidentPageSet
      s' = advance batch s

      shaped' : IsShaped k s'
      shaped' = advance-IsShaped s shaped

      start : slot k s' shaped' s.clock_pos 0 ≡ s.clock_pos
      start = ap (λ (t : ℕ). t % s.count) (add-zero s.clock_pos) ∙ mod-eq_of_lt hand

      moved :
          batch ≤ far
          → ((s.clock_pos + batch) % s.count + (far - batch)) % s.count
            ≡ (s.clock_pos + far) % s.count
      moved le =
          mod-add-mod (s.clock_pos + batch) s.count (far - batch)
          ∙ ap (λ (t : ℕ). t % s.count) (omega arith)

-- As many calls in a row as it takes to step over all slots visit every page id in the set, from
-- wherever the hand stands.
pub clock_calls_all :
    (k batch calls q : ℕ) (s : ResidentPageSet)
    → IsShaped k s
    → s.clock_pos < s.count
    → s.count ≤ calls * batch
    → IsMember q s
    → Noted q (clock_calls calls batch (s, [])).1
clock_calls_all k batch calls q s shaped hand enough (i, h, here, real) =
    let (far, near, there) = distance s.count s.clock_pos i h in
    clock_calls-Noted k batch q calls far s [] shaped hand real (omega arith) (rw there here)
