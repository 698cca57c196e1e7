-- ===== src/BTree/Joined.antt =====
-- btree.hpp, mergeNodes: the entries of two neighbours in one node.
use cloud_project.Prelude.{
  ℕ, zero, suc, ◌+◌, ◌-◌, ◌≤◌, ◌<◌, ◌≡◌, ◌⊎◌, ◌↔◌, inl, inr, refl, sym, ap, ◌∙◌, arith, List, [],
  ◌∷◌, ◌++◌, length, ltb, ltb→lt, Bool-cases, ◌==◌, ==_iff,
}
use cloud_project.BTree.Keys.{Before, AreBytes}
use cloud_project.BTree.Update.{common_len}
use cloud_project.BTree.Entries.{Entry}
use cloud_project.BTree.Built.{entry_at, key_at, AreOrdered, Has}
use cloud_project.BTree.Fences.{UpTo, squeezed}

pub length-append_entries : (es fs : List Entry) → length (es ++ fs) ≡ length es + length fs
length-append_entries [] fs = omega arith
length-append_entries (e ∷ es) fs = omega (arith, length-append_entries es fs)

pub entry_at-append_first :
    (es fs : List Entry) (i : ℕ) → i < length es → entry_at (es ++ fs) i ≡ entry_at es i
entry_at-append_first [] fs i h = absurd (omega arith)
entry_at-append_first (e ∷ es) fs zero h = refl
entry_at-append_first (e ∷ es) fs (suc i) h = entry_at-append_first es fs i (omega arith)

pub entry_at-append_second :
    (es fs : List Entry) (i : ℕ) → entry_at (es ++ fs) (length es + i) ≡ entry_at fs i
entry_at-append_second [] fs i = let e : 0 + i ≡ i = omega arith in ap (entry_at fs) e
entry_at-append_second (e ∷ es) fs i =
    let k : suc (length es) + i ≡ suc (length es + i) = omega arith in
    ap (entry_at (e ∷ (es ++ fs))) k ∙ entry_at-append_second es fs i

-- An entry of both lists is one of either.
pub Has-append :
    (k payload : List ℕ) (es fs : List Entry)
    → Has k payload (es ++ fs) ↔ (Has k payload es ⊎ Has k payload fs)
Has-append k payload es fs = (back, forth)
  where
    back : Has k payload (es ++ fs) → Has k payload es ⊎ Has k payload fs
    back h = elim (Bool-cases (ltb h.index (length es))) [
      | inl less ↦ inl (record {
        index = h.index;
        inside = ltb→lt _ _ less;
        there = sym (entry_at-append_first es fs h.index (ltb→lt _ _ less)) ∙ h.there;
      })
      | inr rest ↦
          let le : length es ≤ h.index = ground arith in
          let e : length es + (h.index - length es) ≡ h.index = omega arith in
          inr (record {
            index = h.index - length es;
            inside = omega (arith, h.inside, length-append_entries es fs);
            there =
                sym (entry_at-append_second es fs (h.index - length es))
                ∙ ap (entry_at (es ++ fs)) e
                ∙ h.there;
          })
    ]

    forth : Has k payload es ⊎ Has k payload fs → Has k payload (es ++ fs)
    forth (inl h) = record {
      index = h.index;
      inside = omega (arith, h.inside, length-append_entries es fs);
      there = entry_at-append_first es fs h.index h.inside ∙ h.there;
    }
    forth (inr h) = record {
      index = length es + h.index;
      inside = omega (arith, h.inside, length-append_entries es fs);
      there = entry_at-append_second es fs h.index ∙ h.there;
    }

-- Two ordered lists with all keys of the first one before those of the second one.
module _ (es fs : List Entry) (a : AreOrdered es) (b : AreOrdered fs)
    (apart : (i j : ℕ) → i < length es → j < length fs → Before (key_at es i) (key_at fs j)) where
  data Where (i : ℕ) : Type 0 where
    first : i < length es → key_at (es ++ fs) i ≡ key_at es i → Where i
    second :
        (j : ℕ) → i ≡ length es + j → j < length fs → key_at (es ++ fs) i ≡ key_at fs j → Where i

  locate : (i : ℕ) → i < length (es ++ fs) → Where i
  locate i h = elim (Bool-cases (ltb i (length es))) [
    | inl less ↦
        first (ltb→lt _ _ less) (ap (λ e. e.0) (entry_at-append_first es fs i (ltb→lt _ _ less)))
    | inr rest ↦
        let le : length es ≤ i = ground arith in
        let e : i ≡ length es + (i - length es) = omega arith in
        second (i - length es) e (omega (arith, length-append_entries es fs))
          (ap (key_at (es ++ fs)) e ∙ ap (λ e. e.0) (entry_at-append_second es fs (i - length es)))
  ]

  pub append-AreOrdered : AreOrdered (es ++ fs)
  append-AreOrdered = record {
    order = λ i j less inside. go i j less (locate i (omega arith)) (locate j inside);
    bytes = λ i inside. bytes_at i (locate i inside);
  }
    where
      go :
          (i j : ℕ) → i < j → Where i → Where j → Before (key_at (es ++ fs) i) (key_at (es ++ fs) j)
      go i j less (first x e) (first y f) = rw (e, f) (a.order i j less y)
      go i j less (first x e) (second m q y f) = rw (e, f) (apart i m x y)
      go i j less (second m q x e) (first y f) = absurd (omega arith)
      go i j less (second m q x e) (second l t y f) = rw (e, f) (b.order m l (omega arith) y)

      bytes_at : (i : ℕ) → Where i → AreBytes (key_at (es ++ fs) i)
      bytes_at i (first x e) = rw e (a.bytes i x)
      bytes_at i (second m q x e) = rw e (b.bytes m x)

-- A fence in between does not shorten the common prefix.
pub common_len-squeezed :
    (lo mid hi : List ℕ)
    → Before lo mid
    → UpTo mid hi
    → (common_len lo hi ≤ common_len lo mid) × (common_len lo hi ≤ common_len mid hi)
unfolding common_len
common_len-squeezed [] mid hi a b = omega arith
common_len-squeezed (x ∷ lo) mid [] a b = omega arith
common_len-squeezed (x ∷ lo) [] (y ∷ hi) a b = absurd a
common_len-squeezed (x ∷ lo) (z ∷ mid) (y ∷ hi) a b = elim (Bool-cases (x == y)) [
  | inr other ↦ rw other (omega arith)
  | inl equal ↦
      let e = (==_iff x y).0 equal in
      let s = squeezed x y z lo hi mid e a b in
      let rest = common_len-squeezed lo mid hi s.1 s.2 in ground (arith, s.0, e, rest)
]
