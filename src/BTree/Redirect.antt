-- ===== src/BTree/Redirect.antt =====
-- btree.hpp, splitNode and mergeNodes: a child's page id is overwritten in an inner node.
use mathlib.Core.Path.{subst}
use cloud_project.Prelude.{
  ℕ, zero, suc, ◌+◌, ◌*◌, ◌^◌, ◌≤◌, ◌<◌, ◌≡◌, ◌≢◌, inl, inr, refl, sym, ap, ◌∙◌, arith, false, List,
  [], ◌∷◌, ◌++◌, length, drop, set, done, ◌==◌, ==_iff, ne→==_false, if◌then◌else◌, Bool-cases,
  get_or-set_self, get_or-set_ne, length-set, length-append,
}
use cloud_project.BTree.Keys.{head, Before, AreBytes}
use cloud_project.BTree.Compare.{Slot}
use cloud_project.BTree.Node.{
  Node, count, prefix, slot_at, no_slot, distance, page_size, header_size, slot_size,
}
use cloud_project.BTree.Update.{free_space_after_compaction, sub_u32}
use cloud_project.BTree.Search.{AreSorted}
use cloud_project.BTree.LowerBound.{full_key}
use cloud_project.BTree.Valid.{IsValid, slots_space, slot_space}
use cloud_project.BTree.Split.{pid_bytes, get_child, set_child, redirect}
use cloud_project.BTree.Children.{length-le_bytes, child_at, set_child_self}

-- An inner node: each payload is a page id.
pub record IsInner (n : Node) : Type 0 where
  pub inner : n.is_leaf ≡ false
  pub links : (i : ℕ) → i < count n → length (slot_at n.slots i).payload ≡ 8

slots_space-set :
    (i : ℕ) (x : Slot) (xs : List Slot)
    → i < length xs
    → slot_space x ≡ slot_space (slot_at xs i)
    → slots_space (set xs i x) ≡ slots_space xs
unfolding slots_space
slots_space-set i x [] h e = refl
slots_space-set zero x (y ∷ xs) h e = omega (arith, e)
slots_space-set (suc i) x (y ∷ xs) h e = omega (arith, slots_space-set i x xs (omega arith) e)

module _ (i pid : ℕ) (n : Node) (v : IsValid n) (inner : IsInner n) (inside : i < count n) where
  abbrev linked : Slot
  linked = record (slot_at n.slots i) {
    payload = pid_bytes pid ++ drop 8 (slot_at n.slots i).payload;
  }

  abbrev slots' : List Slot
  slots' = set n.slots i linked

  linked_size : length linked.payload ≡ 8
  linked_size =
      let rest : (xs : List ℕ) → length xs ≡ 8 → length (drop 8 xs) ≡ 0 = λ xs e. dropped 8 xs e in
      omega (
        arith,
        length-append (pid_bytes pid) (drop 8 (slot_at n.slots i).payload),
        length-le_bytes 8 pid,
        rest (slot_at n.slots i).payload (inner.links i inside),
      )
    where
      dropped : (k : ℕ) (xs : List ℕ) → length xs ≡ k → length (drop k xs) ≡ 0
      dropped zero xs e = e
      dropped (suc k) [] e = refl
      dropped (suc k) (x ∷ xs) e = dropped k xs (omega (arith, e))

  pub slot_at_self : slot_at slots' i ≡ linked
  slot_at_self = get_or-set_self n.slots i linked no_slot inside

  pub slot_at_other : (j : ℕ) → i ≢ j → slot_at slots' j ≡ slot_at n.slots j
  slot_at_other j ne = get_or-set_ne n.slots i j linked no_slot ne

  key_same : (j : ℕ) → (slot_at slots' j).key ≡ (slot_at n.slots j).key
  key_same j = elim (Bool-cases (i == j)) [
    | inl here ↦
        let e : i ≡ j = (==_iff i j).0 here in
        subst (λ x. (slot_at slots' x).key ≡ (slot_at n.slots x).key) e
          (ap (λ s. s.key) slot_at_self)
    | inr other ↦ ap (λ s. s.key) (slot_at_other j (λ e. ground (arith, e)))
  ]

  head_same : (j : ℕ) → (slot_at slots' j).head ≡ (slot_at n.slots j).head
  head_same j = elim (Bool-cases (i == j)) [
    | inl here ↦
        let e : i ≡ j = (==_iff i j).0 here in
        subst (λ x. (slot_at slots' x).head ≡ (slot_at n.slots x).head) e
          (ap (λ s. s.head) slot_at_self)
    | inr other ↦ ap (λ s. s.head) (slot_at_other j (λ e. ground (arith, e)))
  ]

  size_same : length slots' ≡ length n.slots
  size_same = length-set n.slots i linked

  pub set_child-key : (j : ℕ) → full_key (set_child i pid n) j ≡ full_key n j
  unfolding set_child
  set_child-key j = ap (◌++◌ (prefix n)) (key_same j)

  set_child-AreSorted : AreSorted slots'
  set_child-AreSorted = record {
    order = λ a b less h.
        subst (λ k. Before k (slot_at slots' b).key) (sym (key_same a))
          (subst (Before (slot_at n.slots a).key) (sym (key_same b))
            (v.searchable.sorted.order a b less (omega (arith, size_same))));
    heads = λ a h.
        head_same a
        ∙ v.searchable.sorted.heads a (omega (arith, size_same))
        ∙ ap head (sym (key_same a));
    bytes = λ a h.
        subst AreBytes (sym (key_same a)) (v.searchable.sorted.bytes a (omega (arith, size_same)));
    few = omega (arith, size_same, v.searchable.sorted.few);
  }

  pub set_child-IsValid : IsValid (set_child i pid n)
  unfolding set_child
  set_child-IsValid = record {
    searchable = record {
      sorted = set_child-AreSorted;
      hints = λ many. record {
        each = λ k less.
            (v.searchable.hints (omega (arith, size_same))).each k less
            ∙ ap (λ (c : ℕ). (slot_at n.slots (distance c * (k + 1))).head) (sym size_same)
            ∙ sym (head_same (distance (length slots') * (k + 1)));
      };
      prefixed = v.searchable.prefixed;
    };
    hinted = v.hinted;
    common = v.common;
    used = omega (
      arith,
      v.used,
      slots_space-set i linked n.slots inside (omega (arith, linked_size, inner.links i inside)),
    );
    apart = omega (arith, v.apart, size_same);
    room = v.room;
  }

  pub set_child-IsInner : IsInner (set_child i pid n)
  unfolding set_child
  set_child-IsInner = record {
    inner = inner.inner;
    links = λ j h. elim (Bool-cases (i == j)) [
      | inl here ↦
          let e : i ≡ j = (==_iff i j).0 here in
          subst (λ x. length (slot_at slots' x).payload ≡ 8) e
            (ap (λ s. length s.payload) slot_at_self ∙ linked_size)
      | inr other ↦
          ap (λ s. length s.payload) (slot_at_other j (λ e. ground (arith, e)))
          ∙ inner.links j (omega (arith, size_same))
    ];
  }

-- What `redirect` leaves: the same keys, and another child at the place.
pub record Redirects (pid r : ℕ) (n p : Node) : Type 0 where
  pub valid : IsValid p
  pub inner : IsInner p
  pub size : count p ≡ count n
  pub keys : (i : ℕ) → full_key p i ≡ full_key n i
  pub prefixes : prefix p ≡ prefix n
  pub prefix_size : p.prefix_len ≡ n.prefix_len
  pub fences : (p.lower_fence ≡ n.lower_fence) × (p.upper_fence ≡ n.upper_fence)
  pub free : free_space_after_compaction p ≡ free_space_after_compaction n
  pub here : child_at r p ≡ pid
  pub elsewhere : (i : ℕ) → i ≢ r → child_at i p ≡ child_at i n

child_at_last :
    (r pid : ℕ) (n : Node) → r ≡ count n → child_at r (record n { neighbour = pid }) ≡ pid
child_at_last r pid n e = rw ((==_iff r (count n)).1 e) refl

child_at_before :
    (r i pid : ℕ) (n : Node)
    → r ≡ count n
    → i ≢ r
    → child_at i (record n { neighbour = pid }) ≡ child_at i n
unfolding get_child
child_at_before r i pid n e ne =
    let other : (i == count n) ≡ false = ne→==_false i (count n) (λ k. ne (k ∙ sym e)) in
    rw other refl

last-Redirects :
    (pid r : ℕ) (n : Node)
    → IsValid n
    → IsInner n
    → r ≡ count n
    → Redirects pid r n (record n { neighbour = pid })
unfolding free_space_after_compaction
last-Redirects pid r n v inner last = record {
  valid = record {
    searchable = record {
      sorted = v.searchable.sorted;
      hints = v.searchable.hints;
      prefixed = v.searchable.prefixed;
    };
    hinted = v.hinted;
    common = v.common;
    used = v.used;
    apart = v.apart;
    room = v.room;
  };
  inner = record { inner = inner.inner; links = inner.links };
  size = refl;
  keys = λ i. refl;
  prefixes = refl;
  prefix_size = refl;
  fences = (refl, refl);
  free = refl;
  here = child_at_last r pid n last;
  elsewhere = λ i ne. child_at_before r i pid n last ne;
}

module _ (pid r : ℕ) (n : Node) (v : IsValid n) (inner : IsInner n) (fits : pid < 2 ^ 64)
    (less : r < count n) where
  set_child-size : count (set_child r pid n) ≡ count n
  unfolding set_child
  set_child-size = length-set n.slots r (linked r pid n v inner less)

  set_child_here : child_at r (set_child r pid n) ≡ pid
  set_child_here =
      let other : (r == count (set_child r pid n)) ≡ false =
        ne→==_false _ _ (λ e. absurd (omega (arith, e, set_child-size))) in
      rw other (set_child_self r pid n less fits)

  same_link : (i : ℕ) → r ≢ i → get_child i (set_child r pid n) ≡ get_child i n
  unfolding get_child set_child
  same_link i ne = rw (slot_at_other r pid n v inner less i ne) refl

  set_child_elsewhere : (i : ℕ) → i ≢ r → child_at i (set_child r pid n) ≡ child_at i n
  unfolding set_child
  set_child_elsewhere i ne =
      ap (λ (c : ℕ). if i == c then n.neighbour else get_child i (set_child r pid n)) set_child-size
      ∙ ap (λ (x : ℕ). if i == count n then n.neighbour else x) (same_link i (λ e. ne (sym e)))

  pub set_child-Redirects : Redirects pid r n (set_child r pid n)
  unfolding set_child free_space_after_compaction
  set_child-Redirects = record {
    valid = set_child-IsValid r pid n v inner less;
    inner = set_child-IsInner r pid n v inner less;
    size = set_child-size;
    keys = set_child-key r pid n v inner less;
    prefixes = refl;
    prefix_size = refl;
    fences = (refl, refl);
    free =
        ap (λ (c : ℕ). sub_u32 (sub_u32 page_size (header_size + slot_size * c)) n.space_used)
          set_child-size;
    here = set_child_here;
    elsewhere = set_child_elsewhere;
  }

-- The assertion on the old child holds, and the place has the new one.
pub redirect-Redirects :
    (left_pid new_pid r : ℕ) (n : Node)
    → IsValid n
    → IsInner n
    → new_pid < 2 ^ 64
    → r ≤ count n
    → child_at r n ≡ left_pid
    → (p : Node) × (redirect left_pid new_pid r n ≡ done p) × Redirects new_pid r n p
unfolding redirect
redirect-Redirects left_pid new_pid r n v inner fits inside leads =
    elim (Bool-cases (r == count n)) [
      | inl last ↦
          let child : n.neighbour ≡ left_pid = rw last at leads in
          (
            record n { neighbour = new_pid },
            rw (last, (==_iff n.neighbour left_pid).1 child) refl,
            last-Redirects new_pid r n v inner ((==_iff r (count n)).0 last),
          )
      | inr slot ↦
          let child : get_child r n ≡ left_pid = rw slot at leads in
          (
            set_child r new_pid n,
            rw (slot, (==_iff (get_child r n) left_pid).1 child) refl,
            set_child-Redirects new_pid r n v inner fits (ground arith),
          )
    ]
