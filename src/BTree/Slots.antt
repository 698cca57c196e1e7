-- ===== src/BTree/Slots.antt =====
-- Slots with one put in or taken out.
use cloud_project.Prelude.{ℕ, zero, suc, ◌+◌, ◌≤◌, ◌<◌, ◌≡◌, refl, arith, List, [], ◌∷◌, length}
use cloud_project.BTree.Compare.{Slot}
use cloud_project.BTree.Node.{slot_at}
use cloud_project.BTree.Update.{insert_at, remove_at}

pub length-insert_at :
    (i : ℕ) (x : Slot) (xs : List Slot) → length (insert_at i x xs) ≡ length xs + 1
length-insert_at zero x xs = omega arith
length-insert_at (suc i) x [] = omega arith
length-insert_at (suc i) x (y ∷ xs) = omega (arith, length-insert_at i x xs)

pub slot_at-insert_at_before :
    (i j : ℕ) (x : Slot) (xs : List Slot)
    → j < i
    → j < length xs
    → slot_at (insert_at i x xs) j ≡ slot_at xs j
slot_at-insert_at_before zero j x xs h k = absurd (omega arith)
slot_at-insert_at_before (suc i) j x [] h k = absurd (omega arith)
slot_at-insert_at_before (suc i) zero x (y ∷ xs) h k = refl
slot_at-insert_at_before (suc i) (suc j) x (y ∷ xs) h k =
    slot_at-insert_at_before i j x xs (omega arith) (omega arith)

pub slot_at-insert_at_self :
    (i : ℕ) (x : Slot) (xs : List Slot) → i ≤ length xs → slot_at (insert_at i x xs) i ≡ x
slot_at-insert_at_self zero x xs h = refl
slot_at-insert_at_self (suc i) x [] h = absurd (omega arith)
slot_at-insert_at_self (suc i) x (y ∷ xs) h = slot_at-insert_at_self i x xs (omega arith)

pub slot_at-insert_at_after :
    (i j : ℕ) (x : Slot) (xs : List Slot)
    → i ≤ j
    → i ≤ length xs
    → slot_at (insert_at i x xs) (suc j) ≡ slot_at xs j
slot_at-insert_at_after zero j x xs h k = refl
slot_at-insert_at_after (suc i) j x [] h k = absurd (omega arith)
slot_at-insert_at_after (suc i) zero x (y ∷ xs) h k = absurd (omega arith)
slot_at-insert_at_after (suc i) (suc j) x (y ∷ xs) h k =
    slot_at-insert_at_after i j x xs (omega arith) (omega arith)

pub length-remove_at :
    (i : ℕ) (xs : List Slot) → i < length xs → length (remove_at i xs) + 1 ≡ length xs
length-remove_at i [] h = absurd (omega arith)
length-remove_at zero (x ∷ xs) h = omega arith
length-remove_at (suc i) (x ∷ xs) h = omega (arith, length-remove_at i xs (omega arith))

pub slot_at-remove_at_before :
    (i j : ℕ) (xs : List Slot) → j < i → slot_at (remove_at i xs) j ≡ slot_at xs j
slot_at-remove_at_before i j [] h = refl
slot_at-remove_at_before zero j (x ∷ xs) h = absurd (omega arith)
slot_at-remove_at_before (suc i) zero (x ∷ xs) h = refl
slot_at-remove_at_before (suc i) (suc j) (x ∷ xs) h = slot_at-remove_at_before i j xs (omega arith)

pub slot_at-remove_at_after :
    (i j : ℕ) (xs : List Slot) → i ≤ j → slot_at (remove_at i xs) j ≡ slot_at xs (suc j)
slot_at-remove_at_after i j [] h = refl
slot_at-remove_at_after zero j (x ∷ xs) h = refl
slot_at-remove_at_after (suc i) zero (x ∷ xs) h = absurd (omega arith)
slot_at-remove_at_after (suc i) (suc j) (x ∷ xs) h = slot_at-remove_at_after i j xs (omega arith)
