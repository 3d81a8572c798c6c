-- ===== src/User/Pool/Order.antt =====
-- main.go, LessQueuedTask: an order on tasks, and sorted insertion into a list.
use scx_goland_core.Base.{
  suc, ◌≡◌, refl, true, false, List, [], ◌∷◌, arith, length, if◌then◌else◌, Bool-cases, inl, inr,
}
use mathlib.Core.List.{Perm}
use mathlib.Core.List.Perm
use scx_goland_core.User.Pool.{Task, less_queued_task}

-- The order is strict, and what is not before is not between.
pub less_asym : (a b : Task) → less_queued_task a b ≡ true → less_queued_task b a ≡ false
unfolding less_queued_task
less_asym a b h = ground arith

pub less_chain :
    (a b c : Task)
    → less_queued_task b a ≡ false
    → less_queued_task c b ≡ false
    → less_queued_task c a ≡ false
unfolding less_queued_task
less_chain a b c p q = ground arith

-- The reference: a new task goes before the first one that it precedes, else to the end.
abbrev pub insert_sorted : Task → List Task → List Task
insert_sorted t [] = t ∷ []
insert_sorted t (x ∷ xs) = if less_queued_task t x then t ∷ x ∷ xs else x ∷ insert_sorted t xs

-- No task of the list precedes `t`.
abbrev pub NonePrecedes : Task → List Task → Type 0
NonePrecedes t [] = Unit
NonePrecedes t (x ∷ xs) = (less_queued_task x t ≡ false) × NonePrecedes t xs

abbrev pub IsSorted : List Task → Type 0
IsSorted [] = Unit
IsSorted (x ∷ xs) = NonePrecedes x xs × IsSorted xs

NonePrecedes-chain :
    (t x : Task) (xs : List Task)
    → less_queued_task x t ≡ false
    → NonePrecedes x xs
    → NonePrecedes t xs
NonePrecedes-chain t x [] h n = tt
NonePrecedes-chain t x (y ∷ ys) h (n, rest) =
    (less_chain t x y h n, NonePrecedes-chain t x ys h rest)

NonePrecedes-insert :
    (x t : Task) (xs : List Task)
    → less_queued_task t x ≡ false
    → NonePrecedes x xs
    → NonePrecedes x (insert_sorted t xs)
NonePrecedes-insert x t [] h n = (h, tt)
NonePrecedes-insert x t (y ∷ ys) h (n, rest) = elim (Bool-cases (less_queued_task t y)) [
  | inl e ↦ rw e (h, (n, rest))
  | inr e ↦ rw e (n, NonePrecedes-insert x t ys h rest)
]

pub insert_sorted-IsSorted :
    (t : Task) (xs : List Task) → IsSorted xs → IsSorted (insert_sorted t xs)
insert_sorted-IsSorted t [] s = (tt, tt)
insert_sorted-IsSorted t (x ∷ xs) (n, s) = elim (Bool-cases (less_queued_task t x)) [
  | inl e ↦ let after = less_asym t x e in rw e ((after, NonePrecedes-chain t x xs after n), (n, s))
  | inr e ↦ rw e (NonePrecedes-insert x t xs e n, insert_sorted-IsSorted t xs s)
]

pub insert_sorted-perm : (t : Task) (xs : List Task) → Perm (insert_sorted t xs) (t ∷ xs)
insert_sorted-perm t [] = Perm.refl _
insert_sorted-perm t (x ∷ xs) = elim (Bool-cases (less_queued_task t x)) [
  | inl e ↦ rw e (Perm.refl _)
  | inr e ↦ rw e (Perm.trans (Perm.cons x (insert_sorted-perm t xs)) (Perm.swap t x xs))
]

pub length-insert_sorted :
    (t : Task) (xs : List Task) → length (insert_sorted t xs) ≡ suc (length xs)
length-insert_sorted t [] = refl
length-insert_sorted t (x ∷ xs) = ground (arith, length-insert_sorted t xs)
