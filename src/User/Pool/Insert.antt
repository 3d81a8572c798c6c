-- ===== src/User/Pool/Insert.antt =====
-- main.go, InsertTaskToPool, against insertion into a sorted list.
use scx_goland_core.Base.{
  ℕ, zero, suc, ◌+◌, ◌-◌, ◌%◌, ◌≤◌, ◌<◌, ◌≡◌, refl, ◌∙◌, Bool, true, List, [], ◌∷◌, arith, length,
  length-set, set, ◌==◌, ltb, leb, if◌then◌else◌, Bool-cases, inl, inr,
}
use scx_goland_core.User.Run.{Returns, Returns-bind}
use scx_goland_core.User.Pool.{
  Task, Pool, slot, task_pool_size, less_queued_task, find_index, shift, insert_task_to_pool,
}
use scx_goland_core.User.Pool.Order.{insert_sorted}
use scx_goland_core.User.Pool.Ring.{IsValid, window, contents, slot-set, Shifted, shift-Shifted}

-- How many tasks of the list the new one does not precede, up to the first that it does.
abbrev position : Task → List Task → ℕ
position t [] = 0
position t (x ∷ xs) = if less_queued_task t x then 0 else suc (position t xs)

position-le : (t : Task) (slots : List Task) (h n : ℕ) → position t (window slots h n) ≤ n
position-le t slots h zero = omega arith
position-le t slots h (suc n) = ground (arith, position-le t slots (h + 1) n)

find_index-position :
    (p : Pool) (t : Task) (rounds i : ℕ)
    → IsValid p
    → i + rounds ≡ p.count
    → find_index p t rounds i
      ≡ (p.head + (i + position t (window p.slots (p.head + i) rounds))) % task_pool_size
unfolding find_index
find_index-position p t zero i v e = ground (arith, v)
find_index-position p t (suc rounds) i v e =
    let next : p.head + i + 1 ≡ p.head + (i + 1) = omega arith in
    rw next (ground (arith, find_index-position p t rounds (i + 1) v))

-- From `h` on: the tasks below the distance `lo` are as they were, `t` is at `lo`, and the others
-- have moved up by one.
Opened : (h lo n : ℕ) (t : Task) → List Task → List Task → Type 0
Opened h lo n t before after =
    (k : ℕ)
    → k ≤ n
    → slot after ((h + k) % task_pool_size) ≡ (
        if ltb k lo
        then slot before ((h + k) % task_pool_size)
        else if k == lo
        then t
        else slot before ((h + (k - 1)) % task_pool_size))

module _ (h lo n : ℕ) (t : Task) (before after : List Task)
    (opened : Opened h lo n t before after) where
  window-moved :
      (m j : ℕ) → lo < j → j + m ≤ suc n → window after (h + j) m ≡ window before (h + (j - 1)) m
  unfolding Opened
  window-moved zero j l b = refl
  window-moved (suc m) j l b =
      let e : h + j + 1 ≡ h + (j + 1) = omega arith in
      let e' : h + (j - 1) + 1 ≡ h + (j + 1 - 1) = omega arith in
      rw (e, e') (ground (arith, opened j, window-moved m (j + 1)))

  window-opened :
      (r i : ℕ)
      → i + r ≡ n
      → lo ≡ i + position t (window before (h + i) r)
      → window after (h + i) (suc r) ≡ insert_sorted t (window before (h + i) r)
  unfolding Opened
  window-opened zero i e p = ground (arith, opened i)
  window-opened (suc r) i e p =
      let e' : h + i + 1 ≡ h + (i + 1) = omega arith in
      let p' : lo
          ≡ i
            + (if less_queued_task t (slot before ((h + i) % task_pool_size))
                then 0
                else suc (position t (window before (h + (i + 1)) r))) =
        (rw e' at p) in
      rw e' (ground (arith, opened i, window-moved (suc r) (i + 1), window-opened r (i + 1), p'))

  window-opened_whole :
      lo ≡ position t (window before h n)
      → window after h (suc n) ≡ insert_sorted t (window before h n)
  window-opened_whole p =
      let e : h + 0 ≡ h = omega arith in
      let whole = window-opened n 0 (omega arith) in rw e at whole (ground arith)

Opened-Shifted :
    (h lo n : ℕ) (t : Task) (before after : List Task)
    → lo ≤ n
    → n < task_pool_size
    → length before ≡ task_pool_size
    → Shifted h lo n before after
    → Opened h lo n t before (set after ((h + lo) % task_pool_size) t)
unfolding Opened
Opened-Shifted h lo n t before after l b s r k small = ground (
  arith,
  r.size_same,
  r.moved k,
  slot-set after ((h + lo) % task_pool_size) ((h + k) % task_pool_size) t,
)

-- The pool after an insertion, and its answer.
pub record Inserted (t : Task) (p : Pool) (r : Pool × Bool) : Type 0 where
  pub answer : r.1 ≡ ltb p.count (task_pool_size - 1)
  pub valid : IsValid (r.0)
  pub stored : contents (r.0) ≡ (if r.1 then insert_sorted t (contents p) else contents p)

inserted_lem :
    (t : Task) (p : Pool) (lo : ℕ) (after : List Task)
    → IsValid p
    → p.count < task_pool_size - 1
    → lo ≡ position t (contents p)
    → lo ≤ p.count
    → Shifted p.head lo p.count p.slots after
    → Inserted t p (
      record {
        slots = set after ((p.head + lo) % task_pool_size) t;
        count = p.count + 1;
        head = p.head;
        tail = (p.tail + 1) % task_pool_size;
      },
      true,
    )
inserted_lem t p lo after v room e l r = record {
  answer = ground arith;
  valid = record {
    size = length-set after _ t ∙ (r.size_same ∙ v.size);
    head_inside = v.head_inside;
    count_bound = omega arith;
    tail_after = ground (arith, v.tail_after);
  };
  stored =
      let one : p.count + 1 ≡ suc p.count = omega arith in
      rw one (
        window-opened_whole p.head lo p.count t p.slots _
          (Opened-Shifted p.head lo p.count t p.slots after l v.count_bound v.size r) e);
}

-- In a valid pool an insertion ends without a panic, and the loop that moves tasks within 4096
-- rounds. It answers true exactly when fewer than 4095 tasks are held; then the pool holds the old
-- tasks in their order with the new one before the first that it precedes, and else what it held.
-- The pool stays valid.
pub insert_task_to_pool-Inserted :
    (t : Task) (p : Pool) → IsValid p → Returns (Inserted t p) (insert_task_to_pool t p)
unfolding insert_task_to_pool
insert_task_to_pool-Inserted t p v = elim (Bool-cases (leb (task_pool_size - 1) p.count)) [
  | inl e ↦ rw e (record { answer = ground arith; valid = v; stored = refl })
  | inr e ↦
      let lo = position t (contents p) in
      let l : lo ≤ p.count = position-le t p.slots p.head p.count in
      let zeroth : p.head + 0 ≡ p.head = omega arith in
      let from_zero : 0 + lo ≡ lo = omega arith in
      let at_lo : find_index p t p.count 0 ≡ (p.head + lo) % task_pool_size =
        rw (zeroth, from_zero) at (find_index-position p t p.count 0 v (omega arith)) in
      let moved : Returns (Shifted p.head lo p.count p.slots)
          (shift task_pool_size p.slots p.tail ((p.head + lo) % task_pool_size)) =
        rw (← v.tail_after) at (
          shift-Shifted task_pool_size p.slots p.head lo p.count l (omega arith) v.count_bound
            v.size) in
      rw (e, at_lo)
        (Returns-bind (Inserted t p) _ _ moved
          (λ after r. inserted_lem t p lo after v (ground arith) refl l r))
]
