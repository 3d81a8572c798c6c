-- ===== src/User/Pool/Runs.antt =====
-- main.go: runs of the task pool from the start of the program, against a list kept in order.
use scx_goland_core.Base.{
  ◌-◌, ◌≡◌, refl, ap, Bool, List, [], ◌∷◌, Option, ltb, length, if◌then◌else◌,
}
use scx_goland_core.User.Run.{Run, ok, Returns, Returns-bind, Returns-only, ◌>>=◌}
use scx_goland_core.User.Message.{QueuedTask}
use scx_goland_core.User.Pool.{
  Task, Pool, task_pool_size, insert_task_to_pool, get_task_from_pool, empty_pool,
}
use scx_goland_core.User.Pool.Order.{insert_sorted}
use scx_goland_core.User.Pool.Ring.{IsValid, contents, length-window, empty_pool-IsValid}
use scx_goland_core.User.Pool.Insert.{insert_task_to_pool-Inserted}
use scx_goland_core.User.Pool.Take.{take_first, get_task_from_pool-Taken}

-- What the program does with the pool, and what it gets back.
pub data Op : Type 0 where
  insert : Task → Op
  take : Op

pub data Answer : Type 0 where
  stored : Bool → Answer
  taken : Option QueuedTask → Answer

abbrev pub step_pool : Op → Pool → Run (Answer × Pool)
step_pool (insert t) p = insert_task_to_pool t p >>= λ r. ok (stored (r.1), r.0)
step_pool take p = let (t, q) = get_task_from_pool p in ok (taken t, q)

abbrev pub run_pool : List Op → Pool → Run (List Answer)
run_pool [] p = ok []
run_pool (o ∷ os) p = do (a, q) ← step_pool o p; rest ← run_pool os q; ok (a ∷ rest)

-- The same on the list.
abbrev pub step_list : Op → List Task → Answer × List Task
step_list (insert t) ts =
    let room = ltb (length ts) (task_pool_size - 1) in
    (stored room, if room then insert_sorted t ts else ts)
step_list take ts = let (t, rest) = take_first ts in (taken t, rest)

abbrev pub run_list : List Op → List Task → List Answer
run_list [] ts = []
run_list (o ∷ os) ts = let (a, rest) = step_list o ts in a ∷ run_list os rest

record Refines (s : Answer × List Task) (r : Answer × Pool) : Type 0 where
  same_answer : r.0 ≡ s.0
  same_list : contents (r.1) ≡ s.1
  valid : IsValid (r.1)

step_pool-Refines :
    (o : Op) (p : Pool) → IsValid p → Returns (Refines (step_list o (contents p))) (step_pool o p)
step_pool-Refines (insert t) p v = rw (length-window p.slots p.head p.count) (
    Returns-bind (Refines _) (insert_task_to_pool t p) _ (insert_task_to_pool-Inserted t p v)
      (λ r i. record {
        same_answer = ap stored i.answer;
        same_list = rw i.answer at (i.stored);
        valid = i.valid;
      }))
step_pool-Refines take p v =
    let r = get_task_from_pool-Taken p v in
    record {
      same_answer = ap (λ s. taken (s.0)) r.first;
      same_list = ap (λ s. s.1) r.first;
      valid = r.valid;
    }

run_pool-Returns :
    (os : List Op) (p : Pool)
    → IsValid p
    → Returns (λ answers. answers ≡ run_list os (contents p)) (run_pool os p)
run_pool-Returns [] p v = refl
run_pool-Returns (o ∷ os) p v =
    Returns-bind (λ answers. answers ≡ _) (step_pool o p) _ (step_pool-Refines o p v)
      (λ r s.
        Returns-bind (λ answers. answers ≡ _) (run_pool os (r.1)) _
          (run_pool-Returns os (r.1) s.valid) (λ rest e. rw (e, s.same_answer, s.same_list) refl))

-- Whatever sequence of insertions and takings the program makes from its start on, it ends without a
-- panic and within the rounds given, and answers as a list kept in order does that refuses a task
-- when it holds 4095.
pub run_pool-run_list : (os : List Op) → run_pool os empty_pool ≡ ok (run_list os [])
run_pool-run_list os = Returns-only _ _ (run_pool-Returns os empty_pool empty_pool-IsValid)
