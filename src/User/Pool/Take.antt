-- ===== src/User/Pool/Take.antt =====
-- main.go, GetTaskFromPool, and whole runs of the pool against a list kept in order.
use scx_goland_core.Base.{
  ℕ, zero, suc, ◌+◌, ◌-◌, ◌%◌, ◌≡◌, refl, true, false, List, [], ◌∷◌, arith, ◌==◌, Option, none,
  some,
}
use scx_goland_core.User.Message.{QueuedTask}
use scx_goland_core.User.Pool.{Task, Pool, task_pool_size, get_task_from_pool}
use scx_goland_core.User.Pool.Ring.{IsValid, window, contents}

-- The reference: a list loses its head.
abbrev pub take_first : List Task → Option QueuedTask × List Task
take_first [] = (none, [])
take_first (t ∷ ts) = (some t.queued, ts)

full_or_empty : (p : Pool) → IsValid p → (p.head == p.tail) ≡ (p.count == 0)
full_or_empty p v = ground (arith, v.tail_after)

window-round :
    (slots : List Task) (a b n : ℕ)
    → a % task_pool_size ≡ b % task_pool_size
    → window slots a n ≡ window slots b n
window-round slots a b zero e = refl
window-round slots a b (suc n) e =
    let next : (a + 1) % task_pool_size ≡ (b + 1) % task_pool_size = omega arith in
    rw (e, window-round slots (a + 1) (b + 1) n next) refl

-- The pool after the first task is taken, and what is returned.
pub record Taken (p : Pool) (r : Option QueuedTask × Pool) : Type 0 where
  pub first : (r.0, contents (r.1)) ≡ take_first (contents p)
  pub valid : IsValid (r.1)

taken_lem :
    (slots : List Task) (head count tail : ℕ)
    → let p : Pool = record { slots = slots; count = count; head = head; tail = tail } in
      IsValid p → Taken p (get_task_from_pool p)
unfolding get_task_from_pool
taken_lem slots head zero tail v =
    let e : (head == tail) ≡ true = ground (arith, v.tail_after) in
    rw e (record { first = refl; valid = v })
taken_lem slots head (suc n) tail v =
    let e : (head == tail) ≡ false = ground (arith, v.tail_after, v.count_bound, v.head_inside) in
    let one : suc n - 1 ≡ n = omega arith in
    let inside : head % task_pool_size ≡ head = omega (arith, v.head_inside) in
    let round : window slots ((head + 1) % task_pool_size) n ≡ window slots (head + 1) n =
      window-round slots ((head + 1) % task_pool_size) (head + 1) n (omega arith) in
    rw (e, one)
      (record {
        first = rw (round, inside) refl;
        valid = record {
          size = v.size;
          head_inside = omega arith;
          count_bound = omega (arith, v.count_bound);
          tail_after = omega (arith, v.tail_after);
        };
      })

-- A valid pool loses its first task, and nothing when it holds none; it stays valid.
pub get_task_from_pool-Taken : (p : Pool) → IsValid p → Taken p (get_task_from_pool p)
get_task_from_pool-Taken p v = taken_lem p.slots p.head p.count p.tail v
