-- ===== src/User/Drain/Named.antt =====
-- main.go, DrainQueuedTask: what the messages of main.bpf.c make of the reference list.
use scx_goland_core.Base.{
  ℕ, suc, ◌+◌, ◌<◌, ◌^◌, ◌≡◌, ◌≢◌, List, [], ◌∷◌, arith, length, Bool-cases, inl, inr,
}
use scx_goland_core.Intf.{QueuedTaskCtx}
use scx_goland_core.User.Run.{Ends, Ends-bind, Ends-map}
use scx_goland_core.User.Message.{QueuedTask}
use scx_goland_core.User.Message.RoundTrip.{QueuedFits, queued_task}
use scx_goland_core.User.Vruntime.{updated_enqueue_task}
use scx_goland_core.User.Pool.{Task, less_queued_task}
use scx_goland_core.User.Pool.Order.{
  insert_sorted, IsSorted, insert_sorted-IsSorted, length-insert_sorted,
}
use scx_goland_core.User.Sched.{minus_one}
use scx_goland_core.User.Drain.Ends.{take_sorted}
use scx_goland_core.User.Drain.Absorb.{absorb, AllSent}

-- A task whose PID is one and whose fields fit.
pub record IsNamed (t : QueuedTask) : Type 0 where
  pub pid_fits : t.pid < 2 ^ 32
  pub flags_fits : t.flags < 2 ^ 64
  pub vtime_fits : t.vtime < 2 ^ 64
  pub named : t.pid ≢ minus_one

abbrev pub AllNamed : List Task → Type 0
AllNamed [] = Unit
AllNamed (t ∷ ts) = IsNamed t.queued × AllNamed ts

AllNamed-insert :
    (t : Task) (ts : List Task) → IsNamed t.queued → AllNamed ts → AllNamed (insert_sorted t ts)
AllNamed-insert t [] n a = (n, tt)
AllNamed-insert t (x ∷ xs) n (h, a) = elim (Bool-cases (less_queued_task t x)) [
  | inl e ↦ rw e (n, (h, a))
  | inr e ↦ rw e (h, AllNamed-insert t xs n a)
]

updated-IsNamed :
    (m : ℕ) (q : QueuedTask)
    → q.pid < 2 ^ 32
    → q.flags < 2 ^ 64
    → q.pid ≢ minus_one
    → Ends (λ r. IsNamed r.1) (updated_enqueue_task m q)
unfolding updated_enqueue_task
updated-IsNamed m q p f n = ground arith

-- What is known of the list after some messages.
pub record Holds (n : ℕ) (r : ℕ × List Task) : Type 0 where
  pub all_named : AllNamed r.1
  pub sorted : IsSorted r.1
  pub counted : length r.1 ≡ n

take_sorted-Holds :
    (q : QueuedTaskCtx) (m n : ℕ) (ts : List Task)
    → QueuedFits q
    → q.pid ≢ minus_one
    → Holds n (m, ts)
    → Ends (Holds (suc n)) (take_sorted (queued_task q) m ts)
take_sorted-Holds q m n ts fits named h =
    Ends-bind (Holds (suc n)) (updated_enqueue_task m (queued_task q)) _
      (updated-IsNamed m (queued_task q) fits.pid_fits fits.flags_fits named)
      (λ r k.
        let t : Task = record { queued = r.1; deadline = r.0; timestamp = 0 } in
        record {
          all_named = AllNamed-insert t ts k h.all_named;
          sorted = insert_sorted-IsSorted t ts h.sorted;
          counted = omega (arith, length-insert_sorted t ts, h.counted);
        })

pub absorb-Holds :
    (qs : List QueuedTaskCtx) (m n : ℕ) (ts : List Task)
    → AllSent qs
    → Holds n (m, ts)
    → Ends (Holds (length qs + n)) (absorb qs m ts)
absorb-Holds [] m n ts s h = record {
  all_named = h.all_named;
  sorted = h.sorted;
  counted = omega (arith, h.counted);
}
absorb-Holds (q ∷ qs) m n ts ((fits, named), s) h =
    Ends-bind (Holds (suc (length qs) + n)) (take_sorted (queued_task q) m ts) _
      (take_sorted-Holds q m n ts fits named h)
      (λ r k.
        Ends-map (Holds (suc (length qs) + n)) (absorb qs r.0 r.1)
          (absorb-Holds qs r.0 (suc n) r.1 s
            (record { all_named = k.all_named; sorted = k.sorted; counted = k.counted }))
          (λ z j. record {
            all_named = j.all_named;
            sorted = j.sorted;
            counted = omega (arith, j.counted);
          }))
