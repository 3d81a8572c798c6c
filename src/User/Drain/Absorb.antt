-- ===== src/User/Drain/Absorb.antt =====
-- main.go, DrainQueuedTask: the messages that main.bpf.c has sent, against a list kept in order.
use scx_goland_core.Base.{
  ℕ, zero, suc, ◌+◌, ◌-◌, ◌≤◌, ◌≡◌, ◌≢◌, refl, ap, sym, true, false, List, [], ◌∷◌, arith, length,
  take, drop, append_nil, ltb, ◌==◌, if◌then◌else◌, map, Bool-cases, inl, inr,
}
use scx_goland_core.Intf.{QueuedTaskCtx}
use scx_goland_core.Bpf.State.{World}
use scx_goland_core.Wrapper.{through, sub_nr_queued}
use scx_goland_core.User.Run.{Run, ok, ◌>>=◌, Alike, Alike-bind, Alike-map}
use scx_goland_core.User.Message.{Bytes}
use scx_goland_core.User.Message.Layout.{queued_bytes}
use scx_goland_core.User.Message.RoundTrip.{QueuedFits, queued_task, fast_decode-queued_bytes}
use scx_goland_core.User.Pool.{Task, task_pool_size}
use scx_goland_core.User.Pool.Ring.{IsValid, contents}
use scx_goland_core.User.Sched.{Sched, dequeue_task, minus_one, no_task}
use scx_goland_core.User.Drain.{User, is_full, receive, take_in, drain_queued_task}
use scx_goland_core.User.Drain.Ends.{take_sorted, take_in-Took, is_full-count}

module _ {ℓ} {A : Type ℓ} where
  pub take-all : (n : ℕ) (xs : List A) → length xs ≤ n → take n xs ≡ xs
  take-all zero [] h = refl
  take-all zero (x ∷ xs) h = absurd (omega arith)
  take-all (suc n) [] h = refl
  take-all (suc n) (x ∷ xs) h = ap (◌∷◌ x) (take-all n xs (omega arith))

  pub drop-all : (n : ℕ) (xs : List A) → length xs ≤ n → drop n xs ≡ []
  drop-all zero [] h = refl
  drop-all zero (x ∷ xs) h = absurd (omega arith)
  drop-all (suc n) [] h = refl
  drop-all (suc n) (x ∷ xs) h = drop-all n xs (omega arith)

-- The reference: each task of the list in turn is put in order.
abbrev pub absorb : List QueuedTaskCtx → ℕ → List Task → Run (ℕ × List Task)
absorb [] m ts = ok (m, ts)
absorb (q ∷ qs) m ts = do (m', ts') ← take_sorted (queued_task q) m ts; absorb qs m' ts'

-- The bytes that the ring delivers, with the padding that C puts at the end.
abbrev pub messages : List QueuedTaskCtx → Bytes → List Bytes
messages qs padding = map (λ q. queued_bytes q padding) qs

abbrev pub AllSent : List QueuedTaskCtx → Type 0
AllSent [] = Unit
AllSent (q ∷ qs) = (QueuedFits q × (q.pid ≢ minus_one)) × AllSent qs

-- `n` less in the count of queued tasks, but not below 0.
abbrev pub uncounted : ℕ → World → World
uncounted n w = record w { bss = record (w.bss) { nr_queued = w.bss.nr_queued - n } }

sub_nr_queued-uncounted : (w : World) → through sub_nr_queued w ≡ uncounted 1 w
unfolding sub_nr_queued
sub_nr_queued-uncounted w = ground arith

uncounted_none : (w : World) → uncounted 0 w ≡ w
uncounted_none w = ground arith

uncounted_more : (n : ℕ) (w : World) → uncounted n (uncounted 1 w) ≡ uncounted (suc n) w
uncounted_more n w = ground arith

abbrev pub room : User → ℕ
room u = task_pool_size - 1 - u.pool.count

dequeue_sent :
    (q : QueuedTaskCtx) (padding : Bytes) (rest : List Bytes) (s : Sched)
    → QueuedFits q
    → 4 ≤ length padding
    → dequeue_task (record s { queue = queued_bytes q padding ∷ rest })
      ≡ (queued_task q, record s { queue = rest; world = uncounted 1 s.world })
unfolding dequeue_task
dequeue_sent q padding rest s fits l =
    let e : ltb (length padding) 4 ≡ false = ground arith in
    let d = rw e at (fast_decode-queued_bytes q padding fits) in
    rw (d, sub_nr_queued-uncounted s.world) refl

dequeue_empty :
    (s : Sched) → dequeue_task (record s { queue = [] }) ≡ (no_task, record s { queue = [] })
unfolding dequeue_task
dequeue_empty s = refl

-- The drain against the reference, for `count` tasks taken in before.
pub record Absorbed (count : ℕ) (u : User) (qs : List QueuedTaskCtx) (padding : Bytes)
    (r : ℕ × User) (s : ℕ × List Task) : Type 0 where
  pub answer : r.0 ≡ (if ltb (length qs) (room u) then count + length qs else 0)
  pub stored : contents (r.1).pool ≡ s.1
  pub min_same : (r.1).min_vruntime ≡ s.0
  pub sched_after : (r.1).sched ≡ record (u.sched) {
    queue = messages (drop (room u) qs) padding;
    world = uncounted (length (take (room u) qs)) u.sched.world;
  }
  pub valid : IsValid (r.1).pool

module _ (padding : Bytes) (enough : 4 ≤ length padding) where
  Absorbed-full :
      (count : ℕ) (u : User) (qs : List QueuedTaskCtx)
      → IsValid u.pool
      → u.sched.queue ≡ messages qs padding
      → room u ≡ 0
      → Absorbed count u qs padding (0, u) (u.min_vruntime, contents u.pool)
  Absorbed-full count u qs v e none_left = record {
    answer = rw none_left (ground arith);
    stored = refl;
    min_same = refl;
    sched_after = rw (none_left, uncounted_none u.sched.world, sym e) refl;
    valid = v;
  }

  Absorbed-more :
      (count : ℕ) (u w : User) (q : QueuedTaskCtx) (qs : List QueuedTaskCtx) (r : ℕ × User)
      (s : ℕ × List Task)
      → room u ≡ suc (room w)
      → w.sched
        ≡ record (u.sched) { queue = messages qs padding; world = uncounted 1 u.sched.world }
      → Absorbed (count + 1) w qs padding r s
      → Absorbed count u (q ∷ qs) padding r s
  Absorbed-more count u w q qs r s e same a = record {
    answer = rw e (ground (arith, a.answer));
    stored = a.stored;
    min_same = a.min_same;
    sched_after =
        rw (e, ← uncounted_more (length (take (room w) qs)) u.sched.world)
          (rw same at a.sched_after);
    valid = a.valid;
  }

  -- The claim for a run with `fuel` rounds.
  Follows : ℕ → ℕ → User → List QueuedTaskCtx → Type 0
  Follows fuel count u qs =
      IsValid u.pool
      → AllSent qs
      → u.sched.queue ≡ messages qs padding
      → Alike (Absorbed count u qs padding) (drain_queued_task (λ i. []) fuel count u)
          (absorb (take (room u) qs) u.min_vruntime (contents u.pool))

  Follows-round :
      (fuel count : ℕ) (u : User) (qs : List QueuedTaskCtx)
      → is_full u.pool ≡ false
      → ((w : User) (ps : List QueuedTaskCtx)
          → w.pool.count ≡ u.pool.count + 1
          → Follows fuel (count + 1) w ps)
      → Follows (suc fuel) count u qs
  unfolding drain_queued_task Follows
  Follows-round fuel count u [] has_room next v sent e =
      let left : room u ≡ suc (room u - 1) =
        ground (arith, is_full-count u.pool v, v.count_bound) in
      let d : dequeue_task (receive [] u).sched ≡ (no_task, record (u.sched) { queue = [] }) =
        rw (append_nil u.sched.queue, e) (dequeue_empty u.sched) in
      rw (has_room, d, left)
        (record {
          answer = rw left (ground arith);
          stored = refl;
          min_same = refl;
          sched_after = rw (left, uncounted_none u.sched.world) refl;
          valid = v;
        })
  Follows-round fuel count u (q ∷ qs) has_room next v (sent, others) e =
      let left : room u ≡ suc (room u - 1) =
        ground (arith, is_full-count u.pool v, v.count_bound) in
      let p : (q.pid == minus_one) ≡ false = ground arith in
      let s : Sched = record (u.sched) {
        queue = messages qs padding;
        world = uncounted 1 u.sched.world;
      } in
      let d : dequeue_task (receive [] u).sched ≡ (queued_task q, s) =
        rw (append_nil u.sched.queue, e)
          (dequeue_sent q padding (messages qs padding) u.sched (sent.0) enough) in
      let w : User = record u { sched = s } in
      rw (has_room, d, p, left)
        (Alike-bind (Absorbed count u (q ∷ qs) padding) (take_in (queued_task q) w) _ _ _
          (take_in-Took (queued_task q) w v (omega arith))
          (λ x y t.
            let fewer : room u - 1 ≡ room x = omega (arith, t.counted) in
            let rest = next x qs t.counted t.valid others (ap (λ z. z.queue) t.sched_same) in
            rw (fewer, sym t.min_same, sym t.stored)
              (Alike-map (Absorbed count u (q ∷ qs) padding) _ _ rest (λ r z a.
                Absorbed-more count u x q qs r z (omega (arith, t.counted)) t.sched_same a))))

  Follows-all :
      (fuel count : ℕ) (u : User) (qs : List QueuedTaskCtx)
      → task_pool_size ≤ u.pool.count + 1 + fuel
      → Follows fuel count u qs
  unfolding drain_queued_task Follows
  Follows-all zero count u qs b v sent e =
      let none_left : room u ≡ 0 = omega (arith, v.count_bound) in
      let full : is_full u.pool ≡ true = ground (arith, is_full-count u.pool v, v.count_bound) in
      rw (full, none_left) (Absorbed-full count u qs v e none_left)
  Follows-all (suc fuel) count u qs b v sent e = elim (Bool-cases (is_full u.pool)) [
    | inl full ↦
        let none_left : room u ≡ 0 = ground (arith, is_full-count u.pool v, v.count_bound) in
        rw (full, none_left) (Absorbed-full count u qs v e none_left)
    | inr has_room ↦
        Follows-round fuel count u qs has_room
          (λ w ps c. Follows-all fuel (count + 1) w ps (omega arith)) v sent e
  ]

  -- Messages that main.bpf.c has sent wait, each with its padding, and none comes in. The drain of a
  -- valid pool panics exactly when a task of the first messages, as many as the pool has room for,
  -- makes it; else it takes in these messages: the pool holds their tasks in order among the old
  -- ones, minVruntime is what they make it, the count of queued tasks has gone down by one for each
  -- but not below 0, and the other messages still wait. The result is the number of messages if the
  -- pool has room for one more, and else 0.
  pub drain_queued_task-Absorbed :
      (u : User) (qs : List QueuedTaskCtx)
      → IsValid u.pool
      → AllSent qs
      → u.sched.queue ≡ messages qs padding
      → Alike
          (Absorbed 0 u qs padding)
          (drain_queued_task (λ i. []) task_pool_size 0 u)
          (absorb (take (room u) qs) u.min_vruntime (contents u.pool))
  unfolding Follows
  drain_queued_task-Absorbed u qs v sent e =
      Follows-all task_pool_size 0 u qs (omega arith) v sent e
