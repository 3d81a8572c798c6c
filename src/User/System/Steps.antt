-- ===== src/User/System/Steps.antt =====
-- The two halves together: what a drain and a dispatch keep.
use scx_goland_core.Base.{
  ℕ, ◌≤◌, ◌≡◌, ap, not, ◌&&◌, List, [], ◌∷◌, ◌++◌, arith, length, if◌then◌else◌, Bool-cases, inl,
  inr,
}
use scx_goland_core.Kernel.Oracle.{Kernel}
use scx_goland_core.Bpf.State.{World}
use scx_goland_core.Bpf.Invariant.Reach.{Step, Reach}
use scx_goland_core.Bpf.Invariant.Reach.Reach.{next}
use scx_goland_core.User.Run.{Ends, Ends-bind, Ends-map}
use scx_goland_core.User.Message.{QueuedTask, DispatchedTask, Bytes, fast_encode}
use scx_goland_core.User.Message.Layout.{dispatched_task_size}
use scx_goland_core.User.Pool.{task_pool_size}
use scx_goland_core.User.Pool.Order.{IsSorted}
use scx_goland_core.User.Pool.Ring.{IsValid, contents}
use scx_goland_core.User.Sched.{Sched, Libbpf, select_cpu, dispatch_task}
use scx_goland_core.User.Drain.{User, drain_queued_task}
use scx_goland_core.User.Drain.Ends.{drain_rule, dequeued, taken}
use scx_goland_core.User.Loop.{dispatch_next, time_slice}
use scx_goland_core.User.Loop.Dispatched.{select_cpu-Searched}
use scx_goland_core.Wrapper.{through, notify_complete}

-- Each message is long enough for the other half.
abbrev pub AllReadable : List Bytes → Type 0
AllReadable [] = Unit
AllReadable (m ∷ ms) = (dispatched_task_size ≤ length m) × AllReadable ms

AllReadable-append :
    (ms : List Bytes) (m : Bytes)
    → AllReadable ms
    → dispatched_task_size ≤ length m
    → AllReadable (ms ++ (m ∷ []))
AllReadable-append [] m a l = (l, tt)
AllReadable-append (x ∷ ms) m (h, a) l = (h, AllReadable-append ms m a l)

length-fast_encode : (t : DispatchedTask) → length (fast_encode t) ≡ 64
unfolding fast_encode
length-fast_encode t = ground arith

dequeued-readable :
    (arrivals : ℕ → List Bytes) (count : ℕ) (u : User)
    → AllReadable u.sched.dispatch
    → AllReadable ((dequeued arrivals count u).1).dispatch
dequeued-readable arrivals count u a = rw (taken arrivals count u).dispatch_same a

module _ ⦃b : Libbpf⦄ ⦃k : Kernel⦄ where
  -- From the state `s` of the other half.
  pub record Sound (s : World) (u : User) : Type 0 where
    pub valid : IsValid u.pool
    pub sorted : IsSorted (contents u.pool)
    pub readable : AllReadable u.sched.dispatch
    pub reached : Reach s u.sched.world

  dequeued-Reach :
      (s : World) (arrivals : ℕ → List Bytes) (count : ℕ) (u : User)
      → Reach s u.sched.world
      → Reach s ((dequeued arrivals count u).1).world
  dequeued-Reach s arrivals count u r = elim (taken arrivals count u).world_after [
    | inl e ↦ rw e r
    | inr e ↦ rw e (next r (Step.take_queued u.sched.world))
  ]

  pub drain-Sound :
      (s : World) (arrivals : ℕ → List Bytes) (u : User)
      → Sound s u
      → Ends (λ r. Sound s (r.1)) (drain_queued_task arrivals task_pool_size 0 u)
  drain-Sound s arrivals u h =
      Ends-map (λ r. Sound s (r.1)) (drain_queued_task arrivals task_pool_size 0 u)
        (drain_rule arrivals (λ count u r. Sound s u → Sound s (r.1)) (λ count u v e h. h)
          (λ count u v e h. record {
            valid = v;
            sorted = h.sorted;
            readable = dequeued-readable arrivals count u h.readable;
            reached = dequeued-Reach s arrivals count u h.reached;
          })
          (λ count u w r v c e p o d h. d (record {
            valid = v;
            sorted = o h.sorted;
            readable = rw e (dequeued-readable arrivals count u h.readable);
            reached = rw e (dequeued-Reach s arrivals count u h.reached);
          }))
          task_pool_size 0 u h.valid (omega arith))
        (λ r f. f h)

  select_cpu-Reach :
      (s : World) (t : QueuedTask) (c : Sched)
      → Reach s c.world
      → Reach s ((select_cpu t c).2).world
  unfolding select_cpu
  select_cpu-Reach s t c r = elim (Bool-cases (c.has_select_cpu && not (b.run_fails c.world))) [
    | inl e ↦ rw e (next r (Step.select _ c.world))
    | inr e ↦ rw e r
  ]

  time_slice-Ends : (w : World) → Ends (λ n. Unit) (time_slice w)
  unfolding time_slice
  time_slice-Ends w = ground arith

  -- What dispatch_next does with the slice.
  sending-Sound :
      (s : World) (task : DispatchedTask) (u : User) (c : Sched)
      → Sound s u
      → AllReadable c.dispatch
      → Reach s c.world
      → let r = dispatch_task task c in
        Sound s (record u {
          sched =
              if r.0
              then record (r.1) { world = through (notify_complete u.pool.count) (r.1).world }
              else r.1;
        })
  unfolding dispatch_task
  sending-Sound s task u c h a r = elim (Bool-cases (b.urb_fails c.world)) [
    | inl e ↦ rw e (record { valid = h.valid; sorted = h.sorted; readable = a; reached = r })
    | inr e ↦ rw e (record {
      valid = h.valid;
      sorted = h.sorted;
      readable =
          AllReadable-append c.dispatch (fast_encode task) a
            (omega (arith, length-fast_encode task));
      reached = next r (Step.complete u.pool.count c.world);
    })
  ]

  pub dispatch_next-Sound :
      (s : World) (t : QueuedTask) (u : User) → Sound s u → Ends (Sound s) (dispatch_next t u)
  unfolding dispatch_next
  dispatch_next-Sound s t u h =
      let c = (select_cpu t u.sched).2 in
      let same = ap (λ z. z.dispatch) (select_cpu-Searched t u.sched).sched_same in
      Ends-bind (Sound s) (time_slice c.world) _ (time_slice-Ends c.world) (λ n x.
        sending-Sound s _ u c h (rw same h.readable) (select_cpu-Reach s t u.sched h.reached))
