-- ===== src/User/Loop/Dispatched.antt =====
-- main.go: a task on its way from the pool to the other half.
use scx_goland_core.Base.{
  ℕ, ◌+◌, ◌/◌, ◌^◌, ◌≤◌, ◌<◌, ◌≡◌, refl, ap, Bool, true, false, not, ◌&&◌, ◌⊎◌, Bool-cases, inl,
  inr, some, List, [], ◌∷◌, ◌++◌, arith, ltb, if◌then◌else◌,
}
use native.Mathlib.Nat.{div-le_self}
use scx_goland_core.Intf.{DispatchedTaskCtx, TaskCpuArg, rl_cpu_any}
use scx_goland_core.Bpf.Select.{rs_select_cpu}
use scx_goland_core.Kernel.Oracle.{Kernel}
use scx_goland_core.Bpf.State.{World, Bss}
use scx_goland_core.Bpf.Select.Direct.{rs_select_cpu-Quiet}
use scx_goland_core.Bpf.Idle.Quiet.{Quiet, Quiet-IsPreorder}
use scx_goland_core.Wrapper.{through, notify_complete, get_nr_queued, get_nr_scheduled}
use scx_goland_core.User.Run.{ok, Returns}
use scx_goland_core.User.Message.{QueuedTask, DispatchedTask, fast_encode}
use scx_goland_core.User.Message.Layout.{dispatched_sample}
use scx_goland_core.User.Message.RoundTrip.{dispatched_sample-fast_encode}
use scx_goland_core.User.Vruntime.{slice_ns_default, slice_ns_min, max64}
use scx_goland_core.User.Sched.{Sched, Libbpf, select_cpu, dispatch_task}
use scx_goland_core.User.Drain.{User}
use scx_goland_core.User.Loop.{nr_waiting, time_slice, dispatch_next}

-- The values of the Go types, for the fields that are sent.
pub record Fits (t : QueuedTask) : Type 0 where
  pub pid_fits : t.pid < 2 ^ 32
  pub flags_fits : t.flags < 2 ^ 64
  pub vtime_fits : t.vtime < 2 ^ 64

-- The slice of the larger of a half millisecond and the share of five milliseconds.
abbrev pub share : Bss → ℕ
share c = max64 (slice_ns_default / (c.nr_queued + c.nr_scheduled + 1)) slice_ns_min

share-bounds : (c : Bss) → (slice_ns_min ≤ share c) × (share c ≤ slice_ns_default)
share-bounds c = ground (arith, div-le_self slice_ns_default (c.nr_queued + c.nr_scheduled + 1))

time_slice-share :
    (w : World)
    → w.bss.nr_queued + w.bss.nr_scheduled + 1 < 2 ^ 64
    → time_slice w ≡ ok (share w.bss)
unfolding time_slice get_nr_queued get_nr_scheduled
time_slice-share w small =
    let e : nr_waiting w ≡ w.bss.nr_queued + w.bss.nr_scheduled + 1 = omega arith in
    rw e (ground arith)

-- What is written for the task `t` and the CPU, and what is read.
abbrev encoded_for : QueuedTask → ℕ → Bss → DispatchedTask
encoded_for t cpu c = record {
  pid = t.pid;
  cpu = cpu;
  flags = t.flags;
  slice_ns = share c;
  vtime = t.vtime;
  cpu_mask_cnt = 0;
}

abbrev pub read_for : QueuedTask → ℕ → Bss → DispatchedTaskCtx
read_for t cpu c = record {
  pid = t.pid;
  cpu = cpu;
  flags = t.flags;
  slice_ns = share c;
  vtime = t.vtime;
}

module _ ⦃b : Libbpf⦄ ⦃k : Kernel⦄ where
  -- The CPU that the search of the other half finds for the task, and the data after it. A negative
  -- answer stands for no CPU, RL_CPU_ANY; where the program is not called, there is no search, and the
  -- CPU is 0.
  abbrev pub search : QueuedTask → Sched → ℕ × World
  search t s =
      if s.has_select_cpu && not (b.run_fails s.world)
      then (let (r, w) =
            rs_select_cpu (record { pid = t.pid; cpu = t.cpu; flags = t.flags }) s.world in
          (if ltb r (2 ^ 31) then r else rl_cpu_any, w))
      else (0, s.world)

  -- `task` is what the other half reads, `s` the program after the search for a CPU. The count of the
  -- tasks that are left is written to nr_scheduled, and nothing else of the data is.
  pub record Sent (task : DispatchedTaskCtx) (s : Sched) (u v : User) : Type 0 where
    pub bytes : List ℕ
    pub read : dispatched_sample bytes ≡ some task
    pub slice_bounds : (slice_ns_min ≤ task.slice_ns) × (task.slice_ns ≤ slice_ns_default)
    pub appended : v.sched ≡ record s {
      dispatch = u.sched.dispatch ++ (bytes ∷ []);
      world = record (s.world) { bss = record (s.world.bss) { nr_scheduled = u.pool.count } };
    }
    pub pool_same : (v.pool ≡ u.pool) × (v.min_vruntime ≡ u.min_vruntime)

  -- The search changes the transcript of the program alone. A failed call chooses CPU 0.
  pub record Searched (s : Sched) (r : Bool × ℕ × Sched) : Type 0 where
    pub cpu_fits : r.1 < 2 ^ 31
    pub failed : r.0 ≡ false → r.1 ≡ 0
    pub sched_same : r.2 ≡ record s { world = r.2.world }
    pub quiet : Quiet s.world r.2.world

  pub select_cpu-Searched : (t : QueuedTask) (s : Sched) → Searched s (select_cpu t s)
  unfolding select_cpu
  select_cpu-Searched t s = elim (Bool-cases (s.has_select_cpu && not (b.run_fails s.world))) [
    | inl e ↦
        let input : TaskCpuArg = record { pid = t.pid; cpu = t.cpu; flags = t.flags } in
        rw e (record {
          cpu_fits = ground arith;
          failed = λ p. ground arith;
          sched_same = refl;
          quiet = rs_select_cpu-Quiet input s.world;
        })
    | inr e ↦ rw e (record {
      cpu_fits = omega arith;
      failed = λ p. refl;
      sched_same = refl;
      quiet = Quiet-IsPreorder.here s.world;
    })
  ]

  -- A dispatch of `t`: the ring buffer has failed and nothing is sent, or a message is.
  abbrev DispatchedOn : ℕ → Sched → QueuedTask → User → User → Type 0
  DispatchedOn cpu s t u v =
      (b.urb_fails s.world ≡ true) × (v ≡ record u { sched = s })
      ⊎ (b.urb_fails s.world ≡ false) × Sent (read_for t cpu u.sched.world.bss) s u v

  -- The same on the CPU that the search finds.
  abbrev pub Dispatched : QueuedTask → User → User → Type 0
  Dispatched t u v =
      let (cpu, w) = search t u.sched in DispatchedOn cpu (record (u.sched) { world = w }) t u v

  select_cpu-search :
      (t : QueuedTask) (s : Sched)
      → ((select_cpu t s).1 ≡ (search t s).0)
        × ((select_cpu t s).2 ≡ record s { world = (search t s).1 })
  unfolding select_cpu
  select_cpu-search t s = ground arith

  pub Dispatched-pool : (t : QueuedTask) (u v : User) → Dispatched t u v → v.pool ≡ u.pool
  Dispatched-pool t u v (inl (e, same)) = ap (λ z. z.pool) same
  Dispatched-pool t u v (inr (e, h)) = h.pool_same.0

  sent_lem :
      (t : QueuedTask) (u : User)
      → Fits t
      → (r : Bool × ℕ × Sched) → Searched u.sched r
      → Sent (read_for t r.1 u.sched.world.bss) (r.2) u (record u {
        sched = record (r.2) {
          dispatch = (r.2).dispatch ++ (fast_encode (encoded_for t r.1 u.sched.world.bss) ∷ []);
          world = through (notify_complete u.pool.count) (r.2).world;
        };
      })
  unfolding notify_complete
  sent_lem t u fits r found =
      let (low, high) = share-bounds u.sched.world.bss in
      record {
        bytes = fast_encode (encoded_for t r.1 u.sched.world.bss);
        read = dispatched_sample-fast_encode (encoded_for t r.1 u.sched.world.bss) (record {
          pid_fits = fits.pid_fits;
          cpu_fits = omega (arith, found.cpu_fits);
          flags_fits = fits.flags_fits;
          slice_fits = omega arith;
          vtime_fits = fits.vtime_fits;
        });
        slice_bounds = (low, high);
        appended = rw (ap (λ z. z.dispatch) found.sched_same) refl;
        pool_same = (refl, refl);
      }

  dispatch_next-DispatchedOn :
      (t : QueuedTask) (u : User)
      → Fits t
      → u.sched.world.bss.nr_queued + u.sched.world.bss.nr_scheduled + 1 < 2 ^ 64
      → Returns
          (DispatchedOn (select_cpu t u.sched).1 (select_cpu t u.sched).2 t u)
          (dispatch_next t u)
  unfolding dispatch_next dispatch_task
  dispatch_next-DispatchedOn t u fits small =
      let r = select_cpu t u.sched in
      let found = select_cpu-Searched t u.sched in
      let slice : time_slice r.2.world ≡ ok (share u.sched.world.bss) =
        rw found.quiet.bss_same at
          (time_slice-share r.2.world (rw (← found.quiet.bss_same) at small)) in
      rw slice (elim (Bool-cases (b.urb_fails r.2.world)) [
        | inl e ↦ rw e (inl (refl, refl))
        | inr e ↦ rw e (inr (refl, sent_lem t u fits r found))
      ])

  -- Where the counts of tasks do not wrap, the dispatch ends without a panic.
  pub dispatch_next-Dispatched :
      (t : QueuedTask) (u : User)
      → Fits t
      → u.sched.world.bss.nr_queued + u.sched.world.bss.nr_scheduled + 1 < 2 ^ 64
      → Returns (Dispatched t u) (dispatch_next t u)
  dispatch_next-Dispatched t u fits small =
      let e = select_cpu-search t u.sched in
      rw (e.0, e.1) at (dispatch_next-DispatchedOn t u fits small)
