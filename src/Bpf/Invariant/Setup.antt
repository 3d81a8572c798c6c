-- ===== src/Bpf/Invariant/Setup.antt =====
-- main.bpf.c, the set-up callbacks and the programs that user space runs, and wrapper.c: the
-- invariant across each.
use scx_goland_core.Base.{
  ℕ, zero, suc, ◌+◌, Option, none, some, ◌∷◌, arith, if◌then◌else◌, Option-cases, inl, inr,
  get_elem?,
}
use scx_goland_core.Base.HashMap.{lookup}
use scx_goland_core.Intf.{DomainArg, PreemptCpuArg}
use scx_goland_core.Kernel.Types.{Task, Event, Error, online_cpumask}
use scx_goland_core.Kernel.Oracle.{Kernel}
use scx_goland_core.Bpf.State.{World, TaskCtx, CpuCtx, shared_dsq, sched_dsq}
use scx_goland_core.Bpf.Calls.{cpumask_test_cpu, storage_create, scx_nr_cpu_ids}
use scx_goland_core.Bpf.Basic.{cpu_to_dsq, try_lookup_task_ctx, put_task_ctx, try_lookup_cpu_ctx}
use scx_goland_core.Bpf.Select.{do_preempt}
use scx_goland_core.Bpf.Tasks.{
  calloc_cpumask, task_storage, init_l3, init_masks, goland_init_task, empty_ctx, add_task_ctx,
}
use scx_goland_core.Bpf.Timer.{usersched_timer_init}
use scx_goland_core.Bpf.Init.{
  count_online, get_nr_online_cpus, create_or_report, create_pcpu_dsqs, dsq_init, goland_init,
  init_cpumask, set_sibling, enable_on, enable_level, enable_found, enable_sibling_cpu,
}
use scx_goland_core.Bpf.Invariant.Defs.{Ghost, Preserves, Steady}

module _ ⦃k : Kernel⦄ (g : Ghost) where
  pub do_preempt-Preserves : (a : PreemptCpuArg) (w : World) → Preserves g w (do_preempt a w).1
  unfolding do_preempt
  do_preempt-Preserves a w h = ground arith

  init_masks-Preserves : (p : Task) (c : TaskCtx) (w : World) → Preserves g w (init_masks p c w).1
  unfolding init_masks init_l3 calloc_cpumask put_task_ctx
  init_masks-Preserves p c w h = ground arith

  pub goland_init_task-Preserves : (p : Task) (w : World) → Preserves g w (goland_init_task p w).1
  unfolding goland_init_task task_storage try_lookup_task_ctx
  goland_init_task-Preserves p w h = elim (Option-cases (lookup p.pid w.task_ctx)) [
    | inr (c, e) ↦ ground (arith, init_masks-Preserves p c w)
    | inl e ↦
        ground (arith, init_masks-Preserves p empty_ctx (add_task_ctx p (storage_create p w).1).1)
  ]

  pub enable_found-Preserves :
      (a : DomainArg) (c : Option CpuCtx) (w : World) → Preserves g w (enable_found a c w).1
  unfolding enable_found enable_level enable_on init_cpumask calloc_cpumask set_sibling
  enable_found-Preserves a none w h = h
  enable_found-Preserves a (some c) w h = ground arith

  pub enable_sibling_cpu-Preserves :
      (a : DomainArg) (w : World) → Preserves g w (enable_sibling_cpu a w).1
  unfolding enable_sibling_cpu try_lookup_cpu_ctx
  enable_sibling_cpu-Preserves a w h = enable_found-Preserves a (get_elem? w.cpu_ctx a.cpu_id) w h

  count_online-Steady : (rounds i cpus : ℕ) (w : World) → Steady w (count_online rounds i cpus w).1
  unfolding count_online
  count_online-Steady zero i cpus w = ground arith
  count_online-Steady (suc rounds) i cpus w =
      let (online, v) = cpumask_test_cpu i online_cpumask w in
      ground (arith, count_online-Steady rounds (i + 1) (if online then cpus + 1 else cpus) v)

  create_or_report-Preserves :
      (dsq : ℕ) (e : ℕ → Error) (w : World) → Preserves g w (create_or_report dsq e w).1
  unfolding create_or_report
  create_or_report-Preserves dsq e w h = ground arith

  create_pcpu_dsqs-Preserves :
      (rounds cpu : ℕ) (w : World) → Preserves g w (create_pcpu_dsqs rounds cpu w).1
  unfolding create_pcpu_dsqs cpu_to_dsq
  create_pcpu_dsqs-Preserves zero cpu w h = h
  create_pcpu_dsqs-Preserves (suc rounds) cpu w h =
      let (dsq, u) = cpu_to_dsq cpu w in
      let v = (create_or_report dsq (Error.no_pcpu_dsq cpu) u).1 in
      ground (
        arith,
        create_or_report-Preserves dsq (Error.no_pcpu_dsq cpu) u,
        create_pcpu_dsqs-Preserves rounds (cpu + 1) v,
      )

  dsq_init-Preserves : (w : World) → Preserves g w (dsq_init w).1
  unfolding dsq_init get_nr_online_cpus
  dsq_init-Preserves w h =
      let n = w.bss.nr_cpu_ids in
      let u : World = record w { trace = Event.get_mask online_cpumask ∷ w.trace } in
      let (online, v) = count_online n 0 0 u in
      let x : World = record v {
        trace = Event.put_mask online_cpumask ∷ v.trace;
        bss = record (v.bss) { nr_online_cpus = online };
      } in
      let pcpu = (create_pcpu_dsqs x.bss.nr_cpu_ids 0 x).1 in
      let shared = (create_or_report shared_dsq Error.no_shared_dsq pcpu).1 in
      ground (
        arith,
        count_online-Steady n 0 0 u,
        create_pcpu_dsqs-Preserves x.bss.nr_cpu_ids 0 x,
        create_or_report-Preserves shared_dsq Error.no_shared_dsq pcpu,
        create_or_report-Preserves sched_dsq Error.no_sched_dsq shared,
      )

  usersched_timer_init-Preserves : (w : World) → Preserves g w (usersched_timer_init w).1
  unfolding usersched_timer_init
  usersched_timer_init-Preserves w h = ground arith

  pub goland_init-Preserves : (w : World) → Preserves g w (goland_init w).1
  unfolding goland_init
  goland_init-Preserves w h =
      let (n, u) = scx_nr_cpu_ids w in
      let v : World = record u { bss = record (u.bss) { nr_cpu_ids = n } } in
      ground (arith, dsq_init-Preserves v, usersched_timer_init-Preserves (dsq_init v).1)
