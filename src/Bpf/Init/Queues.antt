-- ===== src/Bpf/Init/Queues.antt =====
-- main.bpf.c: the queues that dsq_init creates, and the count of the online CPUs.
use scx_goland_core.Base.{
  ℕ, zero, suc, List, [], ◌∷◌, ◌++◌, ◌≡◌, ◌≢◌, ◌⊎◌, refl, ◌+◌, ◌≤◌, ◌<◌, arith, ◌==◌, if◌then◌else◌,
  length,
}
use native.Mathlib.Numerals.{add-one}
use scx_goland_core.Intf.{max_cpus}
use scx_goland_core.Kernel.Types.{Event, Error, online_cpumask}
use scx_goland_core.Kernel.Oracle.{Kernel}
use scx_goland_core.Kernel.Observe.{created, errors, found_online, mask_gets, mask_puts}
use scx_goland_core.Bpf.State.{World, shared_dsq, sched_dsq, pure}
use scx_goland_core.Bpf.Calls.{cpumask_test_cpu}
use scx_goland_core.Bpf.Rules.{if-run}
use scx_goland_core.Bpf.Basic.{cpu_to_dsq}
use scx_goland_core.Bpf.Init.{
  count_online, get_nr_online_cpus, create_or_report, create_pcpu_dsqs, dsq_init,
}

-- The queues of the CPUs below `n`, each created with error 0, the newest first.
abbrev pub cpu_dsqs : ℕ → List (ℕ × ℕ)
cpu_dsqs zero = []
cpu_dsqs (suc n) = (n, 0) ∷ cpu_dsqs n

cpu_dsqs-add_one : (n : ℕ) → cpu_dsqs (n + 1) ≡ (n, 0) ∷ cpu_dsqs n
cpu_dsqs-add_one n = rw add-one

cpu_to_dsq_valid : (cpu : ℕ) (w : World) → cpu < max_cpus → cpu_to_dsq cpu w ≡ (cpu, w)
unfolding cpu_to_dsq
cpu_to_dsq_valid cpu w h = ground arith

module _ ⦃k : Kernel⦄ where
  count_online-found :
      (rounds i cpus : ℕ) (w : World)
      → let (r, v) = count_online rounds i cpus w in
        (r + found_online w.trace ≡ cpus + found_online v.trace)
        × (r ≤ cpus + rounds)
        × (v.bss ≡ w.bss)
        × (created v.trace ≡ created w.trace)
        × (errors v.trace ≡ errors w.trace)
        × (mask_gets v.trace ≡ mask_gets w.trace)
        × (mask_puts v.trace ≡ mask_puts w.trace)
  unfolding count_online
  count_online-found zero i cpus w = ground arith
  count_online-found (suc rounds) i cpus w =
      let (online, v) = cpumask_test_cpu i online_cpumask w in
      ground (arith, count_online-found rounds (i + 1) (if online then cpus + 1 else cpus) v)

  -- The count of online CPUs is the number of CPU numbers below nr_cpu_ids that the kernel reports
  -- online, so at most nr_cpu_ids; the kernel's mask is put back, and no datum changes.
  get_nr_online_cpus-found :
      (w : World)
      → let (r, v) = get_nr_online_cpus w in
        (r + found_online w.trace ≡ found_online v.trace)
        × (r ≤ w.bss.nr_cpu_ids)
        × (v.bss ≡ w.bss)
        × (mask_gets v.trace + mask_puts w.trace ≡ mask_gets w.trace + mask_puts v.trace)
  unfolding get_nr_online_cpus
  get_nr_online_cpus-found w =
      let u : World = record w { trace = Event.get_mask online_cpumask ∷ w.trace } in
      ground (arith, count_online-found w.bss.nr_cpu_ids 0 0 u)

  online_quiet :
      (w : World)
      → let v = (get_nr_online_cpus w).1 in
        (v.bss ≡ w.bss) × (created v.trace ≡ created w.trace) × (errors v.trace ≡ errors w.trace)
  unfolding get_nr_online_cpus
  online_quiet w =
      let u : World = record w { trace = Event.get_mask online_cpumask ∷ w.trace } in
      ground (arith, count_online-found w.bss.nr_cpu_ids 0 0 u)

  create_or_report-created :
      (dsq : ℕ) (failed : ℕ → Error) (w : World)
      → let (err, v) = create_or_report dsq failed w in
        (created v.trace ≡ (dsq, err) ∷ created w.trace)
        × (length (errors v.trace)
            ≡ (if err == 0 then length (errors w.trace) else suc (length (errors w.trace))))
        × (if err == 0 then (errors v.trace ≡ errors w.trace) else Unit)
  unfolding create_or_report
  create_or_report-created dsq failed w = ground arith

  -- What the loop over the CPUs leaves, from `u`.
  abbrev PcpuReady : ℕ → List (ℕ × ℕ) → World → ℕ × World → Type 0
  PcpuReady last base u (err, v) =
      if err == 0
      then (created v.trace ≡ cpu_dsqs last ++ base) × (errors v.trace ≡ errors u.trace)
      else (length (errors v.trace) ≡ suc (length (errors u.trace)))

  PcpuReady-errors :
      (last : ℕ) (base : List (ℕ × ℕ)) (u v : World) (r : ℕ × World)
      → errors v.trace ≡ errors u.trace
      → PcpuReady last base v r
      → PcpuReady last base u r
  PcpuReady-errors last base u v r e h = rw e at h

  -- The loop has created the queues below `cpu` on top of `base` when it comes to `cpu`.
  create_pcpu_dsqs-created :
      (rounds cpu last : ℕ) (base : List (ℕ × ℕ)) (w : World)
      → cpu + rounds ≡ last
      → last ≤ max_cpus
      → created w.trace ≡ cpu_dsqs cpu ++ base
      → PcpuReady last base w (create_pcpu_dsqs rounds cpu w)
  unfolding create_pcpu_dsqs
  create_pcpu_dsqs-created zero cpu last base w e b h =
      let e' : cpu ≡ last = omega arith in (rw (← e') h, refl)
  create_pcpu_dsqs-created (suc rounds) cpu last base w e b h =
      let valid = cpu_to_dsq_valid cpu w (omega arith) in
      let (err, v) = create_or_report cpu (Error.no_pcpu_dsq cpu) w in
      let made = create_or_report-created cpu (Error.no_pcpu_dsq cpu) w in
      rw valid (
        if-run (PcpuReady last base w) (err == 0) (create_pcpu_dsqs rounds (cpu + 1)) (pure err) v
          (λ ok.
            PcpuReady-errors last base w v (create_pcpu_dsqs rounds (cpu + 1) v) (rw ok at made.2) (
              create_pcpu_dsqs-created rounds (cpu + 1) last base v (omega arith) b
                (ground (arith, made, cpu_dsqs-add_one cpu))))
          (λ bad. rw (bad, made.1, bad) refl))

  -- What the set-up of the queues leaves: on success the queues of all CPUs, the shared queue and
  -- the scheduler's, created in this order and no other; on failure one error report more.
  abbrev pub QueuesReady : ℕ → World → ℕ → World → Type 0
  QueuesReady n u err v =
      (err ≡ 0)
        × (created v.trace ≡ (sched_dsq, 0) ∷ (shared_dsq, 0) ∷ cpu_dsqs n ++ created u.trace)
        × (errors v.trace ≡ errors u.trace)
      ⊎ ((err ≢ 0) × (length (errors v.trace) ≡ suc (length (errors u.trace))))

  -- With at most MAX_CPUS possible CPUs, the set-up of the queues succeeds with the queue of every
  -- CPU, the shared queue and the scheduler's queue created, each once and in this order; or it
  -- fails, and has reported one error.
  pub dsq_init-QueuesReady :
      (w : World)
      → w.bss.nr_cpu_ids ≤ max_cpus
      → QueuesReady w.bss.nr_cpu_ids w (dsq_init w).0 (dsq_init w).1
  unfolding dsq_init
  dsq_init-QueuesReady w h =
      let n = w.bss.nr_cpu_ids in
      let (online, u) = get_nr_online_cpus w in
      let v : World = record u { bss = record (u.bss) { nr_online_cpus = online } } in
      let pcpu = (create_pcpu_dsqs n 0 v).1 in
      let shared = (create_or_report shared_dsq Error.no_shared_dsq pcpu).1 in
      ground (
        arith,
        online_quiet w,
        create_pcpu_dsqs-created n 0 n (created w.trace) v,
        create_or_report-created shared_dsq Error.no_shared_dsq pcpu,
        create_or_report-created sched_dsq Error.no_sched_dsq shared,
      )
