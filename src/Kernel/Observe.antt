-- ===== src/Kernel/Observe.antt =====
-- What a transcript shows: claimed CPUs, insertions, and what was acquired and released.
use scx_goland_core.Base.{map, ℕ, suc, Bool, true, false, List, [], ◌∷◌, if◌then◌else◌, ◌==◌, ◌&&◌}
use scx_goland_core.Base.Word.{is_neg}
use scx_goland_core.Kernel.Types.{Event, Error, Mask, Trace, cpus_ptr, online_cpumask}
use scx_goland_core.Intf.{QueuedTaskCtx}

-- The idle CPUs whose idle state the calls have taken, the newest first.
abbrev pub claimed : Trace → List ℕ
claimed [] = []
claimed (Event.test_and_clear_cpu_idle cpu true ∷ t) = cpu ∷ claimed t
claimed (Event.pick_idle_cpu m f cpu ∷ t) = if is_neg cpu then claimed t else cpu ∷ claimed t
claimed (_ ∷ t) = claimed t

pub record Insert : Type 0 where
  pub pid : ℕ
  pub dsq : ℕ
  pub slice : ℕ
  pub flags : ℕ

-- The insertions into dispatch queues, the newest first.
abbrev pub inserts : Trace → List Insert
inserts [] = []
inserts (Event.dsq_insert p d s f ∷ t) =
    record { pid = p; dsq = d; slice = s; flags = f } ∷ inserts t
inserts (Event.dsq_insert_vtime p d s v f ∷ t) =
    record { pid = p; dsq = d; slice = s; flags = f } ∷ inserts t
inserts (_ ∷ t) = inserts t

-- The messages sent to the user-space scheduler, the newest first.
abbrev pub submitted : Trace → List QueuedTaskCtx
submitted [] = []
submitted (Event.ringbuf_submit m ∷ t) = m ∷ submitted t
submitted (_ ∷ t) = submitted t

-- How many references to tasks were taken, and given back.
abbrev pub task_gets : Trace → ℕ
task_gets [] = 0
task_gets (Event.task_from_pid p true ∷ t) = suc (task_gets t)
task_gets (_ ∷ t) = task_gets t

abbrev pub task_puts : Trace → ℕ
task_puts [] = 0
task_puts (Event.task_release p ∷ t) = suc (task_puts t)
task_puts (_ ∷ t) = task_puts t

-- The same for the kernel's cpumasks, for the sections of `bpf_rcu_read_lock`, and for the slots
-- of the ring buffer.
abbrev pub mask_gets : Trace → ℕ
mask_gets [] = 0
mask_gets (Event.get_mask m ∷ t) = suc (mask_gets t)
mask_gets (_ ∷ t) = mask_gets t

abbrev pub mask_puts : Trace → ℕ
mask_puts [] = 0
mask_puts (Event.put_mask m ∷ t) = suc (mask_puts t)
mask_puts (_ ∷ t) = mask_puts t

abbrev pub rcu_locks : Trace → ℕ
rcu_locks [] = 0
rcu_locks (Event.rcu_read_lock ∷ t) = suc (rcu_locks t)
rcu_locks (_ ∷ t) = rcu_locks t

abbrev pub rcu_unlocks : Trace → ℕ
rcu_unlocks [] = 0
rcu_unlocks (Event.rcu_read_unlock ∷ t) = suc (rcu_unlocks t)
rcu_unlocks (_ ∷ t) = rcu_unlocks t

-- The dispatches taken back, and the kicks.
abbrev pub cancels : Trace → ℕ
cancels [] = 0
cancels (Event.dispatch_cancel ∷ t) = suc (cancels t)
cancels (_ ∷ t) = cancels t

abbrev pub kicks : Trace → List (ℕ × ℕ)
kicks [] = []
kicks (Event.kick_cpu cpu flags ∷ t) = (cpu, flags) ∷ kicks t
kicks (_ ∷ t) = kicks t

-- How often `cpus_ptr` of a task was found to hold a CPU.
abbrev pub passed : ℕ → ℕ → Trace → ℕ
passed cpu pid [] = 0
passed cpu pid (Event.cpumask_test_cpu c (cpus_ptr p) true ∷ t) =
    let rest = passed cpu pid t in if c == cpu && p == pid then suc rest else rest
passed cpu pid (_ ∷ t) = passed cpu pid t

-- The tasks of the insertions, the newest first.
abbrev pub inserted_pids : Trace → List ℕ
inserted_pids t = map (λ (i : Insert). i.pid) (inserts t)

-- The lookups of a task by its PID.
abbrev pub lookups : Trace → ℕ
lookups [] = 0
lookups (Event.task_from_pid p b ∷ t) = suc (lookups t)
lookups (_ ∷ t) = lookups t

-- The attempts to move a task to the local queue: the queue, and whether it had one.
abbrev pub moves : Trace → List (ℕ × Bool)
moves [] = []
moves (Event.dsq_move_to_local d b ∷ t) = (d, b) ∷ moves t
moves (_ ∷ t) = moves t

-- The queues that were created, the newest first, and the errors that were reported.
abbrev pub created : Trace → List (ℕ × ℕ)
created [] = []
created (Event.create_dsq d e ∷ t) = (d, e) ∷ created t
created (_ ∷ t) = created t

abbrev pub errors : Trace → List Error
errors [] = []
errors (Event.scx_error e ∷ t) = e ∷ errors t
errors (_ ∷ t) = errors t

-- How often the heartbeat was armed.
abbrev pub armed : Trace → ℕ
armed [] = 0
armed (Event.timer_start ns err ∷ t) = suc (armed t)
armed (_ ∷ t) = armed t

-- The CPUs that were found online, and the CPUs that were added to masks of the program.
abbrev pub found_online : Trace → ℕ
found_online [] = 0
found_online (Event.cpumask_test_cpu c online_cpumask true ∷ t) = suc (found_online t)
found_online (_ ∷ t) = found_online t

abbrev pub added_cpus : Trace → List (ℕ × Mask)
added_cpus [] = []
added_cpus (Event.cpumask_set_cpu c m ∷ t) = (c, m) ∷ added_cpus t
added_cpus (_ ∷ t) = added_cpus t

-- How many allocations the kernel has refused.
abbrev pub refused : Trace → ℕ
refused [] = 0
refused (Event.cpumask_create false ∷ t) = suc (refused t)
refused (Event.storage_create p false ∷ t) = suc (refused t)
refused (_ ∷ t) = refused t

-- The slots of the ring buffer that were reserved, and the attempts that found it full.
abbrev pub reserved : Trace → ℕ
reserved [] = 0
reserved (Event.ringbuf_reserve true ∷ t) = suc (reserved t)
reserved (_ ∷ t) = reserved t

abbrev pub missed : Trace → ℕ
missed [] = 0
missed (Event.ringbuf_reserve false ∷ t) = suc (missed t)
missed (_ ∷ t) = missed t

-- How often a task was inserted into a queue.
abbrev pub times_inserted : ℕ → ℕ → Trace → ℕ
times_inserted pid dsq [] = 0
times_inserted pid dsq (Event.dsq_insert p d s f ∷ t) =
    let rest = times_inserted pid dsq t in if p == pid && d == dsq then suc rest else rest
times_inserted pid dsq (Event.dsq_insert_vtime p d s v f ∷ t) =
    let rest = times_inserted pid dsq t in if p == pid && d == dsq then suc rest else rest
times_inserted pid dsq (_ ∷ t) = times_inserted pid dsq t
