-- ===== src/Lib.antt =====
-- scx_goland_core: the BPF half of a scheduler for sched_ext (main.bpf.c), the messages that it
-- exchanges with its user-space half (intf.h), the C functions through which user space
-- reads and writes its data (wrapper.c), and the user-space half in Go (main.go, goland_core,
-- util/topology.go).
--
-- The parts of the program. The kernel calls main.bpf.c at each event in the life of a task. A task
-- that becomes runnable goes straight to an idle CPU, or its description is sent to user space
-- through a ring buffer. User space decides the order, the CPU and the time slice and sends the task
-- back through a second ring buffer, which the dispatch callback drains. The user-space scheduler is
-- a task itself: a flag asks the dispatch callback to run it, and a timer sets the flag if it has not
-- run for a while. A task that user space sends back with vtime 0 is a priority task: it is kept in a
-- map, and from then on enqueue inserts it at once.
-- The Go half decodes each message, gives the task a virtual run time and a deadline, and keeps it in
-- a ring of 4096 slots in the order of the deadlines. Its loop takes the first task, lets a program of
-- the BPF half look for a CPU, computes a slice and sends the task back. When the pool is empty it
-- fills it from the channel. Before the scheduler is attached, it reads the caches of the machine and
-- reports each pair of CPUs that share one.
--
-- Which file models which part:
--   Intf            intf.h: limits and messages
--   Kernel/Types    what main.bpf.c names of the kernel, and the transcript of its calls
--   Kernel/Oracle   the kernel's answers and constants, a parameter
--   Kernel/Observe  what a transcript shows: insertions, messages, claimed CPUs, references
--   Bpf/State       main.bpf.c: the .rodata and .bss data, the maps, and the monad of a run
--   Bpf/Calls       the calls of main.bpf.c into the kernel
--   Bpf/Basic       try_lookup_cpu_ctx to update_priority_task_map
--   Bpf/Idle        pick_idle_cpu, kick_task_cpu
--   Bpf/Select      try_direct_dispatch, goland_select_cpu, rs_select_cpu, do_preempt
--   Bpf/Dispatch    dispatch_task, handle_dispatched_task, dispatch_user_scheduler, goland_dispatch
--   Bpf/Enqueue     get_task_info, sched_congested, is_queued_wakeup, goland_enqueue
--   Bpf/Tasks       goland_runnable, running, stopping, cpu_release, enable, init_task, exit_task
--   Bpf/Timer       usersched_timer_fn, usersched_timer_init
--   Bpf/Init        get_nr_online_cpus, dsq_init, init_cpumask, enable_sibling_cpu, goland_init
--   Bpf/Rules       rules for runs, used by the proofs
--   Bpf/Invariant   the entry points as the steps of one relation (Reach), its invariant (Defs,
--                   Steps, Setup), a request for the user-space scheduler across steps (Request), and
--                   the count of running tasks (Running)
--   Bpf/Interleave  goland_dispatch cut where it reaches what the CPUs share, for any number of CPUs at
--                   once (Kept, Request), with its parts in a row (Whole)
--   Wrapper         wrapper.c
--   User/Message    goland_core/task.go: the messages, fastDecode, fastEncode; Layout has the bytes as
--                   C lays them out
--   User/Vruntime   main.go: updatedEnqueueTask
--   User/Pool       main.go: LessQueuedTask, InsertTaskToPool, GetTaskFromPool
--   Wrapper/Race    wrapper.c: sub_nr_queued by its reads and writes, with the counts of other CPUs between
--   Wrapper/Open    wrapper.c: open_skel, destroy_skel
--   Wrapper/Uei     wrapper.h: the record of the exit
--   Bpf/Exit        main.bpf.c: goland_exit
--   User/Start      goland_core/rodata.go: KhugepagePid, AssignUserSchedPid; main.go: the settings
--   User/Exit       goland_core/uei.go: the record of the exit, as Go reads it; main.go: the last loop
--   User/Channel    goland_core: the two channels, an operation of a goroutine at a time
--   User/Sched      goland_core: DequeueTask, DispatchTask, SelectCPU, PreemptCpu, EnableSiblingCpu, and
--                   the calls that ask whether a message waits
--   User/Drain      main.go: DrainQueuedTask
--   User/Loop       main.go: the goroutine of main, one turn of a loop at a time
--   User/System     turns of that loop, callbacks of main.bpf.c and messages, in any order; Handed and
--                   Round follow tasks from their messages through the pool into a dispatch queue
--   User/Text       what the Go code uses of strings and strconv, on bytes
--   User/Topology   util/topology.go: parseCPUs; Walk has GetTopology, Domains initCacheDomains
--   User/Run        how a run of Go code ends: a value, a panic, or out of the rounds of the model
--   Tests           a concrete kernel with four CPUs, and runs on it
-- The modules below these hold the proofs, and are named for what they prove.
--
-- How the state corresponds. `World` is the data of main.bpf.c, with the transcript of the calls that
-- it has made into the kernel, the newest first. A function of the C code is a function from a world
-- to a result and a world, and keeps its name; the parts of a long function are cut at its early
-- returns and gotos. BPF hash maps are association lists that refuse a new key when they hold
-- max_entries (4096 for priority_tasks, 1024 for running_task). The storage of a task and the context
-- of a CPU are found by PID and by CPU number; the storage of a task that has ended, which the kernel
-- frees with the task, stays, so that a PID which comes again finds it. What comes back through a pointer (`*dispatched`,
-- `prev->scx.slice`, `*p_cpumask`) is part of the result. A mask pointer is the number that
-- bpf_cpumask_create gave it, or NULL.
--
-- Machine integers. An s32 is its 32-bit pattern, so that `x < 0` is the top bit and conversions
-- between s32 and u32 do nothing. Counters are u64 and wrap at 2^64.
--
-- The kernel is a parameter: each answer may be any function of the transcript, so nothing is assumed
-- of the timing of other CPUs, of which CPUs are idle, or of the success of an allocation. The
-- constants of the kernel's headers are parameters too. A hypothesis about an answer stands in the
-- theorem that needs it.
--
-- The Go half. The globals of main.go and the loaded program are the record `User` of User/Drain. A
-- channel is a list, the oldest message first; the messages that come in while a loop runs are an
-- argument. A call of a BPF program runs the function of the same name on the shared `World`, unless
-- the program was not found or libbpfgo refuses the call. A division by zero is a panic. The result of
-- a function that may fail is a Boolean, where true stands for a nil error. A QueuedTask is a value: no
-- two slots of the pool share one that is written.
--
-- Loops. The loops over the CPUs recurse on the rounds that are left, the drain of the ring on the
-- samples that wait. Two loops of main.go have no bound, and are given 4096 rounds: the one that moves
-- tasks up in the pool goes down from the tail to a slot of the ring, and DrainQueuedTask puts a task
-- into the pool in each round but the last. The theorems on them state that these rounds are enough.
-- The loops of the goroutine are the steps of a machine. The timer is modelled as one round, which ends
-- by arming the next.
--
-- Orders and interleavings. In Bpf/Invariant and User/System a callback, a call or a turn of the loop
-- runs to its end before the next. Three places are taken apart further, because the code depends on
-- them: Bpf/Interleave lets any number of CPUs be in goland_dispatch at once, cuts it after
-- test_and_clear_usersched_needed, after dispatch_user_scheduler, after each sample and after the
-- queues, and puts the other entry points, whole, in between; User/Channel has the operations of the goroutines on the channels, with their room for 4096
-- messages, and relates the call of BlockTilReadyForDequeue that User/Sched has in one to them;
-- Wrapper/Race has the test, the read and the write of sub_nr_queued, with the messages and counts of
-- other CPUs between them. The fields that count what has happened (arrived, taken, lost, and so on)
-- are no fields of the program.
--
-- Not modelled: dbg_msg, which prints. UEI_RECORD, a macro of the scx headers, and the functions of the
-- generated skeleton are parameters of goland_exit, open_skel and destroy_skel. Of the Go code: the loading, attaching
-- and closing of the module and the reading of its other maps (obj.go, bss.go, GetRoData of
-- rodata.go), which are calls of libbpfgo. The entries of /proc, the files that the walk of /sys
-- visits, and the value of the map with the exit record are parameters. A callback other than
-- goland_dispatch, and each part of that one, runs to its end before the next starts, as far as the
-- program's own data other than nr_queued go; the kernel's answers may change at each call. What is left
-- of main.bpf.c and the headers has no behaviour of its own: prototypes, typedefs, the declarations of
-- the maps and of the ops, and macros of the scx headers. The RCU sections, the references and the masks that the
-- code takes are in the transcript; what the kernel does with them is not. calloc_cpumask
-- models the exchange of a mask in general; goland_init_task writes the same steps out.
pub mod Base
pub mod Intf
pub mod Kernel
pub mod Bpf
pub mod Wrapper
pub mod User
pub mod Tests
