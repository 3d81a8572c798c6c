-- ===== src/Bpf/Basic.antt =====
-- The helpers of main.bpf.c: contexts, tests on a task, the wake-up flag of the user-space
-- scheduler, the queue of a CPU, and the map of the priority tasks.
pub mod Flag
pub mod Priority
use scx_goland_core.Base.{
  ℕ, Bool, true, false, not, ◌&&◌, ◌||◌, Option, none, some, List, bit_and, bit_or, ◌+◌, ◌==◌, ltb,
  leb, if◌then◌else◌, get_elem?,
}
use scx_goland_core.Base.Word.{is_neg, enomem, neg}
use scx_goland_core.Base.HashMap
use scx_goland_core.Base.HashMap.{lookup, update, delete}
use scx_goland_core.Intf.{max_cpus}
use scx_goland_core.Kernel.Types.{Task, Error}
use scx_goland_core.Kernel.Oracle.{Kernel}
use scx_goland_core.Bpf.State.{
  World, M, pure, ◌>>=◌, ◌>>◌, get, modify_bss, TaskCtx, CpuCtx, Rodata, Bss, shared_dsq,
  max_enqueued_tasks,
}
use scx_goland_core.Bpf.Calls.{scx_error, ringbuf_query}

-- `*tctx = c`, through the pointer into the task's storage. The task has storage where this runs.
unfoldable pub put_task_ctx : Task → TaskCtx → M (Unit {0})
unfolding HashMap.replace
put_task_ctx p c w = (tt, record w { task_ctx = HashMap.replace p.pid c w.task_ctx })

-- The debug message of the NULL case is left out.
unfoldable pub try_lookup_task_ctx : Task → M (Option TaskCtx)
unfolding lookup
try_lookup_task_ctx p = get (λ w. lookup p.pid w.task_ctx)

unfoldable pub try_lookup_cpu_ctx : ℕ → M (Option CpuCtx)
try_lookup_cpu_ctx cpu = get (λ w. get_elem? w.cpu_ctx cpu)

unfoldable pub is_usersched_task : Rodata → Task → Bool
is_usersched_task ro p = p.pid == ro.usersched_pid

unfoldable pub is_belong_usersched_task : Rodata → Task → Bool
is_belong_usersched_task ro p = p.tgid == ro.usersched_pid

unfoldable pub is_khugepaged : Rodata → Task → Bool
is_khugepaged ro p = not (ro.khugepaged_pid == 0) && p.pid == ro.khugepaged_pid

module _ ⦃k : Kernel⦄ where
  unfoldable pub is_kthread : Task → Bool
  is_kthread p = not (bit_and p.flags k.pf_kthread == 0)

  unfoldable pub is_kworker : Task → Bool
  is_kworker p = not (bit_and p.flags k.pf_wq_worker == 0)

  unfoldable pub is_kswapd : Task → Bool
  is_kswapd p = not (bit_and p.flags (bit_or k.pf_kswapd k.pf_kcompactd) == 0)

  unfoldable pub is_queued : Task → Bool
  is_queued p = not (bit_and p.scx_flags k.task_queued == 0)

-- __sync_fetch_and_or(&usersched_needed, 1)
unfoldable pub set_usersched_needed : M (Unit {0})
set_usersched_needed = modify_bss (λ b. record b { usersched_needed = bit_or b.usersched_needed 1 })

-- __sync_fetch_and_and(&usersched_needed, 0) == 1
unfoldable pub test_and_clear_usersched_needed : M Bool
test_and_clear_usersched_needed = do
  old ← get (λ w. w.bss.usersched_needed)
  modify_bss (λ b. record b { usersched_needed = bit_and b.usersched_needed 0 })
  pure (old == 1)

module _ ⦃k : Kernel⦄ where
  unfoldable pub usersched_has_pending_tasks : M Bool
  usersched_has_pending_tasks = do
    scheduled ← get (λ w. w.bss.nr_scheduled)
    if scheduled == 0 then (do avail ← ringbuf_query; pure (ltb 0 avail)) else pure true

unfoldable pub cpu_to_dsq : ℕ → M ℕ
cpu_to_dsq cpu =
    if is_neg cpu || leb max_cpus cpu
    then (do scx_error (Error.invalid_cpu cpu); pure shared_dsq)
    else pure cpu

unfoldable pub update_priority_task_map : ℕ → ℕ → ℕ → M (Unit {0})
unfolding update delete
update_priority_task_map pid vtime slice w = (tt, record w { priority_tasks = tasks })
  where
    tasks : List (ℕ × ℕ)
    tasks =
        if vtime == 0
        then update max_enqueued_tasks pid slice w.priority_tasks
        else delete pid w.priority_tasks
