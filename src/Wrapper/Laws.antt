-- ===== src/Wrapper/Laws.antt =====
-- wrapper.c: the writes of user space against the functions of main.bpf.c that read them.
use scx_goland_core.Base.{ℕ, Bool, true, ◌≡◌, refl, ◌+◌, ◌<◌, ◌^◌, arith, ◌==◌, ltb, if◌then◌else◌}
use scx_goland_core.Kernel.Types.{Task}
use scx_goland_core.Kernel.Oracle.{Kernel}
use scx_goland_core.Bpf.State.{World}
use scx_goland_core.Bpf.Basic.{
  is_usersched_task, is_belong_usersched_task, try_lookup_task_ctx, usersched_has_pending_tasks,
}
use scx_goland_core.Bpf.Enqueue.{enqueue_message, get_task_info, sched_congested}
use scx_goland_core.Wrapper.{
  Skeleton, set_usersched_pid, set_kugepagepid, set_early_processing, set_default_slice, set_debug,
  set_builtin_idle, get_nr_scheduled, get_nr_queued, notify_complete, sub_nr_queued, through,
}

-- After user space registers its PID, exactly the task with that PID is the user-space scheduler,
-- and exactly the tasks of its thread group belong to it, whatever was registered before; the other
-- settings of the set-up change neither.
set_usersched_pid-task :
    (pid khugepaged slice : ℕ) (early debug idle : Bool) (p : Task) (w : World)
    → let v =
        through
          (λ s. set_builtin_idle idle (
            set_debug debug (
              set_default_slice slice (
                set_early_processing early
                  (set_usersched_pid pid (set_kugepagepid khugepaged s))))))
          w in
      (is_usersched_task v.ro p ≡ (p.pid == pid))
      × (is_belong_usersched_task v.ro p ≡ (p.tgid == pid))
      × (v.bss ≡ w.bss)
unfolding set_builtin_idle set_debug set_default_slice set_early_processing set_usersched_pid
    set_kugepagepid is_usersched_task is_belong_usersched_task
set_usersched_pid-task pid khugepaged slice early debug idle p w = (refl, refl, refl)

module _ ⦃k : Kernel⦄ where
  -- A completed round that leaves tasks behind keeps the user-space scheduler wanted; one that
  -- leaves none keeps it wanted exactly when the ring still holds messages. The count that user
  -- space reads back is the one that it gave.
  notify_complete-pending :
      (left : ℕ) (s : Skeleton) (w : World)
      → let v = through (notify_complete left) w in
        ((usersched_has_pending_tasks v).0
          ≡ (if left == 0 then ltb 0 (k.ringbuf_query w.trace) else true))
        × (get_nr_scheduled (notify_complete left s) ≡ left)
        × (get_nr_queued (notify_complete left s) ≡ get_nr_queued s)
  unfolding notify_complete usersched_has_pending_tasks get_nr_scheduled get_nr_queued
  notify_complete-pending left s w = ground arith

  -- One message sent and one task taken by user space cancel: the count of queued tasks is as
  -- before, as long as it fits in 64 bits.
  sub_nr_queued-enqueue_message :
      (p : Task) (flags : ℕ) (w : World)
      → k.ringbuf_reserve w.trace ≡ true
      → w.bss.nr_queued + 1 < 2 ^ 64
      → (through sub_nr_queued (enqueue_message p flags w).1).bss.nr_queued ≡ w.bss.nr_queued
  unfolding sub_nr_queued enqueue_message get_task_info sched_congested try_lookup_task_ctx
  sub_nr_queued-enqueue_message p flags w room small = ground arith
