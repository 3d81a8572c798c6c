-- ===== src/Tests/Enqueue.antt =====
-- The enqueue callback at concrete inputs.
use scx_goland_core.Base.{true, some, ◌∷◌, ◌≡◌, refl, if◌then◌else◌}
use scx_goland_core.Base.Word.{is_neg}
use scx_goland_core.Kernel.Observe.{inserts}
use scx_goland_core.Bpf.Basic.{
  is_usersched_task, is_belong_usersched_task, is_kthread, is_kswapd, is_khugepaged,
}
use scx_goland_core.Bpf.Enqueue.{goland_enqueue, enqueue_message, insert_prio}
use scx_goland_core.Bpf.Enqueue.Hands.{HandsOn, is_prio, goland_enqueue-HandsOn}
use scx_goland_core.Bpf.Enqueue.Priority.{
  Local, prio_cpu, prio_insert, Sent, IsOrdinary, insert_prio-Local, enqueue_message-Sent,
  goland_enqueue_twice,
}
use scx_goland_core.Base.HashMap.{lookup}
use scx_goland_core.Bpf.Dispatch.{dispatch_task}
use scx_goland_core.Bpf.Enqueue.Lifecycle.{PlacedAs, dispatch_task-enqueue_prio}
use scx_goland_core.Bpf.State.{shared_dsq}
use scx_goland_core.Tests.Data.{
  worker, running_world, delegated_world, to_cpu, four_cpus, full_ring,
}

goland_enqueue-HandsOn_example :
    let w' = (goland_enqueue worker 0 running_world).1 in
    if is_usersched_task running_world.ro worker
    then w' ≡ running_world
    else HandsOn (is_prio worker running_world) worker.pid running_world w'
goland_enqueue-HandsOn_example = goland_enqueue-HandsOn worker 0 running_world

insert_prio-Local_example :
    let cpu = prio_cpu worker running_world in
    let w' = (insert_prio worker 5_000_000 running_world).1 in
    if is_neg cpu
    then (inserts w'.trace ≡ inserts running_world.trace) × (w'.bss ≡ running_world.bss)
    else Local worker 5_000_000 cpu running_world w'
insert_prio-Local_example = insert_prio-Local worker 5_000_000 running_world

enqueue_message-Sent_example :
    Sent true worker 0 running_world (enqueue_message worker 0 running_world).1
enqueue_message-Sent_example = enqueue_message-Sent worker 0 running_world

worker-IsOrdinary : IsOrdinary ⦃k = full_ring⦄ worker delegated_world
unfolding is_usersched_task is_belong_usersched_task is_kthread is_kswapd is_khugepaged
worker-IsOrdinary = record {
  not_usersched = refl;
  not_its_thread = refl;
  not_kthread = refl;
  not_kswapd = refl;
  not_khugepaged = refl;
}

worker_prioritized : lookup 7 delegated_world.priority_tasks ≡ some 5_000_000
unfolding lookup
worker_prioritized = refl

goland_enqueue_twice_example :
    inserts (goland_enqueue ⦃k = full_ring⦄ worker 0 delegated_world).1.trace
    ≡ record { pid = 7; dsq = shared_dsq; slice = 20_000_000; flags = 0 }
      ∷ prio_insert ⦃k = full_ring⦄ worker 5_000_000 1 delegated_world
      ∷ inserts delegated_world.trace
goland_enqueue_twice_example =
    goland_enqueue_twice ⦃k = full_ring⦄ worker 0 5_000_000 delegated_world worker-IsOrdinary refl
      worker_prioritized refl refl

dispatch_task-enqueue_prio_example :
    PlacedAs to_cpu worker running_world (dispatch_task to_cpu running_world).1
dispatch_task-enqueue_prio_example =
    dispatch_task-enqueue_prio to_cpu worker running_world refl refl
