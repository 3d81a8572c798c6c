-- ===== src/Bpf/Basic/Priority.antt =====
-- main.bpf.c, update_priority_task_map: the map of the priority tasks as a function of the PID.
use scx_goland_core.Base.{ℕ, false, Option, none, some, List, ◌≡◌, arith, ◌==◌, if◌then◌else◌}
use scx_goland_core.Base.HashMap.{lookup, fits, lookup-update, lookup-delete, update_full}
use scx_goland_core.Bpf.State.{World, max_enqueued_tasks}
use scx_goland_core.Bpf.Basic.{update_priority_task_map}

abbrev pub priority_of : World → ℕ → Option ℕ
priority_of w pid = lookup pid w.priority_tasks

-- What the map is meant to become: the PID is prioritized with the slice if its vtime is 0 and the
-- map has room for it, and is not prioritized if its vtime is not 0; any other PID is as before.
abbrev pub reprioritized : World → ℕ → ℕ → ℕ → ℕ → Option ℕ
reprioritized w pid vtime slice other =
    if pid == other
    then (if vtime == 0
        then (if fits max_enqueued_tasks pid w.priority_tasks then some slice else none)
        else none)
    else priority_of w other

lookup-full : (k : ℕ) (m : List (ℕ × ℕ)) → fits max_enqueued_tasks k m ≡ false → lookup k m ≡ none
lookup-full k m h = ground arith

-- The update of the priority map, seen as a function of the PID, for every PID and on every
-- branch, the full map included.
pub update_priority_task_map-refines :
    (pid vtime slice other : ℕ) (w : World)
    → priority_of (update_priority_task_map pid vtime slice w).1 other
      ≡ reprioritized w pid vtime slice other
unfolding update_priority_task_map
update_priority_task_map-refines pid vtime slice other w = ground (
  arith,
  lookup-update max_enqueued_tasks pid other slice w.priority_tasks,
  lookup-delete pid other w.priority_tasks,
  update_full max_enqueued_tasks pid slice w.priority_tasks,
  lookup-full pid w.priority_tasks,
)
