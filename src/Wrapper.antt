-- ===== src/Wrapper.antt =====
-- wrapper.c: what user space reads and writes of the program through the skeleton, `global_obj`.
-- The skeleton is the one that open_skel has stored; its opening is the generated code's.
pub mod Laws
pub mod Race
pub mod Uei
pub mod Open
use scx_goland_core.Base.{ℕ, Bool, ◌-◌, ◌==◌, if◌then◌else◌}
use scx_goland_core.Bpf.State.{Rodata, Bss, World}

-- `global_obj->rodata` and `global_obj->bss`
pub record Skeleton : Type 0 where
  pub rodata : Rodata
  pub bss : Bss

unfoldable pub get_usersched_pid : Skeleton → ℕ
get_usersched_pid s = s.rodata.usersched_pid

unfoldable pub set_usersched_pid : ℕ → Skeleton → Skeleton
set_usersched_pid id s = record s { rodata = record (s.rodata) { usersched_pid = id } }

unfoldable pub set_kugepagepid : ℕ → Skeleton → Skeleton
set_kugepagepid id s = record s { rodata = record (s.rodata) { khugepaged_pid = id } }

unfoldable pub set_early_processing : Bool → Skeleton → Skeleton
set_early_processing enabled s = record s {
  rodata = record (s.rodata) { early_processing = enabled };
}

unfoldable pub set_default_slice : ℕ → Skeleton → Skeleton
set_default_slice t s = record s { rodata = record (s.rodata) { default_slice = t } }

unfoldable pub set_debug : Bool → Skeleton → Skeleton
set_debug enabled s = record s { rodata = record (s.rodata) { debug = enabled } }

unfoldable pub set_builtin_idle : Bool → Skeleton → Skeleton
set_builtin_idle enabled s = record s { rodata = record (s.rodata) { builtin_idle = enabled } }

unfoldable pub get_nr_scheduled : Skeleton → ℕ
get_nr_scheduled s = s.bss.nr_scheduled

unfoldable pub get_nr_queued : Skeleton → ℕ
get_nr_queued s = s.bss.nr_queued

unfoldable pub notify_complete : ℕ → Skeleton → Skeleton
notify_complete nr_pending s = record s { bss = record (s.bss) { nr_scheduled = nr_pending } }

-- The decrement runs only at a count other than 0, so it does not wrap.
unfoldable pub sub_nr_queued : Skeleton → Skeleton
sub_nr_queued s =
    if s.bss.nr_queued == 0
    then s
    else record s { bss = record (s.bss) { nr_queued = s.bss.nr_queued - 1 } }

-- A write of user space, seen by the program that shares the memory.
abbrev pub through : (Skeleton → Skeleton) → World → World
through f w =
    let s = f (record { rodata = w.ro; bss = w.bss }) in record w { ro = s.rodata; bss = s.bss }
