-- ===== src/Wrapper/Open.antt =====
-- wrapper.c: the pointer `global_obj` to the skeleton, through which every other function goes.
use scx_goland_core.Base.{ℕ, ◌≡◌, refl, Option, none, some}
use scx_goland_core.Wrapper.{Skeleton, get_usersched_pid, set_usersched_pid}

-- main.skeleton.h, which the build generates, a parameter: main_bpf__open, which may return NULL, and
-- main_bpf__create_skeleton.
pub record Generated : Type 0 where
  pub opened : Option Skeleton
  pub create_skeleton : Skeleton → Skeleton

-- `global_obj` after open_skel. `none` is a fault: the generated code, or the read of `obj->obj`, goes
-- through a NULL pointer.
unfoldable pub open_skel : ⦃g : Generated⦄ → Option Skeleton
open_skel ⦃g⦄ = created g.opened
  where
    created : Option Skeleton → Option Skeleton
    created none = none
    created (some obj) = some (g.create_skeleton obj)

-- main_bpf__destroy frees the skeleton, and `global_obj` is left as it is: what it points to is gone.
unfoldable pub destroy_skel : Option Skeleton → Option Skeleton
destroy_skel obj = none

-- A read and a write through `global_obj`.
abbrev pub read {ℓ} : {A : Type ℓ} → (Skeleton → A) → Option Skeleton → Option A
read f none = none
read f (some s) = some (f s)

abbrev pub write : (Skeleton → Skeleton) → Option Skeleton → Option Skeleton
write f none = none
write f (some s) = some (f s)

-- What user space writes after open_skel it reads back, if the skeleton could be opened, and after
-- destroy_skel every access is a fault.
get_usersched_pid-set :
    ⦃g : Generated⦄ (obj : Skeleton) (pid : ℕ)
    → g.opened ≡ some obj
    → (read get_usersched_pid (write (set_usersched_pid pid) open_skel) ≡ some pid)
      × (read get_usersched_pid (destroy_skel (write (set_usersched_pid pid) open_skel)) ≡ none)
unfolding open_skel destroy_skel get_usersched_pid set_usersched_pid
get_usersched_pid-set ⦃g⦄ obj pid e = (rw e refl, refl)
