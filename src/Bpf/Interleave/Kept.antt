-- ===== src/Bpf/Interleave/Kept.antt =====
-- main.bpf.c: the invariant of the program's data while dispatch callbacks of several CPUs run at once.
use scx_goland_core.Base.{◌≡◌, ◌∙◌, refl, arith, List}
use scx_goland_core.Kernel.Oracle.{Kernel}
use scx_goland_core.Bpf.State.{World, Rodata, CpuCtx}
use scx_goland_core.Bpf.Basic.{test_and_clear_usersched_needed}
use scx_goland_core.Bpf.Basic.Flag.{bit_and_flag}
use scx_goland_core.Bpf.Dispatch.{dispatch_user_scheduler}
use scx_goland_core.Bpf.Invariant.Defs.{Ghost, Invariant, Preserves, IsValid, IsSettled}
use scx_goland_core.Bpf.Invariant.Steps.{
  handle-Preserves, consume-Preserves, dispatch_idle-Preserves,
}
use scx_goland_core.Bpf.Invariant.Reach.{
  after, after-request, Step-Invariant, loaded, loaded-Invariant, none_running,
}
use scx_goland_core.Bpf.Interleave.{
  Cpus, all_outside, Act, whole, clear, fire, take, drained, consumed, idle, Acts, here, next,
}

module _ ⦃k : Kernel⦄ where
  clear-Preserves :
      (g : Ghost) (w : World) → g.request ≡ 0 → Preserves g w (test_and_clear_usersched_needed w).1
  unfolding test_and_clear_usersched_needed
  clear-Preserves g w none_due h = ground (arith, bit_and_flag w.bss.usersched_needed)

  pub dispatch_user_scheduler-Preserves :
      (g : Ghost) (w : World) → Preserves g w (dispatch_user_scheduler w).1
  unfolding dispatch_user_scheduler
  dispatch_user_scheduler-Preserves g w h = ground arith

  -- The invariant, for the tasks that run and with no request that must be pending.
  pub record Sound (w : World) : Type 0 where
    pub ghost : Ghost
    pub none_due : ghost.request ≡ 0
    pub holds : Invariant ghost 0 w

  Act-Sound : {s t : Cpus} → Act s t → Sound s.world → Sound t.world
  Act-Sound {s} (whole st n) h = record {
    ghost = after st h.ghost;
    none_due = after-request h.ghost st ∙ h.none_due;
    holds = Step-Invariant h.ghost st (λ e. h.none_due) h.holds;
  }
  Act-Sound {s} (clear i samples p) h = record {
    ghost = h.ghost;
    none_due = h.none_due;
    holds = clear-Preserves h.ghost s.world h.none_due h.holds;
  }
  Act-Sound {s} (fire i samples p) h = record {
    ghost = h.ghost;
    none_due = h.none_due;
    holds = dispatch_user_scheduler-Preserves h.ghost s.world h.holds;
  }
  Act-Sound {s} (take i sample rest p) h = record {
    ghost = h.ghost;
    none_due = h.none_due;
    holds = handle-Preserves h.ghost sample s.world h.holds;
  }
  Act-Sound {s} (drained i p) h = h
  Act-Sound {s} (consumed i p) h = record {
    ghost = h.ghost;
    none_due = h.none_due;
    holds = consume-Preserves h.ghost i s.world h.holds;
  }
  Act-Sound {s} (idle i prev p) h = record {
    ghost = h.ghost;
    none_due = h.none_due;
    holds = dispatch_idle-Preserves h.ghost i prev s.world h.holds;
  }

  pub Acts-Sound : {s t : Cpus} → Sound s.world → Acts s t → Sound t.world
  Acts-Sound h here = h
  Acts-Sound h (next r a) = Act-Sound a (Acts-Sound h r)

  pub loaded-Sound : (ro : Rodata) (cpus : List CpuCtx) → Sound (loaded ro cpus)
  loaded-Sound ro cpus = record {
    ghost = none_running;
    none_due = refl;
    holds = loaded-Invariant ro cpus;
  }

  -- From the program as loaded, with any number of CPUs in their dispatch callbacks at once, in any
  -- order of the parts of these callbacks, of the other entry points and of the calls of user space,
  -- and for any answers of the kernel: the wake-up flag is 0 or 1, the maps keep their limits and the
  -- counters fit; the references, masks and rcu sections that were acquired are released, the slots
  -- that were reserved are submitted, and the counters of cancelled dispatches and of congestion are
  -- right modulo 2^64.
  pub Acts-IsValid :
      (ro : Rodata) (cpus : List CpuCtx) {s : Cpus}
      → Acts (all_outside (loaded ro cpus)) s
      → IsValid s.world × IsSettled 0 s.world
  Acts-IsValid ro cpus r =
      let h = Acts-Sound (loaded-Sound ro cpus) r in (h.holds.valid, h.holds.settled)
