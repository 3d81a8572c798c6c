-- ===== src/Bpf/Interleave.antt =====
-- main.bpf.c, goland_dispatch on several CPUs at once: the callback cut where it reaches what the CPUs
-- share, with the other entry points, and the dispatch of other CPUs, in between.
pub mod Kept
pub mod Request
pub mod Whole
use scx_goland_core.Base.{ℕ, Bool, true, false, ◌≡◌, Option, List, [], ◌∷◌, ◌==◌, if◌then◌else◌}
use scx_goland_core.Intf.{DispatchedTaskCtx}
use scx_goland_core.Kernel.Types.{Task}
use scx_goland_core.Kernel.Oracle.{Kernel}
use scx_goland_core.Bpf.State.{World}
use scx_goland_core.Bpf.Basic.{test_and_clear_usersched_needed}
use scx_goland_core.Bpf.Dispatch.{
  dispatch_user_scheduler, handle_dispatched_task, consume, dispatch_idle,
}
use scx_goland_core.Bpf.Invariant.Reach.{Step, serves}

abbrev pub Samples : Type 0
Samples = List (Option DispatchedTaskCtx)

-- Where a CPU is in its dispatch callback, with the samples that its drain has still to take: outside;
-- after test_and_clear_usersched_needed that answered true; in the drain; before the queues; after the
-- queues had nothing.
pub data Phase : Type 0 where
  outside : Phase
  firing : (samples : Samples) → Phase
  draining : (samples : Samples) → Phase
  consuming : Phase
  idling : Phase

-- The program's data, which the CPUs share, and where each CPU is.
pub record Cpus : Type 0 where
  pub world : World
  pub phase : ℕ → Phase

abbrev pub all_outside : World → Cpus
all_outside w = record { world = w; phase = λ i. outside }

abbrev pub move : ℕ → Phase → World → Cpus → Cpus
move i p w s = record { world = w; phase = λ j. if i == j then p else s.phase j }

module _ ⦃k : Kernel⦄ where
  abbrev pub clear_on : ℕ → Samples → Cpus → Cpus
  clear_on i samples s =
      let (needed, w) = test_and_clear_usersched_needed s.world in
      move i (if needed then firing samples else draining samples) w s

  abbrev pub fire_on : ℕ → Samples → Cpus → Cpus
  fire_on i samples s = move i (draining samples) (dispatch_user_scheduler s.world).1 s

  abbrev pub take_on : ℕ → Option DispatchedTaskCtx → Samples → Cpus → Cpus
  take_on i sample rest s =
      let (stop, w) = handle_dispatched_task sample s.world in
      move i (if stop then consuming else draining rest) w s

  abbrev pub consume_on : ℕ → Cpus → Cpus
  consume_on i s =
      let (found, w) = consume i s.world in move i (if found then outside else idling) w s

  abbrev pub idle_on : ℕ → Option Task → Cpus → Cpus
  idle_on i prev s = move i outside (dispatch_idle i prev s.world).1 s

  -- One part of one CPU's dispatch callback; or another entry point, or a write of user space, whole.
  -- That a drain finds no sample covers bpf_user_ringbuf_drain on a ring that another CPU drains.
  pub data Act (s : Cpus) : Cpus → Type 0 where
    whole : {w : World} (st : Step s.world w) → serves st ≡ false → Act s (record s { world = w })
    clear : (i : ℕ) (samples : Samples) → s.phase i ≡ outside → Act s (clear_on i samples s)
    fire : (i : ℕ) (samples : Samples) → s.phase i ≡ firing samples → Act s (fire_on i samples s)
    take :
        (i : ℕ) (sample : Option DispatchedTaskCtx) (rest : Samples)
        → s.phase i ≡ draining (sample ∷ rest)
        → Act s (take_on i sample rest s)
    drained : (i : ℕ) → s.phase i ≡ draining [] → Act s (move i consuming s.world s)
    consumed : (i : ℕ) → s.phase i ≡ consuming → Act s (consume_on i s)
    idle : (i : ℕ) (prev : Option Task) → s.phase i ≡ idling → Act s (idle_on i prev s)

  pub data Acts (s : Cpus) : Cpus → Type 0 where
    here : Acts s s
    next : {t u : Cpus} → Acts s t → Act t u → Acts s u

  pub Acts_trans : {s t u : Cpus} → Acts s t → Acts t u → Acts s u
  Acts_trans r here = r
  Acts_trans r (next q a) = next (Acts_trans r q) a
