-- ===== src/Bpf/Interleave/Request.antt =====
-- main.bpf.c: a request for the user-space scheduler, while dispatch callbacks of several CPUs run at once.
use scx_goland_core.Base.{
  ℕ, ◌≡◌, ◌≢◌, ◌∙◌, sym, ap, arith, false, List, [], ◌∷◌, ◌⊎◌, inl, inr, ◌==◌, Bool-cases,
  Option-cases,
}
use scx_goland_core.Kernel.Oracle.{Kernel}
use scx_goland_core.Bpf.State.{World, Rodata, CpuCtx}
use scx_goland_core.Bpf.Basic.{test_and_clear_usersched_needed}
use scx_goland_core.Bpf.Dispatch.{dispatch_user_scheduler}
use scx_goland_core.Bpf.Invariant.Defs.{Ghost, Carries}
use scx_goland_core.Bpf.Invariant.Steps.{
  handle-Preserves, consume-Preserves, dispatch_idle-Preserves,
}
use scx_goland_core.Bpf.Invariant.Request.{Served}
use scx_goland_core.Bpf.Invariant.Reach.{Step, serves, after-request, Step-Invariant, loaded}
use scx_goland_core.Bpf.Interleave.{
  Samples, Phase, Cpus, all_outside, move, clear_on, fire_on, Act, whole, clear, fire, take,
  drained, consumed, idle, Acts, here, next, outside, firing, draining, consuming, idling,
}
use scx_goland_core.Bpf.Interleave.Kept.{Sound, Acts-Sound, loaded-Sound}

module _ ⦃k : Kernel⦄ where
  pub dispatch_user_scheduler-Served :
      (w : World)
      → Served (k.task_from_pid w.trace w.ro.usersched_pid) w (dispatch_user_scheduler w).1
  unfolding dispatch_user_scheduler
  dispatch_user_scheduler-Served w =
      elim (Option-cases (k.task_from_pid w.trace w.ro.usersched_pid)) [
        | inl e ↦ rw e (ground arith)
        | inr (p, e) ↦ rw e (ground arith)
      ]

  -- On the way from `s` to `u`, a CPU has run the user-space scheduler.
  pub record Fired (s u : Cpus) : Type 0 where
    pub at : Cpus
    pub before : Acts s at
    pub cpu : ℕ
    pub samples : Samples
    pub on_its_way : at.phase cpu ≡ firing samples
    pub served :
        Served
          (k.task_from_pid at.world.trace at.world.ro.usersched_pid)
          at.world
          (fire_on cpu samples at).world
    pub rest : Acts (fire_on cpu samples at) u

  -- The flag is set, some CPU has cleared it and is about to run the scheduler, or one has run it.
  abbrev pub NotLost : Cpus → Cpus → Type 0
  NotLost s u =
      (u.world.bss.usersched_needed ≡ 1)
      ⊎ ((i : ℕ) × (samples : Samples) × (u.phase i ≡ firing samples))
      ⊎ Fired s u

  Fired-next : {s t u : Cpus} → Fired s t → Act t u → Fired s u
  Fired-next f a = record {
    at = f.at;
    before = f.before;
    cpu = f.cpu;
    samples = f.samples;
    on_its_way = f.on_its_way;
    served = f.served;
    rest = next f.rest a;
  }

  fire-Fired :
      {s t : Cpus} (i : ℕ) (samples : Samples)
      → Acts s t
      → t.phase i ≡ firing samples
      → Fired s (fire_on i samples t)
  fire-Fired {t} i samples r p = record {
    at = t;
    before = r;
    cpu = i;
    samples = samples;
    on_its_way = p;
    served = dispatch_user_scheduler-Served t.world;
    rest = here;
  }

  -- A step that is neither a clear nor the run of the scheduler leaves a request pending.
  keeps_needed :
      {u : World} (w : World)
      → Sound u
      → u.bss.usersched_needed ≡ 1
      → ((g : Ghost) → Carries g 0 u w)
      → w.bss.usersched_needed ≡ 1
  keeps_needed {u} w h e c =
      let g : Ghost = record (h.ghost) { request = 1 } in
      let v = c g (record {
        valid = h.holds.valid;
        settled = h.holds.settled;
        requested = omega (arith, e);
        running_counted = h.holds.running_counted;
      }) in
      omega (arith, v.requested, v.valid.counters.flag)

  whole_needed :
      {u w : World} (st : Step u w)
      → Sound u
      → u.bss.usersched_needed ≡ 1
      → serves st ≡ false
      → w.bss.usersched_needed ≡ 1
  whole_needed {u} st h e n =
      let g : Ghost = record (h.ghost) { request = 1 } in
      let v =
        Step-Invariant g st (λ y. cc)
          (record {
            valid = h.holds.valid;
            settled = h.holds.settled;
            requested = omega (arith, e);
            running_counted = h.holds.running_counted;
          }) in
      omega (arith, v.requested, after-request g st, v.valid.counters.flag)

  clear_firing :
      (i : ℕ) (samples : Samples) (t : Cpus)
      → t.world.bss.usersched_needed ≡ 1
      → (clear_on i samples t).phase i ≡ firing samples
  unfolding test_and_clear_usersched_needed
  clear_firing i samples t e = ground arith

  -- From a state in which the flag is set.
  needed-Act :
      {s t u : Cpus}
      → Acts s t
      → Sound t.world
      → t.world.bss.usersched_needed ≡ 1
      → Act t u
      → NotLost s u
  needed-Act {t} r h e (whole st n) = inl (whole_needed st h e n)
  needed-Act {t} r h e (clear i samples p) = inr (inl (i, samples, clear_firing i samples t e))
  needed-Act {t} r h e (fire i samples p) = inr (inr (fire-Fired i samples r p))
  needed-Act {t} r h e (take i sample rest p) =
      inl (keeps_needed _ h e (λ g. handle-Preserves g sample t.world))
  needed-Act {t} r h e (drained i p) = inl e
  needed-Act {t} r h e (consumed i p) =
      inl (keeps_needed _ h e (λ g. consume-Preserves g i t.world))
  needed-Act {t} r h e (idle i prev p) =
      inl (keeps_needed _ h e (λ g. dispatch_idle-Preserves g i prev t.world))

  -- A CPU that is elsewhere moves.
  still_firing :
      (i j : ℕ) (samples : Samples) (p q : Phase) (w : World) (t : Cpus)
      → t.phase i ≡ p
      → p ≢ firing samples
      → t.phase j ≡ firing samples
      → (move i q w t).phase j ≡ firing samples
  still_firing i j samples p q w t e n f = elim (Bool-cases (i == j)) [
    | inl same ↦ let i_is_j : i ≡ j = ground arith in absurd (n (sym e ∙ (ap t.phase i_is_j ∙ f)))
    | inr other ↦ rw other f
  ]

  -- From a state in which a CPU is about to run the scheduler.
  firing-Act :
      {s t u : Cpus} (j : ℕ) (samples : Samples)
      → Acts s t
      → t.phase j ≡ firing samples
      → Act t u
      → NotLost s u
  firing-Act {t} j samples r f (whole st n) = inr (inl (j, samples, f))
  firing-Act {t} j samples r f (clear i ss p) =
      inr (inl (j, samples, still_firing i j samples outside _ t.world t p (ground arith) f))
  firing-Act {t} j samples r f (fire i ss p) = inr (inr (fire-Fired i ss r p))
  firing-Act {t} j samples r f (take i sample rest p) = inr (
      inl (
        j,
        samples,
        still_firing i j samples (draining (sample ∷ rest)) _ t.world t p (ground arith) f,
      ))
  firing-Act {t} j samples r f (drained i p) =
      inr (inl (j, samples, still_firing i j samples (draining []) _ t.world t p (ground arith) f))
  firing-Act {t} j samples r f (consumed i p) =
      inr (inl (j, samples, still_firing i j samples consuming _ t.world t p (ground arith) f))
  firing-Act {t} j samples r f (idle i prev p) =
      inr (inl (j, samples, still_firing i j samples idling _ t.world t p (ground arith) f))

  NotLost-Act : {s t u : Cpus} → Acts s t → Sound t.world → NotLost s t → Act t u → NotLost s u
  NotLost-Act r h (inl e) a = needed-Act r h e a
  NotLost-Act r h (inr (inl (j, samples, f))) a = firing-Act j samples r f a
  NotLost-Act r h (inr (inr f)) a = inr (inr (Fired-next f a))

  NotLost-Acts :
      {s u : Cpus} → Sound s.world → s.world.bss.usersched_needed ≡ 1 → Acts s u → NotLost s u
  NotLost-Acts h e here = inl e
  NotLost-Acts h e (next r a) = NotLost-Act r (Acts-Sound h r) (NotLost-Acts h e r) a

  -- A request for the user-space scheduler is never lost, however many CPUs are in their dispatch
  -- callbacks: if it is pending in a state that the loaded program reaches, then in every later state
  -- the flag is still set, or a CPU has cleared it and is about to run the scheduler, or, in between, a
  -- CPU has inserted the scheduler's task into the scheduler's queue, or has reported an error as there
  -- is none.
  pub Acts-NotLost :
      (ro : Rodata) (cpus : List CpuCtx) {s u : Cpus}
      → Acts (all_outside (loaded ro cpus)) s
      → s.world.bss.usersched_needed ≡ 1
      → Acts s u
      → NotLost s u
  Acts-NotLost ro cpus r e rest = NotLost-Acts (Acts-Sound (loaded-Sound ro cpus) r) e rest
