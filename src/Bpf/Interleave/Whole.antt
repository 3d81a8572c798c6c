-- ===== src/Bpf/Interleave/Whole.antt =====
-- main.bpf.c, goland_dispatch: the parts of the callback, one after another, are the callback.
use scx_goland_core.Base.{
  ℕ, ◌≡◌, ◌∙◌, refl, ap, arith, Option, [], ◌∷◌, ◌==◌, if◌then◌else◌, Bool-cases, inl, inr,
}
use scx_goland_core.Kernel.Types.{Task}
use scx_goland_core.Kernel.Oracle.{Kernel}
use scx_goland_core.Bpf.State.{World, pure}
use scx_goland_core.Bpf.Basic.{test_and_clear_usersched_needed}
use scx_goland_core.Bpf.Dispatch.{
  handle_dispatched_task, drain, fire_up, consume, dispatch_idle, goland_dispatch,
}
use scx_goland_core.Bpf.Interleave.{
  Samples, Phase, Cpus, move, clear_on, fire_on, take_on, consume_on, idle_on, clear, fire, take,
  drained, consumed, idle, Acts, here, next, Acts_trans, outside, firing, draining, consuming,
  idling,
}

module _ ⦃k : Kernel⦄ where
  -- A state that is reached, with its data and the place of one CPU.
  pub record Reaches (s : Cpus) (i : ℕ) (w : World) (p : Phase) : Type 0 where
    pub last : Cpus
    pub acts : Acts s last
    pub world_is : last.world ≡ w
    pub phase_is : last.phase i ≡ p

  clear-Reaches :
      (s : Cpus) (i : ℕ) (samples : Samples)
      → s.phase i ≡ outside
      → Reaches s i (fire_up s.world).1 (draining samples)
  unfolding fire_up test_and_clear_usersched_needed
  clear-Reaches s i samples p = elim (Bool-cases (s.world.bss.usersched_needed == 1)) [
    | inl e ↦
        let first : Acts s (clear_on i samples s) = next here (clear i samples p) in
        let now : (clear_on i samples s).phase i ≡ firing samples = ground arith in
        record {
          last = fire_on i samples (clear_on i samples s);
          acts = next first (fire i samples now);
          world_is = ground arith;
          phase_is = ground arith;
        }
    | inr e ↦ record {
      last = clear_on i samples s;
      acts = next here (clear i samples p);
      world_is = ground arith;
      phase_is = ground arith;
    }
  ]

  drain-Reaches :
      (s : Cpus) (i : ℕ) (samples : Samples)
      → s.phase i ≡ draining samples
      → Reaches s i (drain samples s.world).1 consuming
  unfolding drain
  drain-Reaches s i [] p = record {
    last = move i consuming s.world s;
    acts = next here (drained i p);
    world_is = refl;
    phase_is = ground arith;
  }
  drain-Reaches s i (sample ∷ rest) p =
      elim (Bool-cases (handle_dispatched_task sample s.world).0) [
        | inl e ↦ record {
          last = take_on i sample rest s;
          acts = next here (take i sample rest p);
          world_is = ground arith;
          phase_is = ground arith;
        }
        | inr e ↦
            let now : (take_on i sample rest s).phase i ≡ draining rest = ground arith in
            let r = drain-Reaches (take_on i sample rest s) i rest now in
            record {
              last = r.last;
              acts = Acts_trans (next here (take i sample rest p)) r.acts;
              world_is = ground (arith, r.world_is);
              phase_is = r.phase_is;
            }
      ]

  -- What remains once the samples are drained.
  abbrev last_part : ℕ → Option Task → World → World
  last_part i prev w =
      let (found, v) = consume i w in ((if found then pure prev else dispatch_idle i prev) v).1

  consume-Reaches :
      (s : Cpus) (i : ℕ) (prev : Option Task)
      → s.phase i ≡ consuming
      → Reaches s i (last_part i prev s.world) outside
  consume-Reaches s i prev p = elim (Bool-cases (consume i s.world).0) [
    | inl e ↦ record {
      last = consume_on i s;
      acts = next here (consumed i p);
      world_is = ground arith;
      phase_is = ground arith;
    }
    | inr e ↦
        let now : (consume_on i s).phase i ≡ idling = ground arith in
        record {
          last = idle_on i prev (consume_on i s);
          acts = next (next here (consumed i p)) (idle i prev now);
          world_is = ground arith;
          phase_is = ground arith;
        }
  ]

  Reaches-trans :
      {s : Cpus} (i : ℕ) {v w : World} {p q : Phase}
      → (f : World → World) → (r : Reaches s i v p) → Reaches r.last i (f r.last.world) q
      → f v ≡ w
      → Reaches s i w q
  Reaches-trans i f r t e = record {
    last = t.last;
    acts = Acts_trans r.acts t.acts;
    world_is = t.world_is ∙ (ap f r.world_is ∙ e);
    phase_is = t.phase_is;
  }

  -- A CPU that goes through the parts of its dispatch callback with nothing in between leaves the data as
  -- the callback of main.bpf.c, whatever the other CPUs are at, and is outside again.
  pub goland_dispatch-Reaches :
      (i : ℕ) (prev : Option Task) (samples : Samples) (s : Cpus)
      → s.phase i ≡ outside
      → Reaches s i (goland_dispatch i prev samples s.world).1 outside
  unfolding goland_dispatch
  goland_dispatch-Reaches i prev samples s p =
      let fired = clear-Reaches s i samples p in
      let drains = drain-Reaches fired.last i samples fired.phase_is in
      let both = Reaches-trans i (λ w. (drain samples w).1) fired drains refl in
      let ends = consume-Reaches both.last i prev both.phase_is in
      Reaches-trans i (last_part i prev) both ends refl
