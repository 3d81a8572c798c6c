-- ===== src/User/Topology/Domains/Call.antt =====
-- util/topology.go against main.bpf.c: what one call of the program enable_sibling_cpu links.
use scx_goland_core.Base.{
  ℕ, zero, suc, ◌<◌, ◌≡◌, ◌≢◌, refl, sym, ◌∙◌, ◌==◌, ◌⊎◌, inl, inr, true, Option, none, some, List,
  [], ◌∷◌, arith, get_elem?, set, get_elem?-set_self, get_elem?-set_ne, Bool-cases, length,
}
use mathlib.Core.Option.{none-ne-some}
use scx_goland_core.Base.Word.{neg, enoent, einval}
use scx_goland_core.Intf.{DomainArg}
use scx_goland_core.Kernel.Types.{bpf_cpumask, Mask}
use scx_goland_core.Kernel.Oracle.{Kernel}
use scx_goland_core.Kernel.Observe.{added_cpus}
use scx_goland_core.Bpf.State.{World, CpuCtx}
use scx_goland_core.Bpf.Init
use scx_goland_core.Bpf.Init.Domains.{
  level_mask, is_level, with_level, made_mask, Enabled, SiblingDone, enable_sibling_cpu-SiblingDone,
}

-- The log holds the entry.
abbrev pub Logged : ℕ × Mask → List (ℕ × Mask) → Type 0
Logged x [] = ⊥
Logged x (y ∷ ys) = (y ≡ x) ⊎ Logged x ys

-- The mask of the CPU for this level exists, and the sibling was added to it.
pub record Linked (level cpu sib : ℕ) (w : World) : Type 0 where
  pub ctx : CpuCtx
  pub mask : ℕ
  pub found : get_elem? w.cpu_ctx cpu ≡ some ctx
  pub masked : level_mask level ctx ≡ some mask
  pub logged : Logged (sib, bpf_cpumask mask) (added_cpus w.trace)

-- What is linked stays linked.
unfoldable pub Grows : World → World → Type 0
Grows u v = (level cpu sib : ℕ) → Linked level cpu sib u → Linked level cpu sib v

level_mask-with_level :
    (lvl level n : ℕ) (m : Option ℕ) (c : CpuCtx)
    → (level_mask lvl c ≡ some n → m ≡ some n)
    → level_mask level c ≡ some n
    → level_mask level (with_level lvl m c) ≡ some n
level_mask-with_level lvl level n m c keep e = ground arith

inside : {A : Type 0} (xs : List A) (i : ℕ) (x : A) → get_elem? xs i ≡ some x → i < length xs
inside [] i x e = absurd (none-ne-some x e)
inside (y ∷ ys) zero x e = omega arith
inside (y ∷ ys) (suc i) x e = omega (arith, inside ys i x e)

module _ ⦃k : Kernel⦄ where
  unfoldable pub SiblingLinked : DomainArg → World → ℕ × World → Type 0
  SiblingLinked input u r =
      (r.0 ≡ 0 → Linked input.lvl_id input.cpu_id input.sibling_cpu_id (r.1)) × Grows u (r.1)

  Grows-set :
      (u v : World) (input : DomainArg) (c : CpuCtx) (m : Option ℕ)
      → get_elem? u.cpu_ctx input.cpu_id ≡ some c
      → v.cpu_ctx ≡ set u.cpu_ctx input.cpu_id (with_level input.lvl_id m c)
      → ((x : ℕ × Mask) → Logged x (added_cpus u.trace) → Logged x (added_cpus v.trace))
      → ((n : ℕ) → level_mask input.lvl_id c ≡ some n → m ≡ some n)
      → Grows u v
  unfolding Grows
  Grows-set u v input c m e s l keep level cpu sib h = elim (Bool-cases (input.cpu_id == cpu)) [
    | inl p ↦
        let same : input.cpu_id ≡ cpu = ground arith in
        let c_is : some h.ctx ≡ some c = sym h.found ∙ rw same at e in
        record {
          ctx = with_level input.lvl_id m c;
          mask = h.mask;
          found =
              rw (s, same)
                (get_elem?-set_self u.cpu_ctx cpu (with_level input.lvl_id m c)
                  (inside u.cpu_ctx cpu h.ctx h.found));
          masked = level_mask-with_level input.lvl_id level h.mask m c (keep h.mask) (ground arith);
          logged = l _ h.logged;
        }
    | inr p ↦
        let other : input.cpu_id ≢ cpu = ground arith in
        record {
          ctx = h.ctx;
          mask = h.mask;
          found = rw s (get_elem?-set_ne u.cpu_ctx (with_level input.lvl_id m c) other ∙ h.found);
          masked = h.masked;
          logged = l _ h.logged;
        }
  ]

  -- A call that fails at once.
  unchanged :
      (input : DomainArg) (u : World) (err : ℕ) (r : ℕ × World)
      → err ≢ 0
      → r ≡ (err, u)
      → SiblingLinked input u r
  unfolding SiblingLinked Grows
  unchanged input u err r n e = rw e (λ z. absurd (n z), λ level cpu sib h. h)

  made :
      (input : DomainArg) (c : CpuCtx) (m : Option ℕ) (u : World) (r : ℕ × World)
      → get_elem? u.cpu_ctx input.cpu_id ≡ some c
      → ((n : ℕ) → level_mask input.lvl_id c ≡ some n → m ≡ some n)
      → is_level input.lvl_id ≡ true
      → Enabled input c m u r
      → SiblingLinked input u r
  unfolding SiblingLinked
  made input c none u (err, v) e keep lvl (failed, log, ctxs, _) =
      (λ z. absurd (ground arith), Grows-set u v input c none e ctxs (λ x l. rw log l) keep)
  made input c (some m) u (err, v) e keep lvl (done, log, ctxs, _) = (
    λ z. record {
      ctx = with_level input.lvl_id (some m) c;
      mask = m;
      found = rw ctxs (
          get_elem?-set_self u.cpu_ctx input.cpu_id (with_level input.lvl_id (some m) c)
            (inside u.cpu_ctx input.cpu_id c e));
      masked = ground arith;
      logged = rw log (inl refl);
    },
    Grows-set u v input c (some m) e ctxs (λ x l. rw log (inr l)) keep,
  )

  made_mask-keeps : (m : Option ℕ) (n : ℕ) (w : World) → m ≡ some n → made_mask m w ≡ some n
  made_mask-keeps none n w e = absurd (none-ne-some n e)
  made_mask-keeps (some m) n w e = e

  done-Linked :
      (input : DomainArg) (found : Option CpuCtx) (u : World) (r : ℕ × World)
      → get_elem? u.cpu_ctx input.cpu_id ≡ found
      → SiblingDone input found u r
      → SiblingLinked input u r
  done-Linked input none u r e d = unchanged input u (neg enoent) r (λ z. ground arith) d
  done-Linked input (some c) u r e d = elim (Bool-cases (is_level input.lvl_id)) [
    | inl l ↦
        made input c (made_mask (level_mask input.lvl_id c) u) u r e
          (λ n h. made_mask-keeps (level_mask input.lvl_id c) n u h) l (rw (SiblingDone, l) at d)
    | inr l ↦ unchanged input u (neg einval) r (λ z. ground arith) (rw (SiblingDone, l) at d)
  ]

  pub sibling-Linked :
      (input : DomainArg) (u : World) → SiblingLinked input u (Init.enable_sibling_cpu input u)
  sibling-Linked input u =
      done-Linked input (get_elem? u.cpu_ctx input.cpu_id) u (Init.enable_sibling_cpu input u) refl
        (enable_sibling_cpu-SiblingDone input u)
