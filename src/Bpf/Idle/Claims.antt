-- ===== src/Bpf/Idle/Claims.antt =====
-- main.bpf.c, the search for an idle CPU: which CPUs it takes.
use scx_goland_core.Base.{ℕ, false, Option, none, some, List, ◌∷◌, ◌≡◌, refl, if◌then◌else◌, arith}
use scx_goland_core.Base.Word.{is_neg}
use scx_goland_core.Kernel.Types.{Task, Mask}
use scx_goland_core.Kernel.Oracle.{Kernel}
use scx_goland_core.Kernel.Observe.{claimed}
use scx_goland_core.Bpf.State.{World, M, TaskCtx, CpuCtx}
use scx_goland_core.Bpf.Basic.{try_lookup_task_ctx, try_lookup_cpu_ctx}
use scx_goland_core.Bpf.Idle.{
  ◌orelse◌, try_claim, try_pick, try_domain, try_prev_core, pick_idle_core, pick_idle_any,
  search_idle, task_domain, search_domains, narrow_l3, pick_in_domains, pick_with_cpu,
  pick_with_ctx, is_pinned, pick_idle_cpu,
}

-- What an attempt may do to the claimed CPUs, from `before` to `after`.
abbrev Took : Option ℕ → List ℕ → List ℕ → Type 0
Took none before after = after ≡ before
Took (some cpu) before after = (is_neg cpu ≡ false) × (after ≡ cpu ∷ before)

abbrev Attempt : M (Option ℕ) → Type 0
Attempt m = (w : World) → Took (m w).0 (claimed w.trace) (claimed (m w).1.trace)

-- The same of a function that returns an s32, negative for an error.
abbrev Claims : M ℕ → Type 0
Claims m =
    (w : World)
    → claimed (m w).1.trace
      ≡ (if is_neg (m w).0 then claimed w.trace else (m w).0 ∷ claimed w.trace)

orelse-Attempt : (a b : M (Option ℕ)) → Attempt a → Attempt b → Attempt (a orelse b)
unfolding ◌orelse◌
orelse-Attempt a b ha hb w = ground (arith, ha w, hb (a w).1)

module _ ⦃k : Kernel⦄ where
  try_claim-Attempt : (cpu : ℕ) → is_neg cpu ≡ false → Attempt (try_claim cpu)
  unfolding try_claim
  try_claim-Attempt cpu h w = ground arith

  try_pick-Attempt : (m : Mask) (flags : ℕ) → Attempt (try_pick m flags)
  unfolding try_pick
  try_pick-Attempt m flags w = ground arith

  try_domain-Attempt : (m : Option Mask) (flags : ℕ) → Attempt (try_domain m flags)
  unfolding try_domain
  try_domain-Attempt none flags w = refl
  try_domain-Attempt (some m) flags w = try_pick-Attempt m flags w

  try_prev_core-Attempt : (prev : ℕ) → is_neg prev ≡ false → Attempt (try_prev_core prev)
  unfolding try_prev_core try_claim
  try_prev_core-Attempt prev h w = ground arith

  module _ (p : Task) (prev : ℕ) (valid : is_neg prev ≡ false) where
    pick_idle_core-Attempt : (l2 l3 : Option Mask) → Attempt (pick_idle_core p prev l2 l3)
    unfolding pick_idle_core
    pick_idle_core-Attempt l2 l3 = orelse-Attempt _ _ (try_prev_core-Attempt prev valid) (
        orelse-Attempt _ _ (try_domain-Attempt l2 _)
          (orelse-Attempt _ _ (try_domain-Attempt l3 _) (try_pick-Attempt _ _)))

    pick_idle_any-Attempt : (l2 l3 : Option Mask) → Attempt (pick_idle_any p prev l2 l3)
    unfolding pick_idle_any
    pick_idle_any-Attempt l2 l3 = orelse-Attempt _ _ (try_claim-Attempt prev valid) (
        orelse-Attempt _ _ (try_domain-Attempt l2 _)
          (orelse-Attempt _ _ (try_domain-Attempt l3 _) (try_pick-Attempt _ _)))

    search_idle-Claims : (l2 l3 : Option Mask) → Claims (search_idle p prev l2 l3)
    unfolding search_idle ◌orelse◌
    search_idle-Claims l2 l3 w = ground (
      arith,
      pick_idle_core-Attempt l2 l3 w,
      pick_idle_any-Attempt l2 l3 w,
      pick_idle_any-Attempt l2 l3 (pick_idle_core p prev l2 l3 w).1,
    )

    pick_in_domains-Claims : (t : TaskCtx) (c : CpuCtx) → Claims (pick_in_domains p prev t c)
    unfolding pick_in_domains narrow_l3 search_domains task_domain
    pick_in_domains-Claims t c w = grind (arith, search_idle-Claims)

    pick_with_ctx-Claims : (t : Option TaskCtx) → Claims (pick_with_ctx p prev t)
    unfolding pick_with_ctx pick_with_cpu try_lookup_cpu_ctx
    pick_with_ctx-Claims none w = refl
    pick_with_ctx-Claims (some t) w = grind (arith, pick_in_domains-Claims)

  -- If the previous CPU is a valid number, the search takes the idle state of the CPU that it
  -- returns and of no other; when it returns an error it takes none.
  pub pick_idle_cpu-Claims :
      (p : Task) (prev : ℕ) (w : World)
      → is_neg prev ≡ false
      → let (cpu, v) = pick_idle_cpu p prev w in
        claimed v.trace ≡ (if is_neg cpu then claimed w.trace else cpu ∷ claimed w.trace)
  unfolding pick_idle_cpu is_pinned try_claim try_lookup_task_ctx
  pick_idle_cpu-Claims p prev w valid = grind (arith, pick_with_ctx-Claims p prev valid)
