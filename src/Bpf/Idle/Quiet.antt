-- ===== src/Bpf/Idle/Quiet.antt =====
-- main.bpf.c, the search for an idle CPU: the program's data, and what is acquired.
use scx_goland_core.Base.{ℕ, Option, none, some, ◌≡◌, ◌+◌, arith, ◌==◌, Bool-cases, inl, inr}
use scx_goland_core.Kernel.Types.{Task, Mask, Error, Event, idle_smtmask}
use scx_goland_core.Kernel.Oracle.{Kernel}
use scx_goland_core.Kernel.Observe.{
  inserts, reserved, missed, cancels, submitted, task_gets, task_puts, mask_gets, mask_puts,
  rcu_locks, rcu_unlocks,
}
use scx_goland_core.Bpf.State.{World, M, TaskCtx, CpuCtx}
use scx_goland_core.Bpf.Calls.{tell}
use scx_goland_core.Bpf.Rules.{IsPreorder, Keeps}
use scx_goland_core.Bpf.Basic.{try_lookup_task_ctx, try_lookup_cpu_ctx}
use scx_goland_core.Bpf.Idle.{
  ◌orelse◌, try_claim, try_pick, try_domain, try_prev_core, pick_idle_core, pick_idle_any,
  search_idle, task_domain, search_domains, narrow_l3, pick_in_domains, pick_with_cpu,
  pick_with_ctx, is_pinned, pick_idle_cpu, kick_task_cpu,
}

-- Only the transcript grows; nothing is inserted, reserved, submitted or cancelled, and what was
-- acquired and not released is as before.
pub record Quiet (u v : World) : Type 0 where
  pub ro_same : v.ro ≡ u.ro
  pub bss_same : v.bss ≡ u.bss
  pub priority_same : v.priority_tasks ≡ u.priority_tasks
  pub running_same : v.running_task ≡ u.running_task
  pub cpu_ctx_same : v.cpu_ctx ≡ u.cpu_ctx
  pub task_ctx_same : v.task_ctx ≡ u.task_ctx
  pub no_insert : inserts v.trace ≡ inserts u.trace
  pub no_submit : submitted v.trace ≡ submitted u.trace
  pub no_reserve : reserved v.trace ≡ reserved u.trace
  pub no_miss : missed v.trace ≡ missed u.trace
  pub no_cancel : cancels v.trace ≡ cancels u.trace
  pub tasks_balanced : task_gets v.trace + task_puts u.trace ≡ task_gets u.trace + task_puts v.trace
  pub rcu_balanced :
      rcu_locks v.trace + rcu_unlocks u.trace ≡ rcu_locks u.trace + rcu_unlocks v.trace
  pub masks_balanced : mask_gets v.trace + mask_puts u.trace ≡ mask_gets u.trace + mask_puts v.trace

pub Quiet-IsPreorder : IsPreorder Quiet
Quiet-IsPreorder = record { here = λ w. ground arith; chain = λ u v w a b. ground arith }

module _ ⦃k : Kernel⦄ where
  try_claim-Quiet : (cpu : ℕ) → Keeps Quiet (try_claim cpu)
  unfolding try_claim
  try_claim-Quiet cpu w = ground arith

  try_pick-Quiet : (m : Mask) (flags : ℕ) → Keeps Quiet (try_pick m flags)
  unfolding try_pick
  try_pick-Quiet m flags w = ground arith

  try_domain-Quiet : (m : Option Mask) (flags : ℕ) → Keeps Quiet (try_domain m flags)
  unfolding try_domain
  try_domain-Quiet none flags w = ground arith
  try_domain-Quiet (some m) flags w = try_pick-Quiet m flags w

  try_prev_core-Quiet : (prev : ℕ) → Keeps Quiet (try_prev_core prev)
  unfolding try_prev_core try_claim
  try_prev_core-Quiet prev w = ground arith

  orelse-Quiet : (a b : M (Option ℕ)) → Keeps Quiet a → Keeps Quiet b → Keeps Quiet (a orelse b)
  unfolding ◌orelse◌
  orelse-Quiet a b ha hb w = ground (arith, ha w, hb (a w).1)

  ruleset attempts =
      (orelse-Quiet, try_claim-Quiet, try_pick-Quiet, try_domain-Quiet, try_prev_core-Quiet)

  module _ (p : Task) (prev : ℕ) where
    pick_idle_core-Quiet : (l2 l3 : Option Mask) → Keeps Quiet (pick_idle_core p prev l2 l3)
    unfolding pick_idle_core
    pick_idle_core-Quiet l2 l3 = search attempts

    pick_idle_any-Quiet : (l2 l3 : Option Mask) → Keeps Quiet (pick_idle_any p prev l2 l3)
    unfolding pick_idle_any
    pick_idle_any-Quiet l2 l3 = search attempts

    search_idle-Quiet : (l2 l3 : Option Mask) → Keeps Quiet (search_idle p prev l2 l3)
    unfolding search_idle ◌orelse◌
    search_idle-Quiet l2 l3 w = ground (
      arith,
      pick_idle_core-Quiet l2 l3 w,
      pick_idle_any-Quiet l2 l3 w,
      pick_idle_any-Quiet l2 l3 (pick_idle_core p prev l2 l3 w).1,
    )

    task_domain-Quiet : (e : Error) (m : Option ℕ) (d : Mask) → Keeps Quiet (task_domain e p m d)
    unfolding task_domain
    task_domain-Quiet e none d w = ground arith
    task_domain-Quiet e (some m) d w = ground arith

    search_domains-Quiet :
        (l2 : Option Mask) (l3 : Option (Option Mask)) → Keeps Quiet (search_domains p prev l2 l3)
    unfolding search_domains
    search_domains-Quiet l2 none w = ground arith
    search_domains-Quiet l2 (some l3) w = search_idle-Quiet l2 l3 w

    narrow_l3-Quiet :
        (own : Option ℕ) (d : Mask) (l2 : Option (Option Mask))
        → Keeps Quiet (narrow_l3 p prev own d l2)
    unfolding narrow_l3
    narrow_l3-Quiet own d none w = ground arith
    narrow_l3-Quiet own d (some l2) w =
        let r = task_domain Error.no_l3_cpumask p own d w in
        Quiet-IsPreorder.chain _ _ _ (task_domain-Quiet Error.no_l3_cpumask own d w)
          (search_domains-Quiet l2 r.0 r.1)

    pick_in_domains-Quiet : (t : TaskCtx) (c : CpuCtx) → Keeps Quiet (pick_in_domains p prev t c)
    unfolding pick_in_domains
    pick_in_domains-Quiet t c w = elim (Bool-cases (p.nr_cpus_allowed == w.bss.nr_cpu_ids)) [
      | inl e ↦ rw e (search_idle-Quiet _ _ w)
      | inr e ↦ rw e (
          Quiet-IsPreorder.chain _ _ _ (task_domain-Quiet Error.no_l2_cpumask t.l2_cpumask _ w)
            (narrow_l3-Quiet t.l3_cpumask _ _ _))
    ]

    pick_with_cpu-Quiet : (t : TaskCtx) (c : Option CpuCtx) → Keeps Quiet (pick_with_cpu p prev t c)
    unfolding pick_with_cpu
    pick_with_cpu-Quiet t none w = ground arith
    pick_with_cpu-Quiet t (some c) w =
        ground (arith, pick_in_domains-Quiet t c (tell (Event.get_mask idle_smtmask) w).1)

    pick_with_ctx-Quiet : (t : Option TaskCtx) → Keeps Quiet (pick_with_ctx p prev t)
    unfolding pick_with_ctx try_lookup_cpu_ctx
    pick_with_ctx-Quiet none w = ground arith
    pick_with_ctx-Quiet (some t) w = pick_with_cpu-Quiet t _ w

  -- The search changes no datum and no map of the program, inserts and submits nothing, and puts
  -- back each mask and each task that it gets.
  pub pick_idle_cpu-Quiet : (p : Task) (prev : ℕ) (w : World) → Quiet w (pick_idle_cpu p prev w).1
  unfolding pick_idle_cpu is_pinned try_claim try_lookup_task_ctx
  pick_idle_cpu-Quiet p prev w =
      let pinned = is_pinned p w in
      ground (arith, pick_with_ctx-Quiet p prev (try_lookup_task_ctx p pinned.1).0 pinned.1)

  pub kick_task_cpu-Quiet : (p : Task) (cpu : ℕ) → Keeps Quiet (kick_task_cpu p cpu)
  unfolding kick_task_cpu
  kick_task_cpu-Quiet p cpu w = ground arith
