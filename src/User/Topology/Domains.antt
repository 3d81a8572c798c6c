-- ===== src/User/Topology/Domains.antt =====
-- util/topology.go, initCacheDomains and InitCacheDomains: every pair of CPUs that share a cache is
-- reported to main.bpf.c.
pub mod Call
pub mod Linked
pub mod Done
use scx_goland_core.Base.{ℕ, ◌%◌, ◌^◌, ◌==◌, Bool, true, false, List, [], ◌∷◌, if◌then◌else◌}
use scx_goland_core.Kernel.Oracle.{Kernel}
use scx_goland_core.User.Message.{Bytes}
use scx_goland_core.User.Sched.{Sched, Libbpf, enable_sibling_cpu}

-- The maps under "L2" and "L3", from the text of a list to its CPUs. Go ranges over a map in any
-- order: the order of the list is open.
pub record Topology : Type 0 where
  pub l2 : List (Bytes × List ℕ)
  pub l3 : List (Bytes × List ℕ)

-- int32(cpuId)
abbrev pub int32 : ℕ → ℕ
int32 n = n % 2 ^ 32

module _ ⦃b : Libbpf⦄ ⦃k : Kernel⦄ where
  -- A second step only if the first has no error, for which true stands.
  abbrev pub and_then : (Sched → Bool × Sched) → (Sched → Bool × Sched) → Sched → Bool × Sched
  and_then f g s = let r = f s in let rest = g (r.1) in if r.0 then rest else r

  -- A loop whose body may fail, which ends it.
  abbrev pub for_each : {A : Type 0} → (A → Sched → Bool × Sched) → List A → Sched → Bool × Sched
  for_each body [] = λ s. (true, s)
  for_each body (x ∷ xs) = and_then (body x) (for_each body xs)

  -- The loops over the siblings of a CPU, over the CPUs of a cache, and over the caches.
  unfoldable pub enable_siblings : ℕ → List ℕ → ℕ → Sched → Bool × Sched
  enable_siblings level list cpu =
      for_each (λ sib. enable_sibling_cpu level (int32 cpu) (int32 sib)) list

  unfoldable pub enable_cache : ℕ → Bytes × List ℕ → Sched → Bool × Sched
  enable_cache level cache = for_each (enable_siblings level (cache.1)) (cache.1)

  -- `topo` and whether there was no error are what GetTopology has returned to this call.
  unfoldable pub init_level : Bool × Topology → ℕ → Sched → Bool × Sched
  init_level (found, topo) level s =
      let caches = for_each (enable_cache level) (if level == 3 then topo.l3 else topo.l2) s in
      if found then caches else (false, s)

  -- GetTopology is called for each level, and may give its caches in another order.
  unfoldable pub init_cache_domains : Bool × Topology → Bool × Topology → Sched → Bool × Sched
  init_cache_domains first second = and_then (init_level first 2) (init_level second 3)
