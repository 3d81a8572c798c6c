-- ===== src/User/Topology/Domains/Done.antt =====
-- util/topology.go, InitCacheDomains: when it has no error.
use scx_goland_core.Base.{
  ℕ, zero, suc, ◌<◌, ◌≡◌, refl, ap, ◌∙◌, Bool, true, false, Option, none, some, is_some, List, [],
  ◌∷◌, arith, get_elem?, length, length-set, Option-cases, inl, inr,
}
use scx_goland_core.Intf.{DomainArg}
use scx_goland_core.Kernel.Types.{Trace}
use scx_goland_core.Kernel.Oracle.{Kernel}
use scx_goland_core.Bpf.State.{World}
use scx_goland_core.Bpf.Init
use scx_goland_core.Bpf.Init.Domains.{
  level_mask, is_level, made_mask, SiblingDone, enable_sibling_cpu-SiblingDone,
}
use scx_goland_core.User.Message.{Bytes}
use scx_goland_core.User.Sched.{Sched, Libbpf, enable_sibling_cpu}
use scx_goland_core.User.Topology.Domains.{
  Topology, int32, for_each, enable_siblings, enable_cache, init_level, init_cache_domains,
}
use scx_goland_core.User.Topology.Domains.Linked.{AllOf, CacheLinked, init_cache_domains-Linked}

known_ctx : {A : Type 0} (xs : List A) (i : ℕ) → i < length xs → (x : A) × (get_elem? xs i ≡ some x)
known_ctx [] i l = elim l [ ]
known_ctx (x ∷ xs) zero l = (x, refl)
known_ctx (x ∷ xs) (suc i) l = known_ctx xs i (omega arith)

AllOf-Unit : {A : Type 0} (xs : List A) → AllOf (λ x. Unit {0}) xs
AllOf-Unit [] = tt
AllOf-Unit (x ∷ xs) = (tt, AllOf-Unit xs)

-- The program is there, and `n` CPUs have a context.
pub record Ready (n : ℕ) (s : Sched) : Type 0 where
  pub program_found : s.has_sibling_cpu ≡ true
  pub cpus_known : length s.world.cpu_ctx ≡ n

-- The run has no error, and leaves all ready.
Succeeds : ℕ → Bool × Sched → Type 0
Succeeds n r = (r.0 ≡ true) × Ready n (r.1)

module _ ⦃b : Libbpf⦄ ⦃k : Kernel⦄ (runs : (w : World) → b.run_fails w ≡ false)
    (memory : (t : Trace) → is_some (k.cpumask_create t) ≡ true) where
  made_lem : (m : Option ℕ) (w : World) → (n : ℕ) × (made_mask m w ≡ some n)
  made_lem (some m) w = (m, refl)
  made_lem none w = elim (Option-cases (k.cpumask_create w.trace)) [
    | inl e ↦ absurd (ground (arith, memory w.trace))
    | inr (m, e) ↦ (m, e)
  ]

  call_lem :
      (input : DomainArg) (w : World)
      → input.cpu_id < length w.cpu_ctx
      → is_level input.lvl_id ≡ true
      → ((Init.enable_sibling_cpu input w).0 ≡ 0)
        × (length (Init.enable_sibling_cpu input w).1.cpu_ctx ≡ length w.cpu_ctx)
  call_lem input w l lvl =
      let (c, found) = known_ctx w.cpu_ctx input.cpu_id l in
      let (m, mask) = made_lem (level_mask input.lvl_id c) w in
      let d = rw (found, SiblingDone, lvl, mask) at (enable_sibling_cpu-SiblingDone input w) in
      (d.0, ap length (d.2) ∙ length-set w.cpu_ctx input.cpu_id _)

  enable_sibling_cpu-Succeeds :
      (n level cpu sib : ℕ) (s : Sched)
      → is_level level ≡ true
      → cpu < n
      → Ready n s
      → Succeeds n (enable_sibling_cpu level cpu sib s)
  unfolding enable_sibling_cpu Succeeds
  enable_sibling_cpu-Succeeds n level cpu sib s lvl l h =
      let input : DomainArg = record { lvl_id = level; cpu_id = cpu; sibling_cpu_id = sib } in
      let (zeroed, same) = call_lem input s.world (omega (arith, h.cpus_known)) lvl in
      rw (h.program_found, runs s.world, zeroed)
        (refl, record { program_found = refl; cpus_known = same ∙ h.cpus_known })

  for_each-Succeeds :
      {A : Type 0} (n : ℕ) (P : A → Type 0) (body : A → Sched → Bool × Sched) (xs : List A)
      → ((x : A) (s : Sched) → P x → Ready n s → Succeeds n (body x s))
      → (s : Sched) → AllOf P xs
      → Ready n s
      → Succeeds n (for_each body xs s)
  unfolding Succeeds
  for_each-Succeeds n P body [] each s a h = (refl, h)
  for_each-Succeeds n P body (x ∷ xs) each s (p, a) h =
      let (done, ready) = each x s p h in
      rw done (for_each-Succeeds n P body xs each ((body x s).1) a ready)

  -- The CPUs of each cache have a context.
  abbrev pub CpusBelow : ℕ → List (Bytes × List ℕ) → Type 0
  CpusBelow n = AllOf (λ cache. AllOf (λ cpu. int32 cpu < n) (cache.1))

  level_caches-Succeeds :
      (n level : ℕ) (caches : List (Bytes × List ℕ)) (s : Sched)
      → is_level level ≡ true
      → CpusBelow n caches
      → Ready n s
      → Succeeds n (for_each (enable_cache level) caches s)
  unfolding enable_cache enable_siblings
  level_caches-Succeeds n level caches s lvl a h =
      for_each-Succeeds n (λ cache. AllOf (λ cpu. int32 cpu < n) (cache.1)) (enable_cache level)
        caches
        (λ cache t c r.
          for_each-Succeeds n (λ cpu. int32 cpu < n) (enable_siblings level (cache.1)) (cache.1)
            (λ cpu t' l r'.
              for_each-Succeeds n (λ sib. Unit)
                (λ sib. enable_sibling_cpu level (int32 cpu) (int32 sib)) (cache.1)
                (λ sib t'' x r''.
                  enable_sibling_cpu-Succeeds n level (int32 cpu) (int32 sib) t'' lvl l r'')
                t' (AllOf-Unit (cache.1)) r')
            t c r)
        s a h

  init_cache_domains-ok :
      (n : ℕ) (first second : Topology) (s : Sched)
      → Ready n s
      → CpusBelow n first.l2
      → CpusBelow n second.l3
      → (init_cache_domains (true, first) (true, second) s).0 ≡ true
  unfolding init_cache_domains init_level Succeeds
  init_cache_domains-ok n first second s h l2 l3 =
      let (done, ready) = level_caches-Succeeds n 2 first.l2 s refl l2 h in
      rw done (
        (level_caches-Succeeds n 3 second.l3 ((for_each (enable_cache 2) first.l2 s).1) refl l3
          ready).0)

  -- Where the topology is read without an error for both levels, the program is found, no call of it
  -- fails before it runs, there is memory for the masks, and each CPU of each cache has a context,
  -- InitCacheDomains reports no error; and then for each cache of level 2 and of level 3 and each two
  -- of its CPUs, the first has a mask for that level in main.bpf.c, to which the second was added.
  pub init_cache_domains-Done :
      (n : ℕ) (first second : Topology) (s : Sched)
      → Ready n s
      → CpusBelow n first.l2
      → CpusBelow n second.l3
      → let r = init_cache_domains (true, first) (true, second) s in
        (r.0 ≡ true)
        × AllOf (CacheLinked 2 (r.1).world) first.l2
        × AllOf (CacheLinked 3 (r.1).world) second.l3
  init_cache_domains-Done n first second s h l2 l3 =
      let done = init_cache_domains-ok n first second s h l2 l3 in
      let linked = init_cache_domains-Linked first second s done in (done, linked.0, linked.1)
