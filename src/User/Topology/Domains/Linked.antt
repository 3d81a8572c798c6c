-- ===== src/User/Topology/Domains/Linked.antt =====
-- util/topology.go against main.bpf.c: the masks of the CPUs after InitCacheDomains.
use scx_goland_core.Base.{
  ℕ, ◌≡◌, refl, ◌==◌, ◌&&◌, not, inl, inr, Bool, true, false, List, [], ◌∷◌, arith, if◌then◌else◌,
  Bool-cases,
}
use scx_goland_core.Intf.{DomainArg}
use scx_goland_core.Kernel.Oracle.{Kernel}
use scx_goland_core.Bpf.State.{World}
use scx_goland_core.Bpf.Init
use scx_goland_core.User.Message.{Bytes}
use scx_goland_core.User.Sched.{Sched, Libbpf, enable_sibling_cpu}
use scx_goland_core.User.Topology.Domains.Call.{Linked, Grows, SiblingLinked, sibling-Linked}
use scx_goland_core.User.Topology.Domains.{
  Topology, int32, and_then, for_each, enable_siblings, enable_cache, init_level,
  init_cache_domains,
}

abbrev pub AllOf : {A : Type 0} → (A → Type 0) → List A → Type 0
AllOf P [] = Unit
AllOf P (x ∷ xs) = P x × AllOf P xs

AllOf-map :
    {A : Type 0} (P Q : A → Type 0) (xs : List A) → ((x : A) → P x → Q x) → AllOf P xs → AllOf Q xs
AllOf-map P Q [] f a = tt
AllOf-map P Q (x ∷ xs) f (h, a) = (f x h, AllOf-map P Q xs f a)

Stable : (World → Type 0) → Type 0
Stable Q = (u v : World) → Grows u v → Q u → Q v

Stable-AllOf :
    {A : Type 0} (Q : A → World → Type 0) (xs : List A)
    → ((x : A) → Stable (Q x))
    → Stable (λ w. AllOf (λ x. Q x w) xs)
unfolding Stable
Stable-AllOf Q xs st u v g a = AllOf-map (λ x. Q x u) (λ x. Q x v) xs (λ x h. st x u v g h) a

Grows-trans : (u v w : World) → Grows u v → Grows v w → Grows u w
unfolding Grows
Grows-trans u v w g h level cpu sib l = h level cpu sib (g level cpu sib l)

Linked-Stable : (level cpu sib : ℕ) → Stable (Linked level cpu sib)
unfolding Stable Grows
Linked-Stable level cpu sib u v g h = g level cpu sib h

-- A run with no error leaves `Q`, and every run keeps what is linked.
Establishes : (World → Type 0) → (Sched → Bool × Sched) → Type 0
Establishes Q f = (s : Sched) → ((f s).0 ≡ true → Q ((f s).1).world) × Grows s.world ((f s).1).world

Leaves : (World → Type 0) → World → Bool × Sched → Type 0
Leaves Q u r = (r.0 ≡ true → Q (r.1).world) × Grows u (r.1).world

Grows-refl : (u : World) → Grows u u
unfolding Grows
Grows-refl u level cpu sib h = h

after_first :
    (Q R : World → Type 0) (u : World) (r rest : Bool × Sched)
    → Stable Q
    → Leaves Q u r
    → Leaves R (r.1).world rest
    → Leaves (λ w. Q w × R w) u (if r.0 then rest else r)
unfolding Leaves Stable
after_first Q R u (true, v) rest st (h, g) (h', g') =
    (λ z. (st v.world (rest.1).world g' (h refl), h' z), Grows-trans u v.world (rest.1).world g g')
after_first Q R u (false, v) rest st (h, g) (h', g') = (λ z. absurd (ground arith), g)

module _ ⦃b : Libbpf⦄ ⦃k : Kernel⦄ where
  and_then-Establishes :
      (Q R : World → Type 0) (f g : Sched → Bool × Sched)
      → Stable Q
      → Establishes Q f
      → Establishes R g
      → Establishes (λ w. Q w × R w) (and_then f g)
  unfolding Establishes Leaves
  and_then-Establishes Q R f g st e d s =
      after_first Q R s.world (f s) (g ((f s).1)) st (e s) (d ((f s).1))

  for_each-Establishes :
      {A : Type 0} (Q : A → World → Type 0) (body : A → Sched → Bool × Sched) (xs : List A)
      → ((x : A) → Stable (Q x))
      → ((x : A) → Establishes (Q x) (body x))
      → Establishes (λ w. AllOf (λ x. Q x w) xs) (for_each body xs)
  unfolding Establishes
  for_each-Establishes Q body [] st e s = (λ z. tt, Grows-refl s.world)
  for_each-Establishes Q body (x ∷ xs) st e s =
      and_then-Establishes (Q x) (λ w. AllOf (λ x. Q x w) xs) (body x) (for_each body xs) (st x)
        (e x) (for_each-Establishes Q body xs st e) s

  -- The result that Go tests.
  result_lem :
      (u : World) (r : ℕ × World) (input : DomainArg)
      → SiblingLinked input u r
      → ((r.0 == 0) ≡ true → Linked input.lvl_id input.cpu_id input.sibling_cpu_id (r.1))
        × Grows u (r.1)
  unfolding SiblingLinked
  result_lem u r input (h, g) = (λ z. h (ground arith), g)

  enable_sibling_cpu-Establishes :
      (level cpu sib : ℕ) → Establishes (Linked level cpu sib) (enable_sibling_cpu level cpu sib)
  unfolding Establishes enable_sibling_cpu
  enable_sibling_cpu-Establishes level cpu sib s =
      elim (Bool-cases (s.has_sibling_cpu && not (b.run_fails s.world))) [
        | inl e ↦
            let input : DomainArg = record { lvl_id = level; cpu_id = cpu; sibling_cpu_id = sib } in
            rw e (
              result_lem s.world (Init.enable_sibling_cpu input s.world) input
                (sibling-Linked input s.world))
        | inr e ↦ rw e (λ z. absurd (ground arith), Grows-refl s.world)
      ]

  enable_siblings-Stable :
      (level : ℕ) (list : List ℕ) (cpu : ℕ)
      → Stable (λ w. AllOf (λ sib. Linked level (int32 cpu) (int32 sib) w) list)
  enable_siblings-Stable level list cpu =
      Stable-AllOf (λ sib. Linked level (int32 cpu) (int32 sib)) list
        (λ sib. Linked-Stable level (int32 cpu) (int32 sib))

  enable_siblings-Establishes :
      (level : ℕ) (list : List ℕ) (cpu : ℕ)
      → Establishes
          (λ w. AllOf (λ sib. Linked level (int32 cpu) (int32 sib) w) list)
          (enable_siblings level list cpu)
  unfolding enable_siblings
  enable_siblings-Establishes level list cpu =
      for_each-Establishes (λ sib. Linked level (int32 cpu) (int32 sib))
        (λ sib. enable_sibling_cpu level (int32 cpu) (int32 sib)) list
        (λ sib. Linked-Stable level (int32 cpu) (int32 sib))
        (λ sib. enable_sibling_cpu-Establishes level (int32 cpu) (int32 sib))

  -- Each CPU of the cache has each CPU of the cache in its mask for the level.
  abbrev pub CacheLinked : ℕ → World → Bytes × List ℕ → Type 0
  CacheLinked level w cache =
      AllOf (λ cpu. AllOf (λ sib. Linked level (int32 cpu) (int32 sib) w) (cache.1)) (cache.1)

  CacheLinked-Stable :
      (level : ℕ) (cache : Bytes × List ℕ) → Stable (λ w. CacheLinked level w cache)
  CacheLinked-Stable level cache =
      Stable-AllOf (λ cpu w. AllOf (λ sib. Linked level (int32 cpu) (int32 sib) w) (cache.1))
        (cache.1) (enable_siblings-Stable level (cache.1))

  enable_cache-Establishes :
      (level : ℕ) (cache : Bytes × List ℕ)
      → Establishes (λ w. CacheLinked level w cache) (enable_cache level cache)
  unfolding enable_cache
  enable_cache-Establishes level cache =
      for_each-Establishes
        (λ cpu w. AllOf (λ sib. Linked level (int32 cpu) (int32 sib) w) (cache.1))
        (enable_siblings level (cache.1)) (cache.1) (enable_siblings-Stable level (cache.1))
        (enable_siblings-Establishes level (cache.1))

  level_caches-Establishes :
      (level : ℕ) (caches : List (Bytes × List ℕ))
      → Establishes (λ w. AllOf (CacheLinked level w) caches) (for_each (enable_cache level) caches)
  level_caches-Establishes level caches =
      for_each-Establishes (λ cache w. CacheLinked level w cache) (enable_cache level) caches
        (CacheLinked-Stable level) (enable_cache-Establishes level)

  -- If InitCacheDomains reports no error, all is linked.
  pub init_cache_domains-Linked :
      (first second : Topology) (s : Sched)
      → (init_cache_domains (true, first) (true, second) s).0 ≡ true
      → let w = ((init_cache_domains (true, first) (true, second) s).1).world in
        AllOf (CacheLinked 2 w) first.l2 × AllOf (CacheLinked 3 w) second.l3
  unfolding init_cache_domains init_level Establishes
  init_cache_domains-Linked first second s ok =
      (and_then-Establishes (λ w. AllOf (CacheLinked 2 w) first.l2)
          (λ w. AllOf (CacheLinked 3 w) second.l3) (for_each (enable_cache 2) first.l2)
          (for_each (enable_cache 3) second.l3)
          (Stable-AllOf (λ cache w. CacheLinked 2 w cache) first.l2 (CacheLinked-Stable 2))
          (level_caches-Establishes 2 first.l2) (level_caches-Establishes 3 second.l3) s).0
        ok
