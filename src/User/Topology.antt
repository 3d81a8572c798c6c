-- ===== src/User/Topology.antt =====
-- util/topology.go: lists of CPUs as the kernel writes them, and the cache domains.
pub mod RoundTrip
pub mod Domains
pub mod Walk
use scx_goland_core.Base.{
  ℕ, zero, suc, ◌+◌, ◌-◌, ◌==◌, Bool, true, false, Option, none, some, List, [], ◌∷◌, ◌++◌, ltb,
  if◌then◌else◌,
}
use scx_goland_core.User.Message.{Bytes}
use scx_goland_core.User.Text.{comma, hyphen, split, contains, trim_space, atoi}

infixl 5 ◌>>=◌
abbrev ◌>>=◌ : {A B : Type 0} → Option A → (A → Option B) → Option B
none >>= f = none
some a >>= f = f a

-- The CPUs from `start` on.
abbrev pub cpus_from : ℕ → ℕ → List ℕ
cpus_from start zero = []
cpus_from start (suc n) = start ∷ cpus_from (start + 1) n

-- The parts between hyphens; `none` is an error.
abbrev pub parse_bounds : List Bytes → Option (List ℕ)
parse_bounds (first ∷ last ∷ []) = do
  start ← atoi first
  end ← atoi last
  if ltb end start then none else some (cpus_from start (end + 1 - start))
parse_bounds parts = none

unfoldable pub parse_segment : Bytes → Option (List ℕ)
parse_segment text =
    let segment = trim_space text in
    if contains hyphen segment
    then parse_bounds (split hyphen segment)
    else (atoi segment >>= λ num. some (num ∷ []))

unfoldable pub parse_segments : List Bytes → Option (List ℕ)
parse_segments [] = some []
parse_segments (s ∷ ss) = do cpus ← parse_segment s; rest ← parse_segments ss; some (cpus ++ rest)

unfoldable pub parse_cpus : Bytes → Option (List ℕ)
parse_cpus cpu_list = parse_segments (split comma cpu_list)
