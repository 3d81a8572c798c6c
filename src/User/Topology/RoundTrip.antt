-- ===== src/User/Topology/RoundTrip.antt =====
-- util/topology.go, parseCPUs: the lists that the kernel writes to shared_cpu_list.
use scx_goland_core.Base.{
  ℕ, zero, suc, ◌+◌, ◌-◌, ◌^◌, ◌≤◌, ◌<◌, ◌==◌, ◌||◌, Bool, List, [], ◌∷◌, ◌++◌, if◌then◌else◌,
}
use scx_goland_core.User.Message.{Bytes}
use scx_goland_core.User.Text.{comma, hyphen, is_digit}
use scx_goland_core.User.Text.Decimal.{decimal}

-- A run of CPUs, from the first to the last.
abbrev pub Span : Type 0
Span = ℕ × ℕ

abbrev pub IsSpan : Span → Type 0
IsSpan (first, last) = (first ≤ last) × (last < 2 ^ 63)

abbrev pub AllSpans : List Span → Type 0
AllSpans [] = Unit
AllSpans (r ∷ rs) = IsSpan r × AllSpans rs

-- `%*pbl` of the kernel: "5" for one CPU, "0-3" for more, with commas between.
abbrev pub print_span : Span → Bytes
print_span (first, last) =
    if first == last then decimal first else decimal first ++ (hyphen ∷ decimal last)

abbrev pub print_spans : Span → List Span → Bytes
print_spans r [] = print_span r
print_spans r (s ∷ rs) = print_span r ++ (comma ∷ print_spans s rs)

-- `n` numbers from the first on, the last of which is first + n - 1.
abbrev pub numbers : ℕ → ℕ → List ℕ
numbers first zero = []
numbers first (suc n) = numbers first n ++ ((first + n) ∷ [])

abbrev pub cpus_of : List Span → List ℕ
cpus_of [] = []
cpus_of ((first, last) ∷ rs) = numbers first (last + 1 - first) ++ cpus_of rs

-- A digit or a hyphen.
abbrev is_span_byte : ℕ → Bool
is_span_byte c = is_digit c || c == hyphen

abbrev newline : ℕ
newline = 10
