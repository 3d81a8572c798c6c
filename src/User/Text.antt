-- ===== src/User/Text.antt =====
-- The functions of Go's strings and strconv that util/topology.go calls, on bytes.
pub mod Decimal
pub mod Lists
use scx_goland_core.Base.{
  ℕ, zero, suc, ◌+◌, ◌-◌, ◌*◌, ◌/◌, ◌%◌, ◌^◌, ◌==◌, ◌&&◌, ◌||◌, Bool, true, false, Option, none,
  some, List, [], ◌∷◌, ◌++◌, ltb, leb, if◌then◌else◌,
}
use scx_goland_core.User.Message.{Bytes}

abbrev pub comma : ℕ
comma = 44

abbrev pub hyphen : ℕ
hyphen = 45

abbrev pub plus : ℕ
plus = 43

abbrev cons_first : ℕ → List Bytes → List Bytes
cons_first c [] = (c ∷ []) ∷ []
cons_first c (s ∷ ss) = (c ∷ s) ∷ ss

-- strings.Split by a separator of one byte: at least one part, which may be empty.
abbrev pub split : ℕ → Bytes → List Bytes
split sep [] = [] ∷ []
split sep (c ∷ cs) = let rest = split sep cs in if c == sep then [] ∷ rest else cons_first c rest

-- strings.Contains for one byte
abbrev pub contains : ℕ → Bytes → Bool
contains x [] = false
contains x (c ∷ cs) = c == x || contains x cs

-- The white space of ASCII. The two spaces of Latin-1 and those of more bytes do not occur in the
-- files that are read.
abbrev pub is_space : ℕ → Bool
is_space c = c == 32 || leb 9 c && leb c 13

abbrev pub trim_left : Bytes → Bytes
trim_left [] = []
trim_left (c ∷ cs) = let rest = trim_left cs in if is_space c then rest else c ∷ cs

abbrev pub trim_right : Bytes → Bytes
trim_right [] = []
trim_right (c ∷ cs) = keep c (trim_right cs)
  where
    keep : ℕ → Bytes → Bytes
    keep c [] = if is_space c then [] else c ∷ []
    keep c (d ∷ ds) = c ∷ d ∷ ds

-- strings.TrimSpace
abbrev pub trim_space : Bytes → Bytes
trim_space s = trim_left (trim_right s)

abbrev pub is_digit : ℕ → Bool
is_digit c = leb 48 c && leb c 57

-- The digits after those that have the value `n`.
abbrev pub digits : ℕ → Bytes → Option ℕ
digits n [] = some n
digits n (c ∷ cs) = let rest = digits (n * 10 + (c - 48)) cs in if is_digit c then rest else none

-- At least one digit.
abbrev pub number : Bytes → Option ℕ
number [] = none
number (c ∷ cs) = digits 0 (c ∷ cs)

abbrev pub below : ℕ → Option ℕ → Option ℕ
below bound none = none
below bound (some n) = if ltb n bound then some n else none

-- strconv.Atoi for a text with no minus sign: a plus sign is allowed, and the value is an int.
abbrev pub atoi : Bytes → Option ℕ
atoi [] = none
atoi (c ∷ cs) = below (2 ^ 63) (if c == plus then number cs else number (c ∷ cs))

-- `==` of strings
abbrev pub eq_bytes : Bytes → Bytes → Bool
eq_bytes [] [] = true
eq_bytes [] (d ∷ ds) = false
eq_bytes (c ∷ cs) [] = false
eq_bytes (c ∷ cs) (d ∷ ds) = c == d && eq_bytes cs ds

abbrev has_prefix : Bytes → Bytes → Bool
has_prefix [] s = true
has_prefix (c ∷ cs) [] = false
has_prefix (c ∷ cs) (d ∷ ds) = c == d && has_prefix cs ds

-- strings.Contains(s, part)
abbrev pub contains_text : Bytes → Bytes → Bool
contains_text [] part = has_prefix part []
contains_text (c ∷ cs) part = has_prefix part (c ∷ cs) || contains_text cs part

-- strings.HasSuffix(s, last)
abbrev pub has_suffix : Bytes → Bytes → Bool
has_suffix [] last = eq_bytes last []
has_suffix (c ∷ cs) last = eq_bytes last (c ∷ cs) || has_suffix cs last
