-- ===== src/User/Text/Decimal.antt =====
-- strconv: decimal numbers, printed and read.
use scx_goland_core.Base.{
  ℕ, zero, suc, ◌+◌, ◌-◌, ◌*◌, ◌/◌, ◌%◌, ◌^◌, ◌≤◌, ◌<◌, ◌≡◌, ap, ◌∙◌, ◌==◌, Bool, true, false, some,
  [], ◌∷◌, ◌++◌, arith, ltb, if◌then◌else◌, Bool-cases, inl, inr,
}
use scx_goland_core.User.Message.{Bytes}
use scx_goland_core.User.Text.{digits, number, atoi, is_digit, plus}

-- The decimal digits of a number; `n` rounds are enough for a number up to `n`.
abbrev pub decimal_rounds : ℕ → ℕ → Bytes
decimal_rounds zero n = (48 + n % 10) ∷ []
decimal_rounds (suc fuel) n =
    let rest = decimal_rounds fuel (n / 10) in
    if ltb n 10 then (48 + n) ∷ [] else rest ++ ((48 + n % 10) ∷ [])

abbrev pub decimal : ℕ → Bytes
decimal n = decimal_rounds n n

digits-append :
    (m n : ℕ) (cs : Bytes) (c : ℕ)
    → digits m cs ≡ some n
    → is_digit c ≡ true
    → digits m (cs ++ (c ∷ [])) ≡ some (n * 10 + (c - 48))
digits-append m n [] c e d = ground arith
digits-append m n (x ∷ cs) c e d = ground (arith, digits-append (m * 10 + (x - 48)) n cs c)

digits-decimal : (fuel n : ℕ) → n ≤ fuel → digits 0 (decimal_rounds fuel n) ≡ some n
digits-decimal zero n l = ground arith
digits-decimal (suc fuel) n l = elim (Bool-cases (ltb n 10)) [
  | inl e ↦ rw e (ground arith)
  | inr e ↦
      let q : n / 10 ≤ fuel = ground arith in
      let s : n / 10 * 10 + (48 + n % 10 - 48) ≡ n = omega arith in
      rw e (
        digits-append 0 (n / 10) (decimal_rounds fuel (n / 10)) (48 + n % 10)
          (digits-decimal fuel (n / 10) q) (ground arith)
        ∙ ap some s)
]

-- Each byte passes the test.
abbrev pub All : (ℕ → Bool) → Bytes → Type 0
All f [] = Unit
All f (c ∷ cs) = (f c ≡ true) × All f cs

pub All-append : (f : ℕ → Bool) (s t : Bytes) → All f s → All f t → All f (s ++ t)
All-append f [] t a b = b
All-append f (c ∷ s) t (h, a) b = (h, All-append f s t a b)

pub All-weaken :
    (f g : ℕ → Bool) (s : Bytes) → ((c : ℕ) → f c ≡ true → g c ≡ true) → All f s → All g s
All-weaken f g [] w a = tt
All-weaken f g (c ∷ s) w (h, a) = (w c h, All-weaken f g s w a)

-- Digits alone, and at least one.
abbrev pub IsNumeral : Bytes → Type 0
IsNumeral [] = ⊥
IsNumeral (c ∷ cs) = All is_digit (c ∷ cs)

IsNumeral-append : (s : Bytes) (c : ℕ) → IsNumeral s → is_digit c ≡ true → IsNumeral (s ++ (c ∷ []))
IsNumeral-append [] c n d = elim n [ ]
IsNumeral-append (x ∷ s) c n d = All-append is_digit (x ∷ s) (c ∷ []) n (d, tt)

IsNumeral-rounds : (fuel n : ℕ) → IsNumeral (decimal_rounds fuel n)
IsNumeral-rounds zero n = (ground arith, tt)
IsNumeral-rounds (suc fuel) n = elim (Bool-cases (ltb n 10)) [
  | inl e ↦ rw e (ground arith, tt)
  | inr e ↦ rw e (
      IsNumeral-append (decimal_rounds fuel (n / 10)) (48 + n % 10) (IsNumeral-rounds fuel (n / 10))
        (ground arith))
]

pub decimal-IsNumeral : (n : ℕ) → IsNumeral (decimal n)
decimal-IsNumeral n = IsNumeral-rounds n n

pub IsNumeral-All : (s : Bytes) → IsNumeral s → All is_digit s
IsNumeral-All [] n = elim n [ ]
IsNumeral-All (c ∷ s) n = n

atoi-IsNumeral :
    (s : Bytes) (n : ℕ) → IsNumeral s → digits 0 s ≡ some n → n < 2 ^ 63 → atoi s ≡ some n
atoi-IsNumeral [] n d e b = elim d [ ]
atoi-IsNumeral (c ∷ s) n (d, ds) e b =
    let p : (c == plus) ≡ false = ground arith in rw p (rw e (ground arith))

-- Every int from 0 on is read as it was printed.
pub atoi-decimal : (n : ℕ) → n < 2 ^ 63 → atoi (decimal n) ≡ some n
atoi-decimal n b =
    atoi-IsNumeral (decimal n) n (decimal-IsNumeral n) (digits-decimal n n (omega arith)) b

-- A numeral with no sign.
pub number-decimal : (n : ℕ) → number (decimal n) ≡ some n
number-decimal n =
    number-IsNumeral (decimal n) n (decimal-IsNumeral n) (digits-decimal n n (omega arith))
  where
    number-IsNumeral : (s : Bytes) (n : ℕ) → IsNumeral s → digits 0 s ≡ some n → number s ≡ some n
    number-IsNumeral [] n d e = elim d [ ]
    number-IsNumeral (c ∷ s) n d e = e
