-- ===== src/User/Text/Lists.antt =====
-- strings: what Split, Contains and TrimSpace do to a text whose parts hold no separator or space.
use scx_goland_core.Base.{ℕ, ◌≡◌, refl, ◌==◌, not, Bool, true, false, [], ◌∷◌, ◌++◌, arith}
use scx_goland_core.User.Message.{Bytes}
use scx_goland_core.User.Text.{split, contains, trim_left, trim_right, trim_space, is_space}
use scx_goland_core.User.Text.Decimal.{All}

-- Not the byte `x`.
abbrev pub other_than : ℕ → ℕ → Bool
other_than x c = not (c == x)

abbrev pub is_visible : ℕ → Bool
is_visible c = not (is_space c)

pub split-none : (sep : ℕ) (s : Bytes) → All (other_than sep) s → split sep s ≡ s ∷ []
split-none sep [] a = refl
split-none sep (c ∷ s) (h, a) = ground (arith, split-none sep s a)

pub split-first :
    (sep : ℕ) (s t : Bytes) → All (other_than sep) s → split sep (s ++ (sep ∷ t)) ≡ s ∷ split sep t
split-first sep [] t a = ground arith
split-first sep (c ∷ s) t (h, a) = ground (arith, split-first sep s t a)

pub contains-none : (x : ℕ) (s : Bytes) → All (other_than x) s → contains x s ≡ false
contains-none x [] a = refl
contains-none x (c ∷ s) (h, a) = ground (arith, contains-none x s a)

pub contains-between : (x : ℕ) (s t : Bytes) → contains x (s ++ (x ∷ t)) ≡ true
contains-between x [] t = ground arith
contains-between x (c ∷ s) t = ground (arith, contains-between x s t)

trim_left-visible : (s : Bytes) → All is_visible s → trim_left s ≡ s
trim_left-visible [] a = refl
trim_left-visible (c ∷ s) (h, a) = ground arith

trim_right-visible : (s : Bytes) → All is_visible s → trim_right s ≡ s
trim_right-visible [] a = refl
trim_right-visible (c ∷ []) (h, a) = ground arith
trim_right-visible (c ∷ d ∷ s) (h, a) = rw (trim_right-visible (d ∷ s) a) refl

trim_right-space :
    (c : ℕ) (s : Bytes) → is_space c ≡ true → All is_visible s → trim_right (s ++ (c ∷ [])) ≡ s
trim_right-space c [] e a = rw e refl
trim_right-space c (x ∷ []) e (h, a) = rw e (ground arith)
trim_right-space c (x ∷ y ∷ s) e (h, a) = rw (trim_right-space c (y ∷ s) e a) refl

pub trim_space-visible : (s : Bytes) → All is_visible s → trim_space s ≡ s
trim_space-visible s a = rw (trim_right-visible s a) (trim_left-visible s a)

pub trim_space-space :
    (c : ℕ) (s : Bytes) → is_space c ≡ true → All is_visible s → trim_space (s ++ (c ∷ [])) ≡ s
trim_space-space c s e a = rw (trim_right-space c s e a) (trim_left-visible s a)

trim_right-end : (c : ℕ) (s : Bytes) → is_space c ≡ true → trim_right (s ++ (c ∷ [])) ≡ trim_right s
trim_right-end c [] e = rw e refl
trim_right-end c (x ∷ s) e = rw (trim_right-end c s e) refl

-- White space more at the end makes no difference.
pub trim_space-end :
    (c : ℕ) (s : Bytes) → is_space c ≡ true → trim_space (s ++ (c ∷ [])) ≡ trim_space s
trim_space-end c s e = rw (trim_right-end c s e) refl
