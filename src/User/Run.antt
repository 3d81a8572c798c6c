-- ===== src/User/Run.antt =====
-- How a run of Go code ends: with a value, with a panic of the runtime, or, for a loop, out of the
-- rounds that the model gives it.
use scx_goland_core.Base.{◌≡◌, refl, ap}

pub data Run (A : Type 0) : Type 0 where
  ok : A → Run A
  panic : Run A
  out_of_fuel : Run A

infixl 5 ◌>>=◌
abbrev pub ◌>>=◌ : {A B : Type 0} → Run A → (A → Run B) → Run B
ok a >>= f = f a
panic >>= f = panic
out_of_fuel >>= f = out_of_fuel

-- The run ends with a value that has the property.
abbrev pub Returns : {A : Type 0} → (A → Type 0) → Run A → Type 0
Returns P (ok a) = P a
Returns P panic = ⊥
Returns P out_of_fuel = ⊥

pub Returns-bind :
    {A B : Type 0} {P : A → Type 0} (Q : B → Type 0) (m : Run A) (f : A → Run B)
    → Returns P m
    → ((a : A) → P a → Returns Q (f a))
    → Returns Q (m >>= f)
Returns-bind Q (ok a) f h g = g a h
Returns-bind Q panic f h g = elim h [ ]
Returns-bind Q out_of_fuel f h g = elim h [ ]

pub Returns-map :
    {A : Type 0} {P : A → Type 0} (Q : A → Type 0) (m : Run A)
    → Returns P m
    → ((a : A) → P a → Returns Q (ok a))
    → Returns Q m
Returns-map Q (ok a) h g = g a h
Returns-map Q panic h g = elim h [ ]
Returns-map Q out_of_fuel h g = elim h [ ]

pub Returns-only : {A : Type 0} (m : Run A) (a : A) → Returns (λ b. b ≡ a) m → m ≡ ok a
Returns-only (ok b) a h = ap ok h
Returns-only panic a h = elim h [ ]
Returns-only out_of_fuel a h = elim h [ ]

-- The run is not cut short, and a value that it ends with has the property.
abbrev pub Ends : {A : Type 0} → (A → Type 0) → Run A → Type 0
Ends P (ok a) = P a
Ends P panic = Unit
Ends P out_of_fuel = ⊥

pub Ends-bind :
    {A B : Type 0} {P : A → Type 0} (Q : B → Type 0) (m : Run A) (f : A → Run B)
    → Ends P m
    → ((a : A) → P a → Ends Q (f a))
    → Ends Q (m >>= f)
Ends-bind Q (ok a) f h g = g a h
Ends-bind Q panic f h g = tt
Ends-bind Q out_of_fuel f h g = elim h [ ]

-- Two runs that both panic, or that both end with a value, and the values are related.
abbrev pub Alike : {A B : Type 0} → (A → B → Type 0) → Run A → Run B → Type 0
Alike R (ok a) (ok b) = R a b
Alike R panic panic = Unit
Alike R m n = ⊥

pub Alike-ok :
    {A B : Type 0} (R : A → B → Type 0) (m : Run A) (b : B)
    → Alike R m (ok b)
    → Returns (λ a. R a b) m
Alike-ok R (ok a) b h = h
Alike-ok R panic b h = elim h [ ]
Alike-ok R out_of_fuel b h = elim h [ ]

pub Alike-bind :
    {A B C D : Type 0} {R : A → B → Type 0} (S : C → D → Type 0) (m : Run A) (n : Run B)
    (f : A → Run C) (g : B → Run D)
    → Alike R m n
    → ((a : A) (b : B) → R a b → Alike S (f a) (g b))
    → Alike S (m >>= f) (n >>= g)
Alike-bind S (ok a) (ok b) f g h k = k a b h
Alike-bind S panic panic f g h k = tt
Alike-bind S (ok a) panic f g h k = elim h [ ]
Alike-bind S (ok a) out_of_fuel f g h k = elim h [ ]
Alike-bind S panic (ok b) f g h k = elim h [ ]
Alike-bind S panic out_of_fuel f g h k = elim h [ ]
Alike-bind S out_of_fuel n f g h k = elim h [ ]

pub Alike-refl : {A : Type 0} (m : Run A) → Ends (λ a. Unit) m → Alike (λ a b. a ≡ b) m m
Alike-refl (ok a) h = refl
Alike-refl panic h = tt
Alike-refl out_of_fuel h = elim h [ ]

-- A run like one that is not cut short ends with a value that is related to one.
pub Alike-Ends :
    {A B : Type 0} {R : A → B → Type 0} (P : A → Type 0) (m : Run A) (n : Run B)
    → Alike R m n
    → ((a : A) (b : B) → R a b → P a)
    → Ends P m
Alike-Ends P (ok a) (ok b) h g = g a b h
Alike-Ends P (ok a) panic h g = elim h [ ]
Alike-Ends P (ok a) out_of_fuel h g = elim h [ ]
Alike-Ends P panic n h g = tt
Alike-Ends P out_of_fuel n h g = elim h [ ]

pub Alike-Returns :
    {A B C : Type 0} {P : A → Type 0} (R : B → C → Type 0) (m : Run A) (f : A → Run B) (n : Run C)
    → Returns P m
    → ((a : A) → P a → Alike R (f a) n)
    → Alike R (m >>= f) n
Alike-Returns R (ok a) f n h g = g a h
Alike-Returns R panic f n h g = elim h [ ]
Alike-Returns R out_of_fuel f n h g = elim h [ ]

pub Ends-map :
    {A : Type 0} {P : A → Type 0} (Q : A → Type 0) (m : Run A)
    → Ends P m
    → ((a : A) → P a → Q a)
    → Ends Q m
Ends-map Q (ok a) h g = g a h
Ends-map Q panic h g = tt
Ends-map Q out_of_fuel h g = elim h [ ]

pub Alike-map :
    {A B : Type 0} {R : A → B → Type 0} (S : A → B → Type 0) (m : Run A) (n : Run B)
    → Alike R m n
    → ((a : A) (b : B) → R a b → S a b)
    → Alike S m n
Alike-map S (ok a) (ok b) h g = g a b h
Alike-map S (ok a) panic h g = elim h [ ]
Alike-map S (ok a) out_of_fuel h g = elim h [ ]
Alike-map S panic (ok b) h g = elim h [ ]
Alike-map S panic panic h g = tt
Alike-map S panic out_of_fuel h g = elim h [ ]
Alike-map S out_of_fuel n h g = elim h [ ]
