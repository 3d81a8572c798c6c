-- ===== src/Bpf/Rules.antt =====
-- Rules for what a run of a function of main.bpf.c does to the world: a relation that is
-- reflexive and transitive holds of a `do` block if it holds of the parts.
use scx_goland_core.Base.{Bool, true, false, ◌≡◌, refl, if◌then◌else◌}
use scx_goland_core.Bpf.State.{World, M, pure, ◌>>=◌, get}

pub record IsPreorder (R : World → World → Type 0) : Type 0 where
  pub here : (w : World) → R w w
  pub chain : (u v w : World) → R u v → R v w → R u w

abbrev pub Keeps : (World → World → Type 0) → {A : Type 0} → M A → Type 0
Keeps R m = (w : World) → R w (m w).1

module _ {R : World → World → Type 0} (p : IsPreorder R) where
  pub Keeps-bind :
      {A B : Type 0} (m : M A) (f : A → M B)
      → Keeps R m
      → ((a : A) → Keeps R (f a))
      → Keeps R (m >>= f)
  Keeps-bind m f hm hf w = p.chain _ _ _ (hm w) (hf (m w).0 (m w).1)

  pub Keeps-pure : {A : Type 0} (a : A) → Keeps R (pure a)
  Keeps-pure a w = p.here w

  pub Keeps-get : {A : Type 0} (f : World → A) → Keeps R (get f)
  Keeps-get f w = p.here w

  pub Keeps-if :
      {A : Type 0} (b : Bool) (m n : M A) → Keeps R m → Keeps R n → Keeps R (if b then m else n)
  Keeps-if true m n hm hn = hm
  Keeps-if false m n hm hn = hn

-- To prove something of a run that branches, on each branch with its test.
pub if-run :
    {A : Type 0} (P : A × World → Type 0) (b : Bool) (m n : M A) (w : World)
    → (b ≡ true → P (m w))
    → (b ≡ false → P (n w))
    → P ((if b then m else n) w)
if-run P true m n w hm hn = hm refl
if-run P false m n w hm hn = hn refl

-- To prove a statement by cases.
pub if-case : (b : Bool) (S T : Type 0) → (b ≡ true → S) → (b ≡ false → T) → if b then S else T
if-case true S T hs ht = hs refl
if-case false S T hs ht = ht refl
