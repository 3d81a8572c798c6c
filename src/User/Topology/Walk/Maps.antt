-- ===== src/User/Topology/Walk/Maps.antt =====
-- util/topology.go, GetTopology: the two maps, and one list that is stored.
use scx_goland_core.Base.{
  ℕ, ◌≡◌, refl, sym, ◌∙◌, ◌⊎◌, inl, inr, Bool, true, false, Option, none, some, List, [], ◌∷◌,
  arith, if◌then◌else◌, Bool-cases, Option-cases,
}
use mathlib.Core.Option.{none-ne-some}
use scx_goland_core.User.Run.{Returns}
use scx_goland_core.User.Message.{Bytes}
use scx_goland_core.User.Text.{eq_bytes}
use scx_goland_core.User.Topology.{parse_cpus}
use scx_goland_core.User.Topology.Domains.{Topology}
use scx_goland_core.User.Topology.Walk.{Key, l2_key, l3_key, empty_key, put, store}

abbrev pub find : Bytes → List (Bytes × List ℕ) → Option (List ℕ)
find text [] = none
find text ((t, l) ∷ rest) = let more = find text rest in if eq_bytes t text then some l else more

eq_bytes_refl : (s : Bytes) → eq_bytes s s ≡ true
eq_bytes_refl [] = refl
eq_bytes_refl (c ∷ cs) = ground (arith, eq_bytes_refl cs)

eq_bytes-eq : (s t : Bytes) → eq_bytes s t ≡ true → s ≡ t
eq_bytes-eq [] [] e = refl
eq_bytes-eq [] (d ∷ ds) e = absurd (ground arith)
eq_bytes-eq (c ∷ cs) [] e = absurd (ground arith)
eq_bytes-eq (c ∷ cs) (d ∷ ds) e =
    let first : c ≡ d = ground arith in
    let rest : eq_bytes cs ds ≡ true = ground arith in rw (first, eq_bytes-eq cs ds rest) refl

eq_bytes-sym : (t s : Bytes) → eq_bytes t s ≡ false → eq_bytes s t ≡ false
eq_bytes-sym [] [] e = e
eq_bytes-sym [] (d ∷ ds) e = refl
eq_bytes-sym (c ∷ cs) [] e = refl
eq_bytes-sym (c ∷ cs) (d ∷ ds) e = ground (arith, eq_bytes-sym cs ds)

find-put :
    (s text : Bytes) (list : List ℕ) (m : List (Bytes × List ℕ))
    → find s (put text list m) ≡ (if eq_bytes text s then some list else find s m)
find-put s text list [] = refl
find-put s text list ((t, l) ∷ rest) = elim (Bool-cases (eq_bytes t text)) [
  | inl e ↦ rw (e, eq_bytes-eq t text e) (ground arith)
  | inr e ↦ rw e (elim (Bool-cases (eq_bytes t s)) [
    | inl p ↦
        let other : eq_bytes text s ≡ false = rw (← eq_bytes-eq t s p) (eq_bytes-sym t text e) in
        rw (p, other) refl
    | inr p ↦ rw p (find-put s text list rest)
  ])
]

-- Under each text the map holds what the text is read as, or nothing.
unfoldable pub Agrees : List (Bytes × List ℕ) → Type 0
Agrees m = (s : Bytes) → (find s m ≡ parse_cpus s) ⊎ (find s m ≡ none)

-- What a text has, it keeps.
unfoldable pub Keeps : List (Bytes × List ℕ) → List (Bytes × List ℕ) → Type 0
Keeps m n = (s : Bytes) → find s m ≡ parse_cpus s → find s n ≡ parse_cpus s

found_put :
    (text : Bytes) (list : List ℕ) (m : List (Bytes × List ℕ))
    → parse_cpus text ≡ some list
    → find text (put text list m) ≡ parse_cpus text
found_put text list m e = rw (find-put text text list m, eq_bytes_refl text) (sym e)

Agrees-put :
    (text : Bytes) (list : List ℕ) (m : List (Bytes × List ℕ))
    → parse_cpus text ≡ some list
    → Agrees m
    → Agrees (put text list m)
unfolding Agrees
Agrees-put text list m e a s = elim (Bool-cases (eq_bytes text s)) [
  | inl p ↦ inl (rw (find-put s text list m, p, ← eq_bytes-eq text s p) (sym e))
  | inr p ↦ rw (find-put s text list m, p) (a s)
]

Keeps-put :
    (text : Bytes) (list : List ℕ) (m : List (Bytes × List ℕ))
    → parse_cpus text ≡ some list
    → Keeps m (put text list m)
unfolding Keeps
Keeps-put text list m e s h = elim (Bool-cases (eq_bytes text s)) [
  | inl p ↦ rw (find-put s text list m, p, ← eq_bytes-eq text s p) (sym e)
  | inr p ↦ rw (find-put s text list m, p) h
]

-- Both maps.
pub record Sane (topo : Topology) : Type 0 where
  pub l2_agrees : Agrees topo.l2
  pub l3_agrees : Agrees topo.l3

pub record Extends (topo after : Topology) : Type 0 where
  pub l2_keeps : Keeps topo.l2 after.l2
  pub l3_keeps : Keeps topo.l3 after.l3

pub Extends-trans : (a b c : Topology) → Extends a b → Extends b c → Extends a c
unfolding Keeps
Extends-trans a b c g h = record {
  l2_keeps = λ s e. h.l2_keeps s (g.l2_keeps s e);
  l3_keeps = λ s e. h.l3_keeps s (g.l3_keeps s e);
}

pub Extends-refl : (a : Topology) → Extends a a
unfolding Keeps
Extends-refl a = record { l2_keeps = λ s e. e; l3_keeps = λ s e. e }

abbrev pub map_of : Key → Topology → List (Bytes × List ℕ)
map_of l2_key topo = topo.l2
map_of l3_key topo = topo.l3
map_of empty_key topo = []

-- The map of the cache holds what the text is read as: nothing, if it is not understood.
abbrev pub Holds : Key → Bytes → Topology → Type 0
Holds key text topo = (find text (map_of key topo) ≡ parse_cpus text)

pub Holds-Extends :
    (key : Key) (text : Bytes) (a b : Topology) → Extends a b → Holds key text a → Holds key text b
unfolding Keeps
Holds-Extends l2_key text a b x h = x.l2_keeps text h
Holds-Extends l3_key text a b x h = x.l3_keeps text h
Holds-Extends empty_key text a b x h = h

-- A text that is not understood is in no map.
Holds-none :
    (key : Key) (text : Bytes) (a : Topology) → Sane a → parse_cpus text ≡ none → Holds key text a
unfolding Agrees
Holds-none l2_key text a x e = elim (x.l2_agrees text) [ inl h ↦ h | inr h ↦ h ∙ sym e ]
Holds-none l3_key text a x e = elim (x.l3_agrees text) [ inl h ↦ h | inr h ↦ h ∙ sym e ]
Holds-none empty_key text a x e = sym e

pub record Stored (key : Key) (text : Bytes) (topo : Topology) (r : Bool × Topology) : Type 0 where
  pub no_error : r.0 ≡ true
  pub sane : Sane (r.1)
  pub extends : Extends topo (r.1)
  pub holds : Holds key text (r.1)

store-some :
    (key : Key) (text : Bytes) (list : List ℕ) (topo : Topology)
    → parse_cpus text ≡ some list
    → Sane topo
    → (key ≡ empty_key → parse_cpus text ≡ none)
    → Returns (Stored key text topo) (store key text (some list) topo)
unfolding Keeps
store-some l2_key text list topo e x n = record {
  no_error = refl;
  sane = record { l2_agrees = Agrees-put text list topo.l2 e x.l2_agrees; l3_agrees = x.l3_agrees };
  extends = record { l2_keeps = Keeps-put text list topo.l2 e; l3_keeps = λ s h. h };
  holds = found_put text list topo.l2 e;
}
store-some l3_key text list topo e x n = record {
  no_error = refl;
  sane = record { l2_agrees = x.l2_agrees; l3_agrees = Agrees-put text list topo.l3 e x.l3_agrees };
  extends = record { l2_keeps = λ s h. h; l3_keeps = Keeps-put text list topo.l3 e };
  holds = found_put text list topo.l3 e;
}
store-some empty_key text list topo e x n = absurd (none-ne-some list (sym (n refl) ∙ e))

pub store_parsed :
    (key : Key) (text : Bytes) (topo : Topology)
    → Sane topo
    → (key ≡ empty_key → parse_cpus text ≡ none)
    → Returns (Stored key text topo) (store key text (parse_cpus text) topo)
store_parsed key text topo x n = elim (Option-cases (parse_cpus text)) [
  | inl e ↦ rw e (record {
    no_error = refl;
    sane = x;
    extends = Extends-refl topo;
    holds = Holds-none key text topo x e;
  })
  | inr (list, e) ↦ rw e (store-some key text list topo e x n)
]
