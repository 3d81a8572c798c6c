-- ===== src/User/Topology/Walk/Scanned.antt =====
-- util/topology.go, GetTopology: what a walk without errors finds.
use scx_goland_core.Base.{
  ℕ, ◌+◌, ◌||◌, ◌≡◌, refl, ap, ◌∙◌, sym, ◌&&◌, not, inl, inr, Bool, true, false, Option, none, some,
  is_some, List, [], ◌∷◌, arith, if◌then◌else◌, Bool-cases, Option-cases,
}
use scx_goland_core.User.Run.{Returns, Returns-bind, Returns-map}
use scx_goland_core.User.Message.{Bytes}
use scx_goland_core.User.Text.{trim_space, has_suffix, contains_text}
use scx_goland_core.User.Topology.{parse_cpus, parse_segments, parse_segment}
use scx_goland_core.User.Topology.Domains.{Topology}
use scx_goland_core.User.Topology.Domains.Linked.{AllOf}
use scx_goland_core.User.Topology.Walk.{
  Entry, Key, l2_key, l3_key, empty_key, key_of, content_of, shared_cpu_list, visit, walk,
  get_topology,
}
use scx_goland_core.User.Topology.Walk.Maps.{
  find, Agrees, Sane, Extends, Extends-trans, Extends-refl, Holds, Holds-Extends, store_parsed,
}

abbrev pub read_of : Entry → Option Bytes
read_of e = content_of (key_of e.path) e.content

abbrev some_or_empty : Option Bytes → Bytes
some_or_empty none = []
some_or_empty (some s) = s

-- The text of the entry, without the white space around it.
abbrev pub text_of : Entry → Bytes
text_of e = trim_space (some_or_empty (read_of e))

-- No error is met at the entry.
abbrev pub is_fine : Entry → Bool
is_fine e = not e.fails && (if has_suffix e.path shared_cpu_list then is_some (read_of e) else true)

-- A list of CPUs is in the map of its cache.
abbrev pub Found : Entry → Topology → Type 0
Found e topo =
    if has_suffix e.path shared_cpu_list then Holds (key_of e.path) (text_of e) topo else Unit {0}

abbrev pub AllFine : List Entry → Type 0
AllFine = AllOf (λ e. is_fine e ≡ true)

empty_text : (k : Key) (read : Option Bytes) → k ≡ empty_key → content_of k read ≡ some []
empty_text l2_key read e = absurd (ground arith)
empty_text l3_key read e = absurd (ground arith)
empty_text empty_key read e = refl

parse_empty : parse_cpus [] ≡ none
unfolding parse_cpus parse_segments parse_segment
parse_empty = refl

empty_content :
    (e : Entry) (content : Bytes)
    → read_of e ≡ some content
    → key_of e.path ≡ empty_key
    → parse_cpus (trim_space content) ≡ none
empty_content e content c k =
    let nothing : content ≡ [] =
      ap some_or_empty (sym c ∙ empty_text (key_of e.path) e.content k) in
    rw nothing parse_empty

record Visited (e : Entry) (topo : Topology) (r : Bool × Topology) : Type 0 where
  no_error : r.0 ≡ true
  sane : Sane (r.1)
  extends : Extends topo (r.1)
  found : Found e (r.1)

visit-Visited :
    (e : Entry) (topo : Topology)
    → is_fine e ≡ true
    → Sane topo
    → Returns (Visited e topo) (visit e topo)
unfolding visit
visit-Visited e topo fine x = elim (Bool-cases (has_suffix e.path shared_cpu_list)) [
  | inl s ↦
      let quiet : e.fails ≡ false = ground arith in
      elim (Option-cases (read_of e)) [
        | inl n ↦ absurd (ground (arith, n))
        | inr (content, c) ↦
            rw (quiet, s, c)
              (Returns-map (Visited (record e { fails = false }) topo) _
                (store_parsed (key_of e.path) (trim_space content) topo x
                  (empty_content e content c))
                (λ r h. record {
                  no_error = h.no_error;
                  sane = h.sane;
                  extends = h.extends;
                  found = rw (s, c) h.holds;
                }))
      ]
  | inr s ↦
      let quiet : e.fails ≡ false = ground arith in
      rw (quiet, s)
        (record { no_error = refl; sane = x; extends = Extends-refl topo; found = rw s tt })
]

record Walked (es : List Entry) (topo : Topology) (r : Bool × Topology) : Type 0 where
  no_error : r.0 ≡ true
  sane : Sane (r.1)
  extends : Extends topo (r.1)
  found : AllOf (λ e. Found e (r.1)) es

Found-Extends : (e : Entry) (a b : Topology) → Extends a b → Found e a → Found e b
Found-Extends e a b x h = elim (Bool-cases (has_suffix e.path shared_cpu_list)) [
  | inl s ↦ rw s (Holds-Extends (key_of e.path) (text_of e) a b x (rw s at h))
  | inr s ↦ rw s tt
]

walk-Walked :
    (es : List Entry) (topo : Topology)
    → AllFine es
    → Sane topo
    → Returns (Walked es topo) (walk es topo)
unfolding walk
walk-Walked [] topo fine x = record {
  no_error = refl;
  sane = x;
  extends = Extends-refl topo;
  found = tt;
}
walk-Walked (e ∷ es) topo (f, fine) x =
    Returns-bind (Walked (e ∷ es) topo) (visit e topo) _ (visit-Visited e topo f x) (λ r h.
      rw h.no_error (
        Returns-map (Walked (e ∷ es) topo) (walk es (r.1)) (walk-Walked es (r.1) fine h.sane)
          (λ q i. record {
            no_error = i.no_error;
            sane = i.sane;
            extends = Extends-trans topo (r.1) (q.1) h.extends i.extends;
            found = (Found-Extends e (r.1) (q.1) i.extends h.found, i.found);
          })))

-- "/cache/index", the level, "/"
abbrev pub cache_dir : ℕ → Bytes
cache_dir level =
    47 ∷ 99 ∷ 97 ∷ 99 ∷ 104 ∷ 101 ∷ 47 ∷ 105 ∷ 110 ∷ 100 ∷ 101 ∷ 120 ∷ (48 + level) ∷ 47 ∷ []

-- The file is the list of CPUs of a cache of the level, by its path.
abbrev pub is_list_of : ℕ → Entry → Bool
is_list_of level e = has_suffix e.path shared_cpu_list && contains_text e.path (cache_dir level)

-- No error is met at the entry: the walk has none, and the list of a cache of level 2 or 3 can be read.
abbrev pub is_readable : Entry → Bool
is_readable e =
    not e.fails && (if is_list_of 2 e || is_list_of 3 e then is_some e.content else true)

abbrev pub AllReadable : List Entry → Type 0
AllReadable = AllOf (λ e. is_readable e ≡ true)

-- The map of the level of the cache has the list under the text of the file.
abbrev pub Listed : Entry → Topology → Type 0
Listed e topo =
    let text = trim_space (some_or_empty e.content) in
    if is_list_of 2 e
    then find text topo.l2 ≡ parse_cpus text
    else if is_list_of 3 e
    then find text topo.l3 ≡ parse_cpus text
    else Unit {0}

is_readable-fine : (e : Entry) → is_readable e ≡ true → is_fine e ≡ true
is_readable-fine e h = elim (Bool-cases (contains_text e.path (cache_dir 2))) [
  | inl l2 ↦ ground arith
  | inr not_l2 ↦ elim (Bool-cases (contains_text e.path (cache_dir 3))) [
    | inl l3 ↦ ground arith
    | inr not_l3 ↦ ground arith
  ]
]

Found-Listed : (e : Entry) (topo : Topology) → Found e topo → Listed e topo
Found-Listed e topo h = elim (Bool-cases (has_suffix e.path shared_cpu_list)) [
  | inr other ↦ rw other tt
  | inl listed ↦ elim (Bool-cases (contains_text e.path (cache_dir 2))) [
    | inl l2 ↦ rw (listed, l2) (rw (listed, l2) at h)
    | inr not_l2 ↦ elim (Bool-cases (contains_text e.path (cache_dir 3))) [
      | inl l3 ↦ rw (listed, not_l2, l3) (rw (listed, not_l2, l3) at h)
      | inr not_l3 ↦ rw (listed, not_l2, not_l3) tt
    ]
  ]
]

AllReadable-fine : (es : List Entry) → AllReadable es → AllFine es
AllReadable-fine [] h = h
AllReadable-fine (e ∷ es) (h, hs) = (is_readable-fine e h, AllReadable-fine es hs)

all-Listed :
    (es : List Entry) (topo : Topology)
    → AllOf (λ e. Found e topo) es
    → AllOf (λ e. Listed e topo) es
all-Listed [] topo h = h
all-Listed (e ∷ es) topo (h, hs) = (Found-Listed e topo h, all-Listed es topo hs)

-- What GetTopology returns for the files, and nothing else.
pub record Scanned (es : List Entry) (r : Bool × Topology) : Type 0 where
  pub no_error : r.0 ≡ true
  pub only_read : Sane (r.1)
  pub found : AllOf (λ e. Listed e (r.1)) es

-- If the walk meets no error and each list of CPUs of a cache of level 2 or 3 can be read, GetTopology
-- ends without a panic and without an error. For each file shared_cpu_list below /cache/index2/ the map
-- L2, and for each other one below /cache/index3/ the map L3, holds under its text the CPUs that
-- parseCPUs reads in it, and nothing if it cannot read it; under any other text a map holds what
-- parseCPUs reads in that text, or nothing.
pub get_topology-Scanned :
    (es : List Entry) → AllReadable es → Returns (Scanned es) (get_topology es)
unfolding get_topology Agrees
get_topology-Scanned es fine =
    Returns-map (Scanned es) _
      (walk-Walked es _ (AllReadable-fine es fine)
        (record { l2_agrees = λ s. inr refl; l3_agrees = λ s. inr refl }))
      (λ r h. record {
        no_error = h.no_error;
        only_read = h.sane;
        found = all-Listed es (r.1) h.found;
      })
