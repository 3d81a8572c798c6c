-- ===== src/User/Topology/Walk.antt =====
-- util/topology.go, GetTopology: the files under /sys/devices/system/cpu/ are a parameter, in the
-- order in which filepath.Walk visits them.
pub mod Maps
pub mod Scanned
use scx_goland_core.Base.{ℕ, Bool, true, false, Option, none, some, List, [], ◌∷◌, if◌then◌else◌}
use scx_goland_core.User.Run.{Run, ok, panic, ◌>>=◌}
use scx_goland_core.User.Message.{Bytes}
use scx_goland_core.User.Text.{trim_space, eq_bytes, contains_text, has_suffix}
use scx_goland_core.User.Topology.{parse_cpus}
use scx_goland_core.User.Topology.Domains.{Topology}

-- What a visit is called with: whether there is an error, the path, and what os.ReadFile gives for
-- the path, where `none` is its error.
pub record Entry : Type 0 where
  pub fails : Bool
  pub path : Bytes
  pub content : Option Bytes

-- "shared_cpu_list"
abbrev pub shared_cpu_list : Bytes
shared_cpu_list =
    115 ∷ 104 ∷ 97 ∷ 114 ∷ 101 ∷ 100 ∷ 95 ∷ 99 ∷ 112 ∷ 117 ∷ 95 ∷ 108 ∷ 105 ∷ 115 ∷ 116 ∷ []

-- "/cache/index2/"
abbrev pub index2 : Bytes
index2 = 47 ∷ 99 ∷ 97 ∷ 99 ∷ 104 ∷ 101 ∷ 47 ∷ 105 ∷ 110 ∷ 100 ∷ 101 ∷ 120 ∷ 50 ∷ 47 ∷ []

-- "/cache/index3/"
abbrev index3 : Bytes
index3 = 47 ∷ 99 ∷ 97 ∷ 99 ∷ 104 ∷ 101 ∷ 47 ∷ 105 ∷ 110 ∷ 100 ∷ 101 ∷ 120 ∷ 51 ∷ 47 ∷ []

-- The variable `key`, which is empty for a list of another cache.
pub data Key : Type 0 where
  l2_key : Key
  l3_key : Key
  empty_key : Key

abbrev pub key_of : Bytes → Key
key_of path =
    if contains_text path index2
    then l2_key
    else if contains_text path index3
    then l3_key
    else empty_key

-- The variable `content`, which stays empty for another cache.
abbrev pub content_of : Key → Option Bytes → Option Bytes
content_of empty_key read = some []
content_of key read = read

abbrev pub put : Bytes → List ℕ → List (Bytes × List ℕ) → List (Bytes × List ℕ)
put text list [] = (text, list) ∷ []
put text list ((t, l) ∷ rest) =
    let more = put text list rest in if eq_bytes t text then (t, list) ∷ rest else (t, l) ∷ more

-- `cacheMap[key][text] = list`: under the empty key there is no map to write to.
abbrev pub assign : Key → Bytes → List ℕ → Topology → Run Topology
assign l2_key text list topo = ok (record topo { l2 = put text list topo.l2 })
assign l3_key text list topo = ok (record topo { l3 = put text list topo.l3 })
assign empty_key text list topo = panic

-- A list that is not understood is passed over.
abbrev pub store : Key → Bytes → Option (List ℕ) → Topology → Run (Bool × Topology)
store key text none topo = ok (true, topo)
store key text (some list) topo = assign key text list topo >>= λ t. ok (true, t)

abbrev pub visit_list : Key → Option Bytes → Topology → Run (Bool × Topology)
visit_list key none topo = ok (false, topo)
visit_list key (some content) topo =
    let text = trim_space content in store key text (parse_cpus text) topo

-- False stands for an error, which ends the walk.
unfoldable pub visit : Entry → Topology → Run (Bool × Topology)
visit e topo =
    let key = key_of e.path in
    let listed = visit_list key (content_of key e.content) topo in
    if e.fails
    then ok (false, topo)
    else if has_suffix e.path shared_cpu_list
    then listed
    else ok (true, topo)

unfoldable pub walk : List Entry → Topology → Run (Bool × Topology)
walk [] topo = ok (true, topo)
walk (e ∷ es) topo = visit e topo >>= λ r. let rest = walk es (r.1) in if r.0 then rest else ok r

unfoldable pub get_topology : List Entry → Run (Bool × Topology)
get_topology es = walk es (record { l2 = []; l3 = [] })
