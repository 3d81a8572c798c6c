-- ===== src/Base/HashMap.antt =====
-- BPF_MAP_TYPE_HASH as an association list. Its `max_entries` is the `max` of `update`: with
-- BPF_ANY an existing key is overwritten, and a new key is refused when the map is full.
use Prim.Native.Nat.{ℕ, ◌≤◌}
use mathlib.Core.Path.{◌≡◌, refl}
use mathlib.Core.Bool.{Bool, true, false}
use mathlib.Core.List.{List, [], ◌∷◌}
use mathlib.Core.Option.{Option, none, some}
use native.Mathlib.Omega.{arith}
use scx_goland_core.Base.Tests.{ltb, ◌==◌, if◌then◌else◌, is_some}
use scx_goland_core.Base.Lists.{length}

module _ {V : Type 0} where
  unfoldable pub lookup : ℕ → List (ℕ × V) → Option V
  lookup k [] = none
  lookup k ((j, v) ∷ m) = if j == k then some v else lookup k m

  -- Overwrite the entry of an existing key.
  unfoldable pub replace : ℕ → V → List (ℕ × V) → List (ℕ × V)
  replace k v [] = []
  replace k v ((j, w) ∷ m) = if j == k then (k, v) ∷ m else (j, w) ∷ replace k v m

  -- bpf_map_update_elem(map, k, v, BPF_ANY)
  unfoldable pub update : ℕ → ℕ → V → List (ℕ × V) → List (ℕ × V)
  update max k v m =
      if is_some (lookup k m) then replace k v m else if ltb (length m) max then (k, v) ∷ m else m

  -- bpf_map_delete_elem(map, k); a missing key changes nothing.
  unfoldable pub delete : ℕ → List (ℕ × V) → List (ℕ × V)
  delete k [] = []
  delete k ((j, v) ∷ m) = if j == k then delete k m else (j, v) ∷ delete k m

  -- Whether `update` finds the key or room for it.
  abbrev pub fits : ℕ → ℕ → List (ℕ × V) → Bool
  fits max k m = if is_some (lookup k m) then true else ltb (length m) max

  pub lookup-replace :
      (k j : ℕ) (v : V) (m : List (ℕ × V))
      → lookup j (replace k v m)
        ≡ (if k == j then (if is_some (lookup k m) then some v else none) else lookup j m)
  unfolding lookup replace
  lookup-replace k j v [] = ground arith
  lookup-replace k j v ((i, w) ∷ m) = ground (arith, lookup-replace k j v m)

  pub lookup-update :
      (max k j : ℕ) (v : V) (m : List (ℕ × V))
      → fits max k m ≡ true
      → lookup j (update max k v m) ≡ (if k == j then some v else lookup j m)
  unfolding update lookup
  lookup-update max k j v m h = ground (arith, lookup-replace k j v m)

  pub update_full :
      (max k : ℕ) (v : V) (m : List (ℕ × V)) → fits max k m ≡ false → update max k v m ≡ m
  unfolding update
  update_full max k v m h = ground arith

  pub lookup-delete :
      (k j : ℕ) (m : List (ℕ × V)) → lookup j (delete k m) ≡ (if k == j then none else lookup j m)
  unfolding lookup delete
  lookup-delete k j [] = ground arith
  lookup-delete k j ((i, w) ∷ m) = ground (arith, lookup-delete k j m)

  length-replace : (k : ℕ) (v : V) (m : List (ℕ × V)) → length (replace k v m) ≡ length m
  unfolding replace
  length-replace k v [] = refl
  length-replace k v ((j, w) ∷ m) = ground (arith, length-replace k v m)

  pub length-update-le :
      (max k : ℕ) (v : V) (m : List (ℕ × V)) → length m ≤ max → length (update max k v m) ≤ max
  unfolding update
  length-update-le max k v m h = ground (arith, length-replace k v m)

  pub length-delete-le : (k : ℕ) (m : List (ℕ × V)) → length (delete k m) ≤ length m
  unfolding delete
  length-delete-le k [] = omega arith
  length-delete-le k ((j, w) ∷ m) = ground (arith, length-delete-le k m)
