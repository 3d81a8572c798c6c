-- ===== src/User/Exit/Watch.antt =====
-- main.go: when the loop that waits for the end of the scheduler ends.
use scx_goland_core.Base.{
  ◌≡◌, refl, ap, Bool-cases, inl, inr, Bool, true, false, Option, List, [], ◌∷◌,
}
use scx_goland_core.User.Message.{Bytes}
use scx_goland_core.User.Exit.{
  WatchEvent, signal, tick, Watching, watching, signalled, ended, watch, stopped,
}

-- Ticks at which nothing is found.
abbrev pub Quiet : Bool → List (Option Bytes) → Type 0
Quiet found [] = Unit
Quiet found (value ∷ values) = (stopped found value ≡ false) × Quiet found values

abbrev pub ticks : List (Option Bytes) → List WatchEvent → List WatchEvent
ticks [] rest = rest
ticks (value ∷ values) rest = tick value ∷ ticks values rest

pub watch-ticks :
    (found : Bool) (values : List (Option Bytes)) (rest : List WatchEvent)
    → Quiet found values
    → watch found (ticks values rest) ≡ watch found rest
unfolding watch
watch-ticks found [] rest q = refl
watch-ticks found (value ∷ values) rest (q, qs) = rw (q, watch-ticks found values rest qs) refl

-- What has come in, by how the loop stands.
abbrev pub Watched : Bool → List WatchEvent → Watching → Type 0
Watched found events watching =
    (values : List (Option Bytes)) × Quiet found values × (events ≡ ticks values [])
Watched found events signalled =
    (values : List (Option Bytes)) × (later : List WatchEvent) × Quiet found values
    × (events ≡ ticks values (signal ∷ later))
Watched found events ended =
    (values : List (Option Bytes)) × (value : Option Bytes) × (later : List WatchEvent) × Quiet
      found values
    × (stopped found value ≡ true)
    × (events ≡ ticks values (tick value ∷ later))

Watched-tick :
    (found : Bool) (value : Option Bytes) (events : List WatchEvent) (w : Watching)
    → stopped found value ≡ false
    → Watched found events w
    → Watched found (tick value ∷ events) w
Watched-tick found value events watching q (vs, qs, e) =
    (value ∷ vs, (q, qs), ap (◌∷◌ (tick value)) e)
Watched-tick found value events signalled q (vs, later, qs, e) =
    (value ∷ vs, later, (q, qs), ap (◌∷◌ (tick value)) e)
Watched-tick found value events ended q (vs, last, later, qs, st, e) =
    (value ∷ vs, last, later, (q, qs), st, ap (◌∷◌ (tick value)) e)

-- The loop of main goes on as long as there have been ticks alone at which the scheduler had not stopped;
-- it ends by the first signal, or by the first tick at which it has stopped, whichever comes first, and
-- nothing that comes later matters.
pub watch-Watched :
    (found : Bool) (events : List WatchEvent) → Watched found events (watch found events)
unfolding watch
watch-Watched found [] = ([], tt, refl)
watch-Watched found (signal ∷ events) = ([], events, tt, refl)
watch-Watched found (tick value ∷ events) = elim (Bool-cases (stopped found value)) [
  | inl st ↦ rw st ([], value, events, tt, st, refl)
  | inr q ↦
      rw q (Watched-tick found value events (watch found events) q (watch-Watched found events))
]
