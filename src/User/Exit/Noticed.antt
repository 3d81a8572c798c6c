-- ===== src/User/Exit/Noticed.antt =====
-- main.bpf.c, uei.go and main.go: the end of the scheduler, from the exit callback to the loop of main.
use scx_goland_core.Base.{
  ℕ, zero, suc, ◌≡◌, ◌≢◌, ◌⊎◌, refl, arith, true, false, Option, some, List, [], ◌∷◌, ◌++◌, length,
  replicate,
}
use scx_goland_core.Bpf.Exit.{ScxExitInfo, UeiMacros, goland_exit}
use scx_goland_core.Wrapper.Uei.{UserExitInfoC, uei_bytes}
use scx_goland_core.User.Message.{Bytes}
use scx_goland_core.User.Exit.{WatchEvent, tick, watching, ended, watch, stopped}
use scx_goland_core.User.Exit.RoundTrip.{ExitFits, stopped-uei_bytes}
use scx_goland_core.User.Exit.Watch.{ticks, Quiet, watch-ticks}

-- The map at a tick, with the record `i` at its start.
abbrev pub map_value : UserExitInfoC → Bytes → Bytes → Option Bytes
map_value i padding rest = some (uei_bytes i padding ++ rest)

Quiet-replicate :
    (n : ℕ) (value : Option Bytes) → stopped true value ≡ false → Quiet true (replicate n value)
Quiet-replicate zero value q = tt
Quiet-replicate (suc n) value q = (q, Quiet-replicate n value q)

-- The exit callback is called with a kind or a code that is not 0, and UEI_RECORD stores both, as the scx
-- headers say: as long as the record is zero, the loop of main goes on over any number of ticks; the first
-- tick after the callback ends it, whatever the padding of the record, what follows it in the map, and
-- what comes later.
pub goland_exit-noticed :
    ⦃u : UeiMacros⦄ (n : ℕ) (ei : ScxExitInfo) (uei : UserExitInfoC) (padding rest : Bytes)
    (later : List WatchEvent)
    → ((u.uei_record uei ei).kind ≡ ei.kind)
    → ((u.uei_record uei ei).exit_code ≡ ei.exit_code)
    → ExitFits uei
    → ExitFits (u.uei_record uei ei)
    → (uei.kind ≡ 0) × (uei.exit_code ≡ 0)
    → (ei.kind ≢ 0) ⊎ (ei.exit_code ≢ 0)
    → length padding ≡ 4
    → let before = replicate n (map_value uei padding rest) in
      (watch true (ticks before []) ≡ watching)
      × (watch true (ticks before (tick (map_value (goland_exit ei uei) padding rest) ∷ later))
          ≡ ended)
unfolding goland_exit watch
goland_exit-noticed ⦃u⦄ n ei uei padding rest later kind code fits fits' z nz four =
    let quiet : stopped true (map_value uei padding rest) ≡ false =
      ground (arith, stopped-uei_bytes uei padding rest fits four) in
    let qs = Quiet-replicate n (map_value uei padding rest) quiet in
    let stops : stopped true (map_value (u.uei_record uei ei) padding rest) ≡ true =
      ground (arith, stopped-uei_bytes (u.uei_record uei ei) padding rest fits' four) in
    (
      watch-ticks true (replicate n (map_value uei padding rest)) [] qs,
      rw
          (
            watch-ticks true (replicate n (map_value uei padding rest))
                (tick (map_value (u.uei_record uei ei) padding rest) ∷ later) qs,
            stops,
          )
          refl,
    )
