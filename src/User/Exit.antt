-- ===== src/User/Exit.antt =====
-- goland_core/uei.go and main.go: the record of the scheduler's exit, and the loop in which main
-- waits for it.
pub mod RoundTrip
pub mod Watch
pub mod Noticed
use scx_goland_core.Base.{
  ℕ, zero, suc, ◌+◌, ◌≡◌, Bool, true, false, not, ◌&&◌, ◌||◌, Option, none, some, List, [], ◌∷◌,
  ◌++◌, length, take, drop, ltb, ◌==◌, if◌then◌else◌,
}
use scx_goland_core.Wrapper.Uei.{uei_reason_len, uei_msg_len}
use scx_goland_core.User.Message.{Bytes, uint32, uint64}

-- The Go struct, in which the padding is a field.
pub record UserExitInfo : Type 0 where
  pub kind : ℕ
  pub paid : ℕ
  pub exit_code : ℕ
  pub reason : Bytes
  pub message : Bytes

-- binary.Size(UserExitInfo{})
abbrev pub uei_size : ℕ
uei_size = 1168

-- binary.Read, little endian: an error if there are too few bytes; the bytes behind are left alone.
unfoldable pub read_uei : Bytes → Option UserExitInfo
read_uei b =
    if ltb (length b) uei_size
    then none
    else some (record {
      kind = uint32 b 0;
      paid = uint32 b 4;
      exit_code = uint64 b 8;
      reason = take uei_reason_len (drop 16 b);
      message = take uei_msg_len (drop 144 b);
    })

-- Whether the map was found, and the bytes of its first value; `none` is the error of GetValue.
unfoldable pub get_uei_data : Bool → Option Bytes → Option UserExitInfo
get_uei_data false value = none
get_uei_data true none = none
get_uei_data true (some b) = read_uei b

abbrev pub has_exited : Option UserExitInfo → Bool
has_exited none = true
has_exited (some uei) = not (uei.kind == 0) || not (uei.exit_code == 0)

unfoldable pub stopped : Bool → Option Bytes → Bool
stopped found value = has_exited (get_uei_data found value)

-- C.GoString: the bytes before the first 0. `none` would read on behind the bytes given.
abbrev pub go_string : Bytes → Option Bytes
go_string [] = none
go_string (c ∷ cs) = let rest = go_string cs in if c == 0 then some [] else cons c rest
  where
    cons : ℕ → Option Bytes → Option Bytes
    cons c none = none
    cons c (some s) = some (c ∷ s)

-- The string starts in Reason, and goes on into Message if Reason has no 0.
unfoldable pub get_reason : UserExitInfo → Option Bytes
get_reason uei = go_string (uei.reason ++ uei.message)

unfoldable pub get_message : UserExitInfo → Option Bytes
get_message uei = go_string uei.message

-- What the select of main receives: a signal, or a tick of the timer, with what the map holds then.
pub data WatchEvent : Type 0 where
  signal : WatchEvent
  tick : (value : Option Bytes) → WatchEvent

-- How the loop of main stands after some events: it goes on, or it has ended. The dump by bpftool, and
-- whether it fails, changes nothing of this.
pub data Watching : Type 0 where
  watching : Watching
  signalled : Watching
  ended : Watching

abbrev pub watch_event : Bool → WatchEvent → Watching
watch_event found signal = signalled
watch_event found (tick value) = if stopped found value then ended else watching

-- `for cont { select … }`
unfoldable pub watch : Bool → List WatchEvent → Watching
watch found [] = watching
watch found (e ∷ events) = go (watch_event found e) (watch found events)
  where
    go : Watching → Watching → Watching
    go watching rest = rest
    go signalled rest = signalled
    go ended rest = ended
