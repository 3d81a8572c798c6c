-- ===== src/User/Start.antt =====
-- goland_core/rodata.go and main.go: the search for khugepaged, and the settings that main writes before
-- it loads the program.
pub mod Found
use scx_goland_core.Base.{
  ℕ, ◌%◌, ◌^◌, ◌≡◌, Bool, true, false, not, ◌&&◌, Option, none, some, List, [], ◌∷◌, ltb,
  if◌then◌else◌, is_some,
}
use scx_goland_core.Wrapper.{
  Skeleton, set_usersched_pid, set_kugepagepid, set_early_processing, set_default_slice, set_debug,
  set_builtin_idle,
}
use scx_goland_core.User.Message.{Bytes}
use scx_goland_core.User.Text.{atoi, number, below, trim_space, eq_bytes}

-- An entry of /proc: its name, entry.IsDir(), what os.ReadFile gives for its `comm` (none is an error), and
-- whether os.Readlink finds its `exe`.
pub record ProcEntry : Type 0 where
  pub name : Bytes
  pub is_dir : Bool
  pub comm : Option Bytes
  pub has_exe : Bool

-- "khugepaged"
abbrev pub khugepaged : Bytes
khugepaged = 107 ∷ 104 ∷ 117 ∷ 103 ∷ 101 ∷ 112 ∷ 97 ∷ 103 ∷ 101 ∷ 100 ∷ []

-- strconv.ParseUint(s, 10, 32)
abbrev pub parse_uint32 : Bytes → Option ℕ
parse_uint32 s = below (2 ^ 32) (number s)

abbrev pub named_khugepaged : Option Bytes → Bool
named_khugepaged none = false
named_khugepaged (some data_read) = eq_bytes (trim_space data_read) khugepaged

-- The tests of one round of the loop, before the last: none of them continues. A name with a minus sign
-- passes Atoi, which has none here, but not ParseUint, so that the round has no effect either way.
abbrev pub is_candidate : ProcEntry → Bool
is_candidate e = e.is_dir && (is_some (atoi e.name) && (named_khugepaged e.comm && not e.has_exe))

abbrev pub pid_or : Option ℕ → ℕ → ℕ
pid_or none rest = rest
pid_or (some pid) rest = pid

unfoldable pub khugepage_pid_in : List ProcEntry → ℕ
khugepage_pid_in [] = 0
khugepage_pid_in (e ∷ entries) =
    let rest = khugepage_pid_in entries in
    if is_candidate e then pid_or (parse_uint32 e.name) rest else rest

-- `none` is the error of os.ReadDir.
unfoldable pub khugepage_pid : Option (List ProcEntry) → ℕ
khugepage_pid none = 0
khugepage_pid (some entries) = khugepage_pid_in entries

-- C.u32 of an int that is not negative
abbrev pub u32 : ℕ → ℕ
u32 n = n % 2 ^ 32

unfoldable pub assign_user_sched_pid : Option (List ProcEntry) → ℕ → Skeleton → Skeleton
assign_user_sched_pid entries pid s =
    set_usersched_pid (u32 pid) (set_kugepagepid (u32 (khugepage_pid entries)) s)

-- main, from os.Getpid to the last setting before Start.
unfoldable pub set_up : Option (List ProcEntry) → ℕ → Skeleton → Skeleton
set_up entries pid s = set_builtin_idle true (set_debug true (assign_user_sched_pid entries pid s))
