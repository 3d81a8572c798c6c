-- ===== src/User/Start/Found.antt =====
-- rodata.go against main.bpf.c: which tasks the two PIDs name after the set-up.
use scx_goland_core.Base.{
  ℕ, ◌^◌, ◌<◌, ◌≡◌, refl, arith, ◌==◌, Bool, true, false, not, ◌&&◌, Option, none, some, List, [],
  ◌∷◌, ◌++◌, ◌⊎◌, inl, inr, ap, ◌∙◌, is_some, if◌then◌else◌,
}
use scx_goland_core.Kernel.Types.{Task}
use scx_goland_core.Bpf.State.{World}
use scx_goland_core.Bpf.Basic.{is_usersched_task, is_belong_usersched_task, is_khugepaged}
use scx_goland_core.Wrapper.{
  set_usersched_pid, set_kugepagepid, set_debug, set_builtin_idle, through,
}
use scx_goland_core.User.Message.{Bytes}
use scx_goland_core.User.Text.{atoi, trim_space, eq_bytes}
use scx_goland_core.User.Text.Decimal.{decimal, atoi-decimal, number-decimal}
use scx_goland_core.User.Text.Lists.{trim_space-end}
use scx_goland_core.User.Start.{
  ProcEntry, khugepaged, u32, parse_uint32, is_candidate, khugepage_pid_in, khugepage_pid,
  assign_user_sched_pid, set_up,
}

-- A process: its PID, its name, and whether it is a thread of the kernel, which has no executable.
pub record Process : Type 0 where
  pub pid : ℕ
  pub comm : Bytes
  pub of_kernel : Bool

-- proc(5): a directory with the PID in decimal, and `comm` with a newline at its end.
abbrev pub proc_entry : Process → ProcEntry
proc_entry p = record {
  name = decimal p.pid;
  is_dir = true;
  comm = some (p.comm ++ (10 ∷ []));
  has_exe = not p.of_kernel;
}

-- What /proc lists: processes, and other entries such as /proc/sys.
abbrev pub Listing : Type 0
Listing = List (Process ⊎ ProcEntry)

abbrev pub entries : Listing → List ProcEntry
entries [] = []
entries (inl p ∷ l) = proc_entry p ∷ entries l
entries (inr e ∷ l) = e ∷ entries l

abbrev pub entries_read : Option Listing → Option (List ProcEntry)
entries_read none = none
entries_read (some l) = some (entries l)

-- The PID of a process fits, and its name does not begin or end with white space; the name of another
-- entry is no number, or it is no directory.
abbrev pub AreListed : Listing → Type 0
AreListed [] = Unit
AreListed (inl p ∷ l) = (p.pid < 2 ^ 32) × (trim_space p.comm ≡ p.comm) × AreListed l
AreListed (inr e ∷ l) = ((e.is_dir && is_some (atoi e.name)) ≡ false) × AreListed l

abbrev pub AreRead : Option Listing → Type 0
AreRead none = Unit
AreRead (some l) = AreListed l

-- The PID of the first thread of the kernel with the name khugepaged, or 0.
abbrev pub first_khugepaged : Listing → ℕ
first_khugepaged [] = 0
first_khugepaged (inl p ∷ l) =
    let rest = first_khugepaged l in
    if eq_bytes p.comm khugepaged && p.of_kernel then p.pid else rest
first_khugepaged (inr e ∷ l) = first_khugepaged l

abbrev pub khugepaged_read : Option Listing → ℕ
khugepaged_read none = 0
khugepaged_read (some l) = first_khugepaged l

parse_uint32-decimal : (n : ℕ) → n < 2 ^ 32 → parse_uint32 (decimal n) ≡ some n
parse_uint32-decimal n h = rw (number-decimal n) (ground arith)

-- The tests of the loop, at the entry of a process.
is_candidate-proc_entry :
    (p : Process)
    → p.pid < 2 ^ 32
    → trim_space p.comm ≡ p.comm
    → is_candidate (proc_entry p) ≡ (eq_bytes p.comm khugepaged && p.of_kernel)
is_candidate-proc_entry p small visible =
    rw (atoi-decimal p.pid (omega arith), trim_space-end 10 p.comm refl, visible) (ground arith)

khugepage_pid_in-process :
    (p : Process) (es : List ProcEntry)
    → p.pid < 2 ^ 32
    → trim_space p.comm ≡ p.comm
    → khugepage_pid_in (proc_entry p ∷ es)
      ≡ (if eq_bytes p.comm khugepaged && p.of_kernel then p.pid else khugepage_pid_in es)
unfolding khugepage_pid_in
khugepage_pid_in-process p es small visible =
    rw (is_candidate-proc_entry p small visible, parse_uint32-decimal p.pid small) refl

khugepage_pid_in-other :
    (e : ProcEntry) (es : List ProcEntry)
    → (e.is_dir && is_some (atoi e.name)) ≡ false
    → khugepage_pid_in (e ∷ es) ≡ khugepage_pid_in es
unfolding khugepage_pid_in
khugepage_pid_in-other e es h = ground arith

khugepage_pid_in-first :
    (l : Listing) → AreListed l → khugepage_pid_in (entries l) ≡ first_khugepaged l
unfolding khugepage_pid_in
khugepage_pid_in-first [] h = refl
khugepage_pid_in-first (inl p ∷ l) (small, visible, h) =
    khugepage_pid_in-process p (entries l) small visible
    ∙ ap (λ n. if eq_bytes p.comm khugepaged && p.of_kernel then p.pid else n)
        (khugepage_pid_in-first l h)
khugepage_pid_in-first (inr e ∷ l) (other, h) =
    khugepage_pid_in-other e (entries l) other ∙ khugepage_pid_in-first l h

first_khugepaged-lt : (l : Listing) → AreListed l → first_khugepaged l < 2 ^ 32
first_khugepaged-lt [] h = omega arith
first_khugepaged-lt (inl p ∷ l) (small, visible, h) = ground (arith, first_khugepaged-lt l h)
first_khugepaged-lt (inr e ∷ l) (other, h) = first_khugepaged-lt l h

khugepage_pid-read :
    (l : Option Listing) → AreRead l → khugepage_pid (entries_read l) ≡ khugepaged_read l
unfolding khugepage_pid
khugepage_pid-read none h = refl
khugepage_pid-read (some l) h = khugepage_pid_in-first l h

khugepaged_read-lt : (l : Option Listing) → AreRead l → khugepaged_read l < 2 ^ 32
khugepaged_read-lt none h = omega arith
khugepaged_read-lt (some l) h = first_khugepaged-lt l h

-- The set-up, as main.bpf.c sees it.
pub record SetUp (found pid : ℕ) (w v : World) (p : Task) : Type 0 where
  pub scheduler : is_usersched_task v.ro p ≡ (p.pid == pid)
  pub thread : is_belong_usersched_task v.ro p ≡ (p.tgid == pid)
  pub huge_pages : is_khugepaged v.ro p ≡ (not (found == 0) && p.pid == found)
  pub settings : v.ro ≡ record (w.ro) {
    usersched_pid = pid;
    khugepaged_pid = found;
    debug = true;
    builtin_idle = true;
  }
  pub rest_same : v ≡ record w { ro = v.ro }

-- Where /proc lists processes as proc(5) says, or cannot be read: after the set-up of main with its own
-- PID, main.bpf.c takes exactly the task with this PID for the user-space scheduler, exactly the tasks of
-- its thread group for threads of it, and for khugepaged the task with the PID of the first thread of the
-- kernel that has this name, or none if there is none; debugging and the idle selection of the kernel are
-- on, and nothing else has changed.
pub set_up-SetUp :
    (l : Option Listing) (pid : ℕ) (w : World) (p : Task)
    → AreRead l
    → pid < 2 ^ 31
    → SetUp (khugepaged_read l) pid w (through (set_up (entries_read l) pid) w) p
unfolding set_up assign_user_sched_pid set_usersched_pid set_kugepagepid set_debug set_builtin_idle
    is_usersched_task is_belong_usersched_task is_khugepaged
set_up-SetUp l pid w p h small =
    let same : u32 (khugepage_pid (entries_read l)) ≡ khugepaged_read l =
      rw (khugepage_pid-read l h) (omega (arith, khugepaged_read-lt l h)) in
    let own : u32 pid ≡ pid = omega arith in
    record {
      scheduler = rw own refl;
      thread = rw own refl;
      huge_pages = rw same refl;
      settings = rw (same, own) refl;
      rest_same = refl;
    }
