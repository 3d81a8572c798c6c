-- ===== src/Intf.antt =====
-- intf.h: the limits and the messages that main.bpf.c and the user-space scheduler share.
use Prim.Native.Nat.{ℕ, ◌^◌}

abbrev pub max_cpus : ℕ
max_cpus = 1024

abbrev pub rl_cpu_any : ℕ
rl_cpu_any = 2 ^ 20

-- u64 literals of the header
abbrev pub nsec_per_sec : ℕ
nsec_per_sec = 1000000000

pub record TaskCpuArg : Type 0 where
  pub pid : ℕ
  pub cpu : ℕ
  pub flags : ℕ

pub record DomainArg : Type 0 where
  pub lvl_id : ℕ
  pub cpu_id : ℕ
  pub sibling_cpu_id : ℕ

pub record PreemptCpuArg : Type 0 where
  pub cpu_id : ℕ

-- Sent by the BPF dispatcher to the user-space scheduler.
pub record QueuedTaskCtx : Type 0 where
  pub pid : ℕ
  pub cpu : ℕ
  pub nr_cpus_allowed : ℕ
  pub flags : ℕ
  pub start_ts : ℕ
  pub stop_ts : ℕ
  pub exec_runtime : ℕ
  pub weight : ℕ
  pub vtime : ℕ
  pub tgid : ℕ

-- Sent by the user-space scheduler to the BPF dispatcher.
pub record DispatchedTaskCtx : Type 0 where
  pub pid : ℕ
  pub cpu : ℕ
  pub flags : ℕ
  pub slice_ns : ℕ
  pub vtime : ℕ
