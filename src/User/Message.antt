-- ===== src/User/Message.antt =====
-- goland_core/task.go: the messages of the two ring buffers, as values and as bytes. A byte slice is
-- a list of numbers below 256. An int32 is its bit pattern.
pub mod Layout
pub mod RoundTrip
use scx_goland_core.Base.{
  ℕ, zero, suc, ◌+◌, ◌*◌, ◌/◌, ◌%◌, ◌^◌, List, [], ◌∷◌, ◌++◌, Option, none, some, length, get_or,
  replicate, ltb, if◌then◌else◌,
}

pub record QueuedTask : Type 0 where
  pub pid : ℕ
  pub cpu : ℕ
  pub nr_cpus_allowed : ℕ
  pub flags : ℕ
  pub start_ts : ℕ
  pub stop_ts : ℕ
  pub sum_exec_runtime : ℕ
  pub weight : ℕ
  pub vtime : ℕ
  pub tgid : ℕ

pub record DispatchedTask : Type 0 where
  pub pid : ℕ
  pub cpu : ℕ
  pub flags : ℕ
  pub slice_ns : ℕ
  pub vtime : ℕ
  pub cpu_mask_cnt : ℕ

abbrev pub new_dispatched_task : QueuedTask → DispatchedTask
new_dispatched_task task = record {
  pid = task.pid;
  cpu = task.cpu;
  flags = task.flags;
  slice_ns = 0;
  vtime = 0;
  cpu_mask_cnt = 0;
}

abbrev pub Bytes : Type 0
Bytes = List ℕ

-- binary.LittleEndian.Uint32(data[i:i+4]) and Uint64(data[i:i+8])
abbrev pub uint32 : Bytes → ℕ → ℕ
uint32 bytes i =
    get_or bytes i 0
    + 2 ^ 8 * get_or bytes (i + 1) 0
    + 2 ^ 16 * get_or bytes (i + 2) 0
    + 2 ^ 24 * get_or bytes (i + 3) 0

abbrev pub uint64 : Bytes → ℕ → ℕ
uint64 bytes i = uint32 bytes i + 2 ^ 32 * uint32 bytes (i + 4)

-- binary.LittleEndian.PutUint32 and PutUint64
abbrev pub put_uint32 : ℕ → Bytes
put_uint32 x = x % 256 ∷ x / 2 ^ 8 % 256 ∷ x / 2 ^ 16 % 256 ∷ x / 2 ^ 24 % 256 ∷ []

abbrev pub put_uint64 : ℕ → Bytes
put_uint64 x = put_uint32 x ++ put_uint32 (x / 2 ^ 32)

-- unsafe.Sizeof(QueuedTask{}): the last field is padded to eight bytes.
abbrev pub queued_task_size : ℕ
queued_task_size = 72

-- `none` is the error of a slice that is too short.
unfoldable pub fast_decode : Bytes → Option QueuedTask
fast_decode bytes =
    if ltb (length bytes) queued_task_size
    then none
    else some (record {
      pid = uint32 bytes 0;
      cpu = uint32 bytes 4;
      nr_cpus_allowed = uint64 bytes 8;
      flags = uint64 bytes 16;
      start_ts = uint64 bytes 24;
      stop_ts = uint64 bytes 32;
      sum_exec_runtime = uint64 bytes 40;
      weight = uint64 bytes 48;
      vtime = uint64 bytes 56;
      tgid = uint32 bytes 64;
    })

-- 64 bytes, of which the last 24 are never written.
unfoldable pub fast_encode : DispatchedTask → Bytes
fast_encode t =
    put_uint32 t.pid
    ++ (put_uint32 t.cpu
        ++ (put_uint64 t.flags
            ++ (put_uint64 t.slice_ns
                ++ (put_uint64 t.vtime ++ (put_uint64 t.cpu_mask_cnt ++ replicate 24 0)))))
