-- ===== src/User/Message/RoundTrip.antt =====
-- goland_core/task.go against intf.h: what one half writes, the other half reads.
use scx_goland_core.Base.{◌^◌, ◌<◌, ◌≡◌, none, some, arith, length, ltb, if◌then◌else◌}
use scx_goland_core.Intf.{QueuedTaskCtx}
use scx_goland_core.User.Message.{QueuedTask, DispatchedTask, Bytes, fast_decode, fast_encode}
use scx_goland_core.User.Message.Layout.{queued_bytes, dispatched_sample}

-- The values of the C types.
pub record QueuedFits (m : QueuedTaskCtx) : Type 0 where
  pub pid_fits : m.pid < 2 ^ 32
  pub cpu_fits : m.cpu < 2 ^ 32
  pub cpus_fits : m.nr_cpus_allowed < 2 ^ 64
  pub flags_fits : m.flags < 2 ^ 64
  pub start_fits : m.start_ts < 2 ^ 64
  pub stop_fits : m.stop_ts < 2 ^ 64
  pub runtime_fits : m.exec_runtime < 2 ^ 64
  pub weight_fits : m.weight < 2 ^ 64
  pub vtime_fits : m.vtime < 2 ^ 64
  pub tgid_fits : m.tgid < 2 ^ 32

abbrev pub queued_task : QueuedTaskCtx → QueuedTask
queued_task m = record {
  pid = m.pid;
  cpu = m.cpu;
  nr_cpus_allowed = m.nr_cpus_allowed;
  flags = m.flags;
  start_ts = m.start_ts;
  stop_ts = m.stop_ts;
  sum_exec_runtime = m.exec_runtime;
  weight = m.weight;
  vtime = m.vtime;
  tgid = m.tgid;
}

-- The message that main.bpf.c submits is read by user space with each field as it was sent,
-- whatever the four bytes of padding hold; with less padding, user space refuses the message.
pub fast_decode-queued_bytes :
    (m : QueuedTaskCtx) (padding : Bytes)
    → QueuedFits m
    → fast_decode (queued_bytes m padding)
      ≡ (if ltb (length padding) 4 then none else some (queued_task m))
unfolding fast_decode
fast_decode-queued_bytes m padding h = ground arith

-- The values of the Go types, for the fields that the other half reads.
pub record DispatchedFits (t : DispatchedTask) : Type 0 where
  pub pid_fits : t.pid < 2 ^ 32
  pub cpu_fits : t.cpu < 2 ^ 32
  pub flags_fits : t.flags < 2 ^ 64
  pub slice_fits : t.slice_ns < 2 ^ 64
  pub vtime_fits : t.vtime < 2 ^ 64

-- What user space dispatches is long enough for the BPF half and is read there with each field as it
-- was written, and with no trace of the private counter.
pub dispatched_sample-fast_encode :
    (t : DispatchedTask)
    → DispatchedFits t
    → dispatched_sample (fast_encode t)
      ≡ some (record {
        pid = t.pid;
        cpu = t.cpu;
        flags = t.flags;
        slice_ns = t.slice_ns;
        vtime = t.vtime;
      })
unfolding dispatched_sample fast_encode
dispatched_sample-fast_encode t h = ground arith
