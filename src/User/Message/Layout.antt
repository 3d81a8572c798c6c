-- ===== src/User/Message/Layout.antt =====
-- intf.h: the two messages as C lays them out in the memory of a little-endian 64-bit machine.
use scx_goland_core.Base.{ℕ, ◌++◌, Option, none, some, length, ltb, if◌then◌else◌}
use scx_goland_core.Intf.{QueuedTaskCtx, DispatchedTaskCtx}
use scx_goland_core.User.Message.{Bytes, uint32, uint64, put_uint32, put_uint64}

-- `struct queued_task_ctx`: C's alignment leaves four bytes of padding after the last field.
abbrev pub queued_bytes : QueuedTaskCtx → Bytes → Bytes
queued_bytes m padding =
    put_uint32 m.pid
    ++ (put_uint32 m.cpu
        ++ (put_uint64 m.nr_cpus_allowed
            ++ (put_uint64 m.flags
                ++ (put_uint64 m.start_ts
                    ++ (put_uint64 m.stop_ts
                        ++ (put_uint64 m.exec_runtime
                            ++ (put_uint64 m.weight
                                ++ (put_uint64 m.vtime ++ (put_uint32 m.tgid ++ padding)))))))))

-- sizeof(struct dispatched_task_ctx)
abbrev pub dispatched_task_size : ℕ
dispatched_task_size = 32

-- `task = bpf_dynptr_data(dynptr, 0, sizeof(*task));` on a sample: NULL if the sample is shorter.
unfoldable pub dispatched_sample : Bytes → Option DispatchedTaskCtx
dispatched_sample bytes =
    if ltb (length bytes) dispatched_task_size
    then none
    else some (record {
      pid = uint32 bytes 0;
      cpu = uint32 bytes 4;
      flags = uint64 bytes 8;
      slice_ns = uint64 bytes 16;
      vtime = uint64 bytes 24;
    })
