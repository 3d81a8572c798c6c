-- ===== src/Tests/Host.antt =====
-- The channels, the counter, the set-up and the end of the Go half at concrete inputs.
use scx_goland_core.Base.{
  ℕ, ◌≡◌, ◌≤◌, ◌+◌, ◌++◌, refl, arith, true, false, none, some, List, [], ◌∷◌, inl, inr, replicate,
  length-replicate,
}
use scx_goland_core.Wrapper.{through}
use scx_goland_core.Wrapper.Race
use scx_goland_core.Wrapper.Race.{Counting, at_start, idle, open_calls, nr_queued-drift}
use scx_goland_core.User.Message.{Bytes}
use scx_goland_core.User.Sched.{Sched}
use scx_goland_core.User.Channel.{
  Channels, Steps, fresh_channels, here, next, arrive, block, look, put_back, running, blocked,
  holding,
}
use scx_goland_core.User.Channel.Kept.{Kept, Steps-Kept}
use scx_goland_core.User.Channel.Jam.{filled, Steps-Jammed}
use scx_goland_core.User.Channel.Calls.{enter, wait, Returned, Waits-Returned}
use scx_goland_core.User.Start.{set_up}
use scx_goland_core.User.Start.Found.{Listing, entries_read, SetUp, set_up-SetUp}
use scx_goland_core.Wrapper.Uei.{uei_bytes}
use scx_goland_core.User.Exit.RoundTrip.{exit_record, ReadAs, get_uei_data-uei_bytes}
use scx_goland_core.Tests.Data.{running_world, worker}

abbrev message : ℕ → Bytes
message n = n ∷ []

-- Two messages have come in, and the first is held while a third comes in.
abbrev two_in : Channels
two_in = record fresh_channels {
  queue = message 1 ∷ message 2 ∷ [];
  arrived = message 1 ∷ message 2 ∷ [];
  place = blocked;
}

abbrev two_in-Steps : Steps fresh_channels two_in
two_in-Steps =
    next (next (next here (arrive (message 1) refl)) (arrive (message 2) refl)) (block refl)

abbrev put_behind : Channels
put_behind = record two_in {
  queue = message 2 ∷ message 3 ∷ message 1 ∷ [];
  arrived = message 1 ∷ message 2 ∷ message 3 ∷ [];
  place = running;
}

Steps-Kept_example : Kept put_behind
Steps-Kept_example = Steps-Kept (
    next (next (next two_in-Steps (look (message 1) (inr refl) refl)) (arrive (message 3) refl))
      (put_back (message 1) refl refl))

abbrev idle_sched : Sched
idle_sched = record {
  queue = [];
  dispatch = [];
  has_select_cpu = true;
  has_preempt_cpu = true;
  has_sibling_cpu = true;
  world = running_world;
}

Waits-Returned_example : (late : List Bytes) × Returned two_in put_behind late idle_sched
Waits-Returned_example =
    Waits-Returned idle_sched refl
      (wait
        (wait (wait enter (ground arith) (look (message 1) (inr refl) refl)) (ground arith)
          (arrive (message 3) refl))
        (ground arith) (put_back (message 1) refl refl))
      refl

abbrev many : List Bytes
many = replicate 4095 (message 9)

abbrev stuck : Channels
stuck = filled (message 1) (message 2 ∷ []) many two_in

Steps-Jammed_example :
    Steps two_in stuck
    × (stuck.place ≡ holding (message 1))
    × (stuck.queue ≡ (message 2 ∷ []) ++ many)
    × (stuck.taken ≡ two_in.taken)
    × (stuck.ordered ≡ two_in.ordered)
Steps-Jammed_example =
    Steps-Jammed two_in (message 1) (message 2 ∷ []) many (inr refl) refl
      (omega (arith, length-replicate 4095 (message 9))) here

-- A count falls between the read and the write of the decrement, and is lost: a message waits, and the
-- counter is 0.
abbrev one_lost : Counting
one_lost = record at_start { waiting = 1; submitted = 2; subtracted = 1; lost = 1 }

abbrev one_lost-Steps : Race.Steps at_start one_lost
one_lost-Steps =
    Race.next
      (Race.next
        (Race.next
          (Race.next
            (Race.next
              (Race.next (Race.next (Race.next Race.here Race.submit) (Race.count (omega arith)))
                (Race.take refl (omega arith)))
              (Race.test refl))
            (Race.read refl))
          Race.submit)
        (Race.count (omega arith)))
      (Race.write 1 refl)

nr_queued-drift_example : (0 ≤ 2) × (0 + 1 + 0 ≡ 1 + open_calls idle + 0)
nr_queued-drift_example = nr_queued-drift one_lost-Steps (omega arith)

-- /proc with "1", "sys", and "42", the thread of the kernel
abbrev listed : Listing
listed =
    inl (record { pid = 1; comm = 105 ∷ 110 ∷ []; of_kernel = false })
    ∷ inr (record { name = 115 ∷ 121 ∷ 115 ∷ []; is_dir = true; comm = none; has_exe = false })
    ∷ inl (record {
      pid = 42;
      comm = 107 ∷ 104 ∷ 117 ∷ 103 ∷ 101 ∷ 112 ∷ 97 ∷ 103 ∷ 101 ∷ 100 ∷ [];
      of_kernel = true;
    })
    ∷ []

set_up-SetUp_example :
    SetUp 42 100 running_world
      (through (set_up (entries_read (some listed)) 100) running_world)
      worker
set_up-SetUp_example =
    set_up-SetUp (some listed) 100 running_world worker
      ((omega arith, refl, (refl, (omega arith, refl, tt)))) (omega arith)

-- "ok" with the code 64, in arrays that are full
get_uei_data-uei_bytes_example :
    ReadAs
      (exit_record 1 64 (111 ∷ 107 ∷ []) (replicate 125 0) [] (replicate 1023 0))
      (111 ∷ 107 ∷ [])
      []
      (uei_bytes
          (exit_record 1 64 (111 ∷ 107 ∷ []) (replicate 125 0) [] (replicate 1023 0))
          (0 ∷ 0 ∷ 0 ∷ 0 ∷ [])
        ++ (5 ∷ []))
get_uei_data-uei_bytes_example =
    get_uei_data-uei_bytes 1 64 (111 ∷ 107 ∷ []) (replicate 125 0) [] (replicate 1023 0)
      (0 ∷ 0 ∷ 0 ∷ 0 ∷ []) (5 ∷ [])
      (record {
        kind_fits = omega arith;
        code_fits = omega arith;
        reason_full = omega (arith, length-replicate {A = ℕ} 125 0);
        msg_full = omega (arith, length-replicate {A = ℕ} 1023 0);
      })
      ((refl, (refl, tt))) tt refl
