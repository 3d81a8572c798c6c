-- ===== src/Wrapper/Race.antt =====
-- wrapper.c: sub_nr_queued against the atomic count of goland_enqueue. User space reads `nr_queued` for its
-- test, reads it again and writes it back, and other CPUs send and count messages in between.
use scx_goland_core.Base.{
  ℕ, suc, ◌+◌, ◌-◌, ◌≤◌, ◌<◌, ◌≡◌, refl, sym, subst, arith, ◌^◌, ◌==◌, if◌then◌else◌, Bool-cases,
  inl, inr,
}
use scx_goland_core.Base.Word.{add64, sub64}
use scx_goland_core.Wrapper.{Skeleton, sub_nr_queued}

-- Where user space is: before the next message, or in sub_nr_queued for the last one, before its test,
-- before the read of `nr_queued--`, or before the write.
pub data Taker : Type 0 where
  idle : Taker
  testing : Taker
  reading : Taker
  writing : (v : ℕ) → Taker

-- `waiting` messages are in the ring buffer and the channel; `uncounted` have been submitted by a CPU that
-- has not yet counted them. The last four fields count what has happened: messages submitted, writes of
-- sub_nr_queued, calls of it that found 0, and counts made between a read and its write.
pub record Counting : Type 0 where
  pub nr_queued : ℕ
  pub taker : Taker
  pub waiting : ℕ
  pub uncounted : ℕ
  pub submitted : ℕ
  pub subtracted : ℕ
  pub skipped : ℕ
  pub lost : ℕ

abbrev pub at_start : Counting
at_start = record {
  nr_queued = 0;
  taker = idle;
  waiting = 0;
  uncounted = 0;
  submitted = 0;
  subtracted = 0;
  skipped = 0;
  lost = 0;
}

-- The test of sub_nr_queued.
abbrev pub tested : Counting → Counting
tested s =
    if s.nr_queued == 0
    then record s { taker = idle; skipped = s.skipped + 1 }
    else record s { taker = reading }

-- The write of `nr_queued--`, with the value `v` that was read.
abbrev pub written : ℕ → Counting → Counting
written v s = record s {
  nr_queued = sub64 v 1;
  taker = idle;
  subtracted = s.subtracted + 1;
  lost = s.lost + (s.nr_queued - v);
}

pub data Step (s : Counting) : Counting → Type 0 where
  -- goland_enqueue: `bpf_ringbuf_submit`, and then `__sync_fetch_and_add(&nr_queued, 1)`
  submit : Step s (record s {
    waiting = s.waiting + 1;
    uncounted = s.uncounted + 1;
    submitted = s.submitted + 1;
  })
  count :
      0 < s.uncounted
      → Step s (record s { nr_queued = add64 s.nr_queued 1; uncounted = s.uncounted - 1 })
  -- DequeueTask receives a message and calls sub_nr_queued
  take :
      s.taker ≡ idle
      → 0 < s.waiting
      → Step s (record s { taker = testing; waiting = s.waiting - 1 })
  test : s.taker ≡ testing → Step s (tested s)
  read : s.taker ≡ reading → Step s (record s { taker = writing s.nr_queued })
  write : (v : ℕ) → s.taker ≡ writing v → Step s (written v s)

pub data Steps (s : Counting) : Counting → Type 0 where
  here : Steps s s
  next : {t u : Counting} → Steps s t → Step t u → Steps s u

-- A call of sub_nr_queued that is not yet at its end.
abbrev pub open_calls : Taker → ℕ
open_calls idle = 0
open_calls testing = 1
open_calls reading = 1
open_calls (writing v) = 1

-- What user space has seen is not above the count, which only it lowers.
abbrev pub Seen : ℕ → Taker → Type 0
Seen n idle = 0 ≤ n
Seen n testing = 0 ≤ n
Seen n reading = 0 < n
Seen n (writing v) = (0 < v) × (v ≤ n)

pub record Balance (s : Counting) : Type 0 where
  pub messages : s.waiting + (s.subtracted + s.skipped + open_calls s.taker) ≡ s.submitted
  pub counts : s.nr_queued + s.subtracted + s.lost + s.uncounted ≡ s.submitted
  pub seen : Seen s.nr_queued s.taker

Step-grows : {s t : Counting} → Step s t → s.submitted ≤ t.submitted
Step-grows {s} submit = omega arith
Step-grows {s} (count h) = omega arith
Step-grows {s} (take r h) = omega arith
Step-grows {s} (test r) = ground arith
Step-grows {s} (read r) = omega arith
Step-grows {s} (write v r) = omega arith

-- A count made meanwhile leaves what has been seen below it.
Seen-up : (n : ℕ) (p : Taker) → Seen n p → Seen (suc n) p
Seen-up n idle h = omega arith
Seen-up n testing h = omega arith
Seen-up n reading h = omega arith
Seen-up n (writing v) h = omega arith

Balance-count :
    (s : Counting)
    → 0 < s.uncounted
    → s.submitted < 2 ^ 64
    → Balance s
    → Balance (record s { nr_queued = add64 s.nr_queued 1; uncounted = s.uncounted - 1 })
Balance-count s h small b =
    let up : add64 s.nr_queued 1 ≡ suc s.nr_queued = omega (arith, b.counts) in
    record {
      messages = b.messages;
      counts = omega (arith, b.counts, up);
      seen = subst (λ n. Seen n s.taker) (sym up) (Seen-up s.nr_queued s.taker b.seen);
    }

Balance-test : (s : Counting) → s.taker ≡ testing → Balance s → Balance (tested s)
Balance-test s r b = record {
  messages = ground (arith, b.messages);
  counts = ground (arith, b.counts);
  seen = ground arith;
}

Balance-write :
    (s : Counting) (v : ℕ)
    → s.taker ≡ writing v
    → s.submitted < 2 ^ 64
    → Balance s
    → Balance (written v s)
Balance-write s v r small b =
    let seen = subst (Seen s.nr_queued) r b.seen in
    record {
      messages = ground (arith, b.messages);
      counts = omega (arith, b.counts, seen);
      seen = omega arith;
    }

Step-Balance : {s t : Counting} → Step s t → t.submitted < 2 ^ 64 → Balance s → Balance t
Step-Balance {s} submit small b = record {
  messages = omega (arith, b.messages);
  counts = omega (arith, b.counts);
  seen = b.seen;
}
Step-Balance {s} (count h) small b = Balance-count s h small b
Step-Balance {s} (take r h) small b = record {
  messages = ground (arith, b.messages);
  counts = b.counts;
  seen = omega arith;
}
Step-Balance {s} (test r) small b = Balance-test s r b
Step-Balance {s} (read r) small b = record {
  messages = ground (arith, b.messages);
  counts = b.counts;
  seen = (subst (Seen s.nr_queued) r b.seen, omega arith);
}
Step-Balance {s} (write v r) small b = Balance-write s v r small b

at_start-Balance : Balance at_start
at_start-Balance = record { messages = refl; counts = refl; seen = omega arith }

Steps-Balance : {s : Counting} → Steps at_start s → s.submitted < 2 ^ 64 → Balance s
Steps-Balance here small = at_start-Balance
Steps-Balance (next r st) small =
    Step-Balance st small (Steps-Balance r (omega (arith, Step-grows st)))

-- However the reads and writes of sub_nr_queued fall between the messages and the counts of the other
-- CPUs, with fewer than 2^64 messages in all: the count does not exceed the messages sent, and it is the
-- number of messages that wait or whose call of sub_nr_queued is open, more by those for which the call
-- found 0, and less by those not yet counted and by the counts made between a read and its write.
pub nr_queued-drift :
    {s : Counting}
    → Steps at_start s
    → s.submitted < 2 ^ 64
    → (s.nr_queued ≤ s.submitted)
      × (s.nr_queued + s.lost + s.uncounted ≡ s.waiting + open_calls s.taker + s.skipped)
nr_queued-drift r small =
    let b = Steps-Balance r small in (omega (arith, b.counts), omega (arith, b.counts, b.messages))

-- The read and the write with nothing in between.
abbrev read_and_written : Counting → Counting
read_and_written s = written s.nr_queued (record s { taker = writing s.nr_queued })

abbrev called : Counting → Counting
called s = if s.nr_queued == 0 then tested s else read_and_written (tested s)

called-Steps : (s : Counting) → s.taker ≡ testing → Steps s (called s)
called-Steps s r = elim (Bool-cases (s.nr_queued == 0)) [
  | inl empty ↦ subst (Steps s) (ground arith) (next here (test r))
  | inr full ↦
      let reads : (tested s).taker ≡ reading = ground arith in
      let first : Steps s (tested s) = next here (test r) in
      let second = next first (read reads) in
      let third : Steps s (read_and_written (tested s)) =
        next second (write (tested s).nr_queued refl) in
      subst (Steps s) (ground arith) third
]

-- With no count in between, the three accesses are the call of sub_nr_queued in one, and nothing is lost.
pub sub_nr_queued-alone :
    (k : Skeleton) (s : Counting)
    → s.nr_queued ≡ k.bss.nr_queued
    → k.bss.nr_queued < 2 ^ 64
    → s.taker ≡ testing
    → (t : Counting) × Steps s t
      × (t.taker ≡ idle)
      × (t.nr_queued ≡ (sub_nr_queued k).bss.nr_queued)
      × (t.lost ≡ s.lost)
unfolding sub_nr_queued
sub_nr_queued-alone k s e small r =
    (called s, called-Steps s r, ground arith, ground arith, ground arith)
