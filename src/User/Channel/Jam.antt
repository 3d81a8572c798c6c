-- ===== src/User/Channel/Jam.antt =====
-- task.go: when the goroutine of main, which alone receives from `queue`, waits in its own send to it,
-- and when it can go on.
use scx_goland_core.Base.{
  ◌+◌, ◌≤◌, ◌<◌, ◌≡◌, refl, ◌⊎◌, inl, inr, ◌∙◌, ap, sym, List, [], ◌∷◌, ◌++◌, some, arith, length,
  length-append, append_nil, subst, dec_lt,
}
use mathlib.Core.List.{append_assoc}
use scx_goland_core.User.Message.{Bytes, DispatchedTask, fast_encode}
use scx_goland_core.User.Channel.{
  Channels, Place, Step, Steps, fresh_channels, capacity, send, arrive, collect, dequeue, block,
  look, put_back, order, finish, here, next, running, blocked, holding, sending,
}
use scx_goland_core.User.Channel.Kept.{Kept, Steps-Kept}

pub record Jammed (m : Bytes) (s : Channels) : Type 0 where
  pub waits : s.place ≡ holding m
  pub full : length s.queue ≡ capacity

-- What no longer changes.
pub record Stopped (s t : Channels) : Type 0 where
  pub same_queue : t.queue ≡ s.queue
  pub same_place : t.place ≡ s.place
  pub same_taken : t.taken ≡ s.taken
  pub same_ordered : t.ordered ≡ s.ordered

send_full :
    (m : Bytes) (c : List Bytes) {d : List Bytes} → length c ≡ capacity → send m c ≡ some d → ⊥
send_full m c f h = ground arith

send_free : (m : Bytes) (c : List Bytes) → length c < capacity → send m c ≡ some (c ++ (m ∷ []))
send_free m c h = ground arith

Step-Stopped : (m : Bytes) {s t : Channels} → Jammed m s → Step s t → Stopped s t
Step-Stopped m {s} j (arrive x h) = absurd (send_full x s.queue j.full h)
Step-Stopped m {s} j (collect x h) = record {
  same_queue = refl;
  same_place = refl;
  same_taken = refl;
  same_ordered = refl;
}
Step-Stopped m {s} j (dequeue x r h) = absurd (ground (arith, j.waits))
Step-Stopped m {s} j (block r) = absurd (ground (arith, j.waits))
Step-Stopped m {s} j (look x (inl r) h) = absurd (ground (arith, j.waits))
Step-Stopped m {s} j (look x (inr r) h) = absurd (ground (arith, j.waits))
Step-Stopped m {s} j (put_back x r h) = absurd (send_full x s.queue j.full h)
Step-Stopped m {s} j (order t r) = absurd (ground (arith, j.waits))
Step-Stopped m {s} j (finish t r h) = absurd (ground (arith, j.waits))

Steps-Stopped : (m : Bytes) {s t : Channels} → Jammed m s → Steps s t → Stopped s t
Steps-Stopped m j here = record {
  same_queue = refl;
  same_place = refl;
  same_taken = refl;
  same_ordered = refl;
}
Steps-Stopped m {s} j (next {t} r st) =
    let before = Steps-Stopped m j r in
    let jammed : Jammed m t = record {
      waits = before.same_place ∙ j.waits;
      full = ap length before.same_queue ∙ j.full;
    } in
    let last = Step-Stopped m jammed st in
    record {
      same_queue = last.same_queue ∙ before.same_queue;
      same_place = last.same_place ∙ before.same_place;
      same_taken = last.same_taken ∙ before.same_taken;
      same_ordered = last.same_ordered ∙ before.same_ordered;
    }

Steps_trans : {s t u : Channels} → Steps s t → Steps t u → Steps s u
Steps_trans r here = r
Steps_trans r (next q st) = next (Steps_trans r q) st

-- The messages `ms` have come in.
abbrev pub with_arrived : List Bytes → Channels → Channels
with_arrived ms s = record s { queue = s.queue ++ ms; arrived = s.arrived ++ ms }

abbrev pub with_looked : Bytes → List Bytes → Channels → Channels
with_looked m rest s = record s { queue = rest; place = holding m }

arrivals :
    (ms : List Bytes) (s : Channels)
    → length s.queue + length ms ≤ capacity
    → Steps s (with_arrived ms s)
arrivals [] s h =
    subst (Steps s)
      (λ i. record s { queue = sym (append_nil s.queue) i; arrived = sym (append_nil s.arrived) i })
      here
arrivals (m ∷ ms) s h =
    let first : Step s (with_arrived (m ∷ []) s) = arrive m (send_free m s.queue (omega arith)) in
    subst (Steps s)
      (λ i. record s {
        queue = append_assoc s.queue (m ∷ []) ms i;
        arrived = append_assoc s.arrived (m ∷ []) ms i;
      })
      (Steps_trans (next here first)
        (arrivals ms (with_arrived (m ∷ []) s) (omega (arith, length-append s.queue (m ∷ [])))))

-- The readiness call has taken `m`, and then `ms` come in.
abbrev pub filled : Bytes → List Bytes → List Bytes → Channels → Channels
filled m rest ms s = with_arrived ms (with_looked m rest s)

-- A readiness call that finds the message `m` takes it out; if the messages that come in before it puts
-- the message back fill the channel, then the goroutine of main stays in this send whatever happens
-- afterwards: `queue` never changes again, no message is ever dequeued and no task ever sent.
pub Steps-Jammed :
    (s : Channels) (m : Bytes) (rest ms : List Bytes)
    → (s.place ≡ running) ⊎ (s.place ≡ blocked)
    → s.queue ≡ m ∷ rest
    → length rest + length ms ≡ capacity
    → {t : Channels} → Steps (filled m rest ms s) t
    → Steps s (filled m rest ms s)
      × (t.place ≡ holding m)
      × (t.queue ≡ rest ++ ms)
      × (t.taken ≡ s.taken)
      × (t.ordered ≡ s.ordered)
Steps-Jammed s m rest ms r q f after =
    let taken : Step s (with_looked m rest s) = look m r q in
    let jammed : Jammed m (filled m rest ms s) = record {
      waits = refl;
      full = omega (arith, length-append rest ms);
    } in
    let stopped = Steps-Stopped m jammed after in
    (
      Steps_trans (next here taken) (arrivals ms (with_looked m rest s) (omega arith)),
      stopped.same_place,
      stopped.same_queue,
      stopped.same_taken,
      stopped.same_ordered,
    )

-- The goroutine of main is, or can come to be, outside the channel operations.
abbrev pub GoesOn : Channels → Type 0
GoesOn s = (t : Channels) × Steps s t × (t.place ≡ running)

GoesOn-next : {s t : Channels} → Step s t → GoesOn t → GoesOn s
GoesOn-next st (u, r, e) = (u, Steps_trans (next here st) r, e)

GoesOn-held :
    (s : Channels) (m : Bytes) → s.place ≡ holding m → length s.queue < capacity → GoesOn s
GoesOn-held s m e h = let back = put_back m e (send_free m s.queue h) in (_, next here back, refl)

-- A message that waits is taken, which leaves room for it.
GoesOn-waiting :
    (s : Channels) {m : Bytes} {c : List Bytes}
    → s.place ≡ blocked
    → s.queue ≡ m ∷ c
    → length s.queue ≤ capacity
    → GoesOn s
GoesOn-waiting s {m} {c} e q h =
    GoesOn-next (look m (inr e) q)
      (GoesOn-held (with_looked m c s) m refl (omega (arith, ap length q)))

GoesOn-blocked : (s : Channels) → s.place ≡ blocked → length s.queue ≤ capacity → GoesOn s
GoesOn-blocked s e h =
    elim s.queue as (λ q. s.queue ≡ q → GoesOn s) [
      | [] ↦ λ q.
          (let first : Step s (with_arrived ([] ∷ []) s) =
              arrive [] (send_free [] s.queue (omega (arith, ap length q))) in
            GoesOn-next first (
              GoesOn-waiting (with_arrived ([] ∷ []) s) {m = []} {c = []} e (rw q)
                (omega (arith, ap length q, length-append s.queue ([] ∷ [])))))
      | m ∷ c ↦ λ q. GoesOn-waiting s e q h
    ]
      refl

GoesOn-room :
    (s : Channels) (t : DispatchedTask)
    → s.place ≡ sending t
    → length s.dispatch < capacity
    → GoesOn s
GoesOn-room s t e h =
    let done = finish t e (send_free (fast_encode t) s.dispatch h) in (_, next here done, refl)

GoesOn-sending :
    (s : Channels) (t : DispatchedTask)
    → s.place ≡ sending t
    → length s.dispatch ≤ capacity
    → GoesOn s
GoesOn-sending s t e h =
    elim s.dispatch as (λ q. s.dispatch ≡ q → GoesOn s) [
      | [] ↦ λ q. GoesOn-room s t e (omega (arith, ap length q))
      | m ∷ c ↦ λ q. GoesOn-next (collect m q) (
          GoesOn-room (record s { dispatch = c; collected = s.collected ++ (m ∷ []) }) t e
            (omega (arith, ap length q)))
    ]
      refl

GoesOn-or_Jammed :
    (s : Channels) → Kept s → (p : Place) → s.place ≡ p → GoesOn s ⊎ ((m : Bytes) × Jammed m s)
GoesOn-or_Jammed s k running e = inl (s, here, e)
GoesOn-or_Jammed s k blocked e = inl (GoesOn-blocked s e k.queue_room)
GoesOn-or_Jammed s k (sending t) e = inl (GoesOn-sending s t e k.dispatch_room)
GoesOn-or_Jammed s k (holding m) e = elim (dec_lt (length s.queue) capacity) [
  | yes h ↦ inl (GoesOn-held s m e h)
  | no h ↦ inr (m, record { waits = e; full = omega (arith, k.queue_room) })
]

not-GoesOn : {s : Channels} (m : Bytes) → Jammed m s → ¬ GoesOn s
not-GoesOn m j (t, r, e) = let p = (Steps-Stopped m j r).same_place ∙ j.waits in cc

-- In every state that is reached from the channels as they are made, the goroutine of main can finish
-- its channel operation by some steps of the two halves, if it is in one, or it waits to put a message
-- back into a `queue` that is full; and never both.
pub Steps-GoesOn :
    {s : Channels}
    → Steps fresh_channels s
    → (GoesOn s ⊎ ((m : Bytes) × Jammed m s)) × ¬ (GoesOn s × ((m : Bytes) × Jammed m s))
Steps-GoesOn {s} r =
    (GoesOn-or_Jammed s (Steps-Kept r) s.place refl, λ g. not-GoesOn g.1.0 g.1.1 g.0)
