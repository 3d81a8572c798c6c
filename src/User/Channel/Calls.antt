-- ===== src/User/Channel/Calls.antt =====
-- task.go: BlockTilReadyForDequeue, a channel operation at a time with libbpfgo in between, against the
-- function that User/Sched has for the whole call.
use mathlib.Core.List.{append_assoc}
use scx_goland_core.Base.{
  ◌≡◌, ◌≢◌, refl, inl, inr, ◌∙◌, ap, sym, subst, List, [], ◌∷◌, ◌++◌, some, append_nil,
}
use scx_goland_core.User.Message.{Bytes}
use scx_goland_core.User.Sched.{Sched, block_til_ready_for_dequeue}
use scx_goland_core.User.Channel.{
  Channels, Place, Step, send, arrive, collect, dequeue, block, look, put_back, order, finish,
  running, blocked, holding, sending,
}
use scx_goland_core.User.Channel.Kept.{send_end}

-- Steps up to and with the one by which the goroutine of main leaves its channel operation.
pub data Waits (s : Channels) : Channels → Type 0 where
  enter : Waits s s
  wait : {t u : Channels} → Waits s t → t.place ≢ running → Step t u → Waits s u

-- `q` is the queue at the call with what has come in since; `c` is the queue now.
abbrev AtPlace : List Bytes → Place → List Bytes → Type 0
AtPlace q blocked c = c ≡ q
AtPlace q (holding m) c = q ≡ m ∷ c
AtPlace q running c = (m : Bytes) × (rest : List Bytes) × (q ≡ m ∷ rest) × (c ≡ rest ++ (m ∷ []))
AtPlace q (sending t) c = ⊥

record Waiting (s u : Channels) (late : List Bytes) : Type 0 where
  came : u.arrived ≡ s.arrived ++ late
  now : AtPlace (s.queue ++ late) u.place u.queue
  same_taken : u.taken ≡ s.taken
  same_ordered : u.ordered ≡ s.ordered

AtPlace-arrive :
    (m : Bytes) (p : Place) (q c : List Bytes) {d : List Bytes}
    → p ≢ running
    → send m c ≡ some d
    → AtPlace q p c
    → AtPlace (q ++ (m ∷ [])) p d
AtPlace-arrive m blocked q c n h a = rw (send_end m c h) (ap (λ x. x ++ (m ∷ [])) a)
AtPlace-arrive m (holding x) q c n h a = rw (send_end m c h) (ap (λ x. x ++ (m ∷ [])) a)
AtPlace-arrive m running q c n h a = absurd (n refl)
AtPlace-arrive m (sending t) q c n h a = a

AtPlace-place : (q c : List Bytes) {p p' : Place} → p ≡ p' → AtPlace q p c → AtPlace q p' c
AtPlace-place q c e a = subst (λ p. AtPlace q p c) e a

Waiting-step :
    {s t u : Channels} (late : List Bytes)
    → t.place ≢ running
    → Step t u
    → Waiting s t late
    → (later : List Bytes) × Waiting s u later
Waiting-step {s} {t} late n (arrive m {c} h) w = (
  late ++ (m ∷ []),
  record {
    came = ap (λ x. x ++ (m ∷ [])) w.came ∙ append_assoc s.arrived late (m ∷ []);
    now =
        subst (λ q. AtPlace q t.place c) (append_assoc s.queue late (m ∷ []))
          (AtPlace-arrive m t.place (s.queue ++ late) t.queue n h w.now);
    same_taken = w.same_taken;
    same_ordered = w.same_ordered;
  },
)
Waiting-step {s} {t} late n (collect m h) w = (
  late,
  record { came = w.came; now = w.now; same_taken = w.same_taken; same_ordered = w.same_ordered },
)
Waiting-step {s} {t} late n (dequeue m r h) w = absurd (n r)
Waiting-step {s} {t} late n (block r) w = absurd (n r)
Waiting-step {s} {t} late n (look m (inl r) h) w = absurd (n r)
Waiting-step {s} {t} late n (look m (inr r) h) w = (
  late,
  record {
    came = w.came;
    now = sym (AtPlace-place _ _ r w.now) ∙ h;
    same_taken = w.same_taken;
    same_ordered = w.same_ordered;
  },
)
Waiting-step {s} {t} late n (put_back m r h) w = (
  late,
  record {
    came = w.came;
    now = (m, t.queue, AtPlace-place _ _ r w.now, send_end m t.queue h);
    same_taken = w.same_taken;
    same_ordered = w.same_ordered;
  },
)
Waiting-step {s} {t} late n (order x r) w = absurd (n r)
Waiting-step {s} {t} late n (finish x r h) w = absurd (AtPlace-place _ _ r w.now)

Waits-Waiting :
    {s u : Channels} → s.place ≡ blocked → Waits s u → (late : List Bytes) × Waiting s u late
Waits-Waiting {s} e enter = (
  [],
  record {
    came = sym (append_nil s.arrived);
    now = AtPlace-place _ _ (sym e) (sym (append_nil s.queue));
    same_taken = refl;
    same_ordered = refl;
  },
)
Waits-Waiting e (wait r n st) = let (late, w) = Waits-Waiting e r in Waiting-step late n st w

-- What a call of BlockTilReadyForDequeue has done when it returns.
pub record Returned (s u : Channels) (late : List Bytes) (v : Sched) : Type 0 where
  pub came : u.arrived ≡ s.arrived ++ late
  pub found : s.queue ++ late ≢ []
  pub as_called : u.queue ≡ (block_til_ready_for_dequeue late (record v { queue = s.queue })).queue
  pub none_taken : u.taken ≡ s.taken
  pub none_ordered : u.ordered ≡ s.ordered

-- A call of BlockTilReadyForDequeue, however the channel operations of libbpfgo fall between its receive
-- and its send, has at its return the effect on `queue` that the function for the whole call has, for
-- the messages that have come in since the call; the old queue and these are not both empty, no message
-- has been dequeued and no task sent.
pub Waits-Returned :
    {s u : Channels} (v : Sched)
    → s.place ≡ blocked
    → Waits s u
    → u.place ≡ running
    → (late : List Bytes) × Returned s u late v
unfolding block_til_ready_for_dequeue
Waits-Returned {s} {u} v e r back =
    let (late, w) = Waits-Waiting e r in
    let (m, rest, q, c) = AtPlace-place _ _ back w.now in
    (
      late,
      record {
        came = w.came;
        found = λ empty. cc;
        as_called = rw q c;
        none_taken = w.same_taken;
        none_ordered = w.same_ordered;
      },
    )
