-- ===== src/User/Channel/Kept.antt =====
-- task.go: neither channel loses a message, makes one up or holds more than it has room for.
use mathlib.Core.List.{Perm, perm_append_comm, append_assoc, map-append}
use mathlib.Core.List.Perm
use scx_goland_core.Base.{
  ◌≤◌, ◌≡◌, refl, List, [], ◌∷◌, ◌++◌, map, arith, length, length-append, some, subst, sym, ap, ◌∙◌,
  inl, inr,
}
use scx_goland_core.User.Message.{Bytes, fast_encode}
use scx_goland_core.User.Channel.{
  Channels, Place, Step, Steps, fresh_channels, capacity, send, arrive, collect, dequeue, block,
  look, put_back, order, finish, here, next, running, blocked, holding, sending,
}

-- The message that the goroutine of main has taken and not yet put back.
abbrev pub held : Place → List Bytes
held (holding t) = t ∷ []
held running = []
held blocked = []
held (sending t) = []

pub record Kept (s : Channels) : Type 0 where
  pub queue_room : length s.queue ≤ capacity
  pub dispatch_room : length s.dispatch ≤ capacity
  pub none_lost : Perm s.arrived (s.taken ++ (held s.place ++ s.queue))
  pub in_order : map fast_encode s.ordered ≡ s.collected ++ s.dispatch

send_room : (m : Bytes) (c : List Bytes) {d : List Bytes} → send m c ≡ some d → length d ≤ capacity
send_room m c h = ground (arith, length-append c (m ∷ []))

pub send_end : (m : Bytes) (c : List Bytes) {d : List Bytes} → send m c ≡ some d → d ≡ c ++ (m ∷ [])
send_end m c h = ground arith

-- With the place and the queue named.
module _ {s : Channels} (k : Kept s) {p : Place} (at : s.place ≡ p) where
  none_lost-place : Perm s.arrived (s.taken ++ (held p ++ s.queue))
  none_lost-place = subst (λ x. Perm s.arrived (s.taken ++ (held x ++ s.queue))) at k.none_lost

  none_lost-queue : {q : List Bytes} → s.queue ≡ q → Perm s.arrived (s.taken ++ (held p ++ q))
  none_lost-queue e = subst (λ x. Perm s.arrived (s.taken ++ (held p ++ x))) e none_lost-place

-- A message more at the end of both sides.
Perm-arrive :
    (m : Bytes) {a : List Bytes} (t h q : List Bytes) {c : List Bytes}
    → send m q ≡ some c
    → Perm a (t ++ (h ++ q))
    → Perm (a ++ (m ∷ [])) (t ++ (h ++ c))
Perm-arrive m {a} t h q e p = rw (send_end m q e) (
    subst (Perm (a ++ (m ∷ [])))
      (append_assoc t (h ++ q) (m ∷ []) ∙ ap (◌++◌ t) (append_assoc h q (m ∷ [])))
      (Perm.append_right (m ∷ []) p))

Perm-put_back :
    (m : Bytes) {a : List Bytes} (t q : List Bytes) {c : List Bytes}
    → send m q ≡ some c
    → Perm a (t ++ (m ∷ q))
    → Perm a (t ++ c)
Perm-put_back m t q e p =
    rw (send_end m q e) (Perm.trans p (Perm.append_left t (perm_append_comm (m ∷ []) q)))

Step-none_lost :
    {s t : Channels} → Step s t → Kept s → Perm t.arrived (t.taken ++ (held t.place ++ t.queue))
Step-none_lost {s} (arrive m h) k = Perm-arrive m s.taken (held s.place) s.queue h k.none_lost
Step-none_lost {s} (collect m h) k = k.none_lost
Step-none_lost {s} (dequeue m {c} r h) k =
    rw (r, append_assoc s.taken (m ∷ []) c) (none_lost-queue k r h)
Step-none_lost {s} (block r) k = none_lost-place k r
Step-none_lost {s} (look m (inl r) h) k = none_lost-queue k r h
Step-none_lost {s} (look m (inr r) h) k = none_lost-queue k r h
Step-none_lost {s} (put_back m r h) k = Perm-put_back m s.taken s.queue h (none_lost-place k r)
Step-none_lost {s} (order t r) k = none_lost-place k r
Step-none_lost {s} (finish t r h) k = none_lost-place k r

Step-in_order :
    {s t : Channels} → Step s t → Kept s → map fast_encode t.ordered ≡ t.collected ++ t.dispatch
Step-in_order {s} (arrive m h) k = k.in_order
Step-in_order {s} (collect m {c} h) k =
    k.in_order ∙ (ap (◌++◌ s.collected) h ∙ sym (append_assoc s.collected (m ∷ []) c))
Step-in_order {s} (dequeue m r h) k = k.in_order
Step-in_order {s} (block r) k = k.in_order
Step-in_order {s} (look m r h) k = k.in_order
Step-in_order {s} (put_back m r h) k = k.in_order
Step-in_order {s} (order t r) k = k.in_order
Step-in_order {s} (finish t r h) k =
    rw (send_end (fast_encode t) s.dispatch h, map-append, k.in_order)
      (append_assoc s.collected s.dispatch (fast_encode t ∷ []))

Step-queue_room : {s t : Channels} → Step s t → Kept s → length t.queue ≤ capacity
Step-queue_room {s} (arrive m h) k = send_room m s.queue h
Step-queue_room {s} (dequeue m r h) k = omega (arith, k.queue_room, ap length h)
Step-queue_room {s} (look m r h) k = omega (arith, k.queue_room, ap length h)
Step-queue_room {s} (put_back m r h) k = send_room m s.queue h
Step-queue_room {s} (collect m h) k = k.queue_room
Step-queue_room {s} (block r) k = k.queue_room
Step-queue_room {s} (order t r) k = k.queue_room
Step-queue_room {s} (finish t r h) k = k.queue_room

Step-dispatch_room : {s t : Channels} → Step s t → Kept s → length t.dispatch ≤ capacity
Step-dispatch_room {s} (collect m h) k = omega (arith, k.dispatch_room, ap length h)
Step-dispatch_room {s} (finish t r h) k = send_room (fast_encode t) s.dispatch h
Step-dispatch_room {s} (arrive m h) k = k.dispatch_room
Step-dispatch_room {s} (dequeue m r h) k = k.dispatch_room
Step-dispatch_room {s} (look m r h) k = k.dispatch_room
Step-dispatch_room {s} (put_back m r h) k = k.dispatch_room
Step-dispatch_room {s} (block r) k = k.dispatch_room
Step-dispatch_room {s} (order t r) k = k.dispatch_room

fresh_channels-Kept : Kept fresh_channels
fresh_channels-Kept = record {
  queue_room = omega arith;
  dispatch_room = omega arith;
  none_lost = Perm.refl [];
  in_order = refl;
}

Step-Kept : {s t : Channels} → Step s t → Kept s → Kept t
Step-Kept st k = record {
  queue_room = Step-queue_room st k;
  dispatch_room = Step-dispatch_room st k;
  none_lost = Step-none_lost st k;
  in_order = Step-in_order st k;
}

-- In any order of the channel operations of the two halves, from the channels as they are made: no
-- channel holds more than 4096 messages; the messages that have come in are those that DequeueTask has
-- taken, the one that a readiness call holds, and those that wait, each as often, in some order; and the
-- tasks that DispatchTask has sent are, in their order, the messages collected and those that wait.
pub Steps-Kept : {s : Channels} → Steps fresh_channels s → Kept s
Steps-Kept here = fresh_channels-Kept
Steps-Kept (next r st) = Step-Kept st (Steps-Kept r)
