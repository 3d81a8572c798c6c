-- ===== src/User/Channel.antt =====
-- goland_core/task.go and obj.go: the two channels of Sched with their bounded room, between the
-- goroutine of main and the goroutines of libbpfgo, one channel operation at a time.
pub mod Kept
pub mod Jam
pub mod Calls
use scx_goland_core.Base.{
  ℕ, ◌≡◌, ◌≢◌, ◌⊎◌, List, [], ◌∷◌, ◌++◌, Option, none, some, length, ltb, if◌then◌else◌,
}
use scx_goland_core.User.Message.{Bytes, DispatchedTask, fast_encode}

-- `make(chan []byte, 4096)`
abbrev pub capacity : ℕ
capacity = 4096

-- `c <- m`; `none` means that the send waits, because the channel is full.
abbrev pub send : Bytes → List Bytes → Option (List Bytes)
send m c = if ltb (length c) capacity then some (c ++ (m ∷ [])) else none

-- Where the goroutine of main is, as far as the channels go: in no channel operation; in the select of
-- BlockTilReadyForDequeue, which has no default; after the receive of one of the two readiness calls
-- and before its `s.queue <- t`; or in the send of DispatchTask.
pub data Place : Type 0 where
  running : Place
  blocked : Place
  holding : (t : Bytes) → Place
  sending : (t : DispatchedTask) → Place

-- The last four fields are what has gone through: the messages that libbpfgo has put into `queue`, those
-- that DequeueTask has taken out, the tasks that DispatchTask has sent, and the messages that libbpfgo
-- has taken out of `dispatch`; each list with the oldest first.
pub record Channels : Type 0 where
  pub queue : List Bytes
  pub dispatch : List Bytes
  pub place : Place
  pub arrived : List Bytes
  pub taken : List Bytes
  pub ordered : List DispatchedTask
  pub collected : List Bytes

abbrev pub fresh_channels : Channels
fresh_channels = record {
  queue = [];
  dispatch = [];
  place = running;
  arrived = [];
  taken = [];
  ordered = [];
  collected = [];
}

-- A step that finds nothing in the channel and goes on by the `default` of its select changes nothing, and
-- is left out. The context of BlockTilReadyForDequeue never ends, and the channels are open.
pub data Step (s : Channels) : Channels → Type 0 where
  -- libbpfgo: a sample of the ring buffer `queued`, and a message for `dispatched`
  arrive :
      (m : Bytes) {c : List Bytes}
      → send m s.queue ≡ some c
      → Step s (record s { queue = c; arrived = s.arrived ++ (m ∷ []) })
  collect :
      (m : Bytes) {c : List Bytes}
      → s.dispatch ≡ m ∷ c
      → Step s (record s { dispatch = c; collected = s.collected ++ (m ∷ []) })
  -- DequeueTask
  dequeue :
      (m : Bytes) {c : List Bytes}
      → s.place ≡ running
      → s.queue ≡ m ∷ c
      → Step s (record s { queue = c; taken = s.taken ++ (m ∷ []) })
  -- BlockTilReadyForDequeue is called; `<-s.queue` of it or of ReadyForDequeue; `s.queue <- t`
  block : s.place ≡ running → Step s (record s { place = blocked })
  look :
      (m : Bytes) {c : List Bytes}
      → (s.place ≡ running) ⊎ (s.place ≡ blocked)
      → s.queue ≡ m ∷ c
      → Step s (record s { queue = c; place = holding m })
  put_back :
      (m : Bytes) {c : List Bytes}
      → s.place ≡ holding m
      → send m s.queue ≡ some c
      → Step s (record s { queue = c; place = running })
  -- DispatchTask, whose ring buffer has not failed; `s.dispatch <- fastEncode(t)`
  order : (t : DispatchedTask) → s.place ≡ running → Step s (record s { place = sending t })
  finish :
      (t : DispatchedTask) {c : List Bytes}
      → s.place ≡ sending t
      → send (fast_encode t) s.dispatch ≡ some c
      → Step s (record s { dispatch = c; place = running; ordered = s.ordered ++ (t ∷ []) })

pub data Steps (s : Channels) : Channels → Type 0 where
  here : Steps s s
  next : {t u : Channels} → Steps s t → Step t u → Steps s u
