-- ===== src/Heartbeat/Delivery.antt =====
-- The heartbeats of one activity, packages/worker/src/worker.ts: the last one arrives before the
-- activity completes.
use temporalio_sdk_typescrip.Prelude.{
  ℕ, ◌≡◌, refl, Option, none, some, Bool, true, false, if◌then◌else◌, List, [], ◌∷◌, ◌++◌, String,
  negsuc, ◌+ℤ◌, lookup, remove, string_key, arith,
}
use temporalio_sdk_typescrip.Heartbeat as HB
use temporalio_sdk_typescrip.Heartbeat.{
  HeartbeatState, HeartbeatInput, HeartbeatOutput, create, heartbeat, flush, completion, send,
  close, on_input, Heartbeats, next,
}

-- A run of the machine, with its last sent heartbeat and the callbacks of its closing.
pub record Run : Type 0 where
  pub state : HeartbeatState
  pub last_sent : Option ℕ
  pub closings : List (Option ℕ)

abbrev noted : HeartbeatState → Option HeartbeatOutput → Run → Run
noted s none r = record r { state = s }
noted s (some (send v)) r = record r { state = s; last_sent = some v }
noted s (some (close k)) r = record r { state = s; closings = r.closings ++ k ∷ [] }

abbrev pub feed : HeartbeatInput → Run → Run
feed i r = let (s, out) = on_input r.state i in noted s out r

-- What an activity does while it runs: it heartbeats, and Core's acceptance of a heartbeat flushes.
pub data Event : Type 0 where
  beat : ℕ → Event
  accepted : Event

abbrev pub feed_all : List Event → Run → Run
feed_all [] r = r
feed_all (beat v ∷ es) r = feed_all es (feed (heartbeat v) r)
feed_all (accepted ∷ es) r = feed_all es (feed flush r)

abbrev pub last_beat : Option ℕ → List Event → Option ℕ
last_beat b [] = b
last_beat b (beat v ∷ es) = last_beat (some v) es
last_beat b (accepted ∷ es) = last_beat b es

-- The activity ends, and what is in flight is accepted.
abbrev pub finish : ℕ → Run → Run
finish callback r =
    let s = feed (completion true callback) r in
    let t = if s.state.processing then feed flush s else s in
    if t.state.processing then feed flush t else t

abbrev IsPending : Option ℕ → Option ℕ → Option ℕ → Bool → Type 0
IsPending none sent b processing = sent ≡ b
IsPending (some v) sent b processing = (b ≡ some v) × (processing ≡ true)

abbrev IsOpen : Run → Option ℕ → Type 0
IsOpen r b =
    (r.state.closed ≡ false)
    × (r.state.completion_callback ≡ none)
    × (r.closings ≡ [])
    × IsPending r.state.pending r.last_sent b r.state.processing

beat-IsOpen : (v : ℕ) (r : Run) (b : Option ℕ) → IsOpen r b → IsOpen (feed (heartbeat v) r) (some v)
unfolding on_input
beat-IsOpen v r b h = ground arith

accepted-IsOpen : (r : Run) (b : Option ℕ) → IsOpen r b → IsOpen (feed flush r) b
unfolding on_input
accepted-IsOpen r b h = ground arith

feed_all-IsOpen :
    (es : List Event) (r : Run) (b : Option ℕ)
    → IsOpen r b
    → IsOpen (feed_all es r) (last_beat b es)
feed_all-IsOpen [] r b h = h
feed_all-IsOpen (beat v ∷ es) r b h =
    feed_all-IsOpen es (feed (heartbeat v) r) (some v) (beat-IsOpen v r b h)
feed_all-IsOpen (accepted ∷ es) r b h = feed_all-IsOpen es (feed flush r) b (accepted-IsOpen r b h)

finish-last_sent :
    (k : ℕ) (r : Run) (b : Option ℕ)
    → IsOpen r b
    → ((finish k r).last_sent ≡ b)
      × ((finish k r).closings ≡ some k ∷ [])
      × ((finish k r).state.closed ≡ true)
unfolding on_input
finish-last_sent k r b h = ground arith

abbrev pub opened : Run
opened = feed create (record { state = HB.initial; last_sent = none; closings = [] })

-- Whatever an activity's heartbeats and their acceptances, once it completes with a required flush
-- and what is in flight is accepted (at most twice), the last heartbeat sent to Core is the
-- activity's last one, the stream is closed, and it closed exactly once, with the completion's
-- callback.
pub finish-feed_all :
    (es : List Event) (callback : ℕ)
    → let r = finish callback (feed_all es opened) in
      (r.last_sent ≡ last_beat none es)
      × (r.closings ≡ some callback ∷ [])
      × (r.state.closed ≡ true)
unfolding on_input
finish-feed_all es callback =
    finish-last_sent callback (feed_all es opened) (last_beat none es)
      (feed_all-IsOpen es opened none (refl, refl, refl, refl))

-- A heartbeat or a flush for a task token that has no group sends nothing and calls nothing, but takes one from
-- the number of heartbeating activities.
pub next-rogue :
    (token : String) (v : ℕ) (h : Heartbeats)
    → lookup token h.groups ≡ none
    → let expected = record h {
      groups = remove token h.groups;
      num_heartbeating_activities = h.num_heartbeating_activities +ℤ negsuc 0;
      called = h.called ++ [];
    } in
      (next token (heartbeat v) h ≡ expected) × (next token flush h ≡ expected)
unfolding next on_input
next-rogue token v h e = rw e (refl, refl)
