-- ===== src/Heartbeat.antt =====
-- Activity heartbeats on their way to Core: `activityHeartbeat$` of packages/worker/src/worker.ts. An
-- input of the stream belongs to the group of its task token; each group is a state machine. The
-- details of a heartbeat and a completion callback are numbers. A group is gone as soon as its
-- machine closes.
pub mod Delivery
mod Examples
use temporalio_sdk_typescrip.Prelude.{
  ℕ, String, Option, none, some, Bool, true, false, if◌then◌else◌, not, List, [], ◌∷◌, ◌++◌, ℤ, pos,
  negsuc, ◌+ℤ◌, lookup, insert, remove, string_key,
}

pub record HeartbeatState : Type 0 where
  pub closed : Bool
  pub processing : Bool
  pub completion_callback : Option ℕ
  pub pending : Option ℕ

pub data HeartbeatInput : Type 0 where
  create : HeartbeatInput
  heartbeat : (details : ℕ) → HeartbeatInput
  flush : HeartbeatInput
  completion : (flush_required : Bool) (callback : ℕ) → HeartbeatInput

pub data HeartbeatOutput : Type 0 where
  send : (details : ℕ) → HeartbeatOutput
  close : (completion_callback : Option ℕ) → HeartbeatOutput

abbrev pub StateAndOutput : Type 0
StateAndOutput = HeartbeatState × Option HeartbeatOutput

abbrev process : HeartbeatState → ℕ → StateAndOutput
process s details = (record s { processing = true; pending = none }, some (send details))

abbrev store_pending : HeartbeatState → ℕ → StateAndOutput
store_pending s details = (record s { pending = some details }, none)

abbrev complete : ℕ → StateAndOutput
complete callback = (
  record { closed = true; processing = false; completion_callback = none; pending = none },
  some (close (some callback)),
)

-- A group starts closed, and waits for `create`.
abbrev pub initial : HeartbeatState
initial = record { closed = true; processing = false; completion_callback = none; pending = none }

abbrev on_flush : HeartbeatState → (pending completion_callback : Option ℕ) → StateAndOutput
on_flush s (some details) k = process s details
on_flush s none (some callback) = complete callback
on_flush s none none = (record s { processing = false }, none)

abbrev on_final : HeartbeatState → ℕ → (pending : Option ℕ) → StateAndOutput
on_final s callback (some details) =
    process (record s { completion_callback = some callback }) details
on_final s callback none = complete callback

abbrev on_completion : HeartbeatState → (flush_required : Bool) → ℕ → StateAndOutput
on_completion s flush_required callback =
    if s.processing
    then (
      record s {
        pending = if flush_required then s.pending else none;
        completion_callback = some callback;
      },
      none,
    )
    else if not flush_required
    then complete callback
    else on_final s callback s.pending

abbrev on_open : HeartbeatState → HeartbeatInput → StateAndOutput
on_open s create = (s, none)
on_open s (heartbeat details) = if s.processing then store_pending s details else process s details
on_open s flush = on_flush s s.pending s.completion_callback
on_open s (completion flush_required callback) = on_completion s flush_required callback

unfoldable pub on_input : HeartbeatState → HeartbeatInput → StateAndOutput
on_input s create = (
  record { closed = false; processing = false; completion_callback = none; pending = none },
  none,
)
on_input s i = if s.closed then (s, some (close none)) else on_open s i

-- The worker's side: the groups by task token, the counter, what went to Core and which callbacks ran.
pub record Heartbeats : Type 0 where
  pub groups : List (String × HeartbeatState)
  pub num_heartbeating_activities : ℤ
  pub recorded : List (String × ℕ)
  pub called : List ℕ

abbrev group_or : Option HeartbeatState → HeartbeatState
group_or none = initial
group_or (some s) = s

abbrev count_input : HeartbeatInput → Heartbeats → Heartbeats
count_input create h = record h {
  num_heartbeating_activities = h.num_heartbeating_activities +ℤ pos 1;
}
count_input _ h = h

abbrev callback_list : Option ℕ → List ℕ
callback_list none = []
callback_list (some k) = k ∷ []

abbrev on_output : String → HeartbeatState → Option HeartbeatOutput → Heartbeats → Heartbeats
on_output token s none h = record h { groups = insert token s h.groups }
on_output token s (some (send details)) h = record h {
  groups = insert token s h.groups;
  recorded = h.recorded ++ (token, details) ∷ [];
}
on_output token s (some (close callback)) h = record h {
  groups = remove token h.groups;
  num_heartbeating_activities = h.num_heartbeating_activities +ℤ negsuc 0;
  called = h.called ++ callback_list callback;
}

unfoldable pub next : String → HeartbeatInput → Heartbeats → Heartbeats
unfolding on_input
next token i h =
    let (s, out) = on_input (group_or (lookup token h.groups)) i in
    on_output token s out (count_input i h)
