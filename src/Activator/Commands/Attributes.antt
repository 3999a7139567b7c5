-- ===== src/Activator/Commands/Attributes.antt =====
-- The attributes of an activity's command: the object literals of `scheduleActivityNextHandler` and
-- `scheduleLocalActivityNextHandler`, `validateActivityOptions` of packages/workflow/src/workflow.ts
-- and `toPayloads` of packages/common/src/converter/payload-converter.ts. The versioning intent and
-- the cancellation type are left out.
use temporalio_sdk_typescrip.Prelude.{
  ℕ, String, Option, none, some, Bool, false, not, ◌||◌, if◌then◌else◌, List, [], ◌∷◌, is_some,
}
use temporalio_sdk_typescrip.Prelude.Checked.{valid, invalid}
use temporalio_sdk_typescrip.Time.{Packages, Duration, Timestamp, ms_optional_to_ts}
use temporalio_sdk_typescrip.Retry
use temporalio_sdk_typescrip.Retry.{RetryPolicy, ProtoRetryPolicy, compile_retry_policy}
use temporalio_sdk_typescrip.Failure.{
  Value, Payload, PayloadConverter, sdk_error, type_error, value_error,
}
use temporalio_sdk_typescrip.Activator.{
  ActivityId, named, numbered, ActivityAttributes, Outcome, returned, threw,
}
use temporalio_sdk_typescrip.Activator.Jobs.{is_text}

-- The options of both kinds of activity; each kind reads the fields that it has.
pub record ActivityOptions : Type 0 where
  pub activity_id : Option String
  pub task_queue : Option String
  pub heartbeat_timeout : Option Duration
  pub retry : Option RetryPolicy
  pub start_to_close_timeout : Option Duration
  pub schedule_to_start_timeout : Option Duration
  pub schedule_to_close_timeout : Option Duration
  pub allow_eager_dispatch : Option Bool
  pub local_retry_threshold : Option Duration

-- validateActivityOptions
abbrev pub has_timeout : ActivityOptions → Bool
has_timeout o = is_some o.schedule_to_close_timeout || is_some o.start_to_close_timeout

module _ {ℓ κ} {A : Type ℓ} {B : Type κ} where
  infixl 5 ◌>>=◌
  abbrev ◌>>=◌ : Outcome A → (A → Outcome B) → Outcome B
  threw error >>= rest = threw error
  returned a >>= rest = rest a

to_each : PayloadConverter → List Value → Outcome (List Payload)
to_each c [] = returned []
to_each c (v ∷ vs) = elim (c.to_payload v) [
  | none ↦ threw (sdk_error value_error)
  | some p ↦ to_each c vs >>= λ ps. returned (p ∷ ps)
]

-- No arguments give no list at all.
unfoldable pub to_payloads : PayloadConverter → List Value → Outcome (Option (List Payload))
unfolding to_each
to_payloads c [] = returned none
to_payloads c (v ∷ vs) = to_each c (v ∷ vs) >>= λ ps. returned (some ps)

abbrev timeout : Packages → Option Duration → Outcome (Option Timestamp)
timeout ms d = elim (ms_optional_to_ts ms d) [
  | valid t ↦ returned t
  | invalid _ ↦ threw (sdk_error type_error)
]

abbrev optional_retry : Packages → Option RetryPolicy → Outcome (Option ProtoRetryPolicy)
optional_retry ms none = returned none
optional_retry ms (some p) = elim (compile_retry_policy ms p) [
  | valid q ↦ returned (some q)
  | invalid (Retry.bad_time _) ↦ threw (sdk_error type_error)
  | invalid _ ↦ threw (sdk_error value_error)
]

-- `options.activityId ?? `${seq}``
abbrev id_or : Option String → ℕ → ActivityId
id_or none seq = numbered seq
id_or (some s) seq = named s

-- `a || b` on texts
abbrev text_or : Option String → String → String
text_or none d = d
text_or (some s) d = if is_text s then s else d

abbrev is_false : Option Bool → Bool
is_false none = false
is_false (some b) = not b

module _ (ms : Packages) (c : PayloadConverter) where
  unfoldable pub activity_attributes :
      (own_queue : String) (seq : ℕ) (activity_type : String) (args : List Value)
      → ActivityOptions
      → Outcome ActivityAttributes
  activity_attributes own_queue seq type args o = do
    payloads ← to_payloads c args
    policy ← optional_retry ms o.retry
    heartbeat ← timeout ms o.heartbeat_timeout
    schedule_to_close ← timeout ms o.schedule_to_close_timeout
    start_to_close ← timeout ms o.start_to_close_timeout
    schedule_to_start ← timeout ms o.schedule_to_start_timeout
    returned (record {
      activity_id = id_or o.activity_id seq;
      activity_type = type;
      arguments = payloads;
      retry_policy = policy;
      task_queue = text_or o.task_queue own_queue;
      heartbeat_timeout = heartbeat;
      schedule_to_close_timeout = schedule_to_close;
      start_to_close_timeout = start_to_close;
      schedule_to_start_timeout = schedule_to_start;
      local_retry_threshold = none;
      do_not_eagerly_execute = is_false o.allow_eager_dispatch;
    })

  unfoldable pub local_activity_attributes :
      (seq : ℕ) (activity_type : String) (args : List Value)
      → ActivityOptions
      → Outcome ActivityAttributes
  local_activity_attributes seq type args o = do
    payloads ← to_payloads c args
    policy ← optional_retry ms o.retry
    schedule_to_close ← timeout ms o.schedule_to_close_timeout
    start_to_close ← timeout ms o.start_to_close_timeout
    schedule_to_start ← timeout ms o.schedule_to_start_timeout
    threshold ← timeout ms o.local_retry_threshold
    returned (record {
      activity_id = numbered seq;
      activity_type = type;
      arguments = payloads;
      retry_policy = policy;
      task_queue = "";
      heartbeat_timeout = none;
      schedule_to_close_timeout = schedule_to_close;
      start_to_close_timeout = start_to_close;
      schedule_to_start_timeout = schedule_to_start;
      local_retry_threshold = threshold;
      do_not_eagerly_execute = false;
    })
