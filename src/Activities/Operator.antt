-- ===== src/Activities/Operator.antt =====
-- The tasks of activities: `activityOperator` of packages/worker/src/worker.ts, with its groups by task
-- token. A task is taken in one step; the activity runs until an event says how it has ended.
pub mod Counting
pub mod Settled
pub mod Accounts
use temporalio_sdk_typescrip.Prelude.{
  ℕ, suc, ◌-◌, String, Option, none, some, Bool, true, false, List, [], ◌∷◌, ◌++◌, if◌then◌else◌,
  lookup, insert, remove, remove_first, nat_key, string_key,
}
use temporalio_sdk_typescrip.Failure.{Value, Payload, proto, no_cause, application_info}
use temporalio_sdk_typescrip.DataConverter.{decode_array_from_payloads, decode_from_payloads_at_0}
use temporalio_sdk_typescrip.Heartbeat.{HeartbeatInput, create, completion}
use temporalio_sdk_typescrip.Activities.{
  CancelReason, core_reason, worker_shutdown, heartbeat_details_conversion_failed, Activity,
  new_activity, cancel, Ending, ExecutionResult, completed, failed, cancelled_result,
  will_complete_async, Surroundings, run_result,
}

pub record StartTask : Type 0 where
  pub activity_type : String
  pub input : Option (List Payload)
  pub heartbeat_details : Option (List Payload)

-- The variants of a task; the reason of a cancellation may be missing.
pub data Variant : Type 0 where
  start : StartTask → Variant
  cancel_task : Option ℕ → Variant
  no_variant : Variant

-- Why the whole stream fails.
pub data Fatal : Type 0 where
  no_variant_given already_running info_not_decoded result_not_encoded : Fatal

-- `running` are the activities in the states of the groups. `flushing` are results that wait for the
-- last heartbeat. Outputs are in the order in which they were made.
pub record Activities : Type 0 where
  pub running : List (ℕ × Activity)
  pub in_flight : ℕ
  pub flushing : List (ℕ × ExecutionResult)
  pub completions : List (ℕ × ExecutionResult)
  pub heartbeat_inputs : List (ℕ × HeartbeatInput)
  pub fatal : Option Fatal

abbrev pub no_activities : Activities
no_activities = record {
  running = [];
  in_flight = 0;
  flushing = [];
  completions = [];
  heartbeat_inputs = [];
  fatal = none;
}

abbrev pub emit : ℕ → ExecutionResult → Activities → Activities
emit token result w = record w { completions = w.completions ++ (token, result) ∷ [] }

abbrev pub fail_all : Fatal → Activities → Activities
fail_all why w = record w { fatal = some why }

abbrev pub heartbeat_input : ℕ → HeartbeatInput → Activities → Activities
heartbeat_input token i w = record w { heartbeat_inputs = w.heartbeat_inputs ++ (token, i) ∷ [] }

abbrev names : List (String × ℕ) → List String
names [] = []
names ((k, v) ∷ m) = k ∷ names m

abbrev pub on_cancel : ℕ → Option CancelReason → Option Activity → Activities → Activities
on_cancel token reason none w = w
on_cancel token reason (some a) w = record w { running = insert token (cancel reason a) w.running }

-- The end of `activity.run`: the group is closed, and a failure waits for the last heartbeat.
abbrev pub ended : ℕ → Activities → Activities
ended token w = record w { running = remove token w.running; in_flight = w.in_flight - 1 }

abbrev pub with_result : ℕ → Option ExecutionResult → Activities → Activities
with_result token none w = fail_all result_not_encoded w
with_result token (some (failed f)) w =
    heartbeat_input token (completion true token)
      (record w { flushing = w.flushing ++ (token, failed f) ∷ [] })
with_result token (some result) w =
    emit token result (heartbeat_input token (completion false token) w)

-- The callback of the heartbeats' completion: the first result that waits for the token.
abbrev pub taken : ℕ → List (ℕ × ExecutionResult) → Option ExecutionResult → Activities → Activities
taken token rest none w = w
taken token rest (some result) w = emit token result (record w { flushing = rest })

abbrev pub on_flushed : ℕ → Activities → Activities
on_flushed token w = taken token (remove_first token w.flushing) (lookup token w.flushing) w

pub data Event : Type 0 where
  task : (token : ℕ) → Variant → Event
  ends : (token : ℕ) → Ending → Event
  details_refused : (token : ℕ) → Event
  flushed : (token : ℕ) → Event

abbrev pub unless_fatal : Option Fatal → Activities → Activities → Activities
unless_fatal none next w = next
unless_fatal (some why) next w = w

module _ (s : Surroundings) (activities : List (String × ℕ)) where
  abbrev pub run_activity : ℕ → ℕ → List Value → Activities → Activities
  run_activity token fn arguments w = heartbeat_input token create (record w {
    running = insert token (new_activity fn arguments) w.running;
    in_flight = suc w.in_flight;
  })

  abbrev pub with_arguments : ℕ → StartTask → ℕ → Option (List Value) → Activities → Activities
  with_arguments token t fn none w =
      emit token
        (failed (
          proto (some (s.not_parsed t.activity_type)) none none no_cause
            (application_info s.parse_error_name false none)))
        w
  with_arguments token t fn (some arguments) w = run_activity token fn arguments w

  abbrev pub with_function : ℕ → StartTask → Option ℕ → Activities → Activities
  with_function token t none w =
      emit token
        (failed (
          proto (some (s.not_registered t.activity_type (names activities))) none none no_cause
            (application_info (some "NotFoundError") false none)))
        w
  with_function token t (some fn) w =
      with_arguments token t fn (decode_array_from_payloads s.data_converter t.input) w

  abbrev pub with_info : ℕ → StartTask → Option Value → Activities → Activities
  with_info token t none w = fail_all info_not_decoded w
  with_info token t (some details) w = with_function token t (lookup t.activity_type activities) w

  abbrev pub on_start : ℕ → StartTask → Option Activity → Activities → Activities
  on_start token t (some a) w = fail_all already_running w
  on_start token t none w =
      with_info token t (decode_from_payloads_at_0 s.data_converter t.heartbeat_details) w

  -- A number that the enumeration does not have gives undefined, which is what `cancel` is called with.
  abbrev pub reason_of : Option ℕ → Option CancelReason
  reason_of none = some worker_shutdown
  reason_of (some n) = if s.has_cancel_reason n then some (core_reason n) else none

  unfoldable pub on_task : ℕ → Variant → Activities → Activities
  on_task token (start t) w = on_start token t (lookup token w.running) w
  on_task token (cancel_task reason) w =
      on_cancel token (reason_of reason) (lookup token w.running) w
  on_task token no_variant w = fail_all no_variant_given w

  abbrev pub on_end : ℕ → Ending → Option Activity → Activities → Activities
  on_end token ending none w = w
  on_end token ending (some a) w = with_result token (run_result s a ending) (ended token w)

  unfoldable pub on_event : Event → Activities → Activities
  unfolding on_task
  on_event (task token v) w = on_task token v w
  on_event (ends token ending) w = on_end token ending (lookup token w.running) w
  on_event (details_refused token) w =
      on_cancel token (some heartbeat_details_conversion_failed) (lookup token w.running) w
  on_event (flushed token) w = on_flushed token w

  unfoldable pub on_events : List Event → Activities → Activities
  unfolding on_event
  on_events [] w = w
  on_events (x ∷ xs) w = on_events xs (unless_fatal w.fatal (on_event x w) w)
