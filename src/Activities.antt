-- ===== src/Activities.antt =====
-- Activities in a worker: the class `Activity` of packages/worker/src/activity.ts, and
-- `activityOperator` of packages/worker/src/worker.ts. Task tokens and the functions of activities
-- are numbers. What an activity does and when it ends comes as events.
pub mod Outcomes
pub mod Operator
mod Examples
use temporalio_sdk_typescrip.Prelude.{
  ℕ, String, Option, none, some, Bool, true, false, List, [], ◌∷◌, if◌then◌else◌, str_eq,
}
use temporalio_sdk_typescrip.Prelude.Checked.{Checked, valid, invalid}
use temporalio_sdk_typescrip.Failure.{
  Value, Payload, ProtoFailure, proto, no_cause, canceled_info, JsError, temporal, native,
  application, uncaused, is_cancelled_failure, ensure_application_failure,
}
use temporalio_sdk_typescrip.Failure.Converter.{over}
use temporalio_sdk_typescrip.DataConverter.{
  DataConverter, encode_to_payload, encode_error_to_failure,
}

-- A reason of Core, by its number, or one of the SDK's own.
pub data CancelReason : Type 0 where
  core_reason : ℕ → CancelReason
  worker_shutdown : CancelReason
  heartbeat_details_conversion_failed : CancelReason

-- `cancelled` is what the context's promise is rejected with, once it is: the reason of the first
-- cancellation, which `none` leaves undefined. A later one changes only `cancelReason`.
pub record Activity : Type 0 where
  pub fn : ℕ
  pub arguments : List Value
  pub cancel_reason : Option CancelReason
  pub cancelled : Option (Option CancelReason)
  pub aborted : Bool

abbrev pub new_activity : ℕ → List Value → Activity
new_activity fn arguments = record {
  fn = fn;
  arguments = arguments;
  cancel_reason = none;
  cancelled = none;
  aborted = false;
}

abbrev first_reason :
    Option (Option CancelReason) → Option CancelReason → Option (Option CancelReason)
first_reason none reason = some reason
first_reason (some earlier) reason = some earlier

abbrev pub cancel : Option CancelReason → Activity → Activity
cancel reason a = record a {
  cancel_reason = reason;
  cancelled = first_reason a.cancelled reason;
  aborted = true;
}

-- How the function of an activity ends, with its interceptors.
pub data Ending : Type 0 where
  returned : Value → Ending
  complete_async : Ending
  threw : JsError → Ending

-- IActivityExecutionResult
pub data ExecutionResult : Type 0 where
  completed : Option Payload → ExecutionResult
  failed : ProtoFailure → ExecutionResult
  cancelled_result : ProtoFailure → ExecutionResult
  will_complete_async : ExecutionResult

-- `err instanceof Error && err.name === 'AbortError'`
abbrev pub is_abort_error : JsError → Bool
is_abort_error (native name m s c) = str_eq name "AbortError"
is_abort_error _ = false

abbrev without_stack : ProtoFailure → ProtoFailure
without_stack (proto m s enc c i) = proto m none enc c i

abbrev pub aborted_failure : ProtoFailure
aborted_failure = proto none none none no_cause (canceled_info none)

abbrev pub details_failure : JsError
details_failure =
    temporal "HEARTBEAT_DETAILS_CONVERSION_FAILED" [] none
      (application (some "CancelledFailure") false []) uncaused

-- What the operator needs of the code around it: `String(...)` of a primitive value, the error with
-- which a value cannot be encoded, the texts of the failures that it makes itself, and the numbers
-- that the generated enumeration `ActivityCancelReason` has.
pub record Surroundings : Type 0 where
  pub data_converter : DataConverter
  pub to_text : ℕ → String
  pub encoding_error : JsError
  pub not_registered : String → List String → String
  pub not_parsed : String → String
  pub parse_error_name : Option String
  pub has_cancel_reason : ℕ → Bool

module _ (s : Surroundings) where
  abbrev pub as_failure : Option ProtoFailure → Option ExecutionResult
  as_failure f = over failed f

  abbrev plainly_failed : JsError → Option ExecutionResult
  plainly_failed e =
      as_failure (encode_error_to_failure s.data_converter (ensure_application_failure s.to_text e))

  abbrev pub failed_with : Option CancelReason → JsError → Option ExecutionResult
  failed_with none e = plainly_failed e
  failed_with (some heartbeat_details_conversion_failed) e =
      as_failure (encode_error_to_failure s.data_converter details_failure)
  failed_with (some reason) e =
      if is_cancelled_failure e
      then over (λ f. cancelled_result (without_stack f))
          (encode_error_to_failure s.data_converter e)
      else if is_abort_error e
      then some (cancelled_result aborted_failure)
      else plainly_failed e

  abbrev encoded_or_failed : Option CancelReason → Option (Option Payload) → Option ExecutionResult
  encoded_or_failed reason (some p) = some (completed p)
  encoded_or_failed reason none = failed_with reason s.encoding_error

  -- `run`, once the function has ended; `none` is a rejected promise.
  unfoldable pub run_result : Activity → Ending → Option ExecutionResult
  unfolding ensure_application_failure
  run_result a (returned v) =
      encoded_or_failed a.cancel_reason (encode_to_payload s.data_converter v)
  run_result a complete_async = some will_complete_async
  run_result a (threw e) = failed_with a.cancel_reason e
