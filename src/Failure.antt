-- ===== src/Failure.antt =====
-- The error classes that cross the SDK's boundary, and their protobuf form:
-- packages/common/src/failure.ts, packages/workflow/src/errors.ts and the `ContinueAsNew` of
-- packages/workflow/src/interfaces.ts. A stack trace is the list of its lines.
pub mod Converter
pub mod Examples
use temporalio_sdk_typescrip.Prelude.{
  ℕ, String, Option, none, some, Bool, true, false, ◌&&◌, ◌||◌, List, [], ◌∷◌, str_eq,
  if◌then◌else◌,
}

-- What a workflow or an activity passes around. Values that are neither undefined nor made by
-- the SDK itself are told apart by a number, and so are payloads.
pub data Value : Type 0 where
  undefined : Value
  opaque : ℕ → Value
  run_id : String → Value
  attributes : (message : Option String) (stack_trace : Option (List String)) → Value

abbrev pub Payload : Type 0
Payload = ℕ

-- The interface `PayloadConverter` of packages/common/src/converter/payload-converter.ts, which the
-- user supplies. `none` is a thrown `ValueError`.
pub record PayloadConverter : Type 0 where
  pub to_payload : Value → Option Payload
  pub from_payload : Payload → Option Value

pub record WorkflowExecution : Type 0 where
  pub workflow_id : Option String
  pub run_id : Option String

pub data ErrorName : Type 0 where
  type_error illegal_state_error reference_error determinism_violation_error value_error : ErrorName

-- The fields of each subclass of `TemporalFailure`.
pub data Info : Type 0 where
  base : Info
  server : Bool → Info
  application : Option String → Bool → List Value → Info
  cancelled : List Value → Info
  terminated : Info
  timeout : Value → ℕ → Info
  activity : String → Option String → ℕ → Option String → Info
  child_workflow : Option String → WorkflowExecution → String → ℕ → Info
  already_started : String → String → Info

-- The `failureInfo` of temporal.api.failure.v1.IFailure.
pub data ProtoInfo : Type 0 where
  no_info : ProtoInfo
  server_info : Bool → ProtoInfo
  application_info : Option String → Bool → Option (List Payload) → ProtoInfo
  canceled_info : Option (List Payload) → ProtoInfo
  terminated_info : ProtoInfo
  timeout_info : Option (List Payload) → Option ℕ → ProtoInfo
  reset_workflow_info : Option (List Payload) → ProtoInfo
  activity_info : Option String → Option String → Option ℕ → Option String → ProtoInfo
  child_workflow_info :
      Option String → Option WorkflowExecution → Option String → Option ℕ → ProtoInfo

mutual
  pub data ProtoFailure : Type 0 where
    proto :
        (message : Option String) (stack_trace : Option (List String))
        (encoded_attributes : Option Payload) (cause : ProtoCause) (info : ProtoInfo)
        → ProtoFailure

  pub data ProtoCause : Type 0 where
    no_cause : ProtoCause
    because : ProtoFailure → ProtoCause

-- A thrown value that is no object.
pub data Primitive : Type 0 where
  text : String → Primitive
  other : ℕ → Primitive

-- `failure` is the protobuf message that an error was made from.
mutual
  pub data JsError : Type 0 where
    temporal :
        (message : String) (stack : List String) (failure : Option ProtoFailure) (info : Info)
        (cause : Cause)
        → JsError
    native : (name : String) (message : String) (stack : List String) (cause : Cause) → JsError
    continue_as_new : ℕ → JsError
    do_backoff : (attempt : Option ℕ) (duration_ms : ℕ) → JsError
    thrown : Primitive → JsError

  pub data Cause : Type 0 where
    uncaused : Cause
    caused : JsError → Cause

abbrev pub error_name : ErrorName → String
error_name type_error = "TypeError"
error_name illegal_state_error = "IllegalStateError"
error_name reference_error = "ReferenceError"
error_name determinism_violation_error = "DeterminismViolationError"
error_name value_error = "ValueError"

-- The class of a `TemporalFailure`, which is its name too.
abbrev pub class_name : Info → String
class_name base = "TemporalFailure"
class_name (server _) = "ServerFailure"
class_name (application _ _ _) = "ApplicationFailure"
class_name (cancelled _) = "CancelledFailure"
class_name terminated = "TerminatedFailure"
class_name (timeout _ _) = "TimeoutFailure"
class_name (activity _ _ _ _) = "ActivityFailure"
class_name (child_workflow _ _ _ _) = "ChildWorkflowFailure"
class_name (already_started _ _) = "WorkflowExecutionAlreadyStartedError"

-- An error that the SDK throws; its text is not modelled.
abbrev pub sdk_error : ErrorName → JsError
sdk_error name = native (error_name name) "" [] uncaused

abbrev pub is_temporal_failure : JsError → Bool
is_temporal_failure (temporal _ _ _ _ _) = true
is_temporal_failure _ = false

abbrev pub is_application_failure : JsError → Bool
is_application_failure (temporal _ _ _ (application _ _ _) _) = true
is_application_failure _ = false

abbrev pub is_cancelled_failure : JsError → Bool
is_cancelled_failure (temporal _ _ _ (cancelled _) _) = true
is_cancelled_failure _ = false

abbrev is_wrapper : Info → Bool
is_wrapper (activity _ _ _ _) = true
is_wrapper (child_workflow _ _ _ _) = true
is_wrapper _ = false

abbrev cause_is_cancelled : Cause → Bool
cause_is_cancelled uncaused = false
cause_is_cancelled (caused e) = is_cancelled_failure e

-- isCancellation of packages/workflow/src/errors.ts
unfoldable pub is_cancellation : JsError → Bool
is_cancellation (temporal m s f i c) =
    is_cancelled_failure (temporal m s f i c) || (is_wrapper i && cause_is_cancelled c)
is_cancellation _ = false

abbrev pub is_continue_as_new : JsError → Option ℕ
is_continue_as_new (continue_as_new c) = some c
is_continue_as_new _ = none

-- `message || String(error)`, where an error with no message is written as its name.
abbrev message_or : String → String → String
message_or m name = if str_eq m "" then name else m

abbrev fresh : String → Option String → List String → JsError
fresh m type stack = temporal m stack none (application type false []) uncaused

-- `to_text` is `String(...)` of a primitive value.
unfoldable pub ensure_application_failure : (to_text : ℕ → String) → JsError → JsError
ensure_application_failure to_text (temporal m s f (application t n d) c) =
    temporal m s f (application t n d) c
ensure_application_failure to_text (temporal m s f i c) =
    fresh (message_or m (class_name i)) (some (class_name i)) s
ensure_application_failure to_text (native n m s c) = fresh (message_or m n) (some n) s
ensure_application_failure to_text (continue_as_new c) =
    fresh "Workflow continued as new" (some "ContinueAsNew") []
ensure_application_failure to_text (do_backoff a d) =
    fresh "undefined" (some "LocalActivityDoBackoff") ("undefined" ∷ [])
ensure_application_failure to_text (thrown (text s)) = fresh s none []
ensure_application_failure to_text (thrown (other n)) = fresh (to_text n) none []

unfoldable pub ensure_temporal_failure : (to_text : ℕ → String) → JsError → JsError
unfolding ensure_application_failure
ensure_temporal_failure to_text (temporal m s f i c) = temporal m s f i c
ensure_temporal_failure to_text e = ensure_application_failure to_text e

mutual
  -- The message of the innermost cause.
  pub root_cause : JsError → Option String
  root_cause (temporal m s f i c) = root_cause_or m c
  root_cause (native n m s c) = some m
  root_cause (continue_as_new c) = some "Workflow continued as new"
  root_cause (do_backoff a d) = none
  root_cause (thrown (text s)) = some s
  root_cause (thrown (other n)) = none

  pub root_cause_or : String → Cause → Option String
  root_cause_or m uncaused = some m
  root_cause_or m (caused e) = root_cause e
