-- ===== src/Failure/Converter.antt =====
-- `DefaultFailureConverter` of packages/common/src/converter/failure-converter.ts. `none` is a thrown
-- error: one of the payload converter's, or the `TypeError` for missing attributes. The field
-- `source` is left out.
pub mod Laws
use temporalio_sdk_typescrip.Prelude.{
  ℕ, String, Option, none, some, Bool, true, false, not, ◌||◌, if◌then◌else◌, List, [], ◌∷◌, str_eq,
  any,
}
use Prim.Native.String.{◌++◌ as text_append}
use temporalio_sdk_typescrip.Failure.{
  Value, undefined, opaque, run_id, attributes, Payload, PayloadConverter, WorkflowExecution, Info,
  ProtoInfo, no_info, server_info, application_info, canceled_info, terminated_info, timeout_info,
  reset_workflow_info, activity_info, child_workflow_info, ProtoFailure, proto, ProtoCause,
  no_cause, because, JsError, temporal, native, continue_as_new, do_backoff, thrown, Primitive,
  text, other, Cause, uncaused, caused, base, server, application, cancelled, terminated, timeout,
  activity, child_workflow, already_started,
}

-- What the language decides: which lines of a stack match one of CUTOFF_STACK_PATTERNS, which values
-- count as true, and how a thrown value that is no error is written.
pub record Language : Type 0 where
  pub is_cutoff : String → Bool
  pub is_true : ℕ → Bool
  pub describe : ℕ → String
  pub describe_backoff : Option ℕ → ℕ → String

abbrev pub child_failed : String
child_failed = "Child Workflow execution failed"

-- `new ApplicationFailure(undefined)` and its like have the message "".
abbrev pub text_or_empty : Option String → String
text_or_empty none = ""
text_or_empty (some s) = s

abbrev lines_or_empty : Option (List String) → List String
lines_or_empty none = []
lines_or_empty (some s) = s

abbrev number_or_zero : Option ℕ → ℕ
number_or_zero none = 0
number_or_zero (some n) = n

abbrev name_in : Option String → Option String
name_in none = none
name_in (some s) = if str_eq s "" then none else some s

abbrev both : {A B C : Type 0} → (A → B → C) → Option A → Option B → Option C
both f none y = none
both f (some x) none = none
both f (some x) (some y) = some (f x y)

abbrev pub over : {A B : Type 0} → (A → B) → Option A → Option B
over f none = none
over f (some x) = some (f x)

module _ (c : PayloadConverter) where
  abbrev pub values_from : List Payload → Option (List Value)
  values_from [] = some []
  values_from (p ∷ ps) = both (λ v vs. v ∷ vs) (c.from_payload p) (values_from ps)

  -- arrayFromPayloads
  abbrev pub array_from : Option (List Payload) → Option (List Value)
  array_from none = some []
  array_from (some ps) = values_from ps

  -- `fromPayloadsAtIndex` at 0
  abbrev pub first_from : Option (List Payload) → Option Value
  first_from none = some undefined
  first_from (some []) = some undefined
  first_from (some (p ∷ _)) = c.from_payload p

  abbrev pub payloads_of : List Value → Option (List Payload)
  payloads_of [] = some []
  payloads_of (v ∷ vs) = both (λ p ps. p ∷ ps) (c.to_payload v) (payloads_of vs)

  -- `details && details.length ? { payloads: toPayloads(...) } : undefined`
  abbrev pub details_of : List Value → Option (Option (List Payload))
  details_of [] = some none
  details_of (v ∷ vs) = over some (payloads_of (v ∷ vs))

  abbrev pub child_of : Option String → Option WorkflowExecution → Option String → ℕ → Option Info
  child_of namespace (some execution) (some type) state =
      some (child_workflow namespace execution type state)
  child_of namespace _ _ state = none

  -- The class and the fields of the error for a `failureInfo`.
  abbrev pub info_from : ProtoInfo → Option Info
  info_from (application_info type non_retryable details) =
      over (λ vs. application type non_retryable vs) (array_from details)
  info_from (server_info non_retryable) = some (server non_retryable)
  info_from (timeout_info details type) =
      over (λ v. timeout v (number_or_zero type)) (first_from details)
  info_from terminated_info = some terminated
  info_from (canceled_info details) = over cancelled (array_from details)
  info_from (reset_workflow_info details) =
      over (λ vs. application (some "ResetWorkflow") false vs) (array_from details)
  info_from (child_workflow_info namespace execution type state) =
      child_of namespace execution (name_in type) (number_or_zero state)
  info_from (activity_info type id state identity) =
      over (λ name. activity name id (number_or_zero state) identity) (name_in type)
  info_from no_info = some base

  abbrev message_for : Option String → Info → String
  message_for m (child_workflow _ _ _ _) = child_failed
  message_for m i = text_or_empty m

  -- A timeout's cause is not read.
  abbrev caused_by : Option Cause → Info → Option Cause
  caused_by cause (timeout _ _) = some uncaused
  caused_by cause i = cause

  -- The end of `failureToError`: the common properties.
  abbrev pub error_for : ProtoFailure → Option Cause → Option Info → Option JsError
  error_for f cause none = none
  error_for (proto m s enc pc pi) cause (some i) =
      over (λ k. temporal (message_for m i) (lines_or_empty s) (some (proto m s enc pc pi)) i k)
        (caused_by cause i)

  -- The failure with the attributes that its encoded attributes hold.
  abbrev replaced {ℓ} : {A : Type ℓ} → Option A → Option A → Option A
  replaced none old = old
  replaced (some new) old = some new

  abbrev apply_attributes :
      Value
      → Option String
      → Option (List String)
      → Option Payload
      → ProtoCause
      → ProtoInfo
      → ProtoFailure
  apply_attributes (attributes m s) m' s' enc pc pi =
      proto (replaced m m') (replaced s s') enc pc pi
  apply_attributes _ m s enc pc pi = proto m s enc pc pi

  unfoldable pub with_attributes : ProtoFailure → Option ProtoFailure
  with_attributes (proto m s none pc pi) = some (proto m s none pc pi)
  with_attributes (proto m s (some p) pc pi) =
      over (λ v. apply_attributes v m s (some p) pc pi) (c.from_payload p)

  abbrev pub error_from : Option ProtoFailure → Option Cause → ProtoInfo → Option JsError
  error_from none cause pi = none
  error_from (some f) cause pi = error_for f cause (info_from pi)

  unfoldable mutual
    pub failure_to_error : ProtoFailure → Option JsError
    failure_to_error (proto m s enc pc pi) =
        error_from (with_attributes (proto m s enc pc pi)) (optional_failure_to_optional_error pc)
          pi

    pub optional_failure_to_optional_error : ProtoCause → Option Cause
    optional_failure_to_optional_error no_cause = some uncaused
    optional_failure_to_optional_error (because f) = over caused (failure_to_error f)

module _ (l : Language) where
  -- cutoffStackTrace
  unfoldable pub cutoff_stack_trace : List String → List String
  cutoff_stack_trace [] = []
  cutoff_stack_trace (x ∷ xs) = if l.is_cutoff x then [] else x ∷ cutoff_stack_trace xs

  abbrev pub recommendation : String
  recommendation =
      " [A non-Error value was thrown from your code. We recommend throwing Error objects so that we can provide a stack trace]"

  abbrev heartbeat_is_true : Value → Bool
  heartbeat_is_true undefined = false
  heartbeat_is_true (opaque n) = l.is_true n
  heartbeat_is_true (run_id s) = not (str_eq s "")
  heartbeat_is_true (attributes _ _) = true

  -- `err ? ... : undefined` on a cause.
  abbrev pub is_true_error : JsError → Bool
  is_true_error (thrown (text s)) = not (str_eq s "")
  is_true_error (thrown (other n)) = l.is_true n
  is_true_error _ = true

  module _ (c : PayloadConverter) where
    abbrev pub heartbeat_details : Value → Option (Option (List Payload))
    heartbeat_details v =
        if heartbeat_is_true v then over (λ p. some (p ∷ [])) (c.to_payload v) else some none

    abbrev pub info_to : Info → Option ProtoInfo
    info_to (activity type id state identity) =
        some (activity_info (some type) id (some state) identity)
    info_to (child_workflow namespace execution type state) =
        some (child_workflow_info namespace (some execution) (some type) (some state))
    info_to (application type non_retryable details) =
        over (λ d. application_info type non_retryable d) (details_of c details)
    info_to (cancelled details) = over canceled_info (details_of c details)
    info_to (timeout v type) = over (λ d. timeout_info d (some type)) (heartbeat_details v)
    info_to (server non_retryable) = some (server_info non_retryable)
    info_to terminated = some terminated_info
    info_to base = some no_info
    info_to (already_started _ _) = some no_info

    abbrev plain : String → ProtoFailure
    plain m = proto (some m) none none no_cause no_info

    abbrev pub failure_of :
        String → List String → Option ProtoCause → Option ProtoInfo → Option ProtoFailure
    failure_of m s cause info =
        both (λ pc pi. proto (some m) (some (cutoff_stack_trace s)) none pc pi) cause info

    module _ (encode_common_attributes : Bool) where
      -- `errorToFailure` after `errorToFailureInner`.
      abbrev pub encoded : ProtoFailure → Option ProtoFailure
      encoded (proto m s enc pc pi) =
          if encode_common_attributes
          then over (λ p. proto (some "Encoded failure") (some []) (some p) pc pi)
              (c.to_payload (attributes m s))
          else some (proto m s enc pc pi)

      abbrev pub then_encoded : Option ProtoFailure → Option ProtoFailure
      then_encoded none = none
      then_encoded (some f) = encoded f

      unfoldable mutual
        pub error_to_failure_inner : JsError → Option ProtoFailure
        error_to_failure_inner (temporal m s (some f) i cause) = some f
        error_to_failure_inner (temporal m s none i cause) =
            failure_of m s (optional_error_to_optional_failure cause) (info_to i)
        error_to_failure_inner (native n m s cause) =
            failure_of m s (optional_error_to_optional_failure cause) (some no_info)
        error_to_failure_inner (continue_as_new k) =
            failure_of "Workflow continued as new" [] (some no_cause) (some no_info)
        error_to_failure_inner (do_backoff n d) =
            some (plain (text_append (l.describe_backoff n d) recommendation))
        error_to_failure_inner (thrown (text s)) = some (plain (text_append s recommendation))
        error_to_failure_inner (thrown (other n)) =
            some (plain (text_append (l.describe n) recommendation))

        pub optional_error_to_optional_failure : Cause → Option ProtoCause
        optional_error_to_optional_failure uncaused = some no_cause
        optional_error_to_optional_failure (caused e) =
            if is_true_error e
            then over because (then_encoded (error_to_failure_inner e))
            else some no_cause

      unfoldable pub error_to_failure : JsError → Option ProtoFailure
      error_to_failure e = then_encoded (error_to_failure_inner e)

-- `errorToFailure` writes the encoded attributes into the failure that it gives, which is the error's
-- own `failure` where it has one: the error as the call leaves it.
abbrev pub after_conversion : JsError → ProtoFailure → JsError
after_conversion (temporal m s (some _) i k) f = temporal m s (some f) i k
after_conversion e f = e
