-- ===== src/Activator/Jobs.antt =====
-- The activation job handlers of packages/workflow/src/internals.ts that complete what the workflow
-- waits for, and the ways in which a workflow ends.
pub mod Resolving
use temporalio_sdk_typescrip.Prelude.{
  ℕ, String, Option, none, some, Bool, true, false, ◌&&◌, if◌then◌else◌, List, [], ◌∷◌, str_eq, any,
  not, ◌==◌, ◌++◌,
}
use temporalio_sdk_typescrip.Time.{Packages}
use temporalio_sdk_typescrip.Failure.{
  Value, undefined, run_id, Payload, PayloadConverter, ProtoFailure, JsError, temporal,
  already_started, uncaused, do_backoff, sdk_error, type_error, illegal_state_error, value_error,
  is_temporal_failure, is_cancellation, is_continue_as_new, ensure_temporal_failure,
}
use temporalio_sdk_typescrip.Activator.{
  Activator, CompletionType, timer, activity, child_workflow_start, child_workflow_complete,
  signal_workflow, cancel_workflow, Settlement, resolved, rejected, Outcome, returned, threw, M,
  ◌>>=◌, ◌>>◌, done, raise, run, maybe_consume_completion, settle, push_command, enqueue,
  complete_query_with, fail_query_with, Command, respond_to_query, QueryAnswer,
  complete_workflow_execution, fail_workflow_execution, cancel_workflow_execution,
  continue_as_new_workflow_execution,
}
use temporalio_sdk_typescrip.Activator.Scopes.{cancel_root}

-- The payload and the failure converter of a workflow, where `none` is a thrown error, and the
-- packages that the isolate is built with.
pub record Converters : Type 0 where
  pub payloads : PayloadConverter
  pub error_to_failure : JsError → Option ProtoFailure
  pub failure_to_error : ProtoFailure → Option JsError
  pub text_of : ℕ → String
  pub packages : Packages

abbrev pub or_throw : {A : Type 0} → JsError → Option A → M A
or_throw e none = raise e
or_throw e (some x) = done x

-- The truth of a text and of a number, and `Set.add`.
abbrev pub is_text : String → Bool
is_text s = not (str_eq s "")

abbrev is_nonzero : Option ℕ → Bool
is_nonzero none = false
is_nonzero (some n) = not (n == 0)

abbrev pub has_text : String → List String → Bool
has_text s l = any (λ t. str_eq t s) l

abbrev pub add_text : String → List String → List String
add_text s l = if has_text s l then l else l ++ s ∷ []

-- getSeq
abbrev pub get_seq : Option ℕ → M ℕ
get_seq = or_throw (sdk_error type_error)

abbrev pub consume_completion : CompletionType → ℕ → M ℕ
consume_completion type seq a =
    let (found, b) = maybe_consume_completion type seq a in
    or_throw (sdk_error illegal_state_error) found b

-- coresdk.activity_result.IActivityResolution
pub data ActivityResolution : Type 0 where
  completed : Option Payload → ActivityResolution
  failed cancelled : Option ProtoFailure → ActivityResolution
  backoff : (attempt : Option ℕ) (duration_ms : ℕ) → ActivityResolution
  no_status : ActivityResolution

pub data ChildStart : Type 0 where
  succeeded : String → ChildStart
  failed : (already_exists : Bool) (workflow_id workflow_type : String) → ChildStart
  cancelled : Option ProtoFailure → ChildStart
  no_status : ChildStart

pub data ChildResult : Type 0 where
  completed : Option Payload → ChildResult
  failed cancelled : Option ProtoFailure → ChildResult
  no_status : ChildResult

-- `completion?.resolve(undefined)`
abbrev pub resolve_found : Option ℕ → Activator → Activator
resolve_found none a = a
resolve_found (some p) a = settle p (resolved undefined) a

module _ (c : Converters) where
  abbrev pub from_payload : Payload → M Value
  from_payload p = or_throw (sdk_error value_error) (c.payloads.from_payload p)

  abbrev pub to_payload : Value → M Payload
  to_payload v = or_throw (sdk_error value_error) (c.payloads.to_payload v)

  -- `result ? fromPayload(result) : undefined`
  abbrev pub optional_value : Option Payload → M Value
  optional_value none = done undefined
  optional_value (some p) = from_payload p

  abbrev pub failure_to_error : ProtoFailure → M JsError
  failure_to_error f = or_throw (sdk_error type_error) (c.failure_to_error f)

  abbrev pub error_to_failure : JsError → M ProtoFailure
  error_to_failure e = or_throw (sdk_error value_error) (c.error_to_failure e)

  -- `failure ? this.failureToError(failure) : undefined`
  abbrev pub optional_error : Option ProtoFailure → M (Option JsError)
  optional_error none = done none
  optional_error (some f) = failure_to_error f >>= λ e. done (some e)

  abbrev pub required_error : Option ProtoFailure → M (Option JsError)
  required_error none = raise (sdk_error type_error)
  required_error (some f) = failure_to_error f >>= λ e. done (some e)

  -- A timer may have been cancelled at once, with no word from Core.
  unfoldable pub fire_timer : Option ℕ → M (Unit {0})
  fire_timer seq = get_seq seq >>= λ n a.
      let (found, b) = maybe_consume_completion timer n a in (returned tt, resolve_found found b)

  abbrev pub finish_activity : ℕ → ActivityResolution → M (Unit {0})
  finish_activity p (completed r) = optional_value r >>= λ v. run (settle p (resolved v))
  finish_activity p (failed f) = optional_error f >>= λ e. run (settle p (rejected e))
  finish_activity p (cancelled f) = optional_error f >>= λ e. run (settle p (rejected e))
  finish_activity p (backoff n d) = run (settle p (rejected (some (do_backoff n d))))
  finish_activity p no_status = done tt

  unfoldable pub resolve_activity : Option ℕ → Option ActivityResolution → M (Unit {0})
  resolve_activity seq none = raise (sdk_error type_error)
  resolve_activity seq (some result) = do
    n ← get_seq seq
    p ← consume_completion activity n
    finish_activity p result

  abbrev pub finish_child_start : Option ℕ → ℕ → ChildStart → M (Unit {0})
  finish_child_start seq p (succeeded r) = run (settle p (resolved (run_id r)))
  finish_child_start seq p (failed exists id type) =
      if exists
      then if is_nonzero seq && is_text id && is_text type
        then run (
            settle p (
              rejected (
                some (
                  temporal "Workflow execution already started" [] none (already_started id type)
                    uncaused))))
        else raise (sdk_error type_error)
      else raise (sdk_error illegal_state_error)
  finish_child_start seq p (cancelled f) = required_error f >>= λ e. run (settle p (rejected e))
  finish_child_start seq p no_status = raise (sdk_error type_error)

  unfoldable pub resolve_child_workflow_execution_start : Option ℕ → ChildStart → M (Unit {0})
  resolve_child_workflow_execution_start seq status = do
    n ← get_seq seq
    p ← consume_completion child_workflow_start n
    finish_child_start seq p status

  abbrev pub finish_child : ℕ → ChildResult → M (Unit {0})
  finish_child p (completed r) = optional_value r >>= λ v. run (settle p (resolved v))
  finish_child p (failed f) = required_error f >>= λ e. run (settle p (rejected e))
  finish_child p (cancelled f) = required_error f >>= λ e. run (settle p (rejected e))
  finish_child p no_status = done tt

  unfoldable pub resolve_child_workflow_execution : Option ℕ → Option ChildResult → M (Unit {0})
  resolve_child_workflow_execution seq none = raise (sdk_error type_error)
  resolve_child_workflow_execution seq (some result) = do
    n ← get_seq seq
    p ← consume_completion child_workflow_complete n
    finish_child p result

  -- `failure ? reject(this.failureToError(failure)) : resolve(undefined)`
  abbrev pub finish_external : ℕ → Option ProtoFailure → M (Unit {0})
  finish_external p none = run (settle p (resolved undefined))
  finish_external p (some f) = failure_to_error f >>= λ e. run (settle p (rejected (some e)))

  unfoldable pub resolve_signal_external_workflow : Option ℕ → Option ProtoFailure → M (Unit {0})
  resolve_signal_external_workflow seq failure = do
    n ← get_seq seq
    p ← consume_completion signal_workflow n
    finish_external p failure

  unfoldable pub resolve_request_cancel_external_workflow :
      Option ℕ → Option ProtoFailure → M (Unit {0})
  resolve_request_cancel_external_workflow seq failure = do
    n ← get_seq seq
    p ← consume_completion cancel_workflow n
    finish_external p failure

  -- A failure that is no `TemporalFailure` is thrown on, and fails the activation.
  abbrev pub handle_plain : JsError → (is_temporal : Bool) → M (Unit {0})
  handle_plain error true =
      error_to_failure error >>= λ f. run (push_command (fail_workflow_execution f) true)
  handle_plain error false = raise error

  abbrev pub handle_other : JsError → (continuing : Option ℕ) → M (Unit {0})
  handle_other error (some cmd) = run (push_command (continue_as_new_workflow_execution cmd) true)
  handle_other error none = handle_plain error (is_temporal_failure error)

  abbrev pub handle_uncancelled : JsError → M (Unit {0})
  handle_uncancelled error = handle_other error (is_continue_as_new error)

  unfoldable pub handle_workflow_failure : JsError → M (Unit {0})
  handle_workflow_failure error a =
      if a.cancelled && is_cancellation error
      then (returned tt, push_command cancel_workflow_execution true a)
      else handle_uncancelled error a

  unfoldable pub complete_workflow : Value → M (Unit {0})
  complete_workflow result =
      to_payload result >>= λ p. run (push_command (complete_workflow_execution p) true)

  unfoldable pub complete_query : String → Value → M (Unit {0})
  complete_query id result = to_payload result >>= λ p.
      run (push_command (respond_to_query id (QueryAnswer.succeeded p)) false)

  unfoldable pub fail_query : String → JsError → M (Unit {0})
  fail_query id error = do
    f ← error_to_failure (ensure_temporal_failure c.text_of error)
    run (push_command (respond_to_query id (QueryAnswer.failed f)) false)

unfoldable pub cancel_workflow_job : Activator → Activator
unfolding cancel_root
cancel_workflow_job a = cancel_root (record a { cancelled = true })

-- `alea` reseeds the generator, which is known by its seed.
unfoldable pub update_random_seed : Option (List ℕ) → M (Unit {0})
update_random_seed none = raise (sdk_error type_error)
update_random_seed (some seed) = run (λ a. record a { random_seed = seed })

unfoldable pub notify_has_patch : String → M (Unit {0})
notify_has_patch id =
    if is_text id
    then run (λ a. record a { known_present_patches = add_text id a.known_present_patches })
    else raise (sdk_error type_error)

unfoldable pub remove_from_cache : M (Unit {0})
remove_from_cache = raise (sdk_error illegal_state_error)
