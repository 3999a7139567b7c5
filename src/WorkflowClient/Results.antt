-- ===== src/WorkflowClient/Results.antt =====
-- The wait for a workflow's result: `result` of packages/client/src/workflow-client.ts.
pub mod Chains
use temporalio_sdk_typescrip.Prelude.{
  ℕ, zero, suc, String, Option, none, some, Bool, true, false, not, ◌&&◌, List, [], ◌∷◌, length,
  if◌then◌else◌, str_eq,
}
use temporalio_sdk_typescrip.Prelude.Checked.{Checked, valid, invalid}
use temporalio_sdk_typescrip.Failure.{
  Value, undefined, Payload, ProtoCause, JsError, temporal, Cause, uncaused, caused, cancelled,
  terminated, timeout,
}
use temporalio_sdk_typescrip.DataConverter.{
  DataConverter, decode_array_from_payloads, decode_optional_failure_to_optional_error,
}
use temporalio_sdk_typescrip.WorkflowClient.{
  ClientError, workflow_failed, workflow_continued_as_new, type_error, too_many_events,
  not_converted, ServiceFailure, rethrow_grpc_error, or_else,
}

-- A close event of a history, by the attributes that it has; `unmarked` has none of them.
pub data HistoryEvent : Type 0 where
  completed : (result : Option (List Payload)) (new_run : Option String) → HistoryEvent
  failed : (failure : ProtoCause) (retry_state : Option ℕ) (new_run : Option String) → HistoryEvent
  canceled : (details : Option (List Payload)) → HistoryEvent
  terminated_event : (reason : Option String) → HistoryEvent
  timed_out : (retry_state : Option ℕ) (new_run : Option String) → HistoryEvent
  continued_as_new : (new_run : Option String) → HistoryEvent
  unmarked : HistoryEvent

pub record HistoryResponse : Type 0 where
  pub events : Option (List HistoryEvent)
  pub next_page_token : Option ℕ

-- What varies in the request: the run, and the page. It waits for new events, skips the archive and
-- filters for the close event.
pub record HistoryRequest : Type 0 where
  pub run_id : Option String
  pub next_page_token : Option ℕ

abbrev pub non_retryable_failure : ℕ
non_retryable_failure = 2

abbrev pub start_to_close : ℕ
start_to_close = 1

-- A text that counts as true, if it does.
abbrev pub truthy : Option String → Option String
truthy none = none
truthy (some s) = if str_eq s "" then none else some s

abbrev pub Outcome : Type 0
Outcome = Checked ClientError Value

-- What an answer leads to: another request, or the end.
pub data Verdict : Type 0 where
  ask : HistoryRequest → Verdict
  finish : Outcome → Verdict

-- `const [result] = await decodeArrayFromPayloads(...)`
abbrev pub first_result : Option (List Value) → Outcome
first_result none = invalid not_converted
first_result (some []) = valid undefined
first_result (some (v ∷ vs)) = valid v

abbrev pub failed_because : ℕ → Option Cause → Outcome
failed_because state none = invalid not_converted
failed_because state (some cause) =
    invalid (workflow_failed "Workflow execution failed" cause state)

abbrev pub cancelled_with : Option (List Value) → Outcome
cancelled_with none = invalid not_converted
cancelled_with (some details) = invalid (
    workflow_failed "Workflow execution cancelled"
      (caused (temporal "Workflow canceled" [] none (cancelled details) uncaused))
      non_retryable_failure)

abbrev pub terminated_for : String → Outcome
terminated_for reason = invalid (
    workflow_failed reason (caused (temporal reason [] none terminated uncaused))
      non_retryable_failure)

abbrev pub timed_out_in : ℕ → Outcome
timed_out_in state = invalid (
    workflow_failed "Workflow execution timed out"
      (caused (
        temporal "Workflow execution timed out" [] none (timeout undefined start_to_close)
          uncaused))
      state)

abbrev pub new_run : String → HistoryRequest
new_run run = record { run_id = some run; next_page_token = none }

-- `if (followRuns && newExecutionRunId) { ...; continue; }`
abbrev pub or_follow : Bool → Option String → Outcome → Verdict
or_follow true (some run) o = ask (new_run run)
or_follow true none o = finish o
or_follow false run o = finish o

abbrev on_new_run : Bool → Option String → Verdict
on_new_run follow_runs none = finish (
    invalid (
      type_error
        "Expected service to return newExecutionRunId for WorkflowExecutionContinuedAsNewEvent"))
on_new_run true (some run) = ask (new_run run)
on_new_run false (some run) =
    finish (invalid (workflow_continued_as_new "Workflow execution continued as new" run))

abbrev pub on_verdict : (HistoryRequest → Option Outcome) → Verdict → Option Outcome
on_verdict again (ask q) = again q
on_verdict again (finish o) = some o

module _ (d : DataConverter) (serve : ℕ → HistoryRequest → Checked ServiceFailure HistoryResponse)
    (workflow_id : String) (run_id : Option String) (follow_runs : Bool) where
  unfoldable pub on_event : HistoryRequest → HistoryEvent → Verdict
  on_event q (completed result run) =
      or_follow follow_runs (truthy run) (first_result (decode_array_from_payloads d result))
  on_event q (failed failure state run) =
      or_follow follow_runs (truthy run)
        (failed_because (or_else state 0) (decode_optional_failure_to_optional_error d failure))
  on_event q (canceled details) = finish (cancelled_with (decode_array_from_payloads d details))
  on_event q (terminated_event reason) =
      finish (terminated_for (or_else (truthy reason) "Workflow execution terminated"))
  on_event q (timed_out state run) =
      or_follow follow_runs (truthy run) (timed_out_in (or_else state 0))
  on_event q (continued_as_new run) = on_new_run follow_runs (truthy run)
  on_event q unmarked = ask q

  abbrev on_events : HistoryRequest → Option ℕ → Option (List HistoryEvent) → Verdict
  on_events q token none = ask (record q { next_page_token = token })
  on_events q token (some []) = ask (record q { next_page_token = token })
  on_events q token (some (e ∷ [])) = on_event q e
  on_events q token (some (e ∷ (f ∷ es))) =
      finish (invalid (too_many_events (length (e ∷ (f ∷ es)))))

  abbrev pub on_answer : HistoryRequest → Checked ServiceFailure HistoryResponse → Verdict
  on_answer q (invalid e) = finish (
      invalid (
        rethrow_grpc_error e "Failed to get Workflow execution history"
          (some (record { workflow_id = workflow_id; run_id = run_id }))))
  on_answer q (valid r) = on_events q r.next_page_token r.events

  -- The loop on fuel; `calls` is the number of the next call of the service.
  unfoldable pub result_loop : (fuel calls : ℕ) → HistoryRequest → Option Outcome
  result_loop zero calls q = none
  result_loop (suc fuel) calls q =
      on_verdict (λ next. result_loop fuel (suc calls) next) (on_answer q (serve calls q))

  abbrev pub result : (fuel : ℕ) → Option Outcome
  result fuel = result_loop fuel 0 (record { run_id = run_id; next_page_token = none })
