-- ===== src/WorkflowClient/Handles.antt =====
-- The calls of the workflow client and its handles: packages/client/src/workflow-client.ts, with the
-- options of packages/common/src/workflow-options.ts. Headers, search attributes, identity and the
-- random request identifiers are left out.
pub mod Messages
pub mod Addressing
use temporalio_sdk_typescrip.Prelude.{
  ℕ, String, Option, none, some, Bool, true, false, ◌&&◌, List, [], ◌∷◌, if◌then◌else◌, ◌==◌,
  str_eq,
}
use temporalio_sdk_typescrip.Prelude.Checked.{Checked, valid, invalid, ◌>>=◌, ◌>>◌}
use temporalio_sdk_typescrip.Failure.{Value, Payload}
use temporalio_sdk_typescrip.Time.{Packages, Duration, Timestamp, TimeError, ms_optional_to_ts}
use temporalio_sdk_typescrip.Retry.{RetryPolicy, ProtoRetryPolicy, RetryError, compile_retry_policy}
use temporalio_sdk_typescrip.Interceptors.{Method, compose_interceptors}
use temporalio_sdk_typescrip.DataConverter.{
  DataConverter, encode_to_payloads, encode_map_to_payloads, decode_from_payloads_at_0,
}
use temporalio_sdk_typescrip.WorkflowClient.{
  ClientError, workflow_already_started, query_not_registered, query_rejected, type_error,
  not_converted, bad_time, bad_retry_policy, ServiceFailure, grpc, unexpected, Execution,
  already_exists, invalid_argument, rethrow_grpc_error, rethrow_known_error_types, or_else,
}
use temporalio_sdk_typescrip.WorkflowClient.Results.{
  HistoryRequest, HistoryResponse, Outcome, result,
}
use temporalio_sdk_typescrip.WorkflowClient.Handles.Messages.{
  WorkflowOptions, CompiledOptions, StartInput, SignalWithStartInput, StartRequest, TerminateInput,
  CancelInput, SignalInput, QueryInput, SignalRequest, QueryRequest, QueryResponse, Service,
  ClientInterceptors, WorkflowHandle, rejected, query_result,
}

abbrev converted : {A : Type 0} → Option A → Checked ClientError A
converted none = invalid not_converted
converted (some a) = valid a

abbrev timed : {A : Type 0} → Checked TimeError A → Checked ClientError A
timed (valid a) = valid a
timed (invalid e) = invalid (bad_time e)

abbrev caught :
    {A : Type 0} → String → Option Execution → Checked ServiceFailure A → Checked ClientError A
caught fallback execution (valid a) = valid a
caught fallback execution (invalid e) = invalid (rethrow_grpc_error e fallback execution)

abbrev retry_compiled :
    Checked RetryError ProtoRetryPolicy → Checked ClientError (Option ProtoRetryPolicy)
retry_compiled (valid p) = valid (some p)
retry_compiled (invalid e) = invalid (bad_retry_policy e)

abbrev pub execution_of : WorkflowHandle → Execution
execution_of h = record { workflow_id = h.workflow_id; run_id = h.run_id }

abbrev pub latest : String → Execution
latest id = record { workflow_id = id; run_id = none }

abbrev pub assert_required_workflow_options : WorkflowOptions → Checked ClientError (Unit {0})
assert_required_workflow_options o =
    if str_eq o.task_queue ""
    then invalid (type_error "Missing WorkflowOptions.taskQueue")
    else if str_eq o.workflow_id ""
    then invalid (type_error "Missing WorkflowOptions.workflowId")
    else valid tt

module _ (ms : Packages) where
  unfoldable pub compile_workflow_options : WorkflowOptions → Checked ClientError CompiledOptions
  unfolding ms_optional_to_ts
  compile_workflow_options o = do
    execution ← timed (ms_optional_to_ts ms o.execution_timeout)
    run ← timed (ms_optional_to_ts ms o.run_timeout)
    task ← timed (ms_optional_to_ts ms o.task_timeout)
    valid (record {
      options = o;
      execution_timeout = execution;
      run_timeout = run;
      task_timeout = task;
    })

  abbrev retry_of : Option RetryPolicy → Checked ClientError (Option ProtoRetryPolicy)
  retry_of none = valid none
  retry_of (some p) = retry_compiled (compile_retry_policy ms p)

  module _ (d : DataConverter) (s : Service) where
    abbrev memo_of :
        Option (List (String × Value))
        → Checked ClientError (Option (List (String × Option Payload)))
    memo_of none = valid none
    memo_of (some m) = elim (encode_map_to_payloads d m) [
      | none ↦ invalid not_converted
      | some n ↦ valid (some n)
    ]

    -- The request of a start, with the errors of the conversions in their order.
    unfoldable pub start_request : StartInput → Checked ClientError StartRequest
    unfolding ms_optional_to_ts compile_retry_policy
    start_request i = do
      input ← converted (encode_to_payloads d (or_else i.options.options.arguments []))
      retry ← retry_of i.options.options.retry
      memo ← memo_of i.options.options.memo
      valid (record {
        workflow_id = i.options.options.workflow_id;
        reuse_policy = i.options.options.reuse_policy;
        workflow_type = i.workflow_type;
        input = input;
        task_queue = i.options.options.task_queue;
        execution_timeout = i.options.execution_timeout;
        run_timeout = i.options.run_timeout;
        task_timeout = i.options.task_timeout;
        retry_policy = retry;
        memo = memo;
        cron_schedule = i.options.options.cron_schedule;
      })

    abbrev pub started : StartInput → Checked ServiceFailure String → Checked ClientError String
    started i (valid run) = valid run
    started i (invalid unexpected) = invalid (
        rethrow_grpc_error unexpected "Failed to start Workflow"
          (some (latest i.options.options.workflow_id)))
    started i (invalid (grpc code message details ds)) =
        if code == already_exists
        then invalid (workflow_already_started i.options.options.workflow_id i.workflow_type)
        else invalid (
            rethrow_grpc_error (grpc code message details ds) "Failed to start Workflow"
              (some (latest i.options.options.workflow_id)))

    unfoldable pub start_workflow_handler : StartInput → Checked ClientError String
    start_workflow_handler i = start_request i >>= λ q. started i (s.start_workflow_execution q)

    -- The signal's input is encoded after the start's.
    unfoldable pub signal_with_start_workflow_handler :
        SignalWithStartInput → Checked ClientError String
    signal_with_start_workflow_handler i = do
      q ← start_request i.start
      input ← converted (encode_to_payloads d i.signal_args)
      caught "Failed to signalWithStart Workflow"
          (some (latest i.start.options.options.workflow_id))
          (s.signal_with_start_workflow_execution q i.signal_name input)

    abbrev pub terminate_workflow_handler : TerminateInput → Checked ClientError (Unit {0})
    terminate_workflow_handler i =
        caught "Failed to terminate Workflow" (some i.execution) (s.terminate_workflow_execution i)

    abbrev pub cancel_workflow_handler : CancelInput → Checked ClientError (Unit {0})
    cancel_workflow_handler i =
        caught "Failed to cancel workflow" (some i.execution)
          (s.request_cancel_workflow_execution i)

    unfoldable pub signal_workflow_handler : SignalInput → Checked ClientError (Unit {0})
    signal_workflow_handler i = do
      input ← converted (encode_to_payloads d i.arguments)
      caught "Failed to signal Workflow" (some i.execution) (
          s.signal_workflow_execution
            (record { execution = i.execution; signal_name = i.signal_name; input = input }))

    abbrev or_error : Option ClientError → Checked ClientError Value → Checked ClientError Value
    or_error none next = next
    or_error (some e) next = invalid e

    abbrev queried : Execution → Checked ServiceFailure QueryResponse → Checked ClientError Value
    queried execution (invalid unexpected) =
        invalid (rethrow_grpc_error unexpected "Failed to query Workflow" (some execution))
    queried execution (invalid (grpc code message details ds)) =
        or_error (rethrow_known_error_types ds) (
          if code == invalid_argument
          then invalid (query_not_registered message)
          else invalid (
              rethrow_grpc_error (grpc code message details ds) "Failed to query Workflow"
                (some execution)))
    queried execution (valid (rejected none)) =
        invalid (type_error "Received queryRejected from server with no status")
    queried execution (valid (rejected (some status))) = invalid (query_rejected status)
    queried execution (valid (query_result none)) =
        invalid (type_error "Invalid response from server")
    queried execution (valid (query_result (some payloads))) =
        converted (decode_from_payloads_at_0 d payloads)

    unfoldable pub query_workflow_handler : QueryInput → Checked ClientError Value
    query_workflow_handler i = do
      arguments ← converted (encode_to_payloads d i.arguments)
      queried i.execution (
          s.query_workflow (record {
            execution = i.execution;
            reject_condition = i.reject_condition;
            query_type = i.query_type;
            query_args = arguments;
          }))

    module _ (interceptors : ClientInterceptors) where
      unfoldable pub start_call : String → WorkflowOptions → Checked ClientError String
      start_call type o = do
        assert_required_workflow_options o
        compiled ← compile_workflow_options o
        compose_interceptors interceptors.start start_workflow_handler
            (record { options = compiled; workflow_type = type })

      -- `start`: the handle of the new execution.
      unfoldable pub start : String → WorkflowOptions → Checked ClientError WorkflowHandle
      unfolding start_call
      start type o = do
        run ← start_call type o
        valid (record {
          workflow_id = o.workflow_id;
          run_id = none;
          first_execution_run_id = some run;
          run_id_for_result = some run;
          follow_runs = or_else o.follow_runs true;
        })

      unfoldable pub signal_with_start :
          String → WorkflowOptions → String → List Value → Checked ClientError WorkflowHandle
      signal_with_start type o signal_name signal_args = do
        assert_required_workflow_options o
        compiled ← compile_workflow_options o
        run ←
            compose_interceptors interceptors.signal_with_start signal_with_start_workflow_handler
              (record {
                start = record { options = compiled; workflow_type = type };
                signal_name = signal_name;
                signal_args = signal_args;
              })
        valid (record {
          workflow_id = o.workflow_id;
          run_id = none;
          first_execution_run_id = none;
          run_id_for_result = some run;
          follow_runs = or_else o.follow_runs true;
        })

      unfoldable pub terminate :
          WorkflowHandle → (reason : Option String) → Checked ClientError (Unit {0})
      terminate h reason =
          compose_interceptors interceptors.terminate terminate_workflow_handler (record {
            execution = execution_of h;
            reason = reason;
            first_execution_run_id = h.first_execution_run_id;
          })

      unfoldable pub cancel : WorkflowHandle → Checked ClientError (Unit {0})
      cancel h =
          compose_interceptors interceptors.cancel cancel_workflow_handler (record {
            execution = execution_of h;
            first_execution_run_id = h.first_execution_run_id;
          })

      unfoldable pub signal : WorkflowHandle → String → List Value → Checked ClientError (Unit {0})
      signal h name arguments =
          compose_interceptors interceptors.signal signal_workflow_handler
            (record { execution = execution_of h; signal_name = name; arguments = arguments })

      unfoldable pub query :
          (reject_condition : ℕ) → WorkflowHandle → String → List Value → Checked ClientError Value
      query reject_condition h type arguments =
          compose_interceptors interceptors.query query_workflow_handler (record {
            execution = execution_of h;
            reject_condition = reject_condition;
            query_type = type;
            arguments = arguments;
          })

abbrev first_some : Option String → Option String → Option String
first_some none next = next
first_some (some x) next = some x

-- `getHandle`, with `firstExecutionRunId` and `followRuns` of its options.
unfoldable pub get_handle :
    (workflow_id : String) (run_id first_execution_run_id : Option String)
    (follow_runs : Option Bool)
    → WorkflowHandle
get_handle id run first follow = record {
  workflow_id = id;
  run_id = run;
  first_execution_run_id = first;
  run_id_for_result = first_some run first;
  follow_runs = or_else follow true;
}

-- `result` of a handle.
abbrev pub handle_result :
    DataConverter
    → (ℕ → HistoryRequest → Checked ServiceFailure HistoryResponse)
    → WorkflowHandle
    → (fuel : ℕ) → Option Outcome
handle_result d serve h fuel = result d serve h.workflow_id h.run_id_for_result h.follow_runs fuel
