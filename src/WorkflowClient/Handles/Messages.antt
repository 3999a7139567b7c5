-- ===== src/WorkflowClient/Handles/Messages.antt =====
-- What goes in and out of the calls of the workflow client: packages/client/src/workflow-client.ts, with
-- the options of packages/common/src/workflow-options.ts.
use temporalio_sdk_typescrip.Prelude.{ℕ, String, Option, Bool, List}
use temporalio_sdk_typescrip.Prelude.Checked.{Checked}
use temporalio_sdk_typescrip.Failure.{Value, Payload}
use temporalio_sdk_typescrip.Time.{Duration, Timestamp}
use temporalio_sdk_typescrip.Retry.{RetryPolicy, ProtoRetryPolicy}
use temporalio_sdk_typescrip.Interceptors.{Method}
use temporalio_sdk_typescrip.WorkflowClient.{ClientError, ServiceFailure, Execution}

-- WorkflowOptions, with the arguments and `followRuns` of a start.
pub record WorkflowOptions : Type 0 where
  pub workflow_id : String
  pub task_queue : String
  pub arguments : Option (List Value)
  pub reuse_policy : Option ℕ
  pub execution_timeout : Option Duration
  pub run_timeout : Option Duration
  pub task_timeout : Option Duration
  pub retry : Option RetryPolicy
  pub memo : Option (List (String × Value))
  pub cron_schedule : Option String
  pub follow_runs : Option Bool

-- What `compileWorkflowOptions` makes of them.
pub record CompiledOptions : Type 0 where
  pub options : WorkflowOptions
  pub execution_timeout : Option Timestamp
  pub run_timeout : Option Timestamp
  pub task_timeout : Option Timestamp

pub record StartInput : Type 0 where
  pub options : CompiledOptions
  pub workflow_type : String

pub record SignalWithStartInput : Type 0 where
  pub start : StartInput
  pub signal_name : String
  pub signal_args : List Value

-- StartWorkflowExecutionRequest; a signal comes with its name and input.
pub record StartRequest : Type 0 where
  pub workflow_id : String
  pub reuse_policy : Option ℕ
  pub workflow_type : String
  pub input : Option (List Payload)
  pub task_queue : String
  pub execution_timeout : Option Timestamp
  pub run_timeout : Option Timestamp
  pub task_timeout : Option Timestamp
  pub retry_policy : Option ProtoRetryPolicy
  pub memo : Option (List (String × Option Payload))
  pub cron_schedule : Option String

pub record TerminateInput : Type 0 where
  pub execution : Execution
  pub reason : Option String
  pub first_execution_run_id : Option String

pub record CancelInput : Type 0 where
  pub execution : Execution
  pub first_execution_run_id : Option String

pub record SignalInput : Type 0 where
  pub execution : Execution
  pub signal_name : String
  pub arguments : List Value

pub record QueryInput : Type 0 where
  pub execution : Execution
  pub reject_condition : ℕ
  pub query_type : String
  pub arguments : List Value

pub record SignalRequest : Type 0 where
  pub execution : Execution
  pub signal_name : String
  pub input : Option (List Payload)

pub record QueryRequest : Type 0 where
  pub execution : Execution
  pub reject_condition : ℕ
  pub query_type : String
  pub query_args : Option (List Payload)

-- QueryWorkflowResponse: a rejection, whose status may be missing, or a result.
pub data QueryResponse : Type 0 where
  rejected : Option ℕ → QueryResponse
  query_result : Option (Option (List Payload)) → QueryResponse

-- The calls of the service; what they answer is a run identifier, nothing, or a response.
pub record Service : Type 0 where
  pub start_workflow_execution : StartRequest → Checked ServiceFailure String
  pub signal_with_start_workflow_execution :
      StartRequest → String → Option (List Payload) → Checked ServiceFailure String
  pub terminate_workflow_execution : TerminateInput → Checked ServiceFailure (Unit {0})
  pub request_cancel_workflow_execution : CancelInput → Checked ServiceFailure (Unit {0})
  pub signal_workflow_execution : SignalRequest → Checked ServiceFailure (Unit {0})
  pub query_workflow : QueryRequest → Checked ServiceFailure QueryResponse

-- The interceptors of a client: each has a method or not.
pub record ClientInterceptors : Type 0 where
  pub start : List (Method StartInput (Checked ClientError String))
  pub signal_with_start : List (Method SignalWithStartInput (Checked ClientError String))
  pub terminate : List (Method TerminateInput (Checked ClientError (Unit {0})))
  pub cancel : List (Method CancelInput (Checked ClientError (Unit {0})))
  pub signal : List (Method SignalInput (Checked ClientError (Unit {0})))
  pub query : List (Method QueryInput (Checked ClientError Value))

-- What a handle closes over.
pub record WorkflowHandle : Type 0 where
  pub workflow_id : String
  pub run_id : Option String
  pub first_execution_run_id : Option String
  pub run_id_for_result : Option String
  pub follow_runs : Bool
