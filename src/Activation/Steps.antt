-- ===== src/Activation/Steps.antt =====
-- Workflow code as scripts of calls, and the steps of a workflow execution between two completions
-- of packages/workflow/src/worker-interface.ts: activations, microtasks, calls of workflow code.
pub mod Orderly
use temporalio_sdk_typescrip.Prelude.{
  ℕ, zero, suc, String, Option, none, some, Bool, true, false, List, [], ◌∷◌, ℤ,
}
use temporalio_sdk_typescrip.Time.{Packages, Duration}
use temporalio_sdk_typescrip.Failure.{Value, JsError}
use temporalio_sdk_typescrip.Activator.{
  Activator, SinkCall, enqueue, complete_workflow_with, fail_workflow_with,
}
use temporalio_sdk_typescrip.Activator.Scopes.{cancel_scope, new_scope, with_current, new_trigger}
use temporalio_sdk_typescrip.Activator.Jobs.{Converters}
use temporalio_sdk_typescrip.Activator.Signals.{
  UserCode, Async, waiting, QueryResult, answer, Definition, Handler, set_handler,
  set_default_signal_handler,
}
use temporalio_sdk_typescrip.Activator.Commands
use temporalio_sdk_typescrip.Activator.Commands.{
  set_timeout, clear_timeout, schedule_activity_call, schedule_local_activity_next_handler,
  next_activity, start_child, signal_external, patch_internal, condition_inner,
}
use temporalio_sdk_typescrip.Activator.Commands.Attributes.{ActivityOptions}
use temporalio_sdk_typescrip.Activation.{WorkflowActivation, activate, run_microtask}

-- The calls of the SDK that workflow code makes.
pub data Call : Type 0 where
  sleep : Duration → Call
  set_timeout_for : ℤ → Call
  clear_timeout_of : ℕ → Call
  schedule_activity : String → List Value → Option ActivityOptions → Call
  schedule_local_activity : (attempt : ℕ) → String → List Value → ActivityOptions → Call
  start_child_workflow : (workflow_id workflow_type : String) → List Value → Call
  signal_workflow : String → List Value → Call
  patch : String → (deprecated : Bool) → Call
  condition : ℕ → Call
  set_handler_of : Definition → Handler → Call
  set_default_handler : Handler → Call
  cancel : (scope : ℕ) → Call
  open_scope : (id : ℕ) (cancellable : Bool) (parent : ℕ) → Call
  enter_scope : ℕ → Call
  trigger : Call
  sink : SinkCall → Call

-- What the code of a bundle does when it is called: the calls that it makes up to its first wait,
-- and what it has come to then. They may depend on the whole state.
pub record Script : Type 0 where
  pub workflow_calls : ℕ → List Value → Activator → Async × List Call
  pub signal_calls : ℕ → List Value → Activator → Async × List Call
  pub default_signal_calls : ℕ → String → List Value → Activator → Async × List Call
  pub query_calls : ℕ → List Value → Activator → QueryResult × List Call
  pub condition_holds : ℕ → Activator → Bool

module _ (ms : Packages) (c : Converters) where
  unfoldable pub perform : UserCode → Call → Activator → Activator
  perform u (sleep d) a = (Commands.sleep ms d a).1
  perform u (set_timeout_for d) a = (set_timeout d a).1
  perform u (clear_timeout_of n) a = clear_timeout n a
  perform u (schedule_activity type args o) a =
      (schedule_activity_call ms c.payloads type args o a).1
  perform u (schedule_local_activity n type args o) a =
      let (seq, b) = next_activity a in
      (schedule_local_activity_next_handler ms c.payloads seq n type args o b).1
  perform u (start_child_workflow id type args) a = (start_child c.payloads id type args a).2
  perform u (signal_workflow name args) a = (signal_external c.payloads name args a).1
  perform u (patch id deprecated) a = (patch_internal id deprecated a).1
  perform u (condition fn) a = (condition_inner u.holds fn a).1
  perform u (set_handler_of d h) a = (set_handler c u d h a).1
  perform u (set_default_handler h) a = (set_default_signal_handler c u h a).1
  perform u (cancel id) a = cancel_scope id a
  perform u (open_scope id cancellable parent) a = new_scope id cancellable parent a
  perform u (enter_scope id) a = with_current id a
  perform u trigger a = (new_trigger a).1
  perform u (sink s) a = Commands.call_sink s a

  unfoldable pub perform_all : UserCode → List Call → Activator → Activator
  perform_all u [] a = a
  perform_all u (call ∷ calls) a = perform_all u calls (perform u call a)

  -- A call may run a handler, whose calls may run another: `depth` bounds the nesting.
  unfoldable pub scripted : Script → (depth : ℕ) → UserCode
  scripted s zero = record {
    run_workflow = λ fn args a. ((s.workflow_calls fn args a).0, a);
    run_signal = λ fn args a. ((s.signal_calls fn args a).0, a);
    run_default_signal = λ fn name args a. ((s.default_signal_calls fn name args a).0, a);
    run_query = λ fn args a. ((s.query_calls fn args a).0, a);
    holds = s.condition_holds;
  }
  scripted s (suc depth) = record {
    run_workflow = λ fn args a.
        let (r, l) = s.workflow_calls fn args a in (r, perform_all (scripted s depth) l a);
    run_signal = λ fn args a.
        let (r, l) = s.signal_calls fn args a in (r, perform_all (scripted s depth) l a);
    run_default_signal = λ fn name args a.
        let (r, l) = s.default_signal_calls fn name args a in
        (r, perform_all (scripted s depth) l a);
    run_query = λ fn args a.
        let (r, l) = s.query_calls fn args a in (r, perform_all (scripted s depth) l a);
    holds = s.condition_holds;
  }

  module _ (s : Script) where
    -- What can happen to a workflow execution. Its code goes on with a call at any time, as what
    -- wakes it is a settled promise; its own promise is settled at any time, too.
    pub data Step : Activator → Activator → Type 0 where
      activation :
          (depth batch_index : ℕ) (act : WorkflowActivation) (a : Activator)
          → Step a (activate c (scripted s depth) act batch_index a).1
      microtask : (a : Activator) → Step a (run_microtask c a).1
      call : (depth : ℕ) (x : Call) (a : Activator) → Step a (perform (scripted s depth) x a)
      workflow_returns : (v : Value) (a : Activator) → Step a (enqueue (complete_workflow_with v) a)
      workflow_throws : (e : JsError) (a : Activator) → Step a (enqueue (fail_workflow_with e) a)
      signal_handler_throws :
          (e : JsError) (a : Activator) → Step a (enqueue (fail_workflow_with e) a)

    pub data Reach (a : Activator) : Activator → Type 0 where
      here : Reach a a
      next : {b d : Activator} → Reach a b → Step b d → Reach a d
