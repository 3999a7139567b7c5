-- ===== src/WorkflowThreads.antt =====
-- Threads that run workflows: the handler of requests in a thread,
-- packages/worker/src/workflow/workflow-worker-thread.ts, with the creators and workflows of
-- packages/worker/src/workflow/vm.ts and reusable-vm.ts. Activations, their completions and sink calls
-- stand by numbers. What the code of a workflow does in its context is a parameter.
pub mod Client
pub mod Answers
mod Examples
pub mod Pool
pub mod Calls
use temporalio_sdk_typescrip.Prelude.{
  ℕ, suc, String, str_append, Option, none, some, Bool, true, false, List, [], lookup, insert,
  remove, string_key, if◌then◌else◌,
}
use temporalio_sdk_typescrip.Prelude.Checked.{Checked, valid, invalid}

pub record CreateOptions : Type 0 where
  pub run_id : String
  pub workflow_type : String

pub data WorkerThreadInput : Type 0 where
  init : (bundle : ℕ) (reuse_v8_context : Bool) → WorkerThreadInput
  destroy : WorkerThreadInput
  create_workflow : CreateOptions → WorkerThreadInput
  activate_workflow : (run_id : String) (activation : ℕ) → WorkerThreadInput
  extract_sink_calls : (run_id : String) → WorkerThreadInput
  dispose_workflow : (run_id : String) → WorkerThreadInput

pub data WorkerThreadOutput : Type 0 where
  activation_completion : ℕ → WorkerThreadOutput
  sink_calls : List ℕ → WorkerThreadOutput
  no_output : WorkerThreadOutput

-- An error as a message carries it, by the name of its class.
pub record Thrown : Type 0 where
  pub name : String
  pub message : String

pub data Result : Type 0 where
  ok : WorkerThreadOutput → Result
  error : Thrown → Result

pub record WorkerThreadRequest : Type 0 where
  pub request_id : ℕ
  pub input : WorkerThreadInput

pub record WorkerThreadResponse : Type 0 where
  pub request_id : ℕ
  pub result : Result

-- A workflow in its context; `turns` are the calls of it so far.
pub record VmWorkflow : Type 0 where
  pub options : CreateOptions
  pub turns : ℕ

abbrev pub Workflows : Type 0
Workflows = List (String × VmWorkflow)

-- A creator; destroyed, it has no script and no context.
pub record WorkflowCreator : Type 0 where
  pub reuse_v8_context : Bool
  pub destroyed : Bool

-- The module's variables, and the static maps of the two classes of creators. The getter is known by
-- the class whose map it reads.
pub record Thread : Type 0 where
  pub workflow_creator : Option WorkflowCreator
  pub workflow_getter : Option Bool
  pub reusable : Workflows
  pub separate : Workflows

abbrev pub new_thread : Thread
new_thread = record {
  workflow_creator = none;
  workflow_getter = none;
  reusable = [];
  separate = [];
}

-- What `vm` does with the code of a bundle: loading it, and what its `initRuntime`, `activate`,
-- `getAndResetSinkCalls` and `dispose` give.
pub record Vm : Type 0 where
  pub load : ℕ → Checked Thrown (Unit {0})
  pub init_runtime : CreateOptions → Checked Thrown (Unit {0})
  pub activate : VmWorkflow → ℕ → Checked Thrown ℕ
  pub sink_calls_of : VmWorkflow → Checked Thrown (List ℕ)
  pub dispose : VmWorkflow → Checked Thrown (Unit {0})

abbrev pub illegal_state : String → Thrown
illegal_state message = record { name = "IllegalStateError"; message = message }

abbrev pub workflow_by_run_id : Bool → Thread → Workflows
workflow_by_run_id true t = t.reusable
workflow_by_run_id false t = t.separate

abbrev pub set_workflows : Bool → Workflows → Thread → Thread
set_workflows true m t = record t { reusable = m }
set_workflows false m t = record t { separate = m }

abbrev pub missing_workflow : String → String → Thrown
missing_workflow what run_id = illegal_state (str_append what run_id)

abbrev pub throws : Thread → Thrown → Thread × Result
throws t e = (t, error e)

abbrev pub destroyed_message : Bool → String
destroyed_message true = "Tried to use v8 context after Workflow creator was destroyed"
destroyed_message false = "Isolate context provider was destroyed"

abbrev turned : VmWorkflow → VmWorkflow
turned w = record w { turns = suc w.turns }

abbrev pub with_workflow :
    Bool
    → (Bool → VmWorkflow → Thread × Result)
    → Thrown
    → Option VmWorkflow
    → Thread
    → Thread × Result
with_workflow reuse use_workflow missing none t = throws t missing
with_workflow reuse use_workflow missing (some w) t = use_workflow reuse w

-- `workflowGetter(runId)`: it is not set before the first `init`.
abbrev pub get_workflow :
    Option Bool → String → (Bool → VmWorkflow → Thread × Result) → Thrown → Thread → Thread × Result
get_workflow none run_id use_workflow missing t =
    throws t (record { name = "TypeError"; message = "workflowGetter is not a function" })
get_workflow (some reuse) run_id use_workflow missing t =
    with_workflow reuse use_workflow missing (lookup run_id (workflow_by_run_id reuse t)) t

module _ (v : Vm) where
  abbrev loaded : Checked Thrown (Unit {0}) → Bool → Thread → Thread × Result
  loaded (invalid e) reuse t = throws t e
  loaded (valid _) reuse t = (
    record t {
      workflow_creator = some (record { reuse_v8_context = reuse; destroyed = false });
      workflow_getter = some reuse;
    },
    ok no_output,
  )

  abbrev destroyed_in : Option WorkflowCreator → Thread → Thread
  destroyed_in none t = t
  destroyed_in (some c) t = record t { workflow_creator = some (record c { destroyed = true }) }

  abbrev initialised : Checked Thrown (Unit {0}) → Bool → CreateOptions → Thread → Thread × Result
  initialised (invalid e) reuse o t = throws t e
  initialised (valid _) reuse o t = (
    set_workflows reuse
        (insert o.run_id (record { options = o; turns = 0 }) (workflow_by_run_id reuse t)) t,
    ok no_output,
  )

  abbrev create_in : WorkflowCreator → CreateOptions → Thread → Thread × Result
  create_in c o t =
      if c.destroyed
      then throws t (illegal_state (destroyed_message c.reuse_v8_context))
      else initialised (v.init_runtime o) c.reuse_v8_context o t

  abbrev create_with : Option WorkflowCreator → CreateOptions → Thread → Thread × Result
  create_with none o t = throws t (illegal_state "No WorkflowCreator in Worker thread")
  create_with (some c) o t = create_in c o t

  abbrev pub after_turn : Bool → String → VmWorkflow → Thread → Thread
  after_turn reuse run_id w t =
      set_workflows reuse (insert run_id (turned w) (workflow_by_run_id reuse t)) t

  abbrev pub answered : Thread → Checked Thrown WorkerThreadOutput → Thread × Result
  answered t (invalid e) = throws t e
  answered t (valid o) = (t, ok o)

  abbrev pub completion_of : Checked Thrown ℕ → Checked Thrown WorkerThreadOutput
  completion_of (invalid e) = invalid e
  completion_of (valid c) = valid (activation_completion c)

  abbrev pub calls_of : Checked Thrown (List ℕ) → Checked Thrown WorkerThreadOutput
  calls_of (invalid e) = invalid e
  calls_of (valid c) = valid (sink_calls c)

  -- Only a workflow with a context of its own runs `dispose` there.
  abbrev dispose_of : Bool → VmWorkflow → Checked Thrown (Unit {0})
  dispose_of true w = valid tt
  dispose_of false w = v.dispose w

  abbrev disposed : Checked Thrown (Unit {0}) → Bool → VmWorkflow → Thread → Thread × Result
  disposed (invalid e) reuse w t = throws t e
  disposed (valid _) reuse w t =
      (set_workflows reuse (remove w.options.run_id (workflow_by_run_id reuse t)) t, ok no_output)

  -- `handleRequest`, with what the listener makes of an error.
  unfoldable pub handle_request : WorkerThreadInput → Thread → Thread × Result
  handle_request (init bundle reuse) t = loaded (v.load bundle) reuse t
  handle_request destroy t = (destroyed_in t.workflow_creator t, ok no_output)
  handle_request (create_workflow o) t = create_with t.workflow_creator o t
  handle_request (activate_workflow run_id activation) t =
      get_workflow t.workflow_getter run_id
        (λ reuse w.
          answered (after_turn reuse run_id w t) (completion_of (v.activate w activation)))
        (missing_workflow "Tried to activate non running workflow with runId: " run_id) t
  handle_request (extract_sink_calls run_id) t =
      get_workflow t.workflow_getter run_id
        (λ reuse w. answered (after_turn reuse run_id w t) (calls_of (v.sink_calls_of w)))
        (missing_workflow "Tried to activate non running workflow with runId: " run_id) t
  handle_request (dispose_workflow run_id) t =
      get_workflow t.workflow_getter run_id (λ reuse w. disposed (dispose_of reuse w) reuse w t)
        (missing_workflow "Tried to dispose non running workflow with runId: " run_id) t
