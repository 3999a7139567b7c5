-- ===== src/Activation/Steps/Orderly.antt =====
-- A workflow execution is closed by one command, and says nothing more but answers to queries.
use temporalio_sdk_typescrip.Time.{Packages}
use temporalio_sdk_typescrip.Prelude.{ℕ, zero, suc, ◌≡◌, some, Bool, List, [], ◌∷◌, arith}
use temporalio_sdk_typescrip.Activator.{Activator, Task}
use temporalio_sdk_typescrip.Activator.Jobs.{Converters}
use temporalio_sdk_typescrip.Activator.Scopes.{cancel_scope, scope_cancelled}
use temporalio_sdk_typescrip.Activator.Signals.{UserCode}
use temporalio_sdk_typescrip.Activator.Commands.{next_activity, call_sink}
use temporalio_sdk_typescrip.Activation.{run_first, run_microtask}
use temporalio_sdk_typescrip.Activation.Steps.{
  Call, sleep, set_timeout_for, clear_timeout_of, schedule_activity, schedule_local_activity,
  start_child_workflow, signal_workflow, patch, condition, set_handler_of, set_default_handler,
  cancel, open_scope, enter_scope, trigger, sink, Script, perform, perform_all, scripted, Step,
  activation, microtask, call, workflow_returns, workflow_throws, signal_handler_throws, Reach,
  here, next,
}
use temporalio_sdk_typescrip.Activation.Ended.{
  closes, IsOrderly, reject_scope-IsOrderly, new_scope-IsOrderly, new_trigger-IsOrderly,
}
use temporalio_sdk_typescrip.Activation.Ended.Calls.{
  sleep-IsOrderly, set_timeout-IsOrderly, clear_timeout-IsOrderly, schedule_activity_call-IsOrderly,
  schedule_local_activity_next_handler-IsOrderly, start_child-IsOrderly, signal_external-IsOrderly,
  patch_internal-IsOrderly, condition_inner-IsOrderly,
}
use temporalio_sdk_typescrip.Activation.Ended.Tasks.{run_task-IsOrderly}
use temporalio_sdk_typescrip.Activation.Ended.Handlers.{
  AreOrderly, set_handler-IsOrderly, set_default_signal_handler-IsOrderly,
}
use temporalio_sdk_typescrip.Activation.Ended.Whole.{activate-IsOrderly}

module _ (ms : Packages) (c : Converters) (before : Bool) where
  perform-IsOrderly :
      (u : UserCode)
      → AreOrderly before u
      → (x : Call) (a : Activator) → IsOrderly before a
      → IsOrderly before (perform ms c u x a)
  unfolding perform cancel_scope call_sink
  perform-IsOrderly u k (sleep d) a h = sleep-IsOrderly before ms d a h
  perform-IsOrderly u k (set_timeout_for d) a h = set_timeout-IsOrderly before d a h
  perform-IsOrderly u k (clear_timeout_of n) a h = clear_timeout-IsOrderly before n a h
  perform-IsOrderly u k (schedule_activity type args o) a h =
      schedule_activity_call-IsOrderly before ms c.payloads type args o a h
  perform-IsOrderly u k (schedule_local_activity n type args o) a h =
      schedule_local_activity_next_handler-IsOrderly before ms c.payloads a.next_seqs.activity_seq n
        type args o (next_activity a).1 h
  perform-IsOrderly u k (start_child_workflow id type args) a h =
      start_child-IsOrderly before c.payloads id type args a h
  perform-IsOrderly u k (signal_workflow name args) a h =
      signal_external-IsOrderly before c.payloads name args a h
  perform-IsOrderly u k (patch id d) a h = patch_internal-IsOrderly before id d a h
  perform-IsOrderly u k (condition fn) a h = condition_inner-IsOrderly before u.holds fn a h
  perform-IsOrderly u k (set_handler_of d x) a h = set_handler-IsOrderly before c u k d x a h
  perform-IsOrderly u k (set_default_handler x) a h =
      set_default_signal_handler-IsOrderly before c u k x a h
  perform-IsOrderly u k (cancel id) a h = reject_scope-IsOrderly before id scope_cancelled a h
  perform-IsOrderly u k (open_scope id b parent) a h = new_scope-IsOrderly before id b parent a h
  perform-IsOrderly u k (enter_scope id) a h = h
  perform-IsOrderly u k trigger a h = new_trigger-IsOrderly before a h
  perform-IsOrderly u k (sink s) a h = h

  perform_all-IsOrderly :
      (u : UserCode)
      → AreOrderly before u
      → (l : List Call) (a : Activator) → IsOrderly before a
      → IsOrderly before (perform_all ms c u l a)
  unfolding perform_all
  perform_all-IsOrderly u k [] a h = h
  perform_all-IsOrderly u k (x ∷ l) a h =
      perform_all-IsOrderly u k l (perform ms c u x a) (perform-IsOrderly u k x a h)

  scripted-AreOrderly : (s : Script) (depth : ℕ) → AreOrderly before (scripted ms c s depth)
  unfolding scripted
  scripted-AreOrderly s zero = record {
    of_workflow = λ fn args a h. h;
    of_signal = λ fn args a h. h;
    of_default_signal = λ fn name args a h. h;
    of_query = λ fn args a h. h;
  }
  scripted-AreOrderly s (suc depth) =
      let k = scripted-AreOrderly s depth in
      record {
        of_workflow = λ fn args a h.
            perform_all-IsOrderly (scripted ms c s depth) k (s.workflow_calls fn args a).1 a h;
        of_signal = λ fn args a h.
            perform_all-IsOrderly (scripted ms c s depth) k (s.signal_calls fn args a).1 a h;
        of_default_signal = λ fn name args a h.
            perform_all-IsOrderly (scripted ms c s depth) k
              (s.default_signal_calls fn name args a).1 a h;
        of_query = λ fn args a h.
            perform_all-IsOrderly (scripted ms c s depth) k (s.query_calls fn args a).1 a h;
      }

  run_first-IsOrderly :
      (ts : List Task) (a : Activator) → IsOrderly before a → IsOrderly before (run_first c ts a).1
  run_first-IsOrderly [] a h = h
  run_first-IsOrderly (t ∷ ts) a h = run_task-IsOrderly before c t (record a { tasks = ts }) h

  Step-IsOrderly :
      (s : Script) {a b : Activator} → Step ms c s a b → IsOrderly before a → IsOrderly before b
  unfolding run_microtask
  Step-IsOrderly s (activation depth batch act a) h =
      activate-IsOrderly before c (scripted ms c s depth) (scripted-AreOrderly s depth) act batch a
        h
  Step-IsOrderly s (microtask a) h = run_first-IsOrderly a.tasks a h
  Step-IsOrderly s (call depth x a) h =
      perform-IsOrderly (scripted ms c s depth) (scripted-AreOrderly s depth) x a h
  Step-IsOrderly s (workflow_returns v a) h = h
  Step-IsOrderly s (workflow_throws e a) h = h
  Step-IsOrderly s (signal_handler_throws e a) h = h

  Reach-IsOrderly :
      (s : Script) {a b : Activator} → Reach ms c s a b → IsOrderly before a → IsOrderly before b
  Reach-IsOrderly s here h = h
  Reach-IsOrderly s (next r st) h = Step-IsOrderly s st (Reach-IsOrderly s r h)

-- Take an execution with no commands to send, and whatever activations, microtasks and calls of
-- workflow code (given by a script) follow until the commands are sent. Read in order, the commands
-- close the execution at most once, and after that hold nothing but answers to queries; whether they
-- leave it closed is what the flag `completed` says.
pub Reach-closes_once :
    (ms : Packages) (c : Converters) (s : Script) {a b : Activator}
    → Reach ms c s a b
    → a.commands ≡ []
    → closes a.completed b.commands ≡ some b.completed
Reach-closes_once ms c s {a = a} r e = Reach-IsOrderly ms c a.completed s r (ground arith)
