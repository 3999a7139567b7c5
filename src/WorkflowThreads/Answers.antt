-- ===== src/WorkflowThreads/Answers.antt =====
-- A thread answers with what its proxy expects: packages/worker/src/workflow/threaded-vm.ts and
-- workflow-worker-thread.ts.
use temporalio_sdk_typescrip.Prelude.{
  ℕ, String, Option, none, some, Bool, List, ◌≢◌, lookup, string_key, arith,
}
use temporalio_sdk_typescrip.Prelude.Checked.{Checked, valid, invalid}
use temporalio_sdk_typescrip.WorkflowThreads.{
  activate_workflow, extract_sink_calls, Thrown, Result, error, with_workflow, get_workflow,
  answered, completion_of, calls_of, after_turn, Thread, Vm, VmWorkflow, workflow_by_run_id,
  handle_request,
}
use temporalio_sdk_typescrip.WorkflowThreads.Client.{settlement}
use temporalio_sdk_typescrip.WorkflowThreads.Pool.{got_invalid_response, activated, extracted}

-- What holds of every error, and of what is done with a workflow, holds of the answer.
module _ (P : Result → Type 0) (on_error : (e : Thrown) → P (error e)) where
  result-with_workflow :
      (reuse : Bool) (use_workflow : Bool → VmWorkflow → Thread × Result) (missing : Thrown)
      (o : Option VmWorkflow) (t : Thread)
      → ((w : VmWorkflow) → P (use_workflow reuse w).1)
      → P (with_workflow reuse use_workflow missing o t).1
  result-with_workflow reuse use_workflow missing none t h = on_error missing
  result-with_workflow reuse use_workflow missing (some w) t h = h w

  result-get_workflow :
      (g : Option Bool) (run_id : String) (use_workflow : Bool → VmWorkflow → Thread × Result)
      (missing : Thrown) (t : Thread)
      → ((reuse : Bool) (w : VmWorkflow) → P (use_workflow reuse w).1)
      → P (get_workflow g run_id use_workflow missing t).1
  result-get_workflow none run_id use_workflow missing t h = on_error _
  result-get_workflow (some reuse) run_id use_workflow missing t h =
      result-with_workflow reuse use_workflow missing (lookup run_id (workflow_by_run_id reuse t)) t
        (h reuse)

abbrev IsActivated : Result → Type 0
IsActivated r = activated (settlement r) ≢ invalid got_invalid_response

abbrev IsExtracted : Result → Type 0
IsExtracted r = extracted (settlement r) ≢ invalid got_invalid_response

error-IsActivated : (e : Thrown) → IsActivated (error e)
unfolding activated
error-IsActivated e h = ground arith

error-IsExtracted : (e : Thrown) → IsExtracted (error e)
unfolding extracted
error-IsExtracted e h = ground arith

module _ (v : Vm) where
  completion-IsActivated :
      (t : Thread) (c : Checked Thrown ℕ) → IsActivated (answered v t (completion_of v c)).1
  unfolding activated
  completion-IsActivated t (valid c) h = ground arith
  completion-IsActivated t (invalid e) h = error-IsActivated e h

  calls-IsExtracted :
      (t : Thread) (c : Checked Thrown (List ℕ)) → IsExtracted (answered v t (calls_of v c)).1
  unfolding extracted
  calls-IsExtracted t (valid c) h = ground arith
  calls-IsExtracted t (invalid e) h = error-IsExtracted e h

  -- In any state of the thread and whatever the workflow does: the answer to `activate-workflow` is an
  -- error or has a completion, and that to `extract-sink-calls` an error or sink calls. So the proxies
  -- never throw for an output of the wrong type.
  pub handle_request-output :
      (run_id : String) (activation : ℕ) (t : Thread)
      → (activated (settlement (handle_request v (activate_workflow run_id activation) t).1)
          ≢ invalid got_invalid_response)
        × (extracted (settlement (handle_request v (extract_sink_calls run_id) t).1)
            ≢ invalid got_invalid_response)
  unfolding handle_request
  handle_request-output run_id activation t = (
    result-get_workflow IsActivated error-IsActivated t.workflow_getter run_id _ _ t (λ reuse w.
        completion-IsActivated (after_turn v reuse run_id w t) (v.activate w activation)),
    result-get_workflow IsExtracted error-IsExtracted t.workflow_getter run_id _ _ t
        (λ reuse w. calls-IsExtracted (after_turn v reuse run_id w t) (v.sink_calls_of w)),
  )
