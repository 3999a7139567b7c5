-- ===== src/WorkflowThreads/Pool.antt =====
-- The threads of a worker: `ThreadedVMWorkflowCreator` and `VMWorkflowThreadProxy` of
-- packages/worker/src/workflow/threaded-vm.ts. A thread is known by its place in the list.
pub mod Balance
use temporalio_sdk_typescrip.Prelude.{
  ℕ, zero, suc, String, Option, none, some, List, [], ◌∷◌, if◌then◌else◌, ℤ, ltb_ℤ,
}
use temporalio_sdk_typescrip.Prelude.Checked.{Checked, valid, invalid}
use temporalio_sdk_typescrip.WorkflowThreads.{
  CreateOptions, create_workflow, WorkerThreadOutput, activation_completion, sink_calls, no_output,
}
use temporalio_sdk_typescrip.WorkflowThreads.Client.{
  Call, CallError, Settlement, resolved, rejected, System, call_thread,
}

abbrev pub get_active_workflow_count : System → ℤ
get_active_workflow_count s = s.client.active_workflow_count

abbrev pub fewer : ℕ × System → ℕ × System → ℕ × System
fewer prev curr =
    if ltb_ℤ (get_active_workflow_count prev.1) (get_active_workflow_count curr.1)
    then prev
    else curr

abbrev pub reduced : ℕ × System → ℕ → List System → ℕ × System
reduced best i [] = best
reduced best i (s ∷ ss) = reduced (fewer best (i, s)) (suc i) ss

-- The place of the thread that gets the next workflow. `reduce` throws for no threads.
abbrev pub least_loaded : List System → Option ℕ
least_loaded [] = none
least_loaded (s ∷ ss) = some ((reduced (0, s) 1 ss).0)

abbrev pub change_at : ℕ → (System → System) → List System → List System
change_at i f [] = []
change_at zero f (s ∷ ss) = f s ∷ ss
change_at (suc i) f (s ∷ ss) = s ∷ change_at i f ss

abbrev pub create_on : Option ℕ → ℕ → CreateOptions → List System → Option (List System)
create_on none caller o ss = none
create_on (some i) caller o ss =
    some (change_at i (call_thread (record { caller = caller; input = create_workflow o })) ss)

-- `createWorkflow`, up to the request for it.
unfoldable pub create : ℕ → CreateOptions → List System → Option (List System)
create caller o ss = create_on (least_loaded ss) caller o ss

abbrev on_created :
    (List System → Option (List System)) → Option (List System) → Option (List System)
on_created then_do none = none
on_created then_do (some ss) = then_do ss

-- One workflow after the other.
unfoldable pub create_all : List (ℕ × CreateOptions) → List System → Option (List System)
create_all [] ss = some ss
create_all ((caller, o) ∷ os) ss = on_created (λ next. create_all os next) (create caller o ss)

pub data ProxyError : Type 0 where
  got_invalid_response : ProxyError
  call_failed : CallError → ProxyError

-- What the proxy's `activate` makes of its call.
unfoldable pub activated : Settlement → Checked ProxyError ℕ
activated (resolved (activation_completion completion)) = valid completion
activated (resolved (sink_calls c)) = invalid got_invalid_response
activated (resolved no_output) = invalid got_invalid_response
activated (rejected e) = invalid (call_failed e)

-- And its `getAndResetSinkCalls`.
unfoldable pub extracted : Settlement → Checked ProxyError (List ℕ)
extracted (resolved (sink_calls c)) = valid c
extracted (resolved (activation_completion completion)) = invalid got_invalid_response
extracted (resolved no_output) = invalid got_invalid_response
extracted (rejected e) = invalid (call_failed e)
