-- ===== src/WorkflowThreads/Examples.antt =====
-- Examples for the threads that run workflows, packages/worker/src/workflow/threaded-vm.ts.
use temporalio_sdk_typescrip.Prelude.{ℕ, some, true, false, List, [], ◌∷◌, ◌≡◌, ◌≢◌, refl, inl}
use temporalio_sdk_typescrip.Prelude.Checked.{valid, invalid}
use temporalio_sdk_typescrip.WorkflowThreads.{
  CreateOptions, init, destroy, create_workflow, activate_workflow, extract_sink_calls,
  activation_completion, no_output, Thread, Vm, handle_request, new_thread,
}
use temporalio_sdk_typescrip.WorkflowThreads.Client.{
  Call, illegal_state_error, shut_down_prematurely, Settlement, resolved, rejected, settlement,
  System, new_system, Event, calls, destroys, answers, exits, step, steps,
}
use temporalio_sdk_typescrip.WorkflowThreads.Calls.{no_calls, view, direct_steps}
use temporalio_sdk_typescrip.WorkflowThreads.Calls.Refinement.{steps-direct_steps}
use temporalio_sdk_typescrip.WorkflowThreads.Answers.{handle_request-output}
use temporalio_sdk_typescrip.WorkflowThreads.Pool.{
  activated, extracted, got_invalid_response, create_all,
}
use temporalio_sdk_typescrip.WorkflowThreads.Pool.Balance.{AreWithin, create_all-AreWithin}

-- Workflows that complete each activation with its number.
abbrev echo : Vm
echo = record {
  load = λ bundle. valid tt;
  init_runtime = λ o. valid tt;
  activate = λ w activation. valid activation;
  sink_calls_of = λ w. valid [];
  dispose = λ w. valid tt;
}

abbrev order : CreateOptions
order = record { run_id = "run"; workflow_type = "order" }

abbrev call_init : Call
call_init = record { caller = 1; input = init 0 true }

abbrev call_create : Call
call_create = record { caller = 2; input = create_workflow order }

abbrev call_activate : Call
call_activate = record { caller = 3; input = activate_workflow "run" 7 }

abbrev call_other : Call
call_other = record { caller = 4; input = activate_workflow "other" 8 }

-- The request for a workflow that does not run is answered before that for one that does, and the
-- thread exits before it has answered the last.
abbrev usage : List Event
usage =
    calls call_init
    ∷ calls call_create
    ∷ answers 0
    ∷ answers 0
    ∷ calls call_activate
    ∷ calls call_other
    ∷ answers 1
    ∷ answers 0
    ∷ calls call_activate
    ∷ exits
    ∷ []

abbrev outcomes : List (Call × Settlement)
outcomes =
    (call_init, resolved no_output)
    ∷ (call_create, resolved no_output)
    ∷ (
      call_other,
      rejected (illegal_state_error "Tried to activate non running workflow with runId: other"),
    )
    ∷ (call_activate, resolved (activation_completion 7))
    ∷ (call_activate, rejected shut_down_prematurely)
    ∷ []

usage_settled : (steps echo usage new_system).client.settled ≡ outcomes
unfolding steps step handle_request
usage_settled = refl

-- The call that waits when the thread is told to shut down is never settled.
shut_down_settled :
    (steps echo (calls call_init ∷ destroys 9 ∷ answers 1 ∷ exits ∷ []) new_system).client.settled
    ≡ (record { caller = 9; input = destroy }, resolved no_output) ∷ []
unfolding steps step handle_request
shut_down_settled = refl

steps-direct_steps_example :
    (view (steps echo usage new_system) ≡ direct_steps echo usage no_calls)
    × ((steps echo usage new_system).client.unknown ≡ false)
steps-direct_steps_example = steps-direct_steps echo usage

abbrev running : Thread
running =
    (handle_request echo (create_workflow order) (handle_request echo (init 0 true) new_thread).0).0

handle_request-output_example :
    (activated (settlement (handle_request echo (activate_workflow "run" 7) running).1)
      ≢ invalid got_invalid_response)
    × (extracted (settlement (handle_request echo (extract_sink_calls "run") running).1)
        ≢ invalid got_invalid_response)
handle_request-output_example = handle_request-output echo "run" 7 running

abbrev orders : List (ℕ × CreateOptions)
orders = (1, order) ∷ (2, order) ∷ (3, order) ∷ []

create_all-AreWithin_example :
    (next : List System) × (k : ℕ) × (create_all orders (new_system ∷ new_system ∷ []) ≡ some next)
    × AreWithin k next
create_all-AreWithin_example =
    create_all-AreWithin orders new_system (new_system ∷ []) 0 (inl refl, (inl refl, tt))
