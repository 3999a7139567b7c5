-- ===== src/Activation/Examples.antt =====
-- Examples of the laws of an activation.
use temporalio_sdk_typescrip.Prelude.{
  ℕ, ◌≤◌, ◌≡◌, refl, none, some, Bool, false, List, [], ◌∷◌, ◌++◌, pos, length, All, ◌==◌, lookup,
  nat_key, true, arith,
}
use temporalio_sdk_typescrip.Time.Fixed.{fixed}
use temporalio_sdk_typescrip.Time.{millis}
use temporalio_sdk_typescrip.Failure.{Value, opaque, temporal, already_started, uncaused}
use temporalio_sdk_typescrip.Activator.{
  Activator, Query, returned, reject_with, rejected, enqueue, complete_workflow_with,
}
use temporalio_sdk_typescrip.Activator.Scenario.{converters, number_converter, created}
use temporalio_sdk_typescrip.Activator.Jobs.{failed, resolve_child_workflow_execution_start}
use temporalio_sdk_typescrip.Activator.Commands.{start_child}
use temporalio_sdk_typescrip.Activator.Commands.Attributes.{to_payloads}
use temporalio_sdk_typescrip.Activation.Children.{exists_already, start_child-refused}
use temporalio_sdk_typescrip.Activator.Signals.Dispatch.{recorder}
use temporalio_sdk_typescrip.Activator.Signals.{waiting, QueryResult, answer}
use temporalio_sdk_typescrip.Activation.{
  WorkflowActivation, fire_timer, try_unblock_conditions, unblock_loop, run_jobs, activate,
  run_microtask, run_task,
}
use temporalio_sdk_typescrip.Activation.Conditions.{IsQuiet, try_unblock_conditions-IsQuiet}
use temporalio_sdk_typescrip.Activation.Queries.{IsAskable, answers, queries, run_jobs-answers}
use temporalio_sdk_typescrip.Activation.Ended.{closes}
use temporalio_sdk_typescrip.Activation.Steps.{
  Script, sleep, Reach, perform, scripted, here, next, call, activation, microtask,
  workflow_returns,
}
use temporalio_sdk_typescrip.Activation.Steps.Orderly.{Reach-closes_once}

-- Workflow code that sleeps.
abbrev sleeper : Script
sleeper = record {
  workflow_calls = λ fn args a. (waiting, sleep (millis (pos 100)) ∷ []);
  signal_calls = λ fn args a. (waiting, []);
  default_signal_calls = λ fn name args a. (waiting, []);
  query_calls = λ fn args a. (answer (opaque 1), []);
  condition_holds = λ fn a. a.cancelled;
}

abbrev wake : WorkflowActivation
wake = record {
  timestamp = none;
  history_length = some 8;
  is_replaying = some false;
  jobs = some (fire_timer (some 1) ∷ []);
}

-- It sleeps, is woken, returns, and its completion is sent.
abbrev slept : Activator
slept =
    perform fixed converters (scripted fixed converters sleeper 0) (sleep (millis (pos 100)))
      created

abbrev woken : Activator
woken = (activate converters (scripted fixed converters sleeper 1) wake 0 slept).1

abbrev returning : Activator
returning = enqueue (complete_workflow_with (opaque 5)) woken

abbrev ended : Activator
ended = (run_microtask converters returning).1

abbrev course : Reach fixed converters sleeper created ended
course =
    next
      (next
        (next (next here (call 0 (sleep (millis (pos 100))) created)) (activation 1 0 wake slept))
        (workflow_returns (opaque 5) woken))
      (microtask returning)

Reach-closes_once_example : closes false ended.commands ≡ some ended.completed
Reach-closes_once_example = Reach-closes_once fixed converters sleeper course refl

-- Two conditions wait, of which one is true.
abbrev waiting_twice : Activator
waiting_twice = record created {
  blocked_conditions =
      (1, record { fn = 0; promise = 1 }) ∷ (2, record { fn = 1; promise = 2 }) ∷ [];
}

abbrev is_first : ℕ → Activator → Bool
is_first fn a = fn == 0

try_unblock_conditions-IsQuiet_example :
    let r = try_unblock_conditions is_first waiting_twice in
    (unblock_loop is_first 3 (0, waiting_twice) ≡ some r)
    × IsQuiet is_first r.1 r.1.blocked_conditions
    × (length r.1.blocked_conditions ≤ 2)
try_unblock_conditions-IsQuiet_example = try_unblock_conditions-IsQuiet is_first waiting_twice

abbrev state_query : Query
state_query = record { query_type = "state"; query_id = "q1"; arguments = 6 ∷ [] }

abbrev unknown_query : Query
unknown_query = record { query_type = "other"; query_id = "q2"; arguments = [] }

abbrev echo : ℕ → List Value → QueryResult
echo fn args = answer (opaque fn)

abbrev askable : All (IsAskable converters recorder) (state_query ∷ unknown_query ∷ [])
askable = ((refl, (opaque 6 ∷ [], refl)), ((refl, ([], refl)), tt))

run_jobs-answers_example :
    run_jobs converters recorder
      (queries converters recorder (state_query ∷ unknown_query ∷ []))
      created
    ≡ (
      returned tt,
      record created {
        tasks =
            created.tasks
            ++ answers converters recorder echo created (state_query ∷ unknown_query ∷ []);
      },
    )
run_jobs-answers_example =
    run_jobs-answers converters recorder echo (λ fn args b. refl) (state_query ∷ unknown_query ∷ [])
      created askable refl

converts : to_payloads number_converter (opaque 7 ∷ []) ≡ returned (some (7 ∷ []))
unfolding to_payloads
converts = refl

-- A child whose execution exists already.
start_child-refused_example :
    let (p, q, b) = start_child number_converter "order" "Pay" (opaque 7 ∷ []) created in
    let e =
      temporal "Workflow execution already started" [] none
        (already_started "order" "Pay")
        uncaused in
    let d =
      (resolve_child_workflow_execution_start converters
        (some 1)
        (failed true "order" "Pay")
        b).1 in
    let f = (run_task converters (reject_with q (some e)) d).1 in
    (d.tasks ≡ b.tasks ++ reject_with q (some e) ∷ [])
    × (lookup p d.settled ≡ some (rejected (some e)))
    × (lookup q f.settled ≡ some (rejected (some e)))
start_child-refused_example =
    start_child-refused converters "order" "Pay" (opaque 7 ∷ []) (some (7 ∷ [])) created refl
      converts (failed true "order" "Pay")
      (temporal "Workflow execution already started" [] none (already_started "order" "Pay")
        uncaused)
      (exists_already "order" "Pay" refl refl) (omega arith) refl refl refl
