-- ===== src/Lifecycle/Examples.antt =====
-- Examples of the life of a worker.
use temporalio_sdk_typescrip.Prelude.{true, some, List, [], ◌∷◌, ◌≡◌, refl, arith}
use temporalio_sdk_typescrip.Lifecycle.{
  draining, failed, stopped, created, Event, run_called, shutdown_called, shutdown_confirmed,
  force_time_over, workflows_complete, heartbeat_starts, steps, step, run, shutdown, streamed,
  set_state, settle, fail, pipelines_complete,
}
use temporalio_sdk_typescrip.Lifecycle.Phases.{IsConsistent}
use temporalio_sdk_typescrip.Lifecycle.Paths.{steps-IsConsistent}
use temporalio_sdk_typescrip.Lifecycle.Ends.{all_done, steps-all_done, steps-force_time_over}

-- A worker with workflows and activities, and a limit to its shutdown.
abbrev started : List Event
started = run_called true true (some 1000) ∷ []

-- A heartbeat is under way, workflows are complete.
abbrev busy : List Event
busy =
    run_called true true (some 1000)
    ∷ heartbeat_starts
    ∷ shutdown_called
    ∷ shutdown_confirmed
    ∷ workflows_complete
    ∷ []

busy_worker : (steps busy created).state ≡ draining
unfolding steps step run shutdown streamed set_state settle fail pipelines_complete
busy_worker = refl

steps-IsConsistent_example : IsConsistent (steps busy created)
steps-IsConsistent_example = steps-IsConsistent busy

steps-all_done_example :
    (steps (all_done (steps busy created).heartbeats_in_flight) (steps busy created)).state
    ≡ stopped
unfolding steps step run shutdown streamed set_state settle fail pipelines_complete
steps-all_done_example = steps-all_done busy refl (ground arith)

steps-force_time_over_example :
    ((steps (shutdown_called ∷ shutdown_confirmed ∷ []) (steps started created)).state ≡ draining)
    × ((steps
          (shutdown_called ∷ shutdown_confirmed ∷ force_time_over 7 ∷ [])
          (steps started created)).state
        ≡ failed)
unfolding steps step run shutdown streamed set_state settle fail pipelines_complete
steps-force_time_over_example = steps-force_time_over started 7 refl refl
