-- ===== src/Activities/Examples.antt =====
-- Examples of activities.
use temporalio_sdk_typescrip.Prelude.{
  ℕ, String, none, some, true, ◌||◌, List, [], ◌∷◌, ◌≡◌, ◌≢◌, refl, length, ltb,
}
use temporalio_sdk_typescrip.Failure.{opaque, JsError, native, uncaused, is_cancelled_failure}
use temporalio_sdk_typescrip.DataConverter.Examples.{numbers}
use temporalio_sdk_typescrip.Activities.{
  CancelReason, worker_shutdown, heartbeat_details_conversion_failed, Activity, new_activity,
  cancel, returned, threw, cancelled_result, is_abort_error, aborted_failure, Surroundings,
  run_result,
}
use temporalio_sdk_typescrip.Activities.Outcomes.{EndsBy, run_result-cancelled}
use temporalio_sdk_typescrip.Activities.Operator.{
  start, cancel_task, no_activities, Event, task, ends, on_task, on_event, on_events,
}
use temporalio_sdk_typescrip.Activities.Operator.Counting.{starts, accounted}
use temporalio_sdk_typescrip.Activities.Operator.Accounts.{on_events-accounted}

abbrev surroundings : Surroundings
surroundings = record {
  data_converter = numbers;
  to_text = λ n. "";
  encoding_error = native "ValueError" "" [] uncaused;
  not_registered = λ type known. "Activity function is not registered on this Worker";
  not_parsed = λ type. "Failed to parse activity args";
  parse_error_name = some "ValueError";
  has_cancel_reason = λ n. ltb n 3;
}

-- An activity that is told to stop at the shutdown of its worker, and does.
abbrev stopped : Activity
stopped = cancel (some worker_shutdown) (new_activity 1 [])

abbrev abort : JsError
abort = native "AbortError" "aborted" [] uncaused

aborts : run_result surroundings stopped (threw abort) ≡ some (cancelled_result aborted_failure)
unfolding run_result
aborts = refl

run_result-cancelled_example :
    (reason : CancelReason) × (e : JsError) × (stopped.cancel_reason ≡ some reason)
    × (reason ≢ heartbeat_details_conversion_failed)
    × EndsBy surroundings (threw abort) e
    × ((is_cancelled_failure e || is_abort_error e) ≡ true)
run_result-cancelled_example =
    run_result-cancelled surroundings stopped (threw abort) aborted_failure aborts

-- Two activities, one of which is cancelled and the other returns; a third is not registered.
abbrev events : List Event
events =
    task 1 (start (record { activity_type = "greet"; input = none; heartbeat_details = none }))
    ∷ task 2 (
        start (record { activity_type = "greet"; input = some (4 ∷ []); heartbeat_details = none }))
    ∷ task 1 (cancel_task none)
    ∷ ends 2 (returned (opaque 9))
    ∷ task 3 (start (record { activity_type = "sing"; input = none; heartbeat_details = none }))
    ∷ ends 1 (threw abort)
    ∷ []

abbrev registered : List (String × ℕ)
registered = ("greet", 1) ∷ []

not_failed : (on_events surroundings registered events no_activities).fatal ≡ none
unfolding on_events on_event on_task run_result
not_failed = refl

on_events-accounted_example :
    (starts 1 events ≡ accounted 1 (on_events surroundings registered events no_activities))
    × ((on_events surroundings registered events no_activities).in_flight
        ≡ length (on_events surroundings registered events no_activities).running)
on_events-accounted_example = on_events-accounted surroundings registered 1 events not_failed
