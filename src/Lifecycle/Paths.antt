-- ===== src/Lifecycle/Paths.antt =====
-- The states that a worker goes through, packages/worker/src/worker.ts.
use temporalio_sdk_typescrip.Prelude.{
  ℕ, suc, Bool, true, false, List, [], ◌∷◌, Option, ◌≡◌, refl, arith,
}
use temporalio_sdk_typescrip.Lifecycle.{
  RunState, initialized, running, stopping, draining, drained, stopped, failed, Merged, idle,
  merging, completed, rejected, Worker, created, set_state, fail, pipelines_complete, Event,
  run_called, shutdown_called, shutdown_confirmed, shutdown_rejected, force_time_over,
  workflows_complete, workflows_error, activities_complete, activities_error, heartbeat_starts,
  heartbeat_ends, heartbeat_error, in_streams, streamed, is_merging, subscribe, run_in, shutdown_in,
  confirm_in, run, shutdown, step, steps,
}
use temporalio_sdk_typescrip.Lifecycle.Phases.{
  IsPath, Phase, IsConsistent, fail-IsConsistent, open-is_active, pipelines_complete-IsConsistent,
  either-IsConsistent, started-Phase, left_open, right_open, on_force-IsConsistent,
  on_sent-IsConsistent, on_send_error-IsConsistent,
}

in_streams-IsConsistent :
    (x : Event) (w : Worker) → IsConsistent w → w.merged ≡ merging → IsConsistent (in_streams x w)
in_streams-IsConsistent (run_called ws acts time) w h m = h
in_streams-IsConsistent shutdown_called w h m = h
in_streams-IsConsistent shutdown_confirmed w h m = h
in_streams-IsConsistent (shutdown_rejected e) w h m =
    either-IsConsistent w.unexpected_open (fail e w) w (λ k. fail-IsConsistent e w h m) h
in_streams-IsConsistent (force_time_over e) w h m = on_force-IsConsistent w.force e w h m
in_streams-IsConsistent workflows_complete w h m =
    either-IsConsistent w.workflows_open (pipelines_complete (record w { workflows_open = false }))
      w
      (λ k.
        pipelines_complete-IsConsistent (record w { workflows_open = false })
          (open-is_active w.state w h.0 m (left_open w.workflows_open w.activities_open k)) m h.1)
      h
in_streams-IsConsistent (workflows_error e) w h m =
    either-IsConsistent w.workflows_open (fail e w) w (λ k. fail-IsConsistent e w h m) h
in_streams-IsConsistent activities_complete w h m =
    either-IsConsistent w.activities_open
      (pipelines_complete (record w { activities_open = false })) w
      (λ k.
        pipelines_complete-IsConsistent (record w { activities_open = false })
          (open-is_active w.state w h.0 m (right_open w.workflows_open w.activities_open k)) m h.1)
      h
in_streams-IsConsistent (activities_error e) w h m =
    either-IsConsistent w.activities_open (fail e w) w (λ k. fail-IsConsistent e w h m) h
in_streams-IsConsistent heartbeat_starts w h m =
    either-IsConsistent w.heartbeats_open
      (record w { heartbeats_in_flight = suc w.heartbeats_in_flight }) w
      (λ k. (started-Phase w.state w h.0, h.1)) h
in_streams-IsConsistent heartbeat_ends w h m = on_sent-IsConsistent w.heartbeats_in_flight w h m
in_streams-IsConsistent (heartbeat_error e) w h m =
    on_send_error-IsConsistent w.heartbeats_in_flight e w h m

merging-is : (m : Merged) → is_merging m ≡ true → m ≡ merging
merging-is idle e = ground arith
merging-is merging e = refl
merging-is completed e = ground arith
merging-is (rejected n) e = ground arith

streamed-IsConsistent : (x : Event) (w : Worker) → IsConsistent w → IsConsistent (streamed x w)
unfolding streamed
streamed-IsConsistent x w h =
    either-IsConsistent (is_merging w.merged) (in_streams x w) w
      (λ k. in_streams-IsConsistent x w h (merging-is w.merged k)) h

run_in-IsConsistent :
    (s : RunState) (ws acts : Bool) (time : Option ℕ) (w : Worker)
    → s ≡ w.state
    → IsConsistent w
    → IsConsistent (run_in s ws acts time w).1
unfolding set_state
run_in-IsConsistent initialized ws acts time w q h =
    pipelines_complete-IsConsistent (subscribe ws acts time (set_state running w)) refl refl
      (rw⁻¹ q (refl, rw q h.1))
run_in-IsConsistent running ws acts time w q h = h
run_in-IsConsistent stopping ws acts time w q h = h
run_in-IsConsistent draining ws acts time w q h = h
run_in-IsConsistent drained ws acts time w q h = h
run_in-IsConsistent stopped ws acts time w q h = h
run_in-IsConsistent failed ws acts time w q h = h

in_state :
    (s : RunState) (w : Worker) → s ≡ w.state → IsConsistent w → Phase s w × IsPath s w.earlier
in_state s w q h = rw q h

shutdown_in-IsConsistent :
    (s : RunState) (w : Worker) → s ≡ w.state → IsConsistent w → IsConsistent (shutdown_in s w).1
unfolding set_state
shutdown_in-IsConsistent initialized w q h = h
shutdown_in-IsConsistent running w q h =
    let (c, p) = in_state running w q h in (c, rw⁻¹ q (refl, p))
shutdown_in-IsConsistent stopping w q h = h
shutdown_in-IsConsistent draining w q h = h
shutdown_in-IsConsistent drained w q h = h
shutdown_in-IsConsistent stopped w q h = h
shutdown_in-IsConsistent failed w q h = h

confirm_in-IsConsistent :
    (s : RunState) (w : Worker) → s ≡ w.state → IsConsistent w → IsConsistent (confirm_in s w)
unfolding set_state
confirm_in-IsConsistent initialized w q h = h
confirm_in-IsConsistent running w q h = h
confirm_in-IsConsistent stopping w q h =
    let (c, p) = in_state stopping w q h in (c, rw⁻¹ q (refl, p))
confirm_in-IsConsistent draining w q h = h
confirm_in-IsConsistent drained w q h = h
confirm_in-IsConsistent stopped w q h = h
confirm_in-IsConsistent failed w q h = h

step-IsConsistent : (x : Event) (w : Worker) → IsConsistent w → IsConsistent (step x w)
unfolding step run shutdown
step-IsConsistent (run_called ws acts time) w h = run_in-IsConsistent w.state ws acts time w refl h
step-IsConsistent shutdown_called w h = shutdown_in-IsConsistent w.state w refl h
step-IsConsistent shutdown_confirmed w h = confirm_in-IsConsistent w.state w refl h
step-IsConsistent (shutdown_rejected e) w h = streamed-IsConsistent (shutdown_rejected e) w h
step-IsConsistent (force_time_over e) w h = streamed-IsConsistent (force_time_over e) w h
step-IsConsistent workflows_complete w h = streamed-IsConsistent workflows_complete w h
step-IsConsistent (workflows_error e) w h = streamed-IsConsistent (workflows_error e) w h
step-IsConsistent activities_complete w h = streamed-IsConsistent activities_complete w h
step-IsConsistent (activities_error e) w h = streamed-IsConsistent (activities_error e) w h
step-IsConsistent heartbeat_starts w h = streamed-IsConsistent heartbeat_starts w h
step-IsConsistent heartbeat_ends w h = streamed-IsConsistent heartbeat_ends w h
step-IsConsistent (heartbeat_error e) w h = streamed-IsConsistent (heartbeat_error e) w h

pub steps_lem : (xs : List Event) (w : Worker) → IsConsistent w → IsConsistent (steps xs w)
unfolding steps
steps_lem [] w h = h
steps_lem (x ∷ xs) w h = steps_lem xs (step x w) (step-IsConsistent x w h)

-- Whatever happens to a worker, its states follow each other as `may_follow` says, from
-- `INITIALIZED` on, and its state agrees with its streams: the promise of `run` is pending in
-- `RUNNING`, `STOPPING` and `DRAINING`, with tasks of workflows or activities still to come, and in
-- `DRAINED`, with only heartbeats under way; it is resolved in `STOPPED` and rejected in `FAILED`.
pub steps-IsConsistent : (xs : List Event) → IsConsistent (steps xs created)
steps-IsConsistent xs = steps_lem xs created (refl, refl)
