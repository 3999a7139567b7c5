-- ===== src/Lifecycle/Ends.antt =====
-- How the life of a worker ends, packages/worker/src/worker.ts.
use temporalio_sdk_typescrip.Prelude.{
  ℕ, zero, suc, Bool, true, false, ◌||◌, List, [], ◌∷◌, ◌≡◌, ◌≢◌, refl, ap, ◌∙◌, arith,
}
use temporalio_sdk_typescrip.Lifecycle.{
  RunState, initialized, running, stopping, draining, drained, stopped, failed, merging, racing,
  over, Worker, created, set_state, settle, fail, pipelines_complete, shutdown, streamed, Event,
  shutdown_called, shutdown_confirmed, force_time_over, workflows_complete, activities_complete,
  heartbeat_ends, step, steps,
}
use temporalio_sdk_typescrip.Lifecycle.Phases.{Phase}
use temporalio_sdk_typescrip.Lifecycle.Paths.{steps-IsConsistent}

-- The end of each heartbeat that is under way.
abbrev pub all_sent : ℕ → List Event
all_sent zero = []
all_sent (suc n) = heartbeat_ends ∷ all_sent n

-- The end of what is under way in the streams.
abbrev pub all_done : ℕ → List Event
all_done n = workflows_complete ∷ activities_complete ∷ all_sent n

expired :
    (e : ℕ) (w : Worker)
    → w.state ≡ running
    → w.merged ≡ merging
    → w.force ≡ racing
    → (steps (shutdown_called ∷ shutdown_confirmed ∷ force_time_over e ∷ []) w).state ≡ failed
unfolding steps step shutdown streamed set_state fail
expired e w s m f = rw s (rw m (rw f refl))

confirmed :
    (w : Worker)
    → w.state ≡ running
    → (steps (shutdown_called ∷ shutdown_confirmed ∷ []) w).state ≡ draining
unfolding steps step shutdown set_state
confirmed w s = rw s refl

settle-done :
    (w : Worker)
    → (w.workflows_open || w.activities_open) ≡ false
    → w.unexpected_open ≡ false
    → w.force ≡ over
    → w.heartbeats_open ≡ false
    → (settle (record w { heartbeats_in_flight = 0 })).state ≡ stopped
unfolding settle set_state
settle-done w o u f b = ground arith

settle-busy :
    (n : ℕ) (w : Worker)
    → settle (record w { heartbeats_in_flight = suc n }) ≡ record w { heartbeats_in_flight = suc n }
unfolding settle
settle-busy n w = ground arith

one_sent :
    (n : ℕ) (w : Worker)
    → w.merged ≡ merging
    → w.heartbeats_in_flight ≡ suc n
    → step heartbeat_ends w ≡ settle (record w { heartbeats_in_flight = n })
unfolding step streamed
one_sent n w m i = rw m (rw i refl)

sent-stopped :
    (n : ℕ) (w : Worker)
    → w.merged ≡ merging
    → (w.workflows_open || w.activities_open) ≡ false
    → w.unexpected_open ≡ false
    → w.force ≡ over
    → w.heartbeats_open ≡ false
    → w.heartbeats_in_flight ≡ suc n
    → (steps (all_sent (suc n)) w).state ≡ stopped
unfolding steps
sent-stopped zero w m o u f b i = rw (one_sent 0 w m i) (settle-done w o u f b)
sent-stopped (suc n) w m o u f b i =
    ap (λ v. (steps (all_sent (suc n)) v).state) (one_sent (suc n) w m i ∙ settle-busy n w)
    ∙ sent-stopped n (record w { heartbeats_in_flight = suc n }) m o u f b refl

-- The worker when the streams of workflows and activities are complete.
abbrev both_closed : Worker → Worker
both_closed w = record w { workflows_open = false; activities_open = false }

closed-stopped :
    (n : ℕ) (w : Worker)
    → w.merged ≡ merging
    → (w.workflows_open || w.activities_open) ≡ false
    → (steps
        (all_sent n)
        (settle (set_state drained (record w { heartbeats_in_flight = n })))).state
      ≡ stopped
unfolding steps set_state
closed-stopped zero w m o = settle-done (set_state drained w) o refl refl refl
closed-stopped (suc n) w m o = rw (settle-busy n (set_state drained w)) (
    sent-stopped n (set_state drained (record w { heartbeats_in_flight = suc n })) m o refl refl
      refl refl)

settle-activities_open : (w : Worker) → (settle w).activities_open ≡ w.activities_open
unfolding settle set_state
settle-activities_open w = ground arith

unheard : (w : Worker) → w.activities_open ≡ false → step activities_complete w ≡ w
unfolding step streamed
unheard w a = ground arith

workflows-last :
    (w : Worker)
    → w.merged ≡ merging
    → step workflows_complete (record w { workflows_open = true; activities_open = false })
      ≡ settle (set_state drained (both_closed w))
unfolding step streamed pipelines_complete set_state
workflows-last w m = rw m refl

both_complete :
    (b c : Bool) (w : Worker)
    → w.merged ≡ merging
    → (b || c) ≡ true
    → step activities_complete
        (step workflows_complete (record w { workflows_open = b; activities_open = c }))
      ≡ settle (set_state drained (both_closed w))
unfolding step streamed pipelines_complete set_state
both_complete true true w m o = rw m refl
both_complete true false w m o =
    let v : Worker = set_state drained (both_closed w) in
    ap (step activities_complete) (workflows-last w m)
    ∙ unheard (settle v) (settle-activities_open v)
both_complete false true w m o = rw m refl
both_complete false false w m o = ground arith

done-stopped :
    (w : Worker)
    → w.merged ≡ merging
    → (w.workflows_open || w.activities_open) ≡ true
    → (steps (all_done w.heartbeats_in_flight) w).state ≡ stopped
unfolding steps
done-stopped w m o =
    ap (λ v. (steps (all_sent w.heartbeats_in_flight) v).state)
      (both_complete w.workflows_open w.activities_open w m o)
    ∙ closed-stopped w.heartbeats_in_flight (both_closed w) m refl

running-Phase : (s : RunState) (w : Worker) → Phase s w → s ≡ running → w.merged ≡ merging
running-Phase initialized w h r = ground arith
running-Phase running w h r = h.0
running-Phase stopping w h r = ground arith
running-Phase draining w h r = ground arith
running-Phase drained w h r = ground arith
running-Phase stopped w h r = ground arith
running-Phase failed w h r = ground arith

open_streams :
    (s : RunState) (w : Worker)
    → Phase s w
    → w.merged ≡ merging
    → s ≢ drained
    → (w.workflows_open || w.activities_open) ≡ true
open_streams initialized w h m n = ground arith
open_streams running w h m n = h.1
open_streams stopping w h m n = h.1
open_streams draining w h m n = h.1
open_streams drained w h m n = ground arith
open_streams stopped w h m n = ground arith
open_streams failed w h m n = ground arith

-- From any state that a worker reaches in which the streams are merged and it is not `DRAINED`, the
-- completion of the streams of workflows and activities, followed by the end of each heartbeat that
-- is under way, ends in `STOPPED`, with or without a shutdown before.
pub steps-all_done :
    (xs : List Event)
    → (steps xs created).merged ≡ merging
    → (steps xs created).state ≢ drained
    → (steps (all_done (steps xs created).heartbeats_in_flight) (steps xs created)).state ≡ stopped
steps-all_done xs m n =
    let w : Worker = steps xs created in
    done-stopped w m (open_streams w.state w (steps-IsConsistent xs).0 m n)

-- If a worker reaches `RUNNING` with a limit to its shutdown, and the limit is over after Core has
-- confirmed the shutdown, while tasks are still under way, the worker fails, though it has left
-- `STOPPING` for `DRAINING` before.
pub steps-force_time_over :
    (xs : List Event) (e : ℕ)
    → (steps xs created).state ≡ running
    → (steps xs created).force ≡ racing
    → ((steps (shutdown_called ∷ shutdown_confirmed ∷ []) (steps xs created)).state ≡ draining)
      × ((steps
            (shutdown_called ∷ shutdown_confirmed ∷ force_time_over e ∷ [])
            (steps xs created)).state
          ≡ failed)
steps-force_time_over xs e s f =
    let w : Worker = steps xs created in
    (confirmed w s, expired e w s (running-Phase w.state w (steps-IsConsistent xs).0 s) f)
