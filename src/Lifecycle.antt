-- ===== src/Lifecycle.antt =====
-- The life of a worker: `run`, `shutdown` and the streams that `run` merges, packages/worker/src/worker.ts.
-- A stream is known by whether it is open, an error is a number. What happens in the streams and in
-- Core comes as events. The clean-up that follows the merged streams is left out.
pub mod Ends
pub mod Paths
pub mod Phases
mod Examples
use temporalio_sdk_typescrip.Prelude.{
  ℕ, zero, suc, String, Option, none, some, Bool, true, false, not, ◌&&◌, ◌||◌, List, [], ◌∷◌,
  if◌then◌else◌,
}

-- The states of `State`.
pub data RunState : Type 0 where
  initialized : RunState
  running : RunState
  stopping : RunState
  draining : RunState
  drained : RunState
  stopped : RunState
  failed : RunState

-- `forceShutdown$`: without a time limit, racing for `STOPPING` or `DRAINED`, delaying the error, over.
pub data ForceShutdown : Type 0 where
  unlimited : ForceShutdown
  racing : ForceShutdown
  delaying : ForceShutdown
  over : ForceShutdown

-- The merged streams: not subscribed to, open, complete, or rejected with an error.
pub data Merged : Type 0 where
  idle : Merged
  merging : Merged
  completed : Merged
  rejected : (error : ℕ) → Merged

-- `state` and `earlier` are the values of `stateSubject`, the newest first.
pub record Worker : Type 0 where
  pub state : RunState
  pub earlier : List RunState
  pub unexpected_open : Bool
  pub force : ForceShutdown
  pub heartbeats_open : Bool
  pub heartbeats_in_flight : ℕ
  pub workflows_open : Bool
  pub activities_open : Bool
  pub merged : Merged

-- A worker that `create` has made.
abbrev pub created : Worker
created = record {
  state = initialized;
  earlier = [];
  unexpected_open = false;
  force = unlimited;
  heartbeats_open = false;
  heartbeats_in_flight = 0;
  workflows_open = false;
  activities_open = false;
  merged = idle;
}

abbrev pub arm : ForceShutdown → ForceShutdown
arm unlimited = unlimited
arm racing = delaying
arm delaying = delaying
arm over = over

abbrev pub is_settled : ForceShutdown → Bool
is_settled unlimited = true
is_settled racing = false
is_settled delaying = false
is_settled over = true

abbrev pub none_in_flight : ℕ → Bool
none_in_flight zero = true
none_in_flight (suc n) = false

-- What the subscribers of `stateSubject` do with a new state.
abbrev pub notify : RunState → Worker → Worker
notify initialized w = w
notify running w = w
notify stopping w = record w { force = arm w.force }
notify draining w = w
notify drained w = record w { unexpected_open = false; force = over; heartbeats_open = false }
notify stopped w = w
notify failed w = w

unfoldable pub set_state : RunState → Worker → Worker
set_state s w = notify s (record w { state = s; earlier = w.state ∷ w.earlier })

abbrev pub is_merging : Merged → Bool
is_merging idle = false
is_merging merging = true
is_merging completed = false
is_merging (rejected e) = false

-- Whether each of the merged streams is complete.
abbrev pub all_complete : Worker → Bool
all_complete w =
    not w.unexpected_open
    && is_settled w.force
    && not w.heartbeats_open
    && none_in_flight w.heartbeats_in_flight
    && not (w.workflows_open || w.activities_open)

-- The completion of the merged streams.
unfoldable pub settle : Worker → Worker
settle w = if all_complete w then set_state stopped (record w { merged = completed }) else w

-- An error of one of the merged streams.
unfoldable pub fail : ℕ → Worker → Worker
fail e w = set_state failed (record w { merged = rejected e })

-- The completion of the streams of workflows and activities, when both are complete.
unfoldable pub pipelines_complete : Worker → Worker
pipelines_complete w =
    if w.workflows_open || w.activities_open then w else settle (set_state drained w)

abbrev pub not_running : String
not_running = "Not running"

abbrev pub already_started : String
already_started = "Poller was already started"

abbrev pub limit_of : Option ℕ → ForceShutdown
limit_of none = unlimited
limit_of (some ms) = racing

abbrev pub subscribe : (has_workflows has_activities : Bool) → Option ℕ → Worker → Worker
subscribe has_workflows has_activities shutdown_force_time w = record w {
  unexpected_open = true;
  force = limit_of shutdown_force_time;
  heartbeats_open = true;
  workflows_open = has_workflows;
  activities_open = has_activities;
  merged = merging;
}

abbrev pub run_in :
    RunState → (has_workflows has_activities : Bool) → Option ℕ → Worker → Option String × Worker
run_in initialized ws acts time w =
    (none, pipelines_complete (subscribe ws acts time (set_state running w)))
run_in running ws acts time w = (some already_started, w)
run_in stopping ws acts time w = (some already_started, w)
run_in draining ws acts time w = (some already_started, w)
run_in drained ws acts time w = (some already_started, w)
run_in stopped ws acts time w = (some already_started, w)
run_in failed ws acts time w = (some already_started, w)

-- `run` up to its wait, and the message of the `IllegalStateError` that it throws.
unfoldable pub run :
    (has_workflows has_activities : Bool) → Option ℕ → Worker → Option String × Worker
run ws acts time w = run_in w.state ws acts time w

abbrev pub shutdown_in : RunState → Worker → Option String × Worker
shutdown_in initialized w = (some not_running, w)
shutdown_in running w = (none, set_state stopping w)
shutdown_in stopping w = (some not_running, w)
shutdown_in draining w = (some not_running, w)
shutdown_in drained w = (some not_running, w)
shutdown_in stopped w = (some not_running, w)
shutdown_in failed w = (some not_running, w)

unfoldable pub shutdown : Worker → Option String × Worker
shutdown w = shutdown_in w.state w

-- Core has initiated its shutdown.
abbrev pub confirm_in : RunState → Worker → Worker
confirm_in initialized w = w
confirm_in running w = w
confirm_in stopping w = set_state draining w
confirm_in draining w = w
confirm_in drained w = w
confirm_in stopped w = w
confirm_in failed w = w

pub data Event : Type 0 where
  run_called : (has_workflows has_activities : Bool) (shutdown_force_time : Option ℕ) → Event
  shutdown_called : Event
  shutdown_confirmed : Event
  shutdown_rejected : (error : ℕ) → Event
  force_time_over : (error : ℕ) → Event
  workflows_complete : Event
  workflows_error : (error : ℕ) → Event
  activities_complete : Event
  activities_error : (error : ℕ) → Event
  heartbeat_starts : Event
  heartbeat_ends : Event
  heartbeat_error : (error : ℕ) → Event

abbrev pub on_force : ForceShutdown → ℕ → Worker → Worker
on_force unlimited e w = w
on_force racing e w = w
on_force delaying e w = fail e w
on_force over e w = w

abbrev pub on_sent : (in_flight : ℕ) → Worker → Worker
on_sent zero w = w
on_sent (suc n) w = settle (record w { heartbeats_in_flight = n })

abbrev pub on_send_error : (in_flight : ℕ) → ℕ → Worker → Worker
on_send_error zero e w = w
on_send_error (suc n) e w = fail e w

-- An event of the streams that are subscribed to.
abbrev pub in_streams : Event → Worker → Worker
in_streams (run_called ws acts time) w = w
in_streams shutdown_called w = w
in_streams shutdown_confirmed w = w
in_streams (shutdown_rejected e) w = if w.unexpected_open then fail e w else w
in_streams (force_time_over e) w = on_force w.force e w
in_streams workflows_complete w =
    if w.workflows_open then pipelines_complete (record w { workflows_open = false }) else w
in_streams (workflows_error e) w = if w.workflows_open then fail e w else w
in_streams activities_complete w =
    if w.activities_open then pipelines_complete (record w { activities_open = false }) else w
in_streams (activities_error e) w = if w.activities_open then fail e w else w
in_streams heartbeat_starts w =
    if w.heartbeats_open then record w { heartbeats_in_flight = suc w.heartbeats_in_flight } else w
in_streams heartbeat_ends w = on_sent w.heartbeats_in_flight w
in_streams (heartbeat_error e) w = on_send_error w.heartbeats_in_flight e w

-- An event in any state: the streams hear it while they are merged.
unfoldable pub streamed : Event → Worker → Worker
streamed x w = if is_merging w.merged then in_streams x w else w

unfoldable pub step : Event → Worker → Worker
step (run_called ws acts time) w = (run ws acts time w).1
step shutdown_called w = (shutdown w).1
step shutdown_confirmed w = confirm_in w.state w
step (shutdown_rejected e) w = streamed (shutdown_rejected e) w
step (force_time_over e) w = streamed (force_time_over e) w
step workflows_complete w = streamed workflows_complete w
step (workflows_error e) w = streamed (workflows_error e) w
step activities_complete w = streamed activities_complete w
step (activities_error e) w = streamed (activities_error e) w
step heartbeat_starts w = streamed heartbeat_starts w
step heartbeat_ends w = streamed heartbeat_ends w
step (heartbeat_error e) w = streamed (heartbeat_error e) w

unfoldable pub steps : List Event → Worker → Worker
steps [] w = w
steps (x ∷ xs) w = steps xs (step x w)
