-- ===== src/Activator/Examples.antt =====
-- Examples of the laws of the activator.
use temporalio_sdk_typescrip.Prelude.{
  ℕ, ◌+◌, ◌≤◌, ◌≡◌, refl, String, none, some, Bool, true, false, List, [], ◌∷◌, ◌++◌, map, arith,
  any, All,
}
use temporalio_sdk_typescrip.Failure.{opaque, sdk_error, illegal_state_error}
use temporalio_sdk_typescrip.Activator.{
  Activator, cancel_timer_of, cancel_child_scope, react, returned, threw,
}
use temporalio_sdk_typescrip.Activator.Scenario.{
  converters, created, signalled, no_completions, pay, ship,
}
use temporalio_sdk_typescrip.Activator.Scopes.{
  scope_of, reject_scope, new_scope, run_reaction, scope_cancelled, workflow_cancelled,
}
use temporalio_sdk_typescrip.Activator.Scopes.Laws.{reject_scope-new_scope}
use temporalio_sdk_typescrip.Activator.Jobs.{completed, fire_timer, resolve_activity}
use temporalio_sdk_typescrip.Activator.Jobs.Resolving.{
  fire_timer-run_reaction, resolve_activity-twice,
}
use temporalio_sdk_typescrip.Activator.Signals.{
  dispatch_buffered_signals, set_handler, set_default_signal_handler, signal, function,
}
use temporalio_sdk_typescrip.Activator.Signals.Dispatch.{
  IsReadable, recorder, done_with, takes, dispatch_buffered_signals-recorder, set_handler-any,
}
use temporalio_sdk_typescrip.Activator.Commands.Patches.{markers, patch_all, patch_all-markers}

-- A timer and an activity are outstanding.
abbrev busy : Activator
busy = record created {
  completions = record no_completions { timers = (3, 1) ∷ []; activities = (5, 2) ∷ [] };
}

readable : All (IsReadable converters) (pay ∷ ship ∷ pay ∷ [])
readable =
    ((refl, (opaque 7 ∷ [], refl)), ((refl, ([], refl)), ((refl, (opaque 7 ∷ [], refl)), tt)))

dispatch_buffered_signals-recorder_example :
    dispatch_buffered_signals converters recorder signalled
    ≡ (returned tt, done_with converters signalled)
dispatch_buffered_signals-recorder_example =
    dispatch_buffered_signals-recorder converters signalled readable

set_handler-any_example :
    (let b = (set_handler converters recorder (signal "ship") (function 9) signalled).1 in
      any (takes b) b.buffered_signals ≡ false)
    × (let b = (set_default_signal_handler converters recorder (function 9) signalled).1 in
        any (takes b) b.buffered_signals ≡ false)
set_handler-any_example = set_handler-any converters "ship" 9 signalled readable

fire_timer-run_reaction_example :
    (let b = (fire_timer converters (some 3) busy).1 in
      run_reaction (cancel_timer_of 3 1) scope_cancelled b ≡ b)
    × (let b = run_reaction (cancel_timer_of 3 1) scope_cancelled busy in
        fire_timer converters (some 3) b ≡ (returned tt, b))
fire_timer-run_reaction_example = fire_timer-run_reaction converters 3 1 scope_cancelled busy

resolve_activity-twice_example :
    let b = (resolve_activity converters (some 5) (some (completed (some 8))) busy).1 in
    resolve_activity converters (some 5) (some (completed none)) b
    ≡ (threw (sdk_error illegal_state_error), b)
resolve_activity-twice_example =
    resolve_activity-twice converters 5 (completed (some 8)) (completed none) busy

one_is_not_zero : ¬ (◌≡◌ {A = ℕ} 1 0)
one_is_not_zero = omega arith

-- A scope that is not cancellable, below the root.
reject_scope-new_scope_example :
    let d = reject_scope 0 workflow_cancelled (new_scope 1 false 0 created) in
    let f = run_reaction (cancel_child_scope 1) workflow_cancelled d in
    (d.tasks ≡ (
      created.tasks
      ++ (map (λ r. react r workflow_cancelled) (scope_of 0 created).reactions
          ++ react (cancel_child_scope 1) workflow_cancelled ∷ [])))
    × ((scope_of 1 f).cancel_requested ≡ true)
    × ((scope_of 1 f).reason ≡ some workflow_cancelled)
    × ((scope_of 1 f).cancellable ≡ false)
reject_scope-new_scope_example =
    reject_scope-new_scope 0 1 false workflow_cancelled created one_is_not_zero refl

abbrev calls : List (String × Bool)
calls = ("a", false) ∷ ("b", true) ∷ ("a", false) ∷ []

patch_all-markers_example :
    markers "a" (patch_all calls created).commands ≤ markers "a" created.commands + 1
patch_all-markers_example = patch_all-markers "a" calls created
