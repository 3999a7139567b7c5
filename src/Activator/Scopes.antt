-- ===== src/Activator/Scopes.antt =====
-- Cancellation scopes and the microtasks that their cancellation starts:
-- packages/workflow/src/cancellation-scope.ts, the `catch` callbacks of
-- packages/workflow/src/workflow.ts, and packages/workflow/src/trigger.ts. `cancelRequested` of a
-- scope is a promise: a callback that is added before it is rejected waits in `reactions`, and one
-- that is added later is queued at once.
pub mod Laws
use temporalio_sdk_typescrip.Prelude.{
  ℕ, ◌+◌, Option, none, some, Bool, true, false, ◌&&◌, ◌||◌, if◌then◌else◌, List, [], ◌∷◌, ◌++◌,
  lookup, insert, remove, is_some, nat_key, map, length,
}
use temporalio_sdk_typescrip.Failure.{JsError, temporal, cancelled, uncaused}
use temporalio_sdk_typescrip.Activator.{
  Activator, Scope, Reaction, reject_promise, cancel_timer_of, cancel_wait_condition,
  cancel_activity_of, cancel_local_activity_of, cancel_child_workflow_of, cancel_signal_of,
  cancel_child_scope, Task, react, Settlement, rejected, resolved, Command, cancel_timer,
  request_cancel_activity, request_cancel_local_activity, cancel_child_workflow_execution,
  cancel_signal_workflow, CompletionType, timer, activity, child_workflow_complete, signal_workflow,
  has_completion, delete_completion, push_command, settle, enqueue, new_promise,
}

abbrev pub scope_cancelled : JsError
scope_cancelled = temporal "Cancellation scope cancelled" [] none (cancelled []) uncaused

abbrev pub workflow_cancelled : JsError
workflow_cancelled = temporal "Workflow cancelled" [] none (cancelled []) uncaused

abbrev pub no_scope : Scope
no_scope = record {
  cancellable = true;
  cancel_requested = false;
  reason = none;
  parent = none;
  reactions = [];
}

abbrev pub scope_or : Option Scope → Scope
scope_or none = no_scope
scope_or (some s) = s

abbrev pub scope_of : ℕ → Activator → Scope
scope_of id a = scope_or (lookup id a.scopes)

abbrev pub set_scope : ℕ → Scope → Activator → Activator
set_scope id s a = record a { scopes = insert id s a.scopes }

-- The getter `consideredCancelled`.
abbrev pub considered_cancelled : Scope → Bool
considered_cancelled s = s.cancel_requested && s.cancellable

-- `cancelRequested.catch(...)` on a scope.
unfoldable pub on_cancel : ℕ → Reaction → Activator → Activator
on_cancel id r a =
    let s = scope_of id a in
    elim s.reason [
      | none ↦ set_scope id (record s { reactions = s.reactions ++ r ∷ [] }) a
      | some e ↦ enqueue (react r e) a
    ]

-- `this.reject` of a scope: the flag is set each time, and the first reason counts.
unfoldable pub reject_scope : ℕ → JsError → Activator → Activator
reject_scope id e a =
    let s = scope_of id a in
    elim s.reason [
      | none ↦
          let b =
            set_scope id (record s { cancel_requested = true; reason = some e; reactions = [] })
              a in
          record b { tasks = b.tasks ++ map (λ r. react r e) s.reactions }
      | some _ ↦ set_scope id (record s { cancel_requested = true }) a
    ]

unfoldable pub cancel_scope : ℕ → Activator → Activator
unfolding reject_scope
cancel_scope id a = reject_scope id scope_cancelled a

-- `cancel` of `RootCancellationScope`.
unfoldable pub cancel_root : Activator → Activator
unfolding reject_scope
cancel_root a = reject_scope 0 workflow_cancelled a

-- The constructor, for a scope with a parent: the flag is copied, the rejection follows later.
unfoldable pub new_scope : (id : ℕ) (cancellable : Bool) (parent : ℕ) → Activator → Activator
unfolding on_cancel
new_scope id cancellable parent a = on_cancel parent (cancel_child_scope id) (
    set_scope id
      (record {
        cancellable = cancellable;
        cancel_requested = (scope_of parent a).cancel_requested;
        reason = none;
        parent = some parent;
        reactions = [];
      })
      a)

-- `CancellationScope.current().run(...)` makes a scope current while its function runs.
abbrev pub with_current : ℕ → Activator → Activator
with_current id a = record a { current_scope = id }

-- The callbacks that the commands of workflow.ts give to `catch`.
unfoldable pub run_reaction : Reaction → JsError → Activator → Activator
unfolding reject_scope
run_reaction (reject_promise p) e a = settle p (rejected (some e)) a
run_reaction (cancel_timer_of seq p) e a =
    if has_completion timer seq a
    then settle p (rejected (some e))
        (push_command (cancel_timer seq) false (delete_completion timer seq a))
    else a
run_reaction (cancel_wait_condition seq p) e a =
    settle p (rejected (some e)) (record a { blocked_conditions = remove seq a.blocked_conditions })
run_reaction (cancel_activity_of seq) e a =
    if has_completion activity seq a then push_command (request_cancel_activity seq) false a else a
run_reaction (cancel_local_activity_of seq) e a =
    if has_completion activity seq a
    then push_command (request_cancel_local_activity seq) false a
    else a
run_reaction (cancel_child_workflow_of seq) e a =
    if has_completion child_workflow_complete seq a
    then push_command (cancel_child_workflow_execution seq) false a
    else a
run_reaction (cancel_signal_of seq) e a =
    if has_completion signal_workflow seq a
    then push_command (cancel_signal_workflow seq) false a
    else a
run_reaction (cancel_child_scope id) e a = reject_scope id e a

-- The constructor of `Trigger`: its promise, linked to the current scope.
unfoldable pub new_trigger : Activator → ℕ × Activator
unfolding on_cancel
new_trigger a =
    let (p, b) = new_promise a in
    let s = scope_of b.current_scope b in
    if considered_cancelled s || s.cancellable
    then (p, on_cancel b.current_scope (reject_promise p) b)
    else (p, b)
