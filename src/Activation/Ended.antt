-- ===== src/Activation/Ended.antt =====
-- How a workflow ends: the rule that `pushCommand` of packages/workflow/src/internals.ts keeps for
-- the commands of an activation.
pub mod Tasks
pub mod Calls
pub mod Handlers
pub mod Whole
use temporalio_sdk_typescrip.Prelude.{
  ℕ, ◌≡◌, refl, Bool, true, false, not, ◌&&◌, ◌||◌, if◌then◌else◌, Option, none, some, List, [],
  ◌∷◌, ◌++◌, arith, Bool-cases, inl, inr, map, lookup, nat_key,
}
use temporalio_sdk_typescrip.Failure.{JsError}
use temporalio_sdk_typescrip.Activator.{
  Activator, Command, complete_workflow_execution, fail_workflow_execution,
  cancel_workflow_execution, continue_as_new_workflow_execution, respond_to_query,
  is_query_response, push_command, settle, chain_rejection, Settlement, CompletionType,
  maybe_consume_completion, Reaction, reject_promise, cancel_timer_of, cancel_wait_condition,
  cancel_activity_of, cancel_local_activity_of, cancel_child_workflow_of, cancel_signal_of,
  cancel_child_scope, cancel_timer, request_cancel_activity, request_cancel_local_activity,
  cancel_child_workflow_execution, cancel_signal_workflow, rejected, has_completion, timer,
  activity, child_workflow_complete, signal_workflow, delete_completion, Scope,
}
use temporalio_sdk_typescrip.Activator.Scopes.{
  on_cancel, reject_scope, cancel_scope, cancel_root, new_scope, run_reaction, scope_of,
  new_trigger, set_scope,
}

-- The commands that close a workflow execution.
abbrev pub is_terminal : Command → Bool
is_terminal (complete_workflow_execution _) = true
is_terminal (fail_workflow_execution _) = true
is_terminal cancel_workflow_execution = true
is_terminal (continue_as_new_workflow_execution _) = true
is_terminal _ = false

-- Read the commands in order: once one of them has closed the execution, only answers to queries
-- may follow. The result says whether the execution is closed at the end.
abbrev pub closes : Bool → List Command → Option Bool
closes closed [] = some closed
closes false (c ∷ cs) = closes (is_terminal c) cs
closes true (c ∷ cs) = if is_query_response c then closes true cs else none

-- The commands collected since a moment at which the execution was closed, or was not.
abbrev pub IsOrderly : Bool → Activator → Type 0
IsOrderly before a = closes before a.commands ≡ some a.completed

closes-append :
    (before after : Bool) (cs : List Command) (c : Command)
    → closes before cs ≡ some after
    → closes before (cs ++ c ∷ []) ≡ closes after (c ∷ [])
closes-append before after [] c h = ground arith
closes-append true after (d ∷ cs) c h = ground (arith, closes-append true after cs c)
closes-append false after (d ∷ cs) c h = closes-append (is_terminal d) after cs c h

-- A command that closes the execution is pushed as one, and no other is.
pub push_command-IsOrderly :
    (before : Bool) (c : Command) (a : Activator)
    → IsOrderly before a
    → IsOrderly before (push_command c (is_terminal c) a)
unfolding push_command
push_command-IsOrderly before c a h =
    ground (arith, closes-append before a.completed a.commands c h)

module _ (before : Bool) where
  pub settle-IsOrderly :
      (p : ℕ) (s : Settlement) (a : Activator)
      → IsOrderly before a
      → IsOrderly before (settle p s a)
  unfolding settle
  settle-IsOrderly p s a h = ground arith

  pub chain_rejection-IsOrderly :
      (p q : ℕ) (a : Activator) → IsOrderly before a → IsOrderly before (chain_rejection p q a)
  unfolding chain_rejection
  chain_rejection-IsOrderly p q a h = ground arith

  pub maybe_consume_completion-IsOrderly :
      (t : CompletionType) (n : ℕ) (a : Activator)
      → IsOrderly before a
      → IsOrderly before (maybe_consume_completion t n a).1
  unfolding maybe_consume_completion
  maybe_consume_completion-IsOrderly t n a h = ground arith

  pub on_cancel-IsOrderly :
      (id : ℕ) (r : Reaction) (a : Activator)
      → IsOrderly before a
      → IsOrderly before (on_cancel id r a)
  unfolding on_cancel
  on_cancel-IsOrderly id r a h = ground arith

  pub reject_scope-IsOrderly :
      (id : ℕ) (e : JsError) (a : Activator)
      → IsOrderly before a
      → IsOrderly before (reject_scope id e a)
  unfolding reject_scope
  reject_scope-IsOrderly id e a h = ground arith

  pub new_trigger-IsOrderly :
      (a : Activator) → IsOrderly before a → IsOrderly before (new_trigger a).1
  unfolding new_trigger
  new_trigger-IsOrderly a h = ground arith

  pub new_scope-IsOrderly :
      (id : ℕ) (cancellable : Bool) (parent : ℕ) (a : Activator)
      → IsOrderly before a
      → IsOrderly before (new_scope id cancellable parent a)
  unfolding new_scope
  new_scope-IsOrderly id cancellable parent a h = ground arith

  pub run_reaction-IsOrderly :
      (r : Reaction) (e : JsError) (a : Activator)
      → IsOrderly before a
      → IsOrderly before (run_reaction r e a)
  unfolding run_reaction
  run_reaction-IsOrderly (reject_promise p) e a h = settle-IsOrderly p (rejected (some e)) a h
  run_reaction-IsOrderly (cancel_timer_of seq p) e a h =
      elim (Bool-cases (has_completion timer seq a)) [
        | inl t ↦
            rw (t, run_reaction)
              (settle-IsOrderly p (rejected (some e)) _ (
                push_command-IsOrderly before (cancel_timer seq) (delete_completion timer seq a) h))
        | inr f ↦ rw (f, run_reaction) h
      ]
  run_reaction-IsOrderly (cancel_wait_condition seq p) e a h =
      settle-IsOrderly p (rejected (some e)) _ h
  run_reaction-IsOrderly (cancel_activity_of seq) e a h =
      ground (arith, push_command-IsOrderly before (request_cancel_activity seq) a h)
  run_reaction-IsOrderly (cancel_local_activity_of seq) e a h =
      ground (arith, push_command-IsOrderly before (request_cancel_local_activity seq) a h)
  run_reaction-IsOrderly (cancel_child_workflow_of seq) e a h =
      ground (arith, push_command-IsOrderly before (cancel_child_workflow_execution seq) a h)
  run_reaction-IsOrderly (cancel_signal_of seq) e a h =
      ground (arith, push_command-IsOrderly before (cancel_signal_workflow seq) a h)
  run_reaction-IsOrderly (cancel_child_scope id) e a h = reject_scope-IsOrderly id e a h
