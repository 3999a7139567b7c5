-- ===== src/Activation/Ended/Tasks.antt =====
-- The activation job handlers of packages/workflow/src/internals.ts keep the rule on commands, and
-- so does a whole activation, when the workflow's own code does.
use temporalio_sdk_typescrip.Prelude.{
  ℕ, ◌≡◌, refl, Bool, true, false, ◌&&◌, Option, none, some, [], String, string_key, arith,
  if◌then◌else◌,
}
use temporalio_sdk_typescrip.Failure
use temporalio_sdk_typescrip.Failure.{
  Value, undefined, Payload, ProtoFailure, JsError, sdk_error, type_error, value_error,
  illegal_state_error, is_cancellation, is_continue_as_new, is_temporal_failure,
  ensure_temporal_failure,
}
use temporalio_sdk_typescrip.Activator.{
  Activator, CompletionType, timer, activity, child_workflow_start, child_workflow_complete,
  signal_workflow, cancel_workflow, Command, respond_to_query, QueryAnswer,
  complete_workflow_execution, fail_workflow_execution, cancel_workflow_execution,
  continue_as_new_workflow_execution, Settlement, resolved, rejected, Outcome, returned, threw, M,
  follow, ◌>>=◌, run, push_command, settle, maybe_consume_completion, Task, react,
  complete_query_with, fail_query_with, complete_workflow_with, fail_workflow_with, reject_with,
}
use temporalio_sdk_typescrip.Activator.Jobs
use temporalio_sdk_typescrip.Activator.Jobs.{
  Converters, or_throw, consume_completion, ActivityResolution, ChildStart, ChildResult,
  failure_to_error, error_to_failure, to_payload, from_payload, get_seq,
}
use temporalio_sdk_typescrip.Activation.{run_task}
use temporalio_sdk_typescrip.Activation.Ended.{
  IsOrderly, is_terminal, push_command-IsOrderly, settle-IsOrderly,
  maybe_consume_completion-IsOrderly, run_reaction-IsOrderly,
}

module _ (before : Bool) where
  abbrev pub MKeeps : {A : Type 0} → M A → Type 0
  MKeeps m = (a : Activator) → IsOrderly before a → IsOrderly before (m a).1

  pub follow-IsOrderly :
      {A B : Type 0} (f : A → M B) (o : Outcome A) → ((x : A) → MKeeps (f x)) → MKeeps (follow f o)
  follow-IsOrderly f (returned x) k a h = k x a h
  follow-IsOrderly f (threw e) k a h = h

  pub bind-IsOrderly :
      {A B : Type 0} (m : M A) (f : A → M B)
      → MKeeps m
      → ((x : A) → MKeeps (f x))
      → MKeeps (m >>= f)
  bind-IsOrderly m f km kf a h = follow-IsOrderly f (m a).0 kf (m a).1 (km a h)

  pub or_throw-IsOrderly : {A : Type 0} (e : JsError) (o : Option A) → MKeeps (or_throw e o)
  or_throw-IsOrderly e none a h = h
  or_throw-IsOrderly e (some x) a h = h

  pub consume-IsOrderly : (t : CompletionType) (n : ℕ) → MKeeps (consume_completion t n)
  consume-IsOrderly t n a h =
      or_throw-IsOrderly (sdk_error illegal_state_error) (maybe_consume_completion t n a).0
        (maybe_consume_completion t n a).1 (maybe_consume_completion-IsOrderly before t n a h)

  pub settled-IsOrderly :
      {A : Type 0} (p : ℕ) (m : M A) (s : A → Settlement)
      → MKeeps m
      → MKeeps (m >>= λ x. run (settle p (s x)))
  settled-IsOrderly p m s k =
      bind-IsOrderly m (λ x. run (settle p (s x))) k (λ x b h. settle-IsOrderly before p (s x) b h)

  -- Reading the number and taking the completion, before what a handler does with it.
  pub taking-IsOrderly :
      (seq : Option ℕ) (t : CompletionType) (k : ℕ → M (Unit {0}))
      → ((p : ℕ) → MKeeps (k p))
      → MKeeps (get_seq seq >>= λ n. consume_completion t n >>= k)
  taking-IsOrderly seq t k h =
      bind-IsOrderly (get_seq seq) (λ n. consume_completion t n >>= k)
        (or_throw-IsOrderly (sdk_error type_error) seq)
        (λ n. bind-IsOrderly (consume_completion t n) k (consume-IsOrderly t n) h)

  pub pushed-IsOrderly :
      {A : Type 0} (m : M A) (cmd : A → Command) (end : Bool)
      → ((x : A) → is_terminal (cmd x) ≡ end)
      → MKeeps m
      → MKeeps (m >>= λ x. run (push_command (cmd x) end))
  pushed-IsOrderly m cmd end e k =
      bind-IsOrderly m (λ x. run (push_command (cmd x) end)) k
        (λ x b h. let at_end = e x in ground (arith, push_command-IsOrderly before (cmd x) b h))

  module _ (c : Converters) where
    pub resolve_found-IsOrderly :
        (o : Option ℕ) (a : Activator)
        → IsOrderly before a
        → IsOrderly before (Jobs.resolve_found o a)
    resolve_found-IsOrderly none a h = h
    resolve_found-IsOrderly (some p) a h = settle-IsOrderly before p (resolved undefined) a h

    pub fire_timer-IsOrderly : (seq : Option ℕ) → MKeeps (Jobs.fire_timer c seq)
    unfolding Jobs.fire_timer
    fire_timer-IsOrderly none a h = h
    fire_timer-IsOrderly (some n) a h =
        resolve_found-IsOrderly (maybe_consume_completion timer n a).0
          (maybe_consume_completion timer n a).1
          (maybe_consume_completion-IsOrderly before timer n a h)

    pub optional_value-IsOrderly : (r : Option Payload) → MKeeps (Jobs.optional_value c r)
    optional_value-IsOrderly none a h = h
    optional_value-IsOrderly (some p) a h =
        or_throw-IsOrderly (sdk_error value_error) (c.payloads.from_payload p) a h

    pub failure_to_error-IsOrderly : (f : ProtoFailure) → MKeeps (failure_to_error c f)
    failure_to_error-IsOrderly f = or_throw-IsOrderly (sdk_error type_error) (c.failure_to_error f)

    pub some_error-IsOrderly :
        (f : ProtoFailure) → MKeeps (failure_to_error c f >>= λ e a. (returned (some e), a))
    some_error-IsOrderly f =
        bind-IsOrderly (failure_to_error c f) (λ e a. (returned (some e), a))
          (failure_to_error-IsOrderly f) (λ e a h. h)

    pub optional_error-IsOrderly : (f : Option ProtoFailure) → MKeeps (Jobs.optional_error c f)
    optional_error-IsOrderly none a h = h
    optional_error-IsOrderly (some f) a h = some_error-IsOrderly f a h

    pub required_error-IsOrderly : (f : Option ProtoFailure) → MKeeps (Jobs.required_error c f)
    required_error-IsOrderly none a h = h
    required_error-IsOrderly (some f) a h = some_error-IsOrderly f a h

    pub finish_activity-IsOrderly :
        (p : ℕ) (r : ActivityResolution) → MKeeps (Jobs.finish_activity c p r)
    finish_activity-IsOrderly p (ActivityResolution.completed r) a h =
        settled-IsOrderly p (Jobs.optional_value c r) resolved (optional_value-IsOrderly r) a h
    finish_activity-IsOrderly p (ActivityResolution.failed f) a h =
        settled-IsOrderly p (Jobs.optional_error c f) rejected (optional_error-IsOrderly f) a h
    finish_activity-IsOrderly p (ActivityResolution.cancelled f) a h =
        settled-IsOrderly p (Jobs.optional_error c f) rejected (optional_error-IsOrderly f) a h
    finish_activity-IsOrderly p (ActivityResolution.backoff n d) a h =
        settle-IsOrderly before p (rejected (some (JsError.do_backoff n d))) a h
    finish_activity-IsOrderly p ActivityResolution.no_status a h = h

    pub finish_child-IsOrderly : (p : ℕ) (r : ChildResult) → MKeeps (Jobs.finish_child c p r)
    finish_child-IsOrderly p (ChildResult.completed r) a h =
        settled-IsOrderly p (Jobs.optional_value c r) resolved (optional_value-IsOrderly r) a h
    finish_child-IsOrderly p (ChildResult.failed f) a h =
        settled-IsOrderly p (Jobs.required_error c f) rejected (required_error-IsOrderly f) a h
    finish_child-IsOrderly p (ChildResult.cancelled f) a h =
        settled-IsOrderly p (Jobs.required_error c f) rejected (required_error-IsOrderly f) a h
    finish_child-IsOrderly p ChildResult.no_status a h = h

    pub finish_child_start-IsOrderly :
        (seq : Option ℕ) (p : ℕ) (s : ChildStart) → MKeeps (Jobs.finish_child_start c seq p s)
    finish_child_start-IsOrderly seq p (ChildStart.succeeded r) a h =
        settle-IsOrderly before p (resolved (Value.run_id r)) a h
    finish_child_start-IsOrderly seq p (ChildStart.failed exists id type) a h = ground (
      arith,
      settle-IsOrderly before p
          (rejected (
            some (
              JsError.temporal "Workflow execution already started" [] none
                (Failure.already_started id type) Failure.uncaused)))
          a h,
    )
    finish_child_start-IsOrderly seq p (ChildStart.cancelled f) a h =
        settled-IsOrderly p (Jobs.required_error c f) rejected (required_error-IsOrderly f) a h
    finish_child_start-IsOrderly seq p ChildStart.no_status a h = h

    pub finish_external-IsOrderly :
        (p : ℕ) (f : Option ProtoFailure) → MKeeps (Jobs.finish_external c p f)
    finish_external-IsOrderly p none a h = settle-IsOrderly before p (resolved undefined) a h
    finish_external-IsOrderly p (some f) a h =
        settled-IsOrderly p (failure_to_error c f) (λ e. rejected (some e))
          (failure_to_error-IsOrderly f) a h

    pub error_to_failure-IsOrderly : (e : JsError) → MKeeps (error_to_failure c e)
    error_to_failure-IsOrderly e = or_throw-IsOrderly (sdk_error value_error) (c.error_to_failure e)

    pub to_payload-IsOrderly : (v : Value) → MKeeps (to_payload c v)
    to_payload-IsOrderly v = or_throw-IsOrderly (sdk_error value_error) (c.payloads.to_payload v)

    pub failing-IsOrderly :
        (e : JsError)
        → MKeeps (error_to_failure c e >>= λ f. run (push_command (fail_workflow_execution f) true))
    failing-IsOrderly e =
        pushed-IsOrderly (error_to_failure c e) fail_workflow_execution true (λ f. refl)
          (error_to_failure-IsOrderly e)

    pub not_cancelled-IsOrderly : (e : JsError) → MKeeps (Jobs.handle_uncancelled c e)
    not_cancelled-IsOrderly e a h =
        elim (is_continue_as_new e) as (λ o. IsOrderly before (Jobs.handle_other c e o a).1) [
          | some cmd ↦ push_command-IsOrderly before (continue_as_new_workflow_execution cmd) a h
          | none ↦
              elim (is_temporal_failure e)
                as (λ b. IsOrderly before (Jobs.handle_plain c e b a).1) [
                  | true ↦ failing-IsOrderly e a h
                  | false ↦ h
                ]
        ]

    pub handle_workflow_failure-IsOrderly :
        (e : JsError) → MKeeps (Jobs.handle_workflow_failure c e)
    unfolding Jobs.handle_workflow_failure
    handle_workflow_failure-IsOrderly e a h =
        elim (a.cancelled && is_cancellation e)
          as (λ b.
            IsOrderly before
              (if b
                then (returned tt, push_command cancel_workflow_execution true a)
                else Jobs.handle_uncancelled c e a).1) [
                  | true ↦ push_command-IsOrderly before cancel_workflow_execution a h
                  | false ↦ not_cancelled-IsOrderly e a h
                ]

    pub resolve_activity-IsOrderly :
        (seq : Option ℕ) (r : Option ActivityResolution) → MKeeps (Jobs.resolve_activity c seq r)
    unfolding Jobs.resolve_activity
    resolve_activity-IsOrderly seq none a h = h
    resolve_activity-IsOrderly seq (some r) a h =
        taking-IsOrderly seq activity (λ p. Jobs.finish_activity c p r)
          (λ p. finish_activity-IsOrderly p r) a h

    pub resolve_child_start-IsOrderly :
        (seq : Option ℕ) (s : ChildStart)
        → MKeeps (Jobs.resolve_child_workflow_execution_start c seq s)
    unfolding Jobs.resolve_child_workflow_execution_start
    resolve_child_start-IsOrderly seq s a h =
        taking-IsOrderly seq child_workflow_start (λ p. Jobs.finish_child_start c seq p s)
          (λ p. finish_child_start-IsOrderly seq p s) a h

    pub resolve_child-IsOrderly :
        (seq : Option ℕ) (r : Option ChildResult)
        → MKeeps (Jobs.resolve_child_workflow_execution c seq r)
    unfolding Jobs.resolve_child_workflow_execution
    resolve_child-IsOrderly seq none a h = h
    resolve_child-IsOrderly seq (some r) a h =
        taking-IsOrderly seq child_workflow_complete (λ p. Jobs.finish_child c p r)
          (λ p. finish_child-IsOrderly p r) a h

    pub resolve_signal-IsOrderly :
        (seq : Option ℕ) (f : Option ProtoFailure)
        → MKeeps (Jobs.resolve_signal_external_workflow c seq f)
    unfolding Jobs.resolve_signal_external_workflow
    resolve_signal-IsOrderly seq f a h =
        taking-IsOrderly seq signal_workflow (λ p. Jobs.finish_external c p f)
          (λ p. finish_external-IsOrderly p f) a h

    pub resolve_cancel-IsOrderly :
        (seq : Option ℕ) (f : Option ProtoFailure)
        → MKeeps (Jobs.resolve_request_cancel_external_workflow c seq f)
    unfolding Jobs.resolve_request_cancel_external_workflow
    resolve_cancel-IsOrderly seq f a h =
        taking-IsOrderly seq cancel_workflow (λ p. Jobs.finish_external c p f)
          (λ p. finish_external-IsOrderly p f) a h

    pub complete_workflow-IsOrderly : (v : Value) → MKeeps (Jobs.complete_workflow c v)
    unfolding Jobs.complete_workflow
    complete_workflow-IsOrderly v =
        pushed-IsOrderly (to_payload c v) complete_workflow_execution true (λ p. refl)
          (to_payload-IsOrderly v)

    pub complete_query-IsOrderly : (id : String) (v : Value) → MKeeps (Jobs.complete_query c id v)
    unfolding Jobs.complete_query
    complete_query-IsOrderly id v =
        pushed-IsOrderly (to_payload c v) (λ p. respond_to_query id (QueryAnswer.succeeded p)) false
          (λ p. refl) (to_payload-IsOrderly v)

    pub fail_query-IsOrderly : (id : String) (e : JsError) → MKeeps (Jobs.fail_query c id e)
    unfolding Jobs.fail_query
    fail_query-IsOrderly id e =
        let e' = ensure_temporal_failure c.text_of e in
        pushed-IsOrderly (error_to_failure c e') (λ f. respond_to_query id (QueryAnswer.failed f))
          false (λ p. refl) (error_to_failure-IsOrderly e')

    pub run_task-IsOrderly : (t : Task) → MKeeps (run_task c t)
    unfolding run_task
    run_task-IsOrderly (react r e) a h = run_reaction-IsOrderly before r e a h
    run_task-IsOrderly (complete_query_with id v) a h = complete_query-IsOrderly id v a h
    run_task-IsOrderly (fail_query_with id e) a h = fail_query-IsOrderly id e a h
    run_task-IsOrderly (complete_workflow_with v) a h = complete_workflow-IsOrderly v a h
    run_task-IsOrderly (fail_workflow_with e) a h = handle_workflow_failure-IsOrderly e a h
    run_task-IsOrderly (reject_with p e) a h = settle-IsOrderly before p (rejected e) a h
