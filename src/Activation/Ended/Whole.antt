-- ===== src/Activation/Ended/Whole.antt =====
-- An activation of packages/workflow/src/worker-interface.ts keeps the rule on commands, when the
-- workflow's own code does.
use temporalio_sdk_typescrip.Prelude.{
  ℕ, zero, suc, Bool, true, not, ◌&&◌, none, some, List, [], ◌∷◌, length, string_key, arith,
  Bool-cases, inl, inr, if◌then◌else◌, ◌==◌,
}
use temporalio_sdk_typescrip.Failure.{undefined, sdk_error, type_error}
use temporalio_sdk_typescrip.Activator.{Activator, Condition, resolved, returned, threw}
use temporalio_sdk_typescrip.Activator.Jobs.{
  Converters, cancel_workflow_job, update_random_seed, notify_has_patch, remove_from_cache,
}
use temporalio_sdk_typescrip.Activator.Scopes.{workflow_cancelled}
use temporalio_sdk_typescrip.Activator.Signals.{UserCode}
use temporalio_sdk_typescrip.Activation
use temporalio_sdk_typescrip.Activation.{
  Job, WorkflowActivation, unblock_round, unblock_loop, try_unblock_conditions, unblock,
  unblock_after, run_job, run_jobs, prepare, activate, has_no_variant, is_query,
  should_unblock_conditions, jobs_of,
}
use temporalio_sdk_typescrip.Activation.Ended.{IsOrderly, settle-IsOrderly, reject_scope-IsOrderly}
use temporalio_sdk_typescrip.Activation.Ended.Tasks.{
  MKeeps, bind-IsOrderly, fire_timer-IsOrderly, resolve_activity-IsOrderly,
  resolve_child_start-IsOrderly, resolve_child-IsOrderly, resolve_signal-IsOrderly,
  resolve_cancel-IsOrderly,
}
use temporalio_sdk_typescrip.Activation.Ended.Handlers.{
  AreOrderly, either-IsOrderly, start_workflow-IsOrderly, query_workflow-IsOrderly,
  signal_workflow-IsOrderly,
}

module _ (before : Bool) where
  module _ (c : Converters) (u : UserCode) (k : AreOrderly before u) where
    run_job-IsOrderly : (job : Job) → MKeeps before (run_job c u job)
    unfolding run_job cancel_workflow_job update_random_seed notify_has_patch remove_from_cache
    run_job-IsOrderly (Job.start_workflow arguments) a h =
        start_workflow-IsOrderly before c u k arguments a h
    run_job-IsOrderly (Job.fire_timer seq) a h = fire_timer-IsOrderly before c seq a h
    run_job-IsOrderly (Job.resolve_activity seq r) a h =
        resolve_activity-IsOrderly before c seq r a h
    run_job-IsOrderly (Job.resolve_child_workflow_execution_start seq s) a h =
        resolve_child_start-IsOrderly before c seq s a h
    run_job-IsOrderly (Job.resolve_child_workflow_execution seq r) a h =
        resolve_child-IsOrderly before c seq r a h
    run_job-IsOrderly (Job.resolve_signal_external_workflow seq f) a h =
        resolve_signal-IsOrderly before c seq f a h
    run_job-IsOrderly (Job.resolve_request_cancel_external_workflow seq f) a h =
        resolve_cancel-IsOrderly before c seq f a h
    run_job-IsOrderly (Job.query_workflow q) a h = query_workflow-IsOrderly before c u k q a h
    run_job-IsOrderly Job.cancel_workflow a h =
        reject_scope-IsOrderly before 0 workflow_cancelled (record a { cancelled = true }) h
    run_job-IsOrderly (Job.signal_workflow s) a h = signal_workflow-IsOrderly before c u k s a h
    run_job-IsOrderly (Job.update_random_seed none) a h = h
    run_job-IsOrderly (Job.update_random_seed (some s)) a h = h
    run_job-IsOrderly (Job.notify_has_patch id) a h = ground arith
    run_job-IsOrderly Job.remove_from_cache a h = h
    run_job-IsOrderly Job.no_variant a h = h

    unblock_round-IsOrderly :
        (es : List (ℕ × Condition)) (r : ℕ × Activator)
        → IsOrderly before r.1
        → IsOrderly before (unblock_round u.holds es r).1
    unfolding unblock_round
    unblock_round-IsOrderly [] r h = h
    unblock_round-IsOrderly ((seq, x) ∷ es) r h =
        unblock_round-IsOrderly es (if u.holds x.fn r.1 then unblock u.holds seq x r else r) (
          either-IsOrderly before (u.holds x.fn r.1) (unblock u.holds seq x r) r
            (settle-IsOrderly before x.promise (resolved undefined) r.1 h) h)

    unblock_loop-IsOrderly :
        (fuel : ℕ) (r : ℕ × Activator) (a : Activator)
        → IsOrderly before r.1
        → IsOrderly before a
        → IsOrderly before (Activation.or_unfinished u.holds (unblock_loop u.holds fuel r) a).1
    unfolding unblock_loop
    unblock_loop-IsOrderly zero r a h g = g
    unblock_loop-IsOrderly (suc fuel) r a h g =
        let r' = unblock_round u.holds r.1.blocked_conditions r in
        let h' = unblock_round-IsOrderly r.1.blocked_conditions r h in
        elim (Bool-cases (r.0 == r'.0)) [
          | inl e ↦ rw e h'
          | inr e ↦ rw e (unblock_loop-IsOrderly fuel r' a h' g)
        ]

    unblock_after-IsOrderly :
        (job : Job) (a : Activator)
        → IsOrderly before a
        → IsOrderly before (unblock_after c u job a)
    unfolding try_unblock_conditions
    unblock_after-IsOrderly job a h =
        ground (arith, unblock_loop-IsOrderly (suc (length a.blocked_conditions)) (0, a) a h h)

    pub run_jobs-IsOrderly : (jobs : List Job) → MKeeps before (run_jobs c u jobs)
    unfolding run_jobs
    run_jobs-IsOrderly [] a h = h
    run_jobs-IsOrderly (job ∷ jobs) a h =
        either-IsOrderly before (has_no_variant job) (threw (sdk_error type_error), a) _ h
          (either-IsOrderly before (a.completed && not (is_query job)) (returned tt, a) _ h
            (bind-IsOrderly before (run_job c u job)
              (λ _ b. run_jobs c u jobs (unblock_after c u job b)) (run_job-IsOrderly job)
              (λ _ b g.
                run_jobs-IsOrderly jobs (unblock_after c u job b) (unblock_after-IsOrderly job b g))
              a h))

    prepare-IsOrderly : (act : WorkflowActivation) → MKeeps before (prepare c u act)
    unfolding prepare
    prepare-IsOrderly act a h = ground arith

    pub activate-IsOrderly :
        (act : WorkflowActivation) (batch_index : ℕ) → MKeeps before (activate c u act batch_index)
    unfolding activate
    activate-IsOrderly act zero a h =
        bind-IsOrderly before (prepare c u act) (λ _. run_jobs c u (jobs_of c u act.jobs))
          (prepare-IsOrderly act) (λ _. run_jobs-IsOrderly (jobs_of c u act.jobs)) a h
    activate-IsOrderly act (suc n) a h = run_jobs-IsOrderly (jobs_of c u act.jobs) a h
