-- ===== src/Activation.antt =====
-- Running an activation inside the workflow's isolate: `activate`, `concludeActivation` and
-- `tryUnblockConditions` of packages/workflow/src/worker-interface.ts, and the microtasks between.
pub mod Children
pub mod Conditions
pub mod Ended
pub mod Queries
pub mod Steps
mod Examples
use temporalio_sdk_typescrip.Prelude.{
  ℕ, zero, suc, ◌+◌, String, Option, none, some, Bool, true, false, not, ◌&&◌, if◌then◌else◌, List,
  [], ◌∷◌, ◌++◌, ◌==◌, ℤ, length, remove, nat_key, is_some,
}
use temporalio_sdk_typescrip.Time.{Timestamp, ts_to_ms_of}
use temporalio_sdk_typescrip.Failure.{Payload, ProtoFailure, undefined, sdk_error, type_error}
use temporalio_sdk_typescrip.Activator.{
  Activator, Condition, Signal, Query, Command, resolved, Task, react, complete_query_with,
  fail_query_with, complete_workflow_with, fail_workflow_with, reject_with, rejected, Outcome,
  returned, threw, M, ◌>>=◌, ◌>>◌, done, raise, run, settle, get_and_reset_commands,
}
use temporalio_sdk_typescrip.Activator.Scopes.{run_reaction}
use temporalio_sdk_typescrip.Activator.Jobs
use temporalio_sdk_typescrip.Activator.Jobs.{
  Converters, ActivityResolution, ChildStart, ChildResult, cancel_workflow_job, complete_workflow,
  complete_query, fail_query, handle_workflow_failure,
}
use temporalio_sdk_typescrip.Activator.Signals
use temporalio_sdk_typescrip.Activator.Signals.{UserCode}

-- coresdk.workflow_activation.IWorkflowActivationJob, by its variant.
pub data Job : Type 0 where
  start_workflow : (arguments : List Payload) → Job
  fire_timer : (seq : Option ℕ) → Job
  resolve_activity : (seq : Option ℕ) → Option ActivityResolution → Job
  resolve_child_workflow_execution_start : (seq : Option ℕ) → ChildStart → Job
  resolve_child_workflow_execution : (seq : Option ℕ) → Option ChildResult → Job
  resolve_signal_external_workflow : (seq : Option ℕ) → (failure : Option ProtoFailure) → Job
  resolve_request_cancel_external_workflow :
      (seq : Option ℕ) → (failure : Option ProtoFailure) → Job
  query_workflow : Query → Job
  cancel_workflow : Job
  signal_workflow : Signal → Job
  update_random_seed : Option (List ℕ) → Job
  notify_has_patch : (patch_id : String) → Job
  remove_from_cache : Job
  no_variant : Job

pub record WorkflowActivation : Type 0 where
  pub timestamp : Option Timestamp
  pub history_length : Option ℕ
  pub is_replaying : Option Bool
  pub jobs : Option (List Job)

abbrev pub is_query : Job → Bool
is_query (query_workflow _) = true
is_query _ = false

abbrev pub has_no_variant : Job → Bool
has_no_variant no_variant = true
has_no_variant _ = false

abbrev pub should_unblock_conditions : Job → Bool
should_unblock_conditions (query_workflow _) = false
should_unblock_conditions (notify_has_patch _) = false
should_unblock_conditions _ = true

module _ (holds : ℕ → Activator → Bool) where
  abbrev pub unblock : ℕ → Condition → ℕ × Activator → ℕ × Activator
  unblock seq cond r = (
    r.0 + 1,
    let b = settle cond.promise (resolved undefined) r.1 in
        record b { blocked_conditions = remove seq b.blocked_conditions },
  )

  -- One `for` over the entries of the map, with the count of those unblocked.
  unfoldable pub unblock_round : List (ℕ × Condition) → ℕ × Activator → ℕ × Activator
  unblock_round [] r = r
  unblock_round ((seq, cond) ∷ entries) r =
      unblock_round entries (if holds cond.fn r.1 then unblock seq cond r else r)

  -- The `for (;;)`, on fuel; `none` means that the fuel ran out.
  unfoldable pub unblock_loop : ℕ → ℕ × Activator → Option (ℕ × Activator)
  unblock_loop zero r = none
  unblock_loop (suc fuel) r =
      let r' = unblock_round r.1.blocked_conditions r in
      let rest = unblock_loop fuel r' in if r.0 == r'.0 then some r' else rest

  abbrev pub or_unfinished : Option (ℕ × Activator) → Activator → ℕ × Activator
  or_unfinished none a = (0, a)
  or_unfinished (some r) a = r

  unfoldable pub try_unblock_conditions : Activator → ℕ × Activator
  try_unblock_conditions a =
      or_unfinished (unblock_loop (suc (length a.blocked_conditions)) (0, a)) a

module _ (c : Converters) (u : UserCode) where
  -- `activator[job.variant](variant)`
  unfoldable pub run_job : Job → M (Unit {0})
  run_job (start_workflow arguments) = Signals.start_workflow c u arguments
  run_job (fire_timer seq) = Jobs.fire_timer c seq
  run_job (resolve_activity seq result) = Jobs.resolve_activity c seq result
  run_job (resolve_child_workflow_execution_start seq status) =
      Jobs.resolve_child_workflow_execution_start c seq status
  run_job (resolve_child_workflow_execution seq result) =
      Jobs.resolve_child_workflow_execution c seq result
  run_job (resolve_signal_external_workflow seq failure) =
      Jobs.resolve_signal_external_workflow c seq failure
  run_job (resolve_request_cancel_external_workflow seq failure) =
      Jobs.resolve_request_cancel_external_workflow c seq failure
  run_job (query_workflow q) = Signals.query_workflow c u q
  run_job cancel_workflow = run cancel_workflow_job
  run_job (signal_workflow s) = Signals.signal_workflow c u s
  run_job (update_random_seed seed) = Jobs.update_random_seed seed
  run_job (notify_has_patch id) = Jobs.notify_has_patch id
  run_job remove_from_cache = Jobs.remove_from_cache
  run_job no_variant = raise (sdk_error type_error)

  abbrev pub unblock_after : Job → Activator → Activator
  unblock_after job a =
      if should_unblock_conditions job then (try_unblock_conditions u.holds a).1 else a

  -- The `for` over the jobs: on a completed workflow it returns at the first job that is no query.
  unfoldable pub run_jobs : List Job → M (Unit {0})
  run_jobs [] a = (returned tt, a)
  run_jobs (job ∷ jobs) a =
      if has_no_variant job
      then (threw (sdk_error type_error), a)
      else if a.completed && not (is_query job)
      then (returned tt, a)
      else (run_job job >>= λ _ b. run_jobs jobs (unblock_after job b)) a

  abbrev pub timestamp_or : Option Timestamp → ℤ → ℤ
  timestamp_or none now = now
  timestamp_or (some ts) now = ts_to_ms_of c.packages ts

  abbrev pub replaying_or : Option Bool → Bool
  replaying_or none = false
  replaying_or (some b) = b

  -- What the first batch of an activation sets before its jobs run; the clock is set even when the
  -- history length is missing.
  abbrev pub set_history : Option ℕ → Bool → M (Unit {0})
  set_history none replaying a = (threw (sdk_error type_error), a)
  set_history (some n) replaying a =
      (returned tt, record a { is_replaying = replaying; history_length = n })

  unfoldable pub prepare : WorkflowActivation → M (Unit {0})
  prepare act a =
      if is_some act.jobs
      then set_history act.history_length (replaying_or act.is_replaying)
          (record a { now = timestamp_or act.timestamp a.now })
      else (threw (sdk_error type_error), a)

  abbrev pub jobs_of : Option (List Job) → List Job
  jobs_of none = []
  jobs_of (some jobs) = jobs

  unfoldable pub activate : WorkflowActivation → (batch_index : ℕ) → M (Unit {0})
  activate act zero = prepare act >> run_jobs (jobs_of act.jobs)
  activate act (suc _) = run_jobs (jobs_of act.jobs)

module _ (c : Converters) where
  unfoldable pub run_task : Task → M (Unit {0})
  run_task (react r e) = run (run_reaction r e)
  run_task (complete_query_with id v) = complete_query c id v
  run_task (fail_query_with id e) = fail_query c id e
  run_task (complete_workflow_with v) = complete_workflow c v
  run_task (fail_workflow_with e) = handle_workflow_failure c e
  run_task (reject_with p e) = run (settle p (rejected e))

  abbrev pub run_first : List Task → M (Unit {0})
  run_first [] a = (returned tt, a)
  run_first (t ∷ ts) a = run_task t (record a { tasks = ts })

  -- The runtime takes the oldest microtask.
  unfoldable pub run_microtask : M (Unit {0})
  run_microtask a = run_first a.tasks a

unfoldable pub conclude_activation : Activator → List Command × Activator
conclude_activation a = get_and_reset_commands a
