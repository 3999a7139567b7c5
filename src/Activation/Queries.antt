-- ===== src/Activation/Queries.antt =====
-- How the queries of an activation are answered: `queryWorkflow` of
-- packages/workflow/src/internals.ts under `activate` of packages/workflow/src/worker-interface.ts.
use temporalio_sdk_typescrip.Prelude.{
  ℕ, ◌≡◌, refl, true, ◌&&◌, Option, none, some, List, [], ◌∷◌, ◌++◌, All, lookup, string_key,
  String, arith,
}
use mathlib.Core.List.{append_assoc, append-nil}
use temporalio_sdk_typescrip.Failure.{
  Value, sdk_error, reference_error, determinism_violation_error,
}
use temporalio_sdk_typescrip.Activator.{
  Activator, Query, Task, complete_query_with, fail_query_with, returned,
}
use temporalio_sdk_typescrip.Activator.Jobs.{Converters, is_text}
use temporalio_sdk_typescrip.Activator.Signals.{
  UserCode, QueryResult, answer, promise, failed, array_from_payloads, query_workflow,
  query_workflow_next_handler, after_query, to_query_handler,
}
use temporalio_sdk_typescrip.Activation.{Job, query_workflow as query_job, run_job, run_jobs}

-- The task that answers a query.
abbrev pub answer_task : String → QueryResult → Task
answer_task id (answer v) = complete_query_with id v
answer_task id promise = fail_query_with id (sdk_error determinism_violation_error)
answer_task id (failed e) = fail_query_with id e

abbrev task_for : (ℕ → List Value → QueryResult) → String → Option ℕ → Option (List Value) → Task
task_for respond id (some fn) (some args) = answer_task id (respond fn args)
task_for respond id _ _ = fail_query_with id (sdk_error reference_error)

module _ (c : Converters) (u : UserCode) where
  -- A query with a name and an identifier, whose arguments decode.
  abbrev pub IsAskable : Query → Type 0
  IsAskable q =
      ((is_text q.query_type && is_text q.query_id) ≡ true)
      × ((args : List Value) × (array_from_payloads c.payloads q.arguments ≡ some args))

  abbrev pub answers : (ℕ → List Value → QueryResult) → Activator → List Query → List Task
  answers respond a [] = []
  answers respond a (q ∷ qs) =
      task_for respond q.query_id (lookup q.query_type a.query_handlers)
        (array_from_payloads c.payloads q.arguments)
      ∷ answers respond a qs

  abbrev pub queries : List Query → List Job
  queries [] = []
  queries (q ∷ qs) = query_job q ∷ queries qs

  abbrev with_task : Task → Activator → Activator
  with_task t a = record a { tasks = a.tasks ++ t ∷ [] }

  -- Query handlers that only answer.
  abbrev pub AreReadOnly : (ℕ → List Value → QueryResult) → Type 0
  AreReadOnly respond =
      (fn : ℕ) (args : List Value) (b : Activator) → u.run_query fn args b ≡ (respond fn args, b)

  after_query-with_task :
      (id : String) (r : QueryResult) (a : Activator)
      → after_query id r a ≡ with_task (answer_task id r) a
  after_query-with_task id (answer v) a = refl
  after_query-with_task id promise a = refl
  after_query-with_task id (failed e) a = refl

  module _ (respond : ℕ → List Value → QueryResult) (h : AreReadOnly respond) where
    to_query_handler-with_task :
        (id : String) (o : Option ℕ) (args : List Value) (a : Activator)
        → to_query_handler c u id o args a ≡ with_task (task_for respond id o (some args)) a
    to_query_handler-with_task id none args a = refl
    to_query_handler-with_task id (some fn) args a =
        rw (h fn args a, to_query_handler) (after_query-with_task id (respond fn args) a)

    abbrev next_task : Activator → Query → Task
    next_task a q =
        task_for respond q.query_id (lookup q.query_type a.query_handlers)
          (array_from_payloads c.payloads q.arguments)

    query_workflow-with_task :
        (q : Query) (a : Activator)
        → IsAskable q
        → a.workflow_function_was_called ≡ true
        → query_workflow c u q a ≡ (returned tt, with_task (next_task a q) a)
    unfolding query_workflow query_workflow_next_handler
    query_workflow-with_task q a (n, (args, e)) w =
        ground (
          arith,
          to_query_handler-with_task q.query_id (lookup q.query_type a.query_handlers) args a,
        )

    -- An activation that holds queries alone, on a workflow that has started: every query gets one
    -- answering task, in the order of the jobs, with the value of its handler, or with the failure
    -- for a handler that threw, that gave a promise, or that is missing. Nothing else changes, also
    -- when the workflow has completed. The query handlers only answer, and the queries have names,
    -- identifiers and arguments that decode.
    pub run_jobs-answers :
        (qs : List Query) (a : Activator)
        → All IsAskable qs
        → a.workflow_function_was_called ≡ true
        → run_jobs c u (queries qs) a
          ≡ (returned tt, record a { tasks = a.tasks ++ answers respond a qs })
    unfolding run_jobs run_job
    run_jobs-answers [] a r w = rw append-nil refl
    run_jobs-answers (q ∷ qs) a (r, rs) w = ground (
      arith,
      query_workflow-with_task q a r w,
      run_jobs-answers qs (with_task (next_task a q) a) rs w,
      append_assoc a.tasks (next_task a q ∷ []) (answers respond a qs),
    )
