-- ===== src/WorkflowCache.antt =====
-- The worker's cache of workflows: `workflowOperator` of packages/worker/src/worker.ts. Activations
-- are grouped by run; a group holds the workflow of its run, by its number. One activation is
-- processed at a time. Left out: tracing, sinks and what a new workflow is told of its run.
pub mod Counting
mod Examples
use temporalio_sdk_typescrip.Prelude.{
  ℕ, suc, String, Option, none, some, Bool, true, false, not, if◌then◌else◌, List, [], ◌∷◌, ◌++◌, ℤ,
  pos, negsuc, ◌+ℤ◌, lookup, insert, remove, string_key,
}

-- A start job is complete when it has the attributes that a new workflow needs.
pub data Job : Type 0 where
  start_workflow : (is_complete : Bool) → Job
  remove_from_cache : Job
  other_job : Job

pub record Activation : Type 0 where
  pub run_id : String
  pub jobs : List Job
  pub has_timestamp : Bool
  pub synthetic : Bool  -- made by the worker when its poller has shut down

pub data Completion : Type 0 where
  successful failed : Completion
  completed_by : (workflow : ℕ) → Completion

-- What the creation of a workflow and one of its activations come to. An `UnexpectedError` fails the
-- worker.
pub data Outcome : Type 0 where
  fine error unexpected_error : Outcome

pub record Creator : Type 0 where
  pub create_workflow : Activation → Outcome
  pub activate : (workflow : ℕ) → Activation → Outcome

pub record Cache : Type 0 where
  pub workflows : List (String × ℕ)
  pub next_workflow : ℕ
  pub num_cached_workflows : ℤ
  pub num_in_flight_activations : ℤ
  pub disposed : List ℕ
  pub completions : List (String × Completion)

abbrev pub has_eviction : List Job → Bool
has_eviction [] = false
has_eviction (remove_from_cache ∷ js) = true
has_eviction (start_workflow _ ∷ js) = has_eviction js
has_eviction (other_job ∷ js) = has_eviction js

-- `jobs.splice(removeFromCacheIx, 1)`
abbrev pub without_eviction : List Job → List Job
without_eviction [] = []
without_eviction (remove_from_cache ∷ js) = js
without_eviction (start_workflow b ∷ js) = start_workflow b ∷ without_eviction js
without_eviction (other_job ∷ js) = other_job ∷ without_eviction js

abbrev find_start : List Job → Option Bool
find_start [] = none
find_start (start_workflow b ∷ js) = some b
find_start (remove_from_cache ∷ js) = find_start js
find_start (other_job ∷ js) = find_start js

-- The output of one activation, with the state that the group goes on with.
pub record Output : Type 0 where
  pub state : Option ℕ
  pub close : Bool
  pub completion : Option Completion

abbrev pub output : Option ℕ → Bool → Option Completion → Output
output state close completion = record { state = state; close = close; completion = completion }

-- The `catch`: the group is closed, and the workflow, if there is one, is left.
abbrev pub failing : Cache → Option (Output × Cache)
failing c = some (output none true (some failed), c)

abbrev dispose : Option ℕ → Cache → Cache
dispose none c = c
dispose (some w) c = record c { disposed = c.disposed ++ w ∷ [] }

abbrev pub evict : (close synthetic : Bool) → Option ℕ → Cache → Option (Output × Cache)
evict close synthetic state c =
    if not close
    then failing (dispose state c)
    else some (output none true (if synthetic then none else some successful), dispose state c)

module _ (k : Creator) where
  abbrev pub after_activate : Outcome → (close : Bool) → ℕ → Cache → Option (Output × Cache)
  after_activate fine close w c = some (output (some w) close (some (completed_by w)), c)
  after_activate error close w c = failing c
  after_activate unexpected_error close w c = none

  abbrev pub run_activation : Activation → (close : Bool) → ℕ → Cache → Option (Output × Cache)
  run_activation act close w c = after_activate (k.activate w act) close w c

  abbrev pub after_create : Outcome → Activation → (close : Bool) → Cache → Option (Output × Cache)
  after_create fine act close c = run_activation act close c.next_workflow (record c {
    next_workflow = suc c.next_workflow;
    num_cached_workflows = c.num_cached_workflows +ℤ pos 1;
  })
  after_create error act close c = failing c
  after_create unexpected_error act close c = none

  abbrev pub create : Option Bool → Activation → (close : Bool) → Cache → Option (Output × Cache)
  create none act close c = failing c
  create (some false) act close c = failing c
  create (some true) act close c =
      if act.has_timestamp then after_create (k.create_workflow act) act close c else failing c

  abbrev pub with_jobs :
      List Job → Activation → (close : Bool) → Option ℕ → Cache → Option (Output × Cache)
  with_jobs [] act close state c = evict close act.synthetic state c
  with_jobs (j ∷ js) act close none c = create (find_start (j ∷ js)) act close c
  with_jobs (j ∷ js) act close (some w) c = run_activation act close w c

  -- The function of `mergeMapWithState`.
  unfoldable pub process : Activation → Option ℕ → Cache → Option (Output × Cache)
  process act state c =
      let close = has_eviction act.jobs in
      let rest = without_eviction act.jobs in
      with_jobs rest (record act { jobs = rest }) close state c

  abbrev keep_state : String → Option ℕ → Cache → Cache
  keep_state run none c = record c { workflows = remove run c.workflows }
  keep_state run (some w) c = record c { workflows = insert run w c.workflows }

  abbrev completed : String → Option Completion → List (String × Completion)
  completed run none = []
  completed run (some x) = (run, x) ∷ []

  -- The last `tap`: a group that closes forgets its workflow.
  abbrev pub finish : String → Option (Output × Cache) → Option Cache
  finish run none = none
  finish run (some (o, c)) =
      let d = record c {
        num_in_flight_activations = c.num_in_flight_activations +ℤ negsuc 0;
        completions = c.completions ++ completed run o.completion;
      } in
      some (
        if o.close
        then record d {
          workflows = remove run d.workflows;
          num_cached_workflows = d.num_cached_workflows +ℤ negsuc 0;
        }
        else keep_state run o.state d)

  unfoldable pub workflow_operator : Activation → Cache → Option Cache
  unfolding process
  workflow_operator act c = finish act.run_id (
      process act (lookup act.run_id c.workflows)
        (record c { num_in_flight_activations = c.num_in_flight_activations +ℤ pos 1 }))
