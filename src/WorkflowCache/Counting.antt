-- ===== src/WorkflowCache/Counting.antt =====
-- The count of cached workflows, packages/worker/src/worker.ts.
use temporalio_sdk_typescrip.Prelude.{
  ℕ, suc, ◌≡◌, refl, ap, ◌∙◌, String, none, some, true, false, List, [], ◌∷◌, ◌++◌, length, ℤ, pos,
  negsuc, ◌+ℤ◌, lookup, insert, remove, lookup-remove, string_key, IsUnique, length-remove,
  length-insert_new, length-insert_old, insert-IsUnique, remove-IsUnique, eq_iff, arith,
}
use temporalio_sdk_typescrip.WorkflowCache.{
  Job, start_workflow, remove_from_cache, other_job, Activation, successful, failed, completed_by,
  fine, error, Creator, Cache, has_eviction, without_eviction, process, workflow_operator,
}

abbrev Workflows : Type 0
Workflows = List (String × ℕ)

up : (n : ℕ) → pos n +ℤ pos 1 ≡ pos (suc n)
unfolding ◌+ℤ◌
up n = ground arith

down : (n : ℕ) → pos (suc n) +ℤ negsuc 0 ≡ pos n
unfolding ◌+ℤ◌
down n = ground arith

up-down : (z : ℤ) → (z +ℤ pos 1) +ℤ negsuc 0 ≡ z
unfolding ◌+ℤ◌
up-down (pos n) = ground arith
up-down (negsuc n) = ground arith

-- The counter says how many workflows are cached, one for a run.
abbrev pub IsCounted : Cache → Type 0
IsCounted c = IsUnique c.workflows × (c.num_cached_workflows ≡ pos (length c.workflows))

without_eviction_none : (js : List Job) → has_eviction js ≡ false → without_eviction js ≡ js
without_eviction_none [] h = refl
without_eviction_none (start_workflow b ∷ js) h =
    ap (λ l. start_workflow b ∷ l) (without_eviction_none js h)
without_eviction_none (remove_from_cache ∷ js) h = ground arith
without_eviction_none (other_job ∷ js) h = ap (λ l. other_job ∷ l) (without_eviction_none js h)

abbrev pub activation_of : String → List Job → Activation
activation_of run jobs = record {
  run_id = run;
  jobs = jobs;
  has_timestamp = true;
  synthetic = false;
}

module _ (k : Creator) where
  -- The usual activations: the first of a run, a later one, and its eviction.
  pub data Usual (c : Cache) : Activation → Type 0 where
    first :
        (run : String) (js : List Job)
        → has_eviction js ≡ false
        → lookup run c.workflows ≡ none
        → k.create_workflow (activation_of run (start_workflow true ∷ js)) ≡ fine
        → k.activate c.next_workflow (activation_of run (start_workflow true ∷ js)) ≡ fine
        → Usual c (activation_of run (start_workflow true ∷ js))
    later :
        (run : String) (w : ℕ) (js : List Job)
        → has_eviction js ≡ false
        → lookup run c.workflows ≡ some w
        → k.activate w (activation_of run (other_job ∷ js)) ≡ fine
        → Usual c (activation_of run (other_job ∷ js))
    eviction :
        (run : String) (w : ℕ)
        → lookup run c.workflows ≡ some w
        → Usual c (activation_of run (remove_from_cache ∷ []))

  abbrev Counts : Activation → Cache → Type 0
  Counts act c =
      (d : Cache) × (workflow_operator k act c ≡ some d)
      × IsCounted d
      × (d.num_in_flight_activations ≡ c.num_in_flight_activations)

  usual_first :
      (c : Cache) (run : String) (js : List Job)
      → has_eviction js ≡ false
      → lookup run c.workflows ≡ none
      → k.create_workflow (activation_of run (start_workflow true ∷ js)) ≡ fine
      → k.activate c.next_workflow (activation_of run (start_workflow true ∷ js)) ≡ fine
      → workflow_operator k (activation_of run (start_workflow true ∷ js)) c
        ≡ some (record c {
          workflows = insert run c.next_workflow c.workflows;
          next_workflow = suc c.next_workflow;
          num_cached_workflows = c.num_cached_workflows +ℤ pos 1;
          num_in_flight_activations = (c.num_in_flight_activations +ℤ pos 1) +ℤ negsuc 0;
          completions = c.completions ++ (run, completed_by c.next_workflow) ∷ [];
        })
  unfolding workflow_operator process
  usual_first c run js e l m a = rw (e, l, without_eviction_none js e) (rw m (rw a refl))

  usual_later :
      (c : Cache) (run : String) (w : ℕ) (js : List Job)
      → has_eviction js ≡ false
      → lookup run c.workflows ≡ some w
      → k.activate w (activation_of run (other_job ∷ js)) ≡ fine
      → workflow_operator k (activation_of run (other_job ∷ js)) c
        ≡ some (record c {
          workflows = insert run w c.workflows;
          num_in_flight_activations = (c.num_in_flight_activations +ℤ pos 1) +ℤ negsuc 0;
          completions = c.completions ++ (run, completed_by w) ∷ [];
        })
  unfolding workflow_operator process
  usual_later c run w js e l a = rw (e, l, without_eviction_none js e) (rw a refl)

  usual_eviction :
      (c : Cache) (run : String) (w : ℕ)
      → lookup run c.workflows ≡ some w
      → workflow_operator k (activation_of run (remove_from_cache ∷ [])) c
        ≡ some (record c {
          workflows = remove run c.workflows;
          num_cached_workflows = c.num_cached_workflows +ℤ negsuc 0;
          num_in_flight_activations = (c.num_in_flight_activations +ℤ pos 1) +ℤ negsuc 0;
          disposed = c.disposed ++ w ∷ [];
          completions = c.completions ++ (run, successful) ∷ [];
        })
  unfolding workflow_operator process
  usual_eviction c run w l = rw l refl

  counted_down :
      (c : Cache) (n : ℕ)
      → c.num_cached_workflows ≡ pos (suc n)
      → c.num_cached_workflows +ℤ negsuc 0 ≡ pos n
  counted_down c n h = rw h (down n)

  -- An activation of a cached run, of a new run with its start job, or that evicts a cached run: if
  -- the counter of cached workflows agrees with the cache before, it does after, and the counter of
  -- activations in flight is as it was. The workflow's creation and its activation do not fail.
  pub workflow_operator-IsCounted :
      (c : Cache) (act : Activation)
      → Usual c act
      → IsCounted c
      → (d : Cache) × (workflow_operator k act c ≡ some d)
        × IsCounted d
        × (d.num_in_flight_activations ≡ c.num_in_flight_activations)
  workflow_operator-IsCounted c _ (first run js e l m a) (d, n) = (
    _,
    usual_first c run js e l m a,
    (
      insert-IsUnique run c.next_workflow c.workflows d,
      rw (n, length-insert_new run c.next_workflow c.workflows l) (up (length c.workflows)),
    ),
    up-down c.num_in_flight_activations,
  )
  workflow_operator-IsCounted c _ (later run w js e l a) (d, n) = (
    _,
    usual_later c run w js e l a,
    (insert-IsUnique run w c.workflows d, rw (n, length-insert_old run w w c.workflows l) refl),
    up-down c.num_in_flight_activations,
  )
  workflow_operator-IsCounted c _ (eviction run w l) (d, n) = (
    _,
    usual_eviction c run w l,
    (
      remove-IsUnique run c.workflows d,
      counted_down c (length (remove run c.workflows))
          (n ∙ ap pos (length-remove run c.workflows w d l)),
    ),
    up-down c.num_in_flight_activations,
  )

  abbrev after_failure : Cache → String → Cache
  after_failure c run = record c {
    workflows = remove run c.workflows;
    num_cached_workflows = c.num_cached_workflows +ℤ negsuc 0;
    num_in_flight_activations = (c.num_in_flight_activations +ℤ pos 1) +ℤ negsuc 0;
    completions = c.completions ++ (run, failed) ∷ [];
  }

  failing_lem :
      (c : Cache) (run : String) (w : ℕ) (js : List Job)
      → has_eviction js ≡ false
      → lookup run c.workflows ≡ some w
      → k.activate w (activation_of run (other_job ∷ js)) ≡ error
      → workflow_operator k (activation_of run (other_job ∷ js)) c ≡ some (after_failure c run)
  unfolding workflow_operator process
  failing_lem c run w js h l a = rw (h, l, without_eviction_none js h) (rw a refl)

  abbrev after_eviction : Cache → String → Cache
  after_eviction c run = record c {
    workflows = remove run c.workflows;
    num_cached_workflows = c.num_cached_workflows +ℤ negsuc 0;
    num_in_flight_activations = (c.num_in_flight_activations +ℤ pos 1) +ℤ negsuc 0;
    completions = c.completions ++ (run, successful) ∷ [];
  }

  evicting_lem :
      (c : Cache) (run : String)
      → lookup run c.workflows ≡ none
      → workflow_operator k (activation_of run (remove_from_cache ∷ [])) c
        ≡ some (after_eviction c run)
  unfolding workflow_operator process
  evicting_lem c run l = rw l refl

  lookup-removed : (run : String) (m : Workflows) → lookup run (remove run m) ≡ none
  lookup-removed run m = ground (arith, lookup-remove run run m, eq_iff run run)

  -- An activation of a cached workflow fails, and then the run is evicted, as Core does: both are
  -- answered, the counter of cached workflows goes down by two though one workflow was cached, and the
  -- workflow is not disposed of.
  pub workflow_operator-failed_eviction :
      (c : Cache) (run : String) (w : ℕ) (js : List Job)
      → has_eviction js ≡ false
      → lookup run c.workflows ≡ some w
      → k.activate w (activation_of run (other_job ∷ js)) ≡ error
      → (d e : Cache) × (workflow_operator k (activation_of run (other_job ∷ js)) c ≡ some d)
        × (workflow_operator k (activation_of run (remove_from_cache ∷ [])) d ≡ some e)
        × (e.num_cached_workflows ≡ (c.num_cached_workflows +ℤ negsuc 0) +ℤ negsuc 0)
        × (e.disposed ≡ c.disposed)
        × (e.completions ≡ (c.completions ++ (run, failed) ∷ []) ++ (run, successful) ∷ [])
  workflow_operator-failed_eviction c run w js h l a = (
    after_failure c run,
    after_eviction (after_failure c run) run,
    failing_lem c run w js h l a,
    evicting_lem (after_failure c run) run (lookup-removed run c.workflows),
    refl,
    refl,
    refl,
  )
