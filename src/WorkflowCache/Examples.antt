-- ===== src/WorkflowCache/Examples.antt =====
-- Examples of cached workflows.
use temporalio_sdk_typescrip.Prelude.{
  ◌≡◌, ◌==◌, if◌then◌else◌, refl, some, true, [], ◌∷◌, ◌++◌, pos, negsuc, ◌+ℤ◌,
}
use temporalio_sdk_typescrip.WorkflowCache.{
  Creator, Cache, fine, error, other_job, start_workflow, remove_from_cache, failed, successful,
  workflow_operator,
}
use temporalio_sdk_typescrip.WorkflowCache.Counting.{
  IsCounted, first, activation_of, workflow_operator-IsCounted, workflow_operator-failed_eviction,
}

-- Workflow 7 fails, all others run.
abbrev creator : Creator
creator = record {
  create_workflow = λ act. fine;
  activate = λ w act. if w == 7 then error else fine;
}

abbrev one : Cache
one = record {
  workflows = ("run", 7) ∷ [];
  next_workflow = 8;
  num_cached_workflows = pos 1;
  num_in_flight_activations = pos 0;
  disposed = [];
  completions = [];
}

workflow_operator-IsCounted_example :
    (d : Cache) × (workflow_operator creator (activation_of "next" (start_workflow true ∷ [])) one
      ≡ some d)
    × IsCounted d
    × (d.num_in_flight_activations ≡ pos 0)
workflow_operator-IsCounted_example =
    workflow_operator-IsCounted creator one (activation_of "next" (start_workflow true ∷ []))
      (first "next" [] refl refl refl refl) ((refl, tt), refl)

workflow_operator-failed_eviction_example :
    (d e : Cache) × (workflow_operator creator (activation_of "run" (other_job ∷ [])) one ≡ some d)
    × (workflow_operator creator (activation_of "run" (remove_from_cache ∷ [])) d ≡ some e)
    × (e.num_cached_workflows ≡ (pos 1 +ℤ negsuc 0) +ℤ negsuc 0)
    × (e.disposed ≡ [])
    × (e.completions ≡ ([] ++ ("run", failed) ∷ []) ++ ("run", successful) ∷ [])
workflow_operator-failed_eviction_example =
    workflow_operator-failed_eviction creator one "run" 7 [] refl refl refl
