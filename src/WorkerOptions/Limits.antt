-- ===== src/WorkerOptions/Limits.antt =====
-- The limits on cached workflows and concurrent tasks: packages/worker/src/worker-options.ts.
use temporalio_sdk_typescrip.Prelude.{
  ℕ, zero, suc, ◌+◌, Option, ◌≡◌, refl, sym, ap, ◌∙◌, ◌⊎◌, inl, inr, ℤ, pos, negsuc, ◌≤ℤ◌, arith,
}
use temporalio_sdk_typescrip.Prelude.Checked.{Checked, valid, invalid}
use temporalio_sdk_typescrip.Time.{TimeError, Packages, ms_to_number, ms_optional_to_number}
use temporalio_sdk_typescrip.WorkerOptions.{
  WorkerOptionsWithDefaults, CompiledWorkerOptions, corrected, timed, compile_worker_options,
  corrected_cache, at_most_cached, at_least_2,
}

-- The cache is off, or has room for two workflows at least, and for all that are executed at a time,
-- which are two at least.
abbrev pub AreLimited : WorkerOptionsWithDefaults → Type 0
AreLimited o =
    (o.max_cached_workflows ≡ pos 0)
    ⊎ ((pos 2 ≤ℤ o.max_cached_workflows)
        × (pos 2 ≤ℤ o.max_concurrent_workflow_task_executions)
        × (o.max_concurrent_workflow_task_executions ≤ℤ o.max_cached_workflows))

-- The same of the two numbers.
abbrev AreFine : ℤ → ℤ → Type 0
AreFine cached executions =
    (cached ≡ pos 0) ⊎ ((pos 2 ≤ℤ cached) × (pos 2 ≤ℤ executions) × (executions ≤ℤ cached))

corrected_cache-cases :
    (n : ℤ)
    → (corrected_cache n ≡ pos 0) × (n ≡ pos 0)
      ⊎ ((m : ℕ) × (corrected_cache n ≡ pos (2 + m)) × ((n ≡ pos (2 + m)) ⊎ (n ≤ℤ pos 1) × (m ≡ 0)))
corrected_cache-cases (pos zero) = inl (refl, refl)
corrected_cache-cases (pos (suc zero)) = inr (0, refl, inr (omega arith, refl))
corrected_cache-cases (pos (suc (suc n))) = inr (n, ground arith, inl (ground arith))
corrected_cache-cases (negsuc n) = inr (0, ground arith, inr (omega arith, refl))

at_least_2-AreFine :
    (m : ℕ) (e : ℤ)
    → AreFine (pos (2 + m)) (at_least_2 (pos (2 + m)) (at_most_cached (pos (2 + m)) e))
at_least_2-AreFine m (pos e) = inr (ground arith)
at_least_2-AreFine m (negsuc e) = inr (ground arith)

corrected-AreLimited : (o : WorkerOptionsWithDefaults) → AreLimited (corrected o)
unfolding corrected
corrected-AreLimited o = elim (corrected_cache-cases o.max_cached_workflows) [
  | inl (e, _) ↦ inl e
  | inr (m, e, _) ↦ rw e (at_least_2-AreFine m o.max_concurrent_workflow_task_executions)
]

corrected_cache-kept :
    (n : ℤ) → (corrected_cache n ≡ n) ⊎ (n ≤ℤ pos 1) × (corrected_cache n ≡ pos 2)
corrected_cache-kept n = elim (corrected_cache-cases n) [
  | inl (e, f) ↦ inl (e ∙ sym f)
  | inr (m, e, inl f) ↦ inl (e ∙ sym f)
  | inr (m, e, inr (l, z)) ↦ inr (l, e ∙ ap (λ i. pos (2 + i)) z)
]

timed_options :
    (o : WorkerOptionsWithDefaults) (grace : Checked TimeError ℤ)
    (force : Checked TimeError (Option ℤ)) (sticky isolate longest usual : Checked TimeError ℤ)
    (c : CompiledWorkerOptions)
    → timed o grace force sticky isolate longest usual ≡ valid c
    → c.options ≡ o
timed_options o (invalid e) force sticky isolate longest usual c h = cc
timed_options o (valid a) (invalid e) sticky isolate longest usual c h = cc
timed_options o (valid a) (valid b) (invalid e) isolate longest usual c h = cc
timed_options o (valid a) (valid b) (valid d) (invalid e) longest usual c h = cc
timed_options o (valid a) (valid b) (valid d) (valid f) (invalid e) usual c h = cc
timed_options o (valid a) (valid b) (valid d) (valid f) (valid g) (invalid e) c h = cc
timed_options o (valid a) (valid b) (valid d) (valid f) (valid g) (valid i) c h = cc

module _ (k : Packages) where
  -- If the options of a worker are compiled, whatever numbers they have: the cache of workflows is off,
  -- or has room for at least two, and at least two tasks and at most as many as are cached are
  -- executed at a time. The size of the cache is the given one, or it is two in place of less.
  pub compile_worker_options-AreLimited :
      (o : WorkerOptionsWithDefaults) (c : CompiledWorkerOptions)
      → compile_worker_options k o ≡ valid c
      → ((c.options.max_cached_workflows ≡ pos 0)
          ⊎ ((pos 2 ≤ℤ c.options.max_cached_workflows)
              × (pos 2 ≤ℤ c.options.max_concurrent_workflow_task_executions)
              × (c.options.max_concurrent_workflow_task_executions
                  ≤ℤ c.options.max_cached_workflows)))
        × ((c.options.max_cached_workflows ≡ o.max_cached_workflows)
            ⊎ (o.max_cached_workflows ≤ℤ pos 1) × (c.options.max_cached_workflows ≡ pos 2))
  unfolding compile_worker_options corrected
  compile_worker_options-AreLimited o c h =
      let same : c.options ≡ corrected o =
        timed_options (corrected o) (ms_to_number k (corrected o).shutdown_grace_time)
          (ms_optional_to_number k (corrected o).shutdown_force_time)
          (ms_to_number k (corrected o).sticky_queue_schedule_to_start_timeout)
          (ms_to_number k (corrected o).isolate_execution_timeout)
          (ms_to_number k (corrected o).max_heartbeat_throttle_interval)
          (ms_to_number k (corrected o).default_heartbeat_throttle_interval) c h in
      rw same (corrected-AreLimited o, corrected_cache-kept o.max_cached_workflows)
