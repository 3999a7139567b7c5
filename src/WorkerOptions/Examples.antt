-- ===== src/WorkerOptions/Examples.antt =====
-- Examples for the options of a worker, packages/worker/src/worker-options.ts.
use temporalio_sdk_typescrip.Prelude.{
  ◌*◌, floor_div, none, some, [], ◌≡◌, refl, ◌⊎◌, pos, ◌≤ℤ◌, if◌then◌else◌, str_eq,
}
use temporalio_sdk_typescrip.Prelude.Checked.{valid}
use temporalio_sdk_typescrip.Time.{
  Packages, ms_to_number, ms_optional_to_number, ms_with_validation,
}
use temporalio_sdk_typescrip.WorkerOptions.{
  WorkerOptions, CompiledWorkerOptions, Process, corrected, compile_worker_options,
  add_default_worker_options,
}
use temporalio_sdk_typescrip.WorkerOptions.Limits.{compile_worker_options-AreLimited}

abbrev packages : Packages
packages = record {
  parse_ms = λ s.
      if str_eq s "10s"
      then some (pos 10000)
      else (if str_eq s "30s"
          then some (pos 30000)
          else (if str_eq s "60s" then some (pos 60000) else some (pos 5000)));
  from_number = λ n. n;
  multiply = λ u a b. a;
  add = λ u a b. a;
}

-- A heap of 4144 MiB.
abbrev process : Process
process = record {
  temporal_debug = none;
  heap_size_limit = 4144 * 1048576;
  identity = "1@host";
  log_interceptor = 1;
  default_modules = [];
}

abbrev one_cached : WorkerOptions
one_cached = record {
  namespace = none;
  identity = none;
  use_versioning = none;
  shutdown_grace_time = none;
  shutdown_force_time = none;
  max_concurrent_activity_task_executions = none;
  max_concurrent_local_activity_executions = none;
  enable_non_local_activities = none;
  max_concurrent_workflow_task_executions = none;
  max_concurrent_workflow_task_polls = none;
  max_concurrent_activity_task_polls = none;
  sticky_queue_schedule_to_start_timeout = none;
  max_cached_workflows = some (pos 1);
  workflow_thread_pool_size = none;
  max_heartbeat_throttle_interval = none;
  default_heartbeat_throttle_interval = none;
  interceptors = none;
  enable_sdk_tracing = none;
  show_stack_trace_sources = none;
  debug_mode = none;
  reuse_v8_context = none;
  passed_on = 0;
}

abbrev uncached : WorkerOptions
uncached = record one_cached { max_cached_workflows = none }

cached_by_default : (add_default_worker_options process uncached).max_cached_workflows ≡ pos 914
unfolding add_default_worker_options floor_div
cached_by_default = refl

-- The default of the polls is chosen before the number of executions is corrected to 2.
polls_above_executions :
    (corrected (add_default_worker_options process one_cached)).max_concurrent_workflow_task_polls
    ≡ pos 10
unfolding add_default_worker_options corrected
polls_above_executions = refl

abbrev compiled : CompiledWorkerOptions
compiled = record {
  options = corrected (add_default_worker_options process one_cached);
  shutdown_grace_time_ms = pos 0;
  shutdown_force_time_ms = none;
  sticky_queue_schedule_to_start_timeout_ms = pos 10000;
  isolate_execution_timeout_ms = pos 5000;
  max_heartbeat_throttle_interval_ms = pos 60000;
  default_heartbeat_throttle_interval_ms = pos 30000;
}

compile_one_cached :
    compile_worker_options packages (add_default_worker_options process one_cached) ≡ valid compiled
unfolding compile_worker_options corrected add_default_worker_options ms_to_number
    ms_with_validation ms_optional_to_number
compile_one_cached = refl

compile_worker_options-AreLimited_example :
    ((compiled.options.max_cached_workflows ≡ pos 0)
      ⊎ ((pos 2 ≤ℤ compiled.options.max_cached_workflows)
          × (pos 2 ≤ℤ compiled.options.max_concurrent_workflow_task_executions)
          × (compiled.options.max_concurrent_workflow_task_executions
              ≤ℤ compiled.options.max_cached_workflows)))
    × ((compiled.options.max_cached_workflows
          ≡ (add_default_worker_options process one_cached).max_cached_workflows)
        ⊎ ((add_default_worker_options process one_cached).max_cached_workflows ≤ℤ pos 1)
          × (compiled.options.max_cached_workflows ≡ pos 2))
compile_worker_options-AreLimited_example =
    compile_worker_options-AreLimited packages (add_default_worker_options process one_cached)
      compiled compile_one_cached
