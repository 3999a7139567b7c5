-- ===== src/WorkerOptions.antt =====
-- The options of a worker: packages/worker/src/worker-options.ts. Numbers are integers; an option that
-- is not given is `none` (one that is given as undefined, which hides its default, is not modelled).
-- The options that are only passed on stand by one value.
pub mod Limits
mod Examples
use temporalio_sdk_typescrip.Prelude.{
  ℕ, ◌*◌, ◌+◌, String, Option, none, some, Bool, true, false, ◌||◌, ◌&&◌, not, if◌then◌else◌, ℤ,
  pos, negsuc, ◌+ℤ◌, ◌*ℤ◌, floor_div, ltb_ℤ, str_eq, pos_part, neg_part, ◌==◌, ◌-◌, List, [], ◌∷◌,
  ◌++◌,
}
use temporalio_sdk_typescrip.Prelude.Checked.{Checked, valid, invalid, ◌>>=◌}
use temporalio_sdk_typescrip.Time.{
  Duration, millis, text, TimeError, Packages, ms_to_number, ms_optional_to_number,
}

-- Interceptors, by number.
pub record WorkerInterceptors : Type 0 where
  pub activity_inbound : List ℕ
  pub workflow_modules : List String

pub record WorkerOptions : Type 0 where
  pub namespace : Option String
  pub identity : Option String
  pub use_versioning : Option Bool
  pub shutdown_grace_time : Option Duration
  pub shutdown_force_time : Option Duration
  pub max_concurrent_activity_task_executions : Option ℤ
  pub max_concurrent_local_activity_executions : Option ℤ
  pub enable_non_local_activities : Option Bool
  pub max_concurrent_workflow_task_executions : Option ℤ
  pub max_concurrent_workflow_task_polls : Option ℤ
  pub max_concurrent_activity_task_polls : Option ℤ
  pub sticky_queue_schedule_to_start_timeout : Option Duration
  pub max_cached_workflows : Option ℤ
  pub workflow_thread_pool_size : Option ℤ
  pub max_heartbeat_throttle_interval : Option Duration
  pub default_heartbeat_throttle_interval : Option Duration
  pub interceptors : Option WorkerInterceptors
  pub enable_sdk_tracing : Option Bool
  pub show_stack_trace_sources : Option Bool
  pub debug_mode : Option Bool
  pub reuse_v8_context : Option Bool
  pub passed_on : ℕ

pub record WorkerOptionsWithDefaults : Type 0 where
  pub namespace : String
  pub identity : String
  pub use_versioning : Bool
  pub shutdown_grace_time : Duration
  pub shutdown_force_time : Option Duration
  pub max_concurrent_activity_task_executions : ℤ
  pub max_concurrent_local_activity_executions : ℤ
  pub enable_non_local_activities : Bool
  pub max_concurrent_workflow_task_executions : ℤ
  pub max_concurrent_workflow_task_polls : ℤ
  pub max_concurrent_activity_task_polls : ℤ
  pub sticky_queue_schedule_to_start_timeout : Duration
  pub max_cached_workflows : ℤ
  pub workflow_thread_pool_size : ℤ
  pub max_heartbeat_throttle_interval : Duration
  pub default_heartbeat_throttle_interval : Duration
  pub isolate_execution_timeout : Duration
  pub interceptors : WorkerInterceptors
  pub enable_sdk_tracing : Bool
  pub show_stack_trace_sources : Bool
  pub debug_mode : Bool
  pub reuse_v8_context : Bool
  pub passed_on : ℕ

pub record CompiledWorkerOptions : Type 0 where
  pub options : WorkerOptionsWithDefaults
  pub shutdown_grace_time_ms : ℤ
  pub shutdown_force_time_ms : Option ℤ
  pub sticky_queue_schedule_to_start_timeout_ms : ℤ
  pub isolate_execution_timeout_ms : ℤ
  pub max_heartbeat_throttle_interval_ms : ℤ
  pub default_heartbeat_throttle_interval_ms : ℤ

-- What the worker's process has: TEMPORAL_DEBUG in lower case, `heap_size_limit` in bytes, the identity,
-- the default interceptor of activities and the default modules.
pub record Process : Type 0 where
  pub temporal_debug : Option String
  pub heap_size_limit : ℕ
  pub identity : String
  pub log_interceptor : ℕ
  pub default_modules : List String

abbrev pub given_or {ℓ} : {A : Type ℓ} → Option A → A → A
given_or none default = default
given_or (some a) default = a

abbrev is_set : Option String → Bool
is_set none = false
is_set (some env) = str_eq env "1" || (str_eq env "t" || str_eq env "true")

abbrev pub math_min : ℤ → ℤ → ℤ
math_min a b = if ltb_ℤ a b then a else b

abbrev pub math_max : ℤ → ℤ → ℤ
math_max a b = if ltb_ℤ a b then b else a

abbrev mib : ℕ
mib = 1024 * 1024

-- `Math.max(Math.floor((Math.max(heapSizeMiB - reserved, 0) * rate) / 1024), 10)`, in bytes.
abbrev pub cache_size : (heap_size_limit reserved rate : ℕ) → ℤ
cache_size heap_size_limit reserved rate =
    math_max (floor_div (pos ((heap_size_limit - reserved * mib) * rate)) (1024 * mib)) (pos 10)

abbrev pub default_max_cached_workflows : Bool → ℕ → ℤ
default_max_cached_workflows true heap = cache_size heap 200 600
default_max_cached_workflows false heap = cache_size heap 400 250

abbrev pub append_default_interceptors : Process → WorkerInterceptors → WorkerInterceptors
append_default_interceptors p i = record {
  activity_inbound = i.activity_inbound ++ p.log_interceptor ∷ [];
  workflow_modules = i.workflow_modules ++ p.default_modules;
}

abbrev debugging : Process → Option Bool → Bool
debugging p given = given_or given false || is_set p.temporal_debug

-- The whole of the options: a default is replaced by what is given, also that of the debug mode, which
-- the timeout has been chosen by.
unfoldable pub add_default_worker_options : Process → WorkerOptions → WorkerOptionsWithDefaults
add_default_worker_options p o =
    let executions : ℤ = given_or o.max_concurrent_workflow_task_executions (pos 40) in
    let activities : ℤ = given_or o.max_concurrent_activity_task_executions (pos 100) in
    let reuse : Bool = given_or o.reuse_v8_context false in
    record {
      namespace = given_or o.namespace "default";
      identity = given_or o.identity p.identity;
      use_versioning = given_or o.use_versioning false;
      shutdown_grace_time = given_or o.shutdown_grace_time (millis (pos 0));
      shutdown_force_time = o.shutdown_force_time;
      max_concurrent_activity_task_executions = activities;
      max_concurrent_local_activity_executions =
          given_or o.max_concurrent_local_activity_executions (pos 100);
      enable_non_local_activities = given_or o.enable_non_local_activities true;
      max_concurrent_workflow_task_executions = executions;
      max_concurrent_workflow_task_polls =
          given_or o.max_concurrent_workflow_task_polls (math_min (pos 10) executions);
      max_concurrent_activity_task_polls =
          given_or o.max_concurrent_activity_task_polls (math_min (pos 10) activities);
      sticky_queue_schedule_to_start_timeout =
          given_or o.sticky_queue_schedule_to_start_timeout (text "10s");
      max_cached_workflows =
          given_or o.max_cached_workflows (default_max_cached_workflows reuse p.heap_size_limit);
      workflow_thread_pool_size =
          given_or o.workflow_thread_pool_size (if reuse then pos 1 else pos 2);
      max_heartbeat_throttle_interval = given_or o.max_heartbeat_throttle_interval (text "60s");
      default_heartbeat_throttle_interval =
          given_or o.default_heartbeat_throttle_interval (text "30s");
      isolate_execution_timeout =
          if debugging p o.debug_mode then text "4294967295ms" else text "5s";
      interceptors =
          given_or o.interceptors (
            append_default_interceptors p
              (record { activity_inbound = []; workflow_modules = [] }));
      enable_sdk_tracing = given_or o.enable_sdk_tracing false;
      show_stack_trace_sources = given_or o.show_stack_trace_sources false;
      debug_mode = given_or o.debug_mode (debugging p o.debug_mode);
      reuse_v8_context = reuse;
      passed_on = o.passed_on;
    }

abbrev is_zero : ℤ → Bool
is_zero n = (pos_part n + neg_part n) == 0

-- The three corrections of `compileWorkerOptions`: of the size of the cache, and then of the number of
-- tasks, for that size.
abbrev pub corrected_cache : ℤ → ℤ
corrected_cache cached = if not (is_zero cached) && ltb_ℤ cached (pos 2) then pos 2 else cached

abbrev pub at_most_cached : ℤ → ℤ → ℤ
at_most_cached cached executions =
    if ltb_ℤ (pos 0) cached && ltb_ℤ cached executions then cached else executions

abbrev pub at_least_2 : ℤ → ℤ → ℤ
at_least_2 cached executions =
    if ltb_ℤ (pos 0) cached && ltb_ℤ executions (pos 2) then pos 2 else executions

unfoldable pub corrected : WorkerOptionsWithDefaults → WorkerOptionsWithDefaults
corrected o =
    let cached : ℤ = corrected_cache o.max_cached_workflows in
    record o {
      max_cached_workflows = cached;
      max_concurrent_workflow_task_executions =
          at_least_2 cached (at_most_cached cached o.max_concurrent_workflow_task_executions);
    }

-- The options with their times, or the error of the first that is no duration.
abbrev pub timed :
    WorkerOptionsWithDefaults
    → (grace : Checked TimeError ℤ) (force : Checked TimeError (Option ℤ))
      (sticky isolate longest usual : Checked TimeError ℤ)
    → Checked TimeError CompiledWorkerOptions
timed o grace force sticky isolate longest usual = grace >>= λ grace_ms. force >>= λ force_ms.
    sticky >>= λ sticky_ms. isolate >>= λ isolate_ms. longest >>= λ longest_ms.
    usual >>= λ usual_ms. valid (record {
      options = o;
      shutdown_grace_time_ms = grace_ms;
      shutdown_force_time_ms = force_ms;
      sticky_queue_schedule_to_start_timeout_ms = sticky_ms;
      isolate_execution_timeout_ms = isolate_ms;
      max_heartbeat_throttle_interval_ms = longest_ms;
      default_heartbeat_throttle_interval_ms = usual_ms;
    })

module _ (k : Packages) where
  abbrev with_times : WorkerOptionsWithDefaults → Checked TimeError CompiledWorkerOptions
  with_times o =
      timed o (ms_to_number k o.shutdown_grace_time) (ms_optional_to_number k o.shutdown_force_time)
        (ms_to_number k o.sticky_queue_schedule_to_start_timeout)
        (ms_to_number k o.isolate_execution_timeout)
        (ms_to_number k o.max_heartbeat_throttle_interval)
        (ms_to_number k o.default_heartbeat_throttle_interval)

  unfoldable pub compile_worker_options :
      WorkerOptionsWithDefaults → Checked TimeError CompiledWorkerOptions
  unfolding corrected
  compile_worker_options o = with_times (corrected o)
