-- ===== src/Activator/Scenario.antt =====
-- A workflow execution at its start, and converters, for the examples of the modules beside.
use temporalio_sdk_typescrip.Prelude.{ℕ, Option, none, some, true, false, [], ◌∷◌, pos}
use temporalio_sdk_typescrip.Time.Fixed.{fixed}
use temporalio_sdk_typescrip.Failure.{
  Value, opaque, PayloadConverter, ProtoFailure, proto, no_cause, no_info,
}
use temporalio_sdk_typescrip.Activator.{Activator, Completions, NextSeqs, Signal}
use temporalio_sdk_typescrip.Activator.Scopes.{no_scope}
use temporalio_sdk_typescrip.Activator.Jobs.{Converters}

abbrev to_number : Value → Option ℕ
to_number (opaque n) = some n
to_number _ = none

-- Values that are numbers are their own payloads.
abbrev pub number_converter : PayloadConverter
number_converter = record { to_payload = to_number; from_payload = λ p. some (opaque p) }

abbrev pub plain_failure : ProtoFailure
plain_failure = proto (some "failed") none none no_cause no_info

abbrev pub converters : Converters
converters = record {
  payloads = number_converter;
  error_to_failure = λ e. some plain_failure;
  failure_to_error = λ f. none;
  text_of = λ n. "";
  packages = fixed;
}

abbrev pub no_completions : Completions
no_completions = record {
  timers = [];
  activities = [];
  child_workflow_starts = [];
  child_workflow_completes = [];
  signal_workflows = [];
  cancel_workflows = [];
}

abbrev pub first_seqs : NextSeqs
first_seqs = record {
  timer_seq = 1;
  activity_seq = 1;
  child_workflow_seq = 1;
  signal_workflow_seq = 1;
  cancel_workflow_seq = 1;
  condition_seq = 1;
}

abbrev pub created : Activator
created = record {
  completions = no_completions;
  buffered_signals = [];
  buffered_queries = [];
  signal_handlers = [];
  default_signal_handler = none;
  query_handlers = ("state", 4) ∷ [];
  commands = [];
  blocked_conditions = [];
  completed = false;
  cancelled = false;
  workflow_function_was_called = true;
  next_seqs = first_seqs;
  now = pos 0;
  workflow = some 1;
  is_replaying = false;
  history_length = 3;
  task_queue = "queue";
  random_seed = [];
  known_present_patches = [];
  sent_patches = [];
  sink_calls = [];
  registered_activity_names = [];
  scopes = (0, no_scope) ∷ [];
  current_scope = 0;
  next_promise = 1;
  settled = [];
  rejection_links = [];
  tasks = [];
}

abbrev pub pay : Signal
pay = record { signal_name = "pay"; input = 7 ∷ [] }

abbrev pub ship : Signal
ship = record { signal_name = "ship"; input = [] }

-- Two signals that came before their handlers.
abbrev pub signalled : Activator
signalled = record created {
  buffered_signals = pay ∷ ship ∷ pay ∷ [];
  signal_handlers = ("pay", 2) ∷ [];
}
