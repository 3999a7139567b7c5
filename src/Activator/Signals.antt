-- ===== src/Activator/Signals.antt =====
-- Signals, queries and the start of a workflow: `signalWorkflow`, `dispatchBufferedSignals`,
-- `queryWorkflow` and `startWorkflow` of packages/workflow/src/internals.ts, `setHandler` and
-- `setDefaultSignalHandler` of packages/workflow/src/workflow.ts. No interceptor is installed.
pub mod Dispatch
use temporalio_sdk_typescrip.Prelude.{
  ℕ, zero, suc, String, Option, none, some, Bool, true, false, not, ◌&&◌, ◌||◌, if◌then◌else◌, List,
  [], ◌∷◌, ◌++◌, length, lookup, insert, remove, is_some, string_key,
}
use temporalio_sdk_typescrip.Failure.{
  Value, Payload, PayloadConverter, JsError, sdk_error, type_error, illegal_state_error,
  reference_error, determinism_violation_error, value_error,
}
use temporalio_sdk_typescrip.Activator.{
  Activator, Signal, Query, Outcome, returned, threw, M, ◌>>=◌, ◌>>◌, done, raise, run, enqueue,
  complete_query_with, fail_query_with, complete_workflow_with, fail_workflow_with,
}
use temporalio_sdk_typescrip.Activator.Jobs.{Converters, or_throw, is_text}

-- What a call of an asynchronous function has come to when it gives control back.
pub data Async : Type 0 where
  waiting : Async
  fulfilled : Value → Async
  failed : JsError → Async

-- What a query handler does.
pub data QueryResult : Type 0 where
  answer : Value → QueryResult
  promise : QueryResult
  failed : JsError → QueryResult

-- The code of the workflow bundle: what its functions do to the state up to their first wait. The
-- functions are known by numbers.
pub record UserCode : Type 0 where
  pub run_workflow : ℕ → List Value → Activator → Async × Activator
  pub run_signal : ℕ → List Value → Activator → Async × Activator
  pub run_default_signal : ℕ → String → List Value → Activator → Async × Activator
  pub run_query : ℕ → List Value → Activator → QueryResult × Activator
  pub holds : ℕ → Activator → Bool

-- arrayFromPayloads
abbrev pub array_from_payloads : PayloadConverter → List Payload → Option (List Value)
array_from_payloads c [] = some []
array_from_payloads c (p ∷ ps) = elim (c.from_payload p) [
  | none ↦ none
  | some v ↦ elim (array_from_payloads c ps) [ none ↦ none | some vs ↦ some (v ∷ vs) ]
]

abbrev pub has_handler : Activator → Signal → Bool
has_handler a s = is_some (lookup s.signal_name a.signal_handlers)

-- `catch(this.handleWorkflowFailure)` on a handler's promise.
abbrev pub after_signal : Async → Activator → Activator
after_signal (failed e) a = enqueue (fail_workflow_with e) a
after_signal waiting a = a
after_signal (fulfilled v) a = a

abbrev pub after_workflow : Async → Activator → Activator
after_workflow waiting a = a
after_workflow (fulfilled v) a = enqueue (complete_workflow_with v) a
after_workflow (failed e) a = enqueue (fail_workflow_with e) a

abbrev pub after_query : String → QueryResult → Activator → Activator
after_query id (answer v) a = enqueue (complete_query_with id v) a
after_query id promise a = enqueue (fail_query_with id (sdk_error determinism_violation_error)) a
after_query id (failed e) a = enqueue (fail_query_with id e) a

abbrev pub past {ℓ} : {A : Type ℓ} → A → Option (A × List A) → Option (A × List A)
past x none = none
past x (some (y, rest)) = some (y, x ∷ rest)

-- The position of the first element that passes the test, taken out of its list.
abbrev pub take_first {ℓ} : {A : Type ℓ} → (A → Bool) → List A → Option (A × List A)
take_first p [] = none
take_first p (x ∷ xs) = if p x then some (x, xs) else past x (take_first p xs)

abbrev pub Dispatched : Type 0
Dispatched = Option (Outcome (Unit {0}) × Activator)

module _ (c : Converters) (u : UserCode) where
  abbrev pub to_default_handler : Option ℕ → String → List Value → Activator → Activator
  to_default_handler (some fn) name args a =
      let (r, b) = u.run_default_signal fn name args a in after_signal r b
  to_default_handler none name args a =
      enqueue (fail_workflow_with (sdk_error illegal_state_error)) a

  abbrev pub to_handler : Option ℕ → String → List Value → Activator → Activator
  to_handler (some fn) name args a = let (r, b) = u.run_signal fn args a in after_signal r b
  to_handler none name args a = to_default_handler a.default_signal_handler name args a

  unfoldable pub signal_workflow_next_handler : String → List Value → Activator → Activator
  signal_workflow_next_handler name args a = to_handler (lookup name a.signal_handlers) name args a

  abbrev pub deliver : String → Option (List Value) → M (Unit {0})
  deliver name none a = (threw (sdk_error value_error), a)
  deliver name (some args) a = (returned tt, signal_workflow_next_handler name args a)

  unfoldable pub signal_workflow : Signal → M (Unit {0})
  signal_workflow s a =
      if not (is_text s.signal_name)
      then (threw (sdk_error type_error), a)
      else if not (has_handler a s) && not (is_some a.default_signal_handler)
      then (returned tt, record a { buffered_signals = a.buffered_signals ++ s ∷ [] })
      else deliver s.signal_name (array_from_payloads c.payloads s.input) a

  -- The signal that the loop takes out next.
  unfoldable pub next_dispatchable : Activator → Option (Signal × List Signal)
  next_dispatchable a =
      if is_some a.default_signal_handler
      then take_first (λ _. true) a.buffered_signals
      else take_first (has_handler a) a.buffered_signals

  abbrev pub dispatch_rest : (Activator → Dispatched) → Outcome (Unit {0}) → Activator → Dispatched
  dispatch_rest loop (returned _) a = loop a
  dispatch_rest loop (threw e) a = some (threw e, a)

  abbrev pub dispatch_one :
      (Activator → Dispatched) → Option (Signal × List Signal) → Activator → Dispatched
  dispatch_one loop none a = some (returned tt, a)
  dispatch_one loop (some (s, rest)) a =
      let (o, b) = signal_workflow s (record a { buffered_signals = rest }) in
      dispatch_rest loop o b

  -- The loop, on fuel; `none` means that the fuel ran out.
  unfoldable pub dispatch_loop : ℕ → Activator → Dispatched
  dispatch_loop zero a = none
  dispatch_loop (suc fuel) a = dispatch_one (dispatch_loop fuel) (next_dispatchable a) a

  abbrev pub to_query_handler : String → Option ℕ → List Value → Activator → Activator
  to_query_handler id none args a = enqueue (fail_query_with id (sdk_error reference_error)) a
  to_query_handler id (some fn) args a = let (r, b) = u.run_query fn args a in after_query id r b

  unfoldable pub query_workflow_next_handler : String → String → List Value → Activator → Activator
  query_workflow_next_handler id name args a =
      to_query_handler id (lookup name a.query_handlers) args a

  abbrev pub ask : Query → Option (List Value) → M (Unit {0})
  ask q none a = (threw (sdk_error value_error), a)
  ask q (some args) a = (returned tt, query_workflow_next_handler q.query_id q.query_type args a)

  unfoldable pub query_workflow : Query → M (Unit {0})
  query_workflow q a =
      if not a.workflow_function_was_called
      then (returned tt, record a { buffered_queries = a.buffered_queries ++ q ∷ [] })
      else if not (is_text q.query_type && is_text q.query_id)
      then (threw (sdk_error type_error), a)
      else ask q (array_from_payloads c.payloads q.arguments) a

  -- The `for` over the buffer; an exception leaves it, and the rest of the buffer is dropped.
  unfoldable pub query_all : List Query → M (Unit {0})
  query_all [] = done tt
  query_all (q ∷ qs) = query_workflow q >> query_all qs

  -- The `finally` block runs on every way out of the call, and an exception in it takes the place
  -- of the call's own result.
  abbrev pub after_finally : Async → Outcome (Unit {0}) → Activator → Activator
  after_finally r (returned _) a = after_workflow r a
  after_finally r (threw e) a = enqueue (fail_workflow_with e) a

  abbrev pub call_workflow : Option ℕ → List Value → Activator → Activator
  call_workflow none args a = enqueue (fail_workflow_with (sdk_error illegal_state_error)) a
  call_workflow (some fn) args a =
      let (r, b) = u.run_workflow fn args a in
      let (o, d) =
        query_all b.buffered_queries
          (record b { workflow_function_was_called = true; buffered_queries = [] }) in
      after_finally r o d

  unfoldable pub start_workflow_next_handler : List Value → Activator → Activator
  start_workflow_next_handler args a = call_workflow a.workflow args a

  abbrev pub start : Option (List Value) → M (Unit {0})
  start none a = (threw (sdk_error value_error), a)
  start (some args) a = (returned tt, start_workflow_next_handler args a)

  unfoldable pub start_workflow : List Payload → M (Unit {0})
  start_workflow arguments a = start (array_from_payloads c.payloads arguments) a

-- The second argument of `setHandler`: a function, null or undefined, or anything else.
pub data Handler : Type 0 where
  function : ℕ → Handler
  nothing : Handler
  not_a_function : Handler

pub data Definition : Type 0 where
  signal query : String → Definition
  invalid : Definition

-- The buffer's length bounds the rounds of the loop.
abbrev pub dispatch_fuel : Activator → ℕ
dispatch_fuel a = suc (length a.buffered_signals)

abbrev pub or_unfinished : Dispatched → Activator → Outcome (Unit {0}) × Activator
or_unfinished none a = (returned tt, a)
or_unfinished (some r) a = r

module _ (c : Converters) (u : UserCode) where
  unfoldable pub dispatch_buffered_signals : M (Unit {0})
  dispatch_buffered_signals a = or_unfinished (dispatch_loop c u (dispatch_fuel a) a) a

  unfoldable pub set_handler : Definition → Handler → M (Unit {0})
  set_handler (signal name) (function fn) a =
      dispatch_buffered_signals (record a { signal_handlers = insert name fn a.signal_handlers })
  set_handler (signal name) nothing a =
      (returned tt, record a { signal_handlers = remove name a.signal_handlers })
  set_handler (query name) (function fn) a =
      (returned tt, record a { query_handlers = insert name fn a.query_handlers })
  set_handler (query name) nothing a =
      (returned tt, record a { query_handlers = remove name a.query_handlers })
  set_handler _ _ a = (threw (sdk_error type_error), a)

  unfoldable pub set_default_signal_handler : Handler → M (Unit {0})
  set_default_signal_handler (function fn) a =
      dispatch_buffered_signals (record a { default_signal_handler = some fn })
  set_default_signal_handler nothing a = (returned tt, record a { default_signal_handler = none })
  set_default_signal_handler not_a_function a = (threw (sdk_error type_error), a)
