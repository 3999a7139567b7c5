-- ===== src/Activation/Ended/Handlers.antt =====
-- The handlers of signals and queries and the start of a workflow, packages/workflow/src/internals.ts,
-- keep the rule on commands, when the workflow's own code does.
use temporalio_sdk_typescrip.Prelude.{
  ℕ, zero, suc, Bool, true, false, Option, none, some, List, [], ◌∷◌, String, lookup, string_key,
  insert, arith, if◌then◌else◌,
}
use temporalio_sdk_typescrip.Failure.{Value, Payload}
use temporalio_sdk_typescrip.Activator.{Activator, Signal, Query, Outcome, returned, threw}
use temporalio_sdk_typescrip.Activator.Jobs.{Converters}
use temporalio_sdk_typescrip.Activator.Signals
use temporalio_sdk_typescrip.Activator.Signals.{
  UserCode, Async, waiting, fulfilled, QueryResult, answer, promise, has_handler, Dispatched,
  dispatch_rest, dispatch_one, to_default_handler, to_handler, deliver,
  signal_workflow_next_handler, next_dispatchable, dispatch_loop, dispatch_buffered_signals,
  dispatch_fuel, set_handler, set_default_signal_handler, to_query_handler,
  query_workflow_next_handler, ask, query_all, after_finally, call_workflow, start,
  start_workflow_next_handler, array_from_payloads, after_signal, after_workflow, after_query,
  Definition, Handler, signal, query, invalid, function, nothing, not_a_function,
}
use temporalio_sdk_typescrip.Activation.Ended.{IsOrderly}
use temporalio_sdk_typescrip.Activation.Ended.Tasks.{MKeeps, bind-IsOrderly}

module _ (before : Bool) where
  -- The functions of the workflow bundle keep the rule, as the calls of module Calls do.
  pub record AreOrderly (u : UserCode) : Type 0 where
    pub of_workflow :
        (fn : ℕ) (args : List Value) (a : Activator)
        → IsOrderly before a
        → IsOrderly before (u.run_workflow fn args a).1
    pub of_signal :
        (fn : ℕ) (args : List Value) (a : Activator)
        → IsOrderly before a
        → IsOrderly before (u.run_signal fn args a).1
    pub of_default_signal :
        (fn : ℕ) (name : String) (args : List Value) (a : Activator)
        → IsOrderly before a
        → IsOrderly before (u.run_default_signal fn name args a).1
    pub of_query :
        (fn : ℕ) (args : List Value) (a : Activator)
        → IsOrderly before a
        → IsOrderly before (u.run_query fn args a).1

  pub either-IsOrderly :
      {A : Type 0} (b : Bool) (x y : A × Activator)
      → IsOrderly before x.1
      → IsOrderly before y.1
      → IsOrderly before (if b then x else y).1
  either-IsOrderly true x y h k = h
  either-IsOrderly false x y h k = k

  after_signal-IsOrderly :
      (r : Async) (a : Activator) → IsOrderly before a → IsOrderly before (after_signal r a)
  after_signal-IsOrderly waiting a h = h
  after_signal-IsOrderly (fulfilled v) a h = h
  after_signal-IsOrderly (Async.failed e) a h = h

  after_query-IsOrderly :
      (id : String) (r : QueryResult) (a : Activator)
      → IsOrderly before a
      → IsOrderly before (after_query id r a)
  after_query-IsOrderly id (answer v) a h = h
  after_query-IsOrderly id promise a h = h
  after_query-IsOrderly id (QueryResult.failed e) a h = h

  after_finally-IsOrderly :
      (c : Converters) (u : UserCode) (r : Async) (o : Outcome (Unit {0})) (a : Activator)
      → IsOrderly before a
      → IsOrderly before (after_finally c u r o a)
  after_finally-IsOrderly c u waiting (returned x) a h = h
  after_finally-IsOrderly c u (fulfilled v) (returned x) a h = h
  after_finally-IsOrderly c u (Async.failed e) (returned x) a h = h
  after_finally-IsOrderly c u r (threw e) a h = h

  module _ (c : Converters) (u : UserCode) (k : AreOrderly u) where
    to_default-IsOrderly :
        (o : Option ℕ) (name : String) (args : List Value) (a : Activator)
        → IsOrderly before a
        → IsOrderly before (to_default_handler c u o name args a)
    to_default-IsOrderly (some fn) name args a h =
        after_signal-IsOrderly (u.run_default_signal fn name args a).0
          (u.run_default_signal fn name args a).1 (k.of_default_signal fn name args a h)
    to_default-IsOrderly none name args a h = h

    to_handler-IsOrderly :
        (o : Option ℕ) (name : String) (args : List Value) (a : Activator)
        → IsOrderly before a
        → IsOrderly before (to_handler c u o name args a)
    to_handler-IsOrderly (some fn) name args a h =
        after_signal-IsOrderly (u.run_signal fn args a).0 (u.run_signal fn args a).1
          (k.of_signal fn args a h)
    to_handler-IsOrderly none name args a h =
        to_default-IsOrderly a.default_signal_handler name args a h

    deliver-IsOrderly :
        (name : String) (o : Option (List Value)) → MKeeps before (deliver c u name o)
    unfolding signal_workflow_next_handler
    deliver-IsOrderly name none a h = h
    deliver-IsOrderly name (some args) a h =
        to_handler-IsOrderly (lookup name a.signal_handlers) name args a h

    pub signal_workflow-IsOrderly : (s : Signal) → MKeeps before (Signals.signal_workflow c u s)
    unfolding Signals.signal_workflow
    signal_workflow-IsOrderly s a h =
        ground (arith, deliver-IsOrderly s.signal_name (array_from_payloads c.payloads s.input) a h)

    abbrev EndsOrderly : Dispatched → Type 0
    EndsOrderly none = Unit
    EndsOrderly (some r) = IsOrderly before r.1

    dispatch_rest-IsOrderly :
        (loop : Activator → Dispatched)
        → ((a : Activator) → IsOrderly before a → EndsOrderly (loop a))
        → (o : Outcome (Unit {0})) (a : Activator) → IsOrderly before a
        → EndsOrderly (dispatch_rest c u loop o a)
    dispatch_rest-IsOrderly loop ih (returned x) a h = ih a h
    dispatch_rest-IsOrderly loop ih (threw e) a h = h

    dispatch_one-IsOrderly :
        (loop : Activator → Dispatched)
        → ((a : Activator) → IsOrderly before a → EndsOrderly (loop a))
        → (o : Option (Signal × List Signal)) (a : Activator) → IsOrderly before a
        → EndsOrderly (dispatch_one c u loop o a)
    dispatch_one-IsOrderly loop ih none a h = h
    dispatch_one-IsOrderly loop ih (some (s, rest)) a h =
        let b = record a { buffered_signals = rest } in
        dispatch_rest-IsOrderly loop ih (Signals.signal_workflow c u s b).0
          (Signals.signal_workflow c u s b).1 (signal_workflow-IsOrderly s b h)

    dispatch_loop-IsOrderly :
        (fuel : ℕ) (a : Activator) → IsOrderly before a → EndsOrderly (dispatch_loop c u fuel a)
    unfolding dispatch_loop
    dispatch_loop-IsOrderly zero a h = tt
    dispatch_loop-IsOrderly (suc fuel) a h =
        dispatch_one-IsOrderly (dispatch_loop c u fuel) (dispatch_loop-IsOrderly fuel)
          (next_dispatchable c u a) a h

    or_unfinished-IsOrderly :
        (o : Dispatched) (a : Activator)
        → EndsOrderly o
        → IsOrderly before a
        → IsOrderly before (Signals.or_unfinished o a).1
    or_unfinished-IsOrderly none a e h = h
    or_unfinished-IsOrderly (some r) a e h = e

    pub dispatch_buffered_signals-IsOrderly : MKeeps before (dispatch_buffered_signals c u)
    unfolding dispatch_buffered_signals
    dispatch_buffered_signals-IsOrderly a h =
        or_unfinished-IsOrderly (dispatch_loop c u (dispatch_fuel a) a) a
          (dispatch_loop-IsOrderly (dispatch_fuel a) a h) h

    pub set_handler-IsOrderly :
        (d : Definition) (handler : Handler) → MKeeps before (set_handler c u d handler)
    unfolding set_handler
    set_handler-IsOrderly (signal name) (function fn) a h =
        dispatch_buffered_signals-IsOrderly
          (record a { signal_handlers = insert name fn a.signal_handlers }) h
    set_handler-IsOrderly (signal name) nothing a h = h
    set_handler-IsOrderly (query name) (function fn) a h = h
    set_handler-IsOrderly (query name) nothing a h = h
    set_handler-IsOrderly (signal name) not_a_function a h = h
    set_handler-IsOrderly (query name) not_a_function a h = h
    set_handler-IsOrderly invalid d a h = h

    pub set_default_signal_handler-IsOrderly :
        (handler : Handler) → MKeeps before (set_default_signal_handler c u handler)
    unfolding set_default_signal_handler
    set_default_signal_handler-IsOrderly (function fn) a h =
        dispatch_buffered_signals-IsOrderly (record a { default_signal_handler = some fn }) h
    set_default_signal_handler-IsOrderly nothing a h = h
    set_default_signal_handler-IsOrderly not_a_function a h = h

    to_query_handler-IsOrderly :
        (id : String) (o : Option ℕ) (args : List Value) (a : Activator)
        → IsOrderly before a
        → IsOrderly before (to_query_handler c u id o args a)
    to_query_handler-IsOrderly id none args a h = h
    to_query_handler-IsOrderly id (some fn) args a h =
        after_query-IsOrderly id (u.run_query fn args a).0 (u.run_query fn args a).1
          (k.of_query fn args a h)

    ask-IsOrderly : (q : Query) (o : Option (List Value)) → MKeeps before (ask c u q o)
    unfolding query_workflow_next_handler
    ask-IsOrderly q none a h = h
    ask-IsOrderly q (some args) a h =
        to_query_handler-IsOrderly q.query_id (lookup q.query_type a.query_handlers) args a h

    pub query_workflow-IsOrderly : (q : Query) → MKeeps before (Signals.query_workflow c u q)
    unfolding Signals.query_workflow
    query_workflow-IsOrderly q a h =
        ground (arith, ask-IsOrderly q (array_from_payloads c.payloads q.arguments) a h)

    query_all-IsOrderly : (qs : List Query) → MKeeps before (query_all c u qs)
    unfolding query_all
    query_all-IsOrderly [] a h = h
    query_all-IsOrderly (q ∷ qs) a h =
        bind-IsOrderly before (Signals.query_workflow c u q) (λ _. query_all c u qs)
          (query_workflow-IsOrderly q) (λ _. query_all-IsOrderly qs) a h

    call_workflow-IsOrderly :
        (o : Option ℕ) (args : List Value) (a : Activator)
        → IsOrderly before a
        → IsOrderly before (call_workflow c u o args a)
    call_workflow-IsOrderly none args a h = h
    call_workflow-IsOrderly (some fn) args a h =
        let (r, b) = u.run_workflow fn args a in
        let d = record b { workflow_function_was_called = true; buffered_queries = [] } in
        after_finally-IsOrderly c u r (query_all c u b.buffered_queries d).0
          (query_all c u b.buffered_queries d).1
          (query_all-IsOrderly b.buffered_queries d (k.of_workflow fn args a h))

    start-IsOrderly : (o : Option (List Value)) → MKeeps before (start c u o)
    unfolding start_workflow_next_handler
    start-IsOrderly none a h = h
    start-IsOrderly (some args) a h = call_workflow-IsOrderly a.workflow args a h

    pub start_workflow-IsOrderly :
        (arguments : List Payload) → MKeeps before (Signals.start_workflow c u arguments)
    unfolding Signals.start_workflow
    start_workflow-IsOrderly arguments a h =
        start-IsOrderly (array_from_payloads c.payloads arguments) a h
