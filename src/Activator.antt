-- ===== src/Activator.antt =====
-- The state of a workflow execution: the class `Activator` of packages/workflow/src/internals.ts,
-- with the promises, cancellation scopes and microtasks of the JavaScript runtime that it rests on.
-- Left out: the module cache, the stack traces of promises, headers, and the interceptors, which
-- module Interceptors composes.
pub mod Scopes
pub mod Jobs
pub mod Signals
pub mod Commands
pub mod Scenario
mod Examples
use temporalio_sdk_typescrip.Prelude.{
  ℕ, ◌+◌, String, Option, none, some, Bool, true, false, not, ◌&&◌, ◌||◌, if◌then◌else◌, List, [],
  ◌∷◌, ◌++◌, ℤ, lookup, insert, remove, is_some, nat_key, map, ◌==◌,
}
use temporalio_sdk_typescrip.Time.{Timestamp}
use temporalio_sdk_typescrip.Retry.{ProtoRetryPolicy}
use temporalio_sdk_typescrip.Failure.{Value, Payload, JsError, ProtoFailure}

-- A promise is known by a number; a completion is the pair of its resolving functions.
pub data Settlement : Type 0 where
  resolved : Value → Settlement
  rejected : Option JsError → Settlement

pub data CompletionType : Type 0 where
  timer activity child_workflow_start child_workflow_complete signal_workflow cancel_workflow :
      CompletionType

pub record Completions : Type 0 where
  pub timers : List (ℕ × ℕ)
  pub activities : List (ℕ × ℕ)
  pub child_workflow_starts : List (ℕ × ℕ)
  pub child_workflow_completes : List (ℕ × ℕ)
  pub signal_workflows : List (ℕ × ℕ)
  pub cancel_workflows : List (ℕ × ℕ)

pub record NextSeqs : Type 0 where
  pub timer_seq : ℕ
  pub activity_seq : ℕ
  pub child_workflow_seq : ℕ
  pub signal_workflow_seq : ℕ
  pub cancel_workflow_seq : ℕ
  pub condition_seq : ℕ

-- coresdk.workflow_activation.ISignalWorkflow and IQueryWorkflow; a missing text is "".
pub record Signal : Type 0 where
  pub signal_name : String
  pub input : List Payload

pub record Query : Type 0 where
  pub query_type : String
  pub query_id : String
  pub arguments : List Payload

pub record Condition : Type 0 where
  pub fn : ℕ
  pub promise : ℕ

pub record SinkCall : Type 0 where
  pub iface_name : String
  pub fn_name : String
  pub args : List Value

-- coresdk.workflow_commands.IWorkflowCommand, with the attributes that the SDK computes with.
pub data QueryAnswer : Type 0 where
  succeeded : Payload → QueryAnswer
  failed : ProtoFailure → QueryAnswer

-- An identifier that the user gives, or the text of the sequence number.
pub data ActivityId : Type 0 where
  named : String → ActivityId
  numbered : ℕ → ActivityId

pub record ActivityAttributes : Type 0 where
  pub activity_id : ActivityId
  pub activity_type : String
  pub arguments : Option (List Payload)
  pub retry_policy : Option ProtoRetryPolicy
  pub task_queue : String
  pub heartbeat_timeout : Option Timestamp
  pub schedule_to_close_timeout : Option Timestamp
  pub start_to_close_timeout : Option Timestamp
  pub schedule_to_start_timeout : Option Timestamp
  pub local_retry_threshold : Option Timestamp
  pub do_not_eagerly_execute : Bool

pub data Command : Type 0 where
  start_timer : (seq : ℕ) → ℤ → Command
  cancel_timer : (seq : ℕ) → Command
  schedule_activity : (seq : ℕ) → ActivityAttributes → Command
  request_cancel_activity : (seq : ℕ) → Command
  schedule_local_activity : (seq attempt : ℕ) → ActivityAttributes → Command
  request_cancel_local_activity : (seq : ℕ) → Command
  start_child_workflow_execution :
      (seq : ℕ) (workflow_id workflow_type : String) → Option (List Payload) → Command
  cancel_child_workflow_execution : (child_workflow_seq : ℕ) → Command
  signal_external_workflow_execution : (seq : ℕ) → String → Option (List Payload) → Command
  cancel_signal_workflow : (seq : ℕ) → Command
  request_cancel_external_workflow_execution : (seq : ℕ) (workflow_id run_id : String) → Command
  set_patch_marker : (patch_id : String) (deprecated : Bool) → Command
  upsert_workflow_search_attributes : List (String × Payload) → Command
  respond_to_query : (query_id : String) → QueryAnswer → Command
  complete_workflow_execution : Payload → Command
  fail_workflow_execution : ProtoFailure → Command
  cancel_workflow_execution : Command
  continue_as_new_workflow_execution : ℕ → Command

-- What a `catch` on a scope's `cancelRequested` promise does.
pub data Reaction : Type 0 where
  reject_promise : ℕ → Reaction
  cancel_timer_of cancel_wait_condition : (seq promise : ℕ) → Reaction
  cancel_activity_of cancel_local_activity_of cancel_child_workflow_of cancel_signal_of :
      (seq : ℕ) → Reaction
  cancel_child_scope : ℕ → Reaction

pub record Scope : Type 0 where
  pub cancellable : Bool
  pub cancel_requested : Bool
  pub reason : Option JsError  -- what the promise `cancelRequested` is rejected with
  pub parent : Option ℕ
  pub reactions : List Reaction

pub data Task : Type 0 where
  react : Reaction → JsError → Task
  complete_query_with : String → Value → Task
  fail_query_with : String → JsError → Task
  complete_workflow_with : Value → Task
  fail_workflow_with : JsError → Task
  reject_with : (promise : ℕ) → Option JsError → Task

pub record Activator : Type 0 where
  pub completions : Completions
  pub buffered_signals : List Signal
  pub buffered_queries : List Query
  pub signal_handlers : List (String × ℕ)
  pub default_signal_handler : Option ℕ
  pub query_handlers : List (String × ℕ)
  pub commands : List Command
  pub blocked_conditions : List (ℕ × Condition)
  pub completed : Bool
  pub cancelled : Bool
  pub workflow_function_was_called : Bool
  pub next_seqs : NextSeqs
  pub now : ℤ
  pub workflow : Option ℕ
  pub is_replaying : Bool
  pub history_length : ℕ
  pub task_queue : String
  pub random_seed : List ℕ
  pub known_present_patches : List String
  pub sent_patches : List String
  pub sink_calls : List SinkCall
  pub registered_activity_names : List String
  -- The runtime: the root scope is number 0, and the first settlement of a promise counts. A link
  -- is a promise and another one that its `catch` rejects.
  pub scopes : List (ℕ × Scope)
  pub current_scope : ℕ
  pub next_promise : ℕ
  pub settled : List (ℕ × Settlement)
  pub rejection_links : List (ℕ × ℕ)
  pub tasks : List Task

-- A JavaScript function: what it did to the state stays done when it throws.
pub data Outcome {ℓ} (A : Type ℓ) : Type ℓ where
  returned : A → Outcome A
  threw : JsError → Outcome A

abbrev pub M : Type 0 → Type 0
M A = Activator → Outcome A × Activator

-- What follows a call that has returned or thrown.
abbrev pub follow : {A B : Type 0} → (A → M B) → Outcome A → M B
follow f (returned x) a = f x a
follow f (threw e) a = (threw e, a)

module _ {A B : Type 0} where
  infixl 5 ◌>>=◌
  abbrev pub ◌>>=◌ : M A → (A → M B) → M B
  (call >>= rest) a = let (outcome, b) = call a in follow rest outcome b

infixl 5 ◌>>◌
abbrev pub ◌>>◌ : {A : Type 0} → M (Unit {0}) → M A → M A
(call >> rest) a = let (outcome, b) = call a in follow (λ _. rest) outcome b

abbrev pub done : {A : Type 0} → A → M A
done x a = (returned x, a)

abbrev pub raise : {A : Type 0} → JsError → M A
raise e a = (threw e, a)

-- A function that only changes the state.
abbrev pub run : (Activator → Activator) → M (Unit {0})
run f a = (returned tt, f a)

abbrev pub is_query_response : Command → Bool
is_query_response (respond_to_query _ _) = true
is_query_response _ = false

unfoldable pub push_command : Command → Bool → Activator → Activator
push_command cmd complete a =
    if a.completed && not (is_query_response cmd)
    then a
    else record a { commands = a.commands ++ cmd ∷ []; completed = a.completed || complete }

unfoldable pub get_and_reset_commands : Activator → List Command × Activator
get_and_reset_commands a = (a.commands, record a { commands = [] })

unfoldable pub get_and_reset_sink_calls : Activator → List SinkCall × Activator
get_and_reset_sink_calls a = (a.sink_calls, record a { sink_calls = [] })

abbrev pub completions_of : CompletionType → Completions → List (ℕ × ℕ)
completions_of timer c = c.timers
completions_of activity c = c.activities
completions_of child_workflow_start c = c.child_workflow_starts
completions_of child_workflow_complete c = c.child_workflow_completes
completions_of signal_workflow c = c.signal_workflows
completions_of cancel_workflow c = c.cancel_workflows

abbrev pub with_completions : CompletionType → List (ℕ × ℕ) → Completions → Completions
with_completions timer m c = record c { timers = m }
with_completions activity m c = record c { activities = m }
with_completions child_workflow_start m c = record c { child_workflow_starts = m }
with_completions child_workflow_complete m c = record c { child_workflow_completes = m }
with_completions signal_workflow m c = record c { signal_workflows = m }
with_completions cancel_workflow m c = record c { cancel_workflows = m }

abbrev pub has_completion : CompletionType → ℕ → Activator → Bool
has_completion type seq a = is_some (lookup seq (completions_of type a.completions))

abbrev pub set_completion : CompletionType → ℕ → ℕ → Activator → Activator
set_completion type seq promise a = record a {
  completions =
      with_completions type (insert seq promise (completions_of type a.completions)) a.completions;
}

abbrev pub delete_completion : CompletionType → ℕ → Activator → Activator
delete_completion type seq a = record a {
  completions =
      with_completions type (remove seq (completions_of type a.completions)) a.completions;
}

unfoldable pub maybe_consume_completion : CompletionType → ℕ → Activator → Option ℕ × Activator
maybe_consume_completion type seq a = elim (lookup seq (completions_of type a.completions)) [
  | none ↦ (none, a)
  | some promise ↦ (some promise, delete_completion type seq a)
]

abbrev pub new_promise : Activator → ℕ × Activator
new_promise a = (a.next_promise, record a { next_promise = a.next_promise + 1 })

-- The promises that a `catch` of a promise rejects, and the callbacks that do it.
abbrev pub linked_to : ℕ → List (ℕ × ℕ) → List ℕ
linked_to promise [] = []
linked_to promise ((p, q) ∷ links) =
    if p == promise then q ∷ linked_to promise links else linked_to promise links

abbrev pub rejections : Settlement → List ℕ → List Task
rejections (resolved v) promises = []
rejections (rejected e) promises = map (λ p. reject_with p e) promises

-- The resolving functions of a promise: only the first call has an effect.
unfoldable pub settle : ℕ → Settlement → Activator → Activator
settle promise s a = if is_some (lookup promise a.settled) then a else record a {
  settled = a.settled ++ (promise, s) ∷ [];
  tasks = a.tasks ++ rejections s (linked_to promise a.rejection_links);
}

-- `promise.catch(reject)`, in the executor of another promise.
unfoldable pub chain_rejection : (promise other : ℕ) → Activator → Activator
chain_rejection promise other a = elim (lookup promise a.settled) [
  | none ↦ record a { rejection_links = a.rejection_links ++ (promise, other) ∷ [] }
  | some s ↦ record a { tasks = a.tasks ++ rejections s (other ∷ []) }
]

abbrev pub enqueue : Task → Activator → Activator
enqueue t a = record a { tasks = a.tasks ++ t ∷ [] }
