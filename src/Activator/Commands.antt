-- ===== src/Activator/Commands.antt =====
-- The functions of packages/workflow/src/workflow.ts that workflow code calls. Each makes a promise
-- and gives its number; an exception in the promise's executor rejects the promise. No interceptor
-- is installed, and headers are left out.
pub mod Attributes
pub mod Patches
use temporalio_sdk_typescrip.Prelude.{
  ℕ, suc, ◌+◌, String, Option, none, some, Bool, true, false, not, ◌&&◌, ◌||◌, if◌then◌else◌, List,
  [], ◌∷◌, ◌++◌, ℤ, pos, negsuc, ltb_ℤ, insert, nat_key, ◌==◌,
}
use temporalio_sdk_typescrip.Time
use temporalio_sdk_typescrip.Prelude.Checked.{Checked, valid, invalid}
use temporalio_sdk_typescrip.Time.{Packages, TimeError, Duration, millis, ms_to_number}
use temporalio_sdk_typescrip.Failure.{
  Value, undefined, Payload, PayloadConverter, JsError, sdk_error, type_error, reference_error,
  value_error, illegal_state_error,
}
use temporalio_sdk_typescrip.Activator.{
  Activator, NextSeqs, Condition, SinkCall, Command, start_timer, cancel_timer, schedule_activity,
  schedule_local_activity, start_child_workflow_execution, signal_external_workflow_execution,
  request_cancel_external_workflow_execution, set_patch_marker, ActivityAttributes, CompletionType,
  timer, activity, child_workflow_start, child_workflow_complete, signal_workflow, cancel_workflow,
  Settlement, resolved, rejected, Scope, Reaction, reject_promise, cancel_timer_of,
  cancel_wait_condition, cancel_activity_of, cancel_local_activity_of, cancel_child_workflow_of,
  cancel_signal_of, Outcome, returned, threw, M, push_command, settle, set_completion,
  delete_completion, new_promise, chain_rejection,
}
use temporalio_sdk_typescrip.Activator.Scopes.{
  scope_of, considered_cancelled, on_cancel, new_scope, with_current,
}
use temporalio_sdk_typescrip.Activator.Jobs.{has_text, add_text, is_text}
use temporalio_sdk_typescrip.Activator.Commands.Attributes.{
  ActivityOptions, activity_attributes, local_activity_attributes, to_payloads, has_timeout,
}

abbrev pub current : Activator → Scope
current a = scope_of a.current_scope a

-- `if (scope.cancellable) scope.cancelRequested.catch(...)`
abbrev pub link : Reaction → Activator → Activator
link r a = if (current a).cancellable then on_cancel a.current_scope r a else a

-- `if (scope.consideredCancelled) { scope.cancelRequested.catch(reject); return; }`
abbrev pub unless_cancelled : ℕ → (Activator → Activator) → Activator → Activator
unless_cancelled p body a =
    if considered_cancelled (current a)
    then on_cancel a.current_scope (reject_promise p) a
    else body a

-- An exception in the executor of a promise.
abbrev pub or_reject {ℓ} :
    {A : Type ℓ} → ℕ → Outcome A → (A → Activator → Activator) → Activator → Activator
or_reject p (returned x) k a = k x a
or_reject p (threw e) k a = settle p (rejected (some e)) a

abbrev pub next_timer : Activator → ℕ × Activator
next_timer a = (
  a.next_seqs.timer_seq,
  record a { next_seqs = record (a.next_seqs) { timer_seq = suc (a.next_seqs.timer_seq) } },
)

abbrev pub next_activity : Activator → ℕ × Activator
next_activity a = (
  a.next_seqs.activity_seq,
  record a { next_seqs = record (a.next_seqs) { activity_seq = suc (a.next_seqs.activity_seq) } },
)

abbrev pub next_child : Activator → ℕ × Activator
next_child a = (
  a.next_seqs.child_workflow_seq,
  record a {
    next_seqs = record (a.next_seqs) { child_workflow_seq = suc (a.next_seqs.child_workflow_seq) };
  },
)

abbrev pub next_signal : Activator → ℕ × Activator
next_signal a = (
  a.next_seqs.signal_workflow_seq,
  record a {
    next_seqs = record (a.next_seqs) {
      signal_workflow_seq = suc (a.next_seqs.signal_workflow_seq);
    };
  },
)

abbrev next_cancel : Activator → ℕ × Activator
next_cancel a = (
  a.next_seqs.cancel_workflow_seq,
  record a {
    next_seqs = record (a.next_seqs) {
      cancel_workflow_seq = suc (a.next_seqs.cancel_workflow_seq);
    };
  },
)

abbrev pub next_condition : Activator → ℕ × Activator
next_condition a = (
  a.next_seqs.condition_seq,
  record a { next_seqs = record (a.next_seqs) { condition_seq = suc (a.next_seqs.condition_seq) } },
)

-- Math.max(1, ms)
abbrev pub at_least_one : ℤ → ℤ
at_least_one z = if ltb_ℤ z (pos 1) then pos 1 else z

abbrev pub request_timer : (seq promise : ℕ) → ℤ → Activator → Activator
request_timer seq p duration a =
    set_completion timer seq p
      (push_command (start_timer seq duration) false (link (cancel_timer_of seq p) a))

unfoldable pub timer_next_handler : (seq : ℕ) → ℤ → Activator → ℕ × Activator
unfolding on_cancel
timer_next_handler seq duration a =
    let (p, b) = new_promise a in (p, unless_cancelled p (request_timer seq p duration) b)

-- `setTimeout` and `clearTimeout`, which packages/workflow/src/worker-interface.ts puts in place.
unfoldable pub set_timeout : ℤ → Activator → ℕ × Activator
set_timeout duration a =
    let (seq, b) = next_timer a in
    let (p, d) = new_promise b in
    (
      seq,
      push_command (start_timer seq (at_least_one duration)) false (set_completion timer seq p d),
    )

unfoldable pub clear_timeout : ℕ → Activator → Activator
clear_timeout handle a =
    let (_, b) = next_timer a in
    push_command (cancel_timer handle) false (delete_completion timer handle b)

-- The number is taken before the duration is read.
abbrev pub sleep_of : Checked TimeError ℤ → M ℕ
sleep_of duration a =
    let (seq, b) = next_timer a in
    elim duration [
      | invalid _ ↦ (threw (sdk_error type_error), b)
      | valid n ↦ let (p, e) = timer_next_handler seq (at_least_one n) b in (returned p, e)
    ]

module _ (ms : Packages) where
  unfoldable pub sleep : Duration → M ℕ
  sleep d a = sleep_of (ms_to_number ms d) a

  module _ (c : PayloadConverter) where
    -- The rest of the executor of the activity's promise, and of a local activity's.
    abbrev pub request_activity :
        (seq promise : ℕ) (activity_type : String) (args : List Value)
        → ActivityOptions
        → Activator
        → Activator
    request_activity seq p type args options a =
        let b = link (cancel_activity_of seq) a in
        or_reject p (activity_attributes ms c b.task_queue seq type args options)
          (λ attrs z.
            set_completion activity seq p (push_command (schedule_activity seq attrs) false z))
          b

    abbrev pub request_local_activity :
        (seq attempt promise : ℕ) (activity_type : String) (args : List Value)
        → ActivityOptions
        → Activator
        → Activator
    request_local_activity seq attempt p type args options a =
        let b = link (cancel_local_activity_of seq) a in
        or_reject p (local_activity_attributes ms c seq type args options)
          (λ attrs z.
            set_completion activity seq p
              (push_command (schedule_local_activity seq attempt attrs) false z))
          b

    unfoldable pub schedule_activity_next_handler :
        (seq : ℕ) (activity_type : String) (args : List Value) → ActivityOptions → M ℕ
    schedule_activity_next_handler seq type args options a =
        if not (has_timeout options)
        then (threw (sdk_error type_error), a)
        else let (p, b) = new_promise a in
          (returned p, unless_cancelled p (request_activity seq p type args options) b)

    unfoldable pub schedule_activity_call : String → List Value → Option ActivityOptions → M ℕ
    schedule_activity_call type args none a = (threw (sdk_error type_error), a)
    schedule_activity_call type args (some options) a =
        let (seq, b) = next_activity a in schedule_activity_next_handler seq type args options b

    -- An `async` function: what it throws rejects its promise.
    unfoldable pub schedule_local_activity_next_handler :
        (seq attempt : ℕ) (activity_type : String) (args : List Value)
        → ActivityOptions
        → Activator
        → ℕ × Activator
    schedule_local_activity_next_handler seq attempt type args options a =
        let (p, b) = new_promise a in
        (
          p,
          if not b.is_replaying && not (has_text type b.registered_activity_names)
              then settle p (rejected (some (sdk_error reference_error))) b
              else if not (has_timeout options)
              then settle p (rejected (some (sdk_error type_error))) b
              else unless_cancelled p (request_local_activity seq attempt p type args options) b,
        )

-- The promises of the start and of the completion: a `catch` on the first rejects the second.
module _ (c : PayloadConverter) where
  abbrev pub request_child :
      (seq promise : ℕ) (workflow_id workflow_type : String) (args : List Value)
      → Activator
      → Activator
  request_child seq p id type args a =
      or_reject p (to_payloads c args)
        (λ input z.
          set_completion child_workflow_start seq p
            (push_command (start_child_workflow_execution seq id type input) false z))
        (link (cancel_child_workflow_of seq) a)

  abbrev pub request_signal :
      (seq promise : ℕ) (signal_name : String) (args : List Value) → Activator → Activator
  request_signal seq p name args a =
      or_reject p (to_payloads c args)
        (λ payloads z.
          set_completion signal_workflow seq p
            (push_command (signal_external_workflow_execution seq name payloads) false z))
        (link (cancel_signal_of seq) a)

  unfoldable pub start_child_workflow_execution_next_handler :
      (seq : ℕ) (workflow_id workflow_type : String) (args : List Value)
      → Activator
      → ℕ × ℕ × Activator
  start_child_workflow_execution_next_handler seq id type args a =
      let (start, b) = new_promise a in
      let d = unless_cancelled start (request_child seq start id type args) b in
      let (complete, e) = new_promise d in
      (
        start,
        complete,
        set_completion child_workflow_complete seq complete (chain_rejection start complete e),
      )

  unfoldable pub start_child :
      (workflow_id workflow_type : String) (args : List Value) → Activator → ℕ × ℕ × Activator
  start_child id type args a =
      let (seq, b) = next_child a in start_child_workflow_execution_next_handler seq id type args b

  unfoldable pub signal_workflow_next_handler :
      (seq : ℕ) (signal_name : String) (args : List Value) → Activator → ℕ × Activator
  signal_workflow_next_handler seq name args a =
      let (p, b) = new_promise a in (p, unless_cancelled p (request_signal seq p name args) b)

  unfoldable pub signal_external : String → List Value → Activator → ℕ × Activator
  signal_external name args a =
      let (seq, b) = next_signal a in signal_workflow_next_handler seq name args b

unfoldable pub patch_internal :
    (patch_id : String) (deprecated : Bool) → Activator → Outcome Bool × Activator
patch_internal id deprecated a = elim a.workflow [
  | none ↦ (threw (sdk_error illegal_state_error), a)
  | some _ ↦
      let use_patch = not a.is_replaying || has_text id a.known_present_patches in
      if use_patch && not (has_text id a.sent_patches)
      then (
        returned use_patch,
        let b = push_command (set_patch_marker id deprecated) false a in
            record b { sent_patches = add_text id b.sent_patches },
      )
      else (returned use_patch, a)
]

-- `holds` says what the condition's function returns now.
module _ (holds : ℕ → Activator → Bool) where
  abbrev pub wait_condition : (fn promise : ℕ) → Activator → Activator
  wait_condition fn p a =
      let (seq, b) = next_condition a in
      let d = link (cancel_wait_condition seq p) b in
      if holds fn d then settle p (resolved undefined) d else record d {
        blocked_conditions = insert seq (record { fn = fn; promise = p }) d.blocked_conditions;
      }

  unfoldable pub condition_inner : ℕ → Activator → ℕ × Activator
  condition_inner fn a =
      let (p, b) = new_promise a in (p, unless_cancelled p (wait_condition fn p) b)

-- A call of a proxied sink function.
unfoldable pub call_sink : SinkCall → Activator → Activator
call_sink call a = record a { sink_calls = a.sink_calls ++ call ∷ [] }
