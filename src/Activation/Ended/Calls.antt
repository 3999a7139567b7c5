-- ===== src/Activation/Ended/Calls.antt =====
-- The calls of packages/workflow/src/workflow.ts keep the rule on commands.
use temporalio_sdk_typescrip.Prelude.{
  ℕ, ◌≡◌, refl, Bool, true, false, not, ◌&&◌, Option, none, some, List, String, ℤ, arith,
  Bool-cases, if◌then◌else◌, insert, nat_key, inl, inr,
}
use temporalio_sdk_typescrip.Prelude.Checked.{valid, invalid}
use temporalio_sdk_typescrip.Time.{Packages, Duration, ms_to_number}
use temporalio_sdk_typescrip.Failure.{
  Value, PayloadConverter, undefined, sdk_error, type_error, reference_error,
}
use temporalio_sdk_typescrip.Activator.{
  Activator, Command, start_timer, cancel_timer, schedule_activity, schedule_local_activity,
  start_child_workflow_execution, signal_external_workflow_execution, set_patch_marker,
  push_command, settle, resolved, rejected, Reaction, reject_promise, Outcome, returned, threw,
  cancel_activity_of, cancel_local_activity_of, cancel_child_workflow_of, cancel_signal_of,
  cancel_timer_of, cancel_wait_condition, timer, delete_completion, set_completion, new_promise,
  activity, child_workflow_start, signal_workflow,
}
use temporalio_sdk_typescrip.Activator.Jobs.{has_text}
use temporalio_sdk_typescrip.Activator.Commands.{
  link, unless_cancelled, or_reject, timer_next_handler, set_timeout, clear_timeout, sleep,
  at_least_one, schedule_activity_next_handler, schedule_activity_call,
  schedule_local_activity_next_handler, start_child_workflow_execution_next_handler, start_child,
  signal_workflow_next_handler, signal_external, patch_internal, condition_inner, next_timer,
  next_activity, next_condition, next_child, next_signal, request_timer, wait_condition,
  request_activity, request_local_activity, request_child, request_signal, sleep_of,
}
use temporalio_sdk_typescrip.Activator.Commands.Attributes.{
  ActivityOptions, has_timeout, activity_attributes, local_activity_attributes, to_payloads,
}
use temporalio_sdk_typescrip.Activation.Ended.{
  IsOrderly, is_terminal, push_command-IsOrderly, settle-IsOrderly, chain_rejection-IsOrderly,
  on_cancel-IsOrderly,
}

module _ (before : Bool) where
  abbrev Keeps : (Activator → Activator) → Type 0
  Keeps f = (a : Activator) → IsOrderly before a → IsOrderly before (f a)

  link-IsOrderly : (r : Reaction) → Keeps (link r)
  link-IsOrderly r a h = ground (arith, on_cancel-IsOrderly before a.current_scope r a h)

  unless_cancelled-IsOrderly :
      (p : ℕ) (body : Activator → Activator) → Keeps body → Keeps (unless_cancelled p body)
  unless_cancelled-IsOrderly p body k a h =
      ground (arith, on_cancel-IsOrderly before a.current_scope (reject_promise p) a h, k a h)

  or_reject-IsOrderly :
      {A : Type 0} (p : ℕ) (o : Outcome A) (k : A → Activator → Activator)
      → ((x : A) → Keeps (k x))
      → Keeps (or_reject p o k)
  or_reject-IsOrderly p (returned x) k f a h = f x a h
  or_reject-IsOrderly p (threw e) k f a h = settle-IsOrderly before p (rejected (some e)) a h

  push-IsOrderly : (c : Command) → is_terminal c ≡ false → Keeps (push_command c false)
  push-IsOrderly c e a h = ground (arith, push_command-IsOrderly before c a h)

  either-IsOrderly :
      (b : Bool) (x y : Activator)
      → IsOrderly before x
      → IsOrderly before y
      → IsOrderly before (if b then x else y)
  either-IsOrderly true x y h k = h
  either-IsOrderly false x y h k = k

  request_timer-IsOrderly : (seq p : ℕ) (d : ℤ) → Keeps (request_timer seq p d)
  request_timer-IsOrderly seq p d a h =
      push-IsOrderly (start_timer seq d) refl (link (cancel_timer_of seq p) a)
        (link-IsOrderly (cancel_timer_of seq p) a h)

  pub timer_next_handler-IsOrderly :
      (seq : ℕ) (d : ℤ) (a : Activator)
      → IsOrderly before a
      → IsOrderly before (timer_next_handler seq d a).1
  unfolding timer_next_handler
  timer_next_handler-IsOrderly seq d a h =
      unless_cancelled-IsOrderly a.next_promise (request_timer seq a.next_promise d)
        (request_timer-IsOrderly seq a.next_promise d) (new_promise a).1 h

  pub set_timeout-IsOrderly :
      (d : ℤ) (a : Activator) → IsOrderly before a → IsOrderly before (set_timeout d a).1
  unfolding set_timeout
  set_timeout-IsOrderly d a h =
      push-IsOrderly (start_timer a.next_seqs.timer_seq (at_least_one d)) refl
        (set_completion timer a.next_seqs.timer_seq a.next_promise (new_promise (next_timer a).1).1)
        h

  pub clear_timeout-IsOrderly : (handle : ℕ) → Keeps (clear_timeout handle)
  unfolding clear_timeout
  clear_timeout-IsOrderly handle a h =
      push-IsOrderly (cancel_timer handle) refl (delete_completion timer handle (next_timer a).1) h

  pub patch_internal-IsOrderly :
      (id : String) (d : Bool) (a : Activator)
      → IsOrderly before a
      → IsOrderly before (patch_internal id d a).1
  unfolding patch_internal
  patch_internal-IsOrderly id d a h =
      ground (arith, push-IsOrderly (set_patch_marker id d) refl a h)

  wait_condition-IsOrderly :
      (holds : ℕ → Activator → Bool) (fn p : ℕ) → Keeps (wait_condition holds fn p)
  wait_condition-IsOrderly holds fn p a h =
      let k =
        link-IsOrderly (cancel_wait_condition a.next_seqs.condition_seq p) (next_condition a).1 h in
      let d = link (cancel_wait_condition a.next_seqs.condition_seq p) (next_condition a).1 in
      either-IsOrderly (holds fn d) (settle p (resolved undefined) d)
        (record d {
          blocked_conditions =
              insert a.next_seqs.condition_seq (record { fn = fn; promise = p })
                d.blocked_conditions;
        })
        (settle-IsOrderly before p (resolved undefined) d k) k

  pub condition_inner-IsOrderly :
      (holds : ℕ → Activator → Bool) (fn : ℕ) (a : Activator)
      → IsOrderly before a
      → IsOrderly before (condition_inner holds fn a).1
  unfolding condition_inner
  condition_inner-IsOrderly holds fn a h =
      unless_cancelled-IsOrderly a.next_promise (wait_condition holds fn a.next_promise)
        (wait_condition-IsOrderly holds fn a.next_promise) (new_promise a).1 h

  module _ (ms : Packages) where
    pub sleep-IsOrderly :
        (d : Duration) (a : Activator) → IsOrderly before a → IsOrderly before (sleep ms d a).1
    unfolding sleep
    sleep-IsOrderly d a h = elim (ms_to_number ms d) as (λ r. IsOrderly before (sleep_of r a).1) [
      | invalid _ ↦ h
      | valid n ↦
          timer_next_handler-IsOrderly a.next_seqs.timer_seq (at_least_one n) (next_timer a).1 h
    ]

    module _ (c : PayloadConverter) where
      request_activity-IsOrderly :
          (seq p : ℕ) (type : String) (args : List Value) (o : ActivityOptions)
          → Keeps (request_activity ms c seq p type args o)
      request_activity-IsOrderly seq p type args o a h =
          or_reject-IsOrderly p
            (activity_attributes ms c (link (cancel_activity_of seq) a).task_queue seq type args o)
            (λ attrs z.
              set_completion activity seq p (push_command (schedule_activity seq attrs) false z))
            (λ attrs z k. push-IsOrderly (schedule_activity seq attrs) refl z k)
            (link (cancel_activity_of seq) a) (link-IsOrderly (cancel_activity_of seq) a h)

      request_local_activity-IsOrderly :
          (seq n p : ℕ) (type : String) (args : List Value) (o : ActivityOptions)
          → Keeps (request_local_activity ms c seq n p type args o)
      request_local_activity-IsOrderly seq n p type args o a h =
          or_reject-IsOrderly p (local_activity_attributes ms c seq type args o)
            (λ attrs z.
              set_completion activity seq p
                (push_command (schedule_local_activity seq n attrs) false z))
            (λ attrs z k. push-IsOrderly (schedule_local_activity seq n attrs) refl z k)
            (link (cancel_local_activity_of seq) a)
            (link-IsOrderly (cancel_local_activity_of seq) a h)

      pub schedule_activity_call-IsOrderly :
          (type : String) (args : List Value) (o : Option ActivityOptions) (a : Activator)
          → IsOrderly before a
          → IsOrderly before (schedule_activity_call ms c type args o a).1
      unfolding schedule_activity_call schedule_activity_next_handler
      schedule_activity_call-IsOrderly type args none a h = h
      schedule_activity_call-IsOrderly type args (some o) a h =
          let k =
            unless_cancelled-IsOrderly a.next_promise
              (request_activity ms c a.next_seqs.activity_seq a.next_promise type args o)
              (request_activity-IsOrderly a.next_seqs.activity_seq a.next_promise type args o)
              (new_promise (next_activity a).1).1 h in
          elim (Bool-cases (has_timeout o)) [ inl e ↦ rw e k | inr e ↦ rw e h ]

      pub schedule_local_activity_next_handler-IsOrderly :
          (seq n : ℕ) (type : String) (args : List Value) (o : ActivityOptions) (a : Activator)
          → IsOrderly before a
          → IsOrderly before (schedule_local_activity_next_handler ms c seq n type args o a).1
      unfolding schedule_local_activity_next_handler
      schedule_local_activity_next_handler-IsOrderly seq n type args o a h =
          let b = (new_promise a).1 in
          let p = a.next_promise in
          let refused = settle p (rejected (some (sdk_error reference_error))) b in
          let invalid = settle p (rejected (some (sdk_error type_error))) b in
          let asked = unless_cancelled p (request_local_activity ms c seq n p type args o) b in
          either-IsOrderly (not a.is_replaying && not (has_text type a.registered_activity_names))
            refused (if not (has_timeout o) then invalid else asked)
            (settle-IsOrderly before p (rejected (some (sdk_error reference_error))) b h)
            (either-IsOrderly (not (has_timeout o)) invalid asked
              (settle-IsOrderly before p (rejected (some (sdk_error type_error))) b h)
              (unless_cancelled-IsOrderly p (request_local_activity ms c seq n p type args o)
                (request_local_activity-IsOrderly seq n p type args o) b h))

  module _ (c : PayloadConverter) where
    request_child-IsOrderly :
        (seq p : ℕ) (id type : String) (args : List Value)
        → Keeps (request_child c seq p id type args)
    request_child-IsOrderly seq p id type args a h =
        or_reject-IsOrderly p (to_payloads c args)
          (λ i z.
            set_completion child_workflow_start seq p
              (push_command (start_child_workflow_execution seq id type i) false z))
          (λ i z k. push-IsOrderly (start_child_workflow_execution seq id type i) refl z k)
          (link (cancel_child_workflow_of seq) a)
          (link-IsOrderly (cancel_child_workflow_of seq) a h)

    pub start_child-IsOrderly :
        (id type : String) (args : List Value) (a : Activator)
        → IsOrderly before a
        → IsOrderly before (start_child c id type args a).2
    unfolding start_child start_child_workflow_execution_next_handler
    start_child-IsOrderly id type args a h =
        let seq = a.next_seqs.child_workflow_seq in
        let start = a.next_promise in
        let b =
          unless_cancelled start (request_child c seq start id type args)
            (new_promise (next_child a).1).1 in
        chain_rejection-IsOrderly before start b.next_promise (new_promise b).1 (
          unless_cancelled-IsOrderly start (request_child c seq start id type args)
            (request_child-IsOrderly seq start id type args) (new_promise (next_child a).1).1 h)

    request_signal-IsOrderly :
        (seq p : ℕ) (name : String) (args : List Value) → Keeps (request_signal c seq p name args)
    request_signal-IsOrderly seq p name args a h =
        or_reject-IsOrderly p (to_payloads c args)
          (λ i z.
            set_completion signal_workflow seq p
              (push_command (signal_external_workflow_execution seq name i) false z))
          (λ i z k. push-IsOrderly (signal_external_workflow_execution seq name i) refl z k)
          (link (cancel_signal_of seq) a) (link-IsOrderly (cancel_signal_of seq) a h)

    pub signal_external-IsOrderly :
        (name : String) (args : List Value) (a : Activator)
        → IsOrderly before a
        → IsOrderly before (signal_external c name args a).1
    unfolding signal_external signal_workflow_next_handler
    signal_external-IsOrderly name args a h =
        unless_cancelled-IsOrderly a.next_promise
          (request_signal c a.next_seqs.signal_workflow_seq a.next_promise name args)
          (request_signal-IsOrderly a.next_seqs.signal_workflow_seq a.next_promise name args)
          (new_promise (next_signal a).1).1 h
