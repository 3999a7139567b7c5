-- ===== src/Activation/Children.antt =====
-- How a child workflow that does not start reaches the code that waits for it:
-- `startChildWorkflowExecutionNextHandler` of packages/workflow/src/workflow.ts,
-- `resolveChildWorkflowExecutionStart` of packages/workflow/src/internals.ts and the microtask between
-- the two promises.
use temporalio_sdk_typescrip.Prelude.{
  ℕ, suc, ◌<◌, ◌≡◌, refl, ap, ◌∙◌, ==_iff, String, Option, none, some, true, false, not, List, [],
  ◌∷◌, ◌++◌, lookup, lookup-insert, nat_key, arith, ◌==◌,
}
use temporalio_sdk_typescrip.Failure.{
  Value, Payload, ProtoFailure, JsError, temporal, already_started, uncaused,
}
use temporalio_sdk_typescrip.Activator.{
  Activator, Settlement, rejected, Reaction, cancel_child_workflow_of, child_workflow_start,
  child_workflow_complete, start_child_workflow_execution, push_command, set_completion,
  maybe_consume_completion, delete_completion, new_promise, settle, chain_rejection, linked_to,
  reject_with, returned,
}
use temporalio_sdk_typescrip.Activator.Scopes.{considered_cancelled, on_cancel}
use temporalio_sdk_typescrip.Activator.Jobs.{
  Converters, ChildStart, failed, cancelled, is_text, resolve_child_workflow_execution_start,
}
use temporalio_sdk_typescrip.Activator.Commands.{
  current, link, next_child, start_child, start_child_workflow_execution_next_handler,
}
use temporalio_sdk_typescrip.Activator.Commands.Attributes.{to_payloads}
use temporalio_sdk_typescrip.Activation.{run_task}

-- The error with which a start ends: the execution exists already, or the start was cancelled.
pub data Refusal (c : Converters) : ChildStart → JsError → Type 0 where
  exists_already :
      (id type : String)
      → is_text id ≡ true
      → is_text type ≡ true
      → Refusal c
          (failed true id type)
          (temporal "Workflow execution already started" [] none (already_started id type) uncaused)
  was_cancelled :
      (f : ProtoFailure) (e : JsError)
      → c.failure_to_error f ≡ some e
      → Refusal c (cancelled (some f)) e

lookup-append :
    {V : Type 0} (k : ℕ) (v : V) (m : List (ℕ × V))
    → lookup k m ≡ none
    → lookup k (m ++ (k, v) ∷ []) ≡ some v
lookup-append k v [] h = ground (arith, ==_iff k k)
lookup-append k v ((j, x) ∷ m) h = ground (arith, lookup-append k v m)

lookup-append_next :
    {V : Type 0} (k : ℕ) (v : V) (m : List (ℕ × V))
    → lookup (suc k) m ≡ none
    → lookup (suc k) (m ++ (k, v) ∷ []) ≡ none
lookup-append_next k v [] h = ground (arith, ==_iff k (suc k))
lookup-append_next k v ((j, x) ∷ m) h = ground (arith, lookup-append_next k v m)

linked_to-append :
    (p q : ℕ) (links : List (ℕ × ℕ))
    → linked_to p links ≡ []
    → linked_to p (links ++ (p, q) ∷ []) ≡ q ∷ []
linked_to-append p q [] h = ground (arith, ==_iff p p)
linked_to-append p q ((j, x) ∷ links) h = ground (arith, linked_to-append p q links)

link-runtime :
    (r : Reaction) (a : Activator)
    → ((link r a).settled ≡ a.settled)
      × ((link r a).rejection_links ≡ a.rejection_links)
      × ((link r a).next_promise ≡ a.next_promise)
unfolding on_cancel
link-runtime r a = ground arith

-- The resolution of a child's start, once its completion is found.
resolve_start_lem :
    (c : Converters) (n p : ℕ) (start_status : ChildStart) (e : JsError) (b : Activator)
    → Refusal c start_status e
    → 0 < n
    → lookup n b.completions.child_workflow_starts ≡ some p
    → resolve_child_workflow_execution_start c (some n) start_status b
      ≡ (returned tt, settle p (rejected (some e)) (delete_completion child_workflow_start n b))
unfolding resolve_child_workflow_execution_start maybe_consume_completion
resolve_start_lem c n p start_status e b (exists_already id type hi ht) h found =
    rw (found, is_nonzero n h, hi, ht) refl
  where
    is_nonzero : (n : ℕ) → 0 < n → not (n == 0) ≡ true
    is_nonzero n h = ground arith
resolve_start_lem c n p start_status e b (was_cancelled f e' he) h found = rw (found, he) refl

chain_rejection-linked :
    (p q : ℕ) (b : Activator)
    → lookup p b.settled ≡ none
    → linked_to p b.rejection_links ≡ []
    → ((chain_rejection p q b).settled ≡ b.settled)
      × (linked_to p (chain_rejection p q b).rejection_links ≡ q ∷ [])
      × ((chain_rejection p q b).completions ≡ b.completions)
unfolding chain_rejection
chain_rejection-linked p q b h l =
    rw (h, chain_rejection) (refl, linked_to-append p q b.rejection_links l, refl)

start_found :
    (n p : ℕ) (b : Activator)
    → lookup n (set_completion child_workflow_start n p b).completions.child_workflow_starts
      ≡ some p
start_found n p b =
    ground (arith, lookup-insert n n p b.completions.child_workflow_starts, ==_iff n n)

settle-tasks :
    (p q : ℕ) (e : Option JsError) (b : Activator)
    → lookup p b.settled ≡ none
    → linked_to p b.rejection_links ≡ q ∷ []
    → (settle p (rejected e) b).tasks ≡ b.tasks ++ reject_with q e ∷ []
unfolding settle
settle-tasks p q e b h l = rw (h, l, settle) refl

settle-settled :
    (p : ℕ) (s : Settlement) (b : Activator)
    → lookup p b.settled ≡ none
    → (settle p s b).settled ≡ b.settled ++ (p, s) ∷ []
unfolding settle
settle-settled p s b h = rw (h, settle) refl

module _ (c : Converters) (id type : String) (args : List Value) (input : Option (List Payload))
    (a : Activator) (allowed : considered_cancelled (current a) ≡ false)
    (converted : to_payloads c.payloads args ≡ returned input) where
  abbrev seq : ℕ
  seq = a.next_seqs.child_workflow_seq

  abbrev start : ℕ
  start = a.next_promise

  abbrev asked : Activator
  asked = set_completion child_workflow_start seq start (
      push_command (start_child_workflow_execution seq id type input) false
        (link (cancel_child_workflow_of seq) (new_promise (next_child a).1).1))

  abbrev waiting : Activator
  waiting =
      set_completion child_workflow_complete seq asked.next_promise
        (chain_rejection start asked.next_promise (new_promise asked).1)

  start_child_lem : start_child c.payloads id type args a ≡ (start, asked.next_promise, waiting)
  unfolding start_child start_child_workflow_execution_next_handler
  start_child_lem = rw (allowed, converted) refl

  asked_lem :
      (asked.settled ≡ a.settled)
      × (asked.rejection_links ≡ a.rejection_links)
      × (asked.next_promise ≡ suc start)
  unfolding push_command
  asked_lem =
      ground (arith, link-runtime (cancel_child_workflow_of seq) (new_promise (next_child a).1).1)

  waiting_lem :
      lookup start a.settled ≡ none
      → linked_to start a.rejection_links ≡ []
      → (waiting.settled ≡ a.settled)
        × (linked_to start waiting.rejection_links ≡ asked.next_promise ∷ [])
        × (lookup seq waiting.completions.child_workflow_starts ≡ some start)
  waiting_lem h l =
      let (s, r, n) = asked_lem in
      let (s', r', k) =
        chain_rejection-linked start asked.next_promise (new_promise asked).1
          (ap (λ m. lookup start m) s ∙ h) (ap (λ m. linked_to start m) r ∙ l) in
      (
        s' ∙ s,
        r',
        ap (λ m. lookup seq m.child_workflow_starts) k
            ∙ start_found seq start (
                push_command (start_child_workflow_execution seq id type input) false
                  (link (cancel_child_workflow_of seq) (new_promise (next_child a).1).1)),
      )

  -- When the start of a child workflow is refused, because its execution exists already or because it
  -- was cancelled first, the promise of the start is rejected with the error of that refusal, and one
  -- microtask is queued; when it has run, the promise of the child's completion is rejected with the
  -- same error. The scope that is current is not cancelled, the arguments and the failure of a
  -- cancellation are converted, the identifier and type that Core reports are not empty, the number
  -- of the child is not zero, and its two promises are new.
  pub start_child-refused :
      (start_status : ChildStart) (e : JsError)
      → Refusal c start_status e
      → 0 < seq
      → lookup start a.settled ≡ none
      → lookup (suc start) a.settled ≡ none
      → linked_to start a.rejection_links ≡ []
      → let (p, q, b) = start_child c.payloads id type args a in
        let d = (resolve_child_workflow_execution_start c (some seq) start_status b).1 in
        let f = (run_task c (reject_with q (some e)) d).1 in
        (d.tasks ≡ b.tasks ++ reject_with q (some e) ∷ [])
        × (lookup p d.settled ≡ some (rejected (some e)))
        × (lookup q f.settled ≡ some (rejected (some e)))
  unfolding run_task
  start_child-refused start_status e refusal positive h h' l =
      let (settled, linked, found) = waiting_lem h l in
      let (s, r, next) = asked_lem in
      let fresh : lookup start waiting.settled ≡ none = ap (λ m. lookup start m) settled ∙ h in
      let b = delete_completion child_workflow_start seq waiting in
      let d = settle start (rejected (some e)) b in
      let all : d.settled ≡ a.settled ++ (start, rejected (some e)) ∷ [] =
        settle-settled start (rejected (some e)) b fresh
        ∙ ap (λ m. m ++ (start, rejected (some e)) ∷ []) settled in
      let other : lookup asked.next_promise d.settled ≡ none =
        ap (λ m. lookup asked.next_promise m) all
        ∙ ap (λ n. lookup n (a.settled ++ (start, rejected (some e)) ∷ [])) next
        ∙ lookup-append_next start (rejected (some e)) a.settled h' in
      rw
        (
          start_child_lem,
          resolve_start_lem c seq start start_status e waiting refusal positive found,
        )
        (
          settle-tasks start asked.next_promise (some e) b fresh linked,
          ap (λ m. lookup start m) all ∙ lookup-append start (rejected (some e)) a.settled h,
          ap (λ m. lookup asked.next_promise m)
                (settle-settled asked.next_promise (rejected (some e)) d other)
              ∙ lookup-append asked.next_promise (rejected (some e)) d.settled other,
        )
