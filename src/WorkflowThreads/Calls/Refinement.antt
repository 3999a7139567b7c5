-- ===== src/WorkflowThreads/Calls/Refinement.antt =====
-- Messages implement calls: packages/worker/src/workflow/threaded-vm.ts.
use temporalio_sdk_typescrip.Prelude.{
  ℕ, Option, none, some, Bool, true, false, List, [], ◌∷◌, ◌++◌, if◌then◌else◌, ◌≡◌, refl, sym, ap,
  ◌∙◌, ◌⊎◌, inl, inr, lookup, insert, remove, nat_key, get_elem?, drop_at, IsUnique,
  remove-IsUnique, arith,
}
use temporalio_sdk_typescrip.WorkflowThreads.{
  Result, WorkerThreadRequest, Thread, Vm, handle_request,
}
use temporalio_sdk_typescrip.WorkflowThreads.Client.{
  Call, settlement, reject_all, System, new_system, post, call_thread, destroy_thread, exit_thread,
  respond, answer_request, Event, calls, destroys, answers, exits, step, steps,
}
use temporalio_sdk_typescrip.WorkflowThreads.Calls.Pending.{
  AreIssued, pending, insert-AreIssued, append-AreIssued, append-IsUnique, waiting_in-append,
  requests-append, reject_all_lem, get_elem?-waiting_in, lookup-get_elem?, waiting_in-drop_at,
  requests-drop_at, remove-AreIssued,
}
use temporalio_sdk_typescrip.WorkflowThreads.Calls.{
  Direct, destroy_direct, exit_direct, serve_nth, no_calls, waiting_in, rejections, serve,
  settle_direct, wait_for, direct_step, direct_steps, view,
}

-- A thread that runs has exactly the requests that its client waits for, in the same order; one that
-- has exited has none.
record IsPaired (s : System) : Type 0 where
  issued : AreIssued s.client.request_idx s.client.request_id_to_completion
  unique : IsUnique s.client.request_id_to_completion
  paired : s.outstanding ≡ pending s.client.worker_exited s.client.request_id_to_completion
  known : s.client.unknown ≡ false

waiting_in-insert :
    (n : ℕ) (call : Call) (m : List (ℕ × Call))
    → AreIssued n m
    → waiting_in (insert n call m) ≡ waiting_in m ++ call ∷ []
waiting_in-insert n call m a =
    ap waiting_in (insert-AreIssued n call m a) ∙ waiting_in-append n call m

post-paired :
    (b : Bool) (n : ℕ) (call : Call) (m : List (ℕ × Call)) (rs : List WorkerThreadRequest)
    → AreIssued n m
    → rs ≡ pending b m
    → post b (record { request_id = n; input = call.input }) rs ≡ pending b (insert n call m)
post-paired true n call m rs a h = h
post-paired false n call m rs a h =
    rw (h, insert-AreIssued n call m a) (sym (requests-append n call m))

view-call_thread :
    (call : Call) (s : System) → IsPaired s → view (call_thread call s) ≡ wait_for call (view s)
view-call_thread call s p =
    ap (λ l. record (view s) { waiting = l })
      (waiting_in-insert s.client.request_idx call s.client.request_id_to_completion p.issued)

call_thread-IsPaired : (call : Call) (s : System) → IsPaired s → IsPaired (call_thread call s)
call_thread-IsPaired call s p =
    let n : ℕ = s.client.request_idx in
    let m : List (ℕ × Call) = s.client.request_id_to_completion in
    record {
      issued = rw (insert-AreIssued n call m p.issued) (append-AreIssued n call m p.issued);
      unique = rw (insert-AreIssued n call m p.issued) (append-IsUnique n call m p.issued p.unique);
      paired = post-paired s.client.worker_exited n call m s.outstanding p.issued p.paired;
      known = p.known;
    }

-- A system after an event, and the calls that it stands for.
abbrev Follows : Direct → System → Type 0
Follows d s = IsPaired s × (view s ≡ d)

destroying-Follows :
    (b : Bool) (call : Call) (s closing : System)
    → IsPaired s
    → IsPaired closing
    → Follows
        (if b then view s else wait_for call (view closing))
        (if b then s else call_thread call closing)
destroying-Follows true call s closing p q = (p, refl)
destroying-Follows false call s closing p q =
    (call_thread-IsPaired call closing q, view-call_thread call closing q)

destroy_thread-Follows :
    (caller : ℕ) (s : System)
    → IsPaired s
    → Follows (destroy_direct caller (view s)) (destroy_thread caller s)
destroy_thread-Follows caller s p =
    destroying-Follows s.client.worker_exited _ s _ p
      (record { issued = p.issued; unique = p.unique; paired = p.paired; known = p.known })

exiting-Follows :
    (b c : Bool) (s : System)
    → IsPaired s
    → Follows
        (if b
          then view s
          else (if c then record (view s) { exited = true } else record (view s) {
            exited = true;
            waiting = [];
            settled = s.client.settled ++ rejections (view s).waiting;
          }))
        (if b then s else record s {
          client = if c then record s.client { worker_exited = true } else record s.client {
            worker_exited = true;
            request_id_to_completion = [];
            settled = s.client.settled ++ reject_all s.client.request_id_to_completion;
          };
          outstanding = [];
        })
exiting-Follows true c s p = (p, refl)
exiting-Follows false true s p =
    (record { issued = p.issued; unique = p.unique; paired = refl; known = p.known }, refl)
exiting-Follows false false s p = (
  record { issued = tt; unique = tt; paired = refl; known = p.known },
  rw (reject_all_lem s.client.request_id_to_completion) refl,
)

exit_thread-Follows : (s : System) → IsPaired s → Follows (exit_direct (view s)) (exit_thread s)
exit_thread-Follows s p = exiting-Follows s.client.worker_exited s.client.shut_down_requested s p

module _ (v : Vm) where
  -- A response to the request of an entry.
  respond-Follows :
      (i id : ℕ) (call : Call) (r : Thread × Result) (s : System)
      → IsPaired s
      → s.client.worker_exited ≡ false
      → get_elem? s.client.request_id_to_completion i ≡ some (id, call)
      → Follows
          (settle_direct call r (record (view s) { waiting = drop_at i (view s).waiting }))
          (respond v id r (record s { outstanding = drop_at i s.outstanding }))
  respond-Follows i id call (t, r) s p e g =
      let m : List (ℕ × Call) = s.client.request_id_to_completion in
      let found : (lookup id m ≡ some call) × (remove id m ≡ drop_at i m) =
        lookup-get_elem? i m id call p.unique g in
      rw found.0 (
        record {
          issued = remove-AreIssued s.client.request_idx id m p.issued;
          unique = remove-IsUnique id m p.unique;
          paired = rw (e, found.1, p.paired) (rw e (sym (requests-drop_at i m)));
          known = p.known;
        },
        rw found.1 (
            ap
              (λ l. record (view s) {
                waiting = l;
                thread = t;
                settled = s.client.settled ++ (call, settlement r) ∷ [];
              })
              (waiting_in-drop_at i m)),
      )

  serve-Follows :
      (i : ℕ) (o : Option WorkerThreadRequest) (w : Option Call) (s : System)
      → IsPaired s
      → s.client.worker_exited ≡ false
      → (o ≡ none) × (w ≡ none)
        ⊎ ((e : ℕ × Call) × (get_elem? s.client.request_id_to_completion i ≡ some e)
            × (w ≡ some e.1)
            × (o ≡ some (record { request_id = e.0; input = e.1.input })))
      → Follows (serve v i w (view s)) (answer_request v i o s)
  serve-Follows i o w s p e (inl (a, b)) = rw (a, b) (p, refl)
  serve-Follows i o w s p e (inr ((id, call), g, a, b)) =
      rw (a, b) (respond-Follows i id call (handle_request v call.input s.thread) s p e g)

  answering-Follows :
      (b : Bool) (i : ℕ) (o : Option WorkerThreadRequest) (s : System)
      → IsPaired s
      → s.client.worker_exited ≡ b
      → o ≡ get_elem? (pending b s.client.request_id_to_completion) i
      → Follows
          (if b then view s else serve v i (get_elem? (view s).waiting i) (view s))
          (answer_request v i o s)
  answering-Follows true i none s p e h = (p, refl)
  answering-Follows true i (some r) s p e h = absurd (ground arith)
  answering-Follows false i o s p e h =
      rw h (serve-Follows i _ _ s p e (get_elem?-waiting_in i s.client.request_id_to_completion))

  answer-Follows :
      (i : ℕ) (s : System)
      → IsPaired s
      → Follows (serve_nth v i (view s)) (answer_request v i (get_elem? s.outstanding i) s)
  answer-Follows i s p =
      answering-Follows s.client.worker_exited i (get_elem? s.outstanding i) s p refl
        (ap (λ rs. get_elem? rs i) p.paired)

  step-Follows :
      (e : Event) (s : System) → IsPaired s → Follows (direct_step v e (view s)) (step v e s)
  unfolding step direct_step
  step-Follows (calls call) s p = (call_thread-IsPaired call s p, view-call_thread call s p)
  step-Follows (destroys caller) s p = destroy_thread-Follows caller s p
  step-Follows (answers i) s p = answer-Follows i s p
  step-Follows exits s p = exit_thread-Follows s p

  steps-Follows :
      (es : List Event) (s : System)
      → IsPaired s
      → Follows (direct_steps v es (view s)) (steps v es s)
  unfolding steps direct_steps
  steps-Follows [] s p = (p, refl)
  steps-Follows (e ∷ es) s p =
      let f : Follows (direct_step v e (view s)) (step v e s) = step-Follows e s p in
      let g : Follows (direct_steps v es (view (step v e s))) (steps v es (step v e s)) =
        steps-Follows es (step v e s) f.0 in
      (g.0, g.1 ∙ ap (direct_steps v es) f.1)

  -- Whatever calls of a client are made, in whatever order the thread ends its requests, and whenever
  -- it exits: what the callers get is what they would get if the thread served their calls without
  -- messages and ids. Each is settled by the answer to its own input, and only once; those that wait
  -- when the thread exits are rejected, except after `destroy`. And no response is to an unknown
  -- request.
  pub steps-direct_steps :
      (es : List Event)
      → (view (steps v es new_system) ≡ direct_steps v es no_calls)
        × ((steps v es new_system).client.unknown ≡ false)
  steps-direct_steps es =
      let start : IsPaired new_system = record {
        issued = tt;
        unique = tt;
        paired = refl;
        known = refl;
      } in
      let f : Follows (direct_steps v es no_calls) (steps v es new_system) =
        steps-Follows es new_system start in
      (f.1, f.0.known)
