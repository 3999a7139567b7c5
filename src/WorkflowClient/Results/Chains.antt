-- ===== src/WorkflowClient/Results/Chains.antt =====
-- What `result` of packages/client/src/workflow-client.ts promises: the outcome of the last run of a
-- chain, however long the service makes it wait.
use temporalio_sdk_typescrip.Prelude.{
  ℕ, zero, suc, String, Option, none, some, Bool, true, false, List, [], ◌∷◌, ◌≡◌, ◌⊎◌, inl, inr,
  ◌≤◌, ◌<◌, Within, one_round, Bool-cases, refl, arith,
}
use temporalio_sdk_typescrip.Prelude.Checked.{Checked, valid, invalid}
use temporalio_sdk_typescrip.Failure.{Payload, ProtoCause}
use temporalio_sdk_typescrip.DataConverter.{
  DataConverter, decode_array_from_payloads, decode_optional_failure_to_optional_error,
}
use temporalio_sdk_typescrip.WorkflowClient.{workflow_continued_as_new, ServiceFailure, or_else}
use temporalio_sdk_typescrip.WorkflowClient.Results.{
  HistoryEvent, completed, failed, canceled, terminated_event, timed_out, continued_as_new,
  HistoryResponse, HistoryRequest, truthy, Outcome, Verdict, ask, finish, or_follow, first_result,
  failed_because, cancelled_with, terminated_for, timed_out_in, new_run, on_event, on_answer,
  on_verdict, result_loop, result,
}

-- A run that is not followed: none is there, or none is asked for.
abbrev pub Stays : Bool → Option String → Type 0
Stays follow run = (follow ≡ false) ⊎ (truthy run ≡ none)

module _ (d : DataConverter) (history : Option String → HistoryEvent) (follow : Bool) where
  -- The outcome of a run: what its own close event says, or the outcome of the run that follows it.
  pub data Settles : Option String → Outcome → Type 0 where
    returns :
        (run : Option String) (ps : Option (List Payload)) (next : Option String)
        → history run ≡ completed ps next
        → Stays follow next
        → Settles run (first_result (decode_array_from_payloads d ps))
    fails :
        (run : Option String) (f : ProtoCause) (state : Option ℕ) (next : Option String)
        → history run ≡ failed f state next
        → Stays follow next
        → Settles run
            (failed_because (or_else state 0) (decode_optional_failure_to_optional_error d f))
    is_cancelled :
        (run : Option String) (ps : Option (List Payload))
        → history run ≡ canceled ps
        → Settles run (cancelled_with (decode_array_from_payloads d ps))
    is_terminated :
        (run reason : Option String)
        → history run ≡ terminated_event reason
        → Settles run (terminated_for (or_else (truthy reason) "Workflow execution terminated"))
    times_out :
        (run : Option String) (state : Option ℕ) (next : Option String)
        → history run ≡ timed_out state next
        → Stays follow next
        → Settles run (timed_out_in (or_else state 0))
    is_continued :
        (run new : Option String) (next : String)
        → history run ≡ continued_as_new new
        → truthy new ≡ some next
        → follow ≡ false
        → Settles run
            (invalid (workflow_continued_as_new "Workflow execution continued as new" next))
    is_followed :
        (run new : Option String) (next : String) (o : Outcome) (ps : Option (List Payload))
        (f : ProtoCause) (state : Option ℕ)
        → (history run ≡ completed ps new)
          ⊎ ((history run ≡ failed f state new)
              ⊎ ((history run ≡ timed_out state new) ⊎ (history run ≡ continued_as_new new)))
        → truthy new ≡ some next
        → follow ≡ true
        → Settles (some next) o
        → Settles run o

  -- A page with no events, or with the close event of the run.
  abbrev IsEmptyPage : Option (List HistoryEvent) → Type 0
  IsEmptyPage events = (events ≡ none) ⊎ (events ≡ some [])

  -- The service answers a long poll for a run with an empty page or with its close event, and not
  -- with empty pages for ever: `patience` falls with each of them.
  pub record Serves (serve : ℕ → HistoryRequest → Checked ServiceFailure HistoryResponse)
      (patience : ℕ → ℕ) : Type 0 where
    pub answers :
        (n : ℕ) (q : HistoryRequest)
        → ((events : Option (List HistoryEvent)) × (token : Option ℕ) × IsEmptyPage events
            × (serve n q ≡ valid (record { events = events; next_page_token = token }))
            × (patience (suc n) < patience n))
          ⊎ ((token : Option ℕ) × (serve n q
                ≡ valid
                    (record { events = some (history q.run_id ∷ []); next_page_token = token })))

  module _ (serve : ℕ → HistoryRequest → Checked ServiceFailure HistoryResponse) (patience : ℕ → ℕ)
      (s : Serves serve patience) (workflow_id : String) (run_id : Option String) where
    abbrev loop : ℕ → ℕ → HistoryRequest → Option Outcome
    loop fuel n q = result_loop d serve workflow_id run_id follow fuel n q

    abbrev after_event : ℕ → HistoryRequest → ℕ → Option Outcome
    after_event n q fuel =
        on_verdict (λ next. loop fuel n next)
          (on_event d serve workflow_id run_id follow q (history q.run_id))

    unroll :
        (n : ℕ) (q : HistoryRequest) (o : Outcome) (v : Verdict)
        → on_answer d serve workflow_id run_id follow q (serve n q) ≡ v
        → Within (λ fuel. on_verdict (λ next. loop fuel (suc n) next) v) o
        → Within (λ fuel. loop fuel n q) o
    unfolding result_loop
    unroll n q o v e g =
        one_round (λ fuel. loop fuel n q) (λ fuel. on_verdict (λ next. loop fuel (suc n) next) v) o
          (λ f. rw e refl) g

    blank :
        (q : HistoryRequest) (events : Option (List HistoryEvent)) (t : Option ℕ)
        → IsEmptyPage events
        → on_answer d serve workflow_id run_id follow q
            (valid (record { events = events; next_page_token = t }))
          ≡ ask (record q { next_page_token = t })
    blank q events t (inl e) = rw e refl
    blank q events t (inr e) = rw e refl

    -- Waiting through empty pages.
    wait :
        (k n : ℕ) (q : HistoryRequest) (o : Outcome)
        → patience n < k
        → ((m : ℕ) (t : Option ℕ) → Within (after_event m (record q { next_page_token = t })) o)
        → Within (λ fuel. loop fuel n q) o
    wait zero n q o h g = absurd (omega arith)
    wait (suc k) n q o h g = elim (s.answers n q) [
      | inl (events, t, empty, e, l) ↦
          unroll n q o (ask (record q { next_page_token = t })) (rw e (blank q events t empty))
            (wait k (suc n) (record q { next_page_token = t }) o (omega arith) g)
      | inr (t, e) ↦
          unroll n q o (on_event d serve workflow_id run_id follow q (history q.run_id)) (rw e refl)
            (g (suc n) q.next_page_token)
    ]

    stays :
        (next : Option String) (o : Outcome)
        → Stays follow next
        → or_follow follow (truthy next) o ≡ finish o
    stays next o (inl e) = rw e refl
    stays next o (inr e) = elim (Bool-cases follow) [
      | inl k ↦ rw (e, k) refl
      | inr k ↦ rw (e, k) refl
    ]

    ends :
        (m : ℕ) (o : Outcome) (v : Verdict)
        → v ≡ finish o
        → Within (λ fuel. on_verdict (λ next. loop fuel m next) v) o
    ends m o v e = (0, λ fuel l. rw e refl)

    goes_on :
        (m : ℕ) (next : String) (o : Outcome) (v : Verdict)
        → v ≡ ask (new_run next)
        → Within (λ fuel. loop fuel m (new_run next)) o
        → Within (λ fuel. on_verdict (λ q. loop fuel m q) v) o
    goes_on m next o v e (b, p) = (b, λ fuel l. rw e (p fuel l))

    followed :
        (run : Option String) (t : Option ℕ) (new : Option String) (next : String)
        (ps : Option (List Payload)) (f : ProtoCause) (state : Option ℕ)
        → (history run ≡ completed ps new)
          ⊎ ((history run ≡ failed f state new)
              ⊎ ((history run ≡ timed_out state new) ⊎ (history run ≡ continued_as_new new)))
        → truthy new ≡ some next
        → follow ≡ true
        → on_event d serve workflow_id run_id follow
            (record { run_id = run; next_page_token = t })
            (history run)
          ≡ ask (new_run next)
    unfolding on_event
    followed run t new next ps f state (inl e) u y = rw (e, u, y) refl
    followed run t new next ps f state (inr (inl e)) u y = rw (e, u, y) refl
    followed run t new next ps f state (inr (inr (inl e))) u y = rw (e, u, y) refl
    followed run t new next ps f state (inr (inr (inr e))) u y = rw (e, u, y) refl

    settle :
        (run : Option String) (o : Outcome)
        → Settles run o
        → (m : ℕ) (t : Option ℕ)
        → Within (after_event m (record { run_id = run; next_page_token = t })) o
    unfolding on_event
    settle run o (returns _ ps next e n) m t = ends m _ _ (rw e (stays next _ n))
    settle run o (fails _ f state next e n) m t = ends m _ _ (rw e (stays next _ n))
    settle run o (is_cancelled _ ps e) m t = ends m _ _ (rw e refl)
    settle run o (is_terminated _ reason e) m t = ends m _ _ (rw e refl)
    settle run o (times_out _ state next e n) m t = ends m _ _ (rw e (stays next _ n))
    settle run o (is_continued _ new next e u n) m t = ends m _ _ (rw (e, u, n) refl)
    settle run o (is_followed _ new next _ ps f state e u y c) m t =
        goes_on m next o _ (followed _ t new next ps f state e u y)
          (wait (suc (patience m)) m (new_run next) o (omega arith) (settle (some next) o c))

    -- Let each run of a workflow have its close event, and let the service answer a request for a run
    -- with an empty page or with that event, never with empty pages for ever. Then `result` returns,
    -- and what it returns is the outcome of the run, or, if new runs are followed, of the run that
    -- the chain leads to: the decoded value, or the error of the way in which that run was closed.
    pub result-Settles :
        (o : Outcome)
        → Settles run_id o
        → (bound : ℕ) × ((fuel : ℕ)
            → bound ≤ fuel
            → result d serve workflow_id run_id follow fuel ≡ some o)
    result-Settles o h =
        wait (suc (patience 0)) 0 (record { run_id = run_id; next_page_token = none }) o
          (omega arith) (settle run_id o h)
