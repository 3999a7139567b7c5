-- ===== src/Activities/Operator/Counting.antt =====
-- How each event of activities changes what a token has to show for its starts, packages/worker/src/worker.ts.
use temporalio_sdk_typescrip.Prelude.{
  ℕ, ◌+◌, String, Option, none, some, is_some, if◌then◌else◌, List, [], ◌∷◌, ◌≡◌, ◌==◌, refl,
  lookup, nat_key, string_key, count, count-append, count-remove_first, lookup-insert,
  lookup-remove, Option-cases, inl, inr, arith, ==_iff,
}
use temporalio_sdk_typescrip.Failure.{Value}
use temporalio_sdk_typescrip.DataConverter.{decode_array_from_payloads, decode_from_payloads_at_0}
use temporalio_sdk_typescrip.Activities.{
  CancelReason, heartbeat_details_conversion_failed, Activity, new_activity, cancel,
  ExecutionResult, completed, failed, cancelled_result, will_complete_async, Surroundings,
  run_result,
}
use temporalio_sdk_typescrip.Activities.Operator.{
  StartTask, start, cancel_task, no_variant, info_not_decoded, Activities, emit, reason_of,
  on_cancel, on_flushed, run_activity, with_function, on_start, with_result, ended, on_task, Event,
  task, ends, details_refused, flushed, on_event,
}

-- The tasks that start an activity, for a token.
abbrev pub starts_in : ℕ → Event → ℕ
starts_in t (task token (start s)) = if token == t then 1 else 0
starts_in t (task token (cancel_task r)) = 0
starts_in t (task token no_variant) = 0
starts_in t (ends token e) = 0
starts_in t (details_refused token) = 0
starts_in t (flushed token) = 0

abbrev pub starts : ℕ → List Event → ℕ
starts t [] = 0
starts t (x ∷ xs) = starts_in t x + starts t xs

-- The starts of a token that are running, waiting for a heartbeat, or answered.
abbrev pub accounted : ℕ → Activities → ℕ
accounted t w =
    (if is_some (lookup t w.running) then 1 else 0) + (count t w.flushing + count t w.completions)

-- One, if the tokens are the same.
abbrev one_if : ℕ → ℕ → ℕ
one_if token t = if token == t then 1 else 0

accounted-emit :
    (t token : ℕ) (r : ExecutionResult) (w : Activities)
    → accounted t (emit token r w) ≡ one_if token t + accounted t w
accounted-emit t token r w = omega (arith, count-append t w.completions ((token, r) ∷ []))

accounted-on_cancel :
    (t token : ℕ) (r : Option CancelReason) (o : Option Activity) (w : Activities)
    → lookup token w.running ≡ o
    → accounted t (on_cancel token r o w) ≡ accounted t w
accounted-on_cancel t token r none w e = refl
accounted-on_cancel t token r (some a) w e =
    ground (arith, lookup-insert token t (cancel r a) w.running, ==_iff token t)

accounted-on_flushed :
    (t token : ℕ) (w : Activities) → accounted t (on_flushed token w) ≡ accounted t w
accounted-on_flushed t token w = elim (Option-cases (lookup token w.flushing)) [
  | inl e ↦ rw e refl
  | inr (r, e) ↦ rw e (
      omega (
        arith,
        count-append t w.completions ((token, r) ∷ []),
        count-remove_first token t w.flushing r e,
      ))
]

module _ (s : Surroundings) (activities : List (String × ℕ)) where
  accounted-run_activity :
      (t token fn : ℕ) (arguments : List Value) (w : Activities)
      → lookup token w.running ≡ none
      → accounted t (run_activity s activities token fn arguments w)
        ≡ one_if token t + accounted t w
  accounted-run_activity t token fn arguments w e =
      ground (arith, lookup-insert token t (new_activity fn arguments) w.running, ==_iff token t)

  accounted-with_function :
      (t token : ℕ) (k : StartTask) (o : Option ℕ) (w : Activities)
      → lookup token w.running ≡ none
      → accounted t (with_function s activities token k o w) ≡ one_if token t + accounted t w
  accounted-with_function t token k none w e = accounted-emit t token _ w
  accounted-with_function t token k (some fn) w e =
      elim (Option-cases (decode_array_from_payloads s.data_converter k.input)) [
        | inl f ↦ rw f (accounted-emit t token _ w)
        | inr (arguments, f) ↦ rw f (accounted-run_activity t token fn arguments w e)
      ]

  accounted-on_start :
      (t token : ℕ) (k : StartTask) (o : Option Activity) (w : Activities)
      → lookup token w.running ≡ o
      → (on_start s activities token k o w).fatal ≡ none
      → accounted t (on_start s activities token k o w) ≡ one_if token t + accounted t w
  accounted-on_start t token k (some a) w e h = ground arith
  accounted-on_start t token k none w e h =
      elim (Option-cases (decode_from_payloads_at_0 s.data_converter k.heartbeat_details)) [
        | inl f ↦ let broken : some info_not_decoded ≡ none = rw f at h in ground arith
        | inr (details, f) ↦
            rw f (accounted-with_function t token k (lookup k.activity_type activities) w e)
      ]

  accounted-with_result :
      (t token : ℕ) (o : Option ExecutionResult) (w : Activities)
      → (with_result token o w).fatal ≡ none
      → accounted t (with_result token o w) ≡ one_if token t + accounted t w
  accounted-with_result t token none w h = ground arith
  accounted-with_result t token (some (completed p)) w h = accounted-emit t token (completed p) w
  accounted-with_result t token (some (failed f)) w h =
      omega (arith, count-append t w.flushing ((token, failed f) ∷ []))
  accounted-with_result t token (some (cancelled_result f)) w h =
      accounted-emit t token (cancelled_result f) w
  accounted-with_result t token (some will_complete_async) w h =
      accounted-emit t token will_complete_async w

  accounted-ended :
      (t token : ℕ) (a : Activity) (w : Activities)
      → lookup token w.running ≡ some a
      → accounted t w ≡ one_if token t + accounted t (ended token w)
  accounted-ended t token a w e = ground (arith, lookup-remove token t w.running, ==_iff token t)

  pub accounted-on_event :
      (t : ℕ) (x : Event) (w : Activities)
      → (on_event s activities x w).fatal ≡ none
      → accounted t (on_event s activities x w) ≡ starts_in t x + accounted t w
  unfolding on_event on_task
  accounted-on_event t (task token (start k)) w h =
      accounted-on_start t token k (lookup token w.running) w refl h
  accounted-on_event t (task token (cancel_task r)) w h = omega (
    arith,
    accounted-on_cancel t token (reason_of s activities r) (lookup token w.running) w refl,
  )
  accounted-on_event t (task token no_variant) w h = ground arith
  accounted-on_event t (ends token e) w h = elim (Option-cases (lookup token w.running)) [
    | inl f ↦ rw f (omega arith)
    | inr (a, f) ↦
        let kept : (with_result token (run_result s a e) (ended token w)).fatal ≡ none =
          rw f at h in
        rw f (
          omega (
            arith,
            accounted-with_result t token (run_result s a e) (ended token w) kept,
            accounted-ended t token a w f,
          ))
  ]
  accounted-on_event t (details_refused token) w h = omega (
    arith,
    accounted-on_cancel t token (some heartbeat_details_conversion_failed) (lookup token w.running)
        w refl,
  )
  accounted-on_event t (flushed token) w h = omega (arith, accounted-on_flushed t token w)
