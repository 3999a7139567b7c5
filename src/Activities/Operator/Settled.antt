-- ===== src/Activities/Operator/Settled.antt =====
-- The number of activities in flight, packages/worker/src/worker.ts.
use temporalio_sdk_typescrip.Prelude.{
  ℕ, String, Option, none, some, List, length, ◌≡◌, refl, sym, ◌∙◌, lookup, nat_key, string_key,
  IsUnique, length-insert_new, length-insert_old, length-remove, insert-IsUnique, remove-IsUnique,
  Option-cases, inl, inr, arith,
}
use temporalio_sdk_typescrip.Failure.{Value}
use temporalio_sdk_typescrip.DataConverter.{decode_array_from_payloads, decode_from_payloads_at_0}
use temporalio_sdk_typescrip.Activities.{
  CancelReason, heartbeat_details_conversion_failed, Activity, new_activity, cancel,
  ExecutionResult, completed, failed, cancelled_result, will_complete_async, Surroundings,
  run_result,
}
use temporalio_sdk_typescrip.Activities.Operator.{
  StartTask, start, cancel_task, no_variant, Activities, reason_of, on_cancel, on_flushed,
  run_activity, on_start, with_result, ended, on_task, Event, task, ends, details_refused, flushed,
  on_event,
}

-- The activities that run are counted, and each has its own token.
abbrev pub IsSettled : Activities → Type 0
IsSettled w = IsUnique w.running × (w.in_flight ≡ length w.running)

module _ (s : Surroundings) (activities : List (String × ℕ)) where
  IsSettled-on_cancel :
      (token : ℕ) (r : Option CancelReason) (o : Option Activity) (w : Activities)
      → lookup token w.running ≡ o
      → IsSettled w
      → IsSettled (on_cancel token r o w)
  IsSettled-on_cancel token r none w e h = h
  IsSettled-on_cancel token r (some a) w e (u, n) = (
    insert-IsUnique token (cancel r a) w.running u,
    n ∙ sym (length-insert_old token (cancel r a) a w.running e),
  )

  IsSettled-run_activity :
      (token fn : ℕ) (arguments : List Value) (w : Activities)
      → lookup token w.running ≡ none
      → IsSettled w
      → IsSettled (run_activity s activities token fn arguments w)
  IsSettled-run_activity token fn arguments w e (u, n) = (
    insert-IsUnique token (new_activity fn arguments) w.running u,
    omega (arith, n, length-insert_new token (new_activity fn arguments) w.running e),
  )

  IsSettled-on_start :
      (token : ℕ) (k : StartTask) (o : Option Activity) (w : Activities)
      → lookup token w.running ≡ o
      → IsSettled w
      → IsSettled (on_start s activities token k o w)
  IsSettled-on_start token k (some a) w e h = h
  IsSettled-on_start token k none w e h =
      elim (Option-cases (decode_from_payloads_at_0 s.data_converter k.heartbeat_details)) [
        | inl f ↦ rw f h
        | inr (details, f) ↦ elim (Option-cases (lookup k.activity_type activities)) [
          | inl g ↦ rw (f, g) h
          | inr (fn, g) ↦
              elim (Option-cases (decode_array_from_payloads s.data_converter k.input)) [
                | inl i ↦ rw (f, g, i) h
                | inr (arguments, i) ↦
                    rw (f, g, i) (IsSettled-run_activity token fn arguments w e h)
              ]
        ]
      ]

  IsSettled-with_result :
      (token : ℕ) (o : Option ExecutionResult) (w : Activities)
      → IsSettled w
      → IsSettled (with_result token o w)
  IsSettled-with_result token none w h = h
  IsSettled-with_result token (some (completed p)) w h = h
  IsSettled-with_result token (some (failed f)) w h = h
  IsSettled-with_result token (some (cancelled_result f)) w h = h
  IsSettled-with_result token (some will_complete_async) w h = h

  IsSettled-on_flushed : (token : ℕ) (w : Activities) → IsSettled w → IsSettled (on_flushed token w)
  IsSettled-on_flushed token w h = elim (Option-cases (lookup token w.flushing)) [
    | inl e ↦ rw e h
    | inr (r, e) ↦ rw e h
  ]

  pub IsSettled-on_event :
      (x : Event) (w : Activities) → IsSettled w → IsSettled (on_event s activities x w)
  unfolding on_event on_task
  IsSettled-on_event (task token (start k)) w h =
      IsSettled-on_start token k (lookup token w.running) w refl h
  IsSettled-on_event (task token (cancel_task r)) w h =
      IsSettled-on_cancel token (reason_of s activities r) (lookup token w.running) w refl h
  IsSettled-on_event (task token no_variant) w h = h
  IsSettled-on_event (ends token e) w (u, n) = elim (Option-cases (lookup token w.running)) [
    | inl f ↦ rw f (u, n)
    | inr (a, f) ↦ rw f (
        IsSettled-with_result token (run_result s a e) (ended token w) (
          remove-IsUnique token w.running u,
          omega (arith, n, length-remove token w.running a u f),
        ))
  ]
  IsSettled-on_event (details_refused token) w h =
      IsSettled-on_cancel token (some heartbeat_details_conversion_failed) (lookup token w.running)
        w refl h
  IsSettled-on_event (flushed token) w h = IsSettled-on_flushed token w h
