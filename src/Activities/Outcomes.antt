-- ===== src/Activities/Outcomes.antt =====
-- How an activity ends, packages/worker/src/activity.ts.
use temporalio_sdk_typescrip.Prelude.{
  Option, none, some, true, ◌||◌, ◌≡◌, ◌≢◌, inl, inr, refl, Option-cases, arith,
}
use temporalio_sdk_typescrip.Failure.{ProtoFailure, JsError, is_cancelled_failure}
use temporalio_sdk_typescrip.DataConverter.{encode_to_payload}
use temporalio_sdk_typescrip.Activities.{
  CancelReason, core_reason, worker_shutdown, heartbeat_details_conversion_failed, Activity, Ending,
  returned, complete_async, threw, completed, cancelled_result, is_abort_error, as_failure,
  failed_with, Surroundings, run_result,
}

-- The error that ends a run, if one does: the function's, or that of a value that is not encoded.
abbrev pub EndsBy : Surroundings → Ending → JsError → Type 0
EndsBy s (returned v) e = (encode_to_payload s.data_converter v ≡ none) × (e ≡ s.encoding_error)
EndsBy s complete_async e = ⊥
EndsBy s (threw x) e = e ≡ x

module _ (s : Surroundings) where
  never_cancelled :
      (o : Option ProtoFailure) (f : ProtoFailure) → as_failure s o ≢ some (cancelled_result f)
  never_cancelled o f h = ground arith

  failed_with-cancelled :
      (r : Option CancelReason) (e : JsError) (f : ProtoFailure)
      → failed_with s r e ≡ some (cancelled_result f)
      → (reason : CancelReason) × (r ≡ some reason)
        × (reason ≢ heartbeat_details_conversion_failed)
        × ((is_cancelled_failure e || is_abort_error e) ≡ true)
  failed_with-cancelled none e f h = ground arith
  failed_with-cancelled (some (core_reason n)) e f h =
      (core_reason n, refl, ground arith, ground arith)
  failed_with-cancelled (some worker_shutdown) e f h =
      (worker_shutdown, refl, ground arith, ground arith)
  failed_with-cancelled (some heartbeat_details_conversion_failed) e f h = ground arith

  -- An activity is reported as cancelled only if its cancellation was requested, for another reason
  -- than heartbeat details that could not be converted, and it ended with a `CancelledFailure` or an
  -- `AbortError`. An activity that throws one of these unasked has failed.
  pub run_result-cancelled :
      (a : Activity) (ending : Ending) (f : ProtoFailure)
      → run_result s a ending ≡ some (cancelled_result f)
      → (reason : CancelReason) × (e : JsError) × (a.cancel_reason ≡ some reason)
        × (reason ≢ heartbeat_details_conversion_failed)
        × EndsBy s ending e
        × ((is_cancelled_failure e || is_abort_error e) ≡ true)
  unfolding run_result
  run_result-cancelled a (returned v) f h =
      elim (Option-cases (encode_to_payload s.data_converter v)) [
        | inl e ↦
            let by : failed_with s a.cancel_reason s.encoding_error ≡ some (cancelled_result f) =
              rw e at h in
            let (reason, q, n, c) = failed_with-cancelled a.cancel_reason s.encoding_error f by in
            (reason, s.encoding_error, q, n, (e, refl), c)
        | inr (p, e) ↦
            let other : some (completed p) ≡ some (cancelled_result f) = rw e at h in ground arith
      ]
  run_result-cancelled a complete_async f h = ground arith
  run_result-cancelled a (threw x) f h =
      let (reason, q, n, c) = failed_with-cancelled a.cancel_reason x f h in
      (reason, x, q, n, refl, c)
