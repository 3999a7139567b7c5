-- ===== src/Retry/Examples.antt =====
-- Examples of compiled retry policies.
use temporalio_sdk_typescrip.Prelude.{◌≡◌, refl, none, some, [], ◌∷◌, arith, pos}
use temporalio_sdk_typescrip.Prelude.Checked.{valid, ◌>>=◌}
use temporalio_sdk_typescrip.Time.{millis, ms_number_to_ts, ms_to_ts, ms_optional_to_ts}
use temporalio_sdk_typescrip.Time.Fixed.{fixed, fixed-IsExact}
use temporalio_sdk_typescrip.Retry.{
  RetryPolicy, ProtoRetryPolicy, int, infinity, compile_retry_policy, decompile_retry_policy,
}
use temporalio_sdk_typescrip.Retry.Laws.{
  plain, decompile-compile_retry_policy, IsSound, compile_retry_policy-IsSound,
}

decompile-compile_retry_policy_example :
    let p = plain 5 100 3000 2 (some ("Fatal" ∷ [])) in
    (compile_retry_policy fixed p >>= λ q. decompile_retry_policy fixed (some q)) ≡ valid (some p)
decompile-compile_retry_policy_example =
    decompile-compile_retry_policy fixed fixed-IsExact 5 100 3000 2 (some ("Fatal" ∷ []))
      (omega arith) (omega arith) (omega arith) (omega arith) (omega arith)

abbrev forever : RetryPolicy
forever = record {
  backoff_coefficient = some (int (pos 2));
  initial_interval = some (millis (pos 100));
  maximum_attempts = some infinity;
  maximum_interval = some (millis (pos 1500));
  non_retryable_error_types = none;
}

abbrev sent : ProtoRetryPolicy
sent = record {
  backoff_coefficient = some (int (pos 2));
  initial_interval = some (ms_number_to_ts fixed (pos 100));
  maximum_attempts = none;
  maximum_interval = some (ms_number_to_ts fixed (pos 1500));
  non_retryable_error_types = none;
}

compiled_forever : compile_retry_policy fixed forever ≡ valid sent
unfolding compile_retry_policy ms_to_ts ms_optional_to_ts
compiled_forever = refl

compile_retry_policy-IsSound_example : IsSound fixed forever sent
compile_retry_policy-IsSound_example =
    compile_retry_policy-IsSound fixed forever sent compiled_forever
