-- ===== src/Retry/Laws.antt =====
-- What packages/common/src/retry-policy.ts accepts, and what survives the round trip.
use temporalio_sdk_typescrip.Prelude.{
  ℕ, ◌<◌, ◌≤◌, ◌^◌, ◌≡◌, ◌≢◌, ◌⊎◌, Option, none, some, String, false, arith, ℤ, pos, negsuc, inl,
  inr, refl, List, ◌≤ℤ◌,
}
use temporalio_sdk_typescrip.Prelude.Checked.{valid, ◌>>=◌}
use temporalio_sdk_typescrip.Time.{
  Packages, millis, ms_number_to_ts, ms_to_ts, ms_optional_to_ts, optional_ts_to_ms,
}
use temporalio_sdk_typescrip.Time.Laws.{IsExact, ts_to_ms-ms_number_to_ts}
use temporalio_sdk_typescrip.Retry.{
  RetryPolicy, ProtoRetryPolicy, JsNumber, int, between_next, infinity, neg_infinity, nan, le_zero,
  compile_retry_policy, decompile_retry_policy,
}

abbrev pub plain : (attempts initial maximum b : ℕ) (names : Option (List String)) → RetryPolicy
plain attempts initial maximum b names = record {
  backoff_coefficient = some (int (pos b));
  initial_interval = some (millis (pos initial));
  maximum_attempts = some (int (pos attempts));
  maximum_interval = some (millis (pos maximum));
  non_retryable_error_types = names;
}

abbrev compiled :
    (ms : Packages) (attempts initial maximum b : ℕ) (names : Option (List String))
    → ProtoRetryPolicy
compiled ms attempts initial maximum b names = record {
  maximum_attempts = some (int (pos attempts));
  initial_interval = some (ms_number_to_ts ms (pos initial));
  maximum_interval = some (ms_number_to_ts ms (pos maximum));
  backoff_coefficient = some (int (pos b));
  non_retryable_error_types = names;
}

compile_plain :
    (ms : Packages) (attempts initial maximum b : ℕ) (names : Option (List String))
    → 0 < attempts
    → 0 < b
    → 0 < initial
    → initial ≤ maximum
    → compile_retry_policy ms (plain attempts initial maximum b names)
      ≡ valid (compiled ms attempts initial maximum b names)
unfolding compile_retry_policy ms_to_ts ms_optional_to_ts
compile_plain ms attempts initial maximum b names ha hb hi hm = ground arith

decompile_compiled :
    (ms : Packages)
    → IsExact ms
    → (attempts initial maximum b : ℕ) (names : Option (List String)) → initial < 2 ^ 53
    → maximum < 2 ^ 53
    → decompile_retry_policy ms (some (compiled ms attempts initial maximum b names))
      ≡ valid (some (plain attempts initial maximum b names))
unfolding decompile_retry_policy optional_ts_to_ms
decompile_compiled ms x attempts initial maximum b names hi hm =
    ground (arith, ts_to_ms-ms_number_to_ts ms x initial, ts_to_ms-ms_number_to_ts ms x maximum)

-- A policy with positive whole attempts, coefficient and initial interval, and a maximal interval from
-- the initial one to below 2^53 milliseconds, is compiled, and decompiling the result gives it back, if the
-- package `long` is exact on 64 bits.
pub decompile-compile_retry_policy :
    (ms : Packages)
    → IsExact ms
    → (attempts initial maximum b : ℕ) (names : Option (List String)) → 0 < attempts
    → 0 < b
    → 0 < initial
    → initial ≤ maximum
    → maximum < 2 ^ 53
    → let p = plain attempts initial maximum b names in
      (compile_retry_policy ms p >>= λ q. decompile_retry_policy ms (some q)) ≡ valid (some p)
decompile-compile_retry_policy ms x attempts initial maximum b names ha hb hi hm bound = ground (
  arith,
  compile_plain ms attempts initial maximum b names,
  decompile_compiled ms x attempts initial maximum b names,
)

-- x > 0.
abbrev pub IsPositive : JsNumber → Type 0
IsPositive (int (pos n)) = 0 < n
IsPositive (int (negsuc n)) = ⊥
IsPositive (between_next (pos n)) = Unit {0}
IsPositive (between_next (negsuc n)) = ⊥
IsPositive infinity = Unit {0}
IsPositive neg_infinity = ⊥
IsPositive nan = ⊥

positive_lem : (x : JsNumber) → le_zero x ≡ false → (x ≡ nan) ⊎ IsPositive x
positive_lem (int (pos n)) h = inr (ground arith)
positive_lem (int (negsuc n)) h = absurd (ground arith)
positive_lem (between_next (pos n)) h = inr tt
positive_lem (between_next (negsuc n)) h = absurd (ground arith)
positive_lem infinity h = inr tt
positive_lem neg_infinity h = absurd (ground arith)
positive_lem nan h = inl refl

-- What the server may rely on.
pub record IsSound (ms : Packages) (p : RetryPolicy) (q : ProtoRetryPolicy) : Type 0 where
  pub attempts_positive :
      (x : JsNumber) → q.maximum_attempts ≡ some x → (n : ℕ) × (x ≡ int (pos n)) × (0 < n)
  pub attempts_dropped :
      q.maximum_attempts ≡ none → (p.maximum_attempts ≡ none) ⊎ (p.maximum_attempts ≡ some infinity)
  pub coefficient_positive :
      (x : JsNumber) → q.backoff_coefficient ≡ some x → (x ≡ nan) ⊎ IsPositive x
  pub same_coefficient : q.backoff_coefficient ≡ p.backoff_coefficient
  pub intervals :
      (m : ℤ)
      → p.maximum_interval ≡ some (millis m)
      → (i : ℤ) → p.initial_interval ≡ some (millis i)
      → (i ≤ℤ m)
        × (m ≢ pos 0)
        × (i ≢ pos 0)
        × (q.maximum_interval ≡ some (ms_number_to_ts ms m))
        × (q.initial_interval ≡ some (ms_number_to_ts ms i))

-- Whatever policy is accepted: the attempts that are sent are a positive whole number, and are left
-- out only if the policy has none or infinitely many; the coefficient is sent as it is, and is
-- positive or NaN; intervals that are given as numbers are sent as these times, are not zero, and the initial
-- one is at most the maximal one.
pub compile_retry_policy-IsSound :
    (ms : Packages) (p : RetryPolicy) (q : ProtoRetryPolicy)
    → compile_retry_policy ms p ≡ valid q
    → IsSound ms p q
unfolding compile_retry_policy ms_to_ts ms_optional_to_ts
compile_retry_policy-IsSound ms p q h = record {
  attempts_positive = λ x e. ground arith;
  attempts_dropped = λ e. ground arith;
  coefficient_positive = λ x e. positive_lem x (ground arith);
  same_coefficient = ground arith;
  intervals = λ m e i f. ground arith;
}
