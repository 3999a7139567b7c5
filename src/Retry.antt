-- ===== src/Retry.antt =====
-- Retry policies: packages/common/src/retry-policy.ts.
pub mod Laws
mod Examples
use temporalio_sdk_typescrip.Prelude.{
  ℕ, String, Option, none, some, Bool, true, false, ◌&&◌, if◌then◌else◌, List, ℤ, pos, negsuc,
  ltb_ℤ, leb_ℤ, ◌==◌,
}
use temporalio_sdk_typescrip.Prelude.Checked.{Checked, valid, invalid, ◌>>=◌, ◌>>◌}
use temporalio_sdk_typescrip.Time.{
  Packages, Duration, millis, TimeError, Timestamp, ms_to_number, ms_to_ts, ms_optional_to_ts,
  ms_optional_to_number, optional_ts_to_ms,
}

-- A JavaScript number, as far as the code tells two apart: an integer, a fraction that lies
-- strictly between an integer and the next, an infinity or NaN.
pub data JsNumber : Type 0 where
  int between_next : ℤ → JsNumber
  infinity neg_infinity nan : JsNumber

-- x <= 0. A fraction above z is positive exactly when z is not negative.
abbrev pub le_zero : JsNumber → Bool
le_zero (int z) = leb_ℤ z (pos 0)
le_zero (between_next z) = ltb_ℤ z (pos 0)
le_zero infinity = false
le_zero neg_infinity = true
le_zero nan = false

abbrev pub is_integer : JsNumber → Bool
is_integer (int z) = true
is_integer _ = false

pub record RetryPolicy : Type 0 where
  pub backoff_coefficient : Option JsNumber
  pub initial_interval : Option Duration
  pub maximum_attempts : Option JsNumber
  pub maximum_interval : Option Duration
  pub non_retryable_error_types : Option (List String)

-- temporal.api.common.v1.IRetryPolicy
pub record ProtoRetryPolicy : Type 0 where
  pub maximum_attempts : Option JsNumber
  pub initial_interval : Option Timestamp
  pub maximum_interval : Option Timestamp
  pub backoff_coefficient : Option JsNumber
  pub non_retryable_error_types : Option (List String)

pub data RetryError : Type 0 where
  backoff_not_positive attempts_not_positive attempts_not_integer maximum_interval_zero
        initial_interval_zero maximum_below_initial :
      RetryError
  bad_time : TimeError → RetryError

-- `if (bad) throw new ValueError(...)`
abbrev throw_if : Bool → RetryError → Checked RetryError (Unit {0})
throw_if true e = invalid e
throw_if false e = valid tt

abbrev lift {ℓ} : {A : Type ℓ} → Checked TimeError A → Checked RetryError A
lift (valid a) = valid a
lift (invalid e) = invalid (bad_time e)

abbrev option_or {ℓ} : {A : Type ℓ} → Option A → A → A
option_or none d = d
option_or (some a) d = a

abbrev opt_le_zero : Option JsNumber → Bool
opt_le_zero none = false
opt_le_zero (some x) = le_zero x

-- The attempts that are sent: an infinite maximum is dropped, as it is the default.
abbrev check_attempts : Option JsNumber → Checked RetryError (Option JsNumber)
check_attempts none = valid none
check_attempts (some infinity) = valid none
check_attempts (some x) =
    if le_zero x
    then invalid attempts_not_positive
    else if is_integer x
    then valid (some x)
    else invalid attempts_not_integer

abbrev is_zero : ℤ → Bool
is_zero (pos n) = n == 0
is_zero (negsuc n) = false

abbrev opt_is_zero : Option ℤ → Bool
opt_is_zero none = false
opt_is_zero (some z) = is_zero z

abbrev opt_lt : Option ℤ → ℤ → Bool
opt_lt none z = false
opt_lt (some y) z = ltb_ℤ y z

abbrev opt_millis : Option ℤ → Option Duration
opt_millis none = none
opt_millis (some z) = some (millis z)

module _ (ms : Packages) where
  unfoldable pub compile_retry_policy : RetryPolicy → Checked RetryError ProtoRetryPolicy
  unfolding ms_optional_to_number ms_to_number
  compile_retry_policy p = do
    throw_if (opt_le_zero p.backoff_coefficient) backoff_not_positive
    attempts ← check_attempts p.maximum_attempts
    maximum ← lift (ms_optional_to_number ms p.maximum_interval)
    initial ← lift (ms_to_number ms (option_or p.initial_interval (millis (pos 1000))))
    throw_if (opt_is_zero maximum) maximum_interval_zero
    throw_if (is_zero initial) initial_interval_zero
    throw_if (opt_lt maximum initial) maximum_below_initial
    initial_ts ← lift (ms_to_ts ms (millis initial))
    maximum_ts ← lift (ms_optional_to_ts ms (opt_millis maximum))
    valid (record {
      maximum_attempts = attempts;
      initial_interval = some initial_ts;
      maximum_interval = maximum_ts;
      backoff_coefficient = p.backoff_coefficient;
      non_retryable_error_types = p.non_retryable_error_types;
    })

  unfoldable pub decompile_retry_policy :
      Option ProtoRetryPolicy → Checked RetryError (Option RetryPolicy)
  decompile_retry_policy none = valid none
  decompile_retry_policy (some p) = do
    maximum ← lift (optional_ts_to_ms ms p.maximum_interval)
    initial ← lift (optional_ts_to_ms ms p.initial_interval)
    valid (
        some (record {
          backoff_coefficient = p.backoff_coefficient;
          initial_interval = opt_millis initial;
          maximum_attempts = p.maximum_attempts;
          maximum_interval = opt_millis maximum;
          non_retryable_error_types = p.non_retryable_error_types;
        }))
