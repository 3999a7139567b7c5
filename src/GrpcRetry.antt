-- ===== src/GrpcRetry.antt =====
-- Retries of gRPC calls: packages/client/src/grpc-retry.ts. Intervals, factors and attempts are whole
-- numbers; the largest jitter is in thousandths. A status is its code.
pub mod Attempts
mod Examples
use temporalio_sdk_typescrip.Prelude.{
  ℕ, zero, suc, ◌+◌, ◌*◌, ◌^◌, ℤ, sub_ℕ, ◌*ℤ◌, Option, none, some, Bool, true, false, if◌then◌else◌,
  ◌&&◌, ◌||◌, ◌==◌, ltb, leb, List, [], ◌∷◌, any,
}

-- The codes of @grpc/grpc-js.
abbrev pub unknown : ℕ
unknown = 2

abbrev pub resource_exhausted : ℕ
resource_exhausted = 8

abbrev pub aborted : ℕ
aborted = 10

abbrev pub out_of_range : ℕ
out_of_range = 11

abbrev pub unavailable : ℕ
unavailable = 14

abbrev pub data_loss : ℕ
data_loss = 15

abbrev pub retryable_codes : List ℕ
retryable_codes =
    unknown ∷ resource_exhausted ∷ unavailable ∷ aborted ∷ data_loss ∷ out_of_range ∷ []

abbrev pub is_retryable_error : ℕ → Bool
is_retryable_error code = any (λ c. c == code) retryable_codes

-- Partial<BackoffOptions> and BackoffOptions
pub record PartialOptions : Type 0 where
  pub factor : Option ℕ
  pub max_attempts : Option ℕ
  pub max_jitter : Option ℕ
  pub initial_interval_ms : Option (ℕ → ℕ)
  pub max_interval_ms : Option (ℕ → ℕ)

pub record BackoffOptions : Type 0 where
  pub factor : ℕ
  pub max_attempts : ℕ
  pub max_jitter : ℕ
  pub initial_interval_ms : ℕ → ℕ
  pub max_interval_ms : ℕ → ℕ

abbrev pub default_initial_interval_ms : ℕ → ℕ
default_initial_interval_ms code = if code == resource_exhausted then 1000 else 20

abbrev pub or_default : {A : Type 0} → Option A → A → A
or_default none d = d
or_default (some x) d = x

unfoldable pub with_default_backoff_options : PartialOptions → BackoffOptions
with_default_backoff_options o = record {
  factor = or_default o.factor 2;
  max_attempts = or_default o.max_attempts 10;
  max_jitter = or_default o.max_jitter 100;
  initial_interval_ms = or_default o.initial_interval_ms default_initial_interval_ms;
  max_interval_ms = λ _. 10000;
}

abbrev pub at_most : ℕ → ℕ → ℕ
at_most a b = if leb a b then a else b

-- `jitter(max)` in millionths, for a `Math.random()` of `random` thousandths. It is negative for a
-- large `max` and a small random number.
abbrev pub jitter : (max random : ℕ) → ℤ
jitter max random = sub_ℕ (1000000 + random * max * 2) (max * 1000)

pub record GrpcRetryOptions : Type 0 where
  pub delay_function : (attempt status random : ℕ) → ℤ
  pub retryable_decider : (attempt status : ℕ) → Bool

-- The delay in millionths of a millisecond.
unfoldable pub default_grpc_retry_options : PartialOptions → GrpcRetryOptions
unfolding with_default_backoff_options
default_grpc_retry_options options =
    let o = with_default_backoff_options options in
    record {
      delay_function = λ attempt status random.
          jitter o.max_jitter random
          *ℤ at_most (o.max_interval_ms status) (o.factor ^ attempt * o.initial_interval_ms status);
      retryable_decider = λ attempt status. ltb attempt o.max_attempts && is_retryable_error status;
    }

-- What the call forwards: the message that was received last, and the status.
pub record Forwarded : Type 0 where
  pub attempts : ℕ
  pub message : Option ℕ
  pub status : ℕ

abbrev pub latest : Option ℕ → Option ℕ → Option ℕ
latest none saved = saved
latest (some m) saved = some m

-- `onReceiveStatus` of the attempts of one call, on fuel: `answer` is what the server answers to each
-- attempt.
module _ (o : GrpcRetryOptions) (answer : ℕ → Option ℕ × ℕ) where
  unfoldable pub on_receive_status : (fuel attempt : ℕ) → (saved : Option ℕ) → Option Forwarded
  on_receive_status zero attempt saved = none
  on_receive_status (suc fuel) attempt saved =
      let (message, status) = answer attempt in
      let kept = latest message saved in
      let rest = on_receive_status fuel (suc attempt) kept in
      if o.retryable_decider attempt status
      then rest
      else some (record { attempts = attempt; message = kept; status = status })

  abbrev pub intercepted : (fuel : ℕ) → Option Forwarded
  intercepted fuel = on_receive_status fuel 1 none
