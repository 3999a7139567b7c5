-- ===== src/Time.antt =====
-- Durations and protobuf timestamps: packages/common/src/time.ts. Numbers of milliseconds are
-- integers; a `number` is exact (JavaScript's are up to 2 ^ 53).
pub mod Laws
pub mod Fixed
mod Examples
use temporalio_sdk_typescrip.Prelude.{
  ℕ, ◌+◌, ◌-◌, ◌^◌, ◌%◌, String, Option, none, some, Bool, true, false, if◌then◌else◌, ℤ, pos,
  negsuc, ◌+ℤ◌, ◌*ℤ◌, floor_div, rem, ltb_ℤ, leb, pos_part, neg_part, sub_ℕ, ◌==◌,
}
use temporalio_sdk_typescrip.Prelude.Checked.{Checked, valid, invalid, ◌>>=◌}

-- A number of milliseconds, or a text in the format of the package `ms`.
pub data Duration : Type 0 where
  millis : ℤ → Duration
  text : String → Duration

pub data TimeError : Type 0 where
  invalid_duration missing_timestamp : TimeError

-- google.protobuf.ITimestamp: both fields may be missing.
pub record Timestamp : Type 0 where
  pub seconds : Option ℤ
  pub nanos : Option ℤ

-- The packages `ms` and `long`: the parser of a text (`none` stands for undefined and for NaN),
-- `Long.fromNumber`, and the product and the sum of a signed or an unsigned `Long` with a number.
pub record Packages : Type 0 where
  pub parse_ms : String → Option ℤ
  pub from_number : ℤ → ℤ
  pub multiply : (unsigned : Bool) → ℤ → ℤ → ℤ
  pub add : (unsigned : Bool) → ℤ → ℤ → ℤ

abbrev pub nanos_to_ms : Option ℤ → ℤ
nanos_to_ms none = floor_div (pos 0) 1000000
nanos_to_ms (some n) = floor_div n 1000000

abbrev pub is_falsy : Duration → Bool
is_falsy (millis n) = elim n [ pos k ↦ k == 0 | negsuc _ ↦ Bool.false ]
is_falsy (text s) = elim s [ String.[] ↦ Bool.true | String.◌∷◌ _ _ ↦ Bool.false ]

module _ (packages : Packages) where
  -- `Long.UZERO`, the default for missing seconds, is unsigned.
  unfoldable pub ts_to_ms_of : Timestamp → ℤ
  ts_to_ms_of ts = elim ts.seconds [
    | none ↦ packages.add true (packages.multiply true (pos 0) (pos 1000)) (nanos_to_ms ts.nanos)
    | some s ↦ packages.add false (packages.multiply false s (pos 1000)) (nanos_to_ms ts.nanos)
  ]

  unfoldable pub ts_to_ms : Option Timestamp → Checked TimeError ℤ
  ts_to_ms none = invalid missing_timestamp
  ts_to_ms (some ts) = valid (ts_to_ms_of ts)

  unfoldable pub optional_ts_to_ms : Option Timestamp → Checked TimeError (Option ℤ)
  unfolding ts_to_ms
  optional_ts_to_ms none = valid none
  optional_ts_to_ms (some ts) = ts_to_ms (some ts) >>= λ n. valid (some n)

  -- The check for NaN cannot fire on an integer.
  unfoldable pub ms_number_to_ts : ℤ → Timestamp
  ms_number_to_ts n = record {
    seconds = some (packages.from_number (floor_div n 1000));
    nanos = some (rem n 1000 *ℤ 1000000);
  }

  unfoldable pub ms_with_validation : String → Checked TimeError ℤ
  ms_with_validation s = elim (packages.parse_ms s) [
    | none ↦ invalid invalid_duration
    | some n ↦ valid n
  ]

  unfoldable pub ms_to_number : Duration → Checked TimeError ℤ
  unfolding ms_with_validation
  ms_to_number (millis n) = valid n
  ms_to_number (text s) = ms_with_validation s

  unfoldable pub ms_to_ts : Duration → Checked TimeError Timestamp
  unfolding ms_to_number
  ms_to_ts d = ms_to_number d >>= λ n. valid (ms_number_to_ts n)

  unfoldable pub ms_optional_to_ts : Option Duration → Checked TimeError (Option Timestamp)
  unfolding ms_to_ts
  ms_optional_to_ts none = valid none
  ms_optional_to_ts (some d) =
      if is_falsy d then valid none else (ms_to_ts d >>= λ ts. valid (some ts))

  unfoldable pub ms_optional_to_number : Option Duration → Checked TimeError (Option ℤ)
  unfolding ms_to_number
  ms_optional_to_number none = valid none
  ms_optional_to_number (some d) = ms_to_number d >>= λ n. valid (some n)
