-- ===== src/Time/Examples.antt =====
-- Examples of the round trips of times.
use temporalio_sdk_typescrip.Prelude.{◌≡◌, arith, pos}
use temporalio_sdk_typescrip.Time.{ts_to_ms_of, ms_number_to_ts}
use temporalio_sdk_typescrip.Time.Fixed.{fixed, fixed-IsExact}
use temporalio_sdk_typescrip.Time.Laws.{ts_to_ms-ms_number_to_ts}

ts_to_ms-ms_number_to_ts_example : ts_to_ms_of fixed (ms_number_to_ts fixed (pos 1234)) ≡ pos 1234
ts_to_ms-ms_number_to_ts_example = ts_to_ms-ms_number_to_ts fixed fixed-IsExact 1234 (omega arith)
