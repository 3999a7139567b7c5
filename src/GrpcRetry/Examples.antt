-- ===== src/GrpcRetry/Examples.antt =====
-- Examples of retried calls.
use temporalio_sdk_typescrip.Prelude.{
  ℕ, ◌*◌, ◌≤◌, ◌⊎◌, arith, pos, sub_ℕ, ◌*ℤ◌, ◌+ℤ◌, ◌≤ℤ◌, ◌≡◌, Option, none, some,
}
use temporalio_sdk_typescrip.GrpcRetry.{
  PartialOptions, Forwarded, unavailable, default_grpc_retry_options, intercepted,
}
use temporalio_sdk_typescrip.GrpcRetry.Attempts.{
  IsLast, exponential, intercepted-IsLast, delay_function-jitter,
}

-- At most three attempts, and a maximal interval of a minute.
abbrev options : PartialOptions
options = record {
  factor = none;
  max_attempts = some 3;
  max_jitter = none;
  initial_interval_ms = none;
  max_interval_ms = some (λ code. 60000);
}

-- The server is never there.
abbrev unreachable : ℕ → Option ℕ × ℕ
unreachable attempt = (none, unavailable)

intercepted-IsLast_example :
    (r : Forwarded) × (intercepted (default_grpc_retry_options options) unreachable 5 ≡ some r)
    × IsLast options unreachable 1 r
intercepted-IsLast_example = intercepted-IsLast options unreachable

-- The first retry, with a random number of a quarter.
delay_function-jitter_example :
    let delay = (default_grpc_retry_options options).delay_function 1 unavailable in
    (interval : ℕ) × ((interval ≡ exponential options 1 unavailable) ⊎ (interval ≡ 10000))
    × (interval ≤ exponential options 1 unavailable)
    × (interval ≤ 10000)
    × (sub_ℕ 1000000 100000 *ℤ interval ≤ℤ delay 250)
    × (delay 250 ≤ℤ pos (1100000 * interval))
    × (delay 250 +ℤ delay 750 ≡ pos (2000000 * interval))
delay_function-jitter_example = delay_function-jitter options 1 unavailable 250 (omega arith)
