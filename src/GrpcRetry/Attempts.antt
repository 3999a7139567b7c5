-- ===== src/GrpcRetry/Attempts.antt =====
-- How often a gRPC call is tried, and how long it waits: packages/client/src/grpc-retry.ts.
use temporalio_sdk_typescrip.Prelude.{
  ℕ, zero, suc, ◌+◌, ◌*◌, ◌^◌, ◌≤◌, ◌<◌, ◌≡◌, refl, ap, Option, none, some, Bool, true, false, ◌&&◌,
  ltb, Bool-cases, inl, inr, ◌⊎◌, arith, ◌-◌, ℤ, pos, pos_part, neg_part, sub_ℕ, ◌*ℤ◌, ◌+ℤ◌, ◌≤ℤ◌,
}
use temporalio_sdk_typescrip.GrpcRetry.{
  PartialOptions, GrpcRetryOptions, Forwarded, default_grpc_retry_options,
  with_default_backoff_options, is_retryable_error, on_receive_status, latest, or_default, at_most,
  default_initial_interval_ms, intercepted,
}

module _ (options : PartialOptions) (answer : ℕ → Option ℕ × ℕ) where
  abbrev pub max_attempts : ℕ
  max_attempts = or_default options.max_attempts 10

  abbrev o : GrpcRetryOptions
  o = default_grpc_retry_options options

  -- What is forwarded after attempt number `attempt` and the later ones.
  abbrev pub IsLast : ℕ → Forwarded → Type 0
  IsLast attempt r =
      (r.status ≡ (answer r.attempts).1)
      × ((is_retryable_error r.status ≡ false) ⊎ (max_attempts ≤ r.attempts))
      × (attempt ≤ r.attempts)
      × ((n : ℕ) → attempt ≤ n → n < r.attempts → is_retryable_error (answer n).1 ≡ true)
      × ((r.attempts ≡ attempt) ⊎ (r.attempts ≤ max_attempts))

  stop_lem :
      (fuel attempt : ℕ) (saved : Option ℕ)
      → (ltb attempt max_attempts && is_retryable_error (answer attempt).1) ≡ false
      → on_receive_status o answer (suc fuel) attempt saved
        ≡ some (record {
          attempts = attempt;
          message = latest (answer attempt).0 saved;
          status = (answer attempt).1;
        })
  unfolding on_receive_status default_grpc_retry_options with_default_backoff_options
  stop_lem fuel attempt saved e = rw e refl

  retry_lem :
      (fuel attempt : ℕ) (saved : Option ℕ)
      → (ltb attempt max_attempts && is_retryable_error (answer attempt).1) ≡ true
      → on_receive_status o answer (suc fuel) attempt saved
        ≡ on_receive_status o answer fuel (suc attempt) (latest (answer attempt).0 saved)
  unfolding on_receive_status default_grpc_retry_options with_default_backoff_options
  retry_lem fuel attempt saved e = rw e refl

  earlier :
      (attempt n : ℕ)
      → is_retryable_error (answer attempt).1 ≡ true
      → (suc attempt ≤ n → is_retryable_error (answer n).1 ≡ true)
      → attempt ≤ n
      → is_retryable_error (answer n).1 ≡ true
  earlier attempt n h f l = elim (Bool-cases (ltb attempt n)) [
    | inl e ↦ f (ground arith)
    | inr e ↦ rw⁻¹ (the-same e) h
  ]
    where
      the-same : ltb attempt n ≡ false → attempt ≡ n
      the-same e = ground arith

  and_true : (a b : Bool) → (a && b) ≡ true → (a ≡ true) × (b ≡ true)
  and_true a b h = ground arith

  IsLast_lem :
      (fuel attempt : ℕ) (saved : Option ℕ)
      → 0 < fuel
      → max_attempts < attempt + fuel
      → (r : Forwarded) × (on_receive_status o answer fuel attempt saved ≡ some r)
        × IsLast attempt r
  IsLast_lem zero attempt saved p h = absurd (omega arith)
  IsLast_lem (suc fuel) attempt saved p h =
      elim (Bool-cases (ltb attempt max_attempts && is_retryable_error (answer attempt).1)) [
        | inl e ↦
            let (b, c) =
              and_true (ltb attempt max_attempts) (is_retryable_error (answer attempt).1) e in
            let (r, q, (s, t, a, f, m)) =
              IsLast_lem fuel (suc attempt) (latest (answer attempt).0 saved) (ground arith)
                (omega arith) in
            (
              r,
              rw (retry_lem fuel attempt saved e) q,
              (s, t, omega arith, (λ n l k. earlier attempt n c (λ z. f n z k) l), ground arith),
            )
        | inr e ↦ (
          record {
            attempts = attempt;
            message = latest (answer attempt).0 saved;
            status = (answer attempt).1;
          },
          stop_lem fuel attempt saved e,
          (refl, ground arith, omega arith, (λ n l k. absurd (omega arith)), inl refl),
        )
      ]

  -- A call with the default retry behaviour ends, with fuel for two more than the maximal number of
  -- attempts: what is forwarded is the status of its last attempt, which cannot be retried or has
  -- used up the attempts; every earlier attempt failed with a code that can be retried, and there
  -- are no more attempts than the maximum, or one.
  pub intercepted-IsLast :
      (r : Forwarded) × (intercepted o answer (suc (suc max_attempts)) ≡ some r) × IsLast 1 r
  intercepted-IsLast = IsLast_lem (suc (suc max_attempts)) 1 none (omega arith) (omega arith)

-- The parts of a difference, and of a difference times a number.
parts : (x y : ℕ) → pos_part (sub_ℕ x y) + y ≡ x + neg_part (sub_ℕ x y)
parts x y = ground arith

sum_times : (x y b : ℕ) → (x + y) * b ≡ x * b + y * b
sum_times x y b = grind arith

times_parts : (p n x d b : ℕ) → p + d ≡ x + n → p * b + d * b ≡ x * b + n * b
times_parts p n x d b e = omega (arith, sum_times p d b, sum_times x n b, ap (λ z. z * b) e)

scaled_parts : (x d b : ℕ) → pos_part (sub_ℕ x d *ℤ b) + d * b ≡ x * b + neg_part (sub_ℕ x d *ℤ b)
unfolding ◌*ℤ◌
scaled_parts x d b =
    let p = pos_part (sub_ℕ x d) in
    let n = neg_part (sub_ℕ x d) in
    omega (arith, parts (p * b) (n * b), times_parts p n x d b (parts x d))

times_le : (x y b : ℕ) → x ≤ y → x * b ≤ y * b
times_le x y b h = grind arith

sub_ℕ-mono : (x y d b : ℕ) → x ≤ y → sub_ℕ x d *ℤ b ≤ℤ sub_ℕ y d *ℤ b
sub_ℕ-mono x y d b h = omega (arith, scaled_parts x d b, scaled_parts y d b, times_le x y b h)

scaled_below : (x d c b : ℕ) → x ≤ c + d → sub_ℕ x d *ℤ b ≤ℤ pos (c * b)
scaled_below x d c b h = omega (arith, scaled_parts x d b, times_le x (c + d) b h, sum_times c d b)

difference_pos : (x y c : ℕ) → x ≡ c + y → sub_ℕ x y ≡ pos c
difference_pos x y c e = ground arith

sub_ℕ-balance :
    (x y d c b : ℕ) → x + y ≡ c + (d + d) → sub_ℕ x d *ℤ b +ℤ sub_ℕ y d *ℤ b ≡ pos (c * b)
unfolding ◌+ℤ◌
sub_ℕ-balance x y d c b h =
    difference_pos _ _ _ (omega (arith, scaled_parts x d b, scaled_parts y d b, all))
  where
    all : x * b + y * b ≡ c * b + (d * b + d * b)
    all = omega (arith, sum_times x y b, sum_times c (d + d) b, sum_times d d b, ap (λ z. z * b) h)

upper_part : (max random : ℕ) → random ≤ 1000 → random * max * 2 ≤ max * 2000
upper_part max random h = grind arith

both_parts :
    (max random : ℕ)
    → random ≤ 1000
    → random * max * 2 + (1000 - random) * max * 2 ≡ max * 1000 + max * 1000
both_parts max random h =
    omega (arith, sum_times random (1000 - random) max, ap {A = ℕ} (λ z. z * max) (rest random h))
  where
    rest : (r : ℕ) → r ≤ 1000 → r + (1000 - r) ≡ 1000
    rest r h = omega arith

module _ (options : PartialOptions) (attempt status : ℕ) where
  abbrev delay : ℕ → ℤ
  delay random = (default_grpc_retry_options options).delay_function attempt status random

  abbrev max_jitter : ℕ
  max_jitter = or_default options.max_jitter 100

  -- The interval of the exponential backoff.
  abbrev pub exponential : ℕ
  exponential =
      or_default options.factor 2 ^ attempt
      * or_default options.initial_interval_ms default_initial_interval_ms status

  -- The delay before a retry lies around an interval that is the exponential one or ten seconds,
  -- whichever is less: it is at least (1 - j) times that interval and at most (1 + j) times, for the
  -- maximal jitter j, and two delays of which one takes a random number r from 0 to 1 and the other
  -- 1 - r have that interval as their mean. No maximal interval that the caller asks for changes it. The delay
  -- is in millionths of a millisecond and r in thousandths.
  pub delay_function-jitter :
      (random : ℕ)
      → random ≤ 1000
      → (interval : ℕ) × ((interval ≡ exponential) ⊎ (interval ≡ 10000))
        × (interval ≤ exponential)
        × (interval ≤ 10000)
        × (sub_ℕ 1000000 (max_jitter * 1000) *ℤ interval ≤ℤ delay random)
        × (delay random ≤ℤ pos ((1000000 + max_jitter * 1000) * interval))
        × (delay random +ℤ delay (1000 - random) ≡ pos (2000000 * interval))
  unfolding default_grpc_retry_options with_default_backoff_options
  delay_function-jitter random h =
      let d = max_jitter * 1000 in
      let b = at_most 10000 exponential in
      let x = 1000000 + random * max_jitter * 2 in
      let y = 1000000 + (1000 - random) * max_jitter * 2 in
      (
        b,
        ground arith,
        ground arith,
        ground arith,
        sub_ℕ-mono 1000000 x d b (omega arith),
        scaled_below x d (1000000 + d) b (omega (arith, upper_part max_jitter random h)),
        sub_ℕ-balance x y d 2000000 b (omega (arith, both_parts max_jitter random h)),
      )
