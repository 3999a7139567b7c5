-- ===== src/Time/Laws.antt =====
-- Round trips of packages/common/src/time.ts, with their limits.
use temporalio_sdk_typescrip.Prelude.{
  ℕ, suc, ◌+◌, ◌-◌, ◌%◌, ◌<◌, ◌^◌, ◌≡◌, ◌≢◌, arith, ℤ, pos, negsuc, ◌+ℤ◌, ◌*ℤ◌, floor_div, rem,
  false,
}
use temporalio_sdk_typescrip.Time.{Packages, ts_to_ms_of, ms_number_to_ts}

abbrev pub InRange : ℤ → Type 0
InRange (pos n) = n < 2 ^ 63
InRange (negsuc n) = n < 2 ^ 63

-- What the package `long` documents: a signed `Long` holds an integer of 64 bits, and the conversion,
-- the product and the sum are exact as long as the result is one.
pub record IsExact (packages : Packages) : Type 0 where
  pub from_number_exact : (z : ℤ) → InRange z → packages.from_number z ≡ z
  pub multiply_exact :
      (z : ℤ) (k : ℕ) → InRange z → InRange (z *ℤ k) → packages.multiply false z (pos k) ≡ z *ℤ k
  pub add_exact :
      (y z : ℤ) → InRange y → InRange z → InRange (y +ℤ z) → packages.add false y z ≡ y +ℤ z

module _ (packages : Packages) (x : IsExact packages) where
  ts_to_ms_exact :
      (z r : ℤ)
      → InRange (floor_div z 1000)
      → InRange (floor_div z 1000 *ℤ 1000)
      → floor_div (rem z 1000 *ℤ 1000000) 1000000 ≡ r
      → InRange r
      → InRange (floor_div z 1000 *ℤ 1000 +ℤ r)
      → ts_to_ms_of packages (ms_number_to_ts packages z) ≡ floor_div z 1000 *ℤ 1000 +ℤ r
  unfolding ts_to_ms_of ms_number_to_ts
  ts_to_ms_exact z r a b e d f =
      rw (x.from_number_exact (floor_div z 1000) a, x.multiply_exact (floor_div z 1000) 1000 a b, e)
        (x.add_exact (floor_div z 1000 *ℤ 1000) r b d f)

  -- A whole number of milliseconds from 0 to below 2^53 comes back from its timestamp, if the package
  -- `long` is exact on 64 bits.
  pub ts_to_ms-ms_number_to_ts :
      (n : ℕ) → n < 2 ^ 53 → ts_to_ms_of packages (ms_number_to_ts packages (pos n)) ≡ pos n
  unfolding floor_div rem ◌+ℤ◌ ◌*ℤ◌
  ts_to_ms-ms_number_to_ts n h = ground (arith, ts_to_ms_exact (pos n) (pos (n % 1000)))

  -- A negative whole number of milliseconds above -2^53 that is no multiple of 1000 comes back from
  -- its timestamp as a number that is 1000 smaller, if the package `long` is exact on 64 bits.
  pub ts_to_ms-ms_number_to_ts_negative :
      (n : ℕ)
      → n < 2 ^ 53
      → suc n % 1000 ≢ 0
      → ts_to_ms_of packages (ms_number_to_ts packages (negsuc n)) ≡ negsuc (n + 1000)
  unfolding floor_div rem ◌+ℤ◌ ◌*ℤ◌
  ts_to_ms-ms_number_to_ts_negative n h k =
      ground (arith, k, ts_to_ms_exact (negsuc n) (negsuc (suc n % 1000 - 1)))
