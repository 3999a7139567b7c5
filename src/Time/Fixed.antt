-- ===== src/Time/Fixed.antt =====
-- A concrete `long` of 64 bits, with which the examples run.
use temporalio_sdk_typescrip.Prelude.{
  ℕ, ◌-◌, ◌^◌, ◌%◌, ◌≡◌, none, Bool, true, false, if◌then◌else◌, ℤ, pos, negsuc, ◌+ℤ◌, ◌*ℤ◌, leb,
  sub_ℕ, arith,
}
use temporalio_sdk_typescrip.Time.{Packages}
use temporalio_sdk_typescrip.Time.Laws.{InRange, IsExact}

-- The bits of an integer, read as a signed or as an unsigned number.
abbrev bits : ℤ → ℕ
bits (pos n) = n % 2 ^ 64
bits (negsuc n) = 2 ^ 64 - 1 - n % 2 ^ 64

abbrev pub wrap : (unsigned : Bool) → ℤ → ℤ
wrap true z = pos (bits z)
wrap false z = if leb (2 ^ 63) (bits z) then sub_ℕ (bits z) (2 ^ 64) else pos (bits z)

-- A number out of range becomes the nearest that is in range.
abbrev pub nearest : ℤ → ℤ
nearest (pos n) = if leb (2 ^ 63) n then pos (2 ^ 63 - 1) else pos n
nearest (negsuc n) = if leb (2 ^ 63) n then negsuc (2 ^ 63 - 1) else negsuc n

abbrev times : ℤ → ℤ → ℤ
times z (pos k) = z *ℤ k
times z (negsuc k) = pos 0

abbrev pub fixed : Packages
fixed = record {
  parse_ms = λ s. none;
  from_number = nearest;
  multiply = λ unsigned y z. wrap unsigned (times y z);
  add = λ unsigned y z. wrap unsigned (y +ℤ z);
}

wrap_lem : (z : ℤ) → InRange z → wrap false z ≡ z
wrap_lem (pos n) h = ground arith
wrap_lem (negsuc n) h = ground arith

nearest_lem : (z : ℤ) → InRange z → nearest z ≡ z
nearest_lem (pos n) h = ground arith
nearest_lem (negsuc n) h = ground arith

pub fixed-IsExact : IsExact fixed
fixed-IsExact = record {
  from_number_exact = nearest_lem;
  multiply_exact = λ z k a b. wrap_lem (z *ℤ k) b;
  add_exact = λ y z a b c. wrap_lem (y +ℤ z) c;
}
