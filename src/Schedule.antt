-- ===== src/Schedule.antt =====
-- The calendar fields of a schedule: `makeCalendarSpecFieldCoders` of
-- packages/client/src/schedule-helpers.ts. A value of a field is a number or a name.
pub mod Coders
pub mod Calendars
pub mod Descriptions
pub mod Policies
pub mod Bodies
pub mod Updates
mod Examples
use temporalio_sdk_typescrip.Prelude.{
  ℕ, zero, suc, ◌+◌, String, Option, none, some, Bool, true, false, if◌then◌else◌, ◌&&◌, List, [],
  ◌∷◌, ltb, leb, str_eq, ℤ, pos, negsuc, ltb_ℤ, leb_ℤ, get_elem?,
}

-- temporal.api.schedule.v1.IRange; the numbers are whole.
pub record ProtoRange : Type 0 where
  pub start : ℤ
  pub end : ℤ
  pub step : ℤ

pub record Range (U : Type 0) : Type 0 where
  pub start : U
  pub end : Option U
  pub step : Option ℤ

-- LooseRange
pub data LooseRange (U : Type 0) : Type 0 where
  range : Range U → LooseRange U
  value : U → LooseRange U

pub data Input (U : Type 0) : Type 0 where
  missing : Input U
  every : Input U
  ranges : List (LooseRange U) → Input U

abbrev pub triple : ℤ → ℤ → ℤ → ProtoRange
triple start end step = record { start = start; end = end; step = step }

abbrev pub or_start : Option ℤ → ℤ → ℤ
or_start none start = start
or_start (some z) start = z

abbrev pub positive_step : Option ℤ → ℤ
positive_step none = pos 1
positive_step (some z) = if ltb_ℤ (pos 0) z then z else pos 1

abbrev both : {A B C : Type 0} → (A → B → C) → Option A → Option B → Option C
both f (some x) (some y) = some (f x y)
both f _ _ = none

module _ {U : Type 0} (encode_value : U → Option ℤ) where
  abbrev pub encode_end : Option U → ℤ → ℤ
  encode_end none start = pos 1
  encode_end (some end) start = or_start (encode_value end) start

  abbrev pub encode_range : Range U → Option ℤ → Option ProtoRange
  encode_range r none = none
  encode_range r (some start) = some (triple start (encode_end r.end start) (positive_step r.step))

  abbrev pub encode_single : Option ℤ → Option ProtoRange
  encode_single none = none
  encode_single (some z) = some (triple z z (pos 1))

  abbrev pub encode_item : LooseRange U → Option ProtoRange
  encode_item (range r) = encode_range r (encode_value r.start)
  encode_item (value u) = encode_single (encode_value u)

  abbrev pub encode_items : List (LooseRange U) → Option (List ProtoRange)
  encode_items [] = some []
  encode_items (i ∷ is) = both (λ r rs. r ∷ rs) (encode_item i) (encode_items is)

  -- `none` is the thrown `TypeError`.
  unfoldable pub encoder :
      (default_value match_all_value : List ProtoRange) → Input U → Option (List ProtoRange)
  encoder d m missing = some d
  encoder d m every = some m
  encoder d m (ranges items) = encode_items items

-- A value that is out of the table decodes to `undefined`.
module _ {U : Type 0} (decode_value : ℤ → Option U) where
  abbrev first : Option U → Option U → Option U
  first none start = start
  first (some u) start = some u

  abbrev pub decode_range : ProtoRange → Option U × Option U × ℤ
  decode_range pb =
      let start = decode_value pb.start in
      (
        start,
        (if ltb_ℤ pb.start pb.end then first (decode_value pb.end) start else start),
        (if ltb_ℤ (pos 0) pb.step then pb.step else pos 1),
      )

  unfoldable pub decoder : Option (List ProtoRange) → List (Option U × Option U × ℤ)
  decoder none = []
  decoder (some []) = []
  decoder (some (pb ∷ pbs)) = decode_range pb ∷ decoder (some pbs)

-- The coders of numbers, within the bounds of the field.
abbrev pub within : ℤ → ℤ → ℤ → Option ℤ
within low high z = if leb_ℤ low z && leb_ℤ z high then some z else none

abbrev pub encode_second : Input ℤ → Option (List ProtoRange)
encode_second =
    encoder (within (pos 0) (pos 59)) (triple (pos 0) (pos 0) (pos 0) ∷ [])
      (triple (pos 0) (pos 59) (pos 1) ∷ [])

abbrev pub encode_hour : Input ℤ → Option (List ProtoRange)
encode_hour =
    encoder (within (pos 0) (pos 23)) (triple (pos 0) (pos 0) (pos 0) ∷ [])
      (triple (pos 0) (pos 23) (pos 1) ∷ [])

abbrev pub encode_day_of_month : Input ℤ → Option (List ProtoRange)
encode_day_of_month =
    encoder (within (pos 0) (pos 31)) (triple (pos 1) (pos 31) (pos 1) ∷ [])
      (triple (pos 1) (pos 31) (pos 1) ∷ [])

abbrev pub encode_year : Input ℤ → Option (List ProtoRange)
encode_year = encoder (λ z. some z) [] []

-- The coders of names: the place in a table, counted from `base`.
abbrev pub index_from : ℕ → List String → String → Option ℤ
index_from n [] s = none
index_from n (x ∷ xs) s = if str_eq x s then some (pos n) else index_from (suc n) xs s

abbrev pub name_at : List String → ℤ → Option String
name_at names (pos n) = get_elem? names n
name_at names (negsuc n) = none

abbrev pub months : List String
months =
    "JANUARY" ∷ "FEBRUARY" ∷ "MARCH" ∷ "APRIL" ∷ "MAY" ∷ "JUNE" ∷ "JULY" ∷ "AUGUST" ∷ "SEPTEMBER"
    ∷ "OCTOBER" ∷ "NOVEMBER" ∷ "DECEMBER" ∷ []

abbrev pub days_of_week : List String
days_of_week =
    "SUNDAY" ∷ "MONDAY" ∷ "TUESDAY" ∷ "WEDNESDAY" ∷ "THURSDAY" ∷ "FRIDAY" ∷ "SATURDAY" ∷ []

abbrev pub month_number : String → Option ℤ
month_number = index_from 1 months

abbrev pub month_name : ℤ → Option String
month_name (pos zero) = none
month_name (pos (suc n)) = name_at months (pos n)
month_name (negsuc n) = none

abbrev pub encode_month : Input String → Option (List ProtoRange)
encode_month =
    encoder month_number (triple (pos 1) (pos 12) (pos 1) ∷ [])
      (triple (pos 1) (pos 12) (pos 1) ∷ [])

abbrev pub encode_day_of_week : Input String → Option (List ProtoRange)
encode_day_of_week =
    encoder (index_from 0 days_of_week) (triple (pos 0) (pos 6) (pos 1) ∷ [])
      (triple (pos 0) (pos 6) (pos 1) ∷ [])
