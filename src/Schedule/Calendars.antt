-- ===== src/Schedule/Calendars.antt =====
-- The calendars of a schedule, to and from the server: packages/client/src/schedule-helpers.ts. A
-- description that is taken as the input of an update is a list of ranges in each field.
use temporalio_sdk_typescrip.Prelude.{String, Option, none, some, List, [], ◌∷◌, ℤ, pos}
use temporalio_sdk_typescrip.Codecs.{after}
use temporalio_sdk_typescrip.Schedule.{
  ProtoRange, Input, triple, within, encoder, decoder, name_at, month_name, days_of_week,
  encode_second, encode_hour, encode_day_of_month, encode_month, encode_year, encode_day_of_week,
}

abbrev pub encode_minute : Input ℤ → Option (List ProtoRange)
encode_minute =
    encoder (within (pos 0) (pos 59)) (triple (pos 0) (pos 0) (pos 0) ∷ [])
      (triple (pos 0) (pos 59) (pos 1) ∷ [])

abbrev pub self : ℤ → Option ℤ
self z = some z

abbrev pub Described : Type 0 → Type 0
Described U = Option U × Option U × ℤ

-- The decoder of the fields that hold numbers.
abbrev pub decode_number : List ProtoRange → List (Described ℤ)
decode_number pbs = decoder self (some pbs)

abbrev pub decode_month : List ProtoRange → List (Described String)
decode_month pbs = decoder month_name (some pbs)

abbrev pub decode_day_of_week : List ProtoRange → List (Described String)
decode_day_of_week pbs = decoder (name_at days_of_week) (some pbs)

pub record CalendarSpec : Type 0 where
  pub second : Input ℤ
  pub minute : Input ℤ
  pub hour : Input ℤ
  pub day_of_month : Input ℤ
  pub month : Input String
  pub year : Input ℤ
  pub day_of_week : Input String
  pub comment : Option String

pub record StructuredCalendarSpec : Type 0 where
  pub second : List ProtoRange
  pub minute : List ProtoRange
  pub hour : List ProtoRange
  pub day_of_month : List ProtoRange
  pub month : List ProtoRange
  pub year : List ProtoRange
  pub day_of_week : List ProtoRange
  pub comment : Option String

pub record CalendarSpecDescription : Type 0 where
  pub second : List (Described ℤ)
  pub minute : List (Described ℤ)
  pub hour : List (Described ℤ)
  pub day_of_month : List (Described ℤ)
  pub month : List (Described String)
  pub year : List (Described ℤ)
  pub day_of_week : List (Described String)
  pub comment : Option String

-- `none` is the thrown error of a field.
unfoldable pub encode_calendar : CalendarSpec → Option StructuredCalendarSpec
encode_calendar spec = after (encode_second spec.second) (λ second.
    after (encode_minute spec.minute) (λ minute. after (encode_hour spec.hour) (λ hour.
      after (encode_day_of_month spec.day_of_month) (λ day_of_month.
        after (encode_month spec.month) (λ month. after (encode_year spec.year) (λ year.
          after (encode_day_of_week spec.day_of_week) (λ day_of_week. some (record {
            second = second;
            minute = minute;
            hour = hour;
            day_of_month = day_of_month;
            month = month;
            year = year;
            day_of_week = day_of_week;
            comment = spec.comment;
          }))))))))

abbrev pub encode_calendars : List CalendarSpec → Option (List StructuredCalendarSpec)
encode_calendars [] = some []
encode_calendars (spec ∷ specs) =
    after (encode_calendar spec) (λ pb. after (encode_calendars specs) (λ pbs. some (pb ∷ pbs)))

unfoldable pub encode_optional_structured_calendar_specs :
    Option (List CalendarSpec) → Option (Option (List StructuredCalendarSpec))
encode_optional_structured_calendar_specs none = some none
encode_optional_structured_calendar_specs (some specs) =
    after (encode_calendars specs) (λ pbs. some (some pbs))

unfoldable pub decode_calendar : StructuredCalendarSpec → CalendarSpecDescription
decode_calendar pb = record {
  second = decode_number pb.second;
  minute = decode_number pb.minute;
  hour = decode_number pb.hour;
  day_of_month = decode_number pb.day_of_month;
  month = decode_month pb.month;
  year = decode_number pb.year;
  day_of_week = decode_day_of_week pb.day_of_week;
  comment = pb.comment;
}

unfoldable pub decode_optional_structured_calendar_specs :
    Option (List StructuredCalendarSpec) → List CalendarSpecDescription
decode_optional_structured_calendar_specs none = []
decode_optional_structured_calendar_specs (some []) = []
decode_optional_structured_calendar_specs (some (pb ∷ pbs)) =
    decode_calendar pb ∷ decode_optional_structured_calendar_specs (some pbs)
