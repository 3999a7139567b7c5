-- ===== src/Schedule/Examples.antt =====
-- Examples of schedules, packages/client/src/schedule-helpers.ts and schedule-client.ts.
use temporalio_sdk_typescrip.Prelude.{
  true, ◌≡◌, refl, Option, none, some, List, [], ◌∷◌, map, All, ℤ, pos, arith,
}
use temporalio_sdk_typescrip.Schedule.{
  ProtoRange, triple, LooseRange, range, value, ranges, within, encoder, decoder,
}
use temporalio_sdk_typescrip.Prelude.Checked.{valid}
use temporalio_sdk_typescrip.Time.{Timestamp, ms_number_to_ts}
use temporalio_sdk_typescrip.Time.Fixed.{fixed, fixed-IsExact}
use temporalio_sdk_typescrip.Schedule.Calendars.{self, StructuredCalendarSpec}
use temporalio_sdk_typescrip.Schedule.Descriptions.{AreInFields}
use temporalio_sdk_typescrip.Schedule.Policies.{schedule_overlap_policy_buffer_one}
use temporalio_sdk_typescrip.Schedule.Bodies.{
  ProtoSchedule, ScheduleDescription, ScheduleUpdateOptions, describe, updated_schedule,
}
use temporalio_sdk_typescrip.Schedule.Updates.{
  as_update, normal_schedule, updated_schedule-describe,
}
use temporalio_sdk_typescrip.Schedule.Coders.{Encodes, described, encoder-decoder}

abbrev minute : ℤ → Option ℤ
minute = within (pos 0) (pos 59)

inverse : (u z : ℤ) → minute u ≡ some z → self z ≡ some u
inverse u z h = ground arith

-- Minute 0 with no end, minutes 10 to 40 by 15, minute 50.
abbrev items : List (LooseRange ℤ)
items =
    range (record { start = pos 0; end = none; step = none })
    ∷ range (record { start = pos 10; end = some (pos 40); step = some (pos 15) })
    ∷ value (pos 50)
    ∷ []

abbrev items_encode : All (Encodes minute self inverse) items
items_encode = (((pos 0, refl), tt), (((pos 10, refl), (pos 40, refl)), ((pos 50, refl), tt)))

encoder-decoder_example :
    (pbs : List ProtoRange) × (encoder minute [] [] (ranges items) ≡ some pbs)
    × (decoder self (some pbs) ≡ map (described minute self inverse) items)
encoder-decoder_example = encoder-decoder minute self inverse [] [] items items_encode

-- Seconds 30 to 10 by 0, every minute, at noon, each day from May to July, on Sundays.
abbrev calendar : StructuredCalendarSpec
calendar = record {
  second = triple (pos 30) (pos 10) (pos 0) ∷ [];
  minute = triple (pos 0) (pos 59) (pos 1) ∷ [];
  hour = triple (pos 12) (pos 12) (pos 1) ∷ [];
  day_of_month = triple (pos 1) (pos 31) (pos 1) ∷ [];
  month = triple (pos 5) (pos 7) (pos 1) ∷ [];
  year = [];
  day_of_week = triple (pos 0) (pos 0) (pos 1) ∷ [];
  comment = some "noon";
}

abbrev calendar_fields : AreInFields calendar
calendar_fields = (
  (((pos 30, refl, refl), (pos 10, refl, refl)), tt),
  (((pos 0, refl, refl), (pos 59, refl, refl)), tt),
  (((pos 12, refl, refl), (pos 12, refl, refl)), tt),
  (((pos 1, refl, refl), (pos 31, refl, refl)), tt),
  ((("MAY", refl, refl), ("JULY", refl, refl)), tt),
  tt,
  ((("SUNDAY", refl, refl), ("SUNDAY", refl, refl)), tt),
)

abbrev window : Option Timestamp
window = some (ms_number_to_ts fixed (pos 1500))

abbrev schedule : ProtoSchedule
schedule = record {
  structured_calendar = some (calendar ∷ []);
  exclude_structured_calendar = none;
  policies = record {
    catchup_window = window;
    overlap_policy = some schedule_overlap_policy_buffer_one;
    pause_on_failure = none;
  };
  state = record {
    paused = some true;
    notes = some "paused";
    limited_actions = true;
    remaining_actions = some 3;
  };
}

updated_schedule-describe_example :
    (d : ScheduleDescription) × (describe fixed schedule ≡ valid d)
    × (u : ScheduleUpdateOptions) × (as_update d ≡ some u)
    × (updated_schedule fixed u ≡ valid (normal_schedule fixed fixed-IsExact schedule))
updated_schedule-describe_example =
    updated_schedule-describe fixed fixed-IsExact schedule (calendar_fields, tt) tt
      (1499, omega arith, refl)
