-- ===== src/Schedule/Bodies.antt =====
-- Whole schedules: `describe` and `update` of packages/client/src/schedule-client.ts, for a response
-- that has a specification and an action, and without what schedule-helpers.ts makes of intervals,
-- times and actions.
use temporalio_sdk_typescrip.Prelude.{Option, none, some, List}
use temporalio_sdk_typescrip.Prelude.Checked.{Checked, valid, invalid, ◌>>=◌}
use temporalio_sdk_typescrip.Time.{TimeError, Packages}
use temporalio_sdk_typescrip.Schedule.Calendars.{
  CalendarSpec, StructuredCalendarSpec, CalendarSpecDescription,
  encode_optional_structured_calendar_specs, decode_optional_structured_calendar_specs,
}
use temporalio_sdk_typescrip.Schedule.Policies.{
  Policies, ProtoPolicies, State, ProtoState, encode_schedule_policies, encode_schedule_state,
  describe_policies, describe_state,
}

pub record ProtoSchedule : Type 0 where
  pub structured_calendar : Option (List StructuredCalendarSpec)
  pub exclude_structured_calendar : Option (List StructuredCalendarSpec)
  pub policies : ProtoPolicies
  pub state : ProtoState

pub record ScheduleDescription : Type 0 where
  pub calendars : List CalendarSpecDescription
  pub skip : List CalendarSpecDescription
  pub policies : Policies
  pub state : State

pub record ScheduleUpdateOptions : Type 0 where
  pub calendars : Option (List CalendarSpec)
  pub skip : Option (List CalendarSpec)
  pub policies : Option Policies
  pub state : Option State

pub data UpdateError : Type 0 where
  invalid_calendar : UpdateError
  invalid_time : TimeError → UpdateError

abbrev pub encoded_or_thrown : {A : Type 0} → Option A → Checked UpdateError A
encoded_or_thrown none = invalid invalid_calendar
encoded_or_thrown (some a) = valid a

abbrev pub timed_or_thrown : {A : Type 0} → Checked TimeError A → Checked UpdateError A
timed_or_thrown (invalid e) = invalid (invalid_time e)
timed_or_thrown (valid a) = valid a

module _ (packages : Packages) where
  unfoldable pub describe : ProtoSchedule → Checked TimeError ScheduleDescription
  describe s = describe_policies packages s.policies >>= λ policies. valid (record {
    calendars = decode_optional_structured_calendar_specs s.structured_calendar;
    skip = decode_optional_structured_calendar_specs s.exclude_structured_calendar;
    policies = policies;
    state = describe_state s.state;
  })

  -- The schedule that `_updateSchedule` sends.
  unfoldable pub updated_schedule : ScheduleUpdateOptions → Checked UpdateError ProtoSchedule
  updated_schedule o =
      encoded_or_thrown (encode_optional_structured_calendar_specs o.calendars) >>= λ calendars.
      encoded_or_thrown (encode_optional_structured_calendar_specs o.skip) >>= λ skip.
      timed_or_thrown (encode_schedule_policies packages o.policies) >>= λ policies. valid (record {
        structured_calendar = calendars;
        exclude_structured_calendar = skip;
        policies = policies;
        state = encode_schedule_state o.state;
      })
