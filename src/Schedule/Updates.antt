-- ===== src/Schedule/Updates.antt =====
-- An update of a schedule with its own description: packages/client/src/schedule-client.ts.
use temporalio_sdk_typescrip.Prelude.{
  ℕ, suc, ◌<◌, ◌^◌, Option, none, some, Bool, true, false, pos, is_some, ◌≡◌, refl, List, [], map,
  All, arith,
}
use temporalio_sdk_typescrip.Prelude.Checked.{valid}
use temporalio_sdk_typescrip.Time.{
  millis, Timestamp, Packages, optional_ts_to_ms, ms_optional_to_ts, ts_to_ms, ms_number_to_ts,
  ms_to_ts, ms_to_number, is_falsy,
}
use temporalio_sdk_typescrip.Time.Laws.{IsExact, ts_to_ms-ms_number_to_ts}
use temporalio_sdk_typescrip.Codecs.{after}
use temporalio_sdk_typescrip.Schedule.Calendars.{
  CalendarSpec, StructuredCalendarSpec, encode_optional_structured_calendar_specs,
  decode_optional_structured_calendar_specs,
}
use temporalio_sdk_typescrip.Schedule.Descriptions.{
  as_specs, normal_calendar, AreInFields, as_specs-normal_calendar,
}
use temporalio_sdk_typescrip.Schedule.Bodies.{
  ProtoSchedule, ScheduleDescription, ScheduleUpdateOptions, describe, updated_schedule,
}
use temporalio_sdk_typescrip.Schedule.Policies.{
  ProtoOverlapPolicy, schedule_overlap_policy_unspecified, schedule_overlap_policy_skip,
  schedule_overlap_policy_buffer_one, schedule_overlap_policy_buffer_all,
  schedule_overlap_policy_cancel_other, schedule_overlap_policy_terminate_other,
  schedule_overlap_policy_allow_all, decode_overlap_policy, Policies, ProtoPolicies, given_overlap,
  ProtoState, given_actions, encode_schedule_state, is_true, actions_left, describe_state,
  encode_schedule_policies, describe_policies,
}

-- The policies and the state that an update with a description sends.
abbrev specified : Option ProtoOverlapPolicy → Option ProtoOverlapPolicy
specified none = none
specified (some schedule_overlap_policy_unspecified) = none
specified (some schedule_overlap_policy_skip) = some schedule_overlap_policy_skip
specified (some schedule_overlap_policy_buffer_one) = some schedule_overlap_policy_buffer_one
specified (some schedule_overlap_policy_buffer_all) = some schedule_overlap_policy_buffer_all
specified (some schedule_overlap_policy_cancel_other) = some schedule_overlap_policy_cancel_other
specified (some schedule_overlap_policy_terminate_other) =
    some schedule_overlap_policy_terminate_other
specified (some schedule_overlap_policy_allow_all) = some schedule_overlap_policy_allow_all

given_overlap-specified :
    (o : Option ProtoOverlapPolicy) → given_overlap (some (decode_overlap_policy o)) ≡ specified o
given_overlap-specified none = refl
given_overlap-specified (some schedule_overlap_policy_unspecified) = refl
given_overlap-specified (some schedule_overlap_policy_skip) = refl
given_overlap-specified (some schedule_overlap_policy_buffer_one) = refl
given_overlap-specified (some schedule_overlap_policy_buffer_all) = refl
given_overlap-specified (some schedule_overlap_policy_cancel_other) = refl
given_overlap-specified (some schedule_overlap_policy_terminate_other) = refl
given_overlap-specified (some schedule_overlap_policy_allow_all) = refl

abbrev pub normal_state : ProtoState → ProtoState
normal_state s = record {
  paused = some (is_true s.paused);
  notes = s.notes;
  limited_actions = s.limited_actions;
  remaining_actions = given_actions (actions_left s.limited_actions s.remaining_actions);
}

is_some-actions_left : (b : Bool) (n : Option ℕ) → is_some (actions_left b n) ≡ b
is_some-actions_left true n = refl
is_some-actions_left false n = refl

state_again : (s : ProtoState) → encode_schedule_state (some (describe_state s)) ≡ normal_state s
unfolding encode_schedule_state describe_state
state_again s = rw (is_some-actions_left s.limited_actions s.remaining_actions) refl

abbrev pub normal_calendars : Option (List StructuredCalendarSpec) → List StructuredCalendarSpec
normal_calendars none = []
normal_calendars (some pbs) = map normal_calendar pbs

abbrev pub AllInFields : Option (List StructuredCalendarSpec) → Type 0
AllInFields none = Unit
AllInFields (some pbs) = All AreInFields pbs

-- A description as the options of an update.
abbrev pub as_update : ScheduleDescription → Option ScheduleUpdateOptions
as_update d = after (as_specs d.calendars) (λ calendars. after (as_specs d.skip) (λ skip.
    some (record {
      calendars = some calendars;
      skip = some skip;
      policies = some d.policies;
      state = some d.state;
    })))

module _ (packages : Packages) (x : IsExact packages) where
  -- A window of whole milliseconds, and not of none.
  abbrev pub IsWindow : Option Timestamp → Type 0
  IsWindow o = (n : ℕ) × (suc n < 2 ^ 53) × (o ≡ some (ms_number_to_ts packages (pos (suc n))))

  abbrev pub normal_policies : ProtoPolicies → ProtoPolicies
  normal_policies p = record {
    catchup_window = p.catchup_window;
    overlap_policy = specified p.overlap_policy;
    pause_on_failure = some (is_true p.pause_on_failure);
  }

  policies_again :
      (p : ProtoPolicies)
      → IsWindow p.catchup_window
      → (d : Policies) × (describe_policies packages p ≡ valid d)
        × (encode_schedule_policies packages (some d) ≡ valid (normal_policies p))
  unfolding describe_policies encode_schedule_policies optional_ts_to_ms ts_to_ms ms_optional_to_ts
      ms_to_ts ms_to_number
  policies_again p (n, l, h) =
      let given : is_falsy (millis (pos (suc n))) ≡ false = ground arith in
      (
        record {
          overlap = some (decode_overlap_policy p.overlap_policy);
          catchup_window = some (millis (pos (suc n)));
          pause_on_failure = some (is_true p.pause_on_failure);
        },
        rw (h, ts_to_ms-ms_number_to_ts packages x (suc n) l) refl,
        rw (h, given_overlap-specified p.overlap_policy) (rw given refl),
      )

  abbrev pub normal_schedule : ProtoSchedule → ProtoSchedule
  normal_schedule s = record {
    structured_calendar = some (normal_calendars s.structured_calendar);
    exclude_structured_calendar = some (normal_calendars s.exclude_structured_calendar);
    policies = normal_policies s.policies;
    state = normal_state s.state;
  }

  calendars_again :
      (o : Option (List StructuredCalendarSpec))
      → AllInFields o
      → (specs : List CalendarSpec) × (as_specs (decode_optional_structured_calendar_specs o)
          ≡ some specs)
        × (encode_optional_structured_calendar_specs (some specs)
            ≡ some (some (normal_calendars o)))
  unfolding decode_optional_structured_calendar_specs encode_optional_structured_calendar_specs
      as_specs
  calendars_again none h = ([], refl, refl)
  calendars_again (some pbs) h = as_specs-normal_calendar pbs h

  -- A schedule on the server whose calendars have ranges of values of their fields, with a catchup
  -- window of a positive number of milliseconds below 2^53, is described, and updated with the
  -- description: there are no errors, and what is sent is the same schedule (its calendars, those
  -- to skip, policies and state), where ranges and steps are normal, what is missing or unspecified
  -- is its default, and the actions that remain are sent only if they are limited and not 0. The
  -- package `long` is exact on 64 bits.
  pub updated_schedule-describe :
      (s : ProtoSchedule)
      → AllInFields s.structured_calendar
      → AllInFields s.exclude_structured_calendar
      → IsWindow s.policies.catchup_window
      → (d : ScheduleDescription) × (describe packages s ≡ valid d)
        × (u : ScheduleUpdateOptions) × (as_update d ≡ some u)
        × (updated_schedule packages u ≡ valid (normal_schedule s))
  unfolding describe updated_schedule
  updated_schedule-describe s a b w =
      let (cs, c1, c2) = calendars_again s.structured_calendar a in
      let (ks, k1, k2) = calendars_again s.exclude_structured_calendar b in
      let (p, p1, p2) = policies_again s.policies w in
      (
        record {
          calendars = decode_optional_structured_calendar_specs s.structured_calendar;
          skip = decode_optional_structured_calendar_specs s.exclude_structured_calendar;
          policies = p;
          state = describe_state s.state;
        },
        rw p1 refl,
        record {
          calendars = some cs;
          skip = some ks;
          policies = some p;
          state = some (describe_state s.state);
        },
        rw (c1, k1) refl,
        rw (c2, k2, p2, state_again s.state) refl,
      )
