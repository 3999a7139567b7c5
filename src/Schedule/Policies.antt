-- ===== src/Schedule/Policies.antt =====
-- Policies and states of schedules, to and from the server: packages/client/src/schedule-helpers.ts, and
-- `describe` of packages/client/src/schedule-client.ts. A `Long` is the number that it stands for.
use temporalio_sdk_typescrip.Prelude.{
  ℕ, zero, suc, String, Option, none, some, Bool, true, false, ℤ, pos, is_some,
}
use temporalio_sdk_typescrip.Prelude.Checked.{Checked, valid, ◌>>=◌}
use temporalio_sdk_typescrip.Time.{
  Duration, millis, Timestamp, TimeError, Packages, optional_ts_to_ms, ms_optional_to_ts,
}

pub data ScheduleOverlapPolicy : Type 0 where
  unspecified skip buffer_one buffer_all cancel_other terminate_other allow_all :
      ScheduleOverlapPolicy

-- temporal.api.enums.v1.ScheduleOverlapPolicy, whose names have a prefix.
pub data ProtoOverlapPolicy : Type 0 where
  schedule_overlap_policy_unspecified : ProtoOverlapPolicy
  schedule_overlap_policy_skip : ProtoOverlapPolicy
  schedule_overlap_policy_buffer_one : ProtoOverlapPolicy
  schedule_overlap_policy_buffer_all : ProtoOverlapPolicy
  schedule_overlap_policy_cancel_other : ProtoOverlapPolicy
  schedule_overlap_policy_terminate_other : ProtoOverlapPolicy
  schedule_overlap_policy_allow_all : ProtoOverlapPolicy

abbrev pub encode_overlap_policy : ScheduleOverlapPolicy → ProtoOverlapPolicy
encode_overlap_policy unspecified = schedule_overlap_policy_unspecified
encode_overlap_policy skip = schedule_overlap_policy_skip
encode_overlap_policy buffer_one = schedule_overlap_policy_buffer_one
encode_overlap_policy buffer_all = schedule_overlap_policy_buffer_all
encode_overlap_policy cancel_other = schedule_overlap_policy_cancel_other
encode_overlap_policy terminate_other = schedule_overlap_policy_terminate_other
encode_overlap_policy allow_all = schedule_overlap_policy_allow_all

abbrev pub decode_overlap_policy : Option ProtoOverlapPolicy → ScheduleOverlapPolicy
decode_overlap_policy none = unspecified
decode_overlap_policy (some schedule_overlap_policy_unspecified) = unspecified
decode_overlap_policy (some schedule_overlap_policy_skip) = skip
decode_overlap_policy (some schedule_overlap_policy_buffer_one) = buffer_one
decode_overlap_policy (some schedule_overlap_policy_buffer_all) = buffer_all
decode_overlap_policy (some schedule_overlap_policy_cancel_other) = cancel_other
decode_overlap_policy (some schedule_overlap_policy_terminate_other) = terminate_other
decode_overlap_policy (some schedule_overlap_policy_allow_all) = allow_all

pub record Policies : Type 0 where
  pub overlap : Option ScheduleOverlapPolicy
  pub catchup_window : Option Duration
  pub pause_on_failure : Option Bool

pub record ProtoPolicies : Type 0 where
  pub catchup_window : Option Timestamp
  pub overlap_policy : Option ProtoOverlapPolicy
  pub pause_on_failure : Option Bool

-- `policies?.overlap ? ... : undefined`: the unspecified policy is 0.
abbrev pub given_overlap : Option ScheduleOverlapPolicy → Option ProtoOverlapPolicy
given_overlap none = none
given_overlap (some unspecified) = none
given_overlap (some skip) = some (encode_overlap_policy skip)
given_overlap (some buffer_one) = some (encode_overlap_policy buffer_one)
given_overlap (some buffer_all) = some (encode_overlap_policy buffer_all)
given_overlap (some cancel_other) = some (encode_overlap_policy cancel_other)
given_overlap (some terminate_other) = some (encode_overlap_policy terminate_other)
given_overlap (some allow_all) = some (encode_overlap_policy allow_all)

pub record State : Type 0 where
  pub paused : Option Bool
  pub note : Option String
  pub remaining_actions : Option ℕ

pub record ProtoState : Type 0 where
  pub paused : Option Bool
  pub notes : Option String
  pub limited_actions : Bool
  pub remaining_actions : Option ℕ

-- `state?.remainingActions ? ... : undefined`
abbrev pub given_actions : Option ℕ → Option ℕ
given_actions none = none
given_actions (some zero) = none
given_actions (some (suc n)) = some (suc n)

abbrev encode_given_state : State → ProtoState
encode_given_state s = record {
  paused = s.paused;
  notes = s.note;
  limited_actions = is_some s.remaining_actions;
  remaining_actions = given_actions s.remaining_actions;
}

unfoldable pub encode_schedule_state : Option State → ProtoState
encode_schedule_state none =
    encode_given_state (record { paused = none; note = none; remaining_actions = none })
encode_schedule_state (some s) = encode_given_state s

-- `... === true`
abbrev pub is_true : Option Bool → Bool
is_true none = false
is_true (some b) = b

-- `remainingActions?.toNumber() || 0`
abbrev pub number_or_0 : Option ℕ → ℕ
number_or_0 none = 0
number_or_0 (some n) = n

abbrev pub actions_left : Bool → Option ℕ → Option ℕ
actions_left true n = some (number_or_0 n)
actions_left false n = none

unfoldable pub describe_state : ProtoState → State
describe_state s = record {
  paused = some (is_true s.paused);
  note = s.notes;
  remaining_actions = actions_left s.limited_actions s.remaining_actions;
}

module _ (packages : Packages) where
  abbrev encode_given_policies : Policies → Checked TimeError ProtoPolicies
  encode_given_policies p = ms_optional_to_ts packages p.catchup_window >>= λ window.
      valid (record {
        catchup_window = window;
        overlap_policy = given_overlap p.overlap;
        pause_on_failure = p.pause_on_failure;
      })

  unfoldable pub encode_schedule_policies : Option Policies → Checked TimeError ProtoPolicies
  encode_schedule_policies none =
      encode_given_policies
        (record { overlap = none; catchup_window = none; pause_on_failure = none })
  encode_schedule_policies (some p) = encode_given_policies p

  abbrev pub window_or_default : Option ℤ → ℤ
  window_or_default none = pos 60000
  window_or_default (some n) = n

  unfoldable pub describe_policies : ProtoPolicies → Checked TimeError Policies
  describe_policies p = optional_ts_to_ms packages p.catchup_window >>= λ window. valid (record {
    overlap = some (decode_overlap_policy p.overlap_policy);
    catchup_window = some (millis (window_or_default window));
    pause_on_failure = some (is_true p.pause_on_failure);
  })
