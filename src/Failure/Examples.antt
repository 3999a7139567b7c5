-- ===== src/Failure/Examples.antt =====
-- Examples of converted failures.
use temporalio_sdk_typescrip.Prelude.{◌≡◌, refl, Option, none, some, true, false, [], ◌∷◌, str_eq}
use temporalio_sdk_typescrip.Failure.{
  Value, opaque, attributes, Payload, PayloadConverter, ProtoFailure, proto, no_cause, no_info,
  JsError, temporal, native, base, application, activity, uncaused, caused,
}
use temporalio_sdk_typescrip.Failure.Converter.{
  Language, over, failure_to_error, error_to_failure, error_to_failure_inner, after_conversion,
}
use temporalio_sdk_typescrip.Failure.Converter.Laws.{
  Sendable, received, forget, failure_to_error-error_to_failure, error_to_failure-after_conversion,
}

abbrev pub language : Language
language = record {
  is_cutoff = λ line. str_eq line "    at Script.runInContext (node:vm:139:12)";
  is_true = λ n. true;
  describe = λ n. "";
  describe_backoff = λ n d. "";
}

-- Numbers are their own payloads, and attributes have the payload 1000.
abbrev to_number : Value → Option Payload
to_number (opaque n) = some n
to_number (attributes m s) = some 1000
to_number _ = none

abbrev pub converter : PayloadConverter
converter = record { to_payload = to_number; from_payload = λ p. some (opaque p) }

-- An activity that failed with a detail, because of an error of another class.
abbrev pub failed : JsError
failed =
    temporal "Activity task failed" ("main" ∷ "    at Script.runInContext (node:vm:139:12)" ∷ [])
      none (activity "charge" (some "1") 3 none)
      (caused (
        temporal "no money" [] none (application (some "Poor") true (opaque 7 ∷ []))
          (caused (native "Error" "bank" [] uncaused))))

pub sendable : Sendable language converter false failed
unfolding Sendable
sendable = (tt, refl, (tt, ((7, refl, refl), tt), (tt, tt)))

failure_to_error-error_to_failure_example :
    (f : ProtoFailure) × (g : JsError) × (error_to_failure language converter false failed ≡ some f)
    × (failure_to_error converter f ≡ some g)
    × (forget g ≡ received language converter failed)
failure_to_error-error_to_failure_example =
    failure_to_error-error_to_failure language converter false failed sendable

abbrev cached : ProtoFailure
cached = proto (some "secret") (some ("line" ∷ [])) none no_cause no_info

abbrev hidden : ProtoFailure
hidden = proto (some "Encoded failure") (some []) (some 1000) no_cause no_info

abbrev remembered : JsError
remembered = temporal "secret" [] (some cached) base uncaused

hidden_once : error_to_failure language converter true remembered ≡ some hidden
unfolding error_to_failure error_to_failure_inner
hidden_once = refl

error_to_failure-after_conversion_example :
    error_to_failure language converter true (after_conversion remembered hidden)
    ≡ over
        (λ p. proto (some "Encoded failure") (some []) (some p) no_cause no_info)
        (converter.to_payload (attributes (some "Encoded failure") (some [])))
error_to_failure-after_conversion_example =
    error_to_failure-after_conversion language converter "secret" [] base uncaused (some "secret")
      (some ("line" ∷ [])) none no_cause no_info hidden hidden_once
