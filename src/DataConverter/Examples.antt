-- ===== src/DataConverter/Examples.antt =====
-- Examples of data converters.
use temporalio_sdk_typescrip.Prelude.{◌≡◌, refl, true, false, All, none, some, List, [], ◌∷◌, arith}
use temporalio_sdk_typescrip.Failure.{
  Value, opaque, ProtoFailure, proto, because, no_cause, no_info, application_info, activity_info,
  JsError, caused,
}
use temporalio_sdk_typescrip.Failure.Examples.{language, converter, failed, sendable}
use temporalio_sdk_typescrip.Failure.Converter.Laws.{received, forget}
use temporalio_sdk_typescrip.Activator.Scenario.{number_converter}
use temporalio_sdk_typescrip.Failure.Converter.{
  error_to_failure, error_to_failure_inner, cutoff_stack_trace,
}
use temporalio_sdk_typescrip.Codecs.{encode_failure, code_failure}
use temporalio_sdk_typescrip.Codecs.Examples.{shifting, shifting-IsLossless}
use temporalio_sdk_typescrip.DataConverter.{
  DataConverter, encode_to_payloads, decode_array_from_payloads, encode_error_to_failure,
  decode_optional_failure_to_optional_error,
}
use temporalio_sdk_typescrip.DataConverter.Trips.{
  ComesBack, decode_array-encode_to_payloads, decode_optional_failure-encode_error,
}

abbrev pub numbers : DataConverter
numbers = record {
  language = language;
  encode_common_attributes = false;
  payload_converter = number_converter;
  payload_codecs = [];
}

-- With a codec that adds one to every payload.
abbrev shifted : DataConverter
shifted = record {
  language = language;
  encode_common_attributes = false;
  payload_converter = converter;
  payload_codecs = shifting ∷ [];
}

abbrev sent : ProtoFailure
sent =
    proto (some "Activity task failed") (some ("main" ∷ [])) none
      (because (
        proto (some "no money") (some []) none
          (because (proto (some "bank") (some []) none no_cause no_info))
          (application_info (some "Poor") true (some (8 ∷ [])))))
      (activity_info (some "charge") (some "1") (some 3) none)

sent_lem : encode_error_to_failure shifted failed ≡ some sent
unfolding error_to_failure error_to_failure_inner encode_failure code_failure cutoff_stack_trace
sent_lem = refl

decode_optional_failure-encode_error_example :
    (g : JsError) × (decode_optional_failure_to_optional_error shifted (because sent)
      ≡ some (caused g))
    × (forget g ≡ received language converter failed)
decode_optional_failure-encode_error_example =
    decode_optional_failure-encode_error shifted failed sent sendable (shifting-IsLossless, tt)
      sent_lem

abbrev seven_and_eight : List Value
seven_and_eight = opaque 7 ∷ opaque 8 ∷ []

come_back : All (ComesBack converter) seven_and_eight
come_back = ((λ p h. ground arith), ((λ p h. ground arith), tt))

encoded : encode_to_payloads shifted seven_and_eight ≡ some (some (8 ∷ 9 ∷ []))
encoded = refl

decode_array-encode_to_payloads_example :
    decode_array_from_payloads shifted (some (8 ∷ 9 ∷ [])) ≡ some seven_and_eight
decode_array-encode_to_payloads_example =
    decode_array-encode_to_payloads shifted seven_and_eight (some (8 ∷ 9 ∷ [])) come_back
      (shifting-IsLossless, tt) encoded
