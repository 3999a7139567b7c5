-- ===== src/DataConverter.antt =====
-- A payload converter and a failure converter with codecs around them: `LoadedDataConverter`, as the
-- functions of packages/common/src/internal-non-workflow/codec-helpers.ts use it. `none` is a
-- rejected promise.
pub mod Trips
pub mod Examples
use temporalio_sdk_typescrip.Prelude.{String, Option, none, some, Bool, List, [], ◌∷◌}
use temporalio_sdk_typescrip.Failure.{
  Value, Payload, PayloadConverter, ProtoFailure, ProtoCause, no_cause, because, JsError, Cause,
  uncaused, caused,
}
use temporalio_sdk_typescrip.Failure.Converter
use temporalio_sdk_typescrip.Failure.Converter.{Language, over}
use temporalio_sdk_typescrip.Codecs
use temporalio_sdk_typescrip.Codecs.{PayloadCodec, after, optional, single}

pub record DataConverter : Type 0 where
  pub language : Language
  pub encode_common_attributes : Bool
  pub payload_converter : PayloadConverter
  pub payload_codecs : List PayloadCodec

module _ (d : DataConverter) where
  abbrev pub decode_array_from_payloads : Option (List Payload) → Option (List Value)
  decode_array_from_payloads payloads =
      after (optional (Codecs.decode d.payload_codecs) payloads)
        (Converter.array_from d.payload_converter)

  abbrev pub encode_to_payloads : List Value → Option (Option (List Payload))
  encode_to_payloads [] = some none
  encode_to_payloads (v ∷ vs) =
      after (Converter.payloads_of d.payload_converter (v ∷ vs))
        (λ ps. over some (Codecs.encode d.payload_codecs ps))

  -- A codec that answers with no payload gives `undefined`.
  abbrev pub encode_to_payload : Value → Option (Option Payload)
  encode_to_payload v =
      after (d.payload_converter.to_payload v) (single (Codecs.encode d.payload_codecs))

  abbrev pub decode_optional_failure_to_optional_error : ProtoCause → Option Cause
  decode_optional_failure_to_optional_error no_cause = some uncaused
  decode_optional_failure_to_optional_error (because f) =
      after (Codecs.decode_failure d.payload_codecs f)
        (λ g. over caused (Converter.failure_to_error d.payload_converter g))

  abbrev pub encode_error_to_failure : JsError → Option ProtoFailure
  encode_error_to_failure e =
      after (Converter.error_to_failure d.language d.payload_converter d.encode_common_attributes e)
        (Codecs.encode_failure d.payload_codecs)

  -- `fromPayloadsAtIndex` at 0 of decoded payloads
  abbrev pub decode_from_payloads_at_0 : Option (List Payload) → Option Value
  decode_from_payloads_at_0 payloads =
      after (optional (Codecs.decode d.payload_codecs) payloads)
        (Converter.first_from d.payload_converter)

  unfoldable pub encode_map_to_payloads :
      List (String × Value) → Option (List (String × Option Payload))
  encode_map_to_payloads [] = some []
  encode_map_to_payloads ((k, v) ∷ m) =
      after (encode_to_payload v) (λ p. after (encode_map_to_payloads m) (λ n. some ((k, p) ∷ n)))
