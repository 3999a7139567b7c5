-- ===== src/DataConverter/Trips.antt =====
-- What a data converter encodes comes back: packages/common/src/internal-non-workflow/codec-helpers.ts.
use temporalio_sdk_typescrip.Prelude.{
  ◌≡◌, refl, sym, ◌∙◌, Option, some, List, [], ◌∷◌, All, Option-cases, inl, inr, arith,
}
use mathlib.Core.Option.{some_inj}
use temporalio_sdk_typescrip.Failure.{
  Value, Payload, PayloadConverter, ProtoFailure, because, JsError, caused,
}
use temporalio_sdk_typescrip.Failure.Converter
use temporalio_sdk_typescrip.Failure.Converter.{over}
use temporalio_sdk_typescrip.Failure.Converter.Laws.{
  Sendable, received, forget, failure_to_error-error_to_failure,
}
use temporalio_sdk_typescrip.Codecs
use temporalio_sdk_typescrip.Codecs.{after, optional}
use temporalio_sdk_typescrip.Codecs.Trips.{
  IsLossless, after-some, encode-decode, decode_failure-encode_failure,
}
use temporalio_sdk_typescrip.DataConverter.{
  DataConverter, decode_array_from_payloads, encode_to_payloads,
  decode_optional_failure_to_optional_error, encode_error_to_failure,
}

-- The payload converter brings a value back.
abbrev pub ComesBack : PayloadConverter → Value → Type 0
ComesBack c v = (p : Payload) → c.to_payload v ≡ some p → c.from_payload p ≡ some v

-- An error that crosses a data converter, converted to a failure whose payloads are encoded, and
-- decoded and converted back, is what the failure converter alone would give: its message, class,
-- fields and stack up to the cutoff, with the losses that `received` writes out. The error has no
-- cached failure and its values come back, and each codec decodes what it has encoded.
pub decode_optional_failure-encode_error :
    (d : DataConverter) (e : JsError) (y : ProtoFailure)
    → Sendable d.language d.payload_converter d.encode_common_attributes e
    → All IsLossless d.payload_codecs
    → encode_error_to_failure d e ≡ some y
    → (g : JsError) × (decode_optional_failure_to_optional_error d (because y) ≡ some (caused g))
      × (forget g ≡ received d.language d.payload_converter e)
decode_optional_failure-encode_error d e y s l h =
    let (f, g, there, back, same) =
      failure_to_error-error_to_failure d.language d.payload_converter d.encode_common_attributes e
        s in
    let (x, k, coded) =
      after-some
        (Converter.error_to_failure d.language d.payload_converter d.encode_common_attributes e)
        (Codecs.encode_failure d.payload_codecs) y h in
    (
      g,
      rw (decode_failure-encode_failure d.payload_codecs x y l coded)
          (rw⁻¹ (some_inj.0 (sym there ∙ k)) (rw back refl)),
      same,
    )

module _ (c : PayloadConverter) where
  array_from-payloads_of :
      (vs : List Value) (ps : List Payload)
      → All (ComesBack c) vs
      → Converter.payloads_of c vs ≡ some ps
      → Converter.array_from c (some ps) ≡ some vs
  array_from-payloads_of [] ps k h = rw⁻¹ (some_inj.0 h) refl
  array_from-payloads_of (v ∷ vs) ps (k, ks) h = elim (Option-cases (c.to_payload v)) [
    | inl e ↦ ground arith
    | inr (p, e) ↦ elim (Option-cases (Converter.payloads_of c vs)) [
      | inl f ↦ ground arith
      | inr (qs, f) ↦
          let q : p ∷ qs ≡ ps = ground arith in
          rw⁻¹ q (rw (k p e, array_from-payloads_of vs qs ks f) refl)
    ]
  ]

-- Values that a data converter encodes to payloads are decoded to the same values: the payload
-- converter brings each back, and each codec decodes what it has encoded.
pub decode_array-encode_to_payloads :
    (d : DataConverter) (vs : List Value) (o : Option (List Payload))
    → All (ComesBack d.payload_converter) vs
    → All IsLossless d.payload_codecs
    → encode_to_payloads d vs ≡ some o
    → decode_array_from_payloads d o ≡ some vs
decode_array-encode_to_payloads d [] o k l h = rw⁻¹ (some_inj.0 h) refl
decode_array-encode_to_payloads d (v ∷ vs) o k l h =
    let (ps, e, f) =
      after-some (Converter.payloads_of d.payload_converter (v ∷ vs))
        (λ ps. over some (Codecs.encode d.payload_codecs ps)) o h in
    elim (Option-cases (Codecs.encode d.payload_codecs ps)) [
      | inl g ↦ ground arith
      | inr (qs, g) ↦
          let q : some qs ≡ o = ground arith in
          rw⁻¹ q (
            rw (encode-decode d.payload_codecs l ps qs g).0
              (array_from-payloads_of d.payload_converter (v ∷ vs) ps k e))
    ]
