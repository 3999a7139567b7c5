-- ===== src/CodecRunner/Fields.antt =====
-- The fields that codecs change, there and back: packages/worker/src/workflow-codec-runner.ts.
use temporalio_sdk_typescrip.Prelude.{Option, some, List, ◌≡◌, All}
use temporalio_sdk_typescrip.Failure.{Payload, ProtoCause}
use temporalio_sdk_typescrip.Codecs.{
  PayloadCodec, encode, decode, optional, optional_single, code_cause,
}
use temporalio_sdk_typescrip.Codecs.Trips.{
  IsLossless, encode-decode, optional_lem, optional_single_lem, code_cause_lem,
}

module _ (codecs : List PayloadCodec) (l : All IsLossless codecs) where
  pub decode-arguments :
      (a b : Option (List Payload))
      → optional (encode codecs) a ≡ some b
      → optional (decode codecs) b ≡ some a
  decode-arguments a b = optional_lem (encode codecs) (decode codecs) (encode-decode codecs l) a b

  pub decode-payload :
      (p q : Option Payload)
      → optional_single (encode codecs) p ≡ some q
      → optional_single (decode codecs) q ≡ some p
  decode-payload p q =
      optional_single_lem (encode codecs) (decode codecs) (encode-decode codecs l) p q

  pub decode-failure :
      (f g : ProtoCause)
      → code_cause (encode codecs) f ≡ some g
      → code_cause (decode codecs) g ≡ some f
  decode-failure f g = code_cause_lem (encode codecs) (decode codecs) (encode-decode codecs l) f g
