-- ===== src/Codecs.antt =====
-- Payload codecs: packages/common/src/internal-non-workflow/codec-helpers.ts. A codec maps a list of
-- payloads to another; `none` is a rejected promise. The results of a `Promise.all` are taken in
-- order.
pub mod Trips
pub mod Examples
use temporalio_sdk_typescrip.Prelude.{
  ℕ, zero, suc, String, Option, none, some, List, [], ◌∷◌, length, get_elem?,
}
use temporalio_sdk_typescrip.Failure.{
  Payload, ProtoInfo, no_info, server_info, application_info, canceled_info, terminated_info,
  timeout_info, reset_workflow_info, activity_info, child_workflow_info, ProtoFailure, proto,
  ProtoCause, no_cause, because,
}

-- The interface `PayloadCodec`, which the user supplies.
pub record PayloadCodec : Type 0 where
  pub encode_with : List Payload → Option (List Payload)
  pub decode_with : List Payload → Option (List Payload)

abbrev pub after : {A B : Type 0} → Option A → (A → Option B) → Option B
after none f = none
after (some x) f = f x

-- The first codec first: the loop of `encode` over the list.
abbrev pub encode : List PayloadCodec → List Payload → Option (List Payload)
encode [] payloads = some payloads
encode (codec ∷ codecs) payloads = after (codec.encode_with payloads) (encode codecs)

-- The last codec first: the loop of `decode` from the end of the list.
abbrev pub decode : List PayloadCodec → List Payload → Option (List Payload)
decode [] payloads = some payloads
decode (codec ∷ codecs) payloads = after (decode codecs payloads) codec.decode_with

-- `[payload] = ...`: the first payload, or `undefined`.
abbrev pub first_of : List Payload → Option Payload
first_of [] = none
first_of (p ∷ ps) = some p

-- The coding of one payload; an empty answer of a codec gives `undefined`.
abbrev pub single : (List Payload → Option (List Payload)) → Payload → Option (Option Payload)
single code p = after (code (p ∷ [])) (λ ps. some (first_of ps))

abbrev pub optional :
    (List Payload → Option (List Payload)) → Option (List Payload) → Option (Option (List Payload))
optional code none = some none
optional code (some ps) = after (code ps) (λ qs. some (some qs))

abbrev pub optional_single :
    (List Payload → Option (List Payload)) → Option Payload → Option (Option Payload)
optional_single code none = some none
optional_single code (some p) = single code p

module _ (code : List Payload → Option (List Payload)) where
  -- The information of a failure with its payloads coded.
  abbrev pub code_info : ProtoInfo → Option ProtoInfo
  code_info (application_info type non_retryable details) =
      after (optional code details) (λ d. some (application_info type non_retryable d))
  code_info (timeout_info details type) =
      after (optional code details) (λ d. some (timeout_info d type))
  code_info (canceled_info details) = after (optional code details) (λ d. some (canceled_info d))
  code_info (reset_workflow_info details) =
      after (optional code details) (λ d. some (reset_workflow_info d))
  code_info info = some info

  unfoldable mutual
    pub code_failure : ProtoFailure → Option ProtoFailure
    code_failure (proto m s attributes cause info) =
        after (optional_single code attributes) (λ a.
          after (code_cause cause) (λ k. after (code_info info) (λ i. some (proto m s a k i))))

    pub code_cause : ProtoCause → Option ProtoCause
    code_cause no_cause = some no_cause
    code_cause (because f) = after (code_failure f) (λ g. some (because g))

-- The two functions have the same text, with one loop or the other.
unfoldable pub encode_failure : List PayloadCodec → ProtoFailure → Option ProtoFailure
encode_failure codecs f = code_failure (encode codecs) f

unfoldable pub decode_failure : List PayloadCodec → ProtoFailure → Option ProtoFailure
decode_failure codecs f = code_failure (decode codecs) f

module _ (codecs : List PayloadCodec) where
  unfoldable pub encode_entries : List (String × Payload) → Option (List (String × Option Payload))
  encode_entries [] = some []
  encode_entries ((k, p) ∷ m) =
      after (single (encode codecs) p) (λ q. after (encode_entries m) (λ n. some ((k, q) ∷ n)))

  unfoldable pub encode_map :
      Option (List (String × Payload)) → Option (Option (List (String × Option Payload)))
  encode_map none = some none
  encode_map (some m) = after (encode_entries m) (λ n. some (some n))

  -- An entry of `decodeOptionalMap` is the whole list that `decode` gives.
  unfoldable pub decode_entries : List (String × Payload) → Option (List (String × List Payload))
  decode_entries [] = some []
  decode_entries ((k, p) ∷ m) =
      after (decode codecs (p ∷ [])) (λ qs. after (decode_entries m) (λ n. some ((k, qs) ∷ n)))

  unfoldable pub decode_optional_map :
      Option (List (String × Payload)) → Option (Option (List (String × List Payload)))
  decode_optional_map none = some none
  decode_optional_map (some m) = after (decode_entries m) (λ n. some (some n))
