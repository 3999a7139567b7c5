-- ===== src/Codecs/Examples.antt =====
-- Examples of codecs.
use temporalio_sdk_typescrip.Prelude.{
  zero, suc, ◌≡◌, refl, false, String, Option, none, some, List, [], ◌∷◌, length, arith,
}
use temporalio_sdk_typescrip.Failure.{
  Payload, ProtoFailure, proto, because, no_cause, no_info, application_info,
}
use temporalio_sdk_typescrip.Codecs.{
  PayloadCodec, encode_failure, decode_failure, code_failure, encode_map, encode_entries,
}
use temporalio_sdk_typescrip.Codecs.Trips.{IsLossless, decode_failure-encode_failure}

-- A codec that adds one to every payload, and one that leaves them as they are.
abbrev pub add_one : List Payload → List Payload
add_one [] = []
add_one (p ∷ ps) = suc p ∷ add_one ps

abbrev pub take_one : List Payload → Option (List Payload)
take_one [] = some []
take_one (zero ∷ ps) = none
take_one (suc p ∷ ps) = elim (take_one ps) [ none ↦ none | some qs ↦ some (p ∷ qs) ]

abbrev pub shifting : PayloadCodec
shifting = record { encode_with = λ ps. some (add_one ps); decode_with = take_one }

abbrev plain : PayloadCodec
plain = record { encode_with = λ ps. some ps; decode_with = λ ps. some ps }

take_one-add_one : (ps : List Payload) → take_one (add_one ps) ≡ some ps
take_one-add_one [] = refl
take_one-add_one (p ∷ ps) = ground (arith, take_one-add_one ps)

length-add_one : (ps : List Payload) → length (add_one ps) ≡ length ps
length-add_one [] = refl
length-add_one (p ∷ ps) = omega (arith, length-add_one ps)

pub shifting-IsLossless : IsLossless shifting
shifting-IsLossless ps qs h =
    (ground (arith, take_one-add_one ps), ground (arith, length-add_one ps))

plain-IsLossless : IsLossless plain
plain-IsLossless ps qs h = (ground arith, ground arith)

abbrev sent : ProtoFailure
sent =
    proto (some "failed") none (some 4) (because (proto none none none no_cause no_info))
      (application_info none false (some (7 ∷ 8 ∷ [])))

abbrev received : ProtoFailure
received =
    proto (some "failed") none (some 5) (because (proto none none none no_cause no_info))
      (application_info none false (some (8 ∷ 9 ∷ [])))

encoded : encode_failure (shifting ∷ plain ∷ []) sent ≡ some received
unfolding encode_failure code_failure
encoded = refl

decode_failure-encode_failure_example : decode_failure (shifting ∷ plain ∷ []) received ≡ some sent
decode_failure-encode_failure_example =
    decode_failure-encode_failure (shifting ∷ plain ∷ []) sent received
      (shifting-IsLossless, (plain-IsLossless, tt)) encoded

abbrev memo : List (String × Payload)
memo = ("a", 1) ∷ ("b", 2) ∷ []

abbrev encoded_memo : List (String × Option Payload)
encoded_memo = ("a", some 2) ∷ ("b", some 3) ∷ []

memo_lem : encode_map (shifting ∷ []) (some memo) ≡ some (some encoded_memo)
unfolding encode_map encode_entries
memo_lem = refl
