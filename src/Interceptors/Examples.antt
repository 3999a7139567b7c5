-- ===== src/Interceptors/Examples.antt =====
-- Examples of composed interceptors and converters.
use temporalio_sdk_typescrip.Prelude.{
  ℕ, suc, ◌+◌, ◌*◌, ◌≡◌, refl, Option, none, some, [], ◌∷◌, arith, if◌then◌else◌, ◌==◌,
}
use temporalio_sdk_typescrip.Interceptors.{
  Method, compose_interceptors, EncodedPayload, ConverterWithEncoding, to_payload, from_payload,
}
use temporalio_sdk_typescrip.Interceptors.Composition.{
  nested, compose_interceptors-nested, IsLossless, from_payload-to_payload,
}

abbrev adding : Method ℕ ℕ
adding = some (λ input next. next (input + 1))

abbrev doubling : Method ℕ ℕ
doubling = some (λ input next. next input * 2)

compose_interceptors-nested_example :
    compose_interceptors (adding ∷ none ∷ doubling ∷ []) suc
    ≡ nested (adding ∷ none ∷ doubling ∷ []) suc
compose_interceptors-nested_example =
    compose_interceptors-nested (adding ∷ none ∷ doubling ∷ []) suc

-- One converter takes the value 0 alone, the other takes every value.
abbrev null_payload : ℕ → Option EncodedPayload
null_payload v =
    if v == 0 then some (record { encoding = some "binary/null"; content = 0 }) else none

abbrev null : ConverterWithEncoding ℕ
null = record {
  encoding_type = "binary/null";
  to_payload = null_payload;
  from_payload = λ p. some 0;
}

abbrev json : ConverterWithEncoding ℕ
json = record {
  encoding_type = "json/plain";
  to_payload = λ v. some (record { encoding = some "json/plain"; content = v });
  from_payload = λ p. some p.content;
}

null-IsLossless : IsLossless null
null-IsLossless v p h = ground arith

json-IsLossless : IsLossless json
json-IsLossless v p h = ground arith

abbrev seven : EncodedPayload
seven = record { encoding = some "json/plain"; content = 7 }

converted : to_payload (null ∷ json ∷ []) 7 ≡ some seven
unfolding to_payload
converted = refl

from_payload-to_payload_example : from_payload (null ∷ json ∷ []) seven ≡ some 7
from_payload-to_payload_example =
    from_payload-to_payload (null ∷ json ∷ []) 7 seven (refl, (refl, tt))
      (null-IsLossless, (json-IsLossless, tt)) converted
