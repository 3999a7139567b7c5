-- ===== src/Interceptors.antt =====
-- The composition of interceptors, packages/common/src/interceptors.ts, and of payload converters,
-- `CompositePayloadConverter` of packages/common/src/converter/payload-converter.ts.
pub mod Composition
mod Examples
use temporalio_sdk_typescrip.Prelude.{
  ℕ, zero, suc, ◌-◌, String, Option, none, some, Bool, true, false, if◌then◌else◌, List, [], ◌∷◌,
  ◌++◌, length, get_elem?, lookup, insert, string_key,
}

-- One interceptor's method of the given name, if it has one.
abbrev pub Method : Type 0 → Type 0 → Type 0
Method I O = Option (I → (I → O) → O)

module _ {I O : Type 0} where
  abbrev pub wrap : Option (Method I O) → (I → O) → I → O
  wrap none next = next
  wrap (some none) next = next
  wrap (some (some method)) next = λ input. method input next

  -- The loop from `interceptors.length - 1` down to 0: `i` interceptors are left.
  unfoldable pub compose_from : List (Method I O) → (i : ℕ) → (I → O) → I → O
  compose_from interceptors zero next = next
  compose_from interceptors (suc i) next =
      compose_from interceptors i (wrap (get_elem? interceptors i) next)

  unfoldable pub compose_interceptors : List (Method I O) → (I → O) → I → O
  unfolding compose_from
  compose_interceptors interceptors next = compose_from interceptors (length interceptors) next

-- A payload is its encoding and its content; an encoding that is not there is `none`.
pub record EncodedPayload : Type 0 where
  pub encoding : Option String
  pub content : ℕ

-- PayloadConverterWithEncoding; `from_payload` gives `none` when it throws.
pub record ConverterWithEncoding (V : Type 0) : Type 0 where
  pub encoding_type : String
  pub to_payload : V → Option EncodedPayload
  pub from_payload : EncodedPayload → Option V

abbrev first : Option EncodedPayload → Option EncodedPayload → Option EncodedPayload
first none rest = rest
first (some p) rest = some p

module _ {V : Type 0} where
  -- The map that the constructor fills, in the order of the converters.
  abbrev pub set_all :
      List (String × (ConverterWithEncoding V))
      → List (ConverterWithEncoding V)
      → List (String × (ConverterWithEncoding V))
  set_all by [] = by
  set_all by (c ∷ cs) = set_all (insert c.encoding_type c by) cs

  abbrev pub converter_by_encoding :
      List (ConverterWithEncoding V) → List (String × (ConverterWithEncoding V))
  converter_by_encoding cs = set_all [] cs

  -- `none` is a thrown `ValueError`.
  unfoldable pub to_payload : List (ConverterWithEncoding V) → V → Option EncodedPayload
  to_payload [] v = none
  to_payload (c ∷ cs) v = first (c.to_payload v) (to_payload cs v)

  abbrev decode_with : Option (ConverterWithEncoding V) → EncodedPayload → Option V
  decode_with none p = none
  decode_with (some c) p = c.from_payload p

  abbrev pub from_encoding :
      List (ConverterWithEncoding V) → Option String → EncodedPayload → Option V
  from_encoding cs none p = none
  from_encoding cs (some encoding) p = decode_with (lookup encoding (converter_by_encoding cs)) p

  unfoldable pub from_payload : List (ConverterWithEncoding V) → EncodedPayload → Option V
  from_payload cs p = from_encoding cs p.encoding p
