-- ===== src/Interceptors/Composition.antt =====
-- The order in which composed interceptors run, packages/common/src/interceptors.ts, and the trip of a
-- value through a composite converter, packages/common/src/converter/payload-converter.ts.
use temporalio_sdk_typescrip.Prelude.{
  ℕ, zero, suc, ◌≡◌, refl, ◌∙◌, ap, String, some, Bool, false, List, [], ◌∷◌, length, get_elem?,
  lookup, insert, lookup-insert, string_key, str_eq, eq_iff, All, any, arith, Option-cases, inl,
  inr,
}
use temporalio_sdk_typescrip.Interceptors.{
  Method, wrap, compose_from, compose_interceptors, EncodedPayload, ConverterWithEncoding,
  to_payload, from_payload, set_all,
}

module _ {I O : Type 0} where
  -- The methods one around the other, the first outermost; an interceptor without it is left out.
  abbrev pub nested : List (Method I O) → (I → O) → I → O
  nested [] next = next
  nested (m ∷ ms) next = wrap (some m) (nested ms next)

  compose_shift :
      (m : Method I O) (ms : List (Method I O)) (i : ℕ) (next : I → O)
      → compose_from (m ∷ ms) (suc i) next ≡ wrap (some m) (compose_from ms i next)
  unfolding compose_from
  compose_shift m ms zero next = refl
  compose_shift m ms (suc i) next = compose_shift m ms i (wrap (get_elem? ms i) next)

  -- The composed method runs the interceptors that have the method in the order of the list, each
  -- around those after it, with the original function innermost.
  pub compose_interceptors-nested :
      (ms : List (Method I O)) (next : I → O) → compose_interceptors ms next ≡ nested ms next
  unfolding compose_interceptors compose_from
  compose_interceptors-nested [] next = refl
  compose_interceptors-nested (m ∷ ms) next =
      compose_shift m ms (length ms) next ∙ ap (wrap (some m)) (compose_interceptors-nested ms next)

module _ {V : Type 0} where
  abbrev has_encoding : String → ConverterWithEncoding V → Bool
  has_encoding s c = str_eq c.encoding_type s

  -- Converters of different encodings.
  abbrev pub AreDistinct : List (ConverterWithEncoding V) → Type 0
  AreDistinct [] = Unit
  AreDistinct (c ∷ cs) = (any (has_encoding c.encoding_type) cs ≡ false) × AreDistinct cs

  -- A converter that marks what it makes with its encoding, and reads it back.
  abbrev pub IsLossless : ConverterWithEncoding V → Type 0
  IsLossless c =
      (v : V) (p : EncodedPayload)
      → c.to_payload v ≡ some p
      → (p.encoding ≡ some c.encoding_type) × (c.from_payload p ≡ some v)

  lookup-set_all_other :
      (s : String) (cs : List (ConverterWithEncoding V))
      (by : List (String × ConverterWithEncoding V))
      → any (has_encoding s) cs ≡ false
      → lookup s (set_all by cs) ≡ lookup s by
  lookup-set_all_other s [] by h = refl
  lookup-set_all_other s (c ∷ cs) by h = ground (
    arith,
    lookup-set_all_other s cs (insert c.encoding_type c by),
    lookup-insert c.encoding_type s c by,
  )

  -- The converter that the map has for a payload gives back the value.
  abbrev Comes : V → EncodedPayload → List (String × ConverterWithEncoding V) → Type 0
  Comes v p by =
      (s : String) × (c : ConverterWithEncoding V) × (p.encoding ≡ some s)
      × (lookup s by ≡ some c)
      × (c.from_payload p ≡ some v)

  to_payload-Comes :
      (v : V) (p : EncodedPayload) (cs : List (ConverterWithEncoding V))
      (by : List (String × ConverterWithEncoding V))
      → AreDistinct cs
      → All IsLossless cs
      → to_payload cs v ≡ some p
      → Comes v p (set_all by cs)
  unfolding to_payload
  to_payload-Comes v p [] by d l e = ground arith
  to_payload-Comes v p (c ∷ cs) by (d, ds) (l, ls) e = elim (Option-cases (c.to_payload v)) [
    | inl n ↦ to_payload-Comes v p cs (insert c.encoding_type c by) ds ls (rw⁻¹ e (ground arith))
    | inr (q, f) ↦
        let (a, b) = l v p (ground arith) in
        (
          c.encoding_type,
          c,
          a,
          ground (
            arith,
            lookup-set_all_other c.encoding_type cs (insert c.encoding_type c by) d,
            lookup-insert c.encoding_type c.encoding_type c by,
            eq_iff c.encoding_type c.encoding_type,
          ),
          b,
        )
  ]

  -- A value that a composite converter converts comes back from the payload: the converter that made
  -- it is found by its encoding. The converters have different encodings, and each marks its
  -- payloads with its encoding and reads them back.
  pub from_payload-to_payload :
      (cs : List (ConverterWithEncoding V)) (v : V) (p : EncodedPayload)
      → AreDistinct cs
      → All IsLossless cs
      → to_payload cs v ≡ some p
      → from_payload cs p ≡ some v
  unfolding from_payload
  from_payload-to_payload cs v p d l e =
      let (s, c, a, b, f) = to_payload-Comes v p cs [] d l e in ground arith
