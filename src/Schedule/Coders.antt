-- ===== src/Schedule/Coders.antt =====
-- What a calendar field is after a trip through the coders of packages/client/src/schedule-helpers.ts.
use temporalio_sdk_typescrip.Prelude.{
  ◌≡◌, refl, Bool, true, false, if◌then◌else◌, Option, none, some, List, [], ◌∷◌, map, All, ℤ, pos,
  negsuc, ltb_ℤ, arith,
}
use temporalio_sdk_typescrip.Schedule.{
  ProtoRange, LooseRange, range, value, ranges, triple, positive_step, encode_range, encode_item,
  encoder, decode_range, decoder,
}

ltb_ℤ_irrefl : (z : ℤ) → ltb_ℤ z z ≡ false
ltb_ℤ_irrefl (pos n) = ground arith
ltb_ℤ_irrefl (negsuc n) = ground arith

positive_step-ltb_ℤ : (s : Option ℤ) → ltb_ℤ (pos 0) (positive_step s) ≡ true
positive_step-ltb_ℤ none = refl
positive_step-ltb_ℤ (some z) = ground arith

module _ {U : Type 0} (encode_value : U → Option ℤ) (decode_value : ℤ → Option U)
    (inverse : (u : U) (z : ℤ) → encode_value u ≡ some z → decode_value z ≡ some u) where
  -- An item whose values are values of the field.
  abbrev EndEncodes : Option U → Type 0
  EndEncodes none = Unit
  EndEncodes (some u) = (z : ℤ) × (encode_value u ≡ some z)

  abbrev pub Encodes : LooseRange U → Type 0
  Encodes (value u) = (z : ℤ) × (encode_value u ≡ some z)
  Encodes (range r) = ((z : ℤ) × (encode_value r.start ≡ some z)) × EndEncodes r.end

  -- What an item means: a value is the range of that value alone, and an end before the start stands
  -- for the start. A range with no end ends at the number 1, if it starts before.
  abbrev pub starts_before : Option ℤ → Option ℤ → Bool
  starts_before (some a) (some b) = ltb_ℤ a b
  starts_before _ _ = false

  abbrev pub end_of : U → Option U → Option U
  end_of start none =
      if starts_before (encode_value start) (some (pos 1))
      then elim (decode_value (pos 1)) [ none ↦ some start | some u ↦ some u ]
      else some start
  end_of start (some end) =
      if starts_before (encode_value start) (encode_value end) then some end else some start

  abbrev pub described : LooseRange U → Option U × Option U × ℤ
  described (value u) = (some u, some u, pos 1)
  described (range r) = (some r.start, end_of r.start r.end, positive_step r.step)

  encode_item-decode_range :
      (i : LooseRange U)
      → Encodes i
      → (pb : ProtoRange) × (encode_item encode_value i ≡ some pb)
        × (decode_range decode_value pb ≡ described i)
  encode_item-decode_range (value u) (z, e) =
      (triple z z (pos 1), rw e refl, rw (inverse u z e, ltb_ℤ_irrefl z) refl)
  encode_item-decode_range (range r) ((z, e), h) = by-end r.end h
    where
      by-end :
          (end : Option U)
          → EndEncodes end
          → (pb : ProtoRange) × (encode_range encode_value
                (record { start = r.start; end = end; step = r.step })
                (encode_value r.start)
              ≡ some pb)
            × (decode_range decode_value pb
                ≡ (some r.start, end_of r.start end, positive_step r.step))
      by-end none h = (
        triple z (pos 1) (positive_step r.step),
        rw e refl,
        ground (arith, inverse r.start z e, positive_step-ltb_ℤ r.step),
      )
      by-end (some u) (y, f) = (
        triple z y (positive_step r.step),
        rw (e, f) refl,
        ground (arith, inverse r.start z e, inverse u y f, positive_step-ltb_ℤ r.step),
      )

  -- A field that is given by its items is encoded, and decodes to what the items mean, in their
  -- order: the values encode, and decoding a value's number gives the value back.
  pub encoder-decoder :
      (d m : List ProtoRange) (items : List (LooseRange U))
      → All Encodes items
      → (pbs : List ProtoRange) × (encoder encode_value d m (ranges items) ≡ some pbs)
        × (decoder decode_value (some pbs) ≡ map described items)
  unfolding encoder decoder
  encoder-decoder d m [] h = ([], refl, refl)
  encoder-decoder d m (i ∷ is) (h, k) =
      let (pb, e, f) = encode_item-decode_range i h in
      let (pbs, p, q) = encoder-decoder d m is k in (pb ∷ pbs, rw (e, p) refl, rw (f, q) refl)
