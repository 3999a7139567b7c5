-- ===== src/Schedule/Descriptions.antt =====
-- A schedule that is described and updated with its description: packages/client/src/schedule-helpers.ts.
use temporalio_sdk_typescrip.Prelude.{
  Option, none, some, List, [], ◌∷◌, map, All, ℤ, pos, if◌then◌else◌, ltb_ℤ, ◌≡◌, refl, Bool-cases,
  inl, inr, arith,
}
use temporalio_sdk_typescrip.Codecs.{after}
use temporalio_sdk_typescrip.Schedule.{
  ProtoRange, LooseRange, range, Input, ranges, triple, within, positive_step, encode_item,
  encode_items, encoder, decode_range, decoder, name_at, month_name, month_number, index_from,
  days_of_week,
}
use temporalio_sdk_typescrip.Schedule.Calendars.{
  self, Described, CalendarSpec, StructuredCalendarSpec, CalendarSpecDescription, encode_calendar,
  encode_calendars, encode_optional_structured_calendar_specs, decode_calendar,
  decode_optional_structured_calendar_specs,
}

-- A described range as an item of an input, if its start is a value.
abbrev pub as_item : {U : Type 0} → Described U → Option (LooseRange U)
as_item (none, end, step) = none
as_item (some start, end, step) =
    some (range (record { start = start; end = end; step = some step }))

abbrev pub as_items : {U : Type 0} → List (Described U) → Option (List (LooseRange U))
as_items [] = some []
as_items (d ∷ ds) = after (as_item d) (λ i. after (as_items ds) (λ is. some (i ∷ is)))

abbrev pub as_input : {U : Type 0} → List (Described U) → Option (Input U)
as_input ds = after (as_items ds) (λ is. some (ranges is))

-- What a range means to the server: it ends at its start at least, and its steps are positive.
abbrev pub normal : ProtoRange → ProtoRange
normal pb =
    triple pb.start (if ltb_ℤ pb.start pb.end then pb.end else pb.start)
      (if ltb_ℤ (pos 0) pb.step then pb.step else pos 1)

positive_step-normal :
    (z : ℤ)
    → positive_step (some (if ltb_ℤ (pos 0) z then z else pos 1))
      ≡ (if ltb_ℤ (pos 0) z then z else pos 1)
positive_step-normal z = ground arith

module _ {U : Type 0} (encode_value : U → Option ℤ) (decode_value : ℤ → Option U) where
  -- A number that stands for a value of the field.
  abbrev pub InField : ℤ → Type 0
  InField z = (u : U) × (decode_value z ≡ some u) × (encode_value u ≡ some z)

  abbrev pub IsInField : ProtoRange → Type 0
  IsInField pb = InField pb.start × InField pb.end

  encode_item-again :
      (pb : ProtoRange)
      → IsInField pb
      → (i : LooseRange U) × (as_item (decode_range decode_value pb) ≡ some i)
        × (encode_item encode_value i ≡ some (normal pb))
  encode_item-again pb ((u, d, e), (w, f, g)) = elim (Bool-cases (ltb_ℤ pb.start pb.end)) [
    | inl q ↦ (
      range (record {
        start = u;
        end = some w;
        step = some (if ltb_ℤ (pos 0) pb.step then pb.step else pos 1);
      }),
      rw (d, q, f) refl,
      rw (e, q, g, positive_step-normal pb.step) refl,
    )
    | inr q ↦ (
      range (record {
        start = u;
        end = some u;
        step = some (if ltb_ℤ (pos 0) pb.step then pb.step else pos 1);
      }),
      rw (d, q) refl,
      rw (e, q, positive_step-normal pb.step) (rw e refl),
    )
  ]

  encode_items-again :
      (pbs : List ProtoRange)
      → All IsInField pbs
      → (is : List (LooseRange U)) × (as_items (decoder decode_value (some pbs)) ≡ some is)
        × (encode_items encode_value is ≡ some (map normal pbs))
  unfolding decoder
  encode_items-again [] h = ([], refl, refl)
  encode_items-again (pb ∷ pbs) (h, hs) =
      let (i, a, b) = encode_item-again pb h in
      let (is, c, d) = encode_items-again pbs hs in (i ∷ is, rw (a, c) refl, rw (b, d) refl)

-- The description of a calendar as the input of an update.
unfoldable pub as_spec : CalendarSpecDescription → Option CalendarSpec
as_spec d = after (as_input d.second) (λ second. after (as_input d.minute) (λ minute.
    after (as_input d.hour) (λ hour. after (as_input d.day_of_month) (λ day_of_month.
      after (as_input d.month) (λ month. after (as_input d.year) (λ year.
        after (as_input d.day_of_week) (λ day_of_week. some (record {
          second = second;
          minute = minute;
          hour = hour;
          day_of_month = day_of_month;
          month = month;
          year = year;
          day_of_week = day_of_week;
          comment = d.comment;
        }))))))))

unfoldable pub as_specs : List CalendarSpecDescription → Option (List CalendarSpec)
as_specs [] = some []
as_specs (d ∷ ds) = after (as_spec d) (λ s. after (as_specs ds) (λ ss. some (s ∷ ss)))

abbrev pub normal_calendar : StructuredCalendarSpec → StructuredCalendarSpec
normal_calendar pb = record {
  second = map normal pb.second;
  minute = map normal pb.minute;
  hour = map normal pb.hour;
  day_of_month = map normal pb.day_of_month;
  month = map normal pb.month;
  year = map normal pb.year;
  day_of_week = map normal pb.day_of_week;
  comment = pb.comment;
}

-- Each range of a calendar starts and ends with values of its field.
abbrev pub AreInFields : StructuredCalendarSpec → Type 0
AreInFields pb =
    All (IsInField (within (pos 0) (pos 59)) self) pb.second
    × All (IsInField (within (pos 0) (pos 59)) self) pb.minute
    × All (IsInField (within (pos 0) (pos 23)) self) pb.hour
    × All (IsInField (within (pos 0) (pos 31)) self) pb.day_of_month
    × All (IsInField month_number month_name) pb.month
    × All (IsInField self self) pb.year
    × All (IsInField (index_from 0 days_of_week) (name_at days_of_week)) pb.day_of_week

calendar-again :
    (pb : StructuredCalendarSpec)
    → AreInFields pb
    → (spec : CalendarSpec) × (as_spec (decode_calendar pb) ≡ some spec)
      × (encode_calendar spec ≡ some (normal_calendar pb))
unfolding as_spec decode_calendar encode_calendar encoder
calendar-again pb (s, m, h, d, n, y, w) =
    let (i1, a1, b1) = encode_items-again (within (pos 0) (pos 59)) self pb.second s in
    let (i2, a2, b2) = encode_items-again (within (pos 0) (pos 59)) self pb.minute m in
    let (i3, a3, b3) = encode_items-again (within (pos 0) (pos 23)) self pb.hour h in
    let (i4, a4, b4) = encode_items-again (within (pos 0) (pos 31)) self pb.day_of_month d in
    let (i5, a5, b5) = encode_items-again month_number month_name pb.month n in
    let (i6, a6, b6) = encode_items-again self self pb.year y in
    let (i7, a7, b7) =
      encode_items-again (index_from 0 days_of_week) (name_at days_of_week) pb.day_of_week w in
    (
      record {
        second = ranges i1;
        minute = ranges i2;
        hour = ranges i3;
        day_of_month = ranges i4;
        month = ranges i5;
        year = ranges i6;
        day_of_week = ranges i7;
        comment = pb.comment;
      },
      rw (a1, a2, a3, a4, a5, a6, a7) refl,
      rw (b1, b2, b3, b4, b5, b6, b7) refl,
    )

calendars-again :
    (pbs : List StructuredCalendarSpec)
    → All AreInFields pbs
    → (specs : List CalendarSpec) × (as_specs (decode_optional_structured_calendar_specs (some pbs))
        ≡ some specs)
      × (encode_calendars specs ≡ some (map normal_calendar pbs))
unfolding as_specs decode_optional_structured_calendar_specs
calendars-again [] h = ([], refl, refl)
calendars-again (pb ∷ pbs) (h, hs) =
    let (spec, a, b) = calendar-again pb h in
    let (specs, c, d) = calendars-again pbs hs in (spec ∷ specs, rw (a, c) refl, rw (b, d) refl)

-- The calendars of a schedule whose ranges start and end with values of their fields are described,
-- and their description is given to an update: what is sent to the server are the same calendars,
-- with the same comments, where a range that ends before its start ends at its start, and a step that
-- is not positive is 1.
pub as_specs-normal_calendar :
    (pbs : List StructuredCalendarSpec)
    → All AreInFields pbs
    → (specs : List CalendarSpec) × (as_specs (decode_optional_structured_calendar_specs (some pbs))
        ≡ some specs)
      × (encode_optional_structured_calendar_specs (some specs)
          ≡ some (some (map normal_calendar pbs)))
unfolding encode_optional_structured_calendar_specs
as_specs-normal_calendar pbs h = let (specs, a, b) = calendars-again pbs h in (specs, a, rw b refl)
