-- ===== src/Codecs/Trips.antt =====
-- What codecs encode can be decoded: packages/common/src/internal-non-workflow/codec-helpers.ts.
use temporalio_sdk_typescrip.Prelude.{
  ◌≡◌, refl, sym, ◌∙◌, String, Option, none, some, List, [], ◌∷◌, length, All, arith,
}
use mathlib.Core.Option.{some_inj}
use temporalio_sdk_typescrip.Failure.{
  Payload, ProtoInfo, no_info, server_info, application_info, canceled_info, terminated_info,
  timeout_info, reset_workflow_info, activity_info, child_workflow_info, ProtoFailure, proto,
  ProtoCause, no_cause, because,
}
use temporalio_sdk_typescrip.Codecs.{
  PayloadCodec, after, encode, decode, first_of, single, optional, optional_single, code_info,
  code_failure, code_cause, encode_failure, decode_failure, encode_entries, decode_entries,
  encode_map, decode_optional_map,
}

-- A codec that decodes what it has encoded, and encodes payload by payload.
abbrev pub IsLossless : PayloadCodec → Type 0
IsLossless c =
    (ps qs : List Payload)
    → c.encode_with ps ≡ some qs
    → (c.decode_with qs ≡ some ps) × (length qs ≡ length ps)

-- The same of the coding with a whole list of codecs.
abbrev pub Undoes :
    (List Payload → Option (List Payload)) → (List Payload → Option (List Payload)) → Type 0
Undoes f g = (ps qs : List Payload) → f ps ≡ some qs → (g qs ≡ some ps) × (length qs ≡ length ps)

pub after-some :
    {A B : Type 0} (o : Option A) (f : A → Option B) (b : B)
    → after o f ≡ some b
    → (a : A) × (o ≡ some a) × (f a ≡ some b)
after-some none f b h = ground arith
after-some (some a) f b h = (a, refl, h)

pub encode-decode : (cs : List PayloadCodec) → All IsLossless cs → Undoes (encode cs) (decode cs)
encode-decode [] l ps qs h = (ground arith, ground arith)
encode-decode (c ∷ cs) (l, ls) ps qs h =
    let (rs, e, f) = after-some (c.encode_with ps) (encode cs) qs h in
    let (d, n) = encode-decode cs ls rs qs f in let (x, y) = l ps rs e in (rw (d, x) refl, n ∙ y)

module _ (f g : List Payload → Option (List Payload)) (u : Undoes f g) where
  pub optional_lem : (o q : Option (List Payload)) → optional f o ≡ some q → optional g q ≡ some o
  optional_lem none q h = rw⁻¹ (some_inj.0 h) refl
  optional_lem (some ps) q h =
      let (qs, e, k) = after-some (f ps) (λ x. some (some x)) q h in
      rw⁻¹ (some_inj.0 k) (rw (u ps qs e).0 refl)

  single_lem :
      (p : Payload) (qs : List Payload)
      → f (p ∷ []) ≡ some qs
      → (q : Payload) × (qs ≡ q ∷ []) × (g (q ∷ []) ≡ some (p ∷ []))
  single_lem p [] h = absurd (omega (arith, (u (p ∷ []) [] h).1))
  single_lem p (q ∷ []) h = (q, refl, (u (p ∷ []) (q ∷ []) h).0)
  single_lem p (q ∷ (r ∷ rs)) h = absurd (omega (arith, (u (p ∷ []) (q ∷ (r ∷ rs)) h).1))

  pub optional_single_lem :
      (o q : Option Payload) → optional_single f o ≡ some q → optional_single g q ≡ some o
  optional_single_lem none q h = rw⁻¹ (some_inj.0 h) refl
  optional_single_lem (some p) q h =
      let (qs, e, k) = after-some (f (p ∷ [])) (λ x. some (first_of x)) q h in
      let (r, a, b) = single_lem p qs e in rw⁻¹ (some_inj.0 k) (rw (a, b) refl)

  code_info_lem : (i j : ProtoInfo) → code_info f i ≡ some j → code_info g j ≡ some i
  code_info_lem (application_info t n d) j h =
      let (x, e, k) = after-some (optional f d) (λ d. some (application_info t n d)) j h in
      rw⁻¹ (some_inj.0 k) (rw (optional_lem d x e) refl)
  code_info_lem (timeout_info d t) j h =
      let (x, e, k) = after-some (optional f d) (λ d. some (timeout_info d t)) j h in
      rw⁻¹ (some_inj.0 k) (rw (optional_lem d x e) refl)
  code_info_lem (canceled_info d) j h =
      let (x, e, k) = after-some (optional f d) (λ d. some (canceled_info d)) j h in
      rw⁻¹ (some_inj.0 k) (rw (optional_lem d x e) refl)
  code_info_lem (reset_workflow_info d) j h =
      let (x, e, k) = after-some (optional f d) (λ d. some (reset_workflow_info d)) j h in
      rw⁻¹ (some_inj.0 k) (rw (optional_lem d x e) refl)
  code_info_lem no_info j h = rw⁻¹ (some_inj.0 h) refl
  code_info_lem (server_info n) j h = rw⁻¹ (some_inj.0 h) refl
  code_info_lem terminated_info j h = rw⁻¹ (some_inj.0 h) refl
  code_info_lem (activity_info t i s d) j h = rw⁻¹ (some_inj.0 h) refl
  code_info_lem (child_workflow_info n e t s) j h = rw⁻¹ (some_inj.0 h) refl

  mutual
    unfolding code_failure

    code_failure_lem : (x y : ProtoFailure) → code_failure f x ≡ some y → code_failure g y ≡ some x
    code_failure_lem (proto m s a k i) y h =
        let (b, e, h2) = after-some (optional_single f a) _ y h in
        let (j, e2, h3) = after-some (code_cause f k) _ y h2 in
        let (v, e3, h4) = after-some (code_info f i) _ y h3 in
        rw⁻¹ (some_inj.0 h4)
          (rw (optional_single_lem a b e, code_cause_lem k j e2, code_info_lem i v e3) refl)

    pub code_cause_lem : (x y : ProtoCause) → code_cause f x ≡ some y → code_cause g y ≡ some x
    code_cause_lem no_cause y h = rw⁻¹ (some_inj.0 h) refl
    code_cause_lem (because x) y h =
        let (z, e, k) = after-some (code_failure f x) _ y h in
        rw⁻¹ (some_inj.0 k) (rw (code_failure_lem x z e) refl)

-- A failure that codecs encode is decoded to the same failure, with its causes, by the same codecs:
-- each of them decodes what it has encoded and keeps the number of payloads.
pub decode_failure-encode_failure :
    (cs : List PayloadCodec) (x y : ProtoFailure)
    → All IsLossless cs
    → encode_failure cs x ≡ some y
    → decode_failure cs y ≡ some x
unfolding encode_failure decode_failure
decode_failure-encode_failure cs x y l h =
    code_failure_lem (encode cs) (decode cs) (encode-decode cs l) x y h

-- Entries of a map that all have a payload, and that all hold a list of the one payload.
abbrev pub present : List (String × Payload) → List (String × Option Payload)
present [] = []
present ((k, p) ∷ m) = (k, some p) ∷ present m

abbrev pub listed : List (String × Payload) → List (String × List Payload)
listed [] = []
listed ((k, p) ∷ m) = (k, p ∷ []) ∷ listed m

pub decode_entries-encode_entries :
    (cs : List PayloadCodec)
    → All IsLossless cs
    → (m : List (String × Payload)) (r : List (String × Option Payload))
    → encode_entries cs m ≡ some r
    → (n : List (String × Payload)) × (r ≡ present n) × (decode_entries cs n ≡ some (listed m))
unfolding encode_entries decode_entries
decode_entries-encode_entries cs l [] r h = ([], sym (some_inj.0 h), refl)
decode_entries-encode_entries cs l ((k, p) ∷ m) r h =
    let (q, e, h2) = after-some (single (encode cs) p) _ r h in
    let (t, e2, h3) = after-some (encode_entries cs m) _ r h2 in
    let (qs, e3, h4) = after-some (encode cs (p ∷ [])) (λ x. some (first_of x)) q e in
    let (v, a, b) = single_lem (encode cs) (decode cs) (encode-decode cs l) p qs e3 in
    let (n, c, d) = decode_entries-encode_entries cs l m t e2 in
    ((k, v) ∷ n, rw⁻¹ (some_inj.0 h3) (rw⁻¹ (some_inj.0 h4) (rw (a, c) refl)), rw (b, d) refl)

-- A map whose payloads codecs encode one by one is encoded entry by entry, and decoding it gives,
-- for each key, not the payload that was there but the list that holds it.
pub decode_optional_map-encode_map :
    (cs : List PayloadCodec) (m : List (String × Payload)) (r : List (String × Option Payload))
    → All IsLossless cs
    → encode_map cs (some m) ≡ some (some r)
    → (n : List (String × Payload)) × (r ≡ present n)
      × (decode_optional_map cs (some n) ≡ some (some (listed m)))
unfolding encode_map decode_optional_map
decode_optional_map-encode_map cs m r l h =
    let (t, e, k) = after-some (encode_entries cs m) (λ n. some (some n)) (some r) h in
    let (n, a, b) = decode_entries-encode_entries cs l m t e in
    (n, rw⁻¹ (some_inj.0 (some_inj.0 k)) a, rw b refl)
