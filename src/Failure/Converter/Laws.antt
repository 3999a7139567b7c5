-- ===== src/Failure/Converter/Laws.antt =====
-- What an error is after a trip through packages/common/src/converter/failure-converter.ts.
use temporalio_sdk_typescrip.Prelude.{
  String, ◌≡◌, refl, ap, Bool, true, false, Option, none, some, if◌then◌else◌, List, [], ◌∷◌,
  str_eq, All, arith,
}
use mathlib.Core.Option.{some_inj}
use temporalio_sdk_typescrip.Failure.{
  Value, undefined, attributes, Payload, PayloadConverter, Info, ProtoInfo, no_info, server_info,
  application_info, canceled_info, terminated_info, timeout_info, activity_info,
  child_workflow_info, ProtoFailure, proto, ProtoCause, no_cause, because, JsError, temporal,
  native, continue_as_new, do_backoff, thrown, Cause, uncaused, caused, base, server, application,
  cancelled, terminated, timeout, activity, child_workflow, already_started,
}
use temporalio_sdk_typescrip.Failure.Converter.{
  Language, child_failed, over, values_from, array_from, payloads_of, details_of, info_from,
  error_for, with_attributes, failure_to_error, optional_failure_to_optional_error,
  cutoff_stack_trace, heartbeat_is_true, is_true_error, info_to, failure_of, encoded, then_encoded,
  error_to_failure, after_conversion, error_to_failure_inner, optional_error_to_optional_failure,
}

-- An error without the failures that it and its causes were made from.
unfoldable mutual
  pub forget : JsError → JsError
  forget (temporal m s f i k) = temporal m s none i (forget_cause k)
  forget e = e

  pub forget_cause : Cause → Cause
  forget_cause uncaused = uncaused
  forget_cause (caused e) = caused (forget e)

module _ (l : Language) (c : PayloadConverter) where
  -- A value that comes back from the payload converter as it went in.
  abbrev pub Fits : Value → Type 0
  Fits v = (p : Payload) × (c.to_payload v ≡ some p) × (c.from_payload p ≡ some v)

  payloads_of-values_from :
      (vs : List Value)
      → All Fits vs
      → (ps : List Payload) × (payloads_of c vs ≡ some ps) × (values_from c ps ≡ some vs)
  payloads_of-values_from [] h = ([], refl, refl)
  payloads_of-values_from (v ∷ vs) ((p, e, f), h) =
      let (ps, g, k) = payloads_of-values_from vs h in (p ∷ ps, rw (e, g) refl, rw (f, k) refl)

  details_of-array_from :
      (vs : List Value)
      → All Fits vs
      → (d : Option (List Payload)) × (details_of c vs ≡ some d) × (array_from c d ≡ some vs)
  details_of-array_from [] h = (none, refl, refl)
  details_of-array_from (v ∷ vs) h =
      let (ps, g, k) = payloads_of-values_from (v ∷ vs) h in (some ps, rw g refl, k)

  -- What the fields need for the trip, and what they are after it.
  abbrev pub InfoFits : Info → Type 0
  InfoFits (application type n vs) = All Fits vs
  InfoFits (cancelled vs) = All Fits vs
  InfoFits (timeout v type) = Fits v
  InfoFits (activity type id state identity) = str_eq type "" ≡ false
  InfoFits (child_workflow namespace execution type state) = str_eq type "" ≡ false
  InfoFits _ = Unit

  abbrev pub received_info : Info → Info
  received_info (timeout v type) = timeout (if heartbeat_is_true l v then v else undefined) type
  received_info (already_started _ _) = base
  received_info i = i

  info_to-info_from :
      (i : Info)
      → InfoFits i
      → (pi : ProtoInfo) × (info_to l c i ≡ some pi) × (info_from c pi ≡ some (received_info i))
  info_to-info_from base h = (no_info, refl, refl)
  info_to-info_from (server n) h = (server_info n, refl, refl)
  info_to-info_from (application type n vs) h =
      let (d, e, f) = details_of-array_from vs h in
      (application_info type n d, rw e refl, rw f refl)
  info_to-info_from (cancelled vs) h =
      let (d, e, f) = details_of-array_from vs h in (canceled_info d, rw e refl, rw f refl)
  info_to-info_from terminated h = (terminated_info, refl, refl)
  info_to-info_from (timeout v type) h = by-truth (heartbeat_is_true l v) h
    where
      by-truth :
          (b : Bool)
          → Fits v
          → (pi : ProtoInfo) × (over
                (λ d. timeout_info d (some type))
                (if b then over (λ p. some (p ∷ [])) (c.to_payload v) else some none)
              ≡ some pi)
            × (info_from c pi ≡ some (timeout (if b then v else undefined) type))
      by-truth true (p, e, f) = (timeout_info (some (p ∷ [])) (some type), rw e refl, rw f refl)
      by-truth false h = (timeout_info none (some type), refl, refl)
  info_to-info_from (activity type id state identity) h =
      (activity_info (some type) id (some state) identity, refl, rw h refl)
  info_to-info_from (child_workflow namespace execution type state) h =
      (child_workflow_info namespace (some execution) (some type) (some state), refl, rw h refl)
  info_to-info_from (already_started _ _) h = (no_info, refl, refl)

  module _ (encode : Bool) where
    -- With encoded common attributes, the message and the stack go through the payload converter.
    abbrev pub CommonFits : Bool → String → List String → Type 0
    CommonFits true m s = Fits (attributes (some m) (some (cutoff_stack_trace l s)))
    CommonFits false m s = Unit

    unfoldable mutual
      -- An error with a message and a stack that was not made from a failure, with a type name where
      -- it needs one, and likewise its causes.
      pub Sendable : JsError → Type 0
      Sendable (temporal m s none i k) = CommonFits encode m s × InfoFits i × CauseSendable k
      Sendable (native n m s k) = CommonFits encode m s × CauseSendable k
      Sendable _ = ⊥

      pub CauseSendable : Cause → Type 0
      CauseSendable uncaused = Unit
      CauseSendable (caused e) = Sendable e

  abbrev received_message : String → Info → String
  received_message m (child_workflow _ _ _ _) = child_failed
  received_message m i = m

  abbrev kept_cause : Info → Cause → Cause
  kept_cause (timeout _ _) k = uncaused
  kept_cause i k = k

  -- The error that comes back, without the field `failure`.
  unfoldable mutual
    pub received : JsError → JsError
    received (temporal m s f i k) =
        temporal (received_message m i) (cutoff_stack_trace l s) none (received_info i)
          (kept_cause i (received_cause k))
    received (native n m s k) = temporal m (cutoff_stack_trace l s) none base (received_cause k)
    received (continue_as_new x) = continue_as_new x
    received (do_backoff n d) = do_backoff n d
    received (thrown x) = thrown x

    pub received_cause : Cause → Cause
    received_cause uncaused = uncaused
    received_cause (caused e) = caused (received e)

  -- The common part of the trip: whatever the encoded attributes, the class and the fields are those
  -- of the failure's own information.
  encoded-failure_to_error :
      (encode : Bool) (m : String) (s : List String) (pc : ProtoCause) (pi : ProtoInfo)
      → CommonFits encode encode m s
      → (g : ProtoFailure) × (enc : Option Payload) × (encoded l c encode
            (proto (some m) (some (cutoff_stack_trace l s)) none pc pi)
          ≡ some g)
        × (failure_to_error c g
            ≡ error_for c
                (proto (some m) (some (cutoff_stack_trace l s)) enc pc pi)
                (optional_failure_to_optional_error c pc)
                (info_from c pi))
  unfolding failure_to_error with_attributes
  encoded-failure_to_error false m s pc pi h =
      (proto (some m) (some (cutoff_stack_trace l s)) none pc pi, none, refl, refl)
  encoded-failure_to_error true m s pc pi (p, e, f) =
      (proto (some "Encoded failure") (some []) (some p) pc pi, some p, rw e refl, rw f refl)

  module _ (encode : Bool) where
    -- The trip of an error, and of a cause.
    abbrev Arrives : JsError → Type 0
    Arrives e =
        (f : ProtoFailure) × (g : JsError) × (then_encoded l c encode
            (error_to_failure_inner l c encode e)
          ≡ some f)
        × (failure_to_error c f ≡ some g)
        × (forget g ≡ received e)

    abbrev CauseArrives : Cause → Type 0
    CauseArrives k =
        (pc : ProtoCause) × (j : Cause) × (optional_error_to_optional_failure l c encode k
          ≡ some pc)
        × (optional_failure_to_optional_error c pc ≡ some j)
        × (forget_cause j ≡ received_cause k)

    -- The error that is made from the received fields and cause.
    abbrev Made : String → List String → Info → Cause → Cause → ProtoFailure → Type 0
    Made m s i k j f =
        (g : JsError) × (error_for c f (some j) (some (received_info i)) ≡ some g)
        × (forget g ≡ received (temporal m s none i k))

    error_for-Made :
        (m : String) (s : List String) (i : Info) (k j : Cause) (enc : Option Payload)
        (pc : ProtoCause) (pi : ProtoInfo)
        → forget_cause j ≡ received_cause k
        → Made m s i k j (proto (some m) (some (cutoff_stack_trace l s)) enc pc pi)
    unfolding received forget
    error_for-Made m s (timeout v type) k j enc pc pi r = (_, refl, refl)
    error_for-Made m s base k j enc pc pi r = (_, refl, rw r refl)
    error_for-Made m s (server n) k j enc pc pi r = (_, refl, rw r refl)
    error_for-Made m s (application t n d) k j enc pc pi r = (_, refl, rw r refl)
    error_for-Made m s (cancelled d) k j enc pc pi r = (_, refl, rw r refl)
    error_for-Made m s terminated k j enc pc pi r = (_, refl, rw r refl)
    error_for-Made m s (activity t d n o) k j enc pc pi r = (_, refl, rw r refl)
    error_for-Made m s (child_workflow d e t n) k j enc pc pi r = (_, refl, rw r refl)
    error_for-Made m s (already_started d t) k j enc pc pi r = (_, refl, rw r refl)

    with_cause :
        (m : String) (s : List String) (i : Info) (k : Cause)
        → CommonFits encode encode m s
        → InfoFits i
        → CauseArrives k
        → (f : ProtoFailure) × (g : JsError) × (then_encoded l c encode
              (failure_of l c m s (optional_error_to_optional_failure l c encode k) (info_to l c i))
            ≡ some f)
          × (failure_to_error c f ≡ some g)
          × (forget g ≡ received (temporal m s none i k))
    with_cause m s i k h n (pc, j, e, w, r) =
        let (pi, a, b) = info_to-info_from i n in
        let (f, enc, d, q) = encoded-failure_to_error encode m s pc pi h in
        let (g, u, v) = error_for-Made m s i k j enc pc pi r in
        (f, g, rw (e, a) d, rw (q, w, b) u, v)

    Sendable-is_true_error : (e : JsError) → Sendable encode e → is_true_error l e ≡ true
    unfolding Sendable
    Sendable-is_true_error (temporal m s none i k) h = refl
    Sendable-is_true_error (temporal m s (some f) i k) h = refl
    Sendable-is_true_error (native n m s k) h = refl
    Sendable-is_true_error (continue_as_new x) h = refl
    Sendable-is_true_error (do_backoff n d) h = refl
    Sendable-is_true_error (thrown x) h = absurd h

    caused-Arrives : (e : JsError) → is_true_error l e ≡ true → Arrives e → CauseArrives (caused e)
    unfolding error_to_failure_inner failure_to_error received forget
    caused-Arrives e t (f, g, a, b, r) =
        (because f, caused g, rw (t, a) refl, rw b refl, ap caused r)

    mutual
      unfolding Sendable error_to_failure_inner failure_to_error received forget

      Sendable-Arrives : (e : JsError) → Sendable encode e → Arrives e
      Sendable-Arrives (temporal m s none i k) (h, n, q) =
          with_cause m s i k h n (Sendable-CauseArrives k q)
      Sendable-Arrives (temporal m s (some f) i k) h = absurd h
      Sendable-Arrives (native n m s k) (h, q) =
          with_cause m s base k h tt (Sendable-CauseArrives k q)
      Sendable-Arrives (continue_as_new x) h = absurd h
      Sendable-Arrives (do_backoff n d) h = absurd h
      Sendable-Arrives (thrown x) h = absurd h

      Sendable-CauseArrives : (k : Cause) → CauseSendable encode k → CauseArrives k
      Sendable-CauseArrives uncaused h = (no_cause, uncaused, refl, refl, refl)
      Sendable-CauseArrives (caused e) h =
          caused-Arrives e (Sendable-is_true_error e h) (Sendable-Arrives e h)

    -- The trip of an error through `errorToFailure` and `failureToError`, also with encoded common
    -- attributes: both return, and what comes back is the error and its causes with their messages,
    -- classes and fields and their stacks up to the cutoff, except that an error of no SDK class
    -- comes back as a `TemporalFailure`, a `ChildWorkflowFailure` has its fixed message, and a timeout
    -- loses its cause, and its heartbeat details if they count as false. The error and its causes
    -- have a message and a stack and no cached failure, their type names are not empty, and the
    -- payload converter brings back their values and encoded attributes.
    pub failure_to_error-error_to_failure :
        (e : JsError)
        → Sendable encode e
        → (f : ProtoFailure) × (g : JsError) × (error_to_failure l c encode e ≡ some f)
          × (failure_to_error c f ≡ some g)
          × (forget g ≡ received e)
    unfolding error_to_failure
    failure_to_error-error_to_failure e h = Sendable-Arrives e h

  -- With encoded common attributes, `errorToFailure` writes to the failure that an error was made
  -- from. A second conversion of the same error then encodes the placeholder: whatever message and
  -- stack the failure had, its encoded attributes hold "Encoded failure" and an empty stack.
  pub error_to_failure-after_conversion :
      (m : String) (s : List String) (i : Info) (k : Cause) (m' : Option String)
      (s' : Option (List String)) (enc : Option Payload) (pc : ProtoCause) (pi : ProtoInfo)
      (f : ProtoFailure)
      → let e = temporal m s (some (proto m' s' enc pc pi)) i k in
        error_to_failure l c true e ≡ some f
        → error_to_failure l c true (after_conversion e f)
          ≡ over
              (λ p. proto (some "Encoded failure") (some []) (some p) pc pi)
              (c.to_payload (attributes (some "Encoded failure") (some [])))
  unfolding error_to_failure error_to_failure_inner
  error_to_failure-after_conversion m s i k m' s' enc pc pi f h =
      by-payload (c.to_payload (attributes m' s')) h
    where
      by-payload :
          (o : Option Payload)
          → (over (λ p. proto (some "Encoded failure") (some []) (some p) pc pi) o ≡ some f)
          → encoded l c true f
            ≡ over
                (λ p. proto (some "Encoded failure") (some []) (some p) pc pi)
                (c.to_payload (attributes (some "Encoded failure") (some [])))
      by-payload none q = ground arith
      by-payload (some p) q = rw⁻¹ (some_inj.0 q) refl
