-- ===== src/Activities/Operator/Accounts.antt =====
-- Every task that starts an activity is answered once: `activityOperator` of
-- packages/worker/src/worker.ts.
use temporalio_sdk_typescrip.Prelude.{
  ℕ, ◌+◌, String, none, some, List, [], ◌∷◌, length, ◌≡◌, refl, sym, ap, ◌∙◌, nat_key, string_key,
  Option-cases, inl, inr, arith,
}
use temporalio_sdk_typescrip.Activities.{Surroundings}
use temporalio_sdk_typescrip.Activities.Operator.{
  Fatal, Activities, no_activities, unless_fatal, Event, on_event, on_events,
}
use temporalio_sdk_typescrip.Activities.Operator.Counting.{starts, accounted, accounted-on_event}
use temporalio_sdk_typescrip.Activities.Operator.Settled.{IsSettled, IsSettled-on_event}

module _ (s : Surroundings) (activities : List (String × ℕ)) where
  goes_on :
      (x : Event) (xs : List Event) (w : Activities)
      → w.fatal ≡ none
      → on_events s activities (x ∷ xs) w ≡ on_events s activities xs (on_event s activities x w)
  unfolding on_events
  goes_on x xs w e =
      ap (λ o. on_events s activities xs (unless_fatal o (on_event s activities x w) w)) e

  stops :
      (x : Event) (xs : List Event) (w : Activities) (why : Fatal)
      → w.fatal ≡ some why
      → on_events s activities (x ∷ xs) w ≡ on_events s activities xs w
  unfolding on_events
  stops x xs w why e =
      ap (λ o. on_events s activities xs (unless_fatal o (on_event s activities x w) w)) e

  -- A stream that has failed stays as it is.
  fatal-on_events :
      (xs : List Event) (w : Activities) (why : Fatal)
      → w.fatal ≡ some why
      → (on_events s activities xs w).fatal ≡ some why
  unfolding on_events
  fatal-on_events [] w why h = h
  fatal-on_events (x ∷ xs) w why h = rw (stops x xs w why h) (fatal-on_events xs w why h)

  settled :
      (xs : List Event) (w : Activities) → IsSettled w → IsSettled (on_events s activities xs w)
  unfolding on_events
  settled [] w h = h
  settled (x ∷ xs) w h = elim (Option-cases w.fatal) [
    | inl e ↦
        rw (goes_on x xs w e)
          (settled xs (on_event s activities x w) (IsSettled-on_event s activities x w h))
    | inr (why, e) ↦ rw (stops x xs w why e) (settled xs w h)
  ]

  accounted-on_events :
      (t : ℕ) (xs : List Event) (w : Activities)
      → (on_events s activities xs w).fatal ≡ none
      → accounted t (on_events s activities xs w) ≡ starts t xs + accounted t w
  unfolding on_events
  accounted-on_events t [] w h = omega arith
  accounted-on_events t (x ∷ xs) w h = elim (Option-cases w.fatal) [
    | inl e ↦
        let v : Activities = on_event s activities x w in
        let end : (on_events s activities xs v).fatal ≡ none = rw (goes_on x xs w e) at h in
        rw (goes_on x xs w e) (elim (Option-cases v.fatal) [
          | inl f ↦
              omega (arith, accounted-on_events t xs v end, accounted-on_event s activities t x w f)
          | inr (why, f) ↦
              let broken : some why ≡ none = sym (fatal-on_events xs v why f) ∙ end in cc
        ])
    | inr (why, e) ↦
        let end : (on_events s activities xs w).fatal ≡ none = rw (stops x xs w why e) at h in
        let broken : some why ≡ none = sym (fatal-on_events xs w why e) ∙ end in cc
  ]

  -- Whatever tasks come, activities do and heartbeats confirm, as long as the stream has not failed:
  -- for every task token, the tasks that start an activity are as many as its activities that run,
  -- its results that wait for the last heartbeat, and its completions that were emitted. So a start
  -- is answered at most once, and none is lost. And the number of activities in flight is the number
  -- of those that run.
  pub on_events-accounted :
      (t : ℕ) (xs : List Event)
      → (on_events s activities xs no_activities).fatal ≡ none
      → (starts t xs ≡ accounted t (on_events s activities xs no_activities))
        × ((on_events s activities xs no_activities).in_flight
            ≡ length (on_events s activities xs no_activities).running)
  on_events-accounted t xs h = (
    omega (arith, accounted-on_events t xs no_activities h),
    (settled xs no_activities (tt, refl)).1,
  )
