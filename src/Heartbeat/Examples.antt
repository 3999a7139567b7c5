-- ===== src/Heartbeat/Examples.antt =====
-- Examples of the delivery of heartbeats.
use temporalio_sdk_typescrip.Prelude.{◌≡◌, some, true, List, [], ◌∷◌, pos, string_key}
use temporalio_sdk_typescrip.Heartbeat.{Heartbeats}
use temporalio_sdk_typescrip.Heartbeat.Delivery.{
  Event, beat, opened, feed_all, finish, finish-feed_all,
}

-- The second and the third heartbeat come while the first is in flight.
abbrev beats : List Event
beats = beat 10 ∷ beat 20 ∷ beat 30 ∷ []

finish-feed_all_example :
    let r = finish 1 (feed_all beats opened) in
    (r.last_sent ≡ some 30) × (r.closings ≡ some 1 ∷ []) × (r.state.closed ≡ true)
finish-feed_all_example = finish-feed_all beats 1

abbrev quiet : Heartbeats
quiet = record { groups = []; num_heartbeating_activities = pos 0; recorded = []; called = [] }
