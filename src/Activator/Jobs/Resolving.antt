-- ===== src/Activator/Jobs/Resolving.antt =====
-- What a resolution does to the completions, in packages/workflow/src/internals.ts: each is used once.
use temporalio_sdk_typescrip.Prelude.{
  ℕ, ◌≡◌, refl, ==_iff, none, some, List, lookup, remove, lookup-remove, nat_key, arith,
  Option-cases, inl, inr,
}
use temporalio_sdk_typescrip.Failure.{JsError, sdk_error, illegal_state_error}
use temporalio_sdk_typescrip.Activator.{
  Activator, activity, returned, threw, settle, maybe_consume_completion, push_command,
  cancel_timer_of, delete_completion,
}
use temporalio_sdk_typescrip.Activator.Scopes.{run_reaction}
use temporalio_sdk_typescrip.Activator.Jobs.{
  Converters, ActivityResolution, completed, failed, cancelled, backoff, no_status, finish_activity,
  resolve_activity, fire_timer,
}

lookup-removed : {V : Type 0} (n : ℕ) (m : List (ℕ × V)) → lookup n (remove n m) ≡ none
lookup-removed n m = ground (arith, lookup-remove n n m, ==_iff n n)

module _ (c : Converters) where
  -- A timer that has fired cannot be cancelled any more, and one whose cancellation came first does
  -- not fire: the second of the two events changes nothing, for a fired timer and for a cancelled one.
  pub fire_timer-run_reaction :
      (n p : ℕ) (e : JsError) (a : Activator)
      → (let b = (fire_timer c (some n) a).1 in run_reaction (cancel_timer_of n p) e b ≡ b)
        × (let b = run_reaction (cancel_timer_of n p) e a in
            fire_timer c (some n) b ≡ (returned tt, b))
  unfolding fire_timer run_reaction maybe_consume_completion settle push_command
  fire_timer-run_reaction n p e a = ground (arith, lookup-removed n a.completions.timers)

  finish_activity-completions :
      (p : ℕ) (r : ActivityResolution) (a : Activator)
      → (finish_activity c p r a).1.completions ≡ a.completions
  unfolding settle
  finish_activity-completions p (completed none) a = ground arith
  finish_activity-completions p (completed (some v)) a = ground arith
  finish_activity-completions p (failed none) a = ground arith
  finish_activity-completions p (failed (some f)) a = ground arith
  finish_activity-completions p (cancelled none) a = ground arith
  finish_activity-completions p (cancelled (some f)) a = ground arith
  finish_activity-completions p (backoff n d) a = ground arith
  finish_activity-completions p no_status a = ground arith

  resolve_activity_found :
      (n p : ℕ) (r : ActivityResolution) (a : Activator)
      → lookup n a.completions.activities ≡ some p
      → resolve_activity c (some n) (some r) a
        ≡ finish_activity c p r (delete_completion activity n a)
  unfolding resolve_activity maybe_consume_completion
  resolve_activity_found n p r a e = rw e refl

  resolve_activity_missing :
      (n : ℕ) (r : ActivityResolution) (a : Activator)
      → lookup n a.completions.activities ≡ none
      → resolve_activity c (some n) (some r) a ≡ (threw (sdk_error illegal_state_error), a)
  unfolding resolve_activity maybe_consume_completion
  resolve_activity_missing n r a e = rw e refl

  -- Core resolves an activity once: after a first resolution, whatever it held and whether it threw,
  -- a second one of the same number throws an IllegalStateError and changes nothing.
  pub resolve_activity-twice :
      (n : ℕ) (r s : ActivityResolution) (a : Activator)
      → let b = (resolve_activity c (some n) (some r) a).1 in
        resolve_activity c (some n) (some s) b ≡ (threw (sdk_error illegal_state_error), b)
  resolve_activity-twice n r s a = elim (Option-cases (lookup n a.completions.activities)) [
    | inl e ↦ rw (resolve_activity_missing n r a e) (resolve_activity_missing n s a e)
    | inr (p, e) ↦ rw (resolve_activity_found n p r a e) (
        resolve_activity_missing n s (finish_activity c p r (delete_completion activity n a)).1 (
          rw (finish_activity-completions p r (delete_completion activity n a))
            (lookup-removed n a.completions.activities)))
  ]
