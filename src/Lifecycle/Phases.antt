-- ===== src/Lifecycle/Phases.antt =====
-- What holds in each state of a worker, packages/worker/src/worker.ts, and what keeps it.
use temporalio_sdk_typescrip.Prelude.{
  ℕ, zero, suc, Bool, true, false, ◌||◌, List, [], ◌∷◌, ◌≡◌, ◌≢◌, refl, Bool-cases, inl, inr,
  if◌then◌else◌, arith,
}
use temporalio_sdk_typescrip.Lifecycle.{
  RunState, initialized, running, stopping, draining, drained, stopped, failed, idle, merging,
  completed, rejected, ForceShutdown, unlimited, racing, delaying, over, Worker, set_state, settle,
  fail, pipelines_complete, on_force, on_sent, on_send_error,
}

-- The states that may follow a state.
abbrev pub may_follow : RunState → RunState → Bool
may_follow initialized running = true
may_follow running stopping = true
may_follow running drained = true
may_follow running failed = true
may_follow stopping draining = true
may_follow stopping drained = true
may_follow stopping failed = true
may_follow draining drained = true
may_follow draining failed = true
may_follow drained stopped = true
may_follow drained failed = true
may_follow s t = false

-- Each state may follow the one before it; the newest is first.
abbrev pub IsPath : RunState → List RunState → Type 0
IsPath s [] = s ≡ initialized
IsPath s (t ∷ l) = (may_follow t s ≡ true) × IsPath t l

-- What holds in each state.
abbrev pub Phase : RunState → Worker → Type 0
Phase initialized w = w.merged ≡ idle
Phase running w = (w.merged ≡ merging) × (w.workflows_open || w.activities_open ≡ true)
Phase stopping w = (w.merged ≡ merging) × (w.workflows_open || w.activities_open ≡ true)
Phase draining w = (w.merged ≡ merging) × (w.workflows_open || w.activities_open ≡ true)
Phase drained w =
    (w.merged ≡ merging)
    × (w.workflows_open || w.activities_open ≡ false)
    × (w.unexpected_open ≡ false)
    × (w.force ≡ over)
    × (w.heartbeats_open ≡ false)
    × (w.heartbeats_in_flight ≢ 0)
Phase stopped w = w.merged ≡ completed
Phase failed w = (e : ℕ) × (w.merged ≡ rejected e)

abbrev pub IsConsistent : Worker → Type 0
IsConsistent w = Phase w.state w × IsPath w.state w.earlier

may_fail : (s : RunState) (w : Worker) → Phase s w → w.merged ≡ merging → may_follow s failed ≡ true
may_fail initialized w h m = ground arith
may_fail running w h m = refl
may_fail stopping w h m = refl
may_fail draining w h m = refl
may_fail drained w h m = refl
may_fail stopped w h m = ground arith
may_fail failed w h m = ground arith

pub fail-IsConsistent :
    (e : ℕ) (w : Worker) → IsConsistent w → w.merged ≡ merging → IsConsistent (fail e w)
unfolding fail set_state
fail-IsConsistent e w h m = ((e, refl), (may_fail w.state w h.0 m, h.1))

-- The streams of workflows and activities are open in these states.
abbrev is_active : RunState → Bool
is_active initialized = false
is_active running = true
is_active stopping = true
is_active draining = true
is_active drained = false
is_active stopped = false
is_active failed = false

settle-IsConsistent :
    (w : Worker)
    → w.state ≡ drained
    → w.merged ≡ merging
    → (w.workflows_open || w.activities_open) ≡ false
    → w.unexpected_open ≡ false
    → w.force ≡ over
    → w.heartbeats_open ≡ false
    → IsPath drained w.earlier
    → IsConsistent (settle w)
unfolding settle set_state
settle-IsConsistent w s m o u f b p = ground arith

active-Phase :
    (s : RunState) (w : Worker)
    → is_active s ≡ true
    → w.merged ≡ merging
    → (w.workflows_open || w.activities_open) ≡ true
    → Phase s w
active-Phase initialized w a m o = ground arith
active-Phase running w a m o = (m, o)
active-Phase stopping w a m o = (m, o)
active-Phase draining w a m o = (m, o)
active-Phase drained w a m o = ground arith
active-Phase stopped w a m o = ground arith
active-Phase failed w a m o = ground arith

pub open-is_active :
    (s : RunState) (w : Worker)
    → Phase s w
    → w.merged ≡ merging
    → (w.workflows_open || w.activities_open) ≡ true
    → is_active s ≡ true
open-is_active initialized w h m o = ground arith
open-is_active running w h m o = refl
open-is_active stopping w h m o = refl
open-is_active draining w h m o = refl
open-is_active drained w h m o = ground arith
open-is_active stopped w h m o = ground arith
open-is_active failed w h m o = ground arith

may_drain : (s : RunState) → is_active s ≡ true → may_follow s drained ≡ true
may_drain initialized a = ground arith
may_drain running a = refl
may_drain stopping a = refl
may_drain draining a = refl
may_drain drained a = ground arith
may_drain stopped a = ground arith
may_drain failed a = ground arith

pub pipelines_complete-IsConsistent :
    (w : Worker)
    → is_active w.state ≡ true
    → w.merged ≡ merging
    → IsPath w.state w.earlier
    → IsConsistent (pipelines_complete w)
unfolding pipelines_complete set_state
pipelines_complete-IsConsistent w s m p =
    elim (Bool-cases (w.workflows_open || w.activities_open)) [
      | inl k ↦ rw k (active-Phase w.state w s m k, p)
      | inr k ↦ rw k (
          settle-IsConsistent (set_state drained w) refl m k refl refl refl
            (may_drain w.state s, p))
    ]

settle-open : (w : Worker) → (w.workflows_open || w.activities_open) ≡ true → settle w ≡ w
unfolding settle
settle-open w o = ground arith

pub either-IsConsistent :
    (b : Bool) (v w : Worker)
    → (b ≡ true → IsConsistent v)
    → IsConsistent w
    → IsConsistent (if b then v else w)
either-IsConsistent true v w h k = h refl
either-IsConsistent false v w h k = k

pub started-Phase :
    (s : RunState) (w : Worker)
    → Phase s w
    → Phase s (record w { heartbeats_in_flight = suc w.heartbeats_in_flight })
started-Phase initialized w h = h
started-Phase running w h = h
started-Phase stopping w h = h
started-Phase draining w h = h
started-Phase drained w (m, o, u, f, b, n) = (m, o, u, f, b, ground arith)
started-Phase stopped w h = h
started-Phase failed w h = h

closed-Phase :
    (s : RunState) (w : Worker)
    → Phase s w
    → w.merged ≡ merging
    → (w.workflows_open || w.activities_open) ≡ false
    → (s ≡ drained) × Phase drained w
closed-Phase initialized w h m o = ground arith
closed-Phase running w h m o = ground arith
closed-Phase stopping w h m o = ground arith
closed-Phase draining w h m o = ground arith
closed-Phase drained w h m o = (refl, h)
closed-Phase stopped w h m o = ground arith
closed-Phase failed w h m o = ground arith

sent-IsConsistent :
    (n : ℕ) (w : Worker)
    → IsConsistent w
    → w.merged ≡ merging
    → IsConsistent (settle (record w { heartbeats_in_flight = n }))
sent-IsConsistent n w (h, p) m = elim (Bool-cases (w.workflows_open || w.activities_open)) [
  | inl k ↦ rw (settle-open (record w { heartbeats_in_flight = n }) k) (
    active-Phase w.state (record w { heartbeats_in_flight = n }) (open-is_active w.state w h m k) m
        k,
    p,
  )
  | inr k ↦
      let (q, (m', o, u, f, b, i)) = closed-Phase w.state w h m k in
      settle-IsConsistent (record w { heartbeats_in_flight = n }) q m o u f b (rw⁻¹ q p)
]

pub left_open : (b c : Bool) → b ≡ true → (b || c) ≡ true
left_open b c e = ground arith

pub right_open : (b c : Bool) → c ≡ true → (b || c) ≡ true
right_open b c e = ground arith

pub on_force-IsConsistent :
    (s : ForceShutdown) (e : ℕ) (w : Worker)
    → IsConsistent w
    → w.merged ≡ merging
    → IsConsistent (on_force s e w)
on_force-IsConsistent unlimited e w h m = h
on_force-IsConsistent racing e w h m = h
on_force-IsConsistent delaying e w h m = fail-IsConsistent e w h m
on_force-IsConsistent over e w h m = h

pub on_sent-IsConsistent :
    (n : ℕ) (w : Worker) → IsConsistent w → w.merged ≡ merging → IsConsistent (on_sent n w)
on_sent-IsConsistent zero w h m = h
on_sent-IsConsistent (suc n) w h m = sent-IsConsistent n w h m

pub on_send_error-IsConsistent :
    (n e : ℕ) (w : Worker)
    → IsConsistent w
    → w.merged ≡ merging
    → IsConsistent (on_send_error n e w)
on_send_error-IsConsistent zero e w h m = h
on_send_error-IsConsistent (suc n) e w h m = fail-IsConsistent e w h m
