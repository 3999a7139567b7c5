-- ===== src/Activator/Signals/Dispatch.antt =====
-- `dispatchBufferedSignals` of packages/workflow/src/internals.ts: what is delivered, in which order,
-- and what stays.
use temporalio_sdk_typescrip.Prelude.{
  ℕ, zero, suc, ◌<◌, ◌≡◌, refl, Bool, true, false, not, ◌||◌, Option, none, some, List, [], ◌∷◌,
  ◌++◌, length, keep, All, lookup, string_key, is_some, any, insert, String, arith, if◌then◌else◌,
}
use mathlib.Core.List.{append_assoc, append-nil}
use temporalio_sdk_typescrip.Failure.{Value, opaque}
use temporalio_sdk_typescrip.Activator.{Activator, Signal, SinkCall, returned}
use temporalio_sdk_typescrip.Activator.Jobs.{Converters, is_text}
use temporalio_sdk_typescrip.Activator.Signals.{
  UserCode, waiting, answer, array_from_payloads, has_handler, past, take_first, signal_workflow,
  next_dispatchable, dispatch_loop, dispatch_buffered_signals, signal_workflow_next_handler,
  set_handler, set_default_signal_handler, signal, function,
}

module _ {A : Type 0} (P : A → Type 0) (p : A → Bool) where
  -- What the test takes out of a list and what it leaves, in their order.
  abbrev Taken : List A → Option (A × List A) → Type 0
  Taken xs none = (keep p xs ≡ []) × (keep (λ x. not (p x)) xs ≡ xs)
  Taken xs (some (x, rest)) =
      (p x ≡ true)
      × (keep p xs ≡ x ∷ keep p rest)
      × (keep (λ x. not (p x)) xs ≡ keep (λ x. not (p x)) rest)
      × (length xs ≡ suc (length rest))
      × (All P xs → P x × All P rest)

  Taken-cons :
      (x : A) (xs : List A) (o : Option (A × List A))
      → p x ≡ false
      → Taken xs o
      → Taken (x ∷ xs) (past x o)
  Taken-cons x xs none e (h, k) = ground arith
  Taken-cons x xs (some (y, rest)) e (h, k, l, m, n) =
      (h, ground arith, ground arith, ground arith, λ q. ((n q.1).0, (q.0, (n q.1).1)))

  Taken-here : (x : A) (xs : List A) → p x ≡ true → Taken (x ∷ xs) (some (x, xs))
  Taken-here x xs e = (e, ground arith, ground arith, refl, λ q. q)

  Taken-step :
      (x : A) (xs : List A) (o : Option (A × List A)) (b : Bool)
      → p x ≡ b
      → Taken xs o
      → Taken (x ∷ xs) (if b then some (x, xs) else past x o)
  Taken-step x xs o true e t = Taken-here x xs e
  Taken-step x xs o false e t = Taken-cons x xs o e t

  take_first-Taken : (xs : List A) → Taken xs (take_first p xs)
  take_first-Taken [] = (refl, refl)
  take_first-Taken (x ∷ xs) = Taken-step x xs (take_first p xs) (p x) refl (take_first-Taken xs)

-- Handlers that record what they are called with.
abbrev pub recorder : UserCode
recorder = record {
  run_workflow = λ fn args a. (waiting, a);
  run_signal = λ fn args a. (
    waiting,
    record a {
      sink_calls =
          a.sink_calls
          ++ record { iface_name = "handler"; fn_name = "signal"; args = opaque fn ∷ args } ∷ [];
    },
  );
  run_default_signal = λ fn name args a. (
    waiting,
    record a {
      sink_calls =
          a.sink_calls
          ++ record { iface_name = "default"; fn_name = name; args = opaque fn ∷ args } ∷ [];
    },
  );
  run_query = λ fn args a. (answer (opaque fn), a);
  holds = λ fn a. false;
}

-- Whether a signal can be delivered, and how it is.
abbrev pub takes : Activator → Signal → Bool
takes a s = is_some a.default_signal_handler || has_handler a s

abbrev recorded_with : Option ℕ → Option ℕ → String → List Value → SinkCall
recorded_with (some fn) d name args = record {
  iface_name = "handler";
  fn_name = "signal";
  args = opaque fn ∷ args;
}
recorded_with none (some fn) name args = record {
  iface_name = "default";
  fn_name = name;
  args = opaque fn ∷ args;
}
recorded_with none none name args = record { iface_name = ""; fn_name = ""; args = [] }

abbrev decoded : Option (List Value) → List Value
decoded none = []
decoded (some args) = args

module _ (c : Converters) where
  abbrev pub recorded : Activator → Signal → SinkCall
  recorded a s =
      recorded_with (lookup s.signal_name a.signal_handlers) a.default_signal_handler s.signal_name
        (decoded (array_from_payloads c.payloads s.input))

  -- A signal with a name, whose input decodes.
  abbrev pub IsReadable : Signal → Type 0
  IsReadable s =
      (is_text s.signal_name ≡ true)
      × ((args : List Value) × (array_from_payloads c.payloads s.input ≡ some args))

  abbrev recordings : Activator → List Signal → List SinkCall
  recordings a [] = []
  recordings a (s ∷ ss) = recorded a s ∷ recordings a ss

  next_dispatchable-Taken :
      (a : Activator)
      → Taken IsReadable (takes a) a.buffered_signals (next_dispatchable c recorder a)
  unfolding next_dispatchable
  next_dispatchable-Taken a = by-default a.default_signal_handler
    where
      by-default :
          (d : Option ℕ)
          → Taken IsReadable
              (λ s. is_some d || has_handler a s)
              a.buffered_signals
              (if is_some d
                then take_first (λ _. true) a.buffered_signals
                else take_first (has_handler a) a.buffered_signals)
      by-default none = take_first-Taken IsReadable (has_handler a) a.buffered_signals
      by-default (some d) = take_first-Taken IsReadable (λ _. true) a.buffered_signals

  abbrev after : Activator → Signal → List Signal → Activator
  after a s rest = record a {
    buffered_signals = rest;
    sink_calls = a.sink_calls ++ recorded a s ∷ [];
  }

  signal_workflow-recorder :
      (a : Activator) (s : Signal) (rest : List Signal)
      → takes a s ≡ true
      → IsReadable s
      → signal_workflow c recorder s (record a { buffered_signals = rest })
        ≡ (returned tt, after a s rest)
  unfolding signal_workflow signal_workflow_next_handler
  signal_workflow-recorder a s rest t (n, (args, e)) = ground arith

  abbrev pub done_with : Activator → Activator
  done_with a = record a {
    buffered_signals = keep (λ s. not (takes a s)) a.buffered_signals;
    sink_calls = a.sink_calls ++ recordings a (keep (takes a) a.buffered_signals);
  }

  loop_step :
      (n : ℕ) (a : Activator) (s : Signal) (rest : List Signal)
      → next_dispatchable c recorder a ≡ some (s, rest)
      → takes a s ≡ true
      → IsReadable s
      → dispatch_loop c recorder (suc n) a ≡ dispatch_loop c recorder n (after a s rest)
  unfolding dispatch_loop
  loop_step n a s rest e t r = rw (e, signal_workflow-recorder a s rest t r) refl

  loop_stop :
      (n : ℕ) (a : Activator)
      → next_dispatchable c recorder a ≡ none
      → dispatch_loop c recorder (suc n) a ≡ some (returned tt, a)
  unfolding dispatch_loop
  loop_stop n a e = rw e refl

  loop_end :
      (fuel : ℕ) (a : Activator) (o : Option (Signal × List Signal))
      → ((s : Signal) (rest : List Signal)
          → takes a s ≡ true
          → IsReadable s
          → length rest < fuel
          → All IsReadable rest
          → dispatch_loop c recorder fuel (after a s rest)
            ≡ some (returned tt, done_with (after a s rest)))
      → next_dispatchable c recorder a ≡ o
      → Taken IsReadable (takes a) a.buffered_signals o
      → length a.buffered_signals < suc fuel
      → All IsReadable a.buffered_signals
      → dispatch_loop c recorder (suc fuel) a ≡ some (returned tt, done_with a)
  loop_end fuel a none ih e (k, l) h r = rw (loop_stop fuel a e, k, l, append-nil) refl
  loop_end fuel a (some (s, rest)) ih e (t, k, l, m, n) h r =
      rw
        (
          loop_step fuel a s rest e t (n r).0,
          ih s rest t (n r).0 (omega (arith, m)) (n r).1,
          k,
          l,
          append_assoc,
        )
        refl

  dispatch_loop-recorder :
      (fuel : ℕ) (a : Activator)
      → length a.buffered_signals < fuel
      → All IsReadable a.buffered_signals
      → dispatch_loop c recorder fuel a ≡ some (returned tt, done_with a)
  dispatch_loop-recorder zero a h r = ground arith
  dispatch_loop-recorder (suc fuel) a h r =
      loop_end fuel a (next_dispatchable c recorder a)
        (λ s rest t q k l. dispatch_loop-recorder fuel (after a s rest) k l) refl
        (next_dispatchable-Taken a) h r

  -- Handlers that record what they are called with: `dispatchBufferedSignals` returns, it has called
  -- the handlers for exactly the buffered signals that have one (with a default handler, for all of
  -- them), in the order of the buffer, and the others stay buffered in their order. The buffered
  -- signals have names and inputs that decode.
  pub dispatch_buffered_signals-recorder :
      (a : Activator)
      → All IsReadable a.buffered_signals
      → dispatch_buffered_signals c recorder a ≡ (returned tt, done_with a)
  unfolding dispatch_buffered_signals
  dispatch_buffered_signals-recorder a r =
      rw (dispatch_loop-recorder (suc (length a.buffered_signals)) a (omega arith) r) refl

  keep-none : {A : Type 0} (p : A → Bool) (xs : List A) → any p (keep (λ x. not (p x)) xs) ≡ false
  keep-none p [] = refl
  keep-none p (x ∷ xs) = ground (arith, keep-none p xs)

  -- After a handler has been set, for one signal or for all, no signal is left in the buffer that
  -- has a handler (the handlers record what they are called with, and the buffered signals have
  -- names and inputs that decode).
  pub set_handler-any :
      (name : String) (fn : ℕ) (a : Activator)
      → All IsReadable a.buffered_signals
      → (let b = (set_handler c recorder (signal name) (function fn) a).1 in
          any (takes b) b.buffered_signals ≡ false)
        × (let b = (set_default_signal_handler c recorder (function fn) a).1 in
            any (takes b) b.buffered_signals ≡ false)
  unfolding set_handler set_default_signal_handler
  set_handler-any name fn a r = (
    rw
        (dispatch_buffered_signals-recorder
          (record a { signal_handlers = insert name fn a.signal_handlers }) r)
        (keep-none (takes (record a { signal_handlers = insert name fn a.signal_handlers }))
          a.buffered_signals),
    rw (dispatch_buffered_signals-recorder (record a { default_signal_handler = some fn }) r)
        (keep-none (takes (record a { default_signal_handler = some fn })) a.buffered_signals),
  )
