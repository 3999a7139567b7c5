-- ===== src/Activation/Conditions.antt =====
-- The loop of `tryUnblockConditions` in packages/workflow/src/worker-interface.ts.
use temporalio_sdk_typescrip.Prelude.{
  ℕ, zero, suc, ◌≤◌, ◌<◌, ◌≡◌, refl, ◌⊎◌, inl, inr, Bool, true, false, Option, none, some, List, [],
  ◌∷◌, length, lookup, remove, is_some, nat_key, All, Bool-cases, ==_iff, arith,
}
use temporalio_sdk_typescrip.Activator.{Activator, Condition, settle}
use temporalio_sdk_typescrip.Activation.{
  unblock, unblock_round, unblock_loop, try_unblock_conditions,
}

abbrev Entries : Type 0
Entries = List (ℕ × Condition)

length-remove : (k : ℕ) (m : Entries) → length (remove k m) ≤ length m
length-remove k [] = omega arith
length-remove k ((j, w) ∷ m) = ground (arith, length-remove k m)

length-remove_present :
    (k : ℕ) (m : Entries) → is_some (lookup k m) ≡ true → length (remove k m) < length m
length-remove_present k [] h = ground arith
length-remove_present k ((j, w) ∷ m) h =
    ground (arith, length-remove k m, length-remove_present k m)

abbrev ArePresent : Entries → Entries → Type 0
ArePresent m = All (λ e. is_some (lookup e.0 m) ≡ true)

ArePresent-cons : (x : ℕ × Condition) (m es : Entries) → ArePresent m es → ArePresent (x ∷ m) es
ArePresent-cons x m [] h = tt
ArePresent-cons x m (e ∷ es) (p, h) = (ground arith, ArePresent-cons x m es h)

ArePresent-self : (m : Entries) → ArePresent m m
ArePresent-self [] = tt
ArePresent-self ((k, c) ∷ m) =
    (ground (arith, ==_iff k k), ArePresent-cons (k, c) m m (ArePresent-self m))

-- All conditions that wait are false.
abbrev pub IsQuiet : (ℕ → Activator → Bool) → Activator → Entries → Type 0
IsQuiet holds a = All (λ e. holds e.1.fn a ≡ false)

module _ (holds : ℕ → Activator → Bool) where
  abbrev waiting : ℕ × Activator → ℕ
  waiting r = length r.1.blocked_conditions

  unblock-shrinks :
      (seq : ℕ) (c : Condition) (r : ℕ × Activator) → waiting (unblock holds seq c r) ≤ waiting r
  unfolding settle
  unblock-shrinks seq c r = ground (arith, length-remove seq r.1.blocked_conditions)

  unblock-shrinks_present :
      (seq : ℕ) (c : Condition) (r : ℕ × Activator)
      → is_some (lookup seq r.1.blocked_conditions) ≡ true
      → waiting (unblock holds seq c r) < waiting r
  unfolding settle
  unblock-shrinks_present seq c r h =
      ground (arith, length-remove_present seq r.1.blocked_conditions)

  round_true :
      (seq : ℕ) (c : Condition) (es : Entries) (r : ℕ × Activator)
      → holds c.fn r.1 ≡ true
      → unblock_round holds ((seq, c) ∷ es) r ≡ unblock_round holds es (unblock holds seq c r)
  unfolding unblock_round
  round_true seq c es r h = rw (h, unblock_round)

  round_false :
      (seq : ℕ) (c : Condition) (es : Entries) (r : ℕ × Activator)
      → holds c.fn r.1 ≡ false
      → unblock_round holds ((seq, c) ∷ es) r ≡ unblock_round holds es r
  unfolding unblock_round
  round_false seq c es r h = rw (h, unblock_round)

  round_grows : (es : Entries) (r : ℕ × Activator) → r.0 ≤ (unblock_round holds es r).0
  unfolding unblock_round
  round_grows [] r = omega arith
  round_grows ((seq, c) ∷ es) r = elim (Bool-cases (holds c.fn r.1)) [
    | inl e ↦ rw (round_true seq c es r e) (omega (arith, round_grows es (unblock holds seq c r)))
    | inr e ↦ rw (round_false seq c es r e) (round_grows es r)
  ]

  round_shrinks :
      (es : Entries) (r : ℕ × Activator) → waiting (unblock_round holds es r) ≤ waiting r
  unfolding unblock_round
  round_shrinks [] r = omega arith
  round_shrinks ((seq, c) ∷ es) r = elim (Bool-cases (holds c.fn r.1)) [
    | inl e ↦
        rw (round_true seq c es r e)
          (omega (arith, round_shrinks es (unblock holds seq c r), unblock-shrinks seq c r))
    | inr e ↦ rw (round_false seq c es r e) (round_shrinks es r)
  ]

  -- A round leaves everything as it was, or it leaves fewer conditions and counts them.
  round_cases :
      (es : Entries) (r : ℕ × Activator)
      → ArePresent r.1.blocked_conditions es
      → ((unblock_round holds es r ≡ r) × IsQuiet holds r.1 es)
        ⊎ ((r.0 < (unblock_round holds es r).0) × (waiting (unblock_round holds es r) < waiting r))
  unfolding unblock_round
  round_cases [] r h = inl (refl, tt)
  round_cases ((seq, c) ∷ es) r (p, h) = elim (Bool-cases (holds c.fn r.1)) [
    | inl e ↦ rw (round_true seq c es r e) (
        inr (
          omega (arith, round_grows es (unblock holds seq c r)),
          omega
              (arith, round_shrinks es (unblock holds seq c r), unblock-shrinks_present seq c r p),
        ))
    | inr e ↦ rw (round_false seq c es r e) (elim (round_cases es r h) [
      | inl (same, quiet) ↦ inl (same, (e, quiet))
      | inr less ↦ inr less
    ])
  ]

  abbrev Finishes : ℕ × Activator → Option (ℕ × Activator) → Type 0
  Finishes r none = ⊥
  Finishes r (some r') = IsQuiet holds r'.1 r'.1.blocked_conditions × (waiting r' ≤ waiting r)

  Finishes-weaken :
      (r s : ℕ × Activator) (o : Option (ℕ × Activator))
      → waiting s ≤ waiting r
      → Finishes s o
      → Finishes r o
  Finishes-weaken r s none h f = f
  Finishes-weaken r s (some t) h (q, l) = (q, omega arith)

  loop-Finishes :
      (fuel : ℕ) (r : ℕ × Activator) → waiting r < fuel → Finishes r (unblock_loop holds fuel r)
  unfolding unblock_loop
  loop-Finishes zero r h = absurd (omega arith)
  loop-Finishes (suc fuel) r h =
      elim (round_cases r.1.blocked_conditions r (ArePresent-self r.1.blocked_conditions)) [
        | inl (same, quiet) ↦ rw same (rw ((==_iff r.0 r.0).1 refl) (quiet, omega arith))
        | inr (more, less) ↦ ground (
          arith,
          Finishes-weaken r (unblock_round holds r.1.blocked_conditions r)
              (unblock_loop holds fuel (unblock_round holds r.1.blocked_conditions r)) (omega arith)
              (loop-Finishes fuel (unblock_round holds r.1.blocked_conditions r) (omega arith)),
        )
      ]

  finished :
      (o : Option (ℕ × Activator)) (a : Activator)
      → Finishes (0, a) o
      → (r : ℕ × Activator) × (o ≡ some r)
        × IsQuiet holds r.1 r.1.blocked_conditions
        × (waiting r ≤ length a.blocked_conditions)
  finished none a f = absurd f
  finished (some r) a (q, l) = (r, refl, q, l)

  -- The loop ends, and when it has ended no condition that still waits is true; none was added.
  pub try_unblock_conditions-IsQuiet :
      (a : Activator)
      → let r = try_unblock_conditions holds a in
        (unblock_loop holds (suc (length a.blocked_conditions)) (0, a) ≡ some r)
        × IsQuiet holds r.1 r.1.blocked_conditions
        × (length r.1.blocked_conditions ≤ length a.blocked_conditions)
  unfolding try_unblock_conditions
  try_unblock_conditions-IsQuiet a =
      let (r, e, q, l) =
        finished _ a (loop-Finishes (suc (length a.blocked_conditions)) (0, a) (omega arith)) in
      rw e (refl, q, l)
