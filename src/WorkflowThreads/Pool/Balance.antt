-- ===== src/WorkflowThreads/Pool/Balance.antt =====
-- Workflows are spread over the threads: packages/worker/src/workflow/threaded-vm.ts.
use temporalio_sdk_typescrip.Prelude.{
  ℕ, zero, suc, ◌+◌, Option, some, List, [], ◌∷◌, ◌≡◌, refl, ap, ◌∙◌, ◌⊎◌, inl, inr, ℤ, pos, ◌+ℤ◌,
  ltb_ℤ, ◌≤ℤ◌, All, Bool-cases, get_elem?, arith,
}
use temporalio_sdk_typescrip.WorkflowThreads.{CreateOptions, create_workflow}
use temporalio_sdk_typescrip.WorkflowThreads.Client.{System, call_thread}
use temporalio_sdk_typescrip.WorkflowThreads.Pool.{
  get_active_workflow_count, fewer, reduced, least_loaded, change_at, create_on, create, create_all,
}

≤ℤ-refl : (a : ℤ) → a ≤ℤ a
≤ℤ-refl a = omega arith

fewer-IsLeast :
    (p c : ℕ × System)
    → (get_active_workflow_count (fewer p c).1 ≤ℤ get_active_workflow_count p.1)
      × (get_active_workflow_count (fewer p c).1 ≤ℤ get_active_workflow_count c.1)
fewer-IsLeast p c = ground arith

-- The thread that is chosen has no more workflows than any other.
reduced-IsLeast :
    (best : ℕ × System) (i : ℕ) (ss : List System)
    → (get_active_workflow_count (reduced best i ss).1 ≤ℤ get_active_workflow_count best.1)
      × All (λ s. get_active_workflow_count (reduced best i ss).1 ≤ℤ get_active_workflow_count s) ss
reduced-IsLeast best i [] = (≤ℤ-refl (get_active_workflow_count best.1), tt)
reduced-IsLeast best i (s ∷ ss) =
    let below : _ = fewer-IsLeast best (i, s) in
    let rest : _ = reduced-IsLeast (fewer best (i, s)) (suc i) ss in
    (omega (arith, below.0, rest.0), (omega (arith, below.1, rest.0), rest.1))

fewer-found :
    (at : ℕ → Option System) (p c : ℕ × System)
    → at p.0 ≡ some p.1
    → at c.0 ≡ some c.1
    → at (fewer p c).0 ≡ some (fewer p c).1
fewer-found at p c h k =
    elim (Bool-cases (ltb_ℤ (get_active_workflow_count p.1) (get_active_workflow_count c.1))) [
      | inl q ↦ rw q h
      | inr q ↦ rw q k
    ]

-- The chosen place is that of the chosen thread.
reduced-found :
    (at : ℕ → Option System) (best : ℕ × System) (i : ℕ) (ss : List System)
    → at best.0 ≡ some best.1
    → ((j : ℕ) → at (i + j) ≡ get_elem? ss j)
    → at (reduced best i ss).0 ≡ some (reduced best i ss).1
reduced-found at best i [] h k = h
reduced-found at best i (s ∷ ss) h k =
    let here : at i ≡ some s = ap at (omega arith) ∙ k 0 in
    reduced-found at (fewer best (i, s)) (suc i) ss (fewer-found at best (i, s) h here)
      (λ j. ap at (omega arith) ∙ k (suc j))

-- A thread that no other has fewer workflows than, and its place.
abbrev Chosen : ℕ → List System → Type 0
Chosen i ss =
    (s : System) × (get_elem? ss i ≡ some s)
    × All (λ t. get_active_workflow_count s ≤ℤ get_active_workflow_count t) ss

get_elem?-suc :
    (s : System) (ss : List System) (j : ℕ) → get_elem? (s ∷ ss) (1 + j) ≡ get_elem? ss j
get_elem?-suc s ss j = let e : 1 + j ≡ suc j = omega arith in rw e refl

least_loaded-Chosen :
    (s : System) (ss : List System) → (i : ℕ) × (least_loaded (s ∷ ss) ≡ some i) × Chosen i (s ∷ ss)
least_loaded-Chosen s ss = (
  _,
  refl,
  (
    _,
    reduced-found (get_elem? (s ∷ ss)) (0, s) 1 ss refl (λ j. get_elem?-suc s ss j),
    reduced-IsLeast (0, s) 1 ss,
  ),
)

-- Every thread has m or m + 1 workflows.
abbrev pub AreWithin : ℕ → List System → Type 0
AreWithin m ss =
    All (λ s. (get_active_workflow_count s ≡ pos m) ⊎ (get_active_workflow_count s ≡ pos (suc m)))
      ss

count-create :
    (caller n : ℕ) (o : CreateOptions) (s : System)
    → get_active_workflow_count s ≡ pos n
    → get_active_workflow_count
        (call_thread (record { caller = caller; input = create_workflow o }) s)
      ≡ pos (suc n)
unfolding ◌+ℤ◌
count-create caller n o s h = rw h (ground arith)

change_at-All :
    (P : System → Type 0) (f : System → System) (i : ℕ) (ss : List System) (s : System)
    → get_elem? ss i ≡ some s
    → P (f s)
    → All P ss
    → All P (change_at i f ss)
change_at-All P f i [] s g p a = a
change_at-All P f zero (t ∷ ss) s g p (a, rest) =
    let same : s ≡ t = ground arith in (rw same at p, rest)
change_at-All P f (suc i) (t ∷ ss) s g p (a, rest) = (a, change_at-All P f i ss s g p rest)

-- Where the least count is m + 1, all are.
raised :
    (m : ℕ) (s : System) (ss : List System)
    → get_active_workflow_count s ≡ pos (suc m)
    → All (λ t. get_active_workflow_count s ≤ℤ get_active_workflow_count t) ss
    → AreWithin m ss
    → AreWithin (suc m) ss
raised m s [] h l w = tt
raised m s (t ∷ ss) h (l, ls) (inl e, w) = absurd (ground arith)
raised m s (t ∷ ss) h (l, ls) (inr e, w) = (inl e, raised m s ss h ls w)

chosen-AreWithin :
    (caller m i : ℕ) (o : CreateOptions) (ss : List System) (s : System)
    → get_elem? ss i ≡ some s
    → All (λ t. get_active_workflow_count s ≤ℤ get_active_workflow_count t) ss
    → (get_active_workflow_count s ≡ pos m) ⊎ (get_active_workflow_count s ≡ pos (suc m))
    → AreWithin m ss
    → (k : ℕ) × AreWithin k
        (change_at i (call_thread (record { caller = caller; input = create_workflow o })) ss)
chosen-AreWithin caller m i o ss s g l (inl e) w =
    (m, change_at-All _ _ i ss s g (inr (count-create caller m o s e)) w)
chosen-AreWithin caller m i o ss s g l (inr e) w = (
  suc m,
  change_at-All _ _ i ss s g (inr (count-create caller (suc m) o s e)) (raised m s ss e l w),
)

All-get_elem? :
    (P : System → Type 0) (i : ℕ) (ss : List System) (s : System)
    → get_elem? ss i ≡ some s
    → All P ss
    → P s
All-get_elem? P i [] s g a = absurd (ground arith)
All-get_elem? P zero (t ∷ ss) s g (a, rest) = let same : t ≡ s = ground arith in rw same at a
All-get_elem? P (suc i) (t ∷ ss) s g (a, rest) = All-get_elem? P i ss s g rest

change_at-nonempty :
    (i : ℕ) (f : System → System) (s : System) (ss : List System)
    → (t : System) × (ts : List System) × (change_at i f (s ∷ ss) ≡ t ∷ ts)
change_at-nonempty zero f s ss = (_, _, refl)
change_at-nonempty (suc i) f s ss = (_, _, refl)

create-AreWithin :
    (caller m : ℕ) (o : CreateOptions) (s : System) (ss : List System)
    → AreWithin m (s ∷ ss)
    → (t : System) × (ts : List System) × (k : ℕ) × (create caller o (s ∷ ss) ≡ some (t ∷ ts))
      × AreWithin k (t ∷ ts)
unfolding create
create-AreWithin caller m o s ss w =
    let c : (i : ℕ) × (least_loaded (s ∷ ss) ≡ some i) × Chosen i (s ∷ ss) =
      least_loaded-Chosen s ss in
    let (t, g, l) = c.2 in
    let f : System → System = call_thread (record { caller = caller; input = create_workflow o }) in
    let v : (k : ℕ) × AreWithin k (change_at c.0 f (s ∷ ss)) =
      chosen-AreWithin caller m c.0 o (s ∷ ss) t g l (All-get_elem? _ c.0 (s ∷ ss) t g w) w in
    let (u, us, e) = change_at-nonempty c.0 f s ss in
    let made : create caller o (s ∷ ss) ≡ some (u ∷ us) =
      ap (λ i. create_on i caller o (s ∷ ss)) c.1 ∙ ap some e in
    (u, us, v.0, made, rw e at v.1)

-- However many workflows are created, one after the other, on threads whose numbers of active
-- workflows differ by at most one (as those of new threads): each gets a thread, and the numbers
-- still differ by at most one.
pub create_all-AreWithin :
    (os : List (ℕ × CreateOptions)) (s : System) (ss : List System) (m : ℕ)
    → AreWithin m (s ∷ ss)
    → (next : List System) × (k : ℕ) × (create_all os (s ∷ ss) ≡ some next) × AreWithin k next
unfolding create_all
create_all-AreWithin [] s ss m w = (s ∷ ss, m, refl, w)
create_all-AreWithin ((caller, o) ∷ os) s ss m w =
    let (t, ts, k, e, v) = create-AreWithin caller m o s ss w in
    rw e (create_all-AreWithin os t ts k v)
