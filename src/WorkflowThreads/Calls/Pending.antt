-- ===== src/WorkflowThreads/Calls/Pending.antt =====
-- The requests that a client waits for: the map of `WorkerThreadClient` of
-- packages/worker/src/workflow/threaded-vm.ts.
use temporalio_sdk_typescrip.Prelude.{
  ℕ, zero, suc, ◌<◌, none, some, Bool, true, false, List, [], ◌∷◌, ◌++◌, ◌==◌, ◌≡◌, refl, ap, ◌⊎◌,
  inl, inr, Bool-cases, lookup, insert, remove, nat_key, get_elem?, drop_at, IsUnique, arith,
  remove_absent,
}
use temporalio_sdk_typescrip.WorkflowThreads.{WorkerThreadRequest}
use temporalio_sdk_typescrip.WorkflowThreads.Client.{
  Call, shut_down_prematurely, rejected, reject_all,
}
use temporalio_sdk_typescrip.WorkflowThreads.Calls.{waiting_in, rejections}

-- The requests that the entries of the map stand for.
abbrev pub requests : List (ℕ × Call) → List WorkerThreadRequest
requests [] = []
requests ((id, call) ∷ m) = record { request_id = id; input = call.input } ∷ requests m

-- Every entry is older than the next request, and has an id of its own.
abbrev pub AreIssued : ℕ → List (ℕ × Call) → Type 0
AreIssued n [] = Unit
AreIssued n ((id, call) ∷ m) = (id < n) × AreIssued n m

abbrev pub pending : Bool → List (ℕ × Call) → List WorkerThreadRequest
pending true m = []
pending false m = requests m

pub lookup-AreIssued : (n : ℕ) (m : List (ℕ × Call)) → AreIssued n m → lookup n m ≡ none
lookup-AreIssued n [] a = refl
lookup-AreIssued n ((id, call) ∷ m) (l, a) = ground (arith, lookup-AreIssued n m a)

pub insert-AreIssued :
    (n : ℕ) (call : Call) (m : List (ℕ × Call))
    → AreIssued n m
    → insert n call m ≡ m ++ (n, call) ∷ []
insert-AreIssued n call [] a = refl
insert-AreIssued n call ((id, c) ∷ m) (l, a) = ground (arith, insert-AreIssued n call m a)

pub append-AreIssued :
    (n : ℕ) (call : Call) (m : List (ℕ × Call))
    → AreIssued n m
    → AreIssued (suc n) (m ++ (n, call) ∷ [])
append-AreIssued n call [] a = (omega arith, tt)
append-AreIssued n call ((id, c) ∷ m) (l, a) = (omega arith, append-AreIssued n call m a)

pub lookup-append :
    (k n : ℕ) (call : Call) (m : List (ℕ × Call))
    → lookup k m ≡ none
    → k < n
    → lookup k (m ++ (n, call) ∷ []) ≡ none
lookup-append k n call [] h l = ground arith
lookup-append k n call ((id, c) ∷ m) h l = ground (arith, lookup-append k n call m)

pub append-IsUnique :
    (n : ℕ) (call : Call) (m : List (ℕ × Call))
    → AreIssued n m
    → IsUnique m
    → IsUnique (m ++ (n, call) ∷ [])
append-IsUnique n call [] a u = (refl, tt)
append-IsUnique n call ((id, c) ∷ m) (l, a) (h, u) =
    (lookup-append id n call m h l, append-IsUnique n call m a u)

pub waiting_in-append :
    (n : ℕ) (call : Call) (m : List (ℕ × Call))
    → waiting_in (m ++ (n, call) ∷ []) ≡ waiting_in m ++ call ∷ []
waiting_in-append n call [] = refl
waiting_in-append n call ((id, c) ∷ m) = ap (λ l. c ∷ l) (waiting_in-append n call m)

pub requests-append :
    (n : ℕ) (call : Call) (m : List (ℕ × Call))
    → requests (m ++ (n, call) ∷ [])
      ≡ requests m ++ record { request_id = n; input = call.input } ∷ []
requests-append n call [] = refl
requests-append n call ((id, c) ∷ m) =
    ap (λ l. record { request_id = id; input = c.input } ∷ l) (requests-append n call m)

pub reject_all_lem : (m : List (ℕ × Call)) → reject_all m ≡ rejections (waiting_in m)
reject_all_lem [] = refl
reject_all_lem ((id, call) ∷ m) =
    ap (λ l. (call, rejected shut_down_prematurely) ∷ l) (reject_all_lem m)

pub get_elem?-waiting_in :
    (i : ℕ) (m : List (ℕ × Call))
    → (get_elem? (requests m) i ≡ none) × (get_elem? (waiting_in m) i ≡ none)
      ⊎ ((e : ℕ × Call) × (get_elem? m i ≡ some e)
          × (get_elem? (waiting_in m) i ≡ some e.1)
          × (get_elem? (requests m) i ≡ some (record { request_id = e.0; input = e.1.input })))
get_elem?-waiting_in i [] = inl (refl, refl)
get_elem?-waiting_in zero (e ∷ m) = inr (e, refl, refl, refl)
get_elem?-waiting_in (suc i) (e ∷ m) = get_elem?-waiting_in i m

-- The i-th entry is found by its id, and removing it removes nothing else.
pub lookup-get_elem? :
    (i : ℕ) (m : List (ℕ × Call)) (id : ℕ) (call : Call)
    → IsUnique m
    → get_elem? m i ≡ some (id, call)
    → (lookup id m ≡ some call) × (remove id m ≡ drop_at i m)
lookup-get_elem? i [] id call u h = ground arith
lookup-get_elem? zero ((k, c) ∷ m) id call (a, u) h = ground (arith, remove_absent k m a)
lookup-get_elem? (suc i) ((k, c) ∷ m) id call (a, u) h =
    ground (arith, lookup-get_elem? i m id call u h)

pub waiting_in-drop_at :
    (i : ℕ) (m : List (ℕ × Call)) → waiting_in (drop_at i m) ≡ drop_at i (waiting_in m)
waiting_in-drop_at i [] = refl
waiting_in-drop_at zero (e ∷ m) = refl
waiting_in-drop_at (suc i) ((k, c) ∷ m) = ap (λ l. c ∷ l) (waiting_in-drop_at i m)

pub requests-drop_at :
    (i : ℕ) (m : List (ℕ × Call)) → requests (drop_at i m) ≡ drop_at i (requests m)
requests-drop_at i [] = refl
requests-drop_at zero (e ∷ m) = refl
requests-drop_at (suc i) ((k, c) ∷ m) =
    ap (λ l. record { request_id = k; input = c.input } ∷ l) (requests-drop_at i m)

pub remove-AreIssued : (n k : ℕ) (m : List (ℕ × Call)) → AreIssued n m → AreIssued n (remove k m)
remove-AreIssued n k [] a = tt
remove-AreIssued n k ((id, c) ∷ m) (l, a) = elim (Bool-cases (id == k)) [
  | inl q ↦ rw q (remove-AreIssued n k m a)
  | inr q ↦ rw q (l, remove-AreIssued n k m a)
]
