-- ===== src/WorkflowClient/Pages/Complete.antt =====
-- Page by page, the client sees what the service has: packages/client/src/workflow-client.ts.
use temporalio_sdk_typescrip.Prelude.{
  ℕ, Option, none, some, List, [], ◌∷◌, ◌++◌, ◌≡◌, refl, Within, at_once, one_round, Option-cases,
  inl, inr,
}
use mathlib.Core.List.{append_assoc, append-nil}
use temporalio_sdk_typescrip.Prelude.Checked.{Checked, valid, invalid}
use temporalio_sdk_typescrip.DataConverter.{DataConverter}
use temporalio_sdk_typescrip.WorkflowClient.{
  ClientError, not_converted, ServiceFailure, rethrow_grpc_error,
}
use temporalio_sdk_typescrip.WorkflowClient.Pages.{
  RawExecution, ExecutionInfo, execution_info_from_raw, Page, Yielded, yield_before, nothing_more,
  yield_page, list_from, list_all, fetch_from, fetch_history,
}

-- What the service has from a token on: the items of its pages, which end with a page that has no
-- next one, or with a failure.
pub data Book {A : Type 0} (serve : Option ℕ → Checked ServiceFailure (Page A))
    : Option ℕ → List A → Option ServiceFailure → Type 0 where
  last_page :
      (t : Option ℕ) (xs : List A)
      → serve t ≡ valid (record { items = xs; next_page_token = none })
      → Book serve t xs none
  broken_page : (t : Option ℕ) (e : ServiceFailure) → serve t ≡ invalid e → Book serve t [] (some e)
  then_page :
      (t : Option ℕ) (n : ℕ) (xs ys : List A) (e : Option ServiceFailure)
      → serve t ≡ valid (record { items = xs; next_page_token = some n })
      → Book serve (some n) ys e
      → Book serve t (xs ++ ys) e

abbrev pub events_or :
    {E : Type 0} → List E → Option ServiceFailure → Checked ServiceFailure (List E)
events_or events none = valid events
events_or events (some e) = invalid e

module _ {E : Type 0} (serve : Option ℕ → Checked ServiceFailure (Page E)) where
  fetch_from-Book :
      (t : Option ℕ) (ys : List E) (e : Option ServiceFailure)
      → Book serve t ys e
      → (before : List E)
      → Within (λ fuel. fetch_from serve fuel t before) (events_or (before ++ ys) e)
  unfolding fetch_from
  fetch_from-Book t ys e (last_page _ _ p) before =
      one_round _ (λ fuel. some (valid (before ++ ys))) _ (λ n. rw p refl) (at_once _)
  fetch_from-Book t ys e (broken_page _ f p) before =
      one_round _ (λ fuel. some (invalid f)) _ (λ n. rw p refl) (at_once _)
  fetch_from-Book t zs e (then_page _ n xs ys _ p b) before =
      one_round _ (λ fuel. fetch_from serve fuel (some n) (before ++ xs)) _ (λ n. rw p refl)
        (rw⁻¹ (append_assoc before xs ys) (fetch_from-Book (some n) ys e b (before ++ xs)))

  -- However many pages the service has, `fetchHistory` returns, with the events of all pages in
  -- their order, or with the error of the page that fails.
  pub fetch_history-Book :
      (events : List E) (e : Option ServiceFailure)
      → Book serve none events e
      → Within (fetch_history serve) (events_or events e)
  fetch_history-Book events e b = fetch_from-Book none events e b []

module _ (d : DataConverter) where
  abbrev yield_or : Option ExecutionInfo → Yielded ExecutionInfo → Yielded ExecutionInfo
  yield_or none y = nothing_more (some not_converted)
  yield_or (some x) y = yield_before x y

  -- What `_list` yields of raw executions: those before the first that cannot be decoded.
  abbrev pub yielded : List RawExecution → Option ClientError → Yielded ExecutionInfo
  yielded [] end = nothing_more end
  yielded (r ∷ rs) end = yield_or (execution_info_from_raw d r) (yielded rs end)

  abbrev pub end_of : Option ServiceFailure → Option ClientError
  end_of none = none
  end_of (some e) = some (rethrow_grpc_error e "Failed to list workflows" none)

  module _ (serve : Option ℕ → Checked ServiceFailure (Page RawExecution)) where
    abbrev page_before :
        List RawExecution
        → (ℕ → Option (Yielded ExecutionInfo))
        → ℕ
        → Option (Yielded ExecutionInfo)
    page_before xs g n = yield_page d serve xs (g n)

    yield_page-yielded :
        (xs ys : List RawExecution) (end : Option ClientError)
        (g : ℕ → Option (Yielded ExecutionInfo))
        → Within g (yielded ys end)
        → Within (page_before xs g) (yielded (xs ++ ys) end)
    yield_page-yielded [] ys end g h = h
    yield_page-yielded (r ∷ rs) ys end g h = elim (Option-cases (execution_info_from_raw d r)) [
      | inl e ↦ rw e (at_once _)
      | inr (x, e) ↦
          let (b, p) = yield_page-yielded rs ys end g h in rw e (b, λ n l. rw (p n l) refl)
    ]

    list_from-Book :
        (t : Option ℕ) (raw : List RawExecution) (e : Option ServiceFailure)
        → Book serve t raw e
        → Within (λ fuel. list_from d serve fuel t) (yielded raw (end_of e))
    unfolding list_from
    list_from-Book t raw e (last_page _ _ p) =
        one_round _ (page_before raw (λ _. some (nothing_more none))) _ (λ n. rw p refl)
          (rw (append-nil raw) at
            (yield_page-yielded raw [] none (λ _. some (nothing_more none)) (at_once _)))
    list_from-Book t raw e (broken_page _ f p) =
        one_round _ (λ fuel. some (nothing_more (end_of (some f)))) _ (λ n. rw p refl) (at_once _)
    list_from-Book t zs e (then_page _ n xs ys _ p b) =
        one_round _ (page_before xs (λ fuel. list_from d serve fuel (some n))) _ (λ k. rw p refl)
          (yield_page-yielded xs ys (end_of e) (λ fuel. list_from d serve fuel (some n))
            (list_from-Book (some n) ys e b))

    -- `list` yields what the service has, page by page and in order, and ends; a page that fails
    -- throws its error after all executions of the pages before, and an execution that cannot be
    -- decoded throws after those before it.
    pub list_all-Book :
        (raw : List RawExecution) (e : Option ServiceFailure)
        → Book serve none raw e
        → Within (list_all d serve) (yielded raw (end_of e))
    list_all-Book raw e b = list_from-Book none raw e b
