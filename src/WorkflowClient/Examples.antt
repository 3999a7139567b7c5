-- ===== src/WorkflowClient/Examples.antt =====
-- Examples of the workflow client.
use temporalio_sdk_typescrip.Prelude.{
  ℕ, zero, suc, String, Option, none, some, true, if◌then◌else◌, str_eq, List, [], ◌∷◌, ◌≡◌, refl,
  ◌⊎◌, ◌<◌, inl, inr, Within, arith,
}
use temporalio_sdk_typescrip.Prelude.Checked.{Checked, valid, invalid}
use temporalio_sdk_typescrip.Time.Fixed.{fixed}
use temporalio_sdk_typescrip.Failure.{opaque, no_cause}
use temporalio_sdk_typescrip.Interceptors.{compose_interceptors, compose_from}
use temporalio_sdk_typescrip.DataConverter.{decode_array_from_payloads}
use temporalio_sdk_typescrip.DataConverter.Examples.{numbers}
use temporalio_sdk_typescrip.WorkflowClient.{ServiceFailure, unexpected}
use temporalio_sdk_typescrip.WorkflowClient.Results.{
  HistoryEvent, completed, continued_as_new, HistoryRequest, HistoryResponse, Outcome, first_result,
  result, result_loop, on_event,
}
use temporalio_sdk_typescrip.WorkflowClient.Results.Chains.{
  Settles, returns, is_followed, Serves, result-Settles,
}
use temporalio_sdk_typescrip.WorkflowClient.Pages.{RawExecution, Page, list_all, fetch_history}
use temporalio_sdk_typescrip.WorkflowClient.Pages.Complete.{
  Book, then_page, broken_page, yielded, end_of, events_or, fetch_history-Book, list_all-Book,
}
use temporalio_sdk_typescrip.WorkflowClient.Handles.{
  latest, start_call, start, terminate, cancel, terminate_workflow_handler, cancel_workflow_handler,
  handle_result, compile_workflow_options, start_request, start_workflow_handler,
}
use temporalio_sdk_typescrip.WorkflowClient.Handles.Messages.{
  WorkflowOptions, StartRequest, Service, WorkflowHandle, query_result,
}
use temporalio_sdk_typescrip.WorkflowClient.Handles.Addressing.{
  no_interceptors, start-WorkflowHandle,
}

-- A chain of two runs: any run but "second" continues as "second", which returns.
abbrev history : Option String → HistoryEvent
history none = continued_as_new (some "second")
history (some run) =
    if str_eq run "second" then completed (some (7 ∷ [])) none else continued_as_new (some "second")

-- The first call gets an empty page.
abbrev serve : ℕ → HistoryRequest → Checked ServiceFailure HistoryResponse
serve zero q = valid (record { events = some []; next_page_token = some 1 })
serve (suc n) q = valid (record { events = some (history q.run_id ∷ []); next_page_token = none })

abbrev patience : ℕ → ℕ
patience zero = 1
patience (suc n) = 0

serves : Serves numbers history true serve patience
serves = record { answers = each }
  where
    each :
        (n : ℕ) (q : HistoryRequest)
        → ((events : Option (List HistoryEvent)) × (token : Option ℕ) × ((events ≡ none)
              ⊎ (events ≡ some []))
            × (serve n q ≡ valid (record { events = events; next_page_token = token }))
            × (patience (suc n) < patience n))
          ⊎ ((token : Option ℕ) × (serve n q
                ≡ valid
                    (record { events = some (history q.run_id ∷ []); next_page_token = token })))
    each zero q = inl (some [], some 1, inr refl, refl, omega arith)
    each (suc n) q = inr (none, refl)

abbrev seven : Outcome
seven = first_result (decode_array_from_payloads numbers (some (7 ∷ [])))

settles : Settles numbers history true (some "first") seven
settles =
    is_followed (some "first") (some "second") "second" seven none no_cause none
      (inr (inr (inr refl))) refl refl
      (returns (some "second") (some (7 ∷ [])) none refl (inr refl))

seven_lem : seven ≡ valid (opaque 7)
seven_lem = refl

result_at_4 : result numbers serve "w" (some "first") true 4 ≡ some seven
unfolding result_loop on_event
result_at_4 = refl

result-Settles_example : Within (result numbers serve "w" (some "first") true) seven
result-Settles_example =
    result-Settles numbers history true serve patience serves "w" (some "first") seven settles

-- Two pages of executions, the second of which fails.
abbrev execution : ℕ → RawExecution
execution status = record {
  type = "order";
  workflow_id = "w";
  run_id = "r";
  task_queue = "q";
  status = status;
  history_length = 3;
  memo = some (("note", 5) ∷ []);
}

abbrev pages : Option ℕ → Checked ServiceFailure (Page RawExecution)
pages none = valid (record { items = execution 1 ∷ execution 2 ∷ []; next_page_token = some 9 })
pages (some n) = invalid unexpected

abbrev executions : List RawExecution
executions = execution 1 ∷ execution 2 ∷ []

book : Book pages none executions (some unexpected)
book = then_page none 9 executions [] (some unexpected) refl (broken_page (some 9) unexpected refl)

list_all-Book_example :
    Within (list_all numbers pages) (yielded numbers executions (end_of numbers (some unexpected)))
list_all-Book_example = list_all-Book numbers pages executions (some unexpected) book

fetch_history-Book_example : Within (fetch_history pages) (events_or executions (some unexpected))
fetch_history-Book_example = fetch_history-Book pages executions (some unexpected) book

abbrev options : WorkflowOptions
options = record {
  workflow_id = "w";
  task_queue = "q";
  arguments = some (opaque 1 ∷ []);
  reuse_policy = none;
  execution_timeout = none;
  run_timeout = none;
  task_timeout = none;
  retry = none;
  memo = none;
  cron_schedule = none;
  follow_runs = none;
}

-- Every start begins the run "first".
abbrev service : Service
service = record {
  start_workflow_execution = λ q. valid "first";
  signal_with_start_workflow_execution = λ q name input. valid "first";
  terminate_workflow_execution = λ i. valid tt;
  request_cancel_workflow_execution = λ i. valid tt;
  signal_workflow_execution = λ q. valid tt;
  query_workflow = λ q. valid (query_result none);
}

is_started : start_call fixed numbers service no_interceptors "order" options ≡ valid "first"
unfolding start_call compile_workflow_options start_workflow_handler start_request
    compose_interceptors compose_from
is_started = refl

start-WorkflowHandle_example :
    (h : WorkflowHandle) × (q : StartRequest) × (start fixed numbers service no_interceptors "order"
        options
      ≡ valid h)
    × (service.start_workflow_execution q ≡ valid "first")
    × ((q.workflow_id ≡ "w") × (q.workflow_type ≡ "order") × (q.task_queue ≡ "q"))
    × (terminate fixed numbers service no_interceptors h (some "late")
        ≡ terminate_workflow_handler fixed numbers service (record {
          execution = latest "w";
          reason = some "late";
          first_execution_run_id = some "first";
        }))
    × (cancel fixed numbers service no_interceptors h
        ≡ cancel_workflow_handler fixed numbers service
            (record { execution = latest "w"; first_execution_run_id = some "first" }))
    × Within (handle_result numbers serve h) seven
start-WorkflowHandle_example =
    start-WorkflowHandle fixed numbers service "order" options "first" (some "late") history serve
      patience seven is_started serves settles
