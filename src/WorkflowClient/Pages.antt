-- ===== src/WorkflowClient/Pages.antt =====
-- Listing workflows and fetching a history page by page: `_list` and `fetchHistory` of
-- packages/client/src/workflow-client.ts, and `executionInfoFromRaw` of
-- packages/client/src/helpers.ts. A page token that is missing or empty is `none`.
pub mod Complete
use temporalio_sdk_typescrip.Prelude.{
  ℕ, zero, suc, String, Option, none, some, List, [], ◌∷◌, ◌++◌, get_elem?,
}
use temporalio_sdk_typescrip.Prelude.Checked.{Checked, valid, invalid}
use temporalio_sdk_typescrip.Failure.{Value, Payload}
use temporalio_sdk_typescrip.Codecs
use temporalio_sdk_typescrip.Codecs.{after, first_of}
use temporalio_sdk_typescrip.DataConverter.{DataConverter}
use temporalio_sdk_typescrip.WorkflowClient.{
  ClientError, not_converted, ServiceFailure, rethrow_grpc_error, or_else,
}

abbrev pub status_names : List String
status_names =
    "UNSPECIFIED" ∷ "RUNNING" ∷ "COMPLETED" ∷ "FAILED" ∷ "CANCELLED" ∷ "TERMINATED"
    ∷ "CONTINUED_AS_NEW" ∷ "TIMED_OUT" ∷ []

abbrev pub workflow_status_code_to_name : ℕ → String
workflow_status_code_to_name code = or_else (get_elem? status_names code) "UNKNOWN"

-- A raw execution, and what is made of it; times, search attributes and parents are left out.
pub record RawExecution : Type 0 where
  pub type : String
  pub workflow_id : String
  pub run_id : String
  pub task_queue : String
  pub status : ℕ
  pub history_length : ℕ
  pub memo : Option (List (String × Payload))

pub record ExecutionInfo : Type 0 where
  pub type : String
  pub workflow_id : String
  pub run_id : String
  pub task_queue : String
  pub status_code : ℕ
  pub status_name : String
  pub history_length : ℕ
  pub memo : Option (List (String × Value))

module _ (d : DataConverter) where
  -- A payload that a codec drops is handed to the converter as `undefined`, which it refuses.
  abbrev decode_first : Option Payload → Option Value
  decode_first none = none
  decode_first (some p) = d.payload_converter.from_payload p

  unfoldable pub decode_entries : List (String × Payload) → Option (List (String × Value))
  decode_entries [] = some []
  decode_entries ((k, p) ∷ m) = after (Codecs.decode d.payload_codecs (p ∷ [])) (λ ps.
      after (decode_first (first_of ps)) (λ v. after (decode_entries m) (λ n. some ((k, v) ∷ n))))

  unfoldable pub decode_map_from_payloads :
      Option (List (String × Payload)) → Option (Option (List (String × Value)))
  unfolding decode_entries
  decode_map_from_payloads none = some none
  decode_map_from_payloads (some m) = after (decode_entries m) (λ n. some (some n))

  unfoldable pub execution_info_from_raw : RawExecution → Option ExecutionInfo
  unfolding decode_map_from_payloads
  execution_info_from_raw r = after (decode_map_from_payloads r.memo) (λ memo. some (record {
    type = r.type;
    workflow_id = r.workflow_id;
    run_id = r.run_id;
    task_queue = r.task_queue;
    status_code = r.status;
    status_name = workflow_status_code_to_name r.status;
    history_length = r.history_length;
    memo = memo;
  }))

pub record Page (A : Type 0) : Type 0 where
  pub items : List A
  pub next_page_token : Option ℕ

-- What a generator has yielded, and the error that it has thrown, if any.
pub record Yielded (A : Type 0) : Type 0 where
  pub items : List A
  pub error : Option ClientError

module _ {A : Type 0} where
  abbrev pub yield_before : A → Yielded A → Yielded A
  yield_before x y = record y { items = x ∷ y.items }

  abbrev pub nothing_more : Option ClientError → Yielded A
  nothing_more e = record { items = []; error = e }

module _ (d : DataConverter) (serve : Option ℕ → Checked ServiceFailure (Page RawExecution)) where
  -- The rest of a page, then `rest`; a raw execution that cannot be decoded ends the generator.
  abbrev yield_info :
      Option ExecutionInfo → Option (Yielded ExecutionInfo) → Option (Yielded ExecutionInfo)
  yield_info none rest = some (nothing_more (some not_converted))
  yield_info (some x) none = none
  yield_info (some x) (some y) = some (yield_before x y)

  abbrev pub yield_page :
      List RawExecution → Option (Yielded ExecutionInfo) → Option (Yielded ExecutionInfo)
  yield_page [] rest = rest
  yield_page (r ∷ rs) rest = yield_info (execution_info_from_raw d r) (yield_page rs rest)

  abbrev next_page :
      (Option ℕ → Option (Yielded ExecutionInfo)) → Option ℕ → Option (Yielded ExecutionInfo)
  next_page again none = some (nothing_more none)
  next_page again (some t) = again (some t)

  abbrev pub on_page :
      (Option ℕ → Option (Yielded ExecutionInfo))
      → Checked ServiceFailure (Page RawExecution)
      → Option (Yielded ExecutionInfo)
  on_page again (invalid e) =
      some (nothing_more (some (rethrow_grpc_error e "Failed to list workflows" none)))
  on_page again (valid p) = yield_page p.items (next_page again p.next_page_token)

  -- The loop of `_list`, on fuel.
  unfoldable pub list_from : (fuel : ℕ) → Option ℕ → Option (Yielded ExecutionInfo)
  list_from zero token = none
  list_from (suc fuel) token = on_page (λ t. list_from fuel t) (serve token)

  abbrev pub list_all : (fuel : ℕ) → Option (Yielded ExecutionInfo)
  list_all fuel = list_from fuel none

module _ {E : Type 0} (serve : Option ℕ → Checked ServiceFailure (Page E)) where
  abbrev Events : Type 0
  Events = Option (Checked ServiceFailure (List E))

  abbrev fetch_next : (Option ℕ → List E → Events) → List E → Option ℕ → Events
  fetch_next again events none = some (valid events)
  fetch_next again events (some t) = again (some t) events

  -- `fetchHistory` does not catch the errors of the service.
  abbrev pub on_history_page :
      (Option ℕ → List E → Events) → List E → Checked ServiceFailure (Page E) → Events
  on_history_page again events (invalid e) = some (invalid e)
  on_history_page again events (valid p) = fetch_next again (events ++ p.items) p.next_page_token

  -- The loop of `fetchHistory`, on fuel, with the events so far.
  unfoldable pub fetch_from : (fuel : ℕ) → Option ℕ → List E → Events
  fetch_from zero token events = none
  fetch_from (suc fuel) token events =
      on_history_page (λ t es. fetch_from fuel t es) events (serve token)

  abbrev pub fetch_history : (fuel : ℕ) → Events
  fetch_history fuel = fetch_from fuel none []
