-- ===== src/CodecRunner/Jobs.antt =====
-- What a workflow gets from an activation whose payloads are encoded: `decodeActivation` of
-- packages/worker/src/workflow-codec-runner.ts.
use temporalio_sdk_typescrip.Prelude.{ℕ, String, Option, none, some, List, [], ◌∷◌, ◌≡◌}
use temporalio_sdk_typescrip.Failure.{Payload, ProtoCause}
use temporalio_sdk_typescrip.Codecs.{
  PayloadCodec, encode, optional, optional_single, code_cause, encode_entries,
}
use temporalio_sdk_typescrip.Codecs.Trips.{present, listed}
use temporalio_sdk_typescrip.CodecRunner.{
  Entries, StartWorkflow, DecodedStart, Resolution, completed, failed, cancelled, other_status,
  cancelled_start, other_start, Job, start_workflow, query_workflow, cancel_workflow,
  signal_workflow, resolve_activity, resolve_child_workflow_execution,
  resolve_child_workflow_execution_start, resolve_signal_external_workflow,
  resolve_request_cancel_external_workflow, other_job,
}

-- The job as the workflow gets it: of a memo, each entry is the list of its one payload.
abbrev pub listed_memo : Option Entries → Option (List (String × List Payload))
listed_memo none = none
listed_memo (some m) = some (listed m)

abbrev pub got_start : StartWorkflow → DecodedStart
got_start s = record {
  others = s.others;
  arguments = s.arguments;
  headers = s.headers;
  continued_failure = s.continued_failure;
  memo_fields = listed_memo s.memo_fields;
  last_completion_payloads = s.last_completion_payloads;
  search_attributes = s.search_attributes;
}

abbrev pub got : Job StartWorkflow → Job DecodedStart
got (start_workflow s) = start_workflow (got_start s)
got (query_workflow n a h) = query_workflow n a h
got (cancel_workflow n d) = cancel_workflow n d
got (signal_workflow n i h) = signal_workflow n i h
got (resolve_activity n r) = resolve_activity n r
got (resolve_child_workflow_execution n r) = resolve_child_workflow_execution n r
got (resolve_child_workflow_execution_start n s) = resolve_child_workflow_execution_start n s
got (resolve_signal_external_workflow n f) = resolve_signal_external_workflow n f
got (resolve_request_cancel_external_workflow n f) = resolve_request_cancel_external_workflow n f
got (other_job n) = other_job n

abbrev pub all_got : List (Job StartWorkflow) → List (Job DecodedStart)
all_got [] = []
all_got (j ∷ js) = got j ∷ all_got js

module _ (codecs : List PayloadCodec) where
  abbrev pub MemoEncodes : Option Entries → Option Entries → Type 0
  MemoEncodes none r = r ≡ none
  MemoEncodes (some m) r =
      (n : Entries) × (r ≡ some n) × (encode_entries codecs m ≡ some (present n))

  pub data ResolutionEncodes : Option Resolution → Option Resolution → Type 0 where
    no_result : ResolutionEncodes none none
    completes :
        (p q : Option Payload)
        → optional_single (encode codecs) p ≡ some q
        → ResolutionEncodes (some (completed p)) (some (completed q))
    fails :
        (f g : ProtoCause)
        → code_cause (encode codecs) f ≡ some g
        → ResolutionEncodes (some (failed f)) (some (failed g))
    cancels :
        (f g : ProtoCause)
        → code_cause (encode codecs) f ≡ some g
        → ResolutionEncodes (some (cancelled f)) (some (cancelled g))
    is_other : (n : ℕ) → ResolutionEncodes (some (other_status n)) (some (other_status n))

  -- The same job, where each field that has payloads is encoded, and headers and search attributes are
  -- as they were.
  pub data Encodes : Job StartWorkflow → Job StartWorkflow → Type 0 where
    starts :
        (s t : StartWorkflow)
        → t.others ≡ s.others
        → optional (encode codecs) s.arguments ≡ some t.arguments
        → t.headers ≡ s.headers
        → code_cause (encode codecs) s.continued_failure ≡ some t.continued_failure
        → MemoEncodes s.memo_fields t.memo_fields
        → optional (encode codecs) s.last_completion_payloads ≡ some t.last_completion_payloads
        → t.search_attributes ≡ s.search_attributes
        → Encodes (start_workflow s) (start_workflow t)
    queries :
        (n : ℕ) (a b : Option (List Payload)) (h : Option Entries)
        → optional (encode codecs) a ≡ some b
        → Encodes (query_workflow n a h) (query_workflow n b h)
    cancels_workflow :
        (n : ℕ) (a b : Option (List Payload))
        → optional (encode codecs) a ≡ some b
        → Encodes (cancel_workflow n a) (cancel_workflow n b)
    signals :
        (n : ℕ) (a b : Option (List Payload)) (h : Option Entries)
        → optional (encode codecs) a ≡ some b
        → Encodes (signal_workflow n a h) (signal_workflow n b h)
    resolves :
        (n : ℕ) (r s : Option Resolution)
        → ResolutionEncodes r s
        → Encodes (resolve_activity n r) (resolve_activity n s)
    resolves_child :
        (n : ℕ) (r s : Option Resolution)
        → ResolutionEncodes r s
        → Encodes (resolve_child_workflow_execution n r) (resolve_child_workflow_execution n s)
    cancels_start :
        (n : ℕ) (f g : ProtoCause)
        → code_cause (encode codecs) f ≡ some g
        → Encodes
            (resolve_child_workflow_execution_start n (cancelled_start f))
            (resolve_child_workflow_execution_start n (cancelled_start g))
    resolves_start :
        (n k : ℕ)
        → Encodes
            (resolve_child_workflow_execution_start n (other_start k))
            (resolve_child_workflow_execution_start n (other_start k))
    resolves_signal :
        (n : ℕ) (f g : ProtoCause)
        → code_cause (encode codecs) f ≡ some g
        → Encodes (resolve_signal_external_workflow n f) (resolve_signal_external_workflow n g)
    resolves_cancel :
        (n : ℕ) (f g : ProtoCause)
        → code_cause (encode codecs) f ≡ some g
        → Encodes
            (resolve_request_cancel_external_workflow n f)
            (resolve_request_cancel_external_workflow n g)
    others : (n : ℕ) → Encodes (other_job n) (other_job n)

  pub data AllEncode : List (Job StartWorkflow) → List (Job StartWorkflow) → Type 0 where
    none_encode : AllEncode [] []
    more_encode :
        (j k : Job StartWorkflow) (js ks : List (Job StartWorkflow))
        → Encodes j k
        → AllEncode js ks
        → AllEncode (j ∷ js) (k ∷ ks)
