-- ===== src/CodecRunner.antt =====
-- The codecs of a worker, on the messages of its workflows: `WorkflowCodecRunner` of
-- packages/worker/src/workflow-codec-runner.ts. The fields of a message that are passed on as they are
-- stand by one number, `others`. A message has one variant.
pub mod Fields
pub mod Carried
pub mod Commands
pub mod Jobs
pub mod Decoded
mod Examples
use temporalio_sdk_typescrip.Prelude.{ℕ, String, Option, none, some, List, [], ◌∷◌}
use temporalio_sdk_typescrip.Failure.{Payload, ProtoCause}
use temporalio_sdk_typescrip.Codecs.{
  PayloadCodec, after, encode, decode, optional, optional_single, code_cause, encode_map,
  decode_optional_map,
}

abbrev pub Entries : Type 0
Entries = List (String × Payload)

-- `memo_fields` is `memo?.fields`, and `last_completion_payloads` is `lastCompletionResult?.payloads`.
pub record StartWorkflow : Type 0 where
  pub others : ℕ
  pub arguments : Option (List Payload)
  pub headers : Option Entries
  pub continued_failure : ProtoCause
  pub memo_fields : Option Entries
  pub last_completion_payloads : Option (List Payload)
  pub search_attributes : Option Entries

-- After decoding there is a memo and a last result always, and an entry of the memo is a list.
pub record DecodedStart : Type 0 where
  pub others : ℕ
  pub arguments : Option (List Payload)
  pub headers : Option Entries
  pub continued_failure : ProtoCause
  pub memo_fields : Option (List (String × List Payload))
  pub last_completion_payloads : Option (List Payload)
  pub search_attributes : Option Entries

pub data Resolution : Type 0 where
  completed : Option Payload → Resolution
  failed : ProtoCause → Resolution
  cancelled : ProtoCause → Resolution
  other_status : ℕ → Resolution

pub data ChildStart : Type 0 where
  cancelled_start : ProtoCause → ChildStart
  other_start : ℕ → ChildStart

-- A job whose `startWorkflow` is an S.
pub data Job (S : Type 0) : Type 0 where
  start_workflow : S → Job S
  query_workflow :
      (others : ℕ) (arguments : Option (List Payload)) (headers : Option Entries) → Job S
  cancel_workflow : (others : ℕ) (details : Option (List Payload)) → Job S
  signal_workflow : (others : ℕ) (input : Option (List Payload)) (headers : Option Entries) → Job S
  resolve_activity : (others : ℕ) (result : Option Resolution) → Job S
  resolve_child_workflow_execution : (others : ℕ) (result : Option Resolution) → Job S
  resolve_child_workflow_execution_start : (others : ℕ) → ChildStart → Job S
  resolve_signal_external_workflow : (others : ℕ) (failure : ProtoCause) → Job S
  resolve_request_cancel_external_workflow : (others : ℕ) (failure : ProtoCause) → Job S
  other_job : ℕ → Job S

module _ (codecs : List PayloadCodec) where
  abbrev decoded_start : StartWorkflow → Option DecodedStart
  decoded_start s = after (optional (decode codecs) s.arguments) (λ arguments.
      after (code_cause (decode codecs) s.continued_failure) (λ continued_failure.
        after (decode_optional_map codecs s.memo_fields) (λ memo_fields.
          after (optional (decode codecs) s.last_completion_payloads) (λ payloads. some (record {
            others = s.others;
            arguments = arguments;
            headers = s.headers;
            continued_failure = continued_failure;
            memo_fields = memo_fields;
            last_completion_payloads = payloads;
            search_attributes = s.search_attributes;
          })))))

  abbrev pub decoded_resolution : Resolution → Option Resolution
  decoded_resolution (completed result) =
      after (optional_single (decode codecs) result) (λ r. some (completed r))
  decoded_resolution (failed failure) =
      after (code_cause (decode codecs) failure) (λ f. some (failed f))
  decoded_resolution (cancelled failure) =
      after (code_cause (decode codecs) failure) (λ f. some (cancelled f))
  decoded_resolution (other_status n) = some (other_status n)

  abbrev pub decoded_result : Option Resolution → Option (Option Resolution)
  decoded_result none = some none
  decoded_result (some r) = after (decoded_resolution r) (λ d. some (some d))

  abbrev decoded_child_start : ChildStart → Option ChildStart
  decoded_child_start (cancelled_start failure) =
      after (code_cause (decode codecs) failure) (λ f. some (cancelled_start f))
  decoded_child_start (other_start n) = some (other_start n)

  unfoldable pub decode_job : Job StartWorkflow → Option (Job DecodedStart)
  decode_job (start_workflow s) = after (decoded_start s) (λ d. some (start_workflow d))
  decode_job (query_workflow n arguments headers) =
      after (optional (decode codecs) arguments) (λ a. some (query_workflow n a headers))
  decode_job (cancel_workflow n details) =
      after (optional (decode codecs) details) (λ d. some (cancel_workflow n d))
  decode_job (signal_workflow n input headers) =
      after (optional (decode codecs) input) (λ i. some (signal_workflow n i headers))
  decode_job (resolve_activity n result) =
      after (decoded_result result) (λ r. some (resolve_activity n r))
  decode_job (resolve_child_workflow_execution n result) =
      after (decoded_result result) (λ r. some (resolve_child_workflow_execution n r))
  decode_job (resolve_child_workflow_execution_start n start) =
      after (decoded_child_start start) (λ s. some (resolve_child_workflow_execution_start n s))
  decode_job (resolve_signal_external_workflow n failure) =
      after (code_cause (decode codecs) failure) (λ f. some (resolve_signal_external_workflow n f))
  decode_job (resolve_request_cancel_external_workflow n failure) =
      after (code_cause (decode codecs) failure)
        (λ f. some (resolve_request_cancel_external_workflow n f))
  decode_job (other_job n) = some (other_job n)

  unfoldable pub decode_jobs : List (Job StartWorkflow) → Option (List (Job DecodedStart))
  decode_jobs [] = some []
  decode_jobs (j ∷ js) = after (decode_job j) (λ d. after (decode_jobs js) (λ ds. some (d ∷ ds)))

  -- The jobs of an activation, which may be missing.
  unfoldable pub decode_activation :
      Option (List (Job StartWorkflow)) → Option (Option (List (Job DecodedStart)))
  decode_activation none = some none
  decode_activation (some js) = after (decode_jobs js) (λ ds. some (some ds))

-- What a query is answered with: after encoding, there is a success in any case.
pub data Answer : Type 0 where
  succeeded : Option Payload → Answer
  failed_with : ProtoCause → Answer

pub record EncodedAnswer : Type 0 where
  pub succeeded : Option Payload
  pub failed : ProtoCause

-- A command, by what answers a query and by the entries of its memo.
pub data Command (A M : Type 0) : Type 0 where
  schedule_activity :
      (others : ℕ) (arguments : Option (List Payload)) (headers : Option Entries) → Command A M
  schedule_local_activity :
      (others : ℕ) (arguments : Option (List Payload)) (headers : Option Entries) → Command A M
  upsert_workflow_search_attributes : (search_attributes : Option Entries) → Command A M
  respond_to_query : (others : ℕ) → A → Command A M
  complete_workflow_execution : (result : Option Payload) → Command A M
  fail_workflow_execution : (failure : ProtoCause) → Command A M
  continue_as_new_workflow_execution :
      (others : ℕ) (arguments : Option (List Payload)) (memo : Option M)
      (headers search_attributes : Option Entries)
      → Command A M
  start_child_workflow_execution :
      (others : ℕ) (input : Option (List Payload)) (memo : Option M)
      (headers search_attributes : Option Entries)
      → Command A M
  signal_external_workflow_execution :
      (others : ℕ) (args : Option (List Payload)) (headers : Option Entries) → Command A M
  modify_workflow_properties : (upserted_memo_fields : Option M) → Command A M
  other_command : ℕ → Command A M

abbrev pub RawCommand : Type 0
RawCommand = Command Answer Entries

abbrev pub EncodedCommand : Type 0
EncodedCommand = Command EncodedAnswer (List (String × Option Payload))

pub data Completion (C : Type 0) : Type 0 where
  failed_completion : ProtoCause → Completion C
  successful : Option (List C) → Completion C

abbrev pub response_of : Answer → Option Payload
response_of (succeeded response) = response
response_of (failed_with failure) = none

abbrev pub failure_of : Answer → ProtoCause
failure_of (succeeded response) = ProtoCause.no_cause
failure_of (failed_with failure) = failure

module _ (codecs : List PayloadCodec) where
  abbrev pub encoded_answer : Answer → Option EncodedAnswer
  encoded_answer a = after (optional_single (encode codecs) (response_of a)) (λ response.
      after (code_cause (encode codecs) (failure_of a))
        (λ failure. some (record { succeeded = response; failed = failure })))

  unfoldable pub encode_command : RawCommand → Option EncodedCommand
  encode_command (schedule_activity n arguments headers) =
      after (optional (encode codecs) arguments) (λ a. some (schedule_activity n a headers))
  encode_command (schedule_local_activity n arguments headers) =
      after (optional (encode codecs) arguments) (λ a. some (schedule_local_activity n a headers))
  encode_command (upsert_workflow_search_attributes attributes) =
      some (upsert_workflow_search_attributes attributes)
  encode_command (respond_to_query n answer) =
      after (encoded_answer answer) (λ a. some (respond_to_query n a))
  encode_command (complete_workflow_execution result) =
      after (optional_single (encode codecs) result) (λ r. some (complete_workflow_execution r))
  encode_command (fail_workflow_execution failure) =
      after (code_cause (encode codecs) failure) (λ f. some (fail_workflow_execution f))
  encode_command (continue_as_new_workflow_execution n arguments memo headers attributes) =
      after (optional (encode codecs) arguments) (λ a.
        after (encode_map codecs memo)
          (λ m. some (continue_as_new_workflow_execution n a m headers attributes)))
  encode_command (start_child_workflow_execution n input memo headers attributes) =
      after (optional (encode codecs) input) (λ i.
        after (encode_map codecs memo)
          (λ m. some (start_child_workflow_execution n i m headers attributes)))
  encode_command (signal_external_workflow_execution n args headers) =
      after (optional (encode codecs) args)
        (λ a. some (signal_external_workflow_execution n a headers))
  encode_command (modify_workflow_properties fields) =
      after (encode_map codecs fields) (λ m. some (modify_workflow_properties m))
  encode_command (other_command n) = some (other_command n)

  unfoldable pub encode_commands : List RawCommand → Option (List EncodedCommand)
  encode_commands [] = some []
  encode_commands (c ∷ cs) =
      after (encode_command c) (λ d. after (encode_commands cs) (λ ds. some (d ∷ ds)))

  abbrev successful_with : Option (List RawCommand) → Option (Completion EncodedCommand)
  successful_with none = some (successful none)
  successful_with (some cs) = after (encode_commands cs) (λ ds. some (successful (some ds)))

  -- Up to the bytes of the message.
  unfoldable pub encode_completion : Completion RawCommand → Option (Completion EncodedCommand)
  encode_completion (failed_completion failure) =
      after (code_cause (encode codecs) failure) (λ f. some (failed_completion f))
  encode_completion (successful commands) = successful_with commands
