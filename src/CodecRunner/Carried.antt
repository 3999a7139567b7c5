-- ===== src/CodecRunner/Carried.antt =====
-- Messages of which the one carries what the other says, with payloads that codecs decode:
-- packages/worker/src/workflow-codec-runner.ts.
use temporalio_sdk_typescrip.Prelude.{ℕ, String, Option, none, some, List, [], ◌∷◌, ◌≡◌}
use temporalio_sdk_typescrip.Failure.{Payload, ProtoCause}
use temporalio_sdk_typescrip.Codecs.{
  PayloadCodec, decode, optional, optional_single, code_cause, decode_entries,
}
use temporalio_sdk_typescrip.Codecs.Trips.{present, listed}
use temporalio_sdk_typescrip.CodecRunner.{
  Entries, Answer, EncodedAnswer, response_of, failure_of, schedule_activity,
  schedule_local_activity, upsert_workflow_search_attributes, respond_to_query,
  complete_workflow_execution, fail_workflow_execution, continue_as_new_workflow_execution,
  start_child_workflow_execution, signal_external_workflow_execution, modify_workflow_properties,
  other_command, RawCommand, EncodedCommand, Completion, failed_completion, successful,
}

module _ (codecs : List PayloadCodec) where
  -- Entry by entry, the payload of the one memo decodes to that of the other.
  abbrev pub MemoCarries : Option Entries → Option (List (String × Option Payload)) → Type 0
  MemoCarries none r = r ≡ none
  MemoCarries (some m) r =
      (n : Entries) × (r ≡ some (present n)) × (decode_entries codecs n ≡ some (listed m))

  abbrev pub AnswerCarries : Answer → EncodedAnswer → Type 0
  AnswerCarries a e =
      (optional_single (decode codecs) e.succeeded ≡ some (response_of a))
      × (code_cause (decode codecs) e.failed ≡ some (failure_of a))

  -- The same command, where each field that has payloads decodes to that of the one before, and
  -- headers and search attributes are as they were.
  pub data Carries : RawCommand → EncodedCommand → Type 0 where
    schedules :
        (n : ℕ) (a b : Option (List Payload)) (h : Option Entries)
        → optional (decode codecs) b ≡ some a
        → Carries (schedule_activity n a h) (schedule_activity n b h)
    schedules_locally :
        (n : ℕ) (a b : Option (List Payload)) (h : Option Entries)
        → optional (decode codecs) b ≡ some a
        → Carries (schedule_local_activity n a h) (schedule_local_activity n b h)
    upserts :
        (s : Option Entries)
        → Carries (upsert_workflow_search_attributes s) (upsert_workflow_search_attributes s)
    responds :
        (n : ℕ) (a : Answer) (e : EncodedAnswer)
        → AnswerCarries a e
        → Carries (respond_to_query n a) (respond_to_query n e)
    completes :
        (p q : Option Payload)
        → optional_single (decode codecs) q ≡ some p
        → Carries (complete_workflow_execution p) (complete_workflow_execution q)
    fails :
        (f g : ProtoCause)
        → code_cause (decode codecs) g ≡ some f
        → Carries (fail_workflow_execution f) (fail_workflow_execution g)
    continues :
        (n : ℕ) (a b : Option (List Payload)) (m : Option Entries)
        (r : Option (List (String × Option Payload))) (h s : Option Entries)
        → optional (decode codecs) b ≡ some a
        → MemoCarries m r
        → Carries
            (continue_as_new_workflow_execution n a m h s)
            (continue_as_new_workflow_execution n b r h s)
    starts_child :
        (n : ℕ) (a b : Option (List Payload)) (m : Option Entries)
        (r : Option (List (String × Option Payload))) (h s : Option Entries)
        → optional (decode codecs) b ≡ some a
        → MemoCarries m r
        → Carries
            (start_child_workflow_execution n a m h s)
            (start_child_workflow_execution n b r h s)
    signals :
        (n : ℕ) (a b : Option (List Payload)) (h : Option Entries)
        → optional (decode codecs) b ≡ some a
        → Carries
            (signal_external_workflow_execution n a h)
            (signal_external_workflow_execution n b h)
    modifies :
        (m : Option Entries) (r : Option (List (String × Option Payload)))
        → MemoCarries m r
        → Carries (modify_workflow_properties m) (modify_workflow_properties r)
    others : (n : ℕ) → Carries (other_command n) (other_command n)

  -- One command for one, in order.
  pub data AllCarry : List RawCommand → List EncodedCommand → Type 0 where
    none_carry : AllCarry [] []
    more_carry :
        (c : RawCommand) (d : EncodedCommand) (cs : List RawCommand) (ds : List EncodedCommand)
        → Carries c d
        → AllCarry cs ds
        → AllCarry (c ∷ cs) (d ∷ ds)

  pub data CompletionCarries : Completion RawCommand → Completion EncodedCommand → Type 0 where
    failure_carries :
        (f g : ProtoCause)
        → code_cause (decode codecs) g ≡ some f
        → CompletionCarries (failed_completion f) (failed_completion g)
    nothing_carries : CompletionCarries (successful none) (successful none)
    commands_carry :
        (cs : List RawCommand) (ds : List EncodedCommand)
        → AllCarry cs ds
        → CompletionCarries (successful (some cs)) (successful (some ds))
