-- ===== src/CodecRunner/Examples.antt =====
-- Examples for the codecs of a worker, packages/worker/src/workflow-codec-runner.ts.
use temporalio_sdk_typescrip.Prelude.{none, some, List, [], ◌∷◌, ◌≡◌, refl}
use temporalio_sdk_typescrip.Failure.{no_cause, because, proto, canceled_info}
use temporalio_sdk_typescrip.Codecs.{PayloadCodec, encode_map, encode_entries, code_failure}
use temporalio_sdk_typescrip.Codecs.Examples.{shifting, shifting-IsLossless}
use temporalio_sdk_typescrip.CodecRunner.{
  StartWorkflow, Job, start_workflow, signal_workflow, failed_with, schedule_activity,
  respond_to_query, modify_workflow_properties, RawCommand, EncodedCommand, Completion, successful,
  encode_command, encode_commands, encode_completion, decode_activation,
}
use temporalio_sdk_typescrip.CodecRunner.Carried.{CompletionCarries}
use temporalio_sdk_typescrip.CodecRunner.Commands.{encode_completion-Carries}
use temporalio_sdk_typescrip.CodecRunner.Jobs.{starts, signals, none_encode, more_encode, all_got}
use temporalio_sdk_typescrip.CodecRunner.Decoded.{decode_activation-AllEncode}

abbrev codecs : List PayloadCodec
codecs = shifting ∷ []

abbrev raw : Completion RawCommand
raw = successful (
    some (
      schedule_activity 1 (some (4 ∷ 5 ∷ [])) (some (("trace", 4) ∷ []))
      ∷ respond_to_query 2
          (failed_with (because (proto none none none no_cause (canceled_info (some (7 ∷ []))))))
      ∷ modify_workflow_properties (some (("note", 9) ∷ []))
      ∷ []))

abbrev coded : Completion EncodedCommand
coded = successful (
    some (
      schedule_activity 1 (some (5 ∷ 6 ∷ [])) (some (("trace", 4) ∷ []))
      ∷ respond_to_query 2 (record {
        succeeded = none;
        failed = because (proto none none none no_cause (canceled_info (some (8 ∷ []))));
      })
      ∷ modify_workflow_properties (some (("note", some 10) ∷ []))
      ∷ []))

encode_completion-raw : encode_completion codecs raw ≡ some coded
unfolding encode_completion encode_commands encode_command encode_map encode_entries code_failure
encode_completion-raw = refl

encode_completion-Carries_example : CompletionCarries codecs raw coded
encode_completion-Carries_example =
    encode_completion-Carries codecs raw coded (shifting-IsLossless, tt) encode_completion-raw

abbrev started : StartWorkflow
started = record {
  others = 1;
  arguments = some (4 ∷ []);
  headers = some (("trace", 4) ∷ []);
  continued_failure = no_cause;
  memo_fields = some (("note", 9) ∷ []);
  last_completion_payloads = none;
  search_attributes = none;
}

abbrev started_coded : StartWorkflow
started_coded = record started { arguments = some (5 ∷ []); memo_fields = some (("note", 10) ∷ []) }

abbrev jobs : List (Job StartWorkflow)
jobs = start_workflow started ∷ signal_workflow 2 (some (6 ∷ [])) none ∷ []

abbrev jobs_coded : List (Job StartWorkflow)
jobs_coded = start_workflow started_coded ∷ signal_workflow 2 (some (7 ∷ [])) none ∷ []

decode_activation-AllEncode_example :
    decode_activation codecs (some jobs_coded) ≡ some (some (all_got jobs))
unfolding encode_entries code_failure
decode_activation-AllEncode_example =
    decode_activation-AllEncode codecs jobs jobs_coded (shifting-IsLossless, tt)
      (more_encode _ _ _ _
        (starts started started_coded refl refl refl refl (("note", 10) ∷ [], refl, refl) refl refl)
        (more_encode _ _ _ _ (signals 2 (some (6 ∷ [])) (some (7 ∷ [])) none refl) none_encode))
