-- ===== src/CodecRunner/Commands.antt =====
-- What a completion carries once its payloads are encoded: `encodeCompletion` of
-- packages/worker/src/workflow-codec-runner.ts.
use temporalio_sdk_typescrip.Prelude.{String, Option, none, some, List, [], ◌∷◌, ◌≡◌, All, sym, ap}
use mathlib.Core.Option.{some_inj}
use temporalio_sdk_typescrip.Failure.{Payload}
use temporalio_sdk_typescrip.Codecs.{
  PayloadCodec, encode, optional, optional_single, code_cause, encode_map, encode_entries,
}
use temporalio_sdk_typescrip.Codecs.Trips.{IsLossless, after-some, decode_entries-encode_entries}
use temporalio_sdk_typescrip.CodecRunner.{
  Entries, Answer, EncodedAnswer, response_of, failure_of, schedule_activity,
  schedule_local_activity, upsert_workflow_search_attributes, respond_to_query,
  complete_workflow_execution, fail_workflow_execution, continue_as_new_workflow_execution,
  start_child_workflow_execution, signal_external_workflow_execution, modify_workflow_properties,
  other_command, RawCommand, EncodedCommand, Completion, failed_completion, successful,
  encoded_answer, encode_command, encode_commands, encode_completion,
}
use temporalio_sdk_typescrip.CodecRunner.Carried.{
  MemoCarries, AnswerCarries, Carries, schedules, schedules_locally, upserts, responds, completes,
  fails, continues, starts_child, signals, modifies, others, AllCarry, none_carry, more_carry,
  CompletionCarries, failure_carries, nothing_carries, commands_carry,
}
use temporalio_sdk_typescrip.CodecRunner.Fields.{decode-arguments, decode-payload, decode-failure}

module _ (codecs : List PayloadCodec) where
  module _ (l : All IsLossless codecs) where
    encode_map-MemoCarries :
        (m : Option Entries) (r : Option (List (String × Option Payload)))
        → encode_map codecs m ≡ some r
        → MemoCarries codecs m r
    unfolding encode_map
    encode_map-MemoCarries none r h = sym (some_inj.0 h)
    encode_map-MemoCarries (some m) r h =
        let (t, e, k) = after-some (encode_entries codecs m) (λ n. some (some n)) r h in
        let (n, a, b) = decode_entries-encode_entries codecs l m t e in
        (n, rw⁻¹ (some_inj.0 k) (ap some a), b)

    encoded_answer-AnswerCarries :
        (a : Answer) (e : EncodedAnswer)
        → encoded_answer codecs a ≡ some e
        → AnswerCarries codecs a e
    encoded_answer-AnswerCarries a e h =
        let (p, e1, h1) = after-some (optional_single (encode codecs) (response_of a)) _ e h in
        let (f, e2, h2) = after-some (code_cause (encode codecs) (failure_of a)) _ e h1 in
        rw⁻¹ (some_inj.0 h2) (
          decode-payload codecs l (response_of a) p e1,
          decode-failure codecs l (failure_of a) f e2,
        )

    encode_command-Carries :
        (c : RawCommand) (d : EncodedCommand)
        → encode_command codecs c ≡ some d
        → Carries codecs c d
    unfolding encode_command
    encode_command-Carries (schedule_activity n a h) d e =
        let (b, e1, e2) = after-some (optional (encode codecs) a) _ d e in
        rw⁻¹ (some_inj.0 e2) (schedules n a b h (decode-arguments codecs l a b e1))
    encode_command-Carries (schedule_local_activity n a h) d e =
        let (b, e1, e2) = after-some (optional (encode codecs) a) _ d e in
        rw⁻¹ (some_inj.0 e2) (schedules_locally n a b h (decode-arguments codecs l a b e1))
    encode_command-Carries (upsert_workflow_search_attributes s) d e =
        rw⁻¹ (some_inj.0 e) (upserts s)
    encode_command-Carries (respond_to_query n a) d e =
        let (b, e1, e2) = after-some (encoded_answer codecs a) _ d e in
        rw⁻¹ (some_inj.0 e2) (responds n a b (encoded_answer-AnswerCarries a b e1))
    encode_command-Carries (complete_workflow_execution p) d e =
        let (q, e1, e2) = after-some (optional_single (encode codecs) p) _ d e in
        rw⁻¹ (some_inj.0 e2) (completes p q (decode-payload codecs l p q e1))
    encode_command-Carries (fail_workflow_execution f) d e =
        let (g, e1, e2) = after-some (code_cause (encode codecs) f) _ d e in
        rw⁻¹ (some_inj.0 e2) (fails f g (decode-failure codecs l f g e1))
    encode_command-Carries (continue_as_new_workflow_execution n a m h s) d e =
        let (b, e1, e2) = after-some (optional (encode codecs) a) _ d e in
        let (r, e3, e4) = after-some (encode_map codecs m) _ d e2 in
        rw⁻¹ (some_inj.0 e4) (
          continues n a b m r h s (decode-arguments codecs l a b e1)
            (encode_map-MemoCarries m r e3))
    encode_command-Carries (start_child_workflow_execution n a m h s) d e =
        let (b, e1, e2) = after-some (optional (encode codecs) a) _ d e in
        let (r, e3, e4) = after-some (encode_map codecs m) _ d e2 in
        rw⁻¹ (some_inj.0 e4) (
          starts_child n a b m r h s (decode-arguments codecs l a b e1)
            (encode_map-MemoCarries m r e3))
    encode_command-Carries (signal_external_workflow_execution n a h) d e =
        let (b, e1, e2) = after-some (optional (encode codecs) a) _ d e in
        rw⁻¹ (some_inj.0 e2) (signals n a b h (decode-arguments codecs l a b e1))
    encode_command-Carries (modify_workflow_properties m) d e =
        let (r, e1, e2) = after-some (encode_map codecs m) _ d e in
        rw⁻¹ (some_inj.0 e2) (modifies m r (encode_map-MemoCarries m r e1))
    encode_command-Carries (other_command n) d e = rw⁻¹ (some_inj.0 e) (others n)

    encode_commands-AllCarry :
        (cs : List RawCommand) (ds : List EncodedCommand)
        → encode_commands codecs cs ≡ some ds
        → AllCarry codecs cs ds
    unfolding encode_commands
    encode_commands-AllCarry [] ds e = rw⁻¹ (some_inj.0 e) none_carry
    encode_commands-AllCarry (c ∷ cs) ds e =
        let (d, e1, e2) = after-some (encode_command codecs c) _ ds e in
        let (rest, e3, e4) = after-some (encode_commands codecs cs) _ ds e2 in
        rw⁻¹ (some_inj.0 e4) (
          more_carry c d cs rest (encode_command-Carries c d e1)
            (encode_commands-AllCarry cs rest e3))

  -- If a completion is encoded, by codecs that decode what they have encoded and keep the number of
  -- payloads: it has the same commands in the same order, and the arguments, results, failures,
  -- answers and memos of each decode to what the workflow gave; headers and search attributes are
  -- as the workflow gave them, not encoded. The same of the failure of a failed completion.
  pub encode_completion-Carries :
      (c : Completion RawCommand) (d : Completion EncodedCommand)
      → All IsLossless codecs
      → encode_completion codecs c ≡ some d
      → CompletionCarries codecs c d
  unfolding encode_completion
  encode_completion-Carries (failed_completion f) d l e =
      let (g, e1, e2) = after-some (code_cause (encode codecs) f) _ d e in
      rw⁻¹ (some_inj.0 e2) (failure_carries f g (decode-failure codecs l f g e1))
  encode_completion-Carries (successful none) d l e = rw⁻¹ (some_inj.0 e) nothing_carries
  encode_completion-Carries (successful (some cs)) d l e =
      let (ds, e1, e2) = after-some (encode_commands codecs cs) _ d e in
      rw⁻¹ (some_inj.0 e2) (commands_carry cs ds (encode_commands-AllCarry l cs ds e1))
