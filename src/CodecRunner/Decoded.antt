-- ===== src/CodecRunner/Decoded.antt =====
-- What a workflow gets from an activation whose payloads are encoded: `decodeActivation` of
-- packages/worker/src/workflow-codec-runner.ts.
use temporalio_sdk_typescrip.Prelude.{Option, none, some, List, [], ◌∷◌, ◌≡◌, refl, All}
use temporalio_sdk_typescrip.Codecs.{PayloadCodec, decode_optional_map}
use temporalio_sdk_typescrip.Codecs.Trips.{IsLossless, present, decode_entries-encode_entries}
use temporalio_sdk_typescrip.CodecRunner.{
  Entries, StartWorkflow, Resolution, Job, decode_job, decode_jobs, decode_activation,
  decoded_result,
}
use temporalio_sdk_typescrip.CodecRunner.Fields.{decode-arguments, decode-payload, decode-failure}
use temporalio_sdk_typescrip.CodecRunner.Jobs.{
  listed_memo, got, all_got, MemoEncodes, ResolutionEncodes, no_result, completes, fails, cancels,
  is_other, Encodes, starts, queries, cancels_workflow, signals, resolves, resolves_child,
  cancels_start, resolves_start, resolves_signal, resolves_cancel, others, AllEncode, none_encode,
  more_encode,
}

present_inj : (m n : Entries) → present m ≡ present n → m ≡ n
present_inj [] [] h = refl
present_inj [] ((k, p) ∷ n) h = cc
present_inj ((k, p) ∷ m) [] h = cc
present_inj ((k, p) ∷ m) ((j, q) ∷ n) h =
    let tails : present m ≡ present n = cc in let same : m ≡ n = present_inj m n tails in cc

module _ (codecs : List PayloadCodec) (l : All IsLossless codecs) where
  decode_optional_map-MemoEncodes :
      (m r : Option Entries)
      → MemoEncodes codecs m r
      → decode_optional_map codecs r ≡ some (listed_memo m)
  unfolding decode_optional_map
  decode_optional_map-MemoEncodes none r h = rw h refl
  decode_optional_map-MemoEncodes (some m) r (n, e, h) =
      let (k, a, b) = decode_entries-encode_entries codecs l m (present n) h in
      rw (e, present_inj n k a, b) refl

  decoded_result-ResolutionEncodes :
      (r s : Option Resolution) → ResolutionEncodes codecs r s → decoded_result codecs s ≡ some r
  decoded_result-ResolutionEncodes _ _ no_result = refl
  decoded_result-ResolutionEncodes _ _ (completes p q h) = rw (decode-payload codecs l p q h) refl
  decoded_result-ResolutionEncodes _ _ (fails f g h) = rw (decode-failure codecs l f g h) refl
  decoded_result-ResolutionEncodes _ _ (cancels f g h) = rw (decode-failure codecs l f g h) refl
  decoded_result-ResolutionEncodes _ _ (is_other n) = refl

  decode_job-Encodes :
      (j k : Job StartWorkflow) → Encodes codecs j k → decode_job codecs k ≡ some (got j)
  unfolding decode_job
  decode_job-Encodes _ _ (starts s t n a h f m p i) =
      rw
        (
          decode-arguments codecs l s.arguments t.arguments a,
          decode-failure codecs l s.continued_failure t.continued_failure f,
          decode_optional_map-MemoEncodes s.memo_fields t.memo_fields m,
          decode-arguments codecs l s.last_completion_payloads t.last_completion_payloads p,
          n,
          h,
          i,
        )
        refl
  decode_job-Encodes _ _ (queries n a b h e) = rw (decode-arguments codecs l a b e) refl
  decode_job-Encodes _ _ (cancels_workflow n a b e) = rw (decode-arguments codecs l a b e) refl
  decode_job-Encodes _ _ (signals n a b h e) = rw (decode-arguments codecs l a b e) refl
  decode_job-Encodes _ _ (resolves n r s e) = rw (decoded_result-ResolutionEncodes r s e) refl
  decode_job-Encodes _ _ (resolves_child n r s e) = rw (decoded_result-ResolutionEncodes r s e) refl
  decode_job-Encodes _ _ (cancels_start n f g e) = rw (decode-failure codecs l f g e) refl
  decode_job-Encodes _ _ (resolves_start n k) = refl
  decode_job-Encodes _ _ (resolves_signal n f g e) = rw (decode-failure codecs l f g e) refl
  decode_job-Encodes _ _ (resolves_cancel n f g e) = rw (decode-failure codecs l f g e) refl
  decode_job-Encodes _ _ (others n) = refl

  decode_jobs-AllEncode :
      (js ks : List (Job StartWorkflow))
      → AllEncode codecs js ks
      → decode_jobs codecs ks ≡ some (all_got js)
  unfolding decode_jobs
  decode_jobs-AllEncode _ _ none_encode = refl
  decode_jobs-AllEncode _ _ (more_encode j k js ks e es) =
      rw (decode_job-Encodes j k e, decode_jobs-AllEncode js ks es) refl

-- The jobs of an activation whose payloads are encoded, with headers and search attributes as they
-- were, are decoded to the jobs as they were, in order, by codecs that decode what they have encoded
-- and keep the number of payloads: except that an entry of the memo of a started workflow becomes the
-- list of its one payload.
pub decode_activation-AllEncode :
    (codecs : List PayloadCodec) (js ks : List (Job StartWorkflow))
    → All IsLossless codecs
    → AllEncode codecs js ks
    → decode_activation codecs (some ks) ≡ some (some (all_got js))
unfolding decode_activation
decode_activation-AllEncode codecs js ks l e = rw (decode_jobs-AllEncode codecs l js ks e) refl
