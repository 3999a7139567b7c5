-- ===== src/WorkflowClient/Handles/Addressing.antt =====
-- Which execution the calls of a handle are about: packages/client/src/workflow-client.ts.
use temporalio_sdk_typescrip.Prelude.{
  ℕ, String, Option, none, some, true, [], ◌≡◌, refl, ap, ◌∙◌, Within, arith,
}
use temporalio_sdk_typescrip.Prelude.Checked.{Checked, valid, invalid, ◌>>=◌, >>=-valid}
use temporalio_sdk_typescrip.Time.{Packages}
use temporalio_sdk_typescrip.Interceptors.{compose_interceptors}
use temporalio_sdk_typescrip.DataConverter.{DataConverter}
use temporalio_sdk_typescrip.WorkflowClient.{ServiceFailure, grpc, unexpected, or_else}
use temporalio_sdk_typescrip.WorkflowClient.Results.{
  HistoryEvent, HistoryRequest, HistoryResponse, Outcome,
}
use temporalio_sdk_typescrip.WorkflowClient.Results.Chains.{Settles, Serves, result-Settles}
use temporalio_sdk_typescrip.WorkflowClient.Handles.{
  latest, assert_required_workflow_options, compile_workflow_options, started, start_call,
  start_request, start_workflow_handler, start, terminate, cancel, terminate_workflow_handler,
  cancel_workflow_handler, handle_result,
}
use temporalio_sdk_typescrip.WorkflowClient.Handles.Messages.{
  WorkflowOptions, StartRequest, Service, ClientInterceptors, WorkflowHandle, StartInput,
  CompiledOptions,
}

-- A client with no interceptors.
abbrev pub no_interceptors : ClientInterceptors
no_interceptors = record {
  start = [];
  signal_with_start = [];
  terminate = [];
  cancel = [];
  signal = [];
  query = [];
}

abbrev pub IsFor : StartRequest → StartInput → Type 0
IsFor q i =
    (q.workflow_id ≡ i.options.options.workflow_id)
    × (q.workflow_type ≡ i.workflow_type)
    × (q.task_queue ≡ i.options.options.task_queue)

module _ (ms : Packages) where
  compile_workflow_options-options :
      (o : WorkflowOptions) (c : CompiledOptions)
      → compile_workflow_options ms o ≡ valid c
      → c.options ≡ o
  unfolding compile_workflow_options
  compile_workflow_options-options o c h = ground arith

  module _ (d : DataConverter) (s : Service) where
    start_request-IsFor :
        (i : StartInput) (q : StartRequest) → start_request ms d s i ≡ valid q → IsFor q i
    unfolding start_request
    start_request-IsFor i q h = ground arith

    started-valid :
        (i : StartInput) (r : Checked ServiceFailure String) (run : String)
        → started ms d s i r ≡ valid run
        → r ≡ valid run
    started-valid i (valid x) run h = ground arith
    started-valid i (invalid unexpected) run h = ground arith
    started-valid i (invalid (grpc code m details ds)) run h = ground arith

    start_call-IsFor :
        (type : String) (o : WorkflowOptions) (run : String)
        → start_call ms d s no_interceptors type o ≡ valid run
        → (q : StartRequest) × (s.start_workflow_execution q ≡ valid run)
          × (q.workflow_id ≡ o.workflow_id)
          × (q.workflow_type ≡ type)
          × (q.task_queue ≡ o.task_queue)
    unfolding start_call start_workflow_handler compose_interceptors
    start_call-IsFor type o run h =
        let compiled = λ (c : CompiledOptions).
          start_workflow_handler ms d s (record { options = c; workflow_type = type }) in
        let (t, p, h2) =
          >>=-valid (assert_required_workflow_options o)
            (λ _. compile_workflow_options ms o >>= compiled) run h in
        let (c, e, h3) = >>=-valid (compile_workflow_options ms o) compiled run h2 in
        let i : StartInput = record { options = c; workflow_type = type } in
        let (q, f, h4) =
          >>=-valid (start_request ms d s i) (λ q. started ms d s i (s.start_workflow_execution q))
            run h3 in
        let (a, b, k) = start_request-IsFor i q f in
        let same : c.options ≡ o = compile_workflow_options-options o c e in
        (
          q,
          started-valid i (s.start_workflow_execution q) run h4,
          a ∙ ap (λ (x : WorkflowOptions). x.workflow_id) same,
          b,
          k ∙ ap (λ (x : WorkflowOptions). x.task_queue) same,
        )

    -- A start that the service accepts, with no interceptors, gives a handle. The request that was
    -- sent carries the workflow's identifier, type and task queue. To terminate or cancel through the
    -- handle addresses the latest run of the workflow, under the condition that its chain began with
    -- the run that was started; and its `result` returns the outcome of the chain from that run on,
    -- followed unless the options say otherwise, if the service serves the chain's histories.
    pub start-WorkflowHandle :
        (type : String) (o : WorkflowOptions) (run : String) (reason : Option String)
        (history : Option String → HistoryEvent)
        (serve : ℕ → HistoryRequest → Checked ServiceFailure HistoryResponse) (patience : ℕ → ℕ)
        (outcome : Outcome)
        → start_call ms d s no_interceptors type o ≡ valid run
        → Serves d history (or_else o.follow_runs true) serve patience
        → Settles d history (or_else o.follow_runs true) (some run) outcome
        → (h : WorkflowHandle) × (q : StartRequest) × (start ms d s no_interceptors type o
            ≡ valid h)
          × (s.start_workflow_execution q ≡ valid run)
          × ((q.workflow_id ≡ o.workflow_id)
              × (q.workflow_type ≡ type)
              × (q.task_queue ≡ o.task_queue))
          × (terminate ms d s no_interceptors h reason
              ≡ terminate_workflow_handler ms d s (record {
                execution = latest o.workflow_id;
                reason = reason;
                first_execution_run_id = some run;
              }))
          × (cancel ms d s no_interceptors h
              ≡ cancel_workflow_handler ms d s
                  (record { execution = latest o.workflow_id; first_execution_run_id = some run }))
          × Within (handle_result d serve h) outcome
    unfolding start terminate cancel compose_interceptors
    start-WorkflowHandle type o run reason history serve patience outcome e v settles =
        let (q, sent, a, b, c) = start_call-IsFor type o run e in
        (
          record {
            workflow_id = o.workflow_id;
            run_id = none;
            first_execution_run_id = some run;
            run_id_for_result = some run;
            follow_runs = or_else o.follow_runs true;
          },
          q,
          rw e refl,
          sent,
          (a, b, c),
          refl,
          refl,
          result-Settles d history (or_else o.follow_runs true) serve patience v o.workflow_id
              (some run) outcome settles,
        )
