-- ===== src/Lib.antt =====
-- Verification library of the Temporal TypeScript SDK: models of the parts of the SDK that decide
-- what a workflow execution does, with theorems about them. It covers the workflow isolate
-- (packages/workflow), the values and errors that cross its boundary (packages/common), the
-- activities, heartbeats, workflow cache and life cycle of a worker (packages/worker), and the
-- client's calls, results, retries and schedules (packages/client).
--
-- The parts, and how they interact. Core gives the worker an activation, a list of jobs. The isolate
-- runs it with `activate`: each job is a call of a handler of the activator, which settles promises,
-- calls the workflow's own code, or changes the state; conditions are unblocked after each job.
-- Workflow code calls the functions of workflow.ts, which push commands and wait for promises. The
-- commands are taken by `concludeActivation`. Errors become protobuf failures on the way out and
-- errors again on the way in.
--
-- - Prelude: tests, lists, integers and maps that the models share. A JavaScript `Map` is an
--   association list in insertion order.
-- - Time, Retry: packages/common/src/time.ts and retry-policy.ts. A number of milliseconds is a whole
--   number. The packages `ms` and `long` are a parameter, the record `Packages`; Time/Laws names what
--   `long` documents, and Time/Fixed is an instance with which the examples run.
-- - Failure: packages/common/src/failure.ts and packages/workflow/src/errors.ts. Failure/Converter:
--   `DefaultFailureConverter` of packages/common/src/converter/failure-converter.ts.
-- - Activator: the class `Activator` of packages/workflow/src/internals.ts. One record holds its fields
--   and the part of the JavaScript runtime that it rests on: settled promises, scopes, microtasks. A
--   method is a function on the record, with the error that it throws as a value; what it did before
--   it threw stays done. Activator/Jobs: the job handlers (`fireTimer`, `resolveActivity`, ...) and the
--   ends of a workflow. Activator/Signals: `signalWorkflow`, `dispatchBufferedSignals`,
--   `queryWorkflow`, `startWorkflow`, `setHandler`. Activator/Scopes: cancellation-scope.ts and
--   trigger.ts of packages/workflow/src. Activator/Commands: packages/workflow/src/workflow.ts.
-- - Activation: packages/workflow/src/worker-interface.ts. Activation/Steps: workflow code as scripts
--   of calls, and an execution as a sequence of activations, microtasks and calls in any order.
--   Activation/Children: from the start of a child workflow to the rejection of its two promises.
-- - Activities: packages/worker/src/activity.ts, and `activityOperator` of packages/worker/src/worker.ts,
--   which feeds the heartbeats below. Activities/Operator: the tasks by token, and what becomes of them.
-- - Heartbeat: `activityHeartbeat$` of packages/worker/src/worker.ts, a state machine for each task token.
-- - Schedule: the coders of calendar fields in packages/client/src/schedule-helpers.ts;
--   Schedule/Calendars: those of whole calendars; Schedule/Policies: policies and states;
--   Schedule/Bodies: `describe` and `update` of packages/client/src/schedule-client.ts.
--   Schedule/Descriptions and Schedule/Updates: a description used again.
-- - GrpcRetry: packages/client/src/grpc-retry.ts.
-- - Interceptors: packages/common/src/interceptors.ts, and `CompositePayloadConverter` of
--   packages/common/src/converter/payload-converter.ts.
-- - Codecs: packages/common/src/internal-non-workflow/codec-helpers.ts.
-- - DataConverter: the functions of that file that put codecs around a payload and a failure converter.
-- - CodecRunner: packages/worker/src/workflow-codec-runner.ts, the codecs on whole activations
--   (CodecRunner/Jobs, CodecRunner/Decoded) and completions (CodecRunner/Carried, CodecRunner/Commands).
-- - WorkflowClient: packages/client/src/workflow-client.ts. WorkflowClient/Results: the loop of
--   `result`; WorkflowClient/Handles: `start`, `signalWithStart`, `getHandle` and the calls of a handle,
--   with packages/common/src/workflow-options.ts, and the messages that they take
--   and send in WorkflowClient/Handles/Messages; WorkflowClient/Pages: `list` and `fetchHistory`. The
--   service is a parameter: a function from the number and the content of a call to its answer.
-- - Lifecycle: `run`, `shutdown` and `forceShutdown$` of packages/worker/src/worker.ts, driven by
--   the completions and errors of the streams that `run` merges. Lifecycle/Phases and Lifecycle/Paths:
--   the states that a worker goes through; Lifecycle/Ends: how its life ends.
-- - WorkflowThreads: packages/worker/src/workflow/workflow-worker-thread.ts, vm.ts and reusable-vm.ts
--   beside it: what a thread does with a request. WorkflowThreads/Client: `WorkerThreadClient` of
--   threaded-vm.ts, with the thread behind it; the thread answers in any order, and may exit at any
--   time. WorkflowThreads/Calls: what that stands for, calls that wait. WorkflowThreads/Pool: the
--   choice of a thread, and the proxies of workflows.
-- - WorkerOptions: packages/worker/src/worker-options.ts, the defaults and their corrections.
-- - WorkflowCache: `workflowOperator` of packages/worker/src/worker.ts.
--
-- Fuel. `tryUnblockConditions` runs on one round more than there are conditions, as every round but
-- the last removes one. `dispatchBufferedSignals` runs on one round more than there are signals, as
-- every round takes one out. A retried call runs on two attempts more than its maximum. Scripts nest
-- to a depth that the step gives, and any depth is allowed. The loops of `result`, `list` and
-- `fetchHistory` run on fuel too, and there is a bound from which on the fuel is enough, if the service
-- does not answer with empty pages for ever.
--
-- Not modelled: headers, the installed interceptors of a workflow, stack traces of promises, module
-- caches and the contexts of isolates; tracing and polling of a worker and the clean-up after its
-- run; connections, intervals, times and actions of schedules, the other calls of the schedule
-- client, and the task queue client; core bridge, bundling and testing;
-- packages/common/src/encoding.ts and packages/workflow/src/alea.ts, which are modified copies of
-- other projects' code. The code of the workflow bundle, the payload converter and the codecs of
-- the user, the packages `ms` and `long`, and the regular expressions for stack lines are
-- parameters.
pub mod Prelude
pub mod Time
pub mod Retry
pub mod Failure
pub mod Activities
pub mod Activator
pub mod Activation
pub mod Heartbeat
pub mod Schedule
pub mod GrpcRetry
pub mod Interceptors
pub mod Lifecycle
pub mod Codecs
pub mod DataConverter
pub mod CodecRunner
pub mod WorkflowCache
pub mod WorkflowClient
pub mod WorkerOptions
pub mod WorkflowThreads
