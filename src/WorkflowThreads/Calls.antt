-- ===== src/WorkflowThreads/Calls.antt =====
-- Calls of a workflow thread as its callers see them: no request ids and no messages, but calls that
-- wait. For packages/worker/src/workflow/threaded-vm.ts.
pub mod Pending
pub mod Refinement
use temporalio_sdk_typescrip.Prelude.{
  ℕ, zero, suc, ◌<◌, Option, none, some, Bool, true, false, List, [], ◌∷◌, ◌++◌, if◌then◌else◌,
  ◌==◌, ◌≡◌, refl, sym, ap, ◌∙◌, ==_iff, inl, inr, Bool-cases, Option-cases, lookup, insert, remove,
  nat_key, get_elem?, drop_at, IsUnique, arith, remove_absent,
}
use temporalio_sdk_typescrip.WorkflowThreads.{
  destroy, Result, WorkerThreadRequest, Thread, new_thread, Vm, handle_request,
}
use temporalio_sdk_typescrip.WorkflowThreads.Client.{
  Call, shut_down_prematurely, Settlement, rejected, settlement, reject_all, WorkerThreadClient,
  send, settle, on_message, on_exit, System, new_system, post, call_thread, destroy_thread,
  exit_thread, respond, answer_request, Event, calls, destroys, answers, exits, step, steps,
}

-- Calls that wait, and the thread that they share. A thread that has been told to shut down leaves them
-- waiting when it exits.
pub record Direct : Type 0 where
  pub waiting : List Call
  pub thread : Thread
  pub closing : Bool
  pub exited : Bool
  pub settled : List (Call × Settlement)

abbrev pub no_calls : Direct
no_calls = record {
  waiting = [];
  thread = new_thread;
  closing = false;
  exited = false;
  settled = [];
}

abbrev pub wait_for : Call → Direct → Direct
wait_for call d = record d { waiting = d.waiting ++ call ∷ [] }

abbrev pub rejections : List Call → List (Call × Settlement)
rejections [] = []
rejections (call ∷ cs) = (call, rejected shut_down_prematurely) ∷ rejections cs

abbrev pub exit_direct : Direct → Direct
exit_direct d =
    if d.exited
    then d
    else (if d.closing
        then record d { exited = true }
        else record d { exited = true; waiting = []; settled = d.settled ++ rejections d.waiting })

abbrev pub destroy_direct : ℕ → Direct → Direct
destroy_direct caller d =
    if d.exited
    then d
    else wait_for (record { caller = caller; input = destroy }) (record d { closing = true })

abbrev pub settle_direct : Call → Thread × Result → Direct → Direct
settle_direct call (t, r) d = record d {
  thread = t;
  settled = d.settled ++ (call, settlement r) ∷ [];
}

module _ (v : Vm) where
  abbrev pub serve : ℕ → Option Call → Direct → Direct
  serve i none d = d
  serve i (some call) d =
      settle_direct call (handle_request v call.input d.thread)
        (record d { waiting = drop_at i d.waiting })

  abbrev pub serve_nth : ℕ → Direct → Direct
  serve_nth i d = if d.exited then d else serve i (get_elem? d.waiting i) d

  unfoldable pub direct_step : Event → Direct → Direct
  direct_step (calls call) d = wait_for call d
  direct_step (destroys caller) d = destroy_direct caller d
  direct_step (answers i) d = serve_nth i d
  direct_step exits d = exit_direct d

  unfoldable pub direct_steps : List Event → Direct → Direct
  direct_steps [] d = d
  direct_steps (e ∷ es) d = direct_steps es (direct_step e d)

abbrev pub waiting_in : List (ℕ × Call) → List Call
waiting_in [] = []
waiting_in ((id, call) ∷ m) = call ∷ waiting_in m

-- What a client with its thread looks like from outside.
abbrev pub view : System → Direct
view s = record {
  waiting = waiting_in s.client.request_id_to_completion;
  thread = s.thread;
  closing = s.client.shut_down_requested;
  exited = s.client.worker_exited;
  settled = s.client.settled;
}
