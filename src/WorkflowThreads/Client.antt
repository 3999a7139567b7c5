-- ===== src/WorkflowThreads/Client.antt =====
-- The parent's side of a workflow thread: `WorkerThreadClient` of
-- packages/worker/src/workflow/threaded-vm.ts, and the client with its thread. The thread answers
-- requests in any order.
use temporalio_sdk_typescrip.Prelude.{
  ℕ, suc, String, Option, none, some, Bool, true, false, List, [], ◌∷◌, ◌++◌, if◌then◌else◌, str_eq,
  ℤ, pos, negsuc, ◌+ℤ◌, lookup, insert, remove, nat_key, get_elem?, drop_at,
}
use temporalio_sdk_typescrip.WorkflowThreads.{
  WorkerThreadInput, init, destroy, create_workflow, activate_workflow, extract_sink_calls,
  dispose_workflow, WorkerThreadOutput, Thrown, Result, ok, error, WorkerThreadRequest,
  WorkerThreadResponse, Thread, new_thread, Vm, handle_request,
}

-- A call of `send` by a caller that has a number; it stands for the call's promise as well.
pub record Call : Type 0 where
  pub caller : ℕ
  pub input : WorkerThreadInput

pub data CallError : Type 0 where
  illegal_state_error : String → CallError
  other_error : String → CallError
  shut_down_prematurely : CallError

pub data Settlement : Type 0 where
  resolved : WorkerThreadOutput → Settlement
  rejected : CallError → Settlement

-- `settled` are the promises that are resolved or rejected, in order. `unknown` says that the listener
-- has thrown, for a response to no request.
pub record WorkerThreadClient : Type 0 where
  pub request_idx : ℕ
  pub request_id_to_completion : List (ℕ × Call)
  pub shut_down_requested : Bool
  pub worker_exited : Bool
  pub active_workflow_count : ℤ
  pub settled : List (Call × Settlement)
  pub unknown : Bool

abbrev pub new_client : WorkerThreadClient
new_client = record {
  request_idx = 0;
  request_id_to_completion = [];
  shut_down_requested = false;
  worker_exited = false;
  active_workflow_count = pos 0;
  settled = [];
  unknown = false;
}

abbrev error_name_to_class : Thrown → CallError
error_name_to_class e =
    if str_eq e.name "IllegalStateError"
    then illegal_state_error e.message
    else other_error e.message

abbrev pub settlement : Result → Settlement
settlement (ok output) = resolved output
settlement (error e) = rejected (error_name_to_class e)

abbrev pub settle : Option Call → WorkerThreadResponse → WorkerThreadClient → WorkerThreadClient
settle none r c = record c { unknown = true }
settle (some call) r c = record c {
  request_id_to_completion = remove r.request_id c.request_id_to_completion;
  settled = c.settled ++ (call, settlement r.result) ∷ [];
}

abbrev pub on_message : WorkerThreadResponse → WorkerThreadClient → WorkerThreadClient
on_message r c = settle (lookup r.request_id c.request_id_to_completion) r c

abbrev pub reject_all : List (ℕ × Call) → List (Call × Settlement)
reject_all [] = []
reject_all ((id, call) ∷ m) = (call, rejected shut_down_prematurely) ∷ reject_all m

abbrev pub on_exit : WorkerThreadClient → WorkerThreadClient
on_exit c = if c.shut_down_requested then record c { worker_exited = true } else record c {
  worker_exited = true;
  request_id_to_completion = [];
  settled = c.settled ++ reject_all c.request_id_to_completion;
}

abbrev pub counted : WorkerThreadInput → ℤ → ℤ
counted (init bundle reuse) n = n
counted destroy n = n
counted (create_workflow o) n = n +ℤ pos 1
counted (activate_workflow run_id activation) n = n
counted (extract_sink_calls run_id) n = n
counted (dispose_workflow run_id) n = n +ℤ negsuc 0

-- `send`: the client after it, and the message that it posts.
abbrev pub send : Call → WorkerThreadClient → WorkerThreadClient × WorkerThreadRequest
send call c = (
  record c {
    request_idx = suc c.request_idx;
    request_id_to_completion = insert c.request_idx call c.request_id_to_completion;
    active_workflow_count = counted call.input c.active_workflow_count;
  },
  record { request_id = c.request_idx; input = call.input },
)

-- A client, its thread, and the requests that were posted and are not answered.
pub record System : Type 0 where
  pub client : WorkerThreadClient
  pub thread : Thread
  pub outstanding : List WorkerThreadRequest

abbrev pub new_system : System
new_system = record { client = new_client; thread = new_thread; outstanding = [] }

-- A message to a thread that has exited goes nowhere.
abbrev pub post : Bool → WorkerThreadRequest → List WorkerThreadRequest → List WorkerThreadRequest
post true r rs = rs
post false r rs = rs ++ r ∷ []

abbrev pub sent : WorkerThreadClient × WorkerThreadRequest → System → System
sent (c, r) s = record s { client = c; outstanding = post c.worker_exited r s.outstanding }

abbrev pub call_thread : Call → System → System
call_thread call s = sent (send call s.client) s

-- `destroy` up to its request. The thread's exit, which `terminate` brings about, is an event.
abbrev pub destroy_thread : ℕ → System → System
destroy_thread caller s =
    if s.client.worker_exited
    then s
    else call_thread (record { caller = caller; input = destroy })
        (record s { client = record s.client { shut_down_requested = true } })

abbrev pub exit_thread : System → System
exit_thread s =
    if s.client.worker_exited then s else record s { client = on_exit s.client; outstanding = [] }

-- What happens next: a call, a call of `destroy`, the end of the i-th request that is not answered, or
-- the thread's exit.
pub data Event : Type 0 where
  calls : Call → Event
  destroys : (caller : ℕ) → Event
  answers : (i : ℕ) → Event
  exits : Event

module _ (v : Vm) where
  abbrev pub respond : ℕ → Thread × Result → System → System
  respond id (t, r) s = record s {
    client = on_message (record { request_id = id; result = r }) s.client;
    thread = t;
  }

  abbrev pub answer_request : ℕ → Option WorkerThreadRequest → System → System
  answer_request i none s = s
  answer_request i (some r) s =
      respond r.request_id (handle_request v r.input s.thread)
        (record s { outstanding = drop_at i s.outstanding })

  unfoldable pub step : Event → System → System
  step (calls call) s = call_thread call s
  step (destroys caller) s = destroy_thread caller s
  step (answers i) s = answer_request i (get_elem? s.outstanding i) s
  step exits s = exit_thread s

  unfoldable pub steps : List Event → System → System
  steps [] s = s
  steps (e ∷ es) s = steps es (step e s)
