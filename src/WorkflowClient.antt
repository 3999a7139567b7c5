-- ===== src/WorkflowClient.antt =====
-- The workflow client: packages/client/src/workflow-client.ts, with the errors of
-- packages/client/src/errors.ts and `rethrowKnownErrorTypes` of packages/client/src/helpers.ts. The
-- service answers each call by its number and its request.
pub mod Results
pub mod Handles
pub mod Pages
mod Examples
use temporalio_sdk_typescrip.Prelude.{
  ℕ, String, Option, none, some, Bool, true, false, List, [], ◌∷◌, if◌then◌else◌, ◌==◌, str_eq,
}
use temporalio_sdk_typescrip.Failure.{Cause}
use temporalio_sdk_typescrip.Time.{TimeError}
use temporalio_sdk_typescrip.Retry.{RetryError}

-- The errors of the client.
pub data ClientError : Type 0 where
  workflow_failed : (message : String) (cause : Cause) (retry_state : ℕ) → ClientError
  workflow_continued_as_new : (message new_execution_run_id : String) → ClientError
  workflow_not_found : (message workflow_id : String) (run_id : Option String) → ClientError
  namespace_not_found : (name : String) → ClientError
  workflow_already_started : (workflow_id workflow_type : String) → ClientError
  query_not_registered : (message : String) → ClientError
  query_rejected : (status : ℕ) → ClientError
  service_error : (message : String) → ClientError
  type_error : (message : String) → ClientError
  too_many_events : (count : ℕ) → ClientError
  not_converted : ClientError
  bad_time : TimeError → ClientError
  bad_retry_policy : RetryError → ClientError

-- An entry of the details of a gRPC status: its type, after the prefix is cut, and the namespace
-- that its value decodes to. Both may be missing.
pub record StatusDetail : Type 0 where
  pub type_name : Option String
  pub value : Option String

-- What a call of the service throws: an error of @grpc/grpc-js, or another.
pub data ServiceFailure : Type 0 where
  grpc : (code : ℕ) (message details : String) (status_details : List StatusDetail) → ServiceFailure
  unexpected : ServiceFailure

abbrev pub not_found : ℕ
not_found = 5

abbrev pub already_exists : ℕ
already_exists = 6

abbrev pub invalid_argument : ℕ
invalid_argument = 3

abbrev pub namespace_failure : String
namespace_failure = "temporal.api.errordetails.v1.NamespaceNotFoundFailure"

abbrev known_error : Option String → Option String → Option ClientError
known_error none value = none
known_error (some type) none = none
known_error (some type) (some namespace) =
    if str_eq type namespace_failure then some (namespace_not_found namespace) else none

abbrev or_next : Option ClientError → Option ClientError → Option ClientError
or_next none next = next
or_next (some e) next = some e

-- The error that is thrown for the details, if one is known.
unfoldable pub rethrow_known_error_types : List StatusDetail → Option ClientError
rethrow_known_error_types [] = none
rethrow_known_error_types (d ∷ ds) =
    or_next (known_error d.type_name d.value) (rethrow_known_error_types ds)

-- The execution that a call is about.
pub record Execution : Type 0 where
  pub workflow_id : String
  pub run_id : Option String

abbrev id_of : Option Execution → String
id_of none = ""
id_of (some e) = e.workflow_id

abbrev run_of : Option Execution → Option String
run_of none = none
run_of (some e) = e.run_id

abbrev pub or_else {ℓ} : {A : Type ℓ} → Option A → A → A
or_else none d = d
or_else (some x) d = x

unfoldable pub rethrow_grpc_error : ServiceFailure → String → Option Execution → ClientError
unfolding rethrow_known_error_types
rethrow_grpc_error unexpected fallback e =
    service_error "Unexpected error while making gRPC request"
rethrow_grpc_error (grpc code message details ds) fallback e =
    or_else (rethrow_known_error_types ds) (
      if code == not_found
      then workflow_not_found details (id_of e) (run_of e)
      else service_error fallback)
