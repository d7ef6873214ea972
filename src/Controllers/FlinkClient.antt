-- ===== src/Controllers/FlinkClient.antt =====
-- The Flink REST client, controllers/flinkclient/flink_client.go, over an HTTP client.
pub mod Polling
use Prim.Native.String.{◌++◌ as str_append}
use flink_on_k8s_operator.Base.{
  ℕ, zero, suc, String, Option, none, some, Bool, true, false, ◌&&◌, List, ◌==◌, if◌then◌else◌,
}
use flink_on_k8s_operator.Controllers.State.{FlinkJob}
use flink_on_k8s_operator.Controllers.Effects.{
  Error, Result, ok, err, Call, FailureCause, OperationJson, SavepointJson, Env, M, pure, ◌>>=◌,
  ◌>>◌, call,
}

pub record SavepointStatus : Type 0 where
  pub job_id : String
  pub trigger_id : String
  pub completed : Bool
  pub location : String
  pub failure_cause : FailureCause

abbrev pub no_failure : FailureCause
no_failure = record { exception_class = ""; stack_trace = "" }

-- `SavepointStatus{JobID: jobID, TriggerID: triggerID}`
abbrev pub new_status : String → String → SavepointStatus
new_status job_id trigger_id = record {
  job_id = job_id;
  trigger_id = trigger_id;
  completed = false;
  location = "";
  failure_cause = no_failure;
}

-- A function that returns a status beside an error returns both.
abbrev pub Polled : Type 0
Polled = SavepointStatus × Option Error

abbrev pub job_url : String → String → String
job_url api_base_url job_id = str_append api_base_url (str_append "/jobs/" job_id)

abbrev pub savepoint_url : String → String → String → String
savepoint_url api_base_url job_id trigger_id =
    str_append (job_url api_base_url job_id) (str_append "/savepoints/" trigger_id)

unfoldable pub get_job_status_list : String → M (Result (List FlinkJob))
get_job_status_list api_base_url =
    let url = str_append api_base_url "/jobs" in
    call (Call.list_jobs url) (λ env log. env.jobs log url)

unfoldable pub stop_job : String → String → M (Option Error)
stop_job api_base_url job_id =
    let url = str_append (job_url api_base_url job_id) "?mode=cancel" in
    call (Call.stop_job url) (λ env log. env.stop log url)

unfoldable pub trigger_savepoint : String → String → String → M (Result String)
trigger_savepoint api_base_url job_id dir =
    let url = str_append (job_url api_base_url job_id) "/savepoints" in
    call (Call.trigger_savepoint url dir) (λ env log. env.trigger log url dir)

-- The three parts of the reply, each with its early return; a field that is missing or null is
-- left alone.
unfoldable pub read_failure_cause : SavepointStatus → Option (Result FailureCause) → Polled
read_failure_cause status none = (status, none)
read_failure_cause status (some (err e)) = (status, some e)
read_failure_cause status (some (ok cause)) = (record status { failure_cause = cause }, none)

unfoldable pub read_location : SavepointStatus → OperationJson → Polled
unfolding read_failure_cause
read_location status operation = elim (operation.location) [
  | none ↦ read_failure_cause status operation.failure_cause
  | some (err e) ↦ (status, some e)
  | some (ok location) ↦
      read_failure_cause (record status { location = location }) operation.failure_cause
]

unfoldable pub read_operation : SavepointStatus → Option (Result OperationJson) → Polled
unfolding read_location
read_operation status none = (status, none)
read_operation status (some (err e)) = (status, some e)
read_operation status (some (ok operation)) = read_location status operation

unfoldable pub read_status : SavepointStatus → SavepointJson → Polled
unfolding read_operation
read_status status json = elim (json.status) [
  | none ↦ read_operation status json.operation
  | some (err e) ↦ (status, some e)
  | some (ok id) ↦ read_operation (record status { completed = id == "COMPLETED" }) json.operation
]

unfoldable pub read_reply : SavepointStatus → Result SavepointJson → Polled
unfolding read_status
read_reply status (err e) = (status, some e)
read_reply status (ok json) = read_status status json

unfoldable pub get_savepoint_status : String → String → String → M Polled
unfolding read_reply
get_savepoint_status api_base_url job_id trigger_id =
    let url = savepoint_url api_base_url job_id trigger_id in
    do
      reply ← call (Call.poll_savepoint url) (λ env log. env.poll log url)
      pure (read_reply (new_status job_id trigger_id) reply)

unfoldable pub is_completed : Polled → Bool
is_completed (status, none) = status.completed
is_completed (status, some e) = false

-- One turn of the loop of `TakeSavepoint`: it ends with a completed savepoint, or after a pause
-- goes on to the next turn.
unfoldable pub poll_turn : Bool → Polled → M Polled → M Polled
poll_turn true polled next = pure polled
poll_turn false polled next = call (Call.sleep 5) (λ env log. tt) >> next

-- The loop, with the polls that are left and the last reply.
unfoldable pub poll_savepoint : ℕ → String → String → String → Polled → M Polled
unfolding is_completed
poll_savepoint zero api_base_url job_id trigger_id last = pure last
poll_savepoint (suc n) api_base_url job_id trigger_id last =
    get_savepoint_status api_base_url job_id trigger_id >>= λ polled.
    poll_turn (is_completed polled) polled (poll_savepoint n api_base_url job_id trigger_id polled)

abbrev empty_status : SavepointStatus
empty_status = new_status "" ""

unfoldable pub await_savepoint : String → String → Result String → M Polled
unfolding poll_savepoint
await_savepoint api_base_url job_id (err e) = pure (empty_status, some e)
await_savepoint api_base_url job_id (ok trigger_id) =
    poll_savepoint 12 api_base_url job_id trigger_id (new_status job_id "", none)

unfoldable pub take_savepoint : String → String → String → M Polled
unfolding await_savepoint
take_savepoint api_base_url job_id dir =
    trigger_savepoint api_base_url job_id dir >>= await_savepoint api_base_url job_id
