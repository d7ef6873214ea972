-- ===== src/Controllers/Effects.antt =====
-- The outside world of a round: the Kubernetes API, the Flink REST API and the clock. They are not
-- code of the repository, so they are a parameter: each answer may depend on every call made before.
use flink_on_k8s_operator.Base.{ℕ, String, Option, none, some, List, [], ◌∷◌, ◌++◌}
use flink_on_k8s_operator.Base.Run
use flink_on_k8s_operator.Base.Run.{Run, done, panic}
use flink_on_k8s_operator.K8s.{ConfigMap, Deployment, Service, Ingress, Job}
use flink_on_k8s_operator.Api.{FlinkCluster}
use flink_on_k8s_operator.Controllers.State.{FlinkJob}
use flink_on_k8s_operator.Controllers.Updater.Changes.{StatusEvent}

-- `not_found` is what `client.IgnoreNotFound` turns into nil.
pub data Error : Type 0 where
  not_found : Error
  message : String → Error

pub data Result (A : Type 0) : Type 0 where
  ok : A → Result A
  err : Error → Result A

pub data Kind : Type 0 where
  cluster config_map deployment service ingress job : Kind

-- The calls, in the order in which they are made. An object is deleted by its kind and its name.
pub data Call : Type 0 where
  get : Kind → (namespace name : String) → Call
  create_config_map : ConfigMap → Call
  create_deployment : Deployment → Call
  create_service : Service → Call
  create_ingress : Ingress → Call
  create_job : Job → Call
  update_deployment : Deployment → Call
  delete : Kind → (namespace name : String) → Call
  update_status : FlinkCluster → Call
  event : StatusEvent → Call
  list_jobs : (url : String) → Call
  stop_job : (url : String) → Call
  trigger_savepoint : (url dir : String) → Call
  poll_savepoint : (url : String) → Call
  sleep : ℕ → Call

-- `json.Unmarshal` of a raw message, done where the source does it.
pub record FailureCause : Type 0 where
  pub exception_class : String
  pub stack_trace : String

pub record OperationJson : Type 0 where
  pub location : Option (Result String)
  pub failure_cause : Option (Result FailureCause)

pub record SavepointJson : Type 0 where
  pub status : Option (Result String)
  pub operation : Option (Result OperationJson)

-- Times are in nanoseconds; `now log i` is the reading number i of the clock after the calls of log.
pub record Env : Type 0 where
  pub get_cluster : List Call → (namespace name : String) → Result FlinkCluster
  pub get_config_map : List Call → (namespace name : String) → Result ConfigMap
  pub get_deployment : List Call → (namespace name : String) → Result Deployment
  pub get_service : List Call → (namespace name : String) → Result Service
  pub get_ingress : List Call → (namespace name : String) → Result Ingress
  pub get_job : List Call → (namespace name : String) → Result Job
  pub write : List Call → Call → Option Error
  pub jobs : List Call → (url : String) → Result (List FlinkJob)
  pub stop : List Call → (url : String) → Option Error
  pub trigger : List Call → (url dir : String) → Result String
  pub poll : List Call → (url : String) → Result SavepointJson
  pub now : List Call → ℕ → ℕ
  pub format_time : ℕ → String
  pub parse_time : String → Option ℕ

-- An action: it is given the calls made so far, and ends with its value and the calls made by then.
abbrev pub M : Type 0 → Type 0
M A = Env → List Call → Run (A × List Call)

abbrev pub pure : {A : Type 0} → A → M A
pure a env log = done (a, log)

infixl 5 ◌>>=◌ ◌>>◌
abbrev pub ◌>>=◌ : {A B : Type 0} → M A → (A → M B) → M B
◌>>=◌ m k env log = Run.◌>>=◌ (m env log) (λ (a, log'). k a env log')

abbrev pub ◌>>◌ : {A B : Type 0} → M A → M B → M B
m >> k = m >>= λ _. k

-- A run that makes no call.
abbrev pub lift : {A : Type 0} → Run A → M A
lift r env log = Run.◌>>=◌ r (λ a. done (a, log))

-- One call, and its answer.
abbrev pub call : {A : Type 0} → Call → (Env → List Call → A) → M A
call c answer env log = done (answer env log, log ++ c ∷ [])

abbrev pub write : Call → M (Option Error)
write c = call c (λ env log. env.write log c)

-- `client.IgnoreNotFound`
abbrev pub ignore_not_found : Option Error → Option Error
ignore_not_found (some not_found) = none
ignore_not_found e = e

-- `if err != nil { return err }` between two actions that return an error.
abbrev pub and_then : Option Error → M (Option Error) → M (Option Error)
and_then none next = next
and_then (some e) next = pure (some e)
