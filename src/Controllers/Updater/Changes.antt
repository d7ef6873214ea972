-- ===== src/Controllers/Updater/Changes.antt =====
-- Comparing the derived status with the recorded one, the events, and the write.
use flink_on_k8s_operator.Base.{
  String, Option, none, some, Bool, true, false, not, ◌||◌, List, [], ◌∷◌, ◌++◌, is_empty, is_yes,
  if◌then◌else◌,
}
use flink_on_k8s_operator.Base.Run.{Run, done, panic, ◌>>=◌}
use flink_on_k8s_operator.Api.{
  ClusterState, ComponentState, JobState, JobStatus, JobManagerIngressStatus, FlinkClusterStatus,
  FlinkCluster, ClusterState-discrete, ComponentState-discrete, JobState-discrete,
  ComponentStatus-discrete, ServiceStatus-discrete, JobStatus-discrete,
}
use flink_on_k8s_operator.Controllers.State.{ObservedClusterState}
use flink_on_k8s_operator.Controllers.Updater.Status.{derive_cluster_status}

-- `a != b` on a comparable type.
abbrev pub differs {ℓ} : {A : Type ℓ} → Discrete A → A → A → Bool
differs d a b = not (is_yes (d a b))

-- A recorded ingress is compared by its state alone, and dereferenced on both sides.
unfoldable pub is_ingress_changed :
    Option JobManagerIngressStatus → Option JobManagerIngressStatus → Run Bool
is_ingress_changed none none = done false
is_ingress_changed none (some new) = done true
is_ingress_changed (some current) none = panic
is_ingress_changed (some current) (some new) =
    done (differs ComponentState-discrete new.state current.state)

unfoldable pub is_job_changed : Option JobStatus → Option JobStatus → Bool
is_job_changed none none = false
is_job_changed none (some new) = true
is_job_changed (some current) none = true
is_job_changed (some current) (some new) = differs JobStatus-discrete new current

unfoldable pub is_status_changed : FlinkClusterStatus → FlinkClusterStatus → Run Bool
is_status_changed current new = do
  let old = current.components
  let fresh = new.components
  ingress ← is_ingress_changed old.job_manager_ingress fresh.job_manager_ingress
  done (
      differs ClusterState-discrete new.state current.state
      || differs ComponentStatus-discrete fresh.config_map old.config_map
      || differs ComponentStatus-discrete fresh.job_manager_deployment old.job_manager_deployment
      || differs ServiceStatus-discrete fresh.job_manager_service old.job_manager_service
      || ingress
      || differs ComponentStatus-discrete fresh.task_manager_deployment old.task_manager_deployment
      || is_job_changed old.job fresh.job)

-- The constants of the API.
abbrev pub cluster_state_text : ClusterState → String
cluster_state_text ClusterState.unset = ""
cluster_state_text ClusterState.creating = "Creating"
cluster_state_text ClusterState.running = "Running"
cluster_state_text ClusterState.reconciling = "Reconciling"
cluster_state_text ClusterState.stopping = "Stopping"
cluster_state_text ClusterState.partially_stopped = "PartiallyStopped"
cluster_state_text ClusterState.stopped = "Stopped"
cluster_state_text (ClusterState.other s) = s

abbrev pub component_state_text : ComponentState → String
component_state_text ComponentState.unset = ""
component_state_text ComponentState.not_ready = "NotReady"
component_state_text ComponentState.ready = "Ready"
component_state_text ComponentState.deleted = "Deleted"
component_state_text (ComponentState.other s) = s

abbrev pub job_state_text : JobState → String
job_state_text JobState.unset = ""
job_state_text JobState.pending = "Pending"
job_state_text JobState.running = "Running"
job_state_text JobState.succeeded = "Succeeded"
job_state_text JobState.failed = "Failed"
job_state_text JobState.cancelled = "Cancelled"
job_state_text JobState.unknown = "Unknown"
job_state_text (JobState.other s) = s

-- The two messages of `createStatusChangeEvent`.
pub data StatusEvent : Type 0 where
  status_is : (name new : String) → StatusEvent
  status_changed : (name old new : String) → StatusEvent

unfoldable pub create_status_change_event : String → String → String → StatusEvent
create_status_change_event name old new =
    if is_empty old then status_is name new else status_changed name old new

abbrev event_if : Bool → StatusEvent → List StatusEvent
event_if b event = if b then event ∷ [] else []

component_event : String → ComponentState → ComponentState → List StatusEvent
component_event name old new =
    event_if (differs ComponentState-discrete old new)
      (create_status_change_event name (component_state_text old) (component_state_text new))

ingress_event : Option JobManagerIngressStatus → Option JobManagerIngressStatus → List StatusEvent
ingress_event none (some new) =
    create_status_change_event "JobManager ingress" "" (component_state_text new.state) ∷ []
ingress_event (some old) (some new) = component_event "JobManager ingress" old.state new.state
ingress_event _ none = []

job_event : Option JobStatus → Option JobStatus → List StatusEvent
job_event none (some new) = create_status_change_event "Job" "" (job_state_text new.state) ∷ []
job_event (some old) (some new) =
    event_if (differs JobState-discrete old.state new.state)
      (create_status_change_event "Job" (job_state_text old.state) (job_state_text new.state))
job_event _ none = []

unfoldable pub create_status_change_events :
    FlinkClusterStatus → FlinkClusterStatus → List StatusEvent
unfolding component_event ingress_event job_event create_status_change_event
create_status_change_events old new =
    let a = old.components in
    let b = new.components in
    component_event "JobManager deployment" a.job_manager_deployment.state
      b.job_manager_deployment.state
    ++ component_event "ConfigMap" a.config_map.state b.config_map.state
    ++ component_event "JobManager service" a.job_manager_service.state b.job_manager_service.state
    ++ ingress_event a.job_manager_ingress b.job_manager_ingress
    ++ component_event "TaskManager deployment" a.task_manager_deployment.state
        b.task_manager_deployment.state
    ++ job_event a.job b.job
    ++ event_if (differs ClusterState-discrete old.state new.state) (
        create_status_change_event "Cluster" (cluster_state_text old.state)
          (cluster_state_text new.state))

-- What `updateStatusIfChanged` does: nothing, or events and a write of the new status.
pub data Update : Type 0 where
  unchanged : Update
  write : List StatusEvent → FlinkClusterStatus → Update

-- The part of `updateStatusIfChanged` below the nil check; `now` is the time as text.
unfoldable pub update_status_of : String → FlinkCluster → ObservedClusterState → Run Update
update_status_of now cluster observed = do
  let old = record (cluster.status) { last_update_time = "" }
  new ← derive_cluster_status cluster observed
  changed ← is_status_changed old new
  done (
      if changed
      then write (create_status_change_events old new) (record new { last_update_time = now })
      else unchanged)

-- The cluster is nil when it has been deleted.
unfoldable pub update_status_if_changed : String → ObservedClusterState → Run Update
update_status_if_changed now observed = elim (observed.cluster) [
  | none ↦ done unchanged
  | some cluster ↦ update_status_of now cluster observed
]
