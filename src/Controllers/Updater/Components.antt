-- ===== src/Controllers/Updater/Components.antt =====
-- The status of the components: stable, counted into the state, and compared with the recorded one.
use flink_on_k8s_operator.Base.{Option, none, some, false, ◌≡◌, refl, ◌↔◌, arith, is_yes_iff}
use flink_on_k8s_operator.Base.Run.{done}
use flink_on_k8s_operator.K8s.{ConfigMap, Deployment, Service, Ingress}
use flink_on_k8s_operator.Api.{
  JobStatus, FlinkClusterComponentState, JobManagerServiceStatus, JobManagerIngressStatus,
  FlinkClusterComponentsStatus, FlinkClusterStatus, ClusterState-discrete, ComponentState-discrete,
  ComponentStatus-discrete, ServiceStatus-discrete, JobStatus-discrete,
}
use flink_on_k8s_operator.Controllers.State.{ObservedClusterState}
use flink_on_k8s_operator.Controllers.Updater.{
  derive_config_map, derive_deployment, derive_service, derive_ingress,
}
use flink_on_k8s_operator.Controllers.Updater.Status.{derive_components}
use flink_on_k8s_operator.Controllers.Updater.Changes.{
  is_ingress_changed, is_job_changed, is_status_changed,
}

derive_config_map-stable :
    (o : Option ConfigMap) (r : FlinkClusterComponentState)
    → derive_config_map o (derive_config_map o r) ≡ derive_config_map o r
unfolding derive_config_map
derive_config_map-stable o r = ground arith

derive_deployment-stable :
    (o : Option Deployment) (r : FlinkClusterComponentState)
    → derive_deployment o (derive_deployment o r) ≡ derive_deployment o r
unfolding derive_deployment
derive_deployment-stable none r = ground arith
derive_deployment-stable (some d) r = refl

derive_service-stable :
    (o : Option Service) (r : JobManagerServiceStatus)
    → derive_service o (derive_service o r) ≡ derive_service o r
unfolding derive_service
derive_service-stable none r = ground arith
derive_service-stable (some s) r = refl

derive_ingress-stable :
    (o : Option Ingress) (r : Option JobManagerIngressStatus)
    → derive_ingress o (derive_ingress o r) ≡ derive_ingress o r
unfolding derive_ingress
derive_ingress-stable none r = ground arith
derive_ingress-stable (some i) r = refl

-- Deriving the components again from what was just recorded, under the same observation, changes
-- nothing.
pub derive_components-stable :
    (recorded : FlinkClusterComponentsStatus) (observed : ObservedClusterState)
    (old_job new_job : Option JobStatus)
    → derive_components (derive_components recorded observed old_job) observed new_job
      ≡ derive_components recorded observed new_job
unfolding derive_components
derive_components-stable recorded observed old_job new_job = simp (
  derive_config_map-stable, derive_deployment-stable, derive_service-stable, derive_ingress-stable,
)

-- Equal, but for the name and the URLs of the ingress.
abbrev pub SameIngress : Option JobManagerIngressStatus → Option JobManagerIngressStatus → Type 0
SameIngress none none = Unit
SameIngress (some current) (some new) = new.state ≡ current.state
SameIngress _ _ = ⊥

-- The time of the last update is left out too.
pub record LooksSame (current new : FlinkClusterStatus) : Type 0 where
  pub state : new.state ≡ current.state
  pub config_map : new.components.config_map ≡ current.components.config_map
  pub job_manager_deployment :
      new.components.job_manager_deployment ≡ current.components.job_manager_deployment
  pub job_manager_service :
      new.components.job_manager_service ≡ current.components.job_manager_service
  pub job_manager_ingress :
      SameIngress current.components.job_manager_ingress new.components.job_manager_ingress
  pub task_manager_deployment :
      new.components.task_manager_deployment ≡ current.components.task_manager_deployment
  pub job : new.components.job ≡ current.components.job

is_ingress_changed_iff :
    (current new : Option JobManagerIngressStatus)
    → (is_ingress_changed current new ≡ done false) ↔ SameIngress current new
unfolding is_ingress_changed
is_ingress_changed_iff none none = ground arith
is_ingress_changed_iff none (some n) = ground arith
is_ingress_changed_iff (some c) none = ground arith
is_ingress_changed_iff (some c) (some n) =
    ground (arith, is_yes_iff (ComponentState-discrete n.state c.state))

is_job_changed_iff :
    (current new : Option JobStatus) → (is_job_changed current new ≡ false) ↔ (new ≡ current)
unfolding is_job_changed
is_job_changed_iff none none = ground arith
is_job_changed_iff none (some n) = ground arith
is_job_changed_iff (some c) none = ground arith
is_job_changed_iff (some c) (some n) = ground (arith, is_yes_iff (JobStatus-discrete n c))

-- No change is reported exactly when nothing differs but the name and the URLs of the ingress and the
-- time of the last update.
pub is_status_changed-false_iff :
    (current new : FlinkClusterStatus)
    → (is_status_changed current new ≡ done false) ↔ LooksSame current new
unfolding is_status_changed
is_status_changed-false_iff current new =
    let a = current.components in
    let b = new.components in
    ground (
      arith,
      is_ingress_changed_iff a.job_manager_ingress b.job_manager_ingress,
      is_job_changed_iff a.job b.job,
      is_yes_iff (ClusterState-discrete new.state current.state),
      is_yes_iff (ComponentStatus-discrete b.config_map a.config_map),
      is_yes_iff (ComponentStatus-discrete b.job_manager_deployment a.job_manager_deployment),
      is_yes_iff (ServiceStatus-discrete b.job_manager_service a.job_manager_service),
      is_yes_iff (ComponentStatus-discrete b.task_manager_deployment a.task_manager_deployment),
    )
