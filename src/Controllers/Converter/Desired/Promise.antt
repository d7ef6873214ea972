-- ===== src/Controllers/Converter/Desired/Promise.antt =====
-- What the converter promises of the desired state, controllers/flinkcluster_converter.go.
use flink_on_k8s_operator.Base.{Option, none, some, true, false, ◌≡◌, is_set}
use flink_on_k8s_operator.K8s.{ConfigMap, Ingress, Job}
use flink_on_k8s_operator.Api.{JobManagerIngressSpec, JobSpec, FlinkCluster}
use flink_on_k8s_operator.Webhook.Validate.Create.{Given, IfGiven}
use flink_on_k8s_operator.Controllers.State.{DesiredClusterState}
use flink_on_k8s_operator.Controllers.Util.{
  get_config_map_name, get_job_manager_ingress_name, get_job_name,
}
use flink_on_k8s_operator.Controllers.Converter.{Component}
use flink_on_k8s_operator.Controllers.Converter.Objects.Presence.{
  IsOwned, IsSpared, IsOwnedJobManager, IsOwnedTaskManager, IsOwnedService,
}
use flink_on_k8s_operator.Controllers.Converter.Desired.{nothing_desired}

abbrev pub IsOwnedConfigMap : FlinkCluster → ConfigMap → Type 0
IsOwnedConfigMap cluster c = IsOwned cluster (get_config_map_name cluster.name) c.meta

abbrev pub IsOwnedIngress : FlinkCluster → Ingress → Type 0
IsOwnedIngress cluster i = IsOwned cluster (get_job_manager_ingress_name cluster.name) i.meta

abbrev pub IsOwnedJob : FlinkCluster → Job → Type 0
IsOwnedJob cluster j = IsOwned cluster (get_job_name cluster.name) j.meta

-- An ingress is desired if one is asked for and the cleanup policy spares it.
abbrev pub IsDesiredIngress : FlinkCluster → Option JobManagerIngressSpec → Option Ingress → Type 0
IsDesiredIngress cluster none i = i ≡ none
IsDesiredIngress cluster (some _) i =
    IsSpared cluster Component.job_manager_ingress (IsOwnedIngress cluster) i

-- A job is desired if one is asked for and is not cancelled.
abbrev pub IsDesiredJob : FlinkCluster → Option JobSpec → Option Job → Type 0
IsDesiredJob cluster spec none = IfGiven (λ job. is_set job.cancel_requested ≡ true) spec
IsDesiredJob cluster spec (some desired) =
    Given (λ job. is_set job.cancel_requested ≡ false) spec × IsOwnedJob cluster desired

-- Each object is desired exactly when the spec and the cleanup policy ask for it; it has the
-- namespace and the name that the observer asks for, and the cluster as its owner.
pub record IsDesiredOf (cluster : FlinkCluster) (d : DesiredClusterState) : Type 0 where
  pub config_map : IsSpared cluster Component.config_map (IsOwnedConfigMap cluster) d.config_map
  pub jm_deployment :
      IsSpared cluster Component.job_manager_deployment (IsOwnedJobManager cluster) d.jm_deployment
  pub jm_service :
      IsSpared cluster Component.job_manager_service (IsOwnedService cluster) d.jm_service
  pub jm_ingress : IsDesiredIngress cluster cluster.spec.job_manager.ingress d.jm_ingress
  pub tm_deployment :
      IsSpared cluster Component.task_manager_deployment
        (IsOwnedTaskManager cluster)
        d.tm_deployment
  pub job : IsDesiredJob cluster cluster.spec.job d.job

-- A deleted cluster wants nothing.
abbrev pub AreDesired : Option FlinkCluster → DesiredClusterState → Type 0
AreDesired none d = d ≡ nothing_desired
AreDesired (some cluster) d = IsDesiredOf cluster d
