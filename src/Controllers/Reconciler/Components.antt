-- ===== src/Controllers/Reconciler/Components.antt =====
-- The objects other than the job: created when missing, deleted when no longer desired.
pub mod Laws
pub mod World
pub mod Convergence
use flink_on_k8s_operator.Base.{Option, none, some}
use flink_on_k8s_operator.K8s.{ObjectMeta, ConfigMap, Deployment, Service, Ingress}
use flink_on_k8s_operator.Controllers.State.{ObservedClusterState, DesiredClusterState}
use flink_on_k8s_operator.Controllers.Effects.{
  Error, Kind, Call, M, pure, ◌>>=◌, write, ignore_not_found, and_then,
}

-- `k8sClient.Delete`, where an object that is gone is no error.
abbrev pub delete : Kind → ObjectMeta → M (Option Error)
delete kind meta =
    write (Call.delete kind meta.namespace meta.name) >>= λ e. pure (ignore_not_found e)

unfoldable pub create_deployment : Deployment → M (Option Error)
create_deployment deployment = write (Call.create_deployment deployment)

-- No step calls it.
unfoldable pub update_deployment : Deployment → M (Option Error)
update_deployment deployment = write (Call.update_deployment deployment)

unfoldable pub delete_deployment : Deployment → M (Option Error)
delete_deployment deployment = delete Kind.deployment deployment.meta

unfoldable pub reconcile_deployment : Option Deployment → Option Deployment → M (Option Error)
unfolding create_deployment delete_deployment
reconcile_deployment (some desired) none = create_deployment desired
reconcile_deployment (some desired) (some observed) = pure none
reconcile_deployment none (some observed) = delete_deployment observed
reconcile_deployment none none = pure none

unfoldable pub create_service : Service → M (Option Error)
create_service service = write (Call.create_service service)

unfoldable pub delete_service : Service → M (Option Error)
delete_service service = delete Kind.service service.meta

unfoldable pub reconcile_service : Option Service → Option Service → M (Option Error)
unfolding create_service delete_service
reconcile_service (some desired) none = create_service desired
reconcile_service (some desired) (some observed) = pure none
reconcile_service none (some observed) = delete_service observed
reconcile_service none none = pure none

unfoldable pub create_ingress : Ingress → M (Option Error)
create_ingress ingress = write (Call.create_ingress ingress)

unfoldable pub delete_ingress : Ingress → M (Option Error)
delete_ingress ingress = delete Kind.ingress ingress.meta

unfoldable pub reconcile_ingress : Option Ingress → Option Ingress → M (Option Error)
unfolding create_ingress delete_ingress
reconcile_ingress (some desired) none = create_ingress desired
reconcile_ingress (some desired) (some observed) = pure none
reconcile_ingress none (some observed) = delete_ingress observed
reconcile_ingress none none = pure none

unfoldable pub create_config_map : ConfigMap → M (Option Error)
create_config_map config_map = write (Call.create_config_map config_map)

unfoldable pub delete_config_map : ConfigMap → M (Option Error)
delete_config_map config_map = delete Kind.config_map config_map.meta

unfoldable pub reconcile_config_map : Option ConfigMap → Option ConfigMap → M (Option Error)
unfolding create_config_map delete_config_map
reconcile_config_map (some desired) none = create_config_map desired
reconcile_config_map (some desired) (some observed) = pure none
reconcile_config_map none (some observed) = delete_config_map observed
reconcile_config_map none none = pure none

module _ (observed : ObservedClusterState) (desired : DesiredClusterState) where
  unfoldable pub reconcile_job_manager_deployment : M (Option Error)
  unfolding reconcile_deployment
  reconcile_job_manager_deployment =
      reconcile_deployment desired.jm_deployment observed.jm_deployment

  unfoldable pub reconcile_task_manager_deployment : M (Option Error)
  unfolding reconcile_deployment
  reconcile_task_manager_deployment =
      reconcile_deployment desired.tm_deployment observed.tm_deployment

  unfoldable pub reconcile_job_manager_service : M (Option Error)
  unfolding reconcile_service
  reconcile_job_manager_service = reconcile_service desired.jm_service observed.jm_service

  unfoldable pub reconcile_job_manager_ingress : M (Option Error)
  unfolding reconcile_ingress
  reconcile_job_manager_ingress = reconcile_ingress desired.jm_ingress observed.jm_ingress

  unfoldable pub reconcile_config : M (Option Error)
  unfolding reconcile_config_map
  reconcile_config = reconcile_config_map desired.config_map observed.config_map

-- The steps before the job, each only if the one before had no error.
unfoldable pub reconcile_components : ObservedClusterState → DesiredClusterState → M (Option Error)
reconcile_components observed desired = reconcile_config observed desired >>= λ e. and_then e (
    reconcile_job_manager_deployment observed desired >>= λ e. and_then e (
      reconcile_job_manager_service observed desired >>= λ e. and_then e (
        reconcile_job_manager_ingress observed desired >>= λ e.
        and_then e (reconcile_task_manager_deployment observed desired))))
