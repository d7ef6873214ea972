-- ===== src/Controllers/State.antt =====
-- What one round observes: `ObservedClusterState` of controllers/flinkcluster_observer.go, and the
-- job list of the Flink REST API, controllers/flinkclient/flink_client.go.
use flink_on_k8s_operator.Base.{String, Option, List}
use flink_on_k8s_operator.K8s.{ConfigMap, Deployment, Service, Ingress, Job}
use flink_on_k8s_operator.Api.{FlinkCluster}

-- `flinkclient.JobStatus`
pub record FlinkJob : Type 0 where
  pub id : String
  pub status : String

pub record ObservedClusterState : Type 0 where
  pub cluster : Option FlinkCluster
  pub config_map : Option ConfigMap
  pub jm_deployment : Option Deployment
  pub jm_service : Option Service
  pub jm_ingress : Option Ingress
  pub tm_deployment : Option Deployment
  pub job : Option Job
  pub flink_job_list : Option (List FlinkJob)
  pub flink_running_job_ids : List String
  pub flink_job_id : Option String

-- `DesiredClusterState` of controllers/flinkcluster_converter.go.
pub record DesiredClusterState : Type 0 where
  pub jm_deployment : Option Deployment
  pub jm_service : Option Service
  pub jm_ingress : Option Ingress
  pub tm_deployment : Option Deployment
  pub config_map : Option ConfigMap
  pub job : Option Job
