-- ===== src/K8s/Objects.antt =====
-- The objects that make up a cluster: metadata, deployments, services, ingresses, config maps, jobs.
use flink_on_k8s_operator.Base.{String, Bool, List}
use flink_on_k8s_operator.Base.Int.{ℤ}
use flink_on_k8s_operator.K8s.Pod.{PodSpec}

pub record OwnerReference : Type 0 where
  pub api_version : String
  pub kind : String
  pub name : String
  pub uid : String
  pub controller : Bool
  pub block_owner_deletion : Bool

pub record ObjectMeta : Type 0 where
  pub namespace : String
  pub name : String
  pub owner_references : List OwnerReference
  pub labels : List (String × String)
  pub annotations : List (String × String)

-- `spec.replicas` is a pointer that the API server always fills in.
pub record Deployment : Type 0 where
  pub meta : ObjectMeta
  pub replicas : ℤ
  pub selector : List (String × String)
  pub pod_labels : List (String × String)
  pub pod : PodSpec
  pub available_replicas : ℤ

pub data ServiceType : Type 0 where
  cluster_ip load_balancer node_port : ServiceType
  other : String → ServiceType

pub record ServicePort : Type 0 where
  pub name : String
  pub port : ℤ
  pub target_port : String
  pub node_port : ℤ

pub record LoadBalancerIngress : Type 0 where
  pub ip : String
  pub hostname : String

pub record Service : Type 0 where
  pub meta : ObjectMeta
  pub selector : List (String × String)
  pub ports : List ServicePort
  pub service_type : ServiceType
  pub cluster_ip : String
  pub load_balancer : List LoadBalancerIngress

pub record IngressTls : Type 0 where
  pub hosts : List String
  pub secret_name : String

-- One rule: the host, and the one path with the service behind it.
pub record IngressRule : Type 0 where
  pub host : String
  pub path : String
  pub service_name : String
  pub service_port : String

pub record Ingress : Type 0 where
  pub meta : ObjectMeta
  pub tls : List IngressTls
  pub rules : List IngressRule
  pub load_balancer : List LoadBalancerIngress

pub record ConfigMap : Type 0 where
  pub meta : ObjectMeta
  pub contents : List (String × String)

pub record Job : Type 0 where
  pub meta : ObjectMeta
  pub pod_labels : List (String × String)
  pub pod : PodSpec
  pub backoff_limit : ℤ
  pub failed : ℤ
  pub succeeded : ℤ
