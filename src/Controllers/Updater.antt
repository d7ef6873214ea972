-- ===== src/Controllers/Updater.antt =====
-- The status updater, controllers/flinkcluster_updater.go: the status of the components.
-- `deriveClusterStatus` is one function in the source; here each of its blocks is one.
pub mod Derive
pub mod Status
pub mod Machine
pub mod Rounds
pub mod Ready
pub mod Components
pub mod Safety
pub mod Jobs
pub mod Changes
pub mod Write
pub mod Tests
use Prim.Native.String.{◌++◌ as str_append}
use flink_on_k8s_operator.Base.{
  ℕ, ◌+◌, String, Option, none, some, Bool, true, false, not, ◌&&◌, List, [], ◌∷◌, ◌++◌, ◌==◌,
  is_empty, is_cons, if◌then◌else◌,
}
use flink_on_k8s_operator.Base.Int.{ℤ, pos, leb_ℤ}
use flink_on_k8s_operator.K8s.{
  ConfigMap, Deployment, Service, ServicePort, ServiceType, Ingress, IngressTls, IngressRule,
  LoadBalancerIngress,
}
use flink_on_k8s_operator.Api.{
  ComponentState, FlinkClusterComponentState, JobManagerServiceStatus, JobManagerIngressStatus,
}

unfoldable pub get_deployment_state : Deployment → ComponentState
get_deployment_state deployment =
    if leb_ℤ deployment.replicas deployment.available_replicas
    then ComponentState.ready
    else ComponentState.not_ready

-- A component that is recorded by name and no longer there is deleted.
abbrev pub deleted_component : FlinkClusterComponentState → FlinkClusterComponentState
deleted_component recorded =
    if is_empty recorded.name
    then record { name = ""; state = ComponentState.unset }
    else record { name = recorded.name; state = ComponentState.deleted }

unfoldable pub derive_config_map :
    Option ConfigMap → FlinkClusterComponentState → FlinkClusterComponentState
derive_config_map (some config_map) recorded = record {
  name = config_map.meta.name;
  state = ComponentState.ready;
}
derive_config_map none recorded = deleted_component recorded

-- The block of the JobManager deployment, and that of the TaskManager deployment.
unfoldable pub derive_deployment :
    Option Deployment → FlinkClusterComponentState → FlinkClusterComponentState
unfolding get_deployment_state
derive_deployment (some deployment) recorded = record {
  name = deployment.meta.name;
  state = get_deployment_state deployment;
}
derive_deployment none recorded = deleted_component recorded

abbrev ready_if : Bool → ComponentState
ready_if b = if b then ComponentState.ready else ComponentState.not_ready

unfoldable pub service_state : ServiceType → Service → ComponentState
service_state ServiceType.cluster_ip service = ready_if (not (is_empty service.cluster_ip))
service_state ServiceType.load_balancer service = ready_if (is_cons service.load_balancer)
service_state ServiceType.node_port service = ready_if (is_cons service.ports)
service_state (ServiceType.other _) service = ComponentState.unset

-- The loop over the ports: the last one named `ui` gives the node port.
ui_node_port : ℤ → List ServicePort → ℤ
ui_node_port found [] = found
ui_node_port found (port ∷ ports) =
    ui_node_port (if port.name == "ui" then port.node_port else found) ports

service_node_port : ServiceType → Service → ℤ
unfolding ui_node_port
service_node_port ServiceType.node_port service = ui_node_port (pos 0) service.ports
service_node_port _ service = pos 0

unfoldable pub derive_service : Option Service → JobManagerServiceStatus → JobManagerServiceStatus
unfolding service_state service_node_port
derive_service (some service) recorded = record {
  name = service.meta.name;
  state = service_state service.service_type service;
  node_port = service_node_port service.service_type service;
}
derive_service none recorded =
    if is_empty recorded.name
    then record { name = ""; state = ComponentState.unset; node_port = pos 0 }
    else record { name = recorded.name; state = ComponentState.deleted; node_port = pos 0 }

-- `append(urls, prefix+host)` for a host that is not empty.
abbrev add_url : String → List String → String → List String
add_url prefix urls host = if is_empty host then urls else urls ++ str_append prefix host ∷ []

add_hosts : List String → List String → List String
add_hosts urls [] = urls
add_hosts urls (host ∷ hosts) = add_hosts (add_url "https://" urls host) hosts

tls_urls : List String → List IngressTls → List String
unfolding add_hosts
tls_urls urls [] = urls
tls_urls urls (tls ∷ rest) = tls_urls (add_hosts urls tls.hosts) rest

rule_urls : List String → List IngressRule → List String
rule_urls urls [] = urls
rule_urls urls (rule ∷ rest) = rule_urls (add_url "http://" urls rule.host) rest

ingress_hosts : Ingress → List String
unfolding tls_urls rule_urls
ingress_hosts ingress =
    if is_cons ingress.tls then tls_urls [] ingress.tls else rule_urls [] ingress.rules

-- The address of one load balancer: the host name before the IP; else the one found before.
abbrev next_addr : String → LoadBalancerIngress → String
next_addr addr lb =
    if is_empty lb.hostname then (if is_empty lb.ip then addr else lb.ip) else lb.hostname

-- The loop over the load balancers, over the last address and the URLs.
scan_load_balancers :
    (use_host use_tls : Bool)
    → String
    → List String
    → List LoadBalancerIngress
    → String × List String
scan_load_balancers use_host use_tls addr urls [] = (addr, urls)
scan_load_balancers use_host use_tls addr urls (lb ∷ rest) =
    scan_load_balancers use_host use_tls (next_addr addr lb)
      (if use_host
        then urls
        else add_url (if use_tls then "https://" else "http://") urls (next_addr addr lb))
      rest

unfoldable pub derive_present_ingress : Ingress → JobManagerIngressStatus
unfolding ingress_hosts scan_load_balancers
derive_present_ingress ingress =
    let hosts = ingress_hosts ingress in
    let (addr, urls) =
      scan_load_balancers (is_cons hosts) (is_cons ingress.tls) "" hosts ingress.load_balancer in
    record { name = ingress.meta.name; state = ready_if (not (is_empty addr)); urls = urls }

unfoldable pub derive_ingress :
    Option Ingress → Option JobManagerIngressStatus → Option JobManagerIngressStatus
unfolding derive_present_ingress
derive_ingress (some ingress) recorded = some (derive_present_ingress ingress)
derive_ingress none none = none
derive_ingress none (some recorded) =
    if is_empty recorded.name
    then none
    else some (record { name = recorded.name; state = ComponentState.deleted; urls = [] })
