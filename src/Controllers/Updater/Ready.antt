-- ===== src/Controllers/Updater/Ready.antt =====
-- What a derived status says of the observed objects: `deriveClusterStatus` as a whole,
-- controllers/flinkcluster_updater.go.
use mathlib.Core.Path.{subst}
use flink_on_k8s_operator.Base.{
  ℕ, ◌+◌, ◌≤◌, Option, none, some, true, false, ◌≡◌, ◌≢◌, refl, ◌↔◌, ◌⊎◌, inl, arith, is_empty,
  is_cons,
}
use flink_on_k8s_operator.Base.Int.{◌≤ℤ◌}
use flink_on_k8s_operator.Base.Run.{done, >>=-eq-done, done-injective}
use flink_on_k8s_operator.K8s.{Deployment, Service, ServiceType}
use flink_on_k8s_operator.Api.{
  ComponentState, FlinkClusterComponentState, JobManagerServiceStatus, FlinkClusterStatus,
  FlinkCluster,
}
use flink_on_k8s_operator.Webhook.Validate.Create.{Given}
use flink_on_k8s_operator.Controllers.State.{ObservedClusterState}
use flink_on_k8s_operator.Controllers.Updater.{
  get_deployment_state, service_state, derive_deployment, derive_service,
}
use flink_on_k8s_operator.Controllers.Updater.Derive.{
  get_flink_job_id, JobFlags, derive_job, derive_state,
}
use flink_on_k8s_operator.Controllers.Updater.Machine.{Step, derive_state_iff}
use flink_on_k8s_operator.Controllers.Updater.Status.{
  ready_count, derive_components, running_components, derive_cluster_status,
}

-- A deployment that is there, with all its replicas available.
abbrev pub IsAvailable : Option Deployment → Type 0
IsAvailable = Given (λ d. d.replicas ≤ℤ d.available_replicas)

-- A service that has what its type gives it: an IP, an address of a load balancer, ports.
abbrev pub IsServing : ServiceType → Service → Type 0
IsServing ServiceType.cluster_ip s = is_empty s.cluster_ip ≡ false
IsServing ServiceType.load_balancer s = is_cons s.load_balancer ≡ true
IsServing ServiceType.node_port s = is_cons s.ports ≡ true
IsServing (ServiceType.other _) s = ⊥

abbrev pub IsServed : Option Service → Type 0
IsServed = Given (λ s. IsServing s.service_type s)

derive_deployment-IsAvailable :
    (o : Option Deployment) (r : FlinkClusterComponentState)
    → ((derive_deployment o r).state ≡ ComponentState.ready) ↔ IsAvailable o
unfolding derive_deployment get_deployment_state
derive_deployment-IsAvailable none r = ground arith
derive_deployment-IsAvailable (some d) r = ground arith

service_state-IsServing :
    (t : ServiceType) (s : Service) → (service_state t s ≡ ComponentState.ready) ↔ IsServing t s
unfolding service_state
service_state-IsServing ServiceType.cluster_ip s = ground arith
service_state-IsServing ServiceType.load_balancer s = ground arith
service_state-IsServing ServiceType.node_port s = ground arith
service_state-IsServing (ServiceType.other _) s = ground arith

derive_service-IsServed :
    (o : Option Service) (r : JobManagerServiceStatus)
    → ((derive_service o r).state ≡ ComponentState.ready) ↔ IsServed o
unfolding derive_service
derive_service-IsServed none r = ground arith
derive_service-IsServed (some s) r = service_state-IsServing s.service_type s

one_ready :
    (s : ComponentState)
    → ((s ≡ ComponentState.ready) × (ready_count s ≡ 1))
      ⊎ ((s ≢ ComponentState.ready) × (ready_count s ≡ 0))
one_ready ComponentState.ready = inl (refl, refl)
one_ready s = ground arith

-- The machine is given whether all three components are ready, and whether none is.
abbrev pub IsCount : ObservedClusterState → ℕ → Type 0
IsCount o n =
    (n ≤ 3)
    × ((n ≡ 3)
        ↔ (IsAvailable o.jm_deployment × IsServed o.jm_service × IsAvailable o.tm_deployment))
    × ((n ≡ 0) ↔ (
        (¬ IsAvailable o.jm_deployment)
        × (¬ IsServed o.jm_service)
        × (¬ IsAvailable o.tm_deployment)))

count_three :
    (a b c : ComponentState) {A B C : Type 0}
    → (a ≡ ComponentState.ready) ↔ A
    → (b ≡ ComponentState.ready) ↔ B
    → (c ≡ ComponentState.ready) ↔ C
    → let n = ready_count a + ready_count b + ready_count c in
      (n ≤ 3) × ((n ≡ 3) ↔ (A × B × C)) × ((n ≡ 0) ↔ ((¬ A) × (¬ B) × (¬ C)))
count_three a b c f g h = ground (arith, one_ready a, one_ready b, one_ready c)

-- What a derived status rests on: the job and its flags, which components are ready, and an edge of the
-- machine for their number.
pub record IsDerivation (cluster : FlinkCluster) (observed : ObservedClusterState)
    (new : FlinkClusterStatus) : Type 0 where
  pub flags : JobFlags
  pub job :
      derive_job observed.job
        (get_flink_job_id observed.flink_job_id cluster.status.components.job)
        cluster.status.components.job
        cluster.spec.job
      ≡ done (new.components.job, flags)
  pub job_manager :
      (new.components.job_manager_deployment.state ≡ ComponentState.ready)
      ↔ IsAvailable observed.jm_deployment
  pub service :
      (new.components.job_manager_service.state ≡ ComponentState.ready)
      ↔ IsServed observed.jm_service
  pub task_manager :
      (new.components.task_manager_deployment.state ≡ ComponentState.ready)
      ↔ IsAvailable observed.tm_deployment
  pub n : ℕ
  pub count : IsCount observed n
  pub edge : Step flags n cluster.spec.job cluster.status.state new.state

-- In a derived status a deployment is ready exactly when it is observed with all its replicas available,
-- and the service exactly when it has the address or the ports of its type. The state of the cluster
-- follows an edge of the machine for the flags of the derived job and a number of running components, at
-- most three, that is three exactly when all of the two deployments and the service are observed ready, and
-- zero exactly when none is.
pub derive_cluster_status-IsDerivation :
    (cluster : FlinkCluster) (observed : ObservedClusterState) (new : FlinkClusterStatus)
    → derive_cluster_status cluster observed ≡ done new
    → IsDerivation cluster observed new
unfolding derive_cluster_status derive_components
derive_cluster_status-IsDerivation cluster observed new e =
    let ((job, flags), derived, e') =
      >>=-eq-done (derive_job observed.job _ cluster.status.components.job cluster.spec.job) _ e in
    let (state, moved, e'') =
      >>=-eq-done (derive_state cluster.status.state flags _ cluster.spec.job) _ e' in
    let r = cluster.status.components in
    let jm = derive_deployment-IsAvailable observed.jm_deployment r.job_manager_deployment in
    let service = derive_service-IsServed observed.jm_service r.job_manager_service in
    let tm = derive_deployment-IsAvailable observed.tm_deployment r.task_manager_deployment in
    subst (IsDerivation cluster observed) (done-injective e'') (record {
      flags = flags;
      job = derived;
      job_manager = jm;
      service = service;
      task_manager = tm;
      n = running_components (derive_components r observed job);
      count = count_three _ _ _ jm service tm;
      edge = (derive_state_iff _ state flags _ cluster.spec.job).0 moved;
    })
