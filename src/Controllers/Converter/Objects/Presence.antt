-- ===== src/Controllers/Converter/Objects/Presence.antt =====
-- Which objects the converter desires of an admitted cluster: none of the dereferences panics.
use flink_on_k8s_operator.Base.{
  String, Option, none, some, Bool, true, false, ◌≡◌, refl, [], ◌∷◌, arith,
}
use flink_on_k8s_operator.Base.Int.{ℤ, pos, ◌<ℤ◌}
use flink_on_k8s_operator.Base.Run.{Run, done, ◌>>=◌, deref, Yields, Yields->>=, Yields-eq}
use flink_on_k8s_operator.K8s.{Deployment, Service, ServiceType, ObjectMeta}
use flink_on_k8s_operator.Api.{GcpConfig, FlinkCluster}
use flink_on_k8s_operator.Webhook.Validate.Create.{Given, IfGiven, IsJobManager, IsTaskManager}
use flink_on_k8s_operator.Controllers.Util.{
  get_job_manager_deployment_name, get_job_manager_service_name, get_task_manager_deployment_name,
}
use flink_on_k8s_operator.Controllers.Converter.{
  Component, Attached, should_cleanup, to_owner_reference, convert_gcp_config,
}
use flink_on_k8s_operator.Controllers.Converter.Objects.{unless_cleanup}

-- The validator accepted the JobManager and the TaskManager, the GCP configuration has a service account,
-- and a recorded job has a job with a cleanup policy behind it.
pub record IsReady (cluster : FlinkCluster) : Type 0 where
  pub job_manager : IsJobManager cluster.spec.job_manager
  pub task_manager : IsTaskManager cluster.spec.task_manager
  pub gcp :
      IfGiven (λ (gcp : GcpConfig). Given (λ _. Unit) gcp.service_account) cluster.spec.gcp_config
  pub policy :
      IfGiven
        (λ _. Given (λ job. Given (λ _. Unit) job.cleanup_policy) cluster.spec.job)
        cluster.status.components.job

-- In the namespace of the cluster, under this name, and owned by the cluster.
abbrev pub IsOwned : FlinkCluster → String → ObjectMeta → Type 0
IsOwned cluster name meta =
    (meta.namespace ≡ cluster.namespace)
    × (meta.name ≡ name)
    × (meta.owner_references ≡ to_owner_reference cluster ∷ [])

-- Desired with these properties exactly when the cleanup policy spares the component.
abbrev pub IsSpared {ℓ} : {A : Type ℓ} → FlinkCluster → Component → (A → Type 0) → Option A → Type 0
IsSpared cluster component P none = should_cleanup cluster component ≡ done true
IsSpared cluster component P (some object) =
    (should_cleanup cluster component ≡ done false) × P object

gcp_converted :
    (gcp : Option GcpConfig)
    → IfGiven (λ gcp. Given (λ _. Unit) gcp.service_account) gcp
    → Yields (λ _. Unit) (convert_gcp_config gcp)
unfolding convert_gcp_config
gcp_converted none h = tt
gcp_converted (some gcp) h = ground arith

cleanup_done :
    (cluster : FlinkCluster) (component : Component)
    → IfGiven
        (λ _. Given (λ job. Given (λ _. Unit) job.cleanup_policy) cluster.spec.job)
        cluster.status.components.job
    → Yields (λ _. Unit) (should_cleanup cluster component)
unfolding should_cleanup
cleanup_done cluster component h = ground arith

pub deref-Yields :
    {A B : Type 0} (P : A → Type 0) (Q : B → Type 0) (o : Option A) (k : A → Run B)
    → Given P o
    → ((a : A) → Yields Q (k a))
    → Yields Q (deref o >>= k)
deref-Yields P Q none k h f = absurd h
deref-Yields P Q (some a) k h f = f a

pub convert_gcp_config-Yields :
    {B : Type 0} (Q : B → Type 0) (cluster : FlinkCluster) (k : Option Attached → Run B)
    → IsReady cluster
    → ((gcp : Option Attached) → Yields Q (k gcp))
    → Yields Q (convert_gcp_config cluster.spec.gcp_config >>= k)
convert_gcp_config-Yields Q cluster k h f =
    Yields->>= (λ _. Unit) Q (convert_gcp_config cluster.spec.gcp_config) k
      (gcp_converted cluster.spec.gcp_config h.gcp) λ gcp _. f gcp

should_cleanup-Yields :
    (cluster : FlinkCluster) (component : Component)
    → IsReady cluster
    → Yields (λ b. should_cleanup cluster component ≡ done b) (should_cleanup cluster component)
should_cleanup-Yields cluster component h =
    let (b, _, e) =
      Yields-eq (λ _. Unit) (should_cleanup cluster component)
        (cleanup_done cluster component h.policy) in
    rw e refl

-- A component that is desired unless it is cleaned up.
pub spared :
    {A : Type 0} (cluster : FlinkCluster) (component : Component) (P : A → Type 0) (object : Run A)
    → IsReady cluster
    → Yields P object
    → Yields
        (IsSpared cluster component P)
        (should_cleanup cluster component >>= λ b. unless_cleanup b object)
spared cluster component P object h yields =
    Yields->>= (λ b. should_cleanup cluster component ≡ done b) (IsSpared cluster component P) _
      (λ b. unless_cleanup b object) (should_cleanup-Yields cluster component h)
      λ b e. by_policy b e
  where
    by_policy :
        (b : Bool)
        → should_cleanup cluster component ≡ done b
        → Yields (IsSpared cluster component P) (unless_cleanup b object)
    by_policy true e = e
    by_policy false e =
        Yields->>= P (IsSpared cluster component P) object (λ o. done (some o)) yields λ o p. (e, p)

-- The type is one whose readiness the updater can tell.
abbrev pub IsKnownType : ServiceType → Type 0
IsKnownType (ServiceType.other _) = ⊥
IsKnownType _ = Unit

abbrev pub IsOwnedJobManager : FlinkCluster → Deployment → Type 0
IsOwnedJobManager cluster d = IsOwned cluster (get_job_manager_deployment_name cluster.name) d.meta

abbrev pub IsOwnedTaskManager : FlinkCluster → Deployment → Type 0
IsOwnedTaskManager cluster d =
    IsOwned cluster (get_task_manager_deployment_name cluster.name) d.meta

abbrev pub IsOwnedService : FlinkCluster → Service → Type 0
IsOwnedService cluster s =
    IsOwned cluster (get_job_manager_service_name cluster.name) s.meta × IsKnownType s.service_type

abbrev pub IsPortNumber : ℤ → Type 0
IsPortNumber n = pos 1024 <ℤ n
