-- ===== src/Controllers/Handler/Settling.antt =====
-- The conversion of a cluster followed by the component steps, controllers/flinkcluster_converter.go
-- and controllers/flinkcluster_reconciler.go.
use flink_on_k8s_operator.Base.{String, Option, none, some, ◌≡◌, refl, ap, ◌∙◌, List, ◌++◌, eq_iff}
use flink_on_k8s_operator.Base.Run.{done, Yields, Yields-of_Yields, Yields-eq}
use flink_on_k8s_operator.K8s.{ObjectMeta, Ingress}
use flink_on_k8s_operator.Api.{JobManagerIngressSpec, FlinkCluster}
use flink_on_k8s_operator.Webhook.Validate.Create.{IfGiven}
use flink_on_k8s_operator.Controllers.State.{ObservedClusterState, DesiredClusterState}
use flink_on_k8s_operator.Controllers.Util.{
  get_config_map_name, get_job_manager_deployment_name, get_job_manager_service_name,
  get_job_manager_ingress_name, get_task_manager_deployment_name,
}
use flink_on_k8s_operator.Controllers.Effects.{Error, Call, Env, M, ◌>>=◌, lift}
use flink_on_k8s_operator.Controllers.Calls.{answer}
use flink_on_k8s_operator.Controllers.Observer.{Request}
use flink_on_k8s_operator.Controllers.Converter.{Component}
use flink_on_k8s_operator.Controllers.Converter.HeapSize.{Float64}
use flink_on_k8s_operator.Controllers.Converter.Desired.{get_desired_cluster_state}
use flink_on_k8s_operator.Controllers.Converter.Objects.Presence.{IsReady, IsOwned, IsSpared}
use flink_on_k8s_operator.Controllers.Converter.Desired.Promise.{
  IsDesiredOf, IsDesiredIngress, IsOwnedIngress,
}
use flink_on_k8s_operator.Controllers.Converter.Desired.Total.{get_desired_cluster_state-AreDesired}
use flink_on_k8s_operator.Controllers.Reconciler.Components.{reconcile_components}
use flink_on_k8s_operator.Controllers.Reconciler.Components.World.{is_asked, IsAsked, apply_all}
use flink_on_k8s_operator.Controllers.Reconciler.Components.Convergence.{
  synced, all_synced, AreNamed, IsConverged, reconcile_components-IsConverged,
}

-- The desired state is computed anew, and the components are brought towards it.
abbrev pub sync_components : Float64 → FlinkCluster → ObservedClusterState → M (Option Error)
sync_components f cluster o =
    lift (get_desired_cluster_state f (some cluster)) >>= λ d. reconcile_components o d

-- Each observed object has the name under which it is asked for.
pub record AreAsked (request : Request) (o : ObservedClusterState) : Type 0 where
  pub config_map :
      IfGiven (λ c. IsAsked request (get_config_map_name request.name) c.meta) o.config_map
  pub jm_deployment :
      IfGiven
        (λ d. IsAsked request (get_job_manager_deployment_name request.name) d.meta)
        o.jm_deployment
  pub jm_service :
      IfGiven (λ s. IsAsked request (get_job_manager_service_name request.name) s.meta) o.jm_service
  pub jm_ingress :
      IfGiven (λ i. IsAsked request (get_job_manager_ingress_name request.name) i.meta) o.jm_ingress
  pub tm_deployment :
      IfGiven
        (λ d. IsAsked request (get_task_manager_deployment_name request.name) d.meta)
        o.tm_deployment

-- There exactly when the cleanup policy spares the component.
abbrev pub IsThere {ℓ} : {A : Type ℓ} → FlinkCluster → Component → Option A → Type 0
IsThere cluster component = IsSpared cluster component (λ _. Unit)

abbrev pub IsThereIngress : FlinkCluster → Option JobManagerIngressSpec → Option Ingress → Type 0
IsThereIngress cluster none i = i ≡ none
IsThereIngress cluster (some _) i = IsThere cluster Component.job_manager_ingress i

-- What a cluster asks for is there, and nothing else.
pub record IsSettled (cluster : FlinkCluster) (o : ObservedClusterState) : Type 0 where
  pub config_map : IsThere cluster Component.config_map o.config_map
  pub jm_deployment : IsThere cluster Component.job_manager_deployment o.jm_deployment
  pub jm_service : IsThere cluster Component.job_manager_service o.jm_service
  pub jm_ingress : IsThereIngress cluster cluster.spec.job_manager.ingress o.jm_ingress
  pub tm_deployment : IsThere cluster Component.task_manager_deployment o.tm_deployment

synced-IsThere :
    {A : Type 0} (cluster : FlinkCluster) (component : Component) (P : A → Type 0) (d o : Option A)
    → IsSpared cluster component P d
    → IsThere cluster component (synced d o)
synced-IsThere cluster component P none o h = h
synced-IsThere cluster component P (some d) none h = (h.0, tt)
synced-IsThere cluster component P (some d) (some o) h = (h.0, tt)

module _ (cluster : FlinkCluster) (o : ObservedClusterState) (d : DesiredClusterState)
    (h : IsDesiredOf cluster d) where
  ingress-IsThere :
      (spec : Option JobManagerIngressSpec)
      → IsDesiredIngress cluster spec d.jm_ingress
      → IsThereIngress cluster spec (synced d.jm_ingress o.jm_ingress)
  ingress-IsThere none e = rw e refl
  ingress-IsThere (some spec) s =
      synced-IsThere cluster _ (IsOwnedIngress cluster) d.jm_ingress o.jm_ingress s

  all_synced-IsSettled : IsSettled cluster (all_synced o d)
  all_synced-IsSettled = record {
    config_map = synced-IsThere cluster _ _ d.config_map o.config_map h.config_map;
    jm_deployment = synced-IsThere cluster _ _ d.jm_deployment o.jm_deployment h.jm_deployment;
    jm_service = synced-IsThere cluster _ _ d.jm_service o.jm_service h.jm_service;
    jm_ingress = ingress-IsThere cluster.spec.job_manager.ingress h.jm_ingress;
    tm_deployment = synced-IsThere cluster _ _ d.tm_deployment o.tm_deployment h.tm_deployment;
  }

-- An object that the cluster owns is asked for under its name.
owned-IsAsked :
    (request : Request) (cluster : FlinkCluster) (name_of : String → String) (meta : ObjectMeta)
    → cluster.namespace ≡ request.namespace
    → cluster.name ≡ request.name
    → IsOwned cluster (name_of cluster.name) meta
    → IsAsked request (name_of request.name) meta
unfolding is_asked
owned-IsAsked request cluster name_of meta e e' (in_namespace, named, _) =
    rw ((eq_iff _ _).1 (in_namespace ∙ e), (eq_iff _ _).1 (named ∙ ap name_of e')) refl

module _ (request : Request) (cluster : FlinkCluster) (here : cluster.namespace ≡ request.namespace)
    (named : cluster.name ≡ request.name) where
  spared-IsAsked :
      {A : Type 0} (component : Component) (P : A → Type 0) (meta : A → ObjectMeta)
      (name_of : String → String) (d : Option A)
      → IsSpared cluster component P d
      → ((a : A) → P a → IsOwned cluster (name_of cluster.name) (meta a))
      → IfGiven (λ a. IsAsked request (name_of request.name) (meta a)) d
  spared-IsAsked component P meta name_of none s own = tt
  spared-IsAsked component P meta name_of (some a) s own =
      owned-IsAsked request cluster name_of (meta a) here named (own a s.1)

  ingress-IsAsked :
      (spec : Option JobManagerIngressSpec) (i : Option Ingress)
      → IsDesiredIngress cluster spec i
      → IfGiven (λ i. IsAsked request (get_job_manager_ingress_name request.name) i.meta) i
  ingress-IsAsked none i e = rw e tt
  ingress-IsAsked (some spec) i s =
      spared-IsAsked Component.job_manager_ingress (IsOwnedIngress cluster) (λ i. i.meta)
        get_job_manager_ingress_name i s λ i owned. owned

  desired-AreNamed :
      (o : ObservedClusterState) (d : DesiredClusterState)
      → AreAsked request o
      → IsDesiredOf cluster d
      → AreNamed request o d
  desired-AreNamed o d asked h = record {
    config_map = (
      spared-IsAsked _ _ (λ c. c.meta) get_config_map_name d.config_map h.config_map
          λ c owned. owned,
      asked.config_map,
    );
    jm_deployment = (
      spared-IsAsked _ _ (λ d. d.meta) get_job_manager_deployment_name d.jm_deployment
          h.jm_deployment λ d owned. owned,
      asked.jm_deployment,
    );
    jm_service = (
      spared-IsAsked _ _ (λ s. s.meta) get_job_manager_service_name d.jm_service h.jm_service
          λ s owned. owned.0,
      asked.jm_service,
    );
    jm_ingress = (
      ingress-IsAsked cluster.spec.job_manager.ingress d.jm_ingress h.jm_ingress,
      asked.jm_ingress,
    );
    tm_deployment = (
      spared-IsAsked _ _ (λ d. d.meta) get_task_manager_deployment_name d.tm_deployment
          h.tm_deployment λ d owned. owned,
      asked.tm_deployment,
    );
  }

-- A pass has ended without an error, what it left is settled, and another pass from there would make no
-- call.
abbrev pub Settles :
    Float64
    → Request
    → FlinkCluster
    → Env
    → ObservedClusterState
    → List Call
    → Option Error × List Call
    → Type 0
Settles f request cluster env o log (e, log') =
    (e ≡ none)
    × ((calls : List Call) × (log' ≡ log ++ calls)
        × IsSettled cluster (apply_all request calls o)
        × ((log'' : List Call)
            → sync_components f cluster (apply_all request calls o) env log'' ≡ done (none, log'')))

-- In a world in which every call succeeds, and the API server creates and deletes what it is told to:
-- for a cluster that passed validation and is fetched under the request, with a service account in its GCP
-- configuration and a cleanup policy behind a recorded job, whose objects are observed under the names
-- that are asked for, the conversion followed by the component steps ends without a panic or an error.
-- Afterwards each component is there exactly when the cleanup policy spares it, the ingress only if the spec
-- asks for one, and a second pass would make no call.
pub sync_components-Settles :
    (f : Float64) (request : Request) (cluster : FlinkCluster) (o : ObservedClusterState)
    (env : Env) (log : List Call)
    → IsReady cluster
    → cluster.namespace ≡ request.namespace
    → cluster.name ≡ request.name
    → AreAsked request o
    → ((log : List Call) (c : Call) → answer env log c ≡ none)
    → Yields (Settles f request cluster env o log) (sync_components f cluster o env log)
sync_components-Settles f request cluster o env log ready here named asked accepts =
    let (d, desired, converted) =
      Yields-eq (IsDesiredOf cluster) (get_desired_cluster_state f (some cluster))
        (get_desired_cluster_state-AreDesired f (some cluster) ready) in
    rw (converted, sync_components)
      (Yields-of_Yields (IsConverged request env o d log) (Settles f request cluster env o log) _
        (reconcile_components-IsConverged request o d env log
          (desired-AreNamed request cluster here named o d asked desired) accepts)
        λ (e, log') (fine, (calls, made, left, again)). (
          fine,
          (
            calls,
            made,
            rw left (all_synced-IsSettled cluster o d desired),
            λ log''. rw (converted) (again log''),
          ),
        ))
