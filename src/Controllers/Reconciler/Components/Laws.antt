-- ===== src/Controllers/Reconciler/Components/Laws.antt =====
-- The component steps against the calls that the difference of the two states asks for.
use flink_on_k8s_operator.Base.{Option, none, some, sym, List, [], ◌∷◌, ◌++◌}
use flink_on_k8s_operator.Base.Run.{Yields}
use flink_on_k8s_operator.K8s.{ObjectMeta, ConfigMap, Deployment, Service, Ingress}
use flink_on_k8s_operator.Controllers.State.{ObservedClusterState, DesiredClusterState}
use flink_on_k8s_operator.Controllers.Effects.{Kind, Call, Env}
use flink_on_k8s_operator.Controllers.Calls.{
  perform, perform_nil, perform_one, perform->>=, Same, IsPerformed, perform-IsPerformed,
}
use flink_on_k8s_operator.Controllers.Reconciler.Components.{
  create_deployment, delete_deployment, reconcile_deployment, create_service, delete_service,
  reconcile_service, create_ingress, delete_ingress, reconcile_ingress, create_config_map,
  delete_config_map, reconcile_config_map, reconcile_job_manager_deployment,
  reconcile_task_manager_deployment, reconcile_job_manager_service, reconcile_job_manager_ingress,
  reconcile_config, reconcile_components,
}

-- The calls for one object: a missing one is created, one that is not desired is deleted.
abbrev pub needed : {A : Type 0} → (A → Call) → (A → Call) → Option A → Option A → List Call
needed create delete (some desired) none = create desired ∷ []
needed create delete none (some observed) = delete observed ∷ []
needed create delete _ _ = []

abbrev pub deletion : Kind → ObjectMeta → Call
deletion kind meta = Call.delete kind meta.namespace meta.name

abbrev pub needed_config_map : Option ConfigMap → Option ConfigMap → List Call
needed_config_map = needed Call.create_config_map (λ o. deletion Kind.config_map o.meta)

abbrev pub needed_deployment : Option Deployment → Option Deployment → List Call
needed_deployment = needed Call.create_deployment (λ o. deletion Kind.deployment o.meta)

abbrev pub needed_service : Option Service → Option Service → List Call
needed_service = needed Call.create_service (λ o. deletion Kind.service o.meta)

abbrev pub needed_ingress : Option Ingress → Option Ingress → List Call
needed_ingress = needed Call.create_ingress (λ o. deletion Kind.ingress o.meta)

abbrev pub needed_calls : ObservedClusterState → DesiredClusterState → List Call
needed_calls observed desired =
    needed_config_map desired.config_map observed.config_map
    ++ (needed_deployment desired.jm_deployment observed.jm_deployment
        ++ (needed_service desired.jm_service observed.jm_service
            ++ (needed_ingress desired.jm_ingress observed.jm_ingress
                ++ needed_deployment desired.tm_deployment observed.tm_deployment)))

reconcile_config_map-perform :
    (desired observed : Option ConfigMap)
    → Same (reconcile_config_map desired observed) (perform (needed_config_map desired observed))
unfolding reconcile_config_map create_config_map delete_config_map
reconcile_config_map-perform (some d) none env log =
    sym (perform_one (Call.create_config_map d) env log)
reconcile_config_map-perform (some d) (some o) env log = perform_nil env log
reconcile_config_map-perform none (some o) env log =
    sym (perform_one (deletion Kind.config_map o.meta) env log)
reconcile_config_map-perform none none env log = perform_nil env log

reconcile_deployment-perform :
    (desired observed : Option Deployment)
    → Same (reconcile_deployment desired observed) (perform (needed_deployment desired observed))
unfolding reconcile_deployment create_deployment delete_deployment
reconcile_deployment-perform (some d) none env log =
    sym (perform_one (Call.create_deployment d) env log)
reconcile_deployment-perform (some d) (some o) env log = perform_nil env log
reconcile_deployment-perform none (some o) env log =
    sym (perform_one (deletion Kind.deployment o.meta) env log)
reconcile_deployment-perform none none env log = perform_nil env log

reconcile_service-perform :
    (desired observed : Option Service)
    → Same (reconcile_service desired observed) (perform (needed_service desired observed))
unfolding reconcile_service create_service delete_service
reconcile_service-perform (some d) none env log = sym (perform_one (Call.create_service d) env log)
reconcile_service-perform (some d) (some o) env log = perform_nil env log
reconcile_service-perform none (some o) env log =
    sym (perform_one (deletion Kind.service o.meta) env log)
reconcile_service-perform none none env log = perform_nil env log

reconcile_ingress-perform :
    (desired observed : Option Ingress)
    → Same (reconcile_ingress desired observed) (perform (needed_ingress desired observed))
unfolding reconcile_ingress create_ingress delete_ingress
reconcile_ingress-perform (some d) none env log = sym (perform_one (Call.create_ingress d) env log)
reconcile_ingress-perform (some d) (some o) env log = perform_nil env log
reconcile_ingress-perform none (some o) env log =
    sym (perform_one (deletion Kind.ingress o.meta) env log)
reconcile_ingress-perform none none env log = perform_nil env log

-- The component steps make the calls that the difference of the two states asks for, in the order
-- config map, JobManager deployment, service, ingress, TaskManager deployment, up to the first error.
pub reconcile_components-perform :
    (observed : ObservedClusterState) (desired : DesiredClusterState)
    → Same (reconcile_components observed desired) (perform (needed_calls observed desired))
unfolding reconcile_components reconcile_config reconcile_job_manager_deployment
    reconcile_job_manager_service reconcile_job_manager_ingress reconcile_task_manager_deployment
reconcile_components-perform observed desired =
    perform->>= _ _ _ _ (reconcile_config_map-perform desired.config_map observed.config_map) (
      perform->>= _ _ _ _
        (reconcile_deployment-perform desired.jm_deployment observed.jm_deployment)
        (perform->>= _ _ _ _ (reconcile_service-perform desired.jm_service observed.jm_service) (
          perform->>= _ _ _ _ (reconcile_ingress-perform desired.jm_ingress observed.jm_ingress)
            (reconcile_deployment-perform desired.tm_deployment observed.tm_deployment))))

-- The component steps end without a panic, either with every needed call made and no error, or with
-- the first call that failed as the last one made, and its error.
pub reconcile_components-IsPerformed :
    (observed : ObservedClusterState) (desired : DesiredClusterState) (env : Env) (log : List Call)
    → Yields
        (IsPerformed (needed_calls observed desired) env log)
        (reconcile_components observed desired env log)
reconcile_components-IsPerformed observed desired env log =
    rw (reconcile_components-perform observed desired env log)
      (perform-IsPerformed (needed_calls observed desired) env log)
