-- ===== src/Controllers/Reconciler/Components/Convergence.antt =====
-- The component steps converge in one round, if the API server does what it is told.
use flink_on_k8s_operator.Base.{
  String, Option, none, some, ◌≡◌, refl, ap, ◌∙◌, List, [], ◌++◌, inl, inr, if◌then◌else◌,
}
use flink_on_k8s_operator.Base.Run.{done, Yields, Yields-of_Yields}
use flink_on_k8s_operator.K8s.{ObjectMeta, ConfigMap, Deployment, Service, Ingress}
use flink_on_k8s_operator.Webhook.Validate.Create.{IfGiven}
use flink_on_k8s_operator.Controllers.State.{ObservedClusterState, DesiredClusterState}
use flink_on_k8s_operator.Controllers.Util.{
  get_config_map_name, get_job_manager_deployment_name, get_job_manager_service_name,
  get_job_manager_ingress_name, get_task_manager_deployment_name,
}
use flink_on_k8s_operator.Controllers.Effects.{Error, Kind, Call, Env}
use flink_on_k8s_operator.Controllers.Calls.{answer, perform, IsPerformed}
use flink_on_k8s_operator.Controllers.Observer.{Request}
use flink_on_k8s_operator.Controllers.Reconciler.Components.{reconcile_components}
use flink_on_k8s_operator.Controllers.Reconciler.Components.Laws.{
  needed, deletion, needed_config_map, needed_deployment, needed_service, needed_ingress,
  needed_calls, reconcile_components-perform, reconcile_components-IsPerformed,
}
use flink_on_k8s_operator.Controllers.Reconciler.Components.World.{
  IsAsked, with_deployment, with_config_map, with_service, with_ingress, applied, apply_all,
  apply_all-append, names_differ,
}

-- What is there after a step.
abbrev pub synced {ℓ} : {A : Type ℓ} → Option A → Option A → Option A
synced (some d) none = some d
synced (some d) (some o) = some o
synced none o = none

-- The observed state with every component as it is desired.
abbrev pub all_synced : ObservedClusterState → DesiredClusterState → ObservedClusterState
all_synced o d = record o {
  config_map = synced d.config_map o.config_map;
  jm_deployment = synced d.jm_deployment o.jm_deployment;
  jm_service = synced d.jm_service o.jm_service;
  jm_ingress = synced d.jm_ingress o.jm_ingress;
  tm_deployment = synced d.tm_deployment o.tm_deployment;
}

module _ (request : Request) where
  needed-synced :
      {A : Type 0} (create delete : A → Call) (d o : Option A)
      → needed create delete d (synced d o) ≡ []
  needed-synced create delete (some d) none = refl
  needed-synced create delete (some d) (some o) = refl
  needed-synced create delete none o = refl

  -- The objects have the names under which they are asked for.
  abbrev pub AllAsked : {A : Type 0} → (A → ObjectMeta) → String → Option A → Option A → Type 0
  AllAsked meta asked d o =
      IfGiven (λ a. IsAsked request asked (meta a)) d
      × IfGiven (λ a. IsAsked request asked (meta a)) o

  config_map_synced :
      (d c : Option ConfigMap) (o : ObservedClusterState)
      → o.config_map ≡ c
      → AllAsked (λ c. c.meta) (get_config_map_name request.name) d c
      → apply_all request (needed_config_map d c) o ≡ record o { config_map = synced d c }
  unfolding apply_all applied with_config_map
  config_map_synced (some d) none o e h = rw (h.0, if◌then◌else◌) refl
  config_map_synced (some d) (some c) o e h = rw⁻¹ e refl
  config_map_synced none (some c) o e h = rw (h.1, if◌then◌else◌) refl
  config_map_synced none none o e h = rw⁻¹ e refl

  service_synced :
      (d s : Option Service) (o : ObservedClusterState)
      → o.jm_service ≡ s
      → AllAsked (λ s. s.meta) (get_job_manager_service_name request.name) d s
      → apply_all request (needed_service d s) o ≡ record o { jm_service = synced d s }
  unfolding apply_all applied with_service
  service_synced (some d) none o e h = rw (h.0, if◌then◌else◌) refl
  service_synced (some d) (some s) o e h = rw⁻¹ e refl
  service_synced none (some s) o e h = rw (h.1, if◌then◌else◌) refl
  service_synced none none o e h = rw⁻¹ e refl

  ingress_synced :
      (d i : Option Ingress) (o : ObservedClusterState)
      → o.jm_ingress ≡ i
      → AllAsked (λ i. i.meta) (get_job_manager_ingress_name request.name) d i
      → apply_all request (needed_ingress d i) o ≡ record o { jm_ingress = synced d i }
  unfolding apply_all applied with_ingress
  ingress_synced (some d) none o e h = rw (h.0, if◌then◌else◌) refl
  ingress_synced (some d) (some i) o e h = rw⁻¹ e refl
  ingress_synced none (some i) o e h = rw (h.1, if◌then◌else◌) refl
  ingress_synced none none o e h = rw⁻¹ e refl

  jm_deployment_synced :
      (d c : Option Deployment) (o : ObservedClusterState)
      → o.jm_deployment ≡ c
      → AllAsked (λ d. d.meta) (get_job_manager_deployment_name request.name) d c
      → apply_all request (needed_deployment d c) o ≡ record o { jm_deployment = synced d c }
  unfolding apply_all applied with_deployment
  jm_deployment_synced (some d) none o e h = rw (h.0, if◌then◌else◌) refl
  jm_deployment_synced (some d) (some c) o e h = rw⁻¹ e refl
  jm_deployment_synced none (some c) o e h = rw (h.1, if◌then◌else◌) refl
  jm_deployment_synced none none o e h = rw⁻¹ e refl

  tm_deployment_synced :
      (d c : Option Deployment) (o : ObservedClusterState)
      → o.tm_deployment ≡ c
      → AllAsked (λ d. d.meta) (get_task_manager_deployment_name request.name) d c
      → apply_all request (needed_deployment d c) o ≡ record o { tm_deployment = synced d c }
  unfolding apply_all applied with_deployment
  tm_deployment_synced (some d) none o e h =
      rw (names_differ request d.meta.namespace d.meta.name h.0, h.0, if◌then◌else◌) refl
  tm_deployment_synced (some d) (some c) o e h = rw⁻¹ e refl
  tm_deployment_synced none (some c) o e h =
      rw (names_differ request c.meta.namespace c.meta.name h.1, h.1, if◌then◌else◌) refl
  tm_deployment_synced none none o e h = rw⁻¹ e refl

  -- Every object of the desired and the observed state has the name under which it is asked for.
  pub record AreNamed (o : ObservedClusterState) (d : DesiredClusterState) : Type 0 where
    pub config_map :
        AllAsked (λ c. c.meta) (get_config_map_name request.name) d.config_map o.config_map
    pub jm_deployment :
        AllAsked
          (λ d. d.meta)
          (get_job_manager_deployment_name request.name)
          d.jm_deployment
          o.jm_deployment
    pub jm_service :
        AllAsked (λ s. s.meta) (get_job_manager_service_name request.name) d.jm_service o.jm_service
    pub jm_ingress :
        AllAsked (λ i. i.meta) (get_job_manager_ingress_name request.name) d.jm_ingress o.jm_ingress
    pub tm_deployment :
        AllAsked
          (λ d. d.meta)
          (get_task_manager_deployment_name request.name)
          d.tm_deployment
          o.tm_deployment

  -- One step, then the others.
  one_step :
      (xs ys : List Call) (o o' : ObservedClusterState)
      → apply_all request xs o ≡ o'
      → apply_all request (xs ++ ys) o ≡ apply_all request ys o'
  one_step xs ys o o' e = apply_all-append request xs ys o ∙ ap (apply_all request ys) e

  needed_calls-all_synced :
      (o : ObservedClusterState) (d : DesiredClusterState)
      → AreNamed o d
      → apply_all request (needed_calls o d) o ≡ all_synced o d
  needed_calls-all_synced o d h =
      one_step _ _ o _ (config_map_synced d.config_map o.config_map o refl h.config_map)
      ∙ one_step _ _ _ _
          (jm_deployment_synced d.jm_deployment o.jm_deployment _ refl h.jm_deployment)
      ∙ one_step _ _ _ _ (service_synced d.jm_service o.jm_service _ refl h.jm_service)
      ∙ one_step _ _ _ _ (ingress_synced d.jm_ingress o.jm_ingress _ refl h.jm_ingress)
      ∙ tm_deployment_synced d.tm_deployment o.tm_deployment _ refl h.tm_deployment

  nothing_needed :
      (o : ObservedClusterState) (d : DesiredClusterState) → needed_calls (all_synced o d) d ≡ []
  nothing_needed o d =
      rw
        (
          needed-synced Call.create_config_map (λ c. deletion Kind.config_map c.meta) d.config_map
              o.config_map,
          needed-synced Call.create_deployment (λ c. deletion Kind.deployment c.meta)
              d.jm_deployment o.jm_deployment,
          needed-synced Call.create_service (λ c. deletion Kind.service c.meta) d.jm_service
              o.jm_service,
          needed-synced Call.create_ingress (λ c. deletion Kind.ingress c.meta) d.jm_ingress
              o.jm_ingress,
          needed-synced Call.create_deployment (λ c. deletion Kind.deployment c.meta)
              d.tm_deployment o.tm_deployment,
        )
        refl

  -- The steps have ended without an error; their calls left every component as it is desired, and there
  -- the steps would make no call.
  abbrev pub IsConverged :
      Env
      → ObservedClusterState
      → DesiredClusterState
      → List Call
      → Option Error × List Call
      → Type 0
  IsConverged env o d log (e, log') =
      (e ≡ none)
      × ((calls : List Call) × (log' ≡ log ++ calls)
          × (apply_all request calls o ≡ all_synced o d)
          × ((log'' : List Call)
              → reconcile_components (apply_all request calls o) d env log'' ≡ done (none, log'')))

-- In a world in which every call succeeds, and the API server creates and deletes what it is told to, the
-- component steps converge at once: they end without an error, their calls leave every component as it is
-- desired, and there the steps would make no call at all.
pub reconcile_components-IsConverged :
    (request : Request) (o : ObservedClusterState) (d : DesiredClusterState) (env : Env)
    (log : List Call)
    → AreNamed request o d
    → ((log : List Call) (c : Call) → answer env log c ≡ none)
    → Yields (IsConverged request env o d log) (reconcile_components o d env log)
unfolding perform
reconcile_components-IsConverged request o d env log named accepts =
    Yields-of_Yields (IsPerformed (needed_calls o d) env log) (IsConverged request env o d log) _
      (reconcile_components-IsPerformed o d env log) converged
  where
    again :
        (log'' : List Call)
        → reconcile_components (apply_all request (needed_calls o d) o) d env log''
          ≡ done (none, log'')
    again log'' =
        ap (λ o'. reconcile_components o' d env log'') (needed_calls-all_synced request o d named)
        ∙ reconcile_components-perform (all_synced o d) d env log''
        ∙ ap (λ calls. perform calls env log'') (nothing_needed request o d)

    converged :
        (end : Option Error × List Call)
        → IsPerformed (needed_calls o d) env log end
        → IsConverged request env o d log end
    converged (e, log') (inl (fine, made)) =
        (fine, (needed_calls o d, made, needed_calls-all_synced request o d named, again))
    converged (e, log') (inr (before, after, c, x, _, refused, _, _)) =
        absurd (cc (accepts (log ++ before) c, refused))
