-- ===== src/Controllers/Reconciler/Components/World.antt =====
-- An API server that does what it is told, as seen by the observation of one cluster.
use Prim.Native.String.{◌++◌ as str_append}
use text.Mathlib.TextLemmas.{append_cancel_left}
use flink_on_k8s_operator.Base.{
  String, Option, none, some, Bool, true, false, ◌&&◌, ◌≡◌, refl, sym, ◌∙◌, List, [], ◌∷◌, ◌++◌,
  ◌==◌, eq_iff, inl, inr, if◌then◌else◌, Bool-cases,
}
use flink_on_k8s_operator.K8s.{ObjectMeta, ConfigMap, Deployment, Service, Ingress}
use flink_on_k8s_operator.Controllers.State.{ObservedClusterState}
use flink_on_k8s_operator.Controllers.Util.{
  get_config_map_name, get_job_manager_deployment_name, get_job_manager_service_name,
  get_job_manager_ingress_name, get_task_manager_deployment_name,
}
use flink_on_k8s_operator.Controllers.Effects.{Kind, Call}
use flink_on_k8s_operator.Controllers.Observer.{Request}

second : (a b : Bool) → (a && b) ≡ true → b ≡ true
second true b h = h
second false b h = cc

and-false : (a : Bool) → (a && false) ≡ false
and-false true = refl
and-false false = refl

-- What is observed after a call that succeeds: the API server holds one object of a kind under a
-- namespace and a name.
module _ (request : Request) where
  unfoldable pub is_asked : String → (namespace name : String) → Bool
  is_asked asked namespace name = namespace == request.namespace && name == asked

  abbrev pub IsAsked : String → ObjectMeta → Type 0
  IsAsked asked meta = is_asked asked meta.namespace meta.name ≡ true

  unfoldable pub with_deployment :
      (namespace name : String) → Option Deployment → ObservedClusterState → ObservedClusterState
  with_deployment namespace name d o =
      if is_asked (get_job_manager_deployment_name request.name) namespace name
      then record o { jm_deployment = d }
      else if is_asked (get_task_manager_deployment_name request.name) namespace name
      then record o { tm_deployment = d }
      else o

  unfoldable pub with_config_map :
      (namespace name : String) → Option ConfigMap → ObservedClusterState → ObservedClusterState
  with_config_map namespace name c o =
      if is_asked (get_config_map_name request.name) namespace name
      then record o { config_map = c }
      else o

  unfoldable pub with_service :
      (namespace name : String) → Option Service → ObservedClusterState → ObservedClusterState
  with_service namespace name s o =
      if is_asked (get_job_manager_service_name request.name) namespace name
      then record o { jm_service = s }
      else o

  unfoldable pub with_ingress :
      (namespace name : String) → Option Ingress → ObservedClusterState → ObservedClusterState
  with_ingress namespace name i o =
      if is_asked (get_job_manager_ingress_name request.name) namespace name
      then record o { jm_ingress = i }
      else o

  unfoldable pub applied : Call → ObservedClusterState → ObservedClusterState
  unfolding with_deployment with_config_map with_service with_ingress
  applied (Call.create_config_map c) o = with_config_map c.meta.namespace c.meta.name (some c) o
  applied (Call.create_deployment d) o = with_deployment d.meta.namespace d.meta.name (some d) o
  applied (Call.create_service s) o = with_service s.meta.namespace s.meta.name (some s) o
  applied (Call.create_ingress i) o = with_ingress i.meta.namespace i.meta.name (some i) o
  applied (Call.delete Kind.config_map namespace name) o = with_config_map namespace name none o
  applied (Call.delete Kind.deployment namespace name) o = with_deployment namespace name none o
  applied (Call.delete Kind.service namespace name) o = with_service namespace name none o
  applied (Call.delete Kind.ingress namespace name) o = with_ingress namespace name none o
  applied _ o = o

  unfoldable pub apply_all : List Call → ObservedClusterState → ObservedClusterState
  apply_all [] o = o
  apply_all (c ∷ calls) o = apply_all calls (applied c o)

  pub apply_all-append :
      (xs ys : List Call) (o : ObservedClusterState)
      → apply_all (xs ++ ys) o ≡ apply_all ys (apply_all xs o)
  unfolding apply_all
  apply_all-append [] ys o = refl
  apply_all-append (c ∷ xs) ys o = apply_all-append xs ys (applied c o)

  -- The two deployments have different names.
  pub names_differ :
      (namespace name : String)
      → is_asked (get_task_manager_deployment_name request.name) namespace name ≡ true
      → is_asked (get_job_manager_deployment_name request.name) namespace name ≡ false
  unfolding is_asked get_task_manager_deployment_name get_job_manager_deployment_name
  names_differ namespace name h =
      elim (Bool-cases (name == str_append request.name "-jobmanager")) [
        | inl e ↦
            let is_jm : name ≡ str_append request.name "-jobmanager" = (eq_iff _ _).0 e in
            let is_tm : name ≡ str_append request.name "-taskmanager" =
              (eq_iff _ _).0 (second _ _ h) in
            let suffixes : ◌≡◌ {A = String} "-jobmanager" "-taskmanager" =
              append_cancel_left request.name "-jobmanager" "-taskmanager" (sym is_jm ∙ is_tm) in
            cc ((eq_iff "-jobmanager" "-taskmanager").1 suffixes)
        | inr n ↦ rw n (and-false (namespace == request.namespace))
      ]
