-- ===== src/Controllers/Handler/Updates.antt =====
-- The update of the status within a round, controllers/flinkcluster_updater.go.
use mathlib.Core.List.{append-nil, append_assoc}
use flink_on_k8s_operator.Base.{
  String, Option, none, some, Bool, true, false, ◌≡◌, refl, sym, ◌∙◌, ap, ◌⊎◌, inl, inr, List, [],
  ◌∷◌, ◌++◌, map,
}
use flink_on_k8s_operator.Base.Run.{done, Yields, Yields-of_Yields, Yields-eq}
use flink_on_k8s_operator.K8s.{Job, Ingress}
use flink_on_k8s_operator.Api.{JobSpec, FlinkCluster}
use flink_on_k8s_operator.Webhook.Validate.Create.{NonEmpty, Given, IfGiven}
use flink_on_k8s_operator.Controllers.State.{ObservedClusterState}
use flink_on_k8s_operator.Controllers.Effects.{Error, Call, Env}
use flink_on_k8s_operator.Controllers.Observer.Safety.{HasJob, IfOk, IsObserved}
use flink_on_k8s_operator.Controllers.Observer.Stored.{Holds}
use flink_on_k8s_operator.Controllers.Updater.Changes.{
  StatusEvent, Update, unchanged, write as write_update, update_status_if_changed,
}
use flink_on_k8s_operator.Controllers.Updater.Safety.{
  HasPolicy, IsSound, HasContainer, IsSane, updated, update_status_if_changed-IsSound,
}
use flink_on_k8s_operator.Controllers.Updater.Write.{record_events, perform_update, run_update}
use flink_on_k8s_operator.Controllers.Converter.Objects.Presence.{IsReady}
use flink_on_k8s_operator.Controllers.Reconciler.Round.Wanted.{IsTimed}

-- What holds of a stored cluster: it was defaulted and validated, its status was written by the
-- operator, and its GCP configuration, if any, has a service account.
pub record IsKept (env : Env) (cluster : FlinkCluster) : Type 0 where
  pub sound : IsSound cluster
  pub ready : IsReady cluster
  pub policy : IfGiven (λ job. Given (λ _. Unit) job.cleanup_policy) cluster.spec.job
  pub timed : IfGiven (IsTimed env) cluster.status.components.job

abbrev pub IsKeptJob : Job → Type 0
IsKeptJob job = HasContainer job.pod

abbrev pub IsKeptIngress : Ingress → Type 0
IsKeptIngress ingress = NonEmpty ingress.meta.name

-- The API server keeps such objects.
pub record Keeps (env : Env) : Type 0 where
  pub clusters :
      (log : List Call) (namespace name : String)
      → IfOk (IsKept env) (env.get_cluster log namespace name)
  pub jobs :
      (log : List Call) (namespace name : String) → IfOk IsKeptJob (env.get_job log namespace name)
  pub ingresses :
      (log : List Call) (namespace name : String)
      → IfOk IsKeptIngress (env.get_ingress log namespace name)

-- The events, in their order.
record_events_lem :
    (events : List StatusEvent) (env : Env) (log : List Call)
    → record_events events env log ≡ done (tt, log ++ map Call.event events)
unfolding record_events
record_events_lem [] env log = ap (λ l. done (tt, l)) (sym (append-nil log))
record_events_lem (event ∷ events) env log =
    record_events_lem events env (log ++ Call.event event ∷ [])
    ∙ ap (λ l. done (tt, l)) (append_assoc log (Call.event event ∷ []) (map Call.event events))

-- Nothing, or one report with its error.
abbrev pub IsUpdate : Env → List Call → (Bool × Option Error) × List Call → Type 0
IsUpdate env log ((changed, e), log') =
    ((changed ≡ false) × (e ≡ none) × (log' ≡ log))
    ⊎ ((changed ≡ true)
        × ((events : List StatusEvent) × (cluster : FlinkCluster) × (log'
              ≡ log ++ map Call.event events ++ Call.update_status cluster ∷ [])
            × (e ≡ env.write (log ++ map Call.event events) (Call.update_status cluster))))

perform_update-IsUpdate :
    (cluster : Option FlinkCluster) (update : Update) (env : Env) (log : List Call)
    → Yields (IsUpdate env log) (perform_update cluster update env log)
unfolding perform_update
perform_update-IsUpdate none update env log = inl (refl, refl, refl)
perform_update-IsUpdate (some cluster) unchanged env log = inl (refl, refl, refl)
perform_update-IsUpdate (some cluster) (write_update events status) env log =
    rw (record_events_lem events env log) (inr (refl, (events, _, refl, refl)))

pub run_update-IsUpdate :
    (observed : ObservedClusterState) (env : Env) (log : List Call)
    → Yields (λ _. Unit) (update_status_if_changed "" observed)
    → Yields (IsUpdate env log) (run_update observed env log)
unfolding run_update
run_update-IsUpdate observed env log h =
    let (update, _, e) = Yields-eq (λ _. Unit) (update_status_if_changed "" observed) h in
    rw e (perform_update-IsUpdate observed.cluster update env log)

-- What is known after an observation.
abbrev pub IsKnown : Env → ObservedClusterState → Type 0
IsKnown env o = IsObserved o × Holds env (IsKept env) IsKeptJob IsKeptIngress o

HasPolicy-of_Given :
    (spec : Option JobSpec)
    → Given (λ _. Unit) spec
    → IfGiven (λ job. Given (λ _. Unit) job.cleanup_policy) spec
    → HasPolicy spec
HasPolicy-of_Given none h policy = absurd h
HasPolicy-of_Given (some job) h policy = policy

IsSane-of_IsKnown :
    (env : Env) (o : ObservedClusterState) (cluster : FlinkCluster)
    → o.cluster ≡ some cluster
    → IsKnown env o
    → IsKept env cluster
    → IsSane cluster o
IsSane-of_IsKnown env o cluster e (seen, (_, kept_job, ingress)) kept =
    let own = seen.job in record { job = from o.job (rw e at own) kept_job; ingress = ingress }
  where
    from :
        (j : Option Job)
        → IfGiven (λ _. HasJob (some cluster)) j
        → IfGiven IsKeptJob j
        → IfGiven (λ j. HasPolicy cluster.spec.job × HasContainer j.pod) j
    from none own container = tt
    from (some j) own container = (HasPolicy-of_Given cluster.spec.job own kept.policy, container)

pub update-Yields :
    (env : Env) (o : ObservedClusterState)
    → IsKnown env o
    → Yields (λ _. Unit) (update_status_if_changed "" o)
unfolding update_status_if_changed
update-Yields env o known = from o.cluster refl
  where
    from :
        (c : Option FlinkCluster)
        → o.cluster ≡ c
        → Yields (λ _. Unit) (update_status_if_changed "" o)
    from none e = rw (e, update_status_if_changed) tt
    from (some cluster) e =
        let holds = known.1.0 in
        let kept : IsKept env cluster = rw e at holds in
        Yields-of_Yields (λ update. IsSound (updated cluster update)) (λ _. Unit) _
          (update_status_if_changed-IsSound "" cluster o e kept.sound
            (IsSane-of_IsKnown env o cluster e known kept))
          λ _ _. tt
