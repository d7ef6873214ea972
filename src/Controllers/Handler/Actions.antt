-- ===== src/Controllers/Handler/Actions.antt =====
-- The actions of a round, controllers/flinkcluster_reconciler.go.
use mathlib.Core.List.{append-nil}
use flink_on_k8s_operator.Base.{
  String, Option, none, some, ◌≡◌, sym, List, [], ◌∷◌, All, All-append,
}
use flink_on_k8s_operator.Base.Run.{done, Yields-of_Yields, Yields-eq}
use flink_on_k8s_operator.K8s.{Job}
use flink_on_k8s_operator.Api.{JobSpec, FlinkCluster}
use flink_on_k8s_operator.Webhook.Validate.Create.{Given, IfGiven}
use flink_on_k8s_operator.Controllers.State.{ObservedClusterState, DesiredClusterState}
use flink_on_k8s_operator.Controllers.Util.{get_flink_api_base_url}
use flink_on_k8s_operator.Controllers.Effects.{Error, Call, Env, pure}
use flink_on_k8s_operator.Controllers.Calls.{Added, Calls, Calls->>=, perform-Calls}
use flink_on_k8s_operator.Controllers.Converter.HeapSize.{Float64}
use flink_on_k8s_operator.Controllers.Converter.Desired.{get_desired_cluster_state}
use flink_on_k8s_operator.Controllers.Converter.Desired.Promise.{
  AreDesired, IsDesiredOf, IsDesiredJob,
}
use flink_on_k8s_operator.Controllers.Converter.Desired.Total.{get_desired_cluster_state-AreDesired}
use flink_on_k8s_operator.Controllers.Converter.Objects.Presence.{
  IsReady, IsPortNumber, deref-Yields,
}
use flink_on_k8s_operator.Controllers.Reconciler.Components.{reconcile_components}
use flink_on_k8s_operator.Controllers.Reconciler.Components.Laws.{
  needed, needed_calls, reconcile_components-perform,
}
use flink_on_k8s_operator.Controllers.Reconciler.Round.{
  Requeue, Outcome, reconcile_job, after_components, reconcile_cluster, reconcile_of, reconcile,
}
use flink_on_k8s_operator.Controllers.Reconciler.Round.Safety.{Allowed, reconcile_job-Allowed}
use flink_on_k8s_operator.Controllers.Handler.{take_actions}
use flink_on_k8s_operator.Controllers.Handler.Updates.{IsKept}

-- The calls of the reconciler: on the objects of the cluster, and on Flink.
abbrev pub IsAction : Call → Type 0
IsAction (Call.get kind namespace name) = ⊥
IsAction (Call.list_jobs url) = ⊥
IsAction (Call.event event) = ⊥
IsAction _ = Unit

needed-All :
    {A : Type 0} (create delete : A → Call) (d o : Option A)
    → ((a : A) → IsAction (create a))
    → ((a : A) → IsAction (delete a))
    → All IsAction (needed create delete d o)
needed-All create delete (some d) none h k = (h d, tt)
needed-All create delete none (some o) h k = (k o, tt)
needed-All create delete (some d) (some o) h k = tt
needed-All create delete none none h k = tt

needed_calls-All :
    (o : ObservedClusterState) (d : DesiredClusterState) → All IsAction (needed_calls o d)
needed_calls-All o d =
    All-append IsAction _ _ (needed-All _ _ d.config_map o.config_map (λ _. tt) (λ _. tt)) (
      All-append IsAction _ _ (needed-All _ _ d.jm_deployment o.jm_deployment (λ _. tt) (λ _. tt)) (
        All-append IsAction _ _ (needed-All _ _ d.jm_service o.jm_service (λ _. tt) (λ _. tt)) (
          All-append IsAction _ _ (needed-All _ _ d.jm_ingress o.jm_ingress (λ _. tt) (λ _. tt))
            (needed-All _ _ d.tm_deployment o.tm_deployment (λ _. tt) (λ _. tt)))))

reconcile_components-Calls :
    (o : ObservedClusterState) (d : DesiredClusterState) (env : Env) (log : List Call)
    → Calls IsAction (reconcile_components o d) env log
reconcile_components-Calls o d env log =
    rw (reconcile_components-perform o d env log)
      (perform-Calls IsAction (needed_calls o d) env log (needed_calls-All o d))

IsAction-of_Allowed :
    (cluster : FlinkCluster) (o : ObservedClusterState) (desired job : Option Job) (c : Call)
    → Allowed cluster o desired job c
    → IsAction c
IsAction-of_Allowed cluster o desired job (Call.get kind namespace name) h = h
IsAction-of_Allowed cluster o desired job (Call.list_jobs url) h = h
IsAction-of_Allowed cluster o desired job (Call.event event) h = h
IsAction-of_Allowed cluster o desired job c h = tt

All-of_All :
    (P Q : Call → Type 0) (calls : List Call) → ((c : Call) → P c → Q c) → All P calls → All Q calls
All-of_All P Q [] h all = tt
All-of_All P Q (c ∷ calls) h (p, all) = (h c p, All-of_All P Q calls h all)

job_wanted :
    (spec : Option JobSpec) (cluster : FlinkCluster) (desired : Option Job)
    → IsDesiredJob cluster spec desired
    → IfGiven (λ _. Given (λ _. Unit) spec) desired
job_wanted spec cluster none h = tt
job_wanted none cluster (some desired) h = absurd h.0
job_wanted (some job) cluster (some desired) h = tt

url_given :
    (cluster : FlinkCluster)
    → IsReady cluster
    → (url : String) × (get_flink_api_base_url cluster ≡ done url)
unfolding get_flink_api_base_url
url_given cluster ready =
    let (url, _, e) =
      Yields-eq (λ _. Unit) (get_flink_api_base_url cluster)
        (deref-Yields IsPortNumber (λ _. Unit) cluster.spec.job_manager.ports.ui _
          ready.job_manager.ui λ ui. tt) in
    (url, e)

reconcile_job-Calls :
    (cluster : FlinkCluster) (o : ObservedClusterState) (d : DesiredClusterState) (env : Env)
    (log : List Call)
    → IsKept env cluster
    → IsDesiredOf cluster d
    → Calls IsAction (reconcile_job cluster o d.job o.job) env log
reconcile_job-Calls cluster o d env log kept desired =
    let (url, at) = url_given cluster kept.ready in
    Yields-of_Yields (Added (Allowed cluster o d.job o.job) log) (Added IsAction log) _
      (reconcile_job-Allowed cluster o d.job o.job url env log at kept.timed
        (job_wanted cluster.spec.job cluster d.job desired.job))
      λ (out, log') (calls, e, all).
        (calls, e, All-of_All _ IsAction calls (IsAction-of_Allowed cluster o d.job o.job) all)

nothing-Added : {A : Type 0} (a : A) (log : List Call) → Added IsAction log (a, log)
nothing-Added a log = ([], sym (append-nil log), tt)

reconcile-Calls :
    (o : ObservedClusterState) (d : DesiredClusterState) (env : Env) (log : List Call)
    → IfGiven (IsKept env) o.cluster
    → AreDesired o.cluster d
    → Calls IsAction (reconcile o d) env log
unfolding reconcile reconcile_cluster
reconcile-Calls o d env log kept desired = from o.cluster kept desired
  where
    step :
        (cluster : FlinkCluster)
        → IsKept env cluster
        → IsDesiredOf cluster d
        → (e : Option Error) (log' : List Call)
        → Calls IsAction (after_components e (reconcile_job cluster o d.job o.job)) env log'
    step cluster kept desired (some e) log' =
        nothing-Added {A = Outcome} (Requeue.finished, some e) log'
    step cluster kept desired none log' =
        Calls->>= IsAction (reconcile_job cluster o d.job o.job)
          (λ (result, _). pure (result, none)) env log'
          (reconcile_job-Calls cluster o d env log' kept desired)
          λ (result, _) log''. nothing-Added {A = Outcome} (result, none) log''

    from :
        (c : Option FlinkCluster)
        → IfGiven (IsKept env) c
        → AreDesired c d
        → Calls IsAction (reconcile_of c o d) env log
    from none kept desired = nothing-Added {A = Outcome} (Requeue.finished, none) log
    from (some cluster) kept desired =
        Calls->>= IsAction (reconcile_components o d)
          (λ e. after_components e (reconcile_job cluster o d.job o.job)) env log
          (reconcile_components-Calls o d env log) (step cluster kept desired)

pub take_actions-Calls :
    (f : Float64) (o : ObservedClusterState) (env : Env) (log : List Call)
    → IfGiven (IsKept env) o.cluster
    → Calls IsAction (take_actions f o) env log
unfolding take_actions
take_actions-Calls f o env log kept =
    let (d, desired, e) =
      Yields-eq (AreDesired o.cluster) (get_desired_cluster_state f o.cluster)
        (get_desired_cluster_state-AreDesired f o.cluster (ready_of o.cluster kept)) in
    rw e (reconcile-Calls o d env log kept desired)
  where
    ready_of : (c : Option FlinkCluster) → IfGiven (IsKept env) c → IfGiven IsReady c
    ready_of none h = tt
    ready_of (some cluster) h = h.ready
