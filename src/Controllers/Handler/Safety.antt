-- ===== src/Controllers/Handler/Safety.antt =====
-- What a whole round may do, controllers/flinkcluster_controller.go.
use flink_on_k8s_operator.Base.{
  ◌≢◌, ◌↔◌, is_empty, eq_iff, arith, String, Option, none, some, Bool, true, false, ◌≡◌, refl, ap,
  ◌⊎◌, inl, inr, List, [], ◌∷◌, ◌++◌, map,
}
use flink_on_k8s_operator.Base.Run.{Yields, Yields->>=, Yields-of_Yields, Yields-both}
use flink_on_k8s_operator.Api.{FlinkCluster}
use flink_on_k8s_operator.Webhook.Validate.Create.{IfGiven}
use flink_on_k8s_operator.Controllers.State.{ObservedClusterState}
use flink_on_k8s_operator.Controllers.Effects.{Error, Result, ok, err, Call, Env, pure, ◌>>=◌}
use flink_on_k8s_operator.Controllers.Calls.{Added}
use flink_on_k8s_operator.Controllers.Observer.{Request, observe}
use flink_on_k8s_operator.Controllers.Observer.Listed.{HasPort}
use flink_on_k8s_operator.Controllers.Observer.Safety.{
  IfOk, Outcome as ObserverOutcome, observe-Outcome,
}
use flink_on_k8s_operator.Controllers.Observer.Stored.{Reads, Holds, IsStored, observe-IsStored}
use flink_on_k8s_operator.Controllers.Updater.Changes.{StatusEvent}
use flink_on_k8s_operator.Controllers.Updater.Write.{run_update}
use flink_on_k8s_operator.Controllers.Converter.HeapSize.{Float64}
use flink_on_k8s_operator.Controllers.Converter.Desired.Total.{Given-any}
use flink_on_k8s_operator.Controllers.Converter.Objects.Presence.{IsPortNumber}
use flink_on_k8s_operator.Controllers.Reconciler.Round.{Requeue, Outcome}
use flink_on_k8s_operator.Controllers.Handler.{
  is_ignored, take_actions, after_update, after_observe, reconcile_request,
}
use flink_on_k8s_operator.Controllers.Handler.Updates.{
  IsKept, IsKeptJob, IsKeptIngress, Keeps, IsUpdate, run_update-IsUpdate, IsKnown, update-Yields,
}
use flink_on_k8s_operator.Controllers.Handler.Actions.{IsAction, take_actions-Calls}

-- The result of a round that wrote the status.
abbrev pub after_write : Option Error → Outcome
after_write none = (Requeue.requeue 5, none)
after_write (some e) = (Requeue.finished, some e)

-- The status was written once, after events alone.
abbrev pub IsReported : Env → List Call → Outcome × List Call → Type 0
IsReported env log (out, log') =
    (events : List StatusEvent) × (cluster : FlinkCluster) × (log'
      ≡ log ++ map Call.event events ++ Call.update_status cluster ∷ [])
    × (out ≡ after_write (env.write (log ++ map Call.event events) (Call.update_status cluster)))

-- A round reads; then it ends with an error, reports a changed status, or takes actions.
abbrev pub IsRound : Env → List Call → Outcome × List Call → Type 0
IsRound env log (out, log'') =
    (log' : List Call) × Reads log log'
    × (((log'' ≡ log') × ((e : Error) × (out ≡ (Requeue.finished, some e))))
        ⊎ IsReported env log' (out, log'')
        ⊎ Added IsAction log' (out, log''))

-- A namespace is watched, and the request is from another one.
abbrev pub IsForeign : String → Request → Type 0
IsForeign watch_namespace request = (watch_namespace ≢ "") × (watch_namespace ≢ request.namespace)

-- All namespaces are watched, or that of the request.
abbrev pub IsWatched : String → Request → Type 0
IsWatched watch_namespace request = (watch_namespace ≡ "") ⊎ (watch_namespace ≡ request.namespace)

is_empty_iff : (s : String) → (is_empty s ≡ true) ↔ (s ≡ "")
is_empty_iff String.[] = (λ _. refl, λ _. refl)
is_empty_iff (String.◌∷◌ c s) = (λ e. cc, λ e. ap is_empty e)

is_ignored_cases :
    (watch_namespace : String) (request : Request)
    → ((is_ignored watch_namespace request ≡ true) × IsForeign watch_namespace request)
      ⊎ ((is_ignored watch_namespace request ≡ false) × IsWatched watch_namespace request)
is_ignored_cases watch_namespace request =
    ground (arith, eq_iff watch_namespace request.namespace, is_empty_iff watch_namespace)

-- The end of a round, after its reads.
IsEnd : Env → List Call → Outcome × List Call → Type 0
IsEnd env log end = IsReported env log end ⊎ Added IsAction log end

no_change :
    (f : Float64) (o : ObservedClusterState) → after_update f o (false, none) ≡ take_actions f o
unfolding after_update
no_change f o = refl

after_change :
    (f : Float64) (o : ObservedClusterState) (e : Option Error)
    → after_update f o (true, e) ≡ pure (after_write e)
unfolding after_update
after_change f o none = refl
after_change f o (some e) = refl

after_update-IsEnd :
    (f : Float64) (o : ObservedClusterState) (env : Env) (log log' : List Call) (changed : Bool)
    (e : Option Error)
    → IfGiven (IsKept env) o.cluster
    → IsUpdate env log ((changed, e), log')
    → Yields (IsEnd env log) (after_update f o (changed, e) env log')
unfolding IsEnd
after_update-IsEnd f o env log log' changed e kept (inl (same, fine, there)) =
    rw (same, fine, there, no_change f o)
      (Yields-of_Yields (Added IsAction log) (IsEnd env log) (take_actions f o env log)
        (take_actions-Calls f o env log kept) λ end added. inr added)
after_update-IsEnd f o env log log' changed e kept (inr (new, (events, cluster, there, answer))) =
    rw (new, after_change f o e) (inl (events, cluster, there, ap after_write answer))

after_observe-IsEnd :
    (f : Float64) (o : ObservedClusterState) (env : Env) (log : List Call)
    → IsKnown env o
    → Yields (IsEnd env log) (after_observe f (ok o) env log)
unfolding after_observe
after_observe-IsEnd f o env log known =
    Yields->>= (IsUpdate env log) (IsEnd env log) (run_update o env log) _
      (run_update-IsUpdate o env log (update-Yields env o known))
      λ ((changed, e), log') update. after_update-IsEnd f o env log log' changed e known.1.0 update

has_port : (env : Env) (cluster : FlinkCluster) → IsKept env cluster → HasPort cluster
has_port env cluster kept =
    Given-any IsPortNumber cluster.spec.job_manager.ports.ui kept.ready.job_manager.ui

-- Assumed is that every stored cluster passed the webhooks and has a service account in its GCP
-- configuration, if it has one, which the webhooks do not see to; that its status is as the
-- operator wrote it, with a job in the spec behind a recorded job and a readable time of the
-- last savepoint; and that stored jobs have a container and stored ingresses a name. Then a
-- round ends without a panic. A request from another namespace than the one watched, if one is
-- set, makes no call at all. Any other first reads only. Then it ends with an error, or it
-- reports a changed status, by events and one write, and ends with the error of the write or
-- asks for the next round in five seconds; or it takes actions. So no round that reports a
-- change acts on the objects of the cluster or on Flink, and no other round records events.
pub reconcile_request-IsRound :
    (f : Float64) (watch_namespace : String) (request : Request) (env : Env) (log : List Call)
    → Keeps env
    → Yields
        (λ end.
          (IsForeign watch_namespace request × (end ≡ ((Requeue.finished, none), log)))
          ⊎ (IsWatched watch_namespace request × IsRound env log end))
        (reconcile_request f watch_namespace request env log)
unfolding reconcile_request IsEnd
reconcile_request-IsRound f watch_namespace request env log keeps =
    elim (is_ignored_cases watch_namespace request) [
      | inl (e, foreign) ↦ rw e (inl (foreign, refl))
      | inr (e, watched) ↦
          rw e (Yields-of_Yields (IsRound env log) _ _ a_round λ end ended. inr (watched, ended))
    ]
  where
    end_of :
        (log' : List Call) (end : Outcome × List Call)
        → Reads log log'
        → IsEnd env log' end
        → IsRound env log end
    end_of log' (out, log'') reads (inl reported) = (log', reads, inr (inl reported))
    end_of log' (out, log'') reads (inr acted) = (log', reads, inr (inr acted))

    ok_port : (r : Result FlinkCluster) → IfOk (IsKept env) r → IfOk HasPort r
    ok_port (ok c) h = has_port env c h
    ok_port (err e) h = tt

    facts :
        (log' : List Call) (r : Result ObservedClusterState)
        → ObserverOutcome env (r, log')
        → IfOk (Holds env (IsKept env) IsKeptJob IsKeptIngress) r
        → IfOk (IsKnown env) r
    facts log' (ok o) seen holds = (seen.0, holds)
    facts log' (err e) seen holds = tt

    after :
        (r : Result ObservedClusterState) (log' : List Call)
        → Reads log log'
        → IfOk (IsKnown env) r
        → Yields (IsRound env log) (after_observe f r env log')
    after (err e) log' reads known = (log', reads, inl (refl, (e, refl)))
    after (ok o) log' reads known =
        Yields-of_Yields (IsEnd env log') (IsRound env log) _
          (after_observe-IsEnd f o env log' known) λ end ends. end_of log' end reads ends

    a_round : Yields (IsRound env log) ((observe request >>= after_observe f) env log)
    a_round =
        Yields->>=
          (λ end.
            ObserverOutcome env end × IsStored env (IsKept env) IsKeptJob IsKeptIngress log end)
          (IsRound env log) (observe request env log) (λ (r, log'). after_observe f r env log')
          (Yields-both (ObserverOutcome env) (IsStored env (IsKept env) IsKeptJob IsKeptIngress log)
            (observe request env log)
            (observe-Outcome request env log λ log namespace name.
              ok_port (env.get_cluster log namespace name) (keeps.clusters log namespace name))
            (observe-IsStored env (IsKept env) IsKeptJob IsKeptIngress log (has_port env) keeps.jobs
              request keeps.clusters keeps.ingresses))
          λ (r, log') (seen, (reads, holds)). after r log' reads (facts log' r seen holds)
