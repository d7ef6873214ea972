-- ===== src/Controllers/Handler.antt =====
-- A reconcile request from beginning to end, controllers/flinkcluster_controller.go.
pub mod Updates
pub mod Actions
pub mod Safety
pub mod Settling
pub mod Tests
use flink_on_k8s_operator.Base.{
  String, Option, none, some, Bool, true, false, not, ◌&&◌, ◌==◌, is_empty, if◌then◌else◌,
}
use flink_on_k8s_operator.Controllers.State.{ObservedClusterState}
use flink_on_k8s_operator.Controllers.Effects.{Error, Result, ok, err, M, pure, ◌>>=◌, lift}
use flink_on_k8s_operator.Controllers.Observer.{Request, observe}
use flink_on_k8s_operator.Controllers.Updater.Write.{run_update}
use flink_on_k8s_operator.Controllers.Converter.HeapSize.{Float64}
use flink_on_k8s_operator.Controllers.Converter.Desired.{get_desired_cluster_state}
use flink_on_k8s_operator.Controllers.Reconciler.Round.{Requeue, Outcome, reconcile}

-- A watched namespace that is set leaves the others out.
abbrev pub is_ignored : String → Request → Bool
is_ignored watch_namespace request =
    not (is_empty watch_namespace) && not (watch_namespace == request.namespace)

module _ (f : Float64) where
  -- Steps 3 and 4: compute the desired state, and take actions.
  unfoldable pub take_actions : ObservedClusterState → M Outcome
  unfolding get_desired_cluster_state reconcile
  take_actions observed =
      lift (get_desired_cluster_state f observed.cluster) >>= λ desired. reconcile observed desired

  -- A changed status is left to settle for five seconds.
  unfoldable pub after_update : ObservedClusterState → Bool × Option Error → M Outcome
  unfolding take_actions
  after_update observed (_, some e) = pure (Requeue.finished, some e)
  after_update observed (true, none) = pure (Requeue.requeue 5, none)
  after_update observed (false, none) = take_actions observed

  unfoldable pub after_observe : Result ObservedClusterState → M Outcome
  unfolding after_update run_update
  after_observe (err e) = pure (Requeue.finished, some e)
  after_observe (ok observed) = run_update observed >>= after_update observed

  unfoldable pub reconcile_request : (watch_namespace : String) → Request → M Outcome
  unfolding after_observe observe
  reconcile_request watch_namespace request =
      if is_ignored watch_namespace request
      then pure (Requeue.finished, none)
      else (observe request >>= after_observe)
