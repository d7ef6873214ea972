-- ===== src/Controllers/Reconciler/Round.antt =====
-- The step of the job, and the whole round.
pub mod Submission
pub mod Removal
pub mod Guards
pub mod Wanted
pub mod Safety
pub mod Tests
use flink_on_k8s_operator.Base.{
  ℕ, String, Option, none, some, Bool, true, false, List, [], ◌∷◌, is_empty, if◌then◌else◌,
}
use flink_on_k8s_operator.Base.Run.{Run, done, panic, deref}
use flink_on_k8s_operator.K8s.{Job}
use flink_on_k8s_operator.Api.{FlinkCluster}
use flink_on_k8s_operator.Controllers.State.{FlinkJob, ObservedClusterState, DesiredClusterState}
use flink_on_k8s_operator.Controllers.Util.{should_restart_job}
use flink_on_k8s_operator.Controllers.Effects.{
  Error, Kind, Call, M, pure, ◌>>=◌, lift, write, and_then,
}
use flink_on_k8s_operator.Controllers.Reconciler.Components.{delete, reconcile_components}
use flink_on_k8s_operator.Controllers.Reconciler.Savepoints.{
  is_job_stopped, get_flink_job_id, should_take_savepoint, save_job, cancel_flink_job,
  cancel_running_jobs,
}

-- `ctrl.Result`: `requeue n` asks for another round in n seconds.
pub data Requeue : Type 0 where
  finished : Requeue
  requeue : ℕ → Requeue

abbrev pub Outcome : Type 0
Outcome = Requeue × Option Error

-- `requeueResult`
abbrev pub requeue_result : Requeue
requeue_result = Requeue.requeue 10

unfoldable pub create_job : Job → M (Option Error)
create_job job = write (Call.create_job job)

unfoldable pub delete_job : Job → M (Option Error)
delete_job job = delete Kind.job job.meta

abbrev pub then_requeue : M (Option Error) → M Outcome
then_requeue m = m >>= λ e. pure (requeue_result, e)

module _ (cluster : FlinkCluster) (observed : ObservedClusterState) where
  unfoldable pub restart_job : Job → M (Option Error)
  unfolding delete_job
  restart_job job = cancel_running_jobs cluster false observed.flink_running_job_ids >>= λ e.
      and_then e (delete_job job)

  -- Whether a job may be submitted is read from the Flink REST API.
  unfoldable pub submit_job : Job → Option (List FlinkJob) → List String → M Outcome
  submit_job desired none ids = pure (requeue_result, none)
  submit_job desired (some jobs) (id ∷ ids) =
      then_requeue (cancel_running_jobs cluster false (id ∷ ids))
  submit_job desired (some jobs) [] = then_requeue (create_job desired)

  abbrev pub after_restart : Option Error → Outcome
  after_restart none = (Requeue.finished, none)
  after_restart (some e) = (requeue_result, some e)

  -- `len(jobID) > 0 && reconciler.shouldTakeSavepoint(jobID)`
  unfoldable pub wants_savepoint : M Bool
  wants_savepoint =
      if is_empty (get_flink_job_id cluster) then pure false else should_take_savepoint cluster

  -- The error of this savepoint is dropped.
  unfoldable pub save_if_wanted : M Unit
  unfolding wants_savepoint
  save_if_wanted = wants_savepoint >>= λ wanted.
      if wanted then (save_job cluster (get_flink_job_id cluster) >>= λ e. pure tt) else pure tt

  -- A job that has ended needs no further round.
  abbrev pub kept : Outcome
  kept = if is_job_stopped cluster then (Requeue.finished, none) else (requeue_result, none)

  unfoldable pub keep_job : Job → M Outcome
  unfolding save_if_wanted
  keep_job job = lift (deref cluster.spec.job) >>= λ spec.
      if should_restart_job spec.restart_policy cluster.status.components.job
      then (restart_job job >>= λ e. pure (after_restart e))
      else (save_if_wanted >>= λ _. pure kept)

  -- The cancellation of a job that is no longer desired.
  unfoldable pub stop_undesired : M (Option Error)
  stop_undesired =
      if is_empty (get_flink_job_id cluster)
      then pure none
      else cancel_flink_job cluster (get_flink_job_id cluster) true

  abbrev pub after_stop : Job → Option Error → M Outcome
  after_stop job (some _) = pure (requeue_result, none)
  after_stop job none = delete_job job >>= λ e. pure (Requeue.finished, e)

  unfoldable pub remove_job : Job → M Outcome
  unfolding delete_job
  remove_job job = stop_undesired >>= after_stop job

  unfoldable pub reconcile_job : Option Job → Option Job → M Outcome
  unfolding submit_job
  reconcile_job (some desired) none =
      submit_job desired observed.flink_job_list observed.flink_running_job_ids
  reconcile_job (some desired) (some job) = keep_job job
  reconcile_job none (some job) = remove_job job
  reconcile_job none none = pure (Requeue.finished, none)

-- The step of the job follows if no component had an error; the error of that step is dropped.
abbrev pub after_components : Option Error → M Outcome → M Outcome
after_components (some e) next = pure (Requeue.finished, some e)
after_components none next = next >>= λ (result, _). pure (result, none)

unfoldable pub reconcile_cluster :
    FlinkCluster → ObservedClusterState → DesiredClusterState → M Outcome
reconcile_cluster cluster observed desired = reconcile_components observed desired >>= λ e.
    after_components e (reconcile_job cluster observed desired.job observed.job)

-- A cluster that is gone has its objects collected by Kubernetes.
abbrev pub reconcile_of :
    Option FlinkCluster → ObservedClusterState → DesiredClusterState → M Outcome
reconcile_of none observed desired = pure (Requeue.finished, none)
reconcile_of (some cluster) observed desired = reconcile_cluster cluster observed desired

unfoldable pub reconcile : ObservedClusterState → DesiredClusterState → M Outcome
reconcile observed desired = reconcile_of observed.cluster observed desired
