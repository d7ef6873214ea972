-- ===== src/Controllers/Reconciler/Round/Submission.antt =====
-- How a round submits, restarts and lists jobs: controllers/flinkcluster_reconciler.go against the
-- calls that the difference of the two states asks for.
use flink_on_k8s_operator.Base.{
  String, Option, none, some, ◌≡◌, refl, sym, ap, ◌∙◌, List, [], ◌∷◌, ◌++◌, map,
}
use flink_on_k8s_operator.Base.Run
use flink_on_k8s_operator.Base.Run.{Run, done, panic, >>=-cong}
use flink_on_k8s_operator.K8s.{Job}
use flink_on_k8s_operator.Api.{FlinkCluster}
use flink_on_k8s_operator.Controllers.State.{FlinkJob, ObservedClusterState, DesiredClusterState}
use flink_on_k8s_operator.Controllers.Util.{get_flink_api_base_url}
use flink_on_k8s_operator.Controllers.Effects.{Error, Kind, Call, Env, M, ◌>>=◌}
use flink_on_k8s_operator.Controllers.Calls.{perform, perform_one, perform->>=, Same, IsPerformed}
use flink_on_k8s_operator.Controllers.Reconciler.Components.Laws.{
  deletion, needed_calls, reconcile_components-perform,
}
use flink_on_k8s_operator.Controllers.Reconciler.Savepoints.Cancellation.{
  stop_call, cancel_running_jobs-perform,
}
use flink_on_k8s_operator.Controllers.Reconciler.Round.{
  Requeue, Outcome, requeue_result, then_requeue, after_components, create_job, delete_job,
  restart_job, submit_job, reconcile_job, reconcile_cluster, reconcile_of, reconcile,
}

pub some-injective : {A : Type 0} {a b : A} → some a ≡ some b → a ≡ b
some-injective e = cc

module _ (cluster : FlinkCluster) where
  pub after_components-cong :
      (m n : M Outcome) (e : Option Error)
      → Same m n
      → Same (after_components e m) (after_components e n)
  after_components-cong m n none h env log =
      ap (λ r. Run.◌>>=◌ r (λ ((result, _), log'). done ((result, none), log'))) (h env log)
  after_components-cong m n (some e) h env log = refl

  pub reconcile_cluster-cong :
      (observed : ObservedClusterState) (desired : DesiredClusterState) (n : M Outcome)
      → Same (reconcile_job cluster observed desired.job observed.job) n
      → Same
          (reconcile_cluster cluster observed desired)
          (perform (needed_calls observed desired) >>= λ e. after_components e n)
  unfolding reconcile_cluster
  reconcile_cluster-cong observed desired n h env log =
      ap
        (λ r. Run.◌>>=◌ r (λ (x, log').
          after_components x (reconcile_job cluster observed desired.job observed.job) env log'))
        (reconcile_components-perform observed desired env log)
      ∙ >>=-cong (perform (needed_calls observed desired) env log)
          (λ (x, log').
            after_components x (reconcile_job cluster observed desired.job observed.job) env log')
          (λ (x, log'). after_components x n env log')
          (λ (x, log'). after_components-cong _ n x h env log')

  pub reconcile-some :
      (observed : ObservedClusterState) (desired : DesiredClusterState)
      → observed.cluster ≡ some cluster
      → Same (reconcile observed desired) (reconcile_cluster cluster observed desired)
  unfolding reconcile
  reconcile-some observed desired e env log = ap (λ c. reconcile_of c observed desired env log) e

module _ (cluster : FlinkCluster) (url : String)
    (at : get_flink_api_base_url cluster ≡ done url) where
  -- The calls for a desired job that has no resource: none before Flink has listed its jobs, then the
  -- running ones are stopped, and a job is submitted only when none runs.
  abbrev pub submission : Job → Option (List FlinkJob) → List String → List Call
  submission desired none ids = []
  submission desired (some jobs) (id ∷ ids) = map (stop_call url) (id ∷ ids)
  submission desired (some jobs) [] = Call.create_job desired ∷ []

  pub submit_job-perform :
      (observed : ObservedClusterState) (desired : Job) (jobs : Option (List FlinkJob))
      (ids : List String)
      → Same
          (submit_job cluster observed desired jobs ids)
          (then_requeue (perform (submission desired jobs ids)))
  unfolding submit_job create_job perform
  submit_job-perform observed desired none ids env log = refl
  submit_job-perform observed desired (some jobs) (id ∷ ids) env log =
      ap (λ r. Run.◌>>=◌ r (λ (e, log'). done ((requeue_result, e), log')))
        (cancel_running_jobs-perform cluster url at (id ∷ ids) env log)
  submit_job-perform observed desired (some jobs) [] env log = sym (
      ap (λ r. Run.◌>>=◌ r (λ (e, log'). done ((requeue_result, e), log')))
        (perform_one (Call.create_job desired) env log))

  -- Restarting a job stops the running jobs in their order, then deletes the job resource, up to the
  -- first error; no new job is submitted.
  pub restart_job-perform :
      (observed : ObservedClusterState) (job : Job)
      → Same (restart_job cluster observed job) (
          perform
            (map (stop_call url) observed.flink_running_job_ids ++ deletion Kind.job job.meta ∷ []))
  unfolding restart_job delete_job
  restart_job-perform observed job =
      perform->>= _ _ (map (stop_call url) observed.flink_running_job_ids)
        (deletion Kind.job job.meta ∷ [])
        (cancel_running_jobs-perform cluster url at observed.flink_running_job_ids)
        (λ env log. sym (perform_one (deletion Kind.job job.meta) env log))

  -- What follows the calls for the components: their error ends the round with no further call; else
  -- the calls for the job, up to their first error, which is not reported.
  abbrev pub IsFollowed : List Call → Env → List Call → Option Error → Outcome × List Call → Type 0
  IsFollowed calls env log' (some e) (out, log'') =
      (out ≡ (Requeue.finished, some e)) × (log'' ≡ log')
  IsFollowed calls env log' none (out, log'') =
      (out ≡ (Requeue.requeue 10, none))
      × ((e : Option Error) × IsPerformed calls env log' (e, log''))

  abbrev pub IsSubmission :
      ObservedClusterState
      → DesiredClusterState
      → Job
      → Env
      → List Call
      → Outcome × List Call
      → Type 0
  IsSubmission observed desired job env log end =
      (e : Option Error) × (log' : List Call) × IsPerformed (needed_calls observed desired) env log
        (e, log')
      × IsFollowed (submission job observed.flink_job_list observed.flink_running_job_ids) env log'
          e end
