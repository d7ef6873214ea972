-- ===== src/Controllers/Reconciler/Round/Removal.antt =====
-- How a round removes a job that is no longer desired, controllers/flinkcluster_reconciler.go.
use flink_on_k8s_operator.Base.{
  String, Option, none, some, true, false, ◌≡◌, refl, ap, ◌∙◌, ◌⊎◌, inl, inr, List, [], ◌∷◌, ◌++◌,
  is_empty,
}
use flink_on_k8s_operator.Base.Run
use flink_on_k8s_operator.Base.Run.{Run, done, panic, Yields, Yields->>=, Yields-eq, >>=-cong}
use flink_on_k8s_operator.K8s.{Job}
use flink_on_k8s_operator.Api.{JobStatus, FlinkCluster}
use flink_on_k8s_operator.Controllers.State.{ObservedClusterState, DesiredClusterState}
use flink_on_k8s_operator.Controllers.Util.{get_flink_api_base_url}
use flink_on_k8s_operator.Controllers.Effects.{Error, Kind, Call, Env}
use flink_on_k8s_operator.Controllers.Calls.{perform, Same, answer}
use flink_on_k8s_operator.Controllers.Reconciler.Components.Laws.{deletion, needed_calls}
use flink_on_k8s_operator.Controllers.Reconciler.Savepoints.{get_flink_job_id, cancel_flink_job}
use flink_on_k8s_operator.Controllers.Reconciler.Savepoints.Cancellation.{
  stop_url, stop_call, IsStopped, cancel_flink_job-IsStopped,
}
use flink_on_k8s_operator.Controllers.Reconciler.Round.{
  Requeue, Outcome, requeue_result, after_components, after_stop, delete_job, stop_undesired,
  remove_job, reconcile_job, reconcile,
}
use flink_on_k8s_operator.Controllers.Reconciler.Round.Submission.{
  some-injective, after_components-cong, reconcile_cluster-cong, reconcile-some,
}

module _ (cluster : FlinkCluster) (url : String)
    (at : get_flink_api_base_url cluster ≡ done url) where
  module _ (recorded : JobStatus)
      (is_recorded : cluster.status.components.job ≡ some recorded) where
    abbrev pub IsRemoved :
        ObservedClusterState → Job → Env → List Call → Outcome × List Call → Type 0
    IsRemoved observed job env log ((result, e), log') =
        ((x : Error) × (cancel_flink_job cluster recorded.id true env log ≡ done (some x, log'))
          × (result ≡ requeue_result)
          × (e ≡ none))
        ⊎ ((before : List Call) × (env.stop before (stop_url url recorded.id) ≡ none)
            × (log' ≡ before ++ stop_call url recorded.id ∷ [] ++ deletion Kind.job job.meta ∷ [])
            × (result ≡ Requeue.finished)
            × (e
                ≡ answer env (before ++ stop_call url recorded.id ∷ [])
                    (deletion Kind.job job.meta)))

    get_flink_job_id-recorded : get_flink_job_id cluster ≡ recorded.id
    unfolding get_flink_job_id
    get_flink_job_id-recorded = rw is_recorded refl

    stop_undesired-cancel :
        (observed : ObservedClusterState) (env : Env) (log : List Call)
        → is_empty recorded.id ≡ false
        → stop_undesired cluster observed env log
          ≡ cancel_flink_job cluster recorded.id true env log
    unfolding stop_undesired
    stop_undesired-cancel observed env log h = rw (get_flink_job_id-recorded, h) refl

    after_stop-IsRemoved :
        (observed : ObservedClusterState) (job : Job) (env : Env) (log : List Call)
        (e : Option Error) (log' : List Call)
        → IsStopped cluster url at recorded.id env (e, log')
        → cancel_flink_job cluster recorded.id true env log ≡ done (e, log')
        → Yields (IsRemoved observed job env log) (after_stop cluster observed job e env log')
    unfolding delete_job
    after_stop-IsRemoved observed job env log (some x) log' s c = inl (x, c, refl, refl)
    after_stop-IsRemoved observed job env log none log' (before, e, stops) c = inr (
      before,
      stops,
      ap (λ l. l ++ deletion Kind.job job.meta ∷ []) e,
      refl,
      ap (λ l. answer env l (deletion Kind.job job.meta)) e,
    )

    -- The resource of a job that is no longer desired, and whose Flink job is recorded, is deleted only
    -- right after Flink accepted to stop that job; when the cancellation fails the round makes no
    -- further call, reports no error and asks for another round.
    pub remove_job-IsRemoved :
        (observed : ObservedClusterState) (job : Job) (env : Env) (log : List Call)
        → is_empty recorded.id ≡ false
        → Yields (IsRemoved observed job env log) (remove_job cluster observed job env log)
    unfolding remove_job
    remove_job-IsRemoved observed job env log h =
        let ((e, log'), stopped, c) =
          Yields-eq (IsStopped cluster url at recorded.id env)
            (cancel_flink_job cluster recorded.id true env log)
            (cancel_flink_job-IsStopped cluster url at recorded is_recorded recorded.id true env
              log) in
        rw (stop_undesired-cancel observed env log h, c)
          (after_stop-IsRemoved observed job env log e log' stopped c)

module _ (cluster : FlinkCluster) where
  -- What the step of the job returns, its error apart, is what the round returns once the components
  -- are as desired.
  reconcile-settled :
      (observed : ObservedClusterState) (desired : DesiredClusterState)
      → observed.cluster ≡ some cluster
      → needed_calls observed desired ≡ []
      → Same
          (reconcile observed desired)
          (after_components none (reconcile_job cluster observed desired.job observed.job))
  unfolding perform
  reconcile-settled observed desired e f env log =
      reconcile-some cluster observed desired e env log
      ∙ reconcile_cluster-cong cluster observed desired
          (reconcile_job cluster observed desired.job observed.job) (λ env log. refl) env log
      ∙ ap
          (λ calls. Run.◌>>=◌ (perform calls env log) (λ (x, log').
            after_components x (reconcile_job cluster observed desired.job observed.job) env log'))
          f

  removal-Same :
      (observed : ObservedClusterState) (job : Job) (d o : Option Job)
      → d ≡ none
      → o ≡ some job
      → Same (reconcile_job cluster observed d o) (remove_job cluster observed job)
  unfolding reconcile_job
  removal-Same observed job none (some o) e f env log =
      ap (λ j. remove_job cluster observed j env log) (some-injective f)
  removal-Same observed job (some d) o e f env log = absurd cc
  removal-Same observed job d none e f env log = absurd cc

  remove_job-unrecorded :
      (observed : ObservedClusterState) (job : Job) (env : Env) (log : List Call)
      → is_empty (get_flink_job_id cluster) ≡ true
      → remove_job cluster observed job env log
        ≡ done (
          (Requeue.finished, answer env log (deletion Kind.job job.meta)),
          log ++ deletion Kind.job job.meta ∷ [],
        )
  unfolding remove_job stop_undesired delete_job
  remove_job-unrecorded observed job env log h = rw h refl

  -- A round whose components are as desired, with a job resource that is no longer desired and no
  -- recorded Flink job, tries to delete that resource, and ends without an error and without asking
  -- for another round whatever the answer is, a failure included.
  pub reconcile-HidesFailure :
      (observed : ObservedClusterState) (desired : DesiredClusterState) (job : Job) (env : Env)
      (log : List Call)
      → observed.cluster ≡ some cluster
      → needed_calls observed desired ≡ []
      → desired.job ≡ none
      → observed.job ≡ some job
      → is_empty (get_flink_job_id cluster) ≡ true
      → reconcile observed desired env log
        ≡ done ((Requeue.finished, none), log ++ deletion Kind.job job.meta ∷ [])
  reconcile-HidesFailure observed desired job env log e f g h i =
      reconcile-settled observed desired e f env log
      ∙ after_components-cong cluster _ (remove_job cluster observed job) none
          (removal-Same observed job desired.job observed.job g h) env log
      ∙ ap (λ r. Run.◌>>=◌ r (λ ((result, _), log'). done ((result, none), log')))
          (remove_job-unrecorded observed job env log i)
