-- ===== src/Controllers/Reconciler/Round/Safety.antt =====
-- The step of the job makes no call that its guards rule out, controllers/flinkcluster_reconciler.go.
use flink_on_k8s_operator.Base.{
  String, Option, none, some, true, ◌≡◌, refl, ◌⊎◌, inl, inr, List, [], ◌∷◌, map, All, All-append,
  is_empty, is_some, if◌then◌else◌, Option-cases,
}
use flink_on_k8s_operator.Base.Run.{done, Yields->>=}
use flink_on_k8s_operator.K8s.{Job}
use flink_on_k8s_operator.Api.{JobSpec, FlinkCluster}
use flink_on_k8s_operator.Webhook.Validate.Create.{Given, IfGiven}
use flink_on_k8s_operator.Controllers.State.{FlinkJob, ObservedClusterState}
use flink_on_k8s_operator.Controllers.Util.{get_flink_api_base_url, should_restart_job}
use flink_on_k8s_operator.Controllers.Effects.{Error, Kind, Call, Env, pure, ◌>>=◌}
use flink_on_k8s_operator.Controllers.Calls.{
  Added, Calls, Calls->>=, perform, perform-Calls, Yields-if, deref_found,
}
use flink_on_k8s_operator.Controllers.Reconciler.Components.Laws.{deletion}
use flink_on_k8s_operator.Controllers.Reconciler.Savepoints.{
  get_flink_job_id, save_job, cancel_flink_job,
}
use flink_on_k8s_operator.Controllers.Reconciler.Savepoints.Cancellation.{stop_call}
use flink_on_k8s_operator.Controllers.Reconciler.Round.{
  Requeue, requeue_result, Outcome, delete_job, restart_job, after_restart, after_stop, submit_job,
  wants_savepoint, save_if_wanted, kept, keep_job, stop_undesired, remove_job, reconcile_job,
}
use flink_on_k8s_operator.Controllers.Reconciler.Round.Submission.{
  submission, submit_job-perform, restart_job-perform,
}
use flink_on_k8s_operator.Controllers.Reconciler.Round.Guards.{
  IsFlinkCall, stop_calls-All, Calls-pure, save_job-Calls, cancel_flink_job-Calls,
}
use flink_on_k8s_operator.Controllers.Reconciler.Round.Wanted.{
  IsTimed, IsWanted, get_flink_job_id-recorded, wants_savepoint-IsWanted,
}

module _ (cluster : FlinkCluster) (observed : ObservedClusterState) (desired job : Option Job) where
  abbrev pub IsRestart : Type 0
  IsRestart =
      Given (λ spec. should_restart_job spec.restart_policy cluster.status.components.job ≡ true)
        cluster.spec.job

  -- A job is submitted only if it is desired, has no resource, and Flink listed its jobs with none
  -- running. Nothing is deleted but the job resource, and that only if the job is not desired, or is
  -- restarted.
  abbrev pub Allowed : Call → Type 0
  Allowed (Call.create_job j) =
      (desired ≡ some j)
      × (job ≡ none)
      × (is_some observed.flink_job_list ≡ true)
      × (observed.flink_running_job_ids ≡ [])
  Allowed (Call.delete kind namespace name) =
      (j : Job) × (job ≡ some j)
      × (Call.delete kind namespace name ≡ deletion Kind.job j.meta)
      × ((desired ≡ none) ⊎ IsRestart)
  Allowed c = IsFlinkCall c

  allow : (c : Call) → IsFlinkCall c → Allowed c
  allow (Call.create_job j) h = absurd h
  allow (Call.delete kind namespace name) h = absurd h
  allow _ h = h

  module _ (url : String) (at : get_flink_api_base_url cluster ≡ done url) (env : Env)
      (timed : IfGiven (IsTimed env) cluster.status.components.job) where
    save_if_wanted-Calls :
        (log : List Call) → Calls Allowed (save_if_wanted cluster observed) env log
    unfolding save_if_wanted
    save_if_wanted-Calls log =
        Yields->>= (IsWanted cluster observed log) (Added Allowed log)
          (wants_savepoint cluster observed env log) _
          (wants_savepoint-IsWanted cluster observed url at env timed log)
          λ (b, log') (e, wanted). rw e (
            Yields-if (Added Allowed log) b _ (pure tt) env log
              (λ h.
                let (can, (r, recorded)) = wanted h in
                Calls->>= Allowed (save_job cluster (get_flink_job_id cluster)) (λ _. pure tt) env
                  log
                  (save_job-Calls Allowed allow cluster url at r (get_flink_job_id cluster) env log
                    recorded can)
                  λ _ log'. Calls-pure Allowed allow tt env log')
              (λ _. Calls-pure Allowed allow tt env log))

    -- What is left of the step: a restart, the removal, the submission.
    restart_job-Calls :
        (j : Job) (log : List Call)
        → job ≡ some j
        → IsRestart
        → Calls Allowed (restart_job cluster observed j) env log
    restart_job-Calls j log e h = rw (restart_job-perform cluster url at observed j env log) (
        perform-Calls Allowed _ env log (
          All-append Allowed (map (stop_call url) observed.flink_running_job_ids)
            (deletion Kind.job j.meta ∷ [])
            (stop_calls-All Allowed allow url observed.flink_running_job_ids)
            ((j, e, refl, inr h), tt)))

    keep_job-Calls :
        (j : Job) (spec : JobSpec) (log : List Call)
        → job ≡ some j
        → cluster.spec.job ≡ some spec
        → Calls Allowed (keep_job cluster observed j) env log
    unfolding keep_job
    keep_job-Calls j spec log e given =
        deref_found (Added Allowed log) cluster.spec.job spec
          (λ spec.
            if should_restart_job spec.restart_policy cluster.status.components.job
            then (restart_job cluster observed j >>= λ e. pure (after_restart cluster observed e))
            else (save_if_wanted cluster observed >>= λ _. pure (kept cluster observed)))
          env log given
          (Yields-if (Added Allowed log)
            (should_restart_job spec.restart_policy cluster.status.components.job) _ _ env log
            (λ h.
              Calls->>= Allowed (restart_job cluster observed j)
                (λ e. pure (after_restart cluster observed e)) env log
                (restart_job-Calls j log e (rw given h))
                λ x log'. Calls-pure Allowed allow (after_restart cluster observed x) env log')
            λ _.
              Calls->>= Allowed (save_if_wanted cluster observed)
                (λ _. pure (kept cluster observed)) env log (save_if_wanted-Calls log)
                λ x log'. Calls-pure Allowed allow {A = Outcome} (kept cluster observed) env log')

    stop_undesired-Calls :
        (log : List Call) → Calls Allowed (stop_undesired cluster observed) env log
    unfolding stop_undesired
    stop_undesired-Calls log =
        Yields-if (Added Allowed log) (is_empty (get_flink_job_id cluster)) (pure none)
          (cancel_flink_job cluster (get_flink_job_id cluster) true) env log
          (λ _. Calls-pure Allowed allow {A = Option Error} none env log)
          λ h.
            let (r, recorded) = get_flink_job_id-recorded cluster observed h in
            cancel_flink_job-Calls Allowed allow cluster url at r (get_flink_job_id cluster) true
              env log recorded

    remove_job-Calls :
        (j : Job) (log : List Call)
        → job ≡ some j
        → desired ≡ none
        → Calls Allowed (remove_job cluster observed j) env log
    unfolding remove_job delete_job
    remove_job-Calls j log e f =
        Calls->>= Allowed (stop_undesired cluster observed) (after_stop cluster observed j) env log
          (stop_undesired-Calls log) after
      where
        after :
            (x : Option Error) (log' : List Call)
            → Calls Allowed (after_stop cluster observed j x) env log'
        after (some x) log' = Calls-pure Allowed allow {A = Outcome} (requeue_result, none) env log'
        after none log' = (deletion Kind.job j.meta ∷ [], refl, ((j, e, refl, inl f), tt))

    submission-All :
        (d : Job) (jobs : Option (List FlinkJob)) (ids : List String)
        → desired ≡ some d
        → job ≡ none
        → observed.flink_job_list ≡ jobs
        → observed.flink_running_job_ids ≡ ids
        → All Allowed (submission cluster url at d jobs ids)
    submission-All d none ids e f g h = tt
    submission-All d (some jobs) (id ∷ ids) e f g h = stop_calls-All Allowed allow url (id ∷ ids)
    submission-All d (some jobs) [] e f g h = ((e, f, rw g refl, h), tt)

    submit_job-Calls :
        (d : Job) (log : List Call)
        → desired ≡ some d
        → job ≡ none
        → Calls Allowed
            (submit_job cluster observed d observed.flink_job_list observed.flink_running_job_ids)
            env
            log
    submit_job-Calls d log e f =
        rw
          (submit_job-perform cluster url at observed d observed.flink_job_list
            observed.flink_running_job_ids env log)
          (Calls->>= Allowed
            (perform
              (submission cluster url at d observed.flink_job_list observed.flink_running_job_ids))
            (λ e. pure (requeue_result, e)) env log
            (perform-Calls Allowed _ env log (
              submission-All d observed.flink_job_list observed.flink_running_job_ids e f refl
                refl))
            λ x log'. Calls-pure Allowed allow {A = Outcome} (requeue_result, x) env log')

  -- The step of the job ends without a panic, when the cluster has a UI port, a job if one is desired,
  -- and a readable time of its last savepoint; and every call it makes is allowed: a job is submitted
  -- only if it is desired, has no resource yet, and Flink listed its jobs with none running; nothing is
  -- deleted but the job resource, and that only if the job is not desired or is to be restarted.
  pub reconcile_job-Allowed :
      (url : String) (env : Env) (log : List Call)
      → get_flink_api_base_url cluster ≡ done url
      → IfGiven (IsTimed env) cluster.status.components.job
      → IfGiven (λ _. Given (λ _. Unit) cluster.spec.job) desired
      → Calls Allowed (reconcile_job cluster observed desired job) env log
  unfolding reconcile_job
  reconcile_job-Allowed url env log at timed given = from desired job refl refl given
    where
      from :
          (d j : Option Job)
          → desired ≡ d
          → job ≡ j
          → IfGiven (λ _. Given (λ _. Unit) cluster.spec.job) d
          → Calls Allowed (reconcile_job cluster observed d j) env log
      from (some d) none e f g = submit_job-Calls url at env timed d log e f
      from (some d) (some j) e f g = elim (Option-cases cluster.spec.job) [
        | inl h ↦ absurd (rw h at g)
        | inr (spec, h) ↦ keep_job-Calls url at env timed j spec log f h
      ]
      from none (some j) e f g = remove_job-Calls url at env timed j log f e
      from none none e f g = Calls-pure Allowed allow {A = Outcome} (Requeue.finished, none) env log
