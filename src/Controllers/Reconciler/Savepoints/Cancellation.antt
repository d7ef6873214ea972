-- ===== src/Controllers/Reconciler/Savepoints/Cancellation.antt =====
-- The cancellation of Flink jobs: which calls are made, and what a success means.
use flink_on_k8s_operator.Base.{
  String, Option, none, some, Bool, true, false, ◌≡◌, refl, sym, ◌∙◌, ◌⊎◌, inl, inr, List, [], ◌∷◌,
  ◌++◌, map, arith, ◌&&◌, Option-cases, ◌≢◌, is_empty, if◌then◌else◌,
}
use Prim.Native.String.{◌++◌ as str_append}
use flink_on_k8s_operator.Base.Int.{succ_int32}
use flink_on_k8s_operator.Base.Run.{done, Yields, Yields->>=, Yields-of_Yields}
use flink_on_k8s_operator.Api.{JobSpec, JobStatus, FlinkCluster}
use flink_on_k8s_operator.Controllers.Util.{get_flink_api_base_url}
use flink_on_k8s_operator.Controllers.Effects.{Error, message, Call, Env, M, ◌>>=◌, lift, and_then}
use flink_on_k8s_operator.Controllers.FlinkClient.{
  SavepointStatus, Polled, job_url, stop_job, take_savepoint,
}
use flink_on_k8s_operator.Controllers.FlinkClient.Polling.{IsSavepoint, take_savepoint-IsSavepoint}
use flink_on_k8s_operator.Controllers.Calls.{
  perform, perform_nil, perform_one, perform->>=, Same, answer, ask,
}
use flink_on_k8s_operator.Controllers.Reconciler.Savepoints.{
  savepoint_error, can_take_savepoint, update_savepoint_status, record_savepoint, finish_savepoint,
  savepoint_target, save_job, stop_flink_job, save_first, cancel_flink_job, cancel_running_jobs,
}

abbrev pub stop_url : String → String → String
stop_url url job_id = str_append (job_url url job_id) "?mode=cancel"

abbrev pub stop_call : String → String → Call
stop_call url job_id = Call.stop_job (stop_url url job_id)

-- A stack trace that is not empty is an error.
abbrev pub IsTrace : String → Option Error → Type 0
IsTrace trace x = ((trace ≡ "") × (x ≡ none)) ⊎ ((trace ≢ "") × (x ≡ some (message trace)))

stack-IsTrace :
    (trace : String) → IsTrace trace (if is_empty trace then none else some (message trace))
stack-IsTrace String.[] = inl (refl, refl)
stack-IsTrace (String.◌∷◌ c s) = inr (λ e. cc, refl)

-- The client's error, else the stack trace of a savepoint that failed.
abbrev pub IsError : Polled → Option Error → Type 0
IsError (status, some e) x = x ≡ some e
IsError (status, none) x = IsTrace status.failure_cause.stack_trace x

savepoint_error-IsError : (polled : Polled) → IsError polled (savepoint_error polled)
unfolding savepoint_error
savepoint_error-IsError (status, some e) = refl
savepoint_error-IsError (status, none) = stack-IsTrace status.failure_cause.stack_trace

module _ (cluster : FlinkCluster) (url : String)
    (at : get_flink_api_base_url cluster ≡ done url) where
  pub stop_flink_job-stop :
      (id : String) → Same (stop_flink_job cluster id) (ask (stop_call url id))
  unfolding stop_flink_job stop_job
  stop_flink_job-stop id env log = rw at refl

  cancel_flink_job-stop :
      (id : String) → Same (cancel_flink_job cluster id false) (ask (stop_call url id))
  unfolding cancel_flink_job
  cancel_flink_job-stop id = stop_flink_job-stop id

  -- Without savepoints, the running jobs are stopped in the order in which Flink listed them, up to
  -- the first that Flink refuses to stop.
  pub cancel_running_jobs-perform :
      (ids : List String)
      → Same (cancel_running_jobs cluster false ids) (perform (map (stop_call url) ids))
  unfolding cancel_running_jobs
  cancel_running_jobs-perform [] = perform_nil
  cancel_running_jobs-perform (id ∷ ids) =
      perform->>= _ _ (stop_call url id ∷ []) (map (stop_call url) ids)
        (λ env log. cancel_flink_job-stop id env log ∙ sym (perform_one (stop_call url id) env log))
        (cancel_running_jobs-perform ids)

  -- The job was stopped by the last call.
  abbrev pub IsStopped : String → Env → Option Error × List Call → Type 0
  IsStopped id env (none, log') =
      (before : List Call) × (log' ≡ before ++ stop_call url id ∷ [])
      × (env.stop before (stop_url url id) ≡ none)
  IsStopped id env (some e, log') = Unit

  stop_flink_job-IsStopped :
      (id : String) (env : Env) (log : List Call)
      → Yields (IsStopped id env) (stop_flink_job cluster id env log)
  stop_flink_job-IsStopped id env log =
      rw (stop_flink_job-stop id env log) (from (answer env log (stop_call url id)) refl)
    where
      from :
          (e : Option Error)
          → answer env log (stop_call url id) ≡ e
          → IsStopped id env (e, log ++ stop_call url id ∷ [])
      from none h = (log, refl, h)
      from (some e) h = tt

  -- `m` if it is skipped has no error: what follows a savepoint.
  then_stop-IsStopped :
      (id : String) (m : M (Option Error)) (env : Env) (log : List Call)
      → Yields (λ _. Unit) (m env log)
      → Yields (IsStopped id env) ((m >>= λ e. and_then e (stop_flink_job cluster id)) env log)
  then_stop-IsStopped id m env log h =
      Yields->>= (λ _. Unit) (IsStopped id env) (m env log) _ h λ (e, log') _. from e log'
    where
      from :
          (e : Option Error) (log' : List Call)
          → Yields (IsStopped id env) (and_then e (stop_flink_job cluster id) env log')
      from none log' = stop_flink_job-IsStopped id env log'
      from (some e) log' = tt

  module _ (job : JobStatus) (recorded : cluster.status.components.job ≡ some job) where
    -- The cluster with the savepoint recorded: the next generation, the trigger and the location that
    -- Flink gave, and the times of the two readings of the clock; all else is as it was.
    abbrev pub IsRecorded : SavepointStatus → (first second : String) → FlinkCluster → Type 0
    IsRecorded saved first second c =
        (c ≡ record cluster { status = c.status })
        × (c.status ≡ record (cluster.status) {
          components = c.status.components;
          last_update_time = c.status.last_update_time;
        })
        × (c.status.last_update_time ≡ second)
        × (c.status.components
            ≡ record (cluster.status.components) { job = c.status.components.job })
        × ((new : JobStatus) × (c.status.components.job ≡ some new)
            × (new.savepoint_generation ≡ succ_int32 job.savepoint_generation)
            × (new.savepoint_location ≡ saved.location)
            × (new.last_savepoint_trigger_id ≡ saved.trigger_id)
            × (new.last_savepoint_time ≡ first)
            × (new ≡ record job {
              savepoint_generation = new.savepoint_generation;
              savepoint_location = new.savepoint_location;
              last_savepoint_trigger_id = new.last_savepoint_trigger_id;
              last_savepoint_time = new.last_savepoint_time;
            }))

    -- The status is written, with the savepoint recorded, when the savepoint is completed without an
    -- error; else nothing is, and the error of the savepoint is returned, if it has one.
    abbrev pub IsFinished : Env → Polled → List Call → Option Error × List Call → Type 0
    IsFinished env polled log (e, log') =
        (IsError polled none
          × (polled.0.completed ≡ true)
          × ((c : FlinkCluster) × IsRecorded polled.0 (env.format_time (env.now log 0))
                (env.format_time (env.now log 1)) c
              × (log' ≡ log ++ Call.update_status c ∷ [])
              × (e ≡ env.write log (Call.update_status c))))
        ⊎ ((log' ≡ log) × IsError polled e × (e ≡ none → polled.0.completed ≡ false))

    record_savepoint-IsFinished :
        (polled : Polled) (env : Env) (log : List Call) (e : Option Error) (completed : Bool)
        → IsError polled e
        → polled.0.completed ≡ completed
        → Yields (IsFinished env polled log) (record_savepoint cluster e completed polled.0 env log)
    unfolding record_savepoint update_savepoint_status
    record_savepoint-IsFinished polled env log (some e) completed f g =
        inr (refl, f, λ h. absurd cc)
    record_savepoint-IsFinished polled env log none false f g = inr (refl, f, λ _. g)
    record_savepoint-IsFinished polled env log none true f g = rw recorded (
        inl (
          f,
          g,
          (_, (refl, refl, refl, refl, (_, refl, refl, refl, refl, refl, refl)), refl, refl),
        ))

    finish_savepoint-IsFinished :
        (polled : Polled) (env : Env) (log : List Call)
        → Yields (IsFinished env polled log) (finish_savepoint cluster polled env log)
    unfolding finish_savepoint
    finish_savepoint-IsFinished polled env log =
        record_savepoint-IsFinished polled env log _ _ (savepoint_error-IsError polled) refl

    module _ (spec : JobSpec) (dir : String) (given : cluster.spec.job ≡ some spec)
        (there : spec.savepoints_dir ≡ some dir) where
      -- What Flink answered to the savepoint, and what became of it.
      abbrev pub IsSaved : String → Env → List Call → Option Error × List Call → Type 0
      IsSaved id env log end =
          (polled : Polled) × (middle : List Call) × IsSavepoint url id dir env log (polled, middle)
          × IsFinished env polled middle end

      savepoint_target-found : savepoint_target cluster ≡ done (url, dir)
      unfolding savepoint_target
      savepoint_target-found = rw (at, given, there)

      pub save_job-IsSaved :
          (id : String) (env : Env) (log : List Call)
          → Yields (IsSaved id env log) (save_job cluster id env log)
      unfolding save_job
      save_job-IsSaved id env log =
          Yields->>= (λ end. end ≡ ((url, dir), log)) (IsSaved id env log)
            (lift (savepoint_target cluster) env log) _ (rw savepoint_target-found refl)
            λ end e. rw e (
              Yields->>= (IsSavepoint url id dir env log) (IsSaved id env log)
                (take_savepoint url id dir env log) _
                (take_savepoint-IsSavepoint url id dir env log)
                λ (polled, middle) saved.
                  Yields-of_Yields (IsFinished env polled middle) (IsSaved id env log) _
                    (finish_savepoint-IsFinished polled env middle)
                    λ end finished. (polled, middle, saved, finished))

    pub can_take_savepoint-has_dir :
        can_take_savepoint cluster ≡ true
        → (spec : JobSpec) × (dir : String) × (cluster.spec.job ≡ some spec)
          × (spec.savepoints_dir ≡ some dir)
    unfolding can_take_savepoint
    can_take_savepoint-has_dir h = from cluster.spec.job refl
      where
        from :
            (s : Option JobSpec)
            → cluster.spec.job ≡ s
            → (spec : JobSpec) × (dir : String) × (cluster.spec.job ≡ some spec)
              × (spec.savepoints_dir ≡ some dir)
        from none e = absurd (ground arith)
        from (some spec) e = elim (Option-cases spec.savepoints_dir) [
          | inl f ↦ absurd (ground arith)
          | inr (dir, f) ↦ (spec, dir, e, f)
        ]

    save_first-Yields :
        (id : String) (b : Bool) (env : Env) (log : List Call)
        → (b ≡ true → can_take_savepoint cluster ≡ true)
        → Yields (λ _. Unit) (save_first cluster id b env log)
    save_first-Yields id false env log h = tt
    save_first-Yields id true env log h =
        let (spec, dir, given, there) = can_take_savepoint-has_dir (h refl) in
        Yields-of_Yields (IsSaved spec dir given there id env log) (λ _. Unit) _
          (save_job-IsSaved spec dir given there id env log) λ _ _. tt

    -- When the cancellation of a job ends without an error, the last call stopped that job and Flink
    -- accepted it, whether a savepoint was asked for or not.
    pub cancel_flink_job-IsStopped :
        (id : String) (save : Bool) (env : Env) (log : List Call)
        → Yields (IsStopped id env) (cancel_flink_job cluster id save env log)
    unfolding cancel_flink_job
    cancel_flink_job-IsStopped id save env log =
        then_stop-IsStopped id (save_first cluster id (save && can_take_savepoint cluster)) env log
          (save_first-Yields id _ env log (λ h. ground arith))
