-- ===== src/Controllers/Reconciler/Savepoints.antt =====
-- Savepoints of a job, and the cancellation of jobs.
pub mod Cancellation
use flink_on_k8s_operator.Base.{
  ℕ, ◌+◌, ◌*◌, String, Option, none, some, Bool, true, false, not, ◌&&◌, List, [], ◌∷◌, is_empty,
  ltb, if◌then◌else◌, is_some,
}
use flink_on_k8s_operator.Base.Int.{ℤ, pos_part, neg_part, ltb_ℤ, succ_int32}
use flink_on_k8s_operator.Base.Run
use flink_on_k8s_operator.Base.Run.{Run, done, panic, deref}
use flink_on_k8s_operator.Api.{JobState, JobSpec, JobStatus, FlinkCluster}
use flink_on_k8s_operator.Controllers.Util.{get_flink_api_base_url}
use flink_on_k8s_operator.Controllers.Effects.{
  Error, message, Call, Env, M, pure, ◌>>=◌, lift, write, and_then,
}
use flink_on_k8s_operator.Controllers.FlinkClient.{
  SavepointStatus, Polled, take_savepoint, stop_job,
}

-- The state of a job that has ended.
abbrev pub is_stopped : JobState → Bool
is_stopped JobState.succeeded = true
is_stopped JobState.failed = true
is_stopped JobState.cancelled = true
is_stopped _ = false

-- The one reading of the clock, `time.Now()`.
abbrev clock : ℕ → M ℕ
clock i env log = done (env.now log i, log)

-- The error of a savepoint: the client's, else the stack trace of a failed savepoint.
unfoldable pub savepoint_error : Polled → Option Error
savepoint_error (status, some e) = some e
savepoint_error (status, none) =
    if is_empty status.failure_cause.stack_trace
    then none
    else some (message status.failure_cause.stack_trace)

module _ (cluster : FlinkCluster) where
  unfoldable pub is_job_stopped : Bool
  is_job_stopped = elim (cluster.status.components.job) [
    | none ↦ false
    | some job ↦ is_stopped job.state
  ]

  unfoldable pub get_flink_job_id : String
  get_flink_job_id = elim (cluster.status.components.job) [ none ↦ "" | some job ↦ job.id ]

  abbrev has_savepoints_dir : Option JobSpec → Bool
  has_savepoints_dir none = false
  has_savepoints_dir (some job) = is_some job.savepoints_dir

  unfoldable pub can_take_savepoint : Bool
  unfolding is_job_stopped
  can_take_savepoint = has_savepoints_dir cluster.spec.job && not is_job_stopped

  -- `now` is later than `seconds` after `last`.
  abbrev pub is_expired : ℕ → ℤ → ℕ → Bool
  is_expired last seconds now =
      ltb (last + pos_part seconds * 1000000000) (now + neg_part seconds * 1000000000)

  unfoldable pub is_savepoint_due : JobSpec → JobStatus → M Bool
  is_savepoint_due job status env log =
      if ltb_ℤ status.savepoint_generation job.savepoint_generation
      then done (true, log)
      else (elim (job.auto_savepoint_seconds) [
        | none ↦ done (false, log)
        | some seconds ↦
            if is_empty status.last_savepoint_time
            then done (true, log)
            else (elim (env.parse_time status.last_savepoint_time) [
              | none ↦ panic
              | some last ↦ done (is_expired last seconds (env.now log 0), log)
            ])
      ])

  unfoldable pub should_take_savepoint : M Bool
  should_take_savepoint =
      if can_take_savepoint
      then (do
        job ← lift (deref cluster.spec.job)
        status ← lift (deref cluster.status.components.job)
        is_savepoint_due job status)
      else pure false

  -- The job status is shared with the observed cluster, whose savepoint fields are not read later in
  -- the round.
  abbrev saved_status : SavepointStatus → (first second : String) → JobStatus → FlinkCluster
  saved_status savepoint first second job = record cluster {
    status = record (cluster.status) {
      components = record (cluster.status.components) {
        job = some (record job {
          savepoint_generation = succ_int32 job.savepoint_generation;
          last_savepoint_trigger_id = savepoint.trigger_id;
          savepoint_location = savepoint.location;
          last_savepoint_time = first;
        });
      };
      last_update_time = second;
    };
  }

  unfoldable pub update_savepoint_status : SavepointStatus → M (Option Error)
  unfolding succ_int32
  update_savepoint_status savepoint env =
      (do
        job ← lift (deref cluster.status.components.job)
        first ← clock 0
        second ← clock 1
        write (
            Call.update_status
              (saved_status savepoint (env.format_time first) (env.format_time second) job)))
        env

  -- After the savepoint: its error, or the status update when it is completed.
  unfoldable pub record_savepoint : Option Error → Bool → SavepointStatus → M (Option Error)
  unfolding update_savepoint_status
  record_savepoint (some e) completed savepoint = pure (some e)
  record_savepoint none true savepoint = update_savepoint_status savepoint
  record_savepoint none false savepoint = pure none

  unfoldable pub finish_savepoint : Polled → M (Option Error)
  unfolding record_savepoint savepoint_error
  finish_savepoint polled = record_savepoint (savepoint_error polled) polled.0.completed polled.0

  -- The REST API and the directory of a savepoint.
  unfoldable pub savepoint_target : Run (String × String)
  savepoint_target = Run.◌>>=◌ (get_flink_api_base_url cluster) λ url.
      Run.◌>>=◌ (deref cluster.spec.job)
        λ job. Run.◌>>=◌ (deref job.savepoints_dir) λ dir. done (url, dir)

  -- `takeSavepoint` of the reconciler.
  unfoldable pub save_job : String → M (Option Error)
  unfolding finish_savepoint savepoint_target
  save_job job_id =
      lift savepoint_target >>= λ (url, dir). take_savepoint url job_id dir >>= finish_savepoint

  unfoldable pub stop_flink_job : String → M (Option Error)
  stop_flink_job job_id = do url ← lift (get_flink_api_base_url cluster); stop_job url job_id

  abbrev pub save_first : String → Bool → M (Option Error)
  save_first job_id true = save_job job_id
  save_first job_id false = pure none

  unfoldable pub cancel_flink_job : String → Bool → M (Option Error)
  unfolding can_take_savepoint save_job stop_flink_job
  cancel_flink_job job_id save =
      save_first job_id (save && can_take_savepoint) >>= λ e. and_then e (stop_flink_job job_id)

  unfoldable pub cancel_running_jobs : Bool → List String → M (Option Error)
  cancel_running_jobs save [] = pure none
  cancel_running_jobs save (id ∷ ids) =
      cancel_flink_job id save >>= λ e. and_then e (cancel_running_jobs save ids)
