-- ===== src/Controllers/Updater/Derive.antt =====
-- The rest of `deriveClusterStatus`: the job, and the new state of the cluster.
use flink_on_k8s_operator.Base.{
  ℕ, String, Option, none, some, Bool, true, false, not, is_empty, is_set, or_else, ltb,
  if◌then◌else◌,
}
use flink_on_k8s_operator.Base.Int.{pos, ltb_ℤ, succ_int32}
use flink_on_k8s_operator.Base.Run.{Run, done, panic, ◌>>=◌, deref}
use flink_on_k8s_operator.K8s.{Job}
use flink_on_k8s_operator.Api.{
  ClusterState, JobState, JobStatus, CleanupAction, CleanupPolicy, JobSpec,
}
use flink_on_k8s_operator.Controllers.Util.{get_from_savepoint}

abbrev non_empty : Option String → Option String
non_empty none = none
non_empty (some id) = if is_empty id then none else some id

abbrev recorded_id : Option JobStatus → Option String
recorded_id none = none
recorded_id (some status) = if is_empty status.id then none else some status.id

-- The observed ID before the recorded one.
unfoldable pub get_flink_job_id : Option String → Option JobStatus → Option String
get_flink_job_id observed recorded = elim (non_empty observed) [
  | some id ↦ some id
  | none ↦ recorded_id recorded
]

-- The four flags that the block of the job sets.
pub record JobFlags : Type 0 where
  pub stopped : Bool
  pub succeeded : Bool
  pub failed : Bool
  pub cancelled : Bool

abbrev pub no_flags : JobFlags
no_flags = record { stopped = false; succeeded = false; failed = false; cancelled = false }

abbrev empty_job_status : JobStatus
empty_job_status = record {
  name = "";
  id = "";
  state = JobState.unset;
  from_savepoint = "";
  savepoint_generation = pos 0;
  savepoint_location = "";
  last_savepoint_trigger_id = "";
  last_savepoint_time = "";
  restart_count = pos 0;
}

-- A recorded job that had failed or was cancelled, and is active again.
abbrev pub is_restart : Option JobStatus → Bool
is_restart none = false
is_restart (some status) = elim (status.state) [
  | JobState.failed ↦ true
  | JobState.cancelled ↦ true
  | _ ↦ false
]

abbrev active_state : Option String → JobState
active_state none = JobState.pending
active_state (some _) = JobState.running

-- The job resource is there.
unfoldable pub derive_present_job :
    Job → String → Option String → Option JobStatus → JobStatus × JobFlags
derive_present_job job from_savepoint flink_job_id recorded =
    let base = or_else empty_job_status recorded in
    let status = record base {
      name = job.meta.name;
      id = or_else base.id flink_job_id;
      from_savepoint = from_savepoint;
    } in
    if ltb_ℤ (pos 0) job.failed
    then (
      record status { state = JobState.failed },
      record { stopped = true; succeeded = false; failed = true; cancelled = false },
    )
    else if ltb_ℤ (pos 0) job.succeeded
    then (
      record status { state = JobState.succeeded },
      record { stopped = true; succeeded = true; failed = false; cancelled = false },
    )
    else (
      record status {
        state = active_state flink_job_id;
        restart_count =
            if is_restart recorded then succ_int32 base.restart_count else base.restart_count;
      },
      no_flags,
    )

-- The job resource is gone, and a job is recorded.
unfoldable pub derive_gone_job : JobStatus → JobSpec → JobStatus × JobFlags
derive_gone_job recorded job =
    if is_set job.cancel_requested
    then (
      record recorded { state = JobState.cancelled },
      record { stopped = true; succeeded = false; failed = false; cancelled = true },
    )
    else (recorded, record { stopped = true; succeeded = false; failed = false; cancelled = false })

unfoldable pub derive_job :
    Option Job
    → Option String
    → Option JobStatus
    → Option JobSpec
    → Run (Option JobStatus × JobFlags)
derive_job (some job) flink_job_id recorded spec = do
  from_savepoint ← get_from_savepoint job.pod
  let (status, flags) = derive_present_job job from_savepoint flink_job_id recorded
  done (some status, flags)
derive_job none flink_job_id (some recorded) spec = do
  job ← deref spec
  let (status, flags) = derive_gone_job recorded job
  done (some status, flags)
derive_job none flink_job_id none spec = done (none, no_flags)

abbrev pub is_keep_cluster : CleanupAction → Bool
is_keep_cluster CleanupAction.keep_cluster = true
is_keep_cluster _ = false

-- `flag && policy.action != KeepCluster`; the policy is dereferenced only if the flag is set.
abbrev asks_cleanup : Bool → Option CleanupPolicy → (CleanupPolicy → CleanupAction) → Run Bool
asks_cleanup false policy action = done false
asks_cleanup true none action = panic
asks_cleanup true (some policy) action = done (not (is_keep_cluster (action policy)))

abbrev or_asks : Bool → Run Bool → Run Bool
or_asks true next = done true
or_asks false next = next

-- Whether the job's end stops the cluster.
unfoldable pub stops_cluster : JobFlags → JobSpec → Run Bool
stops_cluster flags job = do
  succeeds ← asks_cleanup flags.succeeded job.cleanup_policy (λ p. p.after_job_succeeds)
  fails ← or_asks succeeds (asks_cleanup flags.failed job.cleanup_policy (λ p. p.after_job_fails))
  or_asks fails (asks_cleanup flags.cancelled job.cleanup_policy (λ p. p.after_job_cancelled))

abbrev pub total_components : ℕ
total_components = 3

unfoldable pub derive_running_state : JobFlags → ℕ → Option JobSpec → Run ClusterState
derive_running_state flags running spec =
    if flags.stopped
    then (do
      job ← deref spec
      stops ← stops_cluster flags job
      done (if stops then ClusterState.stopping else ClusterState.running))
    else done
        (if ltb running total_components then ClusterState.reconciling else ClusterState.running)

abbrev derive_stopping_state : ℕ → ClusterState
derive_stopping_state running =
    if ltb 0 running
    then (if ltb running total_components
        then ClusterState.partially_stopped
        else ClusterState.stopping)
    else ClusterState.stopped

-- The `switch` over the recorded state.
unfoldable pub derive_state : ClusterState → JobFlags → ℕ → Option JobSpec → Run ClusterState
derive_state ClusterState.unset flags running spec =
    done (if ltb running total_components then ClusterState.creating else ClusterState.running)
derive_state ClusterState.creating flags running spec =
    done (if ltb running total_components then ClusterState.creating else ClusterState.running)
derive_state ClusterState.running flags running spec = derive_running_state flags running spec
derive_state ClusterState.reconciling flags running spec = derive_running_state flags running spec
derive_state ClusterState.stopping flags running spec = done (derive_stopping_state running)
derive_state ClusterState.partially_stopped flags running spec =
    done (derive_stopping_state running)
derive_state ClusterState.stopped flags running spec = done ClusterState.stopped
derive_state (ClusterState.other _) flags running spec = panic
