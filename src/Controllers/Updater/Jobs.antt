-- ===== src/Controllers/Updater/Jobs.antt =====
-- What the updater records about the job.
use mathlib.Core.Path.{subst}
use flink_on_k8s_operator.Base.{
  String, Option, none, some, ◌≡◌, refl, ap, ◌∙◌, ◌⊎◌, inl, inr, arith, is_empty, or_else,
  Bool-cases,
}
use flink_on_k8s_operator.Base.Int.{pos, ltb_ℤ, ◌≤ℤ◌, succ_int32}
use flink_on_k8s_operator.Base.Run.{Run, done, >>=-eq-done, done-injective}
use flink_on_k8s_operator.K8s.{Job}
use flink_on_k8s_operator.Api.{JobState, JobStatus, JobSpec}
use flink_on_k8s_operator.Controllers.Util.{get_from_savepoint}
use flink_on_k8s_operator.Controllers.Updater.Derive.{
  get_flink_job_id, JobFlags, derive_present_job, derive_gone_job, derive_job,
}

-- The savepoint of a recorded job stays recorded, whatever is observed.
pub record KeepsSavepoint (old new : JobStatus) : Type 0 where
  pub generation : new.savepoint_generation ≡ old.savepoint_generation
  pub location : new.savepoint_location ≡ old.savepoint_location
  pub trigger : new.last_savepoint_trigger_id ≡ old.last_savepoint_trigger_id
  pub time : new.last_savepoint_time ≡ old.last_savepoint_time

derive_present_job-KeepsSavepoint :
    (job : Job) (from_savepoint : String) (id : Option String) (old : JobStatus)
    → KeepsSavepoint old (derive_present_job job from_savepoint id (some old)).0
unfolding derive_present_job
derive_present_job-KeepsSavepoint job from_savepoint id old = ground arith

derive_gone_job-KeepsSavepoint :
    (old : JobStatus) (spec : JobSpec) → KeepsSavepoint old (derive_gone_job old spec).0
unfolding derive_gone_job
derive_gone_job-KeepsSavepoint old spec = ground arith

-- A recorded job is never dropped, nor is its savepoint.
pub derive_job-KeepsSavepoint :
    (job : Option Job) (id : Option String) (old : JobStatus) (spec : Option JobSpec)
    {r : Option JobStatus × JobFlags}
    → derive_job job id (some old) spec ≡ done r
    → (new : JobStatus) × (r.0 ≡ some new) × KeepsSavepoint old new
unfolding derive_job
derive_job-KeepsSavepoint (some job) id old spec e =
    let (from_savepoint, _, e') = >>=-eq-done (get_from_savepoint job.pod) _ e in
    (
      (derive_present_job job from_savepoint id (some old)).0,
      ground arith,
      derive_present_job-KeepsSavepoint job from_savepoint id old,
    )
derive_job-KeepsSavepoint none id old (some spec) e =
    ((derive_gone_job old spec).0, ground arith, derive_gone_job-KeepsSavepoint old spec)
derive_job-KeepsSavepoint none id old none e = cc

-- The job resource neither failed nor succeeded.
abbrev pub IsActiveJob : Job → Type 0
IsActiveJob job = (job.failed ≤ℤ pos 0) × (job.succeeded ≤ℤ pos 0)

abbrev pub WasEnded : JobState → Type 0
WasEnded s = (s ≡ JobState.failed) ⊎ (s ≡ JobState.cancelled)

-- The restart count goes up by one when a job that was recorded as failed or cancelled is active
-- again, and at no other time.
abbrev pub CountsRestart : Job → JobStatus → JobStatus → Type 0
CountsRestart job old new =
    (IsActiveJob job × WasEnded old.state × (new.restart_count ≡ succ_int32 old.restart_count))
    ⊎ ((¬ (IsActiveJob job × WasEnded old.state)) × (new.restart_count ≡ old.restart_count))

derive_present_job-CountsRestart :
    (job : Job) (from_savepoint : String) (id : Option String) (old : JobStatus)
    → CountsRestart job old (derive_present_job job from_savepoint id (some old)).0
unfolding derive_present_job
derive_present_job-CountsRestart job from_savepoint id old = ground arith

-- The restart count goes up by one exactly when a job recorded as failed or cancelled is observed
-- active; in every other observation of a job resource it stays.
pub derive_job-CountsRestart :
    (job : Job) (id : Option String) (old : JobStatus) (spec : Option JobSpec)
    {r : Option JobStatus × JobFlags}
    → derive_job (some job) id (some old) spec ≡ done r
    → (new : JobStatus) × (r.0 ≡ some new) × CountsRestart job old new
unfolding derive_job
derive_job-CountsRestart job id old spec e =
    let (from_savepoint, _, e') = >>=-eq-done (get_from_savepoint job.pod) _ e in
    (
      (derive_present_job job from_savepoint id (some old)).0,
      ground arith,
      derive_present_job-CountsRestart job from_savepoint id old,
    )

derive_present_job_idem :
    (job : Job) (from_savepoint : String) (id : Option String) (recorded : Option JobStatus)
    → let once = derive_present_job job from_savepoint id recorded in
      derive_present_job job from_savepoint id (some once.0) ≡ once
unfolding derive_present_job
derive_present_job_idem job from_savepoint id recorded =
    elim (Bool-cases (ltb_ℤ (pos 0) job.failed)) [
      | inl failed ↦ ground arith
      | inr _ ↦ elim (Bool-cases (ltb_ℤ (pos 0) job.succeeded)) [
        | inl succeeded ↦ ground arith
        | inr _ ↦ ground arith
      ]
    ]

abbrev id_of : Option JobStatus → String
id_of none = ""
id_of (some status) = status.id

-- The ID is the same when it is looked up again with the one just recorded.
get_flink_job_id-stable_none :
    (recorded : Option JobStatus) (status : JobStatus)
    → status.id ≡ or_else (id_of recorded) (get_flink_job_id none recorded)
    → get_flink_job_id none (some status) ≡ get_flink_job_id none recorded
unfolding get_flink_job_id
get_flink_job_id-stable_none none status e = rw e
get_flink_job_id-stable_none (some r) status e = elim (Bool-cases (is_empty r.id)) [
  | inl y ↦ ground arith
  | inr n ↦ ground arith
]

get_flink_job_id-stable :
    (observed : Option String) (recorded : Option JobStatus) (status : JobStatus)
    → status.id ≡ or_else (id_of recorded) (get_flink_job_id observed recorded)
    → get_flink_job_id observed (some status) ≡ get_flink_job_id observed recorded
unfolding get_flink_job_id
get_flink_job_id-stable none recorded status e = get_flink_job_id-stable_none recorded status e
get_flink_job_id-stable (some String.[]) recorded status e =
    get_flink_job_id-stable_none recorded status e
get_flink_job_id-stable (some (String.◌∷◌ c id)) recorded status e = refl

derive_present_job-id :
    (job : Job) (from_savepoint : String) (id : Option String) (recorded : Option JobStatus)
    → (derive_present_job job from_savepoint id recorded).0.id ≡ or_else (id_of recorded) id
unfolding derive_present_job
derive_present_job-id job from_savepoint id recorded = ground arith

derive_gone_job-stable :
    (recorded : JobStatus) (spec : JobSpec)
    → derive_gone_job (derive_gone_job recorded spec).0 spec ≡ derive_gone_job recorded spec
unfolding derive_gone_job
derive_gone_job-stable recorded spec = ground arith

abbrev as_result : JobStatus × JobFlags → Run (Option JobStatus × JobFlags)
as_result (status, flags) = done (some status, flags)

derive_job_found :
    (job : Job) (id : Option String) (recorded : Option JobStatus) (spec : Option JobSpec)
    (from_savepoint : String)
    → get_from_savepoint job.pod ≡ done from_savepoint
    → derive_job (some job) id recorded spec
      ≡ as_result (derive_present_job job from_savepoint id recorded)
unfolding derive_job
derive_job_found job id recorded spec from_savepoint e = rw e

derive_job-stable_found :
    (job : Job) (observed : Option String) (recorded : Option JobStatus) (spec : Option JobSpec)
    (from_savepoint : String)
    → get_from_savepoint job.pod ≡ done from_savepoint
    → let once =
        derive_present_job job from_savepoint (get_flink_job_id observed recorded) recorded in
      derive_job (some job) (get_flink_job_id observed (some once.0)) (some once.0) spec
      ≡ as_result once
derive_job-stable_found job observed recorded spec from_savepoint found =
    let id = get_flink_job_id observed recorded in
    let once = derive_present_job job from_savepoint id recorded in
    let same_id =
      get_flink_job_id-stable observed recorded once.0
        (derive_present_job-id job from_savepoint id recorded) in
    derive_job_found job _ (some once.0) spec from_savepoint found
    ∙ ap (λ i. as_result (derive_present_job job from_savepoint i (some once.0))) same_id
    ∙ ap as_result (derive_present_job_idem job from_savepoint id recorded)

-- Deriving the job again from the status just derived, under the same observation, gives the same
-- status and the same flags: a restart is counted once.
pub derive_job-stable :
    (job : Option Job) (observed : Option String) (recorded : Option JobStatus)
    (spec : Option JobSpec) {status : Option JobStatus} {flags : JobFlags}
    → derive_job job (get_flink_job_id observed recorded) recorded spec ≡ done (status, flags)
    → derive_job job (get_flink_job_id observed status) status spec ≡ done (status, flags)
unfolding derive_job
derive_job-stable (some job) observed recorded spec e =
    let (from_savepoint, found, e') = >>=-eq-done (get_from_savepoint job.pod) _ e in
    subst (λ r. derive_job (some job) (get_flink_job_id observed r.0) r.0 spec ≡ done r)
      (done-injective e') (derive_job-stable_found job observed recorded spec from_savepoint found)
derive_job-stable none observed (some recorded) (some spec) e =
    subst (λ r. derive_job none (get_flink_job_id observed r.0) r.0 (some spec) ≡ done r)
      (done-injective e) (ap as_result (derive_gone_job-stable recorded spec))
derive_job-stable none observed (some recorded) none e = cc
derive_job-stable none observed none spec e =
    subst (λ r. derive_job none (get_flink_job_id observed r.0) r.0 spec ≡ done r)
      (done-injective e) refl
