-- ===== src/Controllers/Observer/Jobs.antt =====
-- Which Flink job a round follows: the end of `observeFlinkJobs`.
use mathlib.Core.List.{Memᴰ}
use flink_on_k8s_operator.Base.{
  String, some, ◌≡◌, refl, List, [], ◌∷◌, ◌==◌, eq_iff, All, Bool-cases, inl, inr, arith,
}
use flink_on_k8s_operator.Controllers.State.{FlinkJob}
use flink_on_k8s_operator.Controllers.Observer.{running_job_ids, extract_flink_job_id}

abbrev pub IsRunning : FlinkJob → Type 0
IsRunning job = job.status ≡ "RUNNING"

-- The job with this ID is listed, and no other ID belongs to a running job.
pub record IsFollowed (jobs : List FlinkJob) (id : String) : Type 0 where
  pub job : FlinkJob
  pub listed : Memᴰ job jobs
  pub same_id : job.id ≡ id
  pub alone : All (λ other. IsRunning other → other.id ≡ id) jobs

running_job_ids-nil :
    (jobs : List FlinkJob) (id : String)
    → running_job_ids jobs ≡ []
    → All (λ other. IsRunning other → other.id ≡ id) jobs
unfolding running_job_ids
running_job_ids-nil [] id e = tt
running_job_ids-nil (job ∷ jobs) id e = elim (Bool-cases (job.status == "RUNNING")) [
  | inl y ↦ ground arith
  | inr n ↦
      (λ r. ground (arith, eq_iff job.status "RUNNING"), running_job_ids-nil jobs id (ground arith))
]

running_job_ids-IsFollowed :
    (jobs : List FlinkJob) (id : String) → running_job_ids jobs ≡ id ∷ [] → IsFollowed jobs id
unfolding running_job_ids
running_job_ids-IsFollowed [] id e = ground arith
running_job_ids-IsFollowed (job ∷ jobs) id e = elim (Bool-cases (job.status == "RUNNING")) [
  | inl y ↦ record {
    job = job;
    listed = Memᴰ.head refl;
    same_id = ground arith;
    alone = (λ _. ground arith, running_job_ids-nil jobs id (ground arith));
  }
  | inr n ↦
      let rest = running_job_ids-IsFollowed jobs id (ground arith) in
      record {
        job = rest.job;
        listed = Memᴰ.tail rest.listed;
        same_id = rest.same_id;
        alone = (λ r. ground (arith, eq_iff job.status "RUNNING"), rest.alone);
      }
]

-- A followed ID belongs to a listed job, and no running job has another ID: a round never follows
-- one of several running jobs.
pub extract_flink_job_id-IsFollowed :
    (jobs : List FlinkJob) (id : String)
    → extract_flink_job_id jobs (running_job_ids jobs) ≡ some id
    → IsFollowed jobs id
unfolding extract_flink_job_id
extract_flink_job_id-IsFollowed jobs id e = go (running_job_ids jobs) refl e
  where
    alone_job :
        (js : List FlinkJob)
        → running_job_ids js ≡ []
        → extract_flink_job_id js [] ≡ some id
        → IsFollowed js id
    alone_job [] r k = ground arith
    alone_job (j ∷ []) r k = record {
      job = j;
      listed = Memᴰ.head refl;
      same_id = ground arith;
      alone = running_job_ids-nil (j ∷ []) id r;
    }
    alone_job (a ∷ b ∷ more) r k = ground arith

    go :
        (ids : List String)
        → running_job_ids jobs ≡ ids
        → extract_flink_job_id jobs ids ≡ some id
        → IsFollowed jobs id
    go [] r k = alone_job jobs r k
    go (i ∷ []) r k = running_job_ids-IsFollowed jobs id (ground arith)
    go (a ∷ b ∷ more) r k = ground arith
