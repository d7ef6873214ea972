-- ===== src/Controllers/Tests.antt =====
-- The observer and the Flink client at a sample cluster.
use flink_on_k8s_operator.Base.{some, ◌≡◌, refl, List, [], ◌∷◌}
use flink_on_k8s_operator.Base.Run.{Yields}
use flink_on_k8s_operator.Controllers.State.{FlinkJob}
use flink_on_k8s_operator.Controllers.FlinkClient.{take_savepoint}
use flink_on_k8s_operator.Controllers.FlinkClient.Polling.{IsSavepoint, take_savepoint-IsSavepoint}
use flink_on_k8s_operator.Controllers.Observer.{
  Request, extract_flink_job_id, running_job_ids, observe,
}
use flink_on_k8s_operator.Controllers.Observer.Jobs.{IsFollowed, extract_flink_job_id-IsFollowed}
use flink_on_k8s_operator.Controllers.Observer.Safety.{Outcome, observe-Outcome}
use flink_on_k8s_operator.Samples.{sample_env}

abbrev sample_request : Request
sample_request = record { namespace = "flink"; name = "wordcount" }

observe-Outcome_example : Yields (Outcome sample_env) (observe sample_request sample_env [])
observe-Outcome_example = observe-Outcome sample_request sample_env [] (λ log namespace name. tt)

abbrev two_jobs : List FlinkJob
two_jobs = record { id = "a0"; status = "FINISHED" } ∷ record { id = "a1"; status = "RUNNING" } ∷ []

running_job_extracted : extract_flink_job_id two_jobs (running_job_ids two_jobs) ≡ some "a1"
unfolding extract_flink_job_id running_job_ids
running_job_extracted = refl

extract_flink_job_id-IsFollowed_example : IsFollowed two_jobs "a1"
extract_flink_job_id-IsFollowed_example =
    extract_flink_job_id-IsFollowed two_jobs "a1" running_job_extracted

take_savepoint-IsSavepoint_example :
    Yields
      (IsSavepoint "http://flink" "a1" "gs://savepoints" sample_env [])
      (take_savepoint "http://flink" "a1" "gs://savepoints" sample_env [])
take_savepoint-IsSavepoint_example =
    take_savepoint-IsSavepoint "http://flink" "a1" "gs://savepoints" sample_env []
