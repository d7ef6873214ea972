-- ===== src/Controllers/Observer/Listed.antt =====
-- What is reported of the Flink jobs, `observeFlinkJobs` of controllers/flinkcluster_observer.go.
use Prim.Native.String.{◌++◌ as str_append}
use flink_on_k8s_operator.Base.{
  ◌↔◌, ◌++◌, ◌∷◌, ◌⊎◌, inl, inr, true, Bool-cases, eq_iff, ◌==◌, String, Option, none, some, ◌≡◌,
  ◌≢◌, refl, List, [], arith,
}
use flink_on_k8s_operator.Base.Run.{done, Yields-eq, Yields}
use flink_on_k8s_operator.Api.{ClusterState, JobSpec, FlinkCluster}
use flink_on_k8s_operator.Webhook.Validate.Create.{Given, IfGiven}
use flink_on_k8s_operator.Controllers.State.{FlinkJob}
use flink_on_k8s_operator.Controllers.Util.{get_flink_api_base_url}
use flink_on_k8s_operator.Controllers.Effects.{Result, ok, err, Call, Env}
use flink_on_k8s_operator.Controllers.FlinkClient.{get_job_status_list}
use flink_on_k8s_operator.Controllers.Calls.{Yields-if}
use flink_on_k8s_operator.Controllers.Observer.{
  seen_jobs, is_running, FlinkJobs, running_job_ids, extract_flink_job_id, observe_flink_jobs,
}

-- The IDs of the jobs that run, in the order of the list.
abbrev pub AreRunning : List FlinkJob → List String → Type 0
AreRunning [] ids = ids ≡ []
AreRunning (job ∷ jobs) ids =
    ((job.status ≢ "RUNNING") × AreRunning jobs ids)
    ⊎ ((job.status ≡ "RUNNING")
        × ((rest : List String) × (ids ≡ job.id ∷ rest) × AreRunning jobs rest))

-- What is reported along with a job list.
abbrev pub AreListed : Option (List FlinkJob) → List String → Option String → Type 0
AreListed none ids id = (ids ≡ []) × (id ≡ none)
AreListed (some jobs) ids id = AreRunning jobs ids × (id ≡ extract_flink_job_id jobs ids)

-- The job list is the answer of the REST API; there is none beside an error.
abbrev pub IsAnswer : Result (List FlinkJob) → Option (List FlinkJob) → Type 0
IsAnswer (ok jobs) list = list ≡ some jobs
IsAnswer (err e) list = list ≡ none

-- The API was asked, at the address of the cluster, if it runs, else not at all. The answer is that of
-- the call among those made.
abbrev pub IsAnswered : Env → List Call → FlinkCluster → Option (List FlinkJob) → Type 0
IsAnswered env log cluster list =
    ((cluster.status.state ≢ ClusterState.running) × (list ≡ none))
    ⊎ ((cluster.status.state ≡ ClusterState.running)
        × ((url : String) × (before after : List Call) × (get_flink_api_base_url cluster ≡ done url)
            × (log ≡ before ++ Call.list_jobs (str_append url "/jobs") ∷ after)
            × IsAnswer (env.jobs before (str_append url "/jobs")) list))

abbrev pub IsAnsweredOf :
    Env → List Call → FlinkCluster → Option JobSpec → Option (List FlinkJob) → Type 0
IsAnsweredOf env log cluster none list = list ≡ none
IsAnsweredOf env log cluster (some job) list = IsAnswered env log cluster list

-- Of a cluster that is there and has a job.
abbrev pub IsAnsweredIn : Env → List Call → Option FlinkCluster → Option (List FlinkJob) → Type 0
IsAnsweredIn env log none list = list ≡ none
IsAnsweredIn env log (some cluster) list = IsAnsweredOf env log cluster cluster.spec.job list

-- A UI port is given, as defaulting sees to.
abbrev pub HasPort : FlinkCluster → Type 0
HasPort cluster = Given (λ _. Unit) cluster.spec.job_manager.ports.ui

abbrev pub AreSeen : Env → FlinkCluster → FlinkJobs × List Call → Type 0
AreSeen env cluster (jobs, log) =
    AreListed jobs.job_list jobs.running_job_ids jobs.job_id
    × IfGiven (λ _. cluster.status.state ≡ ClusterState.running) jobs.job_list
    × IsAnswered env log cluster jobs.job_list

running_job_ids-AreRunning : (jobs : List FlinkJob) → AreRunning jobs (running_job_ids jobs)
unfolding running_job_ids
running_job_ids-AreRunning [] = refl
running_job_ids-AreRunning (job ∷ jobs) = elim (Bool-cases (job.status == "RUNNING")) [
  | inl e ↦
      rw e (inr ((eq_iff _ _).0 e, (running_job_ids jobs, refl, running_job_ids-AreRunning jobs)))
  | inr n ↦
      rw n (inl (λ e. cc (n, (eq_iff job.status "RUNNING").1 e), running_job_ids-AreRunning jobs))
]

seen_jobs-AreSeen :
    (cluster : FlinkCluster) (env : Env) (log : List Call) (url : String)
    (reply : Result (List FlinkJob))
    → get_flink_api_base_url cluster ≡ done url
    → cluster.status.state ≡ ClusterState.running
    → env.jobs log (str_append url "/jobs") ≡ reply
    → AreSeen env cluster (seen_jobs reply, log ++ Call.list_jobs (str_append url "/jobs") ∷ [])
seen_jobs-AreSeen cluster env log url (ok jobs) at r e =
    ((running_job_ids-AreRunning jobs, refl), r, inr (r, (url, log, [], at, refl, rw e refl)))
seen_jobs-AreSeen cluster env log url (err x) at r e =
    ((refl, refl), tt, inr (r, (url, log, [], at, refl, rw e refl)))

is_running_iff : (s : ClusterState) → (is_running s ≡ true) ↔ (s ≡ ClusterState.running)
is_running_iff s = ground arith

has_url :
    (cluster : FlinkCluster) → HasPort cluster → Yields (λ _. Unit) (get_flink_api_base_url cluster)
unfolding get_flink_api_base_url
has_url cluster h = ground arith

pub observe_flink_jobs-AreSeen :
    (cluster : FlinkCluster) (env : Env) (log : List Call)
    → HasPort cluster
    → Yields (AreSeen env cluster) (observe_flink_jobs cluster env log)
unfolding observe_flink_jobs get_job_status_list
observe_flink_jobs-AreSeen cluster env log h =
    let (url, _, at) = Yields-eq (λ _. Unit) (get_flink_api_base_url cluster) (has_url cluster h) in
    Yields-if (AreSeen env cluster) (is_running cluster.status.state) _ _ env log
      (λ r. rw at (
        seen_jobs-AreSeen cluster env log url _ at ((is_running_iff cluster.status.state).0 r)
          refl))
      λ n. ((refl, refl), tt, inl (λ r. cc (n, (is_running_iff cluster.status.state).1 r), refl))
