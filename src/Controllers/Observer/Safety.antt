-- ===== src/Controllers/Observer/Safety.antt =====
-- What a finished observation guarantees to the rest of the round.
use mathlib.Core.List.{append_assoc}
use flink_on_k8s_operator.Base.{
  ◌++◌, ap, ◌∙◌, ◌∷◌, inl, inr, String, Option, none, some, ◌≡◌, ◌≢◌, refl, List, [], arith,
}
use flink_on_k8s_operator.Base.Run.{Yields, Yields->>=}
use flink_on_k8s_operator.K8s.{Job}
use flink_on_k8s_operator.Api.{ClusterState, JobSpec, FlinkCluster}
use flink_on_k8s_operator.Webhook.Validate.Create.{Given, IfGiven}
use flink_on_k8s_operator.Controllers.State.{FlinkJob, ObservedClusterState}
use flink_on_k8s_operator.Controllers.Util.{get_flink_api_base_url}
use flink_on_k8s_operator.Controllers.Effects.{not_found, message, Result, ok, err, Call, Env, M}
use flink_on_k8s_operator.Controllers.Observer.{
  if_found, FlinkJobs, observe_flink_jobs, Request, observe_job_of, observe_job_resource, job_spec,
  observe_job, observe,
}
use flink_on_k8s_operator.Controllers.Observer.Listed.{
  AreListed, IsAnswered, IsAnsweredIn, HasPort, AreSeen, observe_flink_jobs-AreSeen,
}

abbrev pub HasJob : Option FlinkCluster → Type 0
HasJob = Given (λ cluster. Given (λ _. Unit) cluster.spec.job)

abbrev pub IsRunningCluster : Option FlinkCluster → Type 0
IsRunningCluster = Given (λ cluster. cluster.status.state ≡ ClusterState.running)

pub record IsObserved (o : ObservedClusterState) : Type 0 where
  pub job : IfGiven (λ _. HasJob o.cluster) o.job
  pub jobs : AreListed o.flink_job_list o.flink_running_job_ids o.flink_job_id
  pub running : IfGiven (λ _. HasJob o.cluster × IsRunningCluster o.cluster) o.flink_job_list

-- The result of an observation: what was observed, or an error that is not a missing object.
abbrev pub Outcome : Env → Result ObservedClusterState × List Call → Type 0
Outcome env (ok o, log) = IsObserved o × IsAnsweredIn env log o.cluster o.flink_job_list
Outcome env (err e, log) = e ≢ not_found

found-Outcome :
    {A : Type 0} (r : Result A) (next : Option A → M (Result ObservedClusterState)) (env : Env)
    (log : List Call)
    → ((o : Option A) → Yields (Outcome env) (next o env log))
    → Yields (Outcome env) (if_found r next env log)
unfolding if_found
found-Outcome (ok a) next env log h = h (some a)
found-Outcome (err not_found) next env log h = h none
found-Outcome (err (message m)) next env log h = λ e. cc

abbrev pub IfOk : {A : Type 0} → (A → Type 0) → Result A → Type 0
IfOk P (ok a) = P a
IfOk P (err _) = Unit

-- The API server stores only clusters that passed the mutating webhook.
abbrev pub StoresPorts : Env → Type 0
StoresPorts env =
    (log : List Call) (namespace name : String) → IfOk HasPort (env.get_cluster log namespace name)

-- What is observed before the job.
abbrev IsBeforeJob : ObservedClusterState → Type 0
IsBeforeJob o =
    (o.job ≡ none)
    × (o.flink_job_list ≡ none)
    × (o.flink_running_job_ids ≡ [])
    × (o.flink_job_id ≡ none)

module _ (request : Request) (env : Env) where
  -- The last step: the job resource beside the Flink jobs.
  with_job-IsObserved :
      (o : ObservedClusterState) (cluster : FlinkCluster) (spec : JobSpec) (jobs : FlinkJobs)
      (job : Option Job) (log : List Call)
      → o.cluster ≡ some cluster
      → cluster.spec.job ≡ some spec
      → AreSeen env cluster (jobs, log)
      → IsObserved (record o {
        flink_job_list = jobs.job_list;
        flink_running_job_ids = jobs.running_job_ids;
        flink_job_id = jobs.job_id;
        job = job;
      })
  with_job-IsObserved o cluster spec jobs job log e f seen = record {
    job = ground arith;
    jobs = seen.0;
    running = ground arith;
  }

  without_job-IsObserved : (o : ObservedClusterState) → IsBeforeJob o → IsObserved o
  without_job-IsObserved o fresh = record {
    job = ground arith;
    jobs = ground arith;
    running = ground arith;
  }

  -- One more call after the answer.
  IsAnswered-later :
      (cluster : FlinkCluster) (list : Option (List FlinkJob)) (log : List Call) (c : Call)
      → IsAnswered env log cluster list
      → IsAnswered env (log ++ c ∷ []) cluster list
  IsAnswered-later cluster list log c (inl idle) = inl idle
  IsAnswered-later cluster list log c (inr (r, (url, before, after, at, e, answer))) = inr (
    r,
    (
      url,
      before,
      after ++ c ∷ [],
      at,
      ap (λ l. l ++ c ∷ []) e ∙ append_assoc before _ (c ∷ []),
      answer,
    ),
  )

  IsAnswered-in :
      (c : Option FlinkCluster) (cluster : FlinkCluster) (spec : JobSpec) (log : List Call)
      (list : Option (List FlinkJob))
      → c ≡ some cluster
      → cluster.spec.job ≡ some spec
      → IsAnswered env log cluster list
      → IsAnsweredIn env log c list
  unfolding get_flink_api_base_url
  IsAnswered-in c cluster spec log list e f answered = rw (e, f) answered

  unasked :
      (o c : Option FlinkCluster) (log : List Call) (list : Option (List FlinkJob))
      → o ≡ c
      → IfGiven (λ c. c.spec.job ≡ none) c
      → list ≡ none
      → IsAnsweredIn env log o list
  unasked o none log list e h f = rw e f
  unasked o (some c) log list e h f = rw (e, h) f

  observe_job_of-Outcome :
      (cluster : Option FlinkCluster) (spec : Option JobSpec) (o : ObservedClusterState)
      (log : List Call)
      → o.cluster ≡ cluster
      → IfGiven (λ c. c.spec.job ≡ spec) cluster
      → IsBeforeJob o
      → IfGiven HasPort cluster
      → Yields (Outcome env) (observe_job_of request cluster spec o env log)
  unfolding observe_job_of observe_job_resource
  observe_job_of-Outcome (some cluster) (some spec) o log e f fresh port =
      Yields->>= (AreSeen env cluster) (Outcome env) (observe_flink_jobs cluster env log) _
        (observe_flink_jobs-AreSeen cluster env log port)
        λ (jobs, log') seen. found-Outcome _ _ env _ (λ job. (
          with_job-IsObserved o cluster spec jobs job log' e f seen,
          IsAnswered-in o.cluster cluster spec _ jobs.job_list e f
              (IsAnswered-later cluster jobs.job_list log' _ seen.2),
        ))
  observe_job_of-Outcome (some cluster) none o log e f fresh port =
      (without_job-IsObserved o fresh, unasked o.cluster (some cluster) log _ e f fresh.1)
  observe_job_of-Outcome none spec o log e f fresh port =
      (without_job-IsObserved o fresh, unasked o.cluster none log _ e tt fresh.1)

  observe_job-Outcome :
      (o : ObservedClusterState) (log : List Call)
      → IsBeforeJob o
      → IfGiven HasPort o.cluster
      → Yields (Outcome env) (observe_job request o env log)
  unfolding observe_job
  observe_job-Outcome o log fresh h =
      observe_job_of-Outcome o.cluster _ o log refl (own_job o.cluster) fresh h
    where
      own_job : (c : Option FlinkCluster) → IfGiven (λ d. d.spec.job ≡ job_spec request c) c
      own_job none = tt
      own_job (some c) = refl

  found-HasPort :
      (r : Result FlinkCluster) (next : Option FlinkCluster → M (Result ObservedClusterState))
      (log : List Call)
      → IfOk HasPort r
      → ((o : Option FlinkCluster) → IfGiven HasPort o → Yields (Outcome env) (next o env log))
      → Yields (Outcome env) (if_found r next env log)
  unfolding if_found
  found-HasPort (ok a) next log p h = h (some a) p
  found-HasPort (err not_found) next log p h = h none tt
  found-HasPort (err (message m)) next log p h = λ e. cc

  -- If the stored clusters have a UI port, an observation ends without a panic: with an error other than a
  -- missing object, or with an observed state. There a job resource shows only for a cluster with a job. The
  -- job list is there only for a running cluster with a job; it is then what the REST API listed at the
  -- address of the cluster, and it is missing if the API answered with an error. The running IDs are those of
  -- the listed jobs that run, in their order, and the followed job is chosen from the two.
  pub observe-Outcome :
      (log : List Call) → StoresPorts env → Yields (Outcome env) (observe request env log)
  unfolding observe
  observe-Outcome log ports =
      found-HasPort _ _ _ (ports log request.namespace request.name) λ cluster port.
        found-Outcome _ _ env _ λ config_map. found-Outcome _ _ env _ λ jm_deployment.
          found-Outcome _ _ env _ λ jm_service. found-Outcome _ _ env _ λ jm_ingress.
            found-Outcome _ _ env _
              λ tm_deployment. observe_job-Outcome _ _ (refl, refl, refl, refl) port
