-- ===== src/Controllers/Updater/Safety.antt =====
-- The updater does not panic on a cluster that passed admission, and keeps that so.
use flink_on_k8s_operator.Base.{
  ℕ, String, Option, none, some, true, false, ◌≡◌, ◌≢◌, refl, ◌⊎◌, inl, [], arith, if◌then◌else◌,
}
use flink_on_k8s_operator.Base.Run.{Yields, Yields->>=}
use flink_on_k8s_operator.K8s.{PodSpec, Job, Ingress}
use flink_on_k8s_operator.Api.{
  ClusterState, JobStatus, JobSpec, JobManagerIngressStatus, FlinkClusterStatus, FlinkCluster,
}
use flink_on_k8s_operator.Webhook.Validate.Create.{NonEmpty, Given, IfGiven}
use flink_on_k8s_operator.Controllers.State.{ObservedClusterState}
use flink_on_k8s_operator.Controllers.Util.{get_from_savepoint}
use flink_on_k8s_operator.Controllers.Updater.{derive_ingress}
use flink_on_k8s_operator.Controllers.Updater.Derive.{
  JobFlags, derive_job, stops_cluster, derive_running_state, derive_state,
}
use flink_on_k8s_operator.Controllers.Updater.Status.{derive_components, derive_cluster_status}
use flink_on_k8s_operator.Controllers.Updater.Changes.{
  is_ingress_changed, is_status_changed, Update, unchanged, write, create_status_change_events,
  update_status_of, update_status_if_changed,
}

-- A job is asked for, with a cleanup policy.
abbrev pub HasPolicy : Option JobSpec → Type 0
HasPolicy = Given (λ job. Given (λ _. Unit) job.cleanup_policy)

abbrev pub IsKnownState : ClusterState → Type 0
IsKnownState (ClusterState.other _) = ⊥
IsKnownState _ = Unit

-- The invariant of a cluster: its recorded state is one of the constants, a recorded job has a job
-- with a cleanup policy behind it, and a recorded ingress has a name.
pub record IsSound (cluster : FlinkCluster) : Type 0 where
  pub state : IsKnownState cluster.status.state
  pub job : IfGiven (λ _. HasPolicy cluster.spec.job) cluster.status.components.job
  pub ingress : IfGiven (λ i. NonEmpty i.name) cluster.status.components.job_manager_ingress

abbrev pub HasContainer : PodSpec → Type 0
HasContainer pod = pod.containers ≢ []

-- What is observed: a job resource only for a cluster with a job, with a container in its pod; an
-- ingress with a name.
pub record IsSane (cluster : FlinkCluster) (observed : ObservedClusterState) : Type 0 where
  pub job : IfGiven (λ j. HasPolicy cluster.spec.job × HasContainer j.pod) observed.job
  pub ingress : IfGiven (λ i. NonEmpty i.meta.name) observed.jm_ingress

abbrev IsBacked : Option JobSpec → Option JobStatus × JobFlags → Type 0
IsBacked spec (job, flags) =
    IfGiven (λ _. HasPolicy spec) job × ((flags.stopped ≡ false) ⊎ HasPolicy spec)

-- The block of the job ends; it stops, or leaves a job status, only where a job is asked for.
derive_job-Yields :
    (job : Option Job) (id : Option String) (recorded : Option JobStatus) (spec : Option JobSpec)
    → IfGiven (λ j. HasPolicy spec × HasContainer j.pod) job
    → IfGiven (λ _. HasPolicy spec) recorded
    → Yields (IsBacked spec) (derive_job job id recorded spec)
unfolding derive_job get_from_savepoint
derive_job-Yields (some job) id recorded spec h k = ground arith
derive_job-Yields none id (some recorded) (some spec) h k = ground arith
derive_job-Yields none id (some recorded) none h k = absurd k
derive_job-Yields none id none spec h k = (tt, inl refl)

stops_cluster-Yields :
    (flags : JobFlags) (job : JobSpec)
    → Given (λ _. Unit) job.cleanup_policy
    → Yields (λ _. Unit) (stops_cluster flags job)
unfolding stops_cluster
stops_cluster-Yields flags job h = ground arith

derive_running_state-Yields :
    (flags : JobFlags) (n : ℕ) (spec : Option JobSpec)
    → (flags.stopped ≡ false) ⊎ HasPolicy spec
    → Yields IsKnownState (derive_running_state flags n spec)
unfolding derive_running_state
derive_running_state-Yields flags n none h = ground arith
derive_running_state-Yields flags n (some job) h = ground (arith, stops_cluster-Yields flags job)

derive_state-Yields :
    (s : ClusterState) (flags : JobFlags) (n : ℕ) (spec : Option JobSpec)
    → IsKnownState s
    → (flags.stopped ≡ false) ⊎ HasPolicy spec
    → Yields IsKnownState (derive_state s flags n spec)
unfolding derive_state
derive_state-Yields ClusterState.running flags n spec k h =
    derive_running_state-Yields flags n spec h
derive_state-Yields ClusterState.reconciling flags n spec k h =
    derive_running_state-Yields flags n spec h
derive_state-Yields s flags n spec k h = ground arith

derive_ingress-IsNamed :
    (observed : Option Ingress) (recorded : Option JobManagerIngressStatus)
    → IfGiven (λ i. NonEmpty i.meta.name) observed
    → IfGiven (λ i. NonEmpty i.name) recorded
    → IfGiven (λ i. NonEmpty i.name) (derive_ingress observed recorded)
      × Yields (λ _. Unit) (is_ingress_changed recorded (derive_ingress observed recorded))
unfolding derive_ingress is_ingress_changed
derive_ingress-IsNamed observed recorded h k = ground arith

abbrev IsDerived : FlinkCluster → ObservedClusterState → FlinkClusterStatus → Type 0
IsDerived cluster observed status =
    IsSound (record cluster { status = status })
    × (status.components.job_manager_ingress
        ≡ derive_ingress observed.jm_ingress cluster.status.components.job_manager_ingress)

derive_cluster_status-IsDerived :
    (cluster : FlinkCluster) (observed : ObservedClusterState)
    → IsSound cluster
    → IsSane cluster observed
    → Yields (IsDerived cluster observed) (derive_cluster_status cluster observed)
unfolding derive_cluster_status derive_components
derive_cluster_status-IsDerived cluster observed sound sane =
    let spec = cluster.spec.job in
    Yields->>= (IsBacked spec) _ (derive_job observed.job _ cluster.status.components.job spec) _
      (derive_job-Yields observed.job _ cluster.status.components.job spec sane.job sound.job)
      λ r backed.
        Yields->>= IsKnownState _ (derive_state cluster.status.state r.1 _ spec) _
          (derive_state-Yields cluster.status.state r.1 _ spec sound.state backed.1)
          λ state known. (
            record {
              state = known;
              job = backed.0;
              ingress =
                  (derive_ingress-IsNamed observed.jm_ingress
                    cluster.status.components.job_manager_ingress sane.ingress sound.ingress).0;
            },
            refl,
          )

-- The cluster after the update.
abbrev pub updated : FlinkCluster → Update → FlinkCluster
updated cluster unchanged = cluster
updated cluster (write _ status) = record cluster { status = status }

is_status_changed-Yields :
    (current new : FlinkClusterStatus)
    → Yields
        (λ _. Unit)
        (is_ingress_changed current.components.job_manager_ingress
          new.components.job_manager_ingress)
    → Yields (λ _. Unit) (is_status_changed current new)
unfolding is_status_changed
is_status_changed-Yields current new h = Yields->>= (λ _. Unit) (λ _. Unit) _ _ h (λ _ _. tt)

IsSound-stamp :
    (cluster : FlinkCluster) (status : FlinkClusterStatus) (now : String)
    → IsSound (record cluster { status = status })
    → IsSound (record cluster { status = record status { last_update_time = now } })
IsSound-stamp cluster status now h = record { state = h.state; job = h.job; ingress = h.ingress }

update_status_of-IsSound :
    (now : String) (cluster : FlinkCluster) (observed : ObservedClusterState)
    → IsSound cluster
    → IsSane cluster observed
    → Yields (λ update. IsSound (updated cluster update)) (update_status_of now cluster observed)
unfolding update_status_of
update_status_of-IsSound now cluster observed sound sane =
    let ingress =
      derive_ingress-IsNamed observed.jm_ingress cluster.status.components.job_manager_ingress
        sane.ingress sound.ingress in
    Yields->>= (IsDerived cluster observed) _ (derive_cluster_status cluster observed) _
      (derive_cluster_status-IsDerived cluster observed sound sane)
      λ new derived.
        Yields->>= (λ _. Unit) _ (is_status_changed _ new) _
          (is_status_changed-Yields _ new (rw derived.1 ingress.1))
          λ changed _.
            elim changed
              as (λ b. IsSound (
                updated cluster (
                  if b
                  then write
                      (create_status_change_events
                        (record (cluster.status) { last_update_time = "" }) new)
                      (record new { last_update_time = now })
                  else unchanged))) [
                    | true ↦ IsSound-stamp cluster new now derived.0
                    | false ↦ sound
                  ]

-- A round of the updater ends without a panic and leaves the cluster sound, if it was sound and the
-- observed objects are sane. The comparison of the ingresses is included.
pub update_status_if_changed-IsSound :
    (now : String) (cluster : FlinkCluster) (observed : ObservedClusterState)
    → observed.cluster ≡ some cluster
    → IsSound cluster
    → IsSane cluster observed
    → Yields (λ update. IsSound (updated cluster update)) (update_status_if_changed now observed)
unfolding update_status_if_changed
update_status_if_changed-IsSound now cluster observed e sound sane =
    rw (e, update_status_if_changed) (update_status_of-IsSound now cluster observed sound sane)
