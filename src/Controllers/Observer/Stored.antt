-- ===== src/Controllers/Observer/Stored.antt =====
-- The observer only reads, and reports objects as they are stored.
use mathlib.Core.List.{append-nil, append_assoc}
use flink_on_k8s_operator.Base.{
  String, Option, none, some, ◌≡◌, refl, sym, ◌∙◌, ap, List, [], ◌∷◌, ◌++◌, All, All-append,
  Option-cases, inl, inr,
}
use flink_on_k8s_operator.Base.Run.{Yields, Yields->>=}
use flink_on_k8s_operator.K8s.{Job, Ingress}
use flink_on_k8s_operator.Api.{JobSpec, FlinkCluster}
use flink_on_k8s_operator.Webhook.Validate.Create.{IfGiven}
use flink_on_k8s_operator.Controllers.State.{ObservedClusterState}
use flink_on_k8s_operator.Controllers.Util.{get_flink_api_base_url}
use flink_on_k8s_operator.Controllers.Effects.{not_found, message, Result, ok, err, Call, Env, M}
use flink_on_k8s_operator.Controllers.Calls.{Added, Calls, Yields-if}
use flink_on_k8s_operator.Controllers.Observer.{
  if_found, is_running, observe_flink_jobs, Request, observe_job_of, observe_job_resource,
  observe_job, observe, observe_cluster, observe_config_map, observe_job_manager_deployment,
  observe_job_manager_service, observe_job_manager_ingress, observe_task_manager_deployment,
  observe_deployment,
}
use flink_on_k8s_operator.Controllers.Observer.Listed.{HasPort}
use flink_on_k8s_operator.Controllers.Observer.Safety.{IfOk}

abbrev pub IsRead : Call → Type 0
IsRead (Call.get kind namespace name) = Unit
IsRead (Call.list_jobs url) = Unit
IsRead _ = ⊥

-- The calls from one point of a run to another are reads.
abbrev pub Reads : List Call → List Call → Type 0
Reads log log' = (calls : List Call) × (log' ≡ log ++ calls) × All IsRead calls

none_yet : (log : List Call) → Reads log log
none_yet log = ([], sym (append-nil log), tt)

Reads-trans : (log log' log'' : List Call) → Reads log log' → Reads log' log'' → Reads log log''
Reads-trans log log' log'' (calls, e, all) (calls', e', all') = (
  calls ++ calls',
  e' ∙ ap (λ l. l ++ calls') e ∙ append_assoc log calls calls',
  All-append IsRead calls calls' all all',
)

one_more :
    (log log' : List Call) (c : Call) → IsRead c → Reads log log' → Reads log (log' ++ c ∷ [])
one_more log log' c read r = Reads-trans log log' (log' ++ c ∷ []) r (c ∷ [], refl, (read, tt))

-- A UI port is dereferenced only of a running cluster.
observe_flink_jobs-Reads :
    (cluster : FlinkCluster) (env : Env) (log : List Call)
    → HasPort cluster
    → Calls IsRead (observe_flink_jobs cluster) env log
unfolding observe_flink_jobs get_flink_api_base_url
observe_flink_jobs-Reads cluster env log h = elim (Option-cases cluster.spec.job_manager.ports.ui) [
  | inl e ↦ absurd (rw e at h)
  | inr (ui, e) ↦
      Yields-if (Added IsRead log) (is_running cluster.status.state) _ _ env log
        (λ _. rw e (Call.list_jobs _ ∷ [], refl, (tt, tt))) λ _. ([], sym (append-nil log), tt)
]

-- What is known of the stored clusters, jobs and ingresses.
module _ (env : Env) (PC : FlinkCluster → Type 0) (PJ : Job → Type 0) (PI : Ingress → Type 0) where
  abbrev pub Holds : ObservedClusterState → Type 0
  Holds o = IfGiven PC o.cluster × IfGiven PJ o.job × IfGiven PI o.jm_ingress

  abbrev pub IsStored : List Call → Result ObservedClusterState × List Call → Type 0
  IsStored log (r, log') = Reads log log' × IfOk Holds r

  module _ (log : List Call) where
    found-IsStored :
        {A : Type 0} (P : A → Type 0) (r : Result A)
        (next : Option A → M (Result ObservedClusterState)) (log' : List Call)
        → Reads log log'
        → IfOk P r
        → ((o : Option A) → IfGiven P o → Yields (IsStored log) (next o env log'))
        → Yields (IsStored log) (if_found r next env log')
    unfolding if_found
    found-IsStored P (ok a) next log' reads p h = h (some a) p
    found-IsStored P (err not_found) next log' reads p h = h none tt
    found-IsStored P (err (message m)) next log' reads p h = (reads, tt)

    -- An object of which nothing is known.
    found_any :
        {A : Type 0} (r : Result A) (next : Option A → M (Result ObservedClusterState))
        (log' : List Call)
        → Reads log log'
        → ((o : Option A) → Yields (IsStored log) (next o env log'))
        → Yields (IsStored log) (if_found r next env log')
    unfolding if_found
    found_any (ok a) next log' reads h = h (some a)
    found_any (err not_found) next log' reads h = h none
    found_any (err (message m)) next log' reads h = (reads, tt)

    module _ (ports : (c : FlinkCluster) → PC c → HasPort c)
        (jobs : (log : List Call) (namespace name : String)
          → IfOk PJ (env.get_job log namespace name))
        (request : Request) where
      -- Before the job, no job is observed.
      observe_job_of-IsStored :
          (c : Option FlinkCluster) (spec : Option JobSpec) (o : ObservedClusterState)
          (log' : List Call)
          → Reads log log'
          → o.cluster ≡ c
          → o.job ≡ none
          → Holds o
          → Yields (IsStored log) (observe_job_of request c spec o env log')
      unfolding observe_job_of observe_job_resource
      observe_job_of-IsStored (some cluster) (some spec) o log' reads e fresh holds =
          Yields->>= (Added IsRead log') (IsStored log) (observe_flink_jobs cluster env log') _
            (observe_flink_jobs-Reads cluster env log'
              (ports cluster (let held = holds.0 in rw e at held)))
            λ (js, log'') added.
              found-IsStored PJ _ _ _
                (one_more log log'' _ tt (Reads-trans log log' log'' reads added))
                (jobs log'' request.namespace _)
                λ job p. (
                  (one_more log log'' _ tt (Reads-trans log log' log'' reads added)),
                  (holds.0, p, holds.2),
                )
      observe_job_of-IsStored (some cluster) none o log' reads e fresh holds = (reads, holds)
      observe_job_of-IsStored none spec o log' reads e fresh holds = (reads, holds)

      -- An observation ends without a panic and makes reads alone; the cluster, the job and the
      -- ingress that it reports are as they are stored.
      pub observe-IsStored :
          ((log : List Call) (namespace name : String)
            → IfOk PC (env.get_cluster log namespace name))
          → ((log : List Call) (namespace name : String)
              → IfOk PI (env.get_ingress log namespace name))
          → Yields (IsStored log) (observe request env log)
      unfolding observe observe_cluster observe_config_map observe_job_manager_deployment
          observe_job_manager_service observe_job_manager_ingress observe_task_manager_deployment
          observe_deployment observe_job
      observe-IsStored clusters ingresses =
          let r1 = one_more log log _ tt (none_yet log) in
          found-IsStored PC _ _ _ r1 (clusters log request.namespace request.name) λ c pc.
            let r2 = one_more log _ _ tt r1 in
            found_any _ _ _ r2 λ _.
              let r3 = one_more log _ _ tt r2 in
              found_any _ _ _ r3 λ _.
                let r4 = one_more log _ _ tt r3 in
                found_any _ _ _ r4 λ _.
                  let r5 = one_more log _ _ tt r4 in
                  found-IsStored PI _ _ _ r5 (ingresses _ request.namespace _) λ i pi.
                    let r6 = one_more log _ _ tt r5 in
                    found_any _ _ _ r6
                      λ _. observe_job_of-IsStored c _ _ _ r6 refl refl (pc, tt, pi)
