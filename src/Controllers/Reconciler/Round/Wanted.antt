-- ===== src/Controllers/Reconciler/Round/Wanted.antt =====
-- Whether a savepoint is wanted, `shouldTakeSavepoint` of controllers/flinkcluster_reconciler.go.
use flink_on_k8s_operator.Base.{
  String, some, Bool, true, false, ◌≡◌, refl, ◌⊎◌, inl, inr, List, arith, is_empty, is_some,
  Option-cases,
}
use flink_on_k8s_operator.Base.Run.{done, deref, Yields, Yields-of_Yields}
use flink_on_k8s_operator.Api.{JobStatus, JobSpec, FlinkCluster}
use flink_on_k8s_operator.Webhook.Validate.Create.{IfGiven}
use flink_on_k8s_operator.Controllers.State.{ObservedClusterState}
use flink_on_k8s_operator.Controllers.Util.{get_flink_api_base_url}
use flink_on_k8s_operator.Controllers.Effects.{Call, Env, pure, ◌>>=◌, lift}
use flink_on_k8s_operator.Controllers.Calls.{Yields-if, deref_found}
use flink_on_k8s_operator.Controllers.Reconciler.Savepoints.{
  get_flink_job_id, can_take_savepoint, is_savepoint_due, should_take_savepoint,
}
use flink_on_k8s_operator.Controllers.Reconciler.Savepoints.Cancellation.{
  can_take_savepoint-has_dir,
}
use flink_on_k8s_operator.Controllers.Reconciler.Round.{wants_savepoint}

-- The recorded time of the last savepoint can be read.
abbrev pub IsTimed : Env → JobStatus → Type 0
IsTimed env job =
    (is_empty job.last_savepoint_time ≡ true)
    ⊎ (is_some (env.parse_time job.last_savepoint_time) ≡ true)

module _ (cluster : FlinkCluster) (observed : ObservedClusterState) where
  abbrev pub IsWanted : List Call → Bool × List Call → Type 0
  IsWanted log (b, log') =
      (log' ≡ log)
      × (b ≡ true
          → (can_take_savepoint cluster ≡ true)
            × ((r : JobStatus) × (cluster.status.components.job ≡ some r)))

  pub get_flink_job_id-recorded :
      is_empty (get_flink_job_id cluster) ≡ false
      → (r : JobStatus) × (cluster.status.components.job ≡ some r)
  unfolding get_flink_job_id
  get_flink_job_id-recorded h = elim (Option-cases cluster.status.components.job) [
    | inl e ↦ let none_yet : is_empty (get_flink_job_id cluster) ≡ true = rw e refl in absurd cc
    | inr found ↦ found
  ]

  is_savepoint_due-Yields :
      (spec : JobSpec) (r : JobStatus) (env : Env) (log : List Call)
      → IsTimed env r
      → Yields (λ (b, log'). log' ≡ log) (is_savepoint_due cluster spec r env log)
  unfolding is_savepoint_due
  is_savepoint_due-Yields spec r env log h = ground arith

  module _ (url : String) (at : get_flink_api_base_url cluster ≡ done url) (env : Env)
      (timed : IfGiven (IsTimed env) cluster.status.components.job) where
    should_take_savepoint-IsWanted :
        (r : JobStatus) (log : List Call)
        → cluster.status.components.job ≡ some r
        → Yields (IsWanted log) (should_take_savepoint cluster env log)
    unfolding should_take_savepoint
    should_take_savepoint-IsWanted r log recorded =
        Yields-if (IsWanted log) (can_take_savepoint cluster) _ (pure false) env log
          (λ can.
            let (spec, dir, given, there) =
              can_take_savepoint-has_dir cluster url at r recorded can in
            deref_found (IsWanted log) cluster.spec.job spec
              (λ job. lift (deref cluster.status.components.job) >>= λ status.
                is_savepoint_due cluster job status)
              env log given
              (deref_found (IsWanted log) cluster.status.components.job r
                (λ status. is_savepoint_due cluster spec status) env log recorded
                (Yields-of_Yields _ (IsWanted log) _
                  (is_savepoint_due-Yields spec r env log (rw recorded at timed))
                  λ (b, log') e. (e, λ _. (can, (r, recorded))))))
          (λ _. (refl, λ e. absurd cc))

    pub wants_savepoint-IsWanted :
        (log : List Call) → Yields (IsWanted log) (wants_savepoint cluster observed env log)
    unfolding wants_savepoint
    wants_savepoint-IsWanted log =
        Yields-if (IsWanted log) (is_empty (get_flink_job_id cluster)) (pure false)
          (should_take_savepoint cluster) env log (λ _. (refl, λ e. absurd cc))
          λ h.
            let (r, recorded) = get_flink_job_id-recorded h in
            should_take_savepoint-IsWanted r log recorded
