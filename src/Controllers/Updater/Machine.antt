-- ===== src/Controllers/Updater/Machine.antt =====
-- The states of a cluster as a machine: the `switch` at the end of `deriveClusterStatus`.
use flink_on_k8s_operator.Base.{
  ℕ, ◌≤◌, ◌<◌, Option, none, some, Bool, true, false, ◌≡◌, ◌≢◌, refl, ◌↔◌, ◌⊎◌, inl, inr, arith,
  Bool-cases, if◌then◌else◌,
}
use mathlib.Core.Path.{subst}
use flink_on_k8s_operator.Base.Run.{done, ◌>>=◌, >>=-eq-done}
use flink_on_k8s_operator.Api.{ClusterState, CleanupAction, CleanupPolicy, JobSpec}
use flink_on_k8s_operator.Controllers.Updater.Derive.{
  JobFlags, stops_cluster, total_components, derive_running_state, derive_state,
}

-- The policy is there and its action does not keep the cluster.
abbrev pub Wants : Bool → (CleanupPolicy → CleanupAction) → JobSpec → Type 0
Wants flag action job =
    (flag ≡ true)
    × ((p : CleanupPolicy) × (job.cleanup_policy ≡ some p)
        × (action p ≢ CleanupAction.keep_cluster))

abbrev pub Allows : Bool → (CleanupPolicy → CleanupAction) → JobSpec → Type 0
Allows flag action job =
    (flag ≡ false)
    ⊎ ((p : CleanupPolicy) × (job.cleanup_policy ≡ some p)
        × (action p ≡ CleanupAction.keep_cluster))

-- How the job ended calls for a cleanup of the cluster, by its policy.
abbrev pub CleansUp : JobFlags → JobSpec → Type 0
CleansUp flags job =
    Wants flags.succeeded (λ p. p.after_job_succeeds) job
    ⊎ Wants flags.failed (λ p. p.after_job_fails) job
    ⊎ Wants flags.cancelled (λ p. p.after_job_cancelled) job

abbrev pub KeepsCluster : JobFlags → JobSpec → Type 0
KeepsCluster flags job =
    Allows flags.succeeded (λ p. p.after_job_succeeds) job
    × Allows flags.failed (λ p. p.after_job_fails) job
    × Allows flags.cancelled (λ p. p.after_job_cancelled) job

pub data IsStarting : ClusterState → Type 0 where
  fresh : IsStarting ClusterState.unset
  creating : IsStarting ClusterState.creating

pub data IsActive : ClusterState → Type 0 where
  running : IsActive ClusterState.running
  reconciling : IsActive ClusterState.reconciling

pub data IsStopping : ClusterState → Type 0 where
  stopping : IsStopping ClusterState.stopping
  partially_stopped : IsStopping ClusterState.partially_stopped

-- The edges, each with its guard, for a job that ended as `flags` says and `n` running components.
pub data Step (flags : JobFlags) (n : ℕ) (spec : Option JobSpec)
    : ClusterState → ClusterState → Type 0 where
  wait :
      {s : ClusterState}
      → IsStarting s
      → n < total_components
      → Step flags n spec s ClusterState.creating
  start :
      {s : ClusterState}
      → IsStarting s
      → total_components ≤ n
      → Step flags n spec s ClusterState.running
  lose :
      {s : ClusterState}
      → IsActive s
      → flags.stopped ≡ false
      → n < total_components
      → Step flags n spec s ClusterState.reconciling
  run :
      {s : ClusterState}
      → IsActive s
      → flags.stopped ≡ false
      → total_components ≤ n
      → Step flags n spec s ClusterState.running
  keep :
      {s : ClusterState} (job : JobSpec)
      → IsActive s
      → flags.stopped ≡ true
      → spec ≡ some job
      → KeepsCluster flags job
      → Step flags n spec s ClusterState.running
  stop :
      {s : ClusterState} (job : JobSpec)
      → IsActive s
      → flags.stopped ≡ true
      → spec ≡ some job
      → CleansUp flags job
      → Step flags n spec s ClusterState.stopping
  not_yet :
      {s : ClusterState}
      → IsStopping s
      → total_components ≤ n
      → Step flags n spec s ClusterState.stopping
  part :
      {s : ClusterState}
      → IsStopping s
      → 0 < n
      → n < total_components
      → Step flags n spec s ClusterState.partially_stopped
  finish : {s : ClusterState} → IsStopping s → n ≡ 0 → Step flags n spec s ClusterState.stopped
  rest : Step flags n spec ClusterState.stopped ClusterState.stopped

stops_cluster-true_iff :
    (flags : JobFlags) (job : JobSpec) → (stops_cluster flags job ≡ done true) ↔ CleansUp flags job
unfolding stops_cluster
stops_cluster-true_iff flags job = ground arith

stops_cluster-false_iff :
    (flags : JobFlags) (job : JobSpec)
    → (stops_cluster flags job ≡ done false) ↔ KeepsCluster flags job
unfolding stops_cluster
stops_cluster-false_iff flags job = ground arith

ruleset edges = (wait, start, lose, run, not_yet, part, finish, rest)

ruleset kinds = (
  IsStarting.fresh, IsStarting.creating, IsActive.running, IsActive.reconciling,
  IsStopping.stopping, IsStopping.partially_stopped,
)

module _ (flags : JobFlags) (n : ℕ) where
  active_stopped-Step :
      {s s' : ClusterState} (job : JobSpec)
      → IsActive s
      → flags.stopped ≡ true
      → (stops_cluster flags job >>= λ stops.
          done (if stops then ClusterState.stopping else ClusterState.running))
        ≡ done s'
      → Step flags n (some job) s s'
  active_stopped-Step job i stopped e =
      let (stops, ended, e') = >>=-eq-done (stops_cluster flags job) _ e in
      elim (Bool-cases stops) [
        | inl y ↦
            subst (Step flags n (some job) _) (ground arith)
              (stop job i stopped refl ((stops_cluster-true_iff flags job).0 (ground arith)))
        | inr y ↦
            subst (Step flags n (some job) _) (ground arith)
              (keep job i stopped refl ((stops_cluster-false_iff flags job).0 (ground arith)))
      ]

  active-Step :
      {s s' : ClusterState} (spec : Option JobSpec)
      → IsActive s
      → derive_running_state flags n spec ≡ done s'
      → Step flags n spec s s'
  unfolding derive_running_state
  active-Step (some job) i e = elim (Bool-cases flags.stopped) [
    | inl stopped ↦ active_stopped-Step job i stopped (ground arith)
    | inr going ↦ grind (arith, edges)
  ]
  active-Step none i e = grind (arith, edges)

  -- The new state follows an edge of the machine.
  pub derive_state-Step :
      (s : ClusterState) {s' : ClusterState} (spec : Option JobSpec)
      → derive_state s flags n spec ≡ done s'
      → Step flags n spec s s'
  unfolding derive_state
  derive_state-Step ClusterState.unset spec e = grind (arith, edges, kinds)
  derive_state-Step ClusterState.creating spec e = grind (arith, edges, kinds)
  derive_state-Step ClusterState.running spec e = active-Step spec IsActive.running e
  derive_state-Step ClusterState.reconciling spec e = active-Step spec IsActive.reconciling e
  derive_state-Step ClusterState.stopping spec e = grind (arith, edges, kinds)
  derive_state-Step ClusterState.partially_stopped spec e = grind (arith, edges, kinds)
  derive_state-Step ClusterState.stopped spec e = grind (arith, edges, kinds)
  derive_state-Step (ClusterState.other _) spec e = cc

  -- Each edge is taken when its guard holds.
  Step-derive_state :
      {s s' : ClusterState} (spec : Option JobSpec)
      → Step flags n spec s s'
      → derive_state s flags n spec ≡ done s'
  unfolding derive_state derive_running_state
  Step-derive_state spec (wait IsStarting.fresh h) = ground arith
  Step-derive_state spec (wait IsStarting.creating h) = ground arith
  Step-derive_state spec (start IsStarting.fresh h) = ground arith
  Step-derive_state spec (start IsStarting.creating h) = ground arith
  Step-derive_state spec (lose IsActive.running e h) = ground arith
  Step-derive_state spec (lose IsActive.reconciling e h) = ground arith
  Step-derive_state spec (run IsActive.running e h) = ground arith
  Step-derive_state spec (run IsActive.reconciling e h) = ground arith
  Step-derive_state spec (keep job IsActive.running e j k) =
      ground (arith, (stops_cluster-false_iff flags job).1 k)
  Step-derive_state spec (keep job IsActive.reconciling e j k) =
      ground (arith, (stops_cluster-false_iff flags job).1 k)
  Step-derive_state spec (stop job IsActive.running e j c) =
      ground (arith, (stops_cluster-true_iff flags job).1 c)
  Step-derive_state spec (stop job IsActive.reconciling e j c) =
      ground (arith, (stops_cluster-true_iff flags job).1 c)
  Step-derive_state spec (not_yet IsStopping.stopping h) = ground arith
  Step-derive_state spec (not_yet IsStopping.partially_stopped h) = ground arith
  Step-derive_state spec (part IsStopping.stopping h k) = ground arith
  Step-derive_state spec (part IsStopping.partially_stopped h k) = ground arith
  Step-derive_state spec (finish IsStopping.stopping h) = ground arith
  Step-derive_state spec (finish IsStopping.partially_stopped h) = ground arith
  Step-derive_state spec rest = refl

-- The derived state is `s'` exactly when the machine has an edge to `s'` whose guard holds: the code
-- implements the machine, and the machine is deterministic.
pub derive_state_iff :
    (s s' : ClusterState) (flags : JobFlags) (n : ℕ) (spec : Option JobSpec)
    → (derive_state s flags n spec ≡ done s') ↔ Step flags n spec s s'
derive_state_iff s s' flags n spec =
    (derive_state-Step flags n s spec, Step-derive_state flags n spec)
