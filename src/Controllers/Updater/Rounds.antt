-- ===== src/Controllers/Updater/Rounds.antt =====
-- The machine over many rounds: it never goes back, and it settles.
use flink_on_k8s_operator.Base.{ℕ, ◌≤◌, Option, ◌≡◌, arith, Bool-cases}
use flink_on_k8s_operator.Base.Run.{done}
use flink_on_k8s_operator.Api.{ClusterState, JobSpec}
use flink_on_k8s_operator.Controllers.Updater.Derive.{JobFlags, derive_running_state, derive_state}
use flink_on_k8s_operator.Controllers.Updater.Machine.{
  IsStarting, IsActive, IsStopping, Step, derive_state_iff,
}

-- Rounds from one state to another, whatever is observed in each.
pub data Rounds (first : ClusterState) : ClusterState → Type 0 where
  none_yet : Rounds first first
  round :
      {s t : ClusterState} (flags : JobFlags) (n : ℕ) (spec : Option JobSpec)
      → Rounds first s
      → derive_state s flags n spec ≡ done t
      → Rounds first t

-- Creation, activity, stopping, the end.
abbrev pub phase : ClusterState → ℕ
phase ClusterState.unset = 0
phase ClusterState.creating = 0
phase ClusterState.running = 1
phase ClusterState.reconciling = 1
phase ClusterState.stopping = 2
phase ClusterState.partially_stopped = 2
phase ClusterState.stopped = 3
phase (ClusterState.other _) = 4

Step-phase :
    {flags : JobFlags} {n : ℕ} {spec : Option JobSpec} {s t : ClusterState}
    → Step flags n spec s t
    → (phase s ≤ phase t) × (phase t ≤ 3)
Step-phase (Step.wait IsStarting.fresh h) = omega arith
Step-phase (Step.wait IsStarting.creating h) = omega arith
Step-phase (Step.start IsStarting.fresh h) = omega arith
Step-phase (Step.start IsStarting.creating h) = omega arith
Step-phase (Step.lose IsActive.running e h) = omega arith
Step-phase (Step.lose IsActive.reconciling e h) = omega arith
Step-phase (Step.run IsActive.running e h) = omega arith
Step-phase (Step.run IsActive.reconciling e h) = omega arith
Step-phase (Step.keep job IsActive.running e j k) = omega arith
Step-phase (Step.keep job IsActive.reconciling e j k) = omega arith
Step-phase (Step.stop job IsActive.running e j k) = omega arith
Step-phase (Step.stop job IsActive.reconciling e j k) = omega arith
Step-phase (Step.not_yet IsStopping.stopping h) = omega arith
Step-phase (Step.not_yet IsStopping.partially_stopped h) = omega arith
Step-phase (Step.part IsStopping.stopping h k) = omega arith
Step-phase (Step.part IsStopping.partially_stopped h k) = omega arith
Step-phase (Step.finish IsStopping.stopping h) = omega arith
Step-phase (Step.finish IsStopping.partially_stopped h) = omega arith
Step-phase Step.rest = omega arith

-- A cluster never goes back to an earlier phase: one that stops never runs again, and a stopped
-- one stays stopped.
pub Rounds-phase : {s t : ClusterState} → Rounds s t → phase s ≤ phase t
Rounds-phase none_yet = omega arith
Rounds-phase (round {s} {t} flags n spec r e) =
    omega (arith, Rounds-phase r, Step-phase ((derive_state_iff s t flags n spec).0 e))

-- Under the same observation the state is settled after three rounds at most.
pub derive_state_settles :
    (s t u v : ClusterState) (flags : JobFlags) (n : ℕ) (spec : Option JobSpec)
    → derive_state s flags n spec ≡ done t
    → derive_state t flags n spec ≡ done u
    → derive_state u flags n spec ≡ done v
    → derive_state v flags n spec ≡ done v
unfolding derive_state derive_running_state
derive_state_settles ClusterState.unset t u v flags n spec e f g =
    ground (arith, Bool-cases flags.stopped)
derive_state_settles _ t u v flags n spec e f g = ground (arith, Bool-cases flags.stopped)
