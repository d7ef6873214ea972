-- ===== src/Webhook/Validate/Update.antt =====
-- Which updates `ValidateUpdate` accepts, and what any sequence of them can change.
use flink_on_k8s_operator.Base.{
  Option, none, some, Bool, true, false, ◌≡◌, ◌≢◌, refl, ap, ◌↔◌, ◌⊎◌, inl, inr, arith, is_set,
}
use flink_on_k8s_operator.Base.Int.{ℤ, succ_int32, eqb_ℤ_iff}
use flink_on_k8s_operator.Api.{JobSpec, FlinkClusterSpec, FlinkCluster, equal_specs_iff}
use flink_on_k8s_operator.Webhook.Validate.{
  Error, Checked, returns, status_generation, check_cancel_requested, check_savepoint_generation,
  check_cancel_of, check_generation_of, accept_or, validate_update,
}

-- The job is cancelled, and nothing else changes.
pub record IsCancellation (old new : FlinkCluster) : Type 0 where
  pub job : JobSpec
  pub running : old.spec.job ≡ some job
  pub not_yet : is_set job.cancel_requested ≡ false
  pub same_rest :
      new.spec ≡ record old.spec { job = some (record job { cancel_requested = some true }) }

-- A savepoint is asked for: the generation becomes the next one after that of the status.
pub record IsSavepointRequest (old new : FlinkCluster) : Type 0 where
  pub job : JobSpec
  pub running : old.spec.job ≡ some job
  pub moved : job.savepoint_generation ≢ succ_int32 (status_generation old.status.components.job)
  pub same_rest : new.spec ≡ record old.spec {
    job = some (record job {
      savepoint_generation = succ_int32 (status_generation old.status.components.job);
    });
  }

abbrev pub IsAllowed : FlinkCluster → FlinkCluster → Type 0
IsAllowed old new = (new.spec ≡ old.spec) ⊎ IsCancellation old new ⊎ IsSavepointRequest old new

abbrev cancelled_spec : FlinkClusterSpec → JobSpec → Option Bool → FlinkClusterSpec
cancelled_spec spec job c = record spec { job = some (record job { cancel_requested = c }) }

abbrev requested_spec : FlinkClusterSpec → JobSpec → ℤ → FlinkClusterSpec
requested_spec spec job n = record spec { job = some (record job { savepoint_generation = n }) }

check_cancel_of_sound :
    (old new : FlinkCluster) (old_job new_job : JobSpec)
    → old.spec.job ≡ some old_job
    → check_cancel_of old new (some old_job) (some new_job) ≡ returns true
    → IsCancellation old new
unfolding check_cancel_of
check_cancel_of_sound old new old_job new_job running h =
    let same =
      equal_specs_iff new.spec (cancelled_spec old.spec old_job new_job.cancel_requested) in
    record {
      job = old_job;
      running = running;
      not_yet = ground arith;
      same_rest = ground (arith, same);
    }

check_cancel_requested_sound :
    (old new : FlinkCluster)
    → check_cancel_requested old new ≡ returns true
    → IsCancellation old new
unfolding check_cancel_requested
check_cancel_requested_sound old new h = go old.spec.job new.spec.job refl h
  where
    go :
        (a b : Option JobSpec)
        → old.spec.job ≡ a
        → check_cancel_of old new a b ≡ returns true
        → IsCancellation old new
    go (some a) (some b) e k = check_cancel_of_sound old new a b e k
    go none b e k = cc
    go (some a) none e k = cc

check_generation_of_sound :
    (old new : FlinkCluster) (old_job new_job : JobSpec)
    → old.spec.job ≡ some old_job
    → check_generation_of old new (some old_job) (some new_job) ≡ returns true
    → IsSavepointRequest old new
unfolding check_generation_of
check_generation_of_sound old new old_job new_job running h =
    let next = succ_int32 (status_generation old.status.components.job) in
    let same =
      equal_specs_iff new.spec (requested_spec old.spec old_job new_job.savepoint_generation) in
    let is_next = eqb_ℤ_iff new_job.savepoint_generation next in
    record {
      job = old_job;
      running = running;
      moved =
          ground
            (arith, eqb_ℤ_iff old_job.savepoint_generation new_job.savepoint_generation, is_next);
      same_rest = ground (arith, same, is_next);
    }

check_savepoint_generation_sound :
    (old new : FlinkCluster)
    → check_savepoint_generation old new ≡ returns true
    → IsSavepointRequest old new
unfolding check_savepoint_generation
check_savepoint_generation_sound old new h = go old.spec.job new.spec.job refl h
  where
    go :
        (a b : Option JobSpec)
        → old.spec.job ≡ a
        → check_generation_of old new a b ≡ returns true
        → IsSavepointRequest old new
    go (some a) (some b) e k = check_generation_of_sound old new a b e k
    go none b e k = cc
    go (some a) none e k = cc

accept_or-none :
    (c : Checked) (rest : Option Error)
    → accept_or c rest ≡ none
    → (c ≡ returns true) ⊎ ((c ≡ returns false) × (rest ≡ none))
accept_or-none c rest h = ground arith

validate_update_sound :
    (old new : FlinkCluster) → validate_update old new ≡ none → IsAllowed old new
unfolding validate_update
validate_update_sound old new h = elim (accept_or-none (check_cancel_requested old new) _ h) [
  | inl e ↦ inr (inl (check_cancel_requested_sound old new e))
  | inr (_, h') ↦ elim (accept_or-none (check_savepoint_generation old new) _ h') [
    | inl e ↦ inr (inr (check_savepoint_generation_sound old new e))
    | inr (_, h'') ↦ inl (ground (arith, equal_specs_iff new.spec old.spec))
  ]
]

-- With the same job on both sides neither check has anything to say.
check_cancel_requested_same :
    (old new : FlinkCluster) → new.spec ≡ old.spec → check_cancel_requested old new ≡ returns false
unfolding check_cancel_requested check_cancel_of
check_cancel_requested_same old new e =
    let same_job : new.spec.job ≡ old.spec.job = ap (λ (s : FlinkClusterSpec). s.job) e in
    ground arith

check_savepoint_generation_same :
    (old new : FlinkCluster)
    → new.spec ≡ old.spec
    → check_savepoint_generation old new ≡ returns false
unfolding check_savepoint_generation check_generation_of
check_savepoint_generation_same old new e =
    let same_job : new.spec.job ≡ old.spec.job = ap (λ (s : FlinkClusterSpec). s.job) e in
    ground arith

check_cancel_requested_of_cancellation :
    (old new : FlinkCluster)
    → IsCancellation old new
    → check_cancel_requested old new ≡ returns true
unfolding check_cancel_requested check_cancel_of
check_cancel_requested_of_cancellation old new c =
    let new_job : new.spec.job ≡ some (record (c.job) { cancel_requested = some true }) =
      ap (λ (s : FlinkClusterSpec). s.job) c.same_rest in
    ground (
      arith,
      c.running,
      c.not_yet,
      (equal_specs_iff new.spec (cancelled_spec old.spec c.job (some true))).1 c.same_rest,
    )

check_cancel_requested_of_request :
    (old new : FlinkCluster)
    → IsSavepointRequest old new
    → check_cancel_requested old new ≡ returns false
unfolding check_cancel_requested check_cancel_of
check_cancel_requested_of_request old new r =
    let next = succ_int32 (status_generation old.status.components.job) in
    let new_job : new.spec.job ≡ some (record (r.job) { savepoint_generation = next }) =
      ap (λ (s : FlinkClusterSpec). s.job) r.same_rest in
    ground (arith, r.running)

check_savepoint_generation_of_request :
    (old new : FlinkCluster)
    → IsSavepointRequest old new
    → check_savepoint_generation old new ≡ returns true
unfolding check_savepoint_generation check_generation_of
check_savepoint_generation_of_request old new r =
    let next = succ_int32 (status_generation old.status.components.job) in
    let new_job : new.spec.job ≡ some (record (r.job) { savepoint_generation = next }) =
      ap (λ (s : FlinkClusterSpec). s.job) r.same_rest in
    ground (
      arith,
      r.running,
      r.moved,
      eqb_ℤ_iff next next,
      eqb_ℤ_iff r.job.savepoint_generation next,
      (equal_specs_iff new.spec (requested_spec old.spec r.job next)).1 r.same_rest,
    )

validate_update_complete :
    (old new : FlinkCluster) → IsAllowed old new → validate_update old new ≡ none
unfolding validate_update
validate_update_complete old new (inl e) = rw (
  check_cancel_requested_same old new e,
  check_savepoint_generation_same old new e,
  (equal_specs_iff new.spec old.spec).1 e,
)
validate_update_complete old new (inr (inl c)) =
    rw (check_cancel_requested_of_cancellation old new c)
validate_update_complete old new (inr (inr r)) =
    rw
      (check_cancel_requested_of_request old new r, check_savepoint_generation_of_request old new r)

-- The validator accepts an update exactly when it changes nothing in the spec, only cancels the
-- job, or only asks for the next savepoint.
pub validate_update_iff :
    (old new : FlinkCluster) → (validate_update old new ≡ none) ↔ IsAllowed old new
validate_update_iff old new = (validate_update_sound old new, validate_update_complete old new)
