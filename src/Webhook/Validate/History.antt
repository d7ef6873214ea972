-- ===== src/Webhook/Validate/History.antt =====
-- What any sequence of accepted updates, with status reports in between, can change in a spec.
use flink_on_k8s_operator.Base.{
  Option, none, some, true, ◌≡◌, refl, ap, inl, inr, ◌∙◌, arith, is_set,
}
use flink_on_k8s_operator.Base.Int.{pos, succ_int32}
use flink_on_k8s_operator.Api.{JobSpec, FlinkClusterSpec, FlinkClusterStatus, FlinkCluster}
use flink_on_k8s_operator.Webhook.Validate.{validate_update, status_generation}
use flink_on_k8s_operator.Webhook.Validate.Create.{Given}
use flink_on_k8s_operator.Webhook.Validate.Update.{IsAllowed, validate_update_iff}

-- From one version of a cluster to a later one: accepted updates of the spec, and reports of the
-- operator in the status.
pub data History (first : FlinkCluster) : FlinkCluster → Type 0 where
  start : History first first
  update :
      {old : FlinkCluster} (new : FlinkCluster)
      → History first old
      → validate_update old new ≡ none
      → History first new
  report :
      {old : FlinkCluster} (status : FlinkClusterStatus)
      → History first old
      → History first (record old { status = status })

-- The spec without the two fields that an update may touch.
abbrev pub fixed_job : Option JobSpec → Option JobSpec
fixed_job none = none
fixed_job (some job) = some (record job { cancel_requested = none; savepoint_generation = pos 0 })

abbrev pub fixed_part : FlinkClusterSpec → FlinkClusterSpec
fixed_part spec = record spec { job = fixed_job spec.job }

abbrev pub IsCancelled : FlinkCluster → Type 0
IsCancelled cluster = Given (λ job. is_set job.cancel_requested ≡ true) cluster.spec.job

fixed_part_of_IsAllowed :
    (old new : FlinkCluster) → IsAllowed old new → fixed_part new.spec ≡ fixed_part old.spec
fixed_part_of_IsAllowed old new (inl e) = ap fixed_part e
fixed_part_of_IsAllowed old new (inr (inl c)) = ap fixed_part c.same_rest ∙ rw c.running
fixed_part_of_IsAllowed old new (inr (inr r)) = ap fixed_part r.same_rest ∙ rw r.running

IsCancelled-of_IsAllowed :
    (old new : FlinkCluster) → IsAllowed old new → IsCancelled old → IsCancelled new
IsCancelled-of_IsAllowed old new (inl e) h =
    let same_job : new.spec.job ≡ old.spec.job = ap (λ (s : FlinkClusterSpec). s.job) e in
    ground arith
IsCancelled-of_IsAllowed old new (inr (inl c)) h =
    let new_job : new.spec.job ≡ some (record (c.job) { cancel_requested = some true }) =
      ap (λ (s : FlinkClusterSpec). s.job) c.same_rest in
    ground arith
IsCancelled-of_IsAllowed old new (inr (inr r)) h =
    let next = succ_int32 (status_generation old.status.components.job) in
    let new_job : new.spec.job ≡ some (record (r.job) { savepoint_generation = next }) =
      ap (λ (s : FlinkClusterSpec). s.job) r.same_rest in
    ground (arith, r.running)

-- Through any history the spec stays as it was created, but for the request to cancel and the
-- savepoint generation of its job.
pub History-fixed_part :
    {first last : FlinkCluster} → History first last → fixed_part last.spec ≡ fixed_part first.spec
History-fixed_part start = refl
History-fixed_part (update {old} new h e) =
    fixed_part_of_IsAllowed old new ((validate_update_iff old new).0 e) ∙ History-fixed_part h
History-fixed_part (report status h) = History-fixed_part h

-- Through any history a cancelled job stays cancelled.
pub History-IsCancelled :
    {first last : FlinkCluster} → History first last → IsCancelled first → IsCancelled last
History-IsCancelled start c = c
History-IsCancelled (update {old} new h e) c =
    IsCancelled-of_IsAllowed old new ((validate_update_iff old new).0 e) (History-IsCancelled h c)
History-IsCancelled (report status h) c = History-IsCancelled h c
