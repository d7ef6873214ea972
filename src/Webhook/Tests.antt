-- ===== src/Webhook/Tests.antt =====
-- The webhook theorems at a sample cluster.
use flink_on_k8s_operator.Base.{none, some, true, ◌≡◌, refl, ◌↔◌, inl, inr}
use flink_on_k8s_operator.Api.{JobSpec, FlinkCluster}
use flink_on_k8s_operator.Webhook.Default.{set_default}
use flink_on_k8s_operator.Webhook.Default.Laws.{KeepsGiven, set_default-KeepsGiven}
use flink_on_k8s_operator.Webhook.Default.Complete.{IsComplete, set_default-IsComplete}
use flink_on_k8s_operator.Webhook.Validate.{validate_create, validate_update}
use flink_on_k8s_operator.Webhook.Validate.Create.{IsAcceptable, validate_create_iff}
use flink_on_k8s_operator.Webhook.Validate.Update.{IsAllowed, validate_update_iff}
use flink_on_k8s_operator.Webhook.Validate.History.{
  History, start, update, IsCancelled, fixed_part, History-fixed_part, History-IsCancelled,
}
use flink_on_k8s_operator.Samples.{sample_job_spec, sample_spec, sample_cluster}

abbrev cancelled_job : JobSpec
cancelled_job = record sample_job_spec { cancel_requested = some true }

-- The sample cluster after its job was cancelled.
abbrev cancelled_cluster : FlinkCluster
cancelled_cluster = record sample_cluster { spec = record sample_spec { job = some cancelled_job } }

cancellation_accepted : validate_update sample_cluster cancelled_cluster ≡ none
cancellation_accepted =
    (validate_update_iff sample_cluster cancelled_cluster).1 (
      inr
        (inl (record { job = sample_job_spec; running = refl; not_yet = refl; same_rest = refl })))

no_update_accepted : validate_update cancelled_cluster cancelled_cluster ≡ none
no_update_accepted = (validate_update_iff cancelled_cluster cancelled_cluster).1 (inl refl)

abbrev cancellation : History sample_cluster cancelled_cluster
cancellation = update cancelled_cluster start cancellation_accepted

abbrev later : History cancelled_cluster cancelled_cluster
later = update cancelled_cluster start no_update_accepted

set_default-IsComplete_example :
    IsComplete (set_default sample_cluster).spec
    × ((set_default sample_cluster ≡ sample_cluster) ↔ IsComplete sample_cluster.spec)
    × (set_default (set_default sample_cluster) ≡ set_default sample_cluster)
set_default-IsComplete_example = set_default-IsComplete sample_cluster

set_default-KeepsGiven_example : KeepsGiven sample_cluster.spec (set_default sample_cluster).spec
set_default-KeepsGiven_example = set_default-KeepsGiven sample_cluster

validate_create_iff_example : (validate_create sample_cluster ≡ none) ↔ IsAcceptable sample_cluster
validate_create_iff_example = validate_create_iff sample_cluster

validate_update_iff_example :
    (validate_update sample_cluster cancelled_cluster ≡ none)
    ↔ IsAllowed sample_cluster cancelled_cluster
validate_update_iff_example = validate_update_iff sample_cluster cancelled_cluster

History-fixed_part_example : fixed_part cancelled_cluster.spec ≡ fixed_part sample_cluster.spec
History-fixed_part_example = History-fixed_part cancellation

History-IsCancelled_example : IsCancelled cancelled_cluster
History-IsCancelled_example = History-IsCancelled later refl
