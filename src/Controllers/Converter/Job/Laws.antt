-- ===== src/Controllers/Converter/Job/Laws.antt =====
-- When a job is desired, and what the updater reads back from it.
use Prim.Native.String.{◌++◌ as str_append}
use text.Mathlib.TextLemmas.{nil-append, cons-append}
use flink_on_k8s_operator.Base.{
  String, Option, none, some, true, false, ◌≡◌, refl, ap, sym, ◌∙◌, List, ◌∷◌, ◌++◌, ◌==◌, arith,
  is_set, Bool, ◌||◌, Bool-cases, inl, inr, eq_iff, format_int,
}
use flink_on_k8s_operator.Base.Int.{ℤ}
use flink_on_k8s_operator.Base.Run.{done, Yields, >>=-eq-done, done-injective}
use flink_on_k8s_operator.K8s.{Job}
use flink_on_k8s_operator.Api.{JobSpec, GcpConfig, FlinkCluster}
use flink_on_k8s_operator.Webhook.Validate.Create.{Given, IfGiven}
use flink_on_k8s_operator.Controllers.Util.{from_savepoint_arg, get_from_savepoint}
use flink_on_k8s_operator.Controllers.Converter.{convert_from_savepoint, convert_gcp_config}
use flink_on_k8s_operator.Controllers.Converter.Job.{
  job_args, option, job_address, desired_job_of, get_desired_job,
}

from_savepoint_arg-option :
    (address s : String) (class_name : Option String) (rest : List String)
    → (address == "--fromSavepoint") ≡ false
    → IfGiven (λ c. (c == "--fromSavepoint") ≡ false) class_name
    → from_savepoint_arg (address ∷ (option "--class" class_name ++ "--fromSavepoint" ∷ s ∷ rest))
      ≡ s
unfolding from_savepoint_arg
from_savepoint_arg-option address s none rest a c = rw a refl
from_savepoint_arg-option address s (some name) rest a c = rw (a, c) refl

-- The job has a container, a UI port is given, and the GCP configuration has a service account.
abbrev pub IsConvertible : FlinkCluster → Type 0
IsConvertible cluster =
    Given (λ _. Unit) cluster.spec.job_manager.ports.ui
    × IfGiven (λ (gcp : GcpConfig). Given (λ _. Unit) gcp.service_account) cluster.spec.gcp_config

abbrev pub IsDesired : FlinkCluster → Option Job → Type 0
IsDesired cluster none = IfGiven (λ job. is_set job.cancel_requested ≡ true) cluster.spec.job
IsDesired cluster (some desired) =
    Given (λ job. is_set job.cancel_requested ≡ false) cluster.spec.job

-- A convertible cluster has a desired job exactly when its spec has a job that is not cancelled.
pub get_desired_job-IsDesired :
    (cluster : FlinkCluster)
    → IsConvertible cluster
    → Yields (IsDesired cluster) (get_desired_job cluster)
unfolding get_desired_job desired_job_of convert_gcp_config
get_desired_job-IsDesired cluster h = ground arith

-- A text with a colon. The flag has none, the address of the JobManager has one.
has_colon : String → Bool
has_colon String.[] = false
has_colon (String.◌∷◌ c s) = (String.◌∷◌ c String.[] == ":") || has_colon s

or-true : (b : Bool) → (b || true) ≡ true
or-true true = refl
or-true false = refl

has_colon-str_append : (s t : String) → has_colon (str_append s (str_append ":" t)) ≡ true
unfolding has_colon
has_colon-str_append String.[] t =
    rw (nil-append (str_append ":" t)) (rw (cons-append ":" "" t) refl)
has_colon-str_append (String.◌∷◌ c s) t =
    rw (cons-append c s (str_append ":" t), has_colon-str_append s t)
      (or-true (String.◌∷◌ c String.[] == ":"))

no_colon : has_colon "--fromSavepoint" ≡ false
unfolding has_colon
no_colon = refl

address-ne-flag :
    (cluster : FlinkCluster) (job : JobSpec) (ui : ℤ)
    → (job_address cluster job ui == "--fromSavepoint") ≡ false
unfolding job_address
address-ne-flag cluster job ui =
    elim (Bool-cases (job_address cluster job ui == "--fromSavepoint")) [
      | inl e ↦
          let colon : has_colon (job_address cluster job ui) ≡ true =
            has_colon-str_append (str_append cluster.name "-jobmanager") (format_int ui) in
          absurd (cc (colon, no_colon, (eq_iff (job_address cluster job ui) "--fromSavepoint").0 e))
      | inr n ↦ n
    ]

-- What the updater reads back from a submitted job is the savepoint that the operator chose, if it chose
-- one: the first `--fromSavepoint` of the arguments is its own. The name of the class is assumed not to
-- be that flag.
pub desired_job_of-get_from_savepoint :
    (cluster : FlinkCluster) (job : JobSpec) (desired : Job) (ui : ℤ) (s : String)
    → cluster.spec.job_manager.ports.ui ≡ some ui
    → IfGiven (λ c. (c == "--fromSavepoint") ≡ false) job.class_name
    → convert_from_savepoint job cluster.status.components.job ≡ some s
    → desired_job_of cluster job ≡ done desired
    → get_from_savepoint desired.pod ≡ done s
unfolding desired_job_of get_from_savepoint job_args
desired_job_of-get_from_savepoint cluster job desired ui s given c chosen e =
    let e' = rw given at e in
    let (gcp, converted, e'') = >>=-eq-done (convert_gcp_config cluster.spec.gcp_config) _ e' in
    ap (λ (d : Job). get_from_savepoint d.pod) (sym (done-injective e''))
    ∙ ap done (
        rw chosen (
          from_savepoint_arg-option (job_address cluster job ui) s job.class_name _
            (address-ne-flag cluster job ui) c))
