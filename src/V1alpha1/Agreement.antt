-- ===== src/V1alpha1/Agreement.antt =====
-- The two versions of the webhooks side by side: api/v1alpha1/ and api/v1beta1/.
use flink_on_k8s_operator.Base.{
  Option, none, some, ◌≢◌, true, false, Bool, ◌≡◌, ◌↔◌, refl, Bool-cases, inl, inr, ◌==◌, eq_iff,
  sym, ap,
}
use flink_on_k8s_operator.Api
use flink_on_k8s_operator.Api.{JobSpec}
use flink_on_k8s_operator.Webhook.Default
use flink_on_k8s_operator.Webhook.Validate
use flink_on_k8s_operator.Webhook.Validate.{Error, ◌>>◌, status_generation}
use flink_on_k8s_operator.V1alpha1.Types.{
  AccessScope, JobManagerSpec, FlinkClusterSpec, FlinkCluster, equal_specs, equal_specs_iff,
}
use flink_on_k8s_operator.V1alpha1.Default.{
  default_access_scope, set_default, set_spec_default, set_job_manager_default,
}
use flink_on_k8s_operator.V1alpha1.Validate.{
  validate_meta, validate_access_scope, validate_job_manager, validate_create, check_cancel_of,
  check_cancel_requested, check_generation_of, check_savepoint_generation, validate_update,
}
use flink_on_k8s_operator.V1alpha1.Upgrade.{
  upgrade_scope, upgrade_job_manager, upgrade_spec, upgrade, upgrade_spec-injective,
}

upgrade-default_access_scope :
    (s : AccessScope)
    → Default.default_access_scope (upgrade_scope s) ≡ upgrade_scope (default_access_scope s)
unfolding default_access_scope Default.default_access_scope
upgrade-default_access_scope AccessScope.unset = refl
upgrade-default_access_scope AccessScope.cluster = refl
upgrade-default_access_scope AccessScope.vpc = refl
upgrade-default_access_scope AccessScope.external = refl
upgrade-default_access_scope (AccessScope.other s) = elim (Bool-cases (s == "NodePort")) [
  | inl e ↦ rw e refl
  | inr n ↦ rw n refl
]

upgrade-set_default : (c : FlinkCluster) → Default.set_default (upgrade c) ≡ upgrade (set_default c)
unfolding set_default set_spec_default set_job_manager_default Default.set_default
    Default.set_spec_default Default.set_job_manager_default
upgrade-set_default c =
    ap
      (λ s. record (upgrade (set_default c)) {
        spec = record (upgrade_spec (set_spec_default c.spec)) {
          job_manager = record (Default.set_job_manager_default (upgrade_spec c.spec).job_manager) {
            access_scope = s;
          };
        };
      })
      (upgrade-default_access_scope c.spec.job_manager.access_scope)

-- Two checks that agree but for a condition under which only the second one passes.
abbrev Narrows : Option Error → Option Error → Type 0 → Type 0
Narrows a b P = (a ≡ none) ↔ ((b ≡ none) × P)

-- Both after another check.
Narrows-before :
    {P : Type 0} {a b : Option Error} (c : Option Error)
    → Narrows a b P
    → Narrows (c >> a) (c >> b) P
Narrows-before none n = n
Narrows-before (some e) n = (λ h. cc, λ h. h.0)

-- Both before another check.
Narrows-after :
    {P : Type 0} (a b : Option Error) (c : Option Error)
    → Narrows a b P
    → Narrows (a >> c) (b >> c) P
Narrows-after none none c n = (λ h. (h, (n.0 refl).1), λ h. h.0)
Narrows-after none (some e) c n = (λ h. n.0 refl, λ h. cc)
Narrows-after (some e) none c n = (λ h. cc, λ h. n.1 (refl, h.1))
Narrows-after (some e) (some f) c n = (λ h. cc, λ h. cc)

validate_access_scope-Narrows :
    (s : AccessScope)
    → Narrows
        (validate_access_scope s)
        (Validate.validate_access_scope (upgrade_scope s))
        (s ≢ AccessScope.other "NodePort")
unfolding validate_access_scope Validate.validate_access_scope
validate_access_scope-Narrows AccessScope.unset = (λ h. cc, λ h. cc)
validate_access_scope-Narrows AccessScope.cluster = (λ h. (refl, λ e. cc), λ h. refl)
validate_access_scope-Narrows AccessScope.vpc = (λ h. (refl, λ e. cc), λ h. refl)
validate_access_scope-Narrows AccessScope.external = (λ h. (refl, λ e. cc), λ h. refl)
validate_access_scope-Narrows (AccessScope.other s) = elim (Bool-cases (s == "NodePort")) [
  | inl e ↦ (λ h. cc, λ h. absurd (h.1 (ap AccessScope.other ((eq_iff s "NodePort").0 e))))
  | inr n ↦ rw n (λ h. cc, λ h. cc)
]

validate_job_manager-Narrows :
    (jm : JobManagerSpec)
    → Narrows
        (validate_job_manager jm)
        (Validate.validate_job_manager (upgrade_job_manager jm))
        (jm.access_scope ≢ AccessScope.other "NodePort")
unfolding validate_job_manager Validate.validate_job_manager
validate_job_manager-Narrows jm =
    Narrows-before (Validate.validate_job_manager_replicas jm.replicas) (
      Narrows-after (validate_access_scope jm.access_scope)
        (Validate.validate_access_scope (upgrade_scope jm.access_scope)) _
        (validate_access_scope-Narrows jm.access_scope))

validate_create-Narrows :
    (c : FlinkCluster)
    → Narrows
        (validate_create c)
        (Validate.validate_create (upgrade c))
        (c.spec.job_manager.access_scope ≢ AccessScope.other "NodePort")
unfolding validate_create Validate.validate_create validate_meta Validate.validate_meta
validate_create-Narrows c = Narrows-before (validate_meta c) (
    Narrows-before (Validate.validate_hadoop_config c.spec.hadoop_config) (
      Narrows-before (Validate.validate_gcp_config c.spec.gcp_config) (
        Narrows-before (Validate.validate_image c.spec.image) (
          Narrows-after (validate_job_manager c.spec.job_manager)
            (Validate.validate_job_manager (upgrade_job_manager c.spec.job_manager)) _
            (validate_job_manager-Narrows c.spec.job_manager)))))

Bool-ext : (a b : Bool) → (a ≡ true → b ≡ true) → (b ≡ true → a ≡ true) → a ≡ b
Bool-ext true b f g = sym (f refl)
Bool-ext false true f g = g refl
Bool-ext false false f g = refl

upgrade-equal_specs :
    (a b : FlinkClusterSpec) → Api.equal_specs (upgrade_spec a) (upgrade_spec b) ≡ equal_specs a b
upgrade-equal_specs a b =
    Bool-ext (Api.equal_specs (upgrade_spec a) (upgrade_spec b)) (equal_specs a b)
      (λ e.
        (equal_specs_iff a b).1 (
          upgrade_spec-injective a b ((Api.equal_specs_iff (upgrade_spec a) (upgrade_spec b)).0 e)))
      (λ e.
        (Api.equal_specs_iff (upgrade_spec a) (upgrade_spec b)).1
          (ap upgrade_spec ((equal_specs_iff a b).0 e)))

upgrade-check_cancel_of :
    (old new : FlinkCluster) (i j : Option JobSpec)
    → Validate.check_cancel_of (upgrade old) (upgrade new) i j ≡ check_cancel_of old new i j
unfolding check_cancel_of Validate.check_cancel_of
upgrade-check_cancel_of old new none j = refl
upgrade-check_cancel_of old new (some i) none = refl
upgrade-check_cancel_of old new (some i) (some j) =
    rw
      (upgrade-equal_specs new.spec
        (record (old.spec) { job = some (record i { cancel_requested = j.cancel_requested }) }))
      refl

upgrade-check_generation_of :
    (old new : FlinkCluster) (i j : Option JobSpec)
    → Validate.check_generation_of (upgrade old) (upgrade new) i j ≡ check_generation_of old new i j
unfolding check_generation_of Validate.check_generation_of
upgrade-check_generation_of old new none j = refl
upgrade-check_generation_of old new (some i) none = refl
upgrade-check_generation_of old new (some i) (some j) =
    rw
      (upgrade-equal_specs new.spec (record (old.spec) {
        job = some (record i { savepoint_generation = j.savepoint_generation });
      }))
      refl

upgrade-validate_update :
    (old new : FlinkCluster)
    → Validate.validate_update (upgrade old) (upgrade new) ≡ validate_update old new
unfolding validate_update Validate.validate_update check_cancel_requested
    Validate.check_cancel_requested check_savepoint_generation Validate.check_savepoint_generation
upgrade-validate_update old new =
    rw
      (
        upgrade-check_cancel_of old new old.spec.job new.spec.job,
        upgrade-check_generation_of old new old.spec.job new.spec.job,
        upgrade-equal_specs new.spec old.spec,
      )
      refl

-- The two versions of the webhooks agree on a cluster decoded as the newer version: the defaults are
-- the same, a new cluster is accepted by the older version exactly when the newer one accepts it and it does
-- not ask for a node port, and every update gets the same answer.
pub webhooks-upgrade :
    (old new : FlinkCluster)
    → (Default.set_default (upgrade new) ≡ upgrade (set_default new))
      × ((validate_create new ≡ none) ↔ (
          (Validate.validate_create (upgrade new) ≡ none)
          × (new.spec.job_manager.access_scope ≢ AccessScope.other "NodePort")))
      × (Validate.validate_update (upgrade old) (upgrade new) ≡ validate_update old new)
webhooks-upgrade old new =
    (upgrade-set_default new, validate_create-Narrows new, upgrade-validate_update old new)
