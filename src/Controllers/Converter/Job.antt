-- ===== src/Controllers/Converter/Job.antt =====
-- The desired job, controllers/flinkcluster_converter.go.
pub mod Laws
use Prim.Native.String.{◌++◌ as str_append}
use flink_on_k8s_operator.Base.{
  String, Option, none, some, Bool, true, false, ◌≡◌, ◌≢◌, refl, ◌↔◌, ◌⊎◌, inl, inr, ◌||◌, ◌&&◌,
  not, List, [], ◌∷◌, ◌++◌, ◌==◌, arith, is_empty, is_set, eq_iff, eq_refl, format_int,
  if◌then◌else◌,
}
use flink_on_k8s_operator.Base.Int.{ℤ, pos}
use flink_on_k8s_operator.Base.Run.{Run, done, panic, ◌>>=◌, deref}
use flink_on_k8s_operator.K8s.{
  PullPolicy, EnvVar, Container, RestartPolicy, PodSpec, ObjectMeta, Job, ResourceRequirements,
}
use flink_on_k8s_operator.Api.{JobSpec, JobStatus, FlinkCluster}
use flink_on_k8s_operator.Controllers.Util.{get_job_name, from_savepoint_arg, get_from_savepoint}
use flink_on_k8s_operator.Controllers.Converter.{
  to_owner_reference, convert_from_savepoint, Attached, attached, convert_hadoop_config,
  convert_gcp_config, convert_job_init_containers,
}

unfoldable pub starts_with : String → String → Bool
starts_with String.[] s = true
starts_with (String.◌∷◌ c p) String.[] = false
starts_with (String.◌∷◌ c p) (String.◌∷◌ d s) =
    String.◌∷◌ c String.[] == String.◌∷◌ d String.[] && starts_with p s

-- `strings.Contains`
unfoldable pub contains : String → String → Bool
unfolding starts_with
contains String.[] sub = is_empty sub
contains (String.◌∷◌ c s) sub = starts_with sub (String.◌∷◌ c s) || contains s sub

-- The last part of `strings.Split(s, "/")`.
unfoldable pub base_name : String → String
unfolding contains starts_with
base_name String.[] = ""
base_name (String.◌∷◌ c s) =
    let rest = base_name s in
    if contains s "/"
    then rest
    else (if starts_with "/" (String.◌∷◌ c s) then s else String.◌∷◌ c s)

abbrev pub is_remote : JobSpec → Bool
is_remote job = contains job.jar_file "://"

abbrev pub jar_path : JobSpec → String
jar_path job =
    if is_remote job then str_append "/opt/flink/job/" (base_name job.jar_file) else job.jar_file

abbrev jar_env : JobSpec → List EnvVar
jar_env job =
    if is_remote job
    then record { name = "FLINK_JOB_JAR_URI"; value = job.jar_file; value_from = none } ∷ []
    else []

abbrev pub flag : String → Option Bool → List String
flag name b = if is_set b then name ∷ [] else []

abbrev pub option : String → Option String → List String
option name none = []
option name (some value) = name ∷ value ∷ []

abbrev pub parallelism_text : Option ℤ → Option String
unfolding format_int
parallelism_text none = none
parallelism_text (some n) = some (format_int n)

-- The arguments of the `main` container, for the address of the JobManager.
unfoldable pub job_args : JobSpec → Option JobStatus → String → List String
job_args job status address =
    "/opt/flink/bin/flink"
    ∷ "run"
    ∷ "--jobmanager"
    ∷ address
    ∷ (option "--class" job.class_name
        ++ (option "--fromSavepoint" (convert_from_savepoint job status)
            ++ (flag "--allowNonRestoredState" job.allow_non_restored_state
                ++ (option "--parallelism" (parallelism_text job.parallelism)
                    ++ (flag "--sysoutLogging" job.no_logging_to_stdout
                        ++ jar_path job ∷ job.args)))))

abbrev pub job_labels : FlinkCluster → List (String × String)
job_labels cluster = ("cluster", cluster.name) ∷ ("app", "flink") ∷ []

module _ (cluster : FlinkCluster) (job : JobSpec) where
  abbrev pub job_pod : String → Option Attached → Option Attached → PodSpec
  job_pod address hadoop gcp = record {
    init_containers = convert_job_init_containers job;
    containers =
        record {
          name = "main";
          image = cluster.spec.image.name;
          image_pull_policy = cluster.spec.image.pull_policy;
          args = job_args job cluster.status.components.job address;
          ports = [];
          liveness_probe = none;
          readiness_probe = none;
          resources = none;
          env =
              jar_env job
              ++ attached (λ a. a.env) hadoop
              ++ attached (λ a. a.env) gcp
              ++ cluster.spec.env_vars;
          volume_mounts =
              job.volume_mounts ++ attached (λ a. a.mount) hadoop ++ attached (λ a. a.mount) gcp;
        }
        ∷ [];
    restart_policy = RestartPolicy.never;
    volumes = job.volumes ++ attached (λ a. a.volume) hadoop ++ attached (λ a. a.volume) gcp;
    node_selector = [];
    image_pull_secrets = cluster.spec.image.pull_secrets;
  }

  unfoldable pub job_address : ℤ → String
  unfolding format_int
  job_address ui =
      str_append (str_append cluster.name "-jobmanager") (str_append ":" (format_int ui))

  -- Of a cluster with a job that is not cancelled. No status yet: nothing failed nor succeeded.
  unfoldable pub desired_job_of : Run Job
  unfolding get_job_name to_owner_reference convert_hadoop_config job_address
  desired_job_of = do
    ui ← deref cluster.spec.job_manager.ports.ui
    gcp ← convert_gcp_config cluster.spec.gcp_config
    done (record {
      meta = record {
        namespace = cluster.namespace;
        name = get_job_name cluster.name;
        owner_references = to_owner_reference cluster ∷ [];
        labels = job_labels cluster;
        annotations = [];
      };
      pod_labels = job_labels cluster;
      pod = job_pod (job_address ui) (convert_hadoop_config cluster.spec.hadoop_config) gcp;
      backoff_limit = pos 0;
      failed = pos 0;
      succeeded = pos 0;
    })

unfoldable pub get_desired_job : FlinkCluster → Run (Option Job)
unfolding desired_job_of
get_desired_job cluster = elim (cluster.spec.job) [
  | none ↦ done none
  | some job ↦
      if is_set job.cancel_requested
      then done none
      else (desired_job_of cluster job >>= λ desired. done (some desired))
]
