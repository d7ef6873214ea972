-- ===== src/Samples/Ready.antt =====
-- The sample cluster passed validation.
use flink_on_k8s_operator.Base.{refl, inl, arith}
use flink_on_k8s_operator.Controllers.Converter.Objects.Presence.{IsReady}
use flink_on_k8s_operator.Samples.{sample_cluster}

pub sample_cluster-IsReady : IsReady sample_cluster
sample_cluster-IsReady = record {
  job_manager = record {
    replicas = refl;
    access_scope = inl refl;
    rpc = ground arith;
    blob = ground arith;
    query = ground arith;
    ui = ground arith;
    ratio = ground arith;
    memory = inl (ground arith);
  };
  task_manager = record {
    replicas = ground arith;
    rpc = ground arith;
    data_port = ground arith;
    query = ground arith;
    ratio = ground arith;
    memory = inl (ground arith);
  };
  gcp = tt;
  policy = tt;
}
