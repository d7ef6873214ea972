-- ===== src/Controllers/Updater/Write.antt =====
-- The effects of the updater: the events, and the write of the status,
-- controllers/flinkcluster_updater.go.
use flink_on_k8s_operator.Base.{Option, none, some, Bool, true, false, List, [], ◌∷◌}
use flink_on_k8s_operator.Api.{FlinkClusterStatus, FlinkCluster}
use flink_on_k8s_operator.Controllers.State.{ObservedClusterState}
use flink_on_k8s_operator.Controllers.Effects.{Error, Call, M, pure, ◌>>=◌, ◌>>◌, lift, call, write}
use flink_on_k8s_operator.Controllers.Updater.Changes.{
  StatusEvent, Update, write as write_update, update_status_if_changed,
}

-- `recorder.Event` for each of the events; it returns nothing.
unfoldable pub record_events : List StatusEvent → M Unit
record_events [] = pure tt
record_events (event ∷ events) = call (Call.event event) (λ _ _. tt) >> record_events events

-- The observed cluster with the new status.
unfoldable pub update_cluster_status : FlinkCluster → FlinkClusterStatus → M (Option Error)
update_cluster_status cluster status =
    write (Call.update_status (record cluster { status = status }))

abbrev stamp : FlinkClusterStatus → M FlinkClusterStatus
stamp status env log =
    pure (record status { last_update_time = env.format_time (env.now log 0) }) env log

-- Whether the status has changed, and the error of the write. The clock is read after the events.
unfoldable pub perform_update : Option FlinkCluster → Update → M (Bool × Option Error)
unfolding record_events update_cluster_status
perform_update (some cluster) (write_update events status) =
    record_events events
    >> (stamp status >>= λ status. update_cluster_status cluster status >>= λ e. pure (true, e))
perform_update _ _ = pure (false, none)

unfoldable pub run_update : ObservedClusterState → M (Bool × Option Error)
unfolding perform_update
run_update observed =
    lift (update_status_if_changed "" observed) >>= λ update. perform_update observed.cluster update
