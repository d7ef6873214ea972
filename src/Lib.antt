-- ===== src/Lib.antt =====
-- Verification of the Flink operator for Kubernetes: the API type FlinkCluster with its admission
-- webhooks, and the controller that keeps the objects of a cluster as its spec asks.
--
-- A round of the controller observes the cluster and its objects, derives the status and writes it when
-- it changed, computes the desired objects, and acts on the difference. The webhooks guard what the
-- rounds may rely on.
--
-- The files and the code:
--   Base, K8s        helpers, and the parts of the Kubernetes objects that the operator reads or writes
--   Api              api/v1beta1/flinkcluster_types.go: Api/Spec, Api/Status; the comparisons of whole
--                    specs and statuses (reflect.DeepEqual and ==) are in Api/Equality
--   Webhook/Default  api/v1beta1/flinkcluster_default.go: _SetDefault is set_default, and so on
--   Webhook/Validate api/v1beta1/flinkcluster_validate.go: validateX is validate_x; Create, Update and
--                    History hold what the two entry points accept
--   Webhook/Admission  the mutating webhook followed by the validating one
--   V1alpha1         api/v1alpha1/: the types, the defaults and the checks that differ from v1beta1 or read
--                    a type that does; what the two versions declare word for word alike is in Api and
--                    Webhook. Upgrade reads a cluster as one of v1beta1; Agreement compares the webhooks
--   Controllers/State, Controllers/Util  the observed and desired states, flinkcluster_util.go
--   Controllers/Effects  the Kubernetes API, the Flink REST API and the clock, as a parameter
--   Controllers/Observer  controllers/flinkcluster_observer.go
--   Controllers/Updater   controllers/flinkcluster_updater.go: deriveClusterStatus block by block (the
--                    components in Updater itself, the job and the state in Derive, put together in
--                    Status), the comparison and the events in Changes; the state machine in Machine and
--                    Rounds; the other files are theorems
--   Controllers/Converter    controllers/flinkcluster_converter.go: the shared parts in Converter itself,
--                    the deployments and the service in Objects, the ingress in Ingress, the config map
--                    in ConfigMap, Properties, HeapSize and LogConf, the job in Job; getDesiredClusterState
--                    is in Desired
--   Controllers/FlinkClient  controllers/flinkclient/flink_client.go
--   Controllers/HttpClient   controllers/flinkclient/http_client.go
--   Controllers/Reconciler   controllers/flinkcluster_reconciler.go: Components, Savepoints, Round
--   Controllers/Handler      controllers/flinkcluster_controller.go: a round from beginning to end; Settling
--                    puts the conversion and the component steps together
--   Controllers/Calls  sequences of calls, the terms in which the reconciler is specified
--   Samples, and the modules Tests  a sample cluster and the theorems at it
--
-- A nil dereference, an index out of range and a panic are the value panic of Run. A pointer is an
-- Option, an int32 an integer of Base/Int (the increment of a counter wraps round), an error an Option or
-- a Result. An action of a round is given the environment Env and the calls made so far, and returns its
-- value and the calls made by then: an answer of the environment may depend on all earlier calls, and is
-- otherwise unconstrained. Log messages are left out. Times are in nanoseconds.
--
-- The polling loop for a savepoint has the bound of the source, twelve. The search for references in a
-- host format has the text for its fuel: each turn consumes at least one character. Every other loop runs
-- over a list.
--
-- Not modelled: the registration with the controller manager and the webhook server, which are glue,
-- and generated code. The replies of the Flink REST API are parsed by encoding/json: the environment
-- gives each field as parsed, or its error. float64 is a parameter (Controllers/Converter/HeapSize),
-- assumed exact up to 2^53 where a theorem says so. Kubernetes objects carry the fields that the
-- operator uses.
pub mod Base
pub mod K8s
pub mod Api
pub mod Webhook
pub mod V1alpha1
pub mod Controllers
pub mod Samples
