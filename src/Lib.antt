-- ===== src/Lib.antt =====
-- wordpress-manager-operator: an operator that runs WordPress sites on Kubernetes, with an API server
-- beside it. This library models the custom resource, the builders of the objects of a site, the MySQL
-- provisioner and its SQLite stand-in, the reconciler that drives them, the API server, the providers
-- of metrics, and the settings of the two commands.
--
-- The parts, and the files that they are modelled in:
--   Prelude      Booleans and order tests on ℕ, lists, Go's errors and (value, error) results, and
--                calls that read and write the world outside (`Exec`): a call takes the world and
--                returns the result and the world it leaves, which stands beside an error too.
--   Text, Maps   Strings by character, the base64 and hex encodings, Go maps as
--                association lists with unique keys read by `lookup`, and reflect.DeepEqual.
--   Int64        The int64 of Go as a natural number below 2 ^ 64, with its arithmetic.
--   Heap         Go's memory as cells at addresses, and what a deep copy is; Copies has the parts that
--                one is made of.
--   Api          api/v1alpha1/wordpresssite_types.go: WordPressSite, its phases and its finalizer.
--                Memory has its structs as they lie in a heap, DeepCopy
--                api/v1alpha1/zz_generated.deepcopy.go.
--   Resources    internal/resources: Names (names.go), Secret (secret.go), PhpConfig
--                (configmap.go), Deployment (deployment.go and service.go), Ingress (ingress.go).
--                Objects has the Kubernetes objects with the fields that the builders set.
--   Mysql        internal/mysql/provisioner.go: EnsureDatabase, DropDatabase, escapeString and
--                validateIdent. Literals has the way in which the server reads a quoted literal.
--                Server has the databases, accounts and privileges of a server, and what each statement
--                does to them.
--   Controller   internal/controller/wordpresssite_controller.go: Reconcile and all that it calls.
--                Interface has what is a parameter: the Kubernetes client, the helpers of
--                controller-runtime, the clock, the random source and the database. Requeue has
--                a caller that reconciles a site again when it is asked to, Provisioning the MySQL
--                provisioner as the database.
--   Sqlite       internal/sqlite/provisioner.go: a file for each site, in the development mode.
--   Metrics      internal/metrics: Kube (kube.go) and Dev (dev.go), with the types of metrics.go.
--   Apiserver    internal/apiserver. Sites: the DTO and the handlers of handlers.go, but for those of
--                YAML in Documents. Login: auth.go and the login of server.go. TwoFa: KubeTwoFA of
--                twofa.go. Admin: the handlers of twofa.go, and me and getMetrics of server.go.
--                Status: status.go. Routes: the router of server.go. The other files have what is
--                shown of these.
--   Commands     cmd/operator/main.go and cmd/apiserver/main.go: the environment, and which
--                component is built on which. Development has the server of the development mode at work.
--   System       Both commands at work on one cluster: requests and reconciliations in any order.
--   Tests        A site, a cluster and servers to run the program on, and the theorems at these.
--
-- The builders are pure functions of a site. The reconciler reads a site, makes sure of its Secret,
-- hands the password to the database provisioner, applies the built objects and writes the status;
-- on deletion it drops the database, if it is set to, before it removes the finalizer. Every call
-- that can fail is followed by the test of its error, as in the source. The API server writes sites
-- that the reconciler reads, and asks the second factor, kept in a Secret, at each login.
--
-- Bounds: numbers are natural numbers. Those of the Kubernetes API (replicas, ports, generations) are
-- read, compared and written, and times are seconds, to which the life of a token is added. Amounts of
-- CPU and memory are int64 with their wrap-around, and the restarts of a pod an int32. All loops run
-- over lists and strings; only the caller that reconciles again, which has no end, is given a number
-- of retries. The length of a string is in bytes, as in Go.
--
-- A negative number of replicas, which the API server of the cluster does not accept for a
-- Deployment, is left out of the model.
--
-- Not modelled: how the commands serve, log and end; the middlewares for logging, time-outs and CORS;
-- reading a body of a request, which a handler is given decoded; the registration of the types with
-- the scheme; and the request context. What the Kubernetes libraries copy is a parameter of DeepCopy.
mod Prelude
pub mod Text
pub mod Maps
pub mod Api
pub mod Resources
pub mod Mysql
pub mod Sqlite
pub mod Commands
pub mod Controller
pub mod Apiserver
pub mod System
pub mod Heap
pub mod Int64
pub mod Metrics
mod Tests
