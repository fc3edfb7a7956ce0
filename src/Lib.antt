-- ===== src/Lib.antt =====
-- samsara-components: infrastructure components for the samsara supervisor, modelled and verified.
--
-- Each component is a Go package with the same outline: a Config whose zero values have defaults, a
-- Component with Start (connect, verify, call ready, block), Stop and Health, operations on the live
-- handle, and an optional metrics sink. The packages share no code, so each has a module of its own here;
-- what Go's library and their common shape give them stands in Prelude, Go and Runner.
--
-- Shared modules
--   Prelude       names of the libraries, passed on; tests, lists and integers over native numbers.
--   Go.Errors     errors as trees of causes (fmt.Errorf with %w) with `errors.Is`; package sentinels.
--   Go.Table      string-keyed maps (amqp.Table, map[string]string) as association lists.
--   Go.Format     %d and host:port texts.
--   Go.Report     the metrics sink, what it is handed, and what an operation leaves behind.
--   Go.Options    the options that a caller adds to a driver's settings, applied in order.
--   Go.Setup      what New and the options of a component make of a configuration; AddOption.
--   Go.Handles    the calls by which a Start makes, checks and closes its handle.
--   Go.Threads    families that are indexed by a thread, a channel or a handle.
--   Go.Tls        files, certificates and crypto/tls configurations; Go.Tls.Client, the settings of a client.
--   Protocol      the exchange of stop channels as an abstract machine, with the interface of a machine
--                 that steps as it does; Protocol.Calm and Protocol.Wakeup, what holds of all of them.
--   Runner        the Start and Stop that redis, postgresql, sqlite and grpcclient have in common, as threads;
--                 `run` takes any schedule of their atomic steps, and the connection phase is a
--                 parameter, which each package's Lifecycle fills with its own Start. Channels are numbers,
--                 and closing a closed one is recorded as the panic that it is in Go.
--
-- Package rabbitmq (rabbitmq/rabbitmq.go, rabbitmq/messaging.go, rabbitmq/metrics.go)
--   Rabbitmq.Config     Config and its defaults; Rabbitmq.Float is the interface of float64.
--   Rabbitmq.Retry      RetryPolicy with backoff and its loop.
--   Rabbitmq.Amqp       the AMQP client: a broker that answers each call in the light of all the calls
--                       before it, and the trace of the calls, latest first.
--   Rabbitmq.Publish    publish, observePublish and the three methods of Publisher.
--   Rabbitmq.Failure    handleFailure, deadLetter, scheduleRetry, republish, the retry header.
--   Rabbitmq.Topology   queue arguments, retry topology, bindAndConsume up to the goroutine.
--   Rabbitmq.Consumer   the consumer goroutine, as a fold over what its select meets.
--   Rabbitmq.Component  New, the critical sections of Start and Stop, Health, the registrations; in its
--                       child Dial, the dial that is raced against the context and a timer; in its
--                       children Start and Stop, the whole of Start up to ready, and of Stop; in its
--                       child History, sequences of calls on one component.
--   Rabbitmq.Lifecycle  Start, Stop and Subscribe as threads over shared state, with their run contexts,
--                       connections and consumers, in the manner of Runner; a machine of Protocol.
--
-- Package redis (redis/redis.go, redis/client.go, redis/metrics.go, redis/tls.go)
--   Redis.Config        Config, its defaults, tlsConfig.
--   Redis.Connect       the connection phase of Start in one thread, and Health.
--   Redis.Lifecycle     Start and Stop as threads of Runner.
--   Redis.Observe       record, observe, observeErr.
--   Redis.Client        the KV operations; Scan and ScanFunc as loops on fuel.
--
-- Package sqlite (sqlite/config.go, sqlite/sqlite.go, sqlite/db.go, sqlite/metrics.go)
--   Sqlite.Config       Config, its defaults and dsn.
--   Sqlite.Open         Start up to ready, with the calls that it makes; verifyJournalMode; Health.
--   Sqlite.Lifecycle    Start and Stop as threads of Runner.
--   Sqlite.Database     record, observe, observeTx; Select, Get, Exec, BeginTx and CommitTx.
--
-- Package postgresql (postgresql/postgresql.go, postgresql/db.go, postgresql/metrics.go)
--   Postgresql.Config     Config, its defaults and the connection string.
--   Postgresql.Connect    Start up to ready, with the pool options; Health.
--   Postgresql.Lifecycle  Start and Stop as threads of Runner.
--   Postgresql.Database   record, observe, observeTx; the operations and CommitTx.
--
-- Package s3 (s3/s3.go, s3/operations.go, s3/upload.go, s3/health.go, s3/internal.go, s3/metrics.go,
-- s3/transfermanager_engine.go)
--   S3.Config           the defaults of Config.
--   S3.Connect          Start up to ready in one thread, and the settings of the engine.
--   S3.Lifecycle        Start and Stop as threads; a machine of Protocol.
--   S3.Observe          record and observe, which clears the duration of ErrNotReady.
--   S3.Objects          the unexported forms of the operations; the listing is a loop on fuel.
--   S3.Storage          the exported forms, which report.
--   S3.Upload           Upload and sniffContentType. A reader is its bytes and what it ends with.
--   S3.Probe            verifyConnectivity, statusCode, isExpectedHealthError, Health.
--
-- Package grpc (grpc/grpc.go, grpc/config.go, grpc/tls.go)
--   Grpc.Config         Config and its defaults; Grpc.Tls, the server's credentials.
--   Grpc.Launch         Start in one thread, up to the stored server: listener, options, registrations.
--   Grpc.Lifecycle      Start, the context watcher that it spawns, and Stop as threads over shared
--                       state, in the manner of Runner.
--
-- Package grpcclient (grpcclient/grpcclient.go, grpcclient/config.go, grpcclient/tls.go)
--   Grpcclient.Config     Config, its defaults, the credentials.
--   Grpcclient.Connect    Start up to ready, with waitReady as a loop on fuel; Health.
--   Grpcclient.Lifecycle  Start and Stop as threads of Runner.
--
-- Package prometheus (prometheus/prometheus.go, prometheus/observer.go)
--   Prometheus.Config     Config and its defaults.
--   Prometheus.Observer   the observer of the supervisor's events; metric vectors are an interface.
--   Prometheus.Lifecycle  Start and Stop as threads, a machine of Protocol, and Health.
--
-- Package fiber (fiber/fiber.go, fiber/routes.go, fiber/helpers.go, fiber/errors.go, fiber/swagger.go)
--   Fiber.Config        Config and its defaults.
--   Fiber.Routes        Register, Use, ExcludeRoutes, RealIP, and what Start installs on the app.
--   Fiber.Fault         the default error handler.
--   Fiber.Probe         Health; Fiber.Swagger, the routes of the Swagger UI.
--   Fiber.Lifecycle     Start, its context watcher, and Stop as threads.
--
-- Each other child module holds proofs about its parent and is named for what they show; Tests applies the
-- theorems at concrete inputs.
--
-- Correspondence. Durations and Go integers are ℤ, with 32-bit conversions written out (`int32`). A method
-- that returns (T, error) returns a pair, or a record with the notes for the sink. A handle is a number,
-- nil is `none`. A critical section under the mutex is one step. A Stop that closes its handle in a
-- goroutine and gives up at its deadline counts as returned when that goroutine has closed the handle.
-- Client libraries, files, the clock, Unicode's case tables and the escaping of URLs are parameters:
-- records of functions that the definitions take.
--
-- Fuel. The loops of Scan, ScanFunc, listKeys and waitReady run until the server ends the iteration, or
-- the connection settles or the deadline passes, which Go does not bound either; on fuel for one round
-- more than the pages, or the changes of state, that come before that end they end. `decimal` takes a
-- round per digit, with the number plus one as fuel. All other recursion is structural.
--
-- Not modelled. Logging, apart from the entry for a panicking sink and the texts of failed
-- settlements. Contexts, apart from the moments at which a loop or a select sees them done. The
-- middleware of fiber that is not its own and the routing of requests, the exposition handler of prometheus,
-- and the engine of the S3 transfer manager: these are other libraries' code.
mod Prelude
pub mod Go
pub mod Fiber
pub mod Grpc
pub mod Grpcclient
pub mod Postgresql
pub mod Protocol
pub mod Prometheus
pub mod Rabbitmq
pub mod Runner
pub mod Redis
pub mod S3
pub mod Sqlite
mod Tests
