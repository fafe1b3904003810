-- ===== src/Lib.antt =====
-- pinai is a gateway in front of providers of language models: it keeps platforms, endpoints, keys
-- and models in a database, watches their health, answers statistics, and hands requests to the
-- portal library. This library models the parts that keep state or take decisions of their own.
--
-- Task: the asynchronous batch tasks of internal/app/provider. A handler stores a task as a row and
--   queues its id in memory; one worker takes the ids, runs the batch operation and writes the
--   result; a new process recovers the unfinished rows. Task.antt is the table
--   (model_batch_task_repository.go: `CreateModelBatchTask` is `create_task`,
--   `MarkModelBatchTaskRunning` is `mark_task_running`, `FinishModelBatchTask` is `finish_task`),
--   Task/Runtime.antt the queue, the marks and the cached summaries
--   (model_batch_task_runtime.go), Task/Submit.antt and Task/Worker.antt the submissions and the
--   rounds (model_batch_task_service.go: the three `Enqueue…` functions share `submit`, and
--   `processOneModelBatchTask` is `begin_task` and `end_task`, between which handlers may run).
--   `faults` in the table says which coming calls the database refuses.
-- Health: the health records of internal/app/health. Health/Storage.antt is the cache over the table
--   (storage.go), Health/Service.antt the switches (service.go) and the reader of
--   internal/app/provider/health_query_service.go, Health/Service/Adapter.antt what the portal
--   library sees of it (internal/infra/portal/healthadapter/adapter.go), Health/Counts.antt the
--   counts and the summary, Health/Query/Lists.antt and Health/Query/Issues.antt the lists of
--   service_query.go, and Health/Query/Pages.antt their bounds with the page parameters of
--   handlers/query/query.go.
-- Collector: the realtime counters of internal/app/stats/collector.go: the ring of sixty seconds
--   and the count of open connections, whose atomic operations interleave
--   (Collector/Connections.antt).
-- Auth: the provider that a request is meant for and the check of its credential, of
--   internal/handler/data/auth, and the bearer check of internal/router/middleware_auth.go.
-- Gateway: the mapping of upstream errors of internal/app/gateway/error_mapper.go: Gateway.antt
--   extracts what the error says, Gateway/Heuristics.antt guesses and completes the rest.
-- Control: the services of internal/app/provider that change platforms, endpoints, keys and models.
--   Control.antt has the tables, a monad of the calls of the database that keeps the state after an
--   error (`call`), the transaction of control_contracts.go (`within_tx`, which undoes what its body
--   wrote) and the audit events; Control/Rules.antt the rules by which properties of the tables pass
--   through it. Control/Endpoints.antt is the operations on one endpoint
--   (`addEndpointToPlatformApp` is `add_endpoint`, and so on) and Control/Endpoints/Batch.antt the
--   two batch operations of endpoint.go; Control/Links.antt the relation between keys and models,
--   Control/Keys.antt, Control/Models.antt, Control/Models/Batch.antt and Control/Platforms.antt
--   the services of the same names, each with its repository.
-- Base: lists, integers, texts as lists of code points, and association lists for Go maps.
--
-- The parts meet in the data they share: the adapter, the service and the lists stand on the one
-- storage, and the submissions and the worker on the one queue.
--
-- Bounds. The page bounds are computed on 64-bit patterns, with their wrap-around; ids, times and
-- counters elsewhere are natural numbers or integers and do not reach 2^63. Every loop is structural
-- recursion on its list or on the number of its rounds, so no fuel is needed. The default size of
-- the task queue is 256.
--
-- What is not in the repository is a parameter: gorm with its table of health records (`Table`,
-- with the laws `IsTable`, which leave the two times of a row open), the queries for rows
-- (`Answers`), `sort.Slice` (`IsSort`), what gorm writes for the models in the body of a key
-- (`Associations`), `strconv.Atoi`, `strings.ToLower`, `encoding/json`, what `errors` and `reflect`
-- read of an error (`Failure`). The batch operations on models (`Apps`) are a parameter of the
-- tasks so far. The queries that gorm makes for the control services and for the tasks are written
-- out as they are documented: a served call reads or changes the rows that satisfy its conditions,
-- and a refused call, of which a list in the state decides, changes nothing; a read with its
-- preloads, and a creation with its relations, is one call; an update counts the rows that satisfy
-- its condition; the tables check no foreign keys, as SQLite by default.
--
-- Not modelled: the flags and the goroutine around the worker's start and stop, the gateway's
-- services and streams, the health switches and the plain reads of the control services, the texts
-- of their errors, the rate limit of a platform, the statistics queries, the HTTP handlers,
-- migrations, configuration and logging.
pub mod Auth
pub mod Base
pub mod Collector
pub mod Control
pub mod Gateway
pub mod Health
pub mod Task
