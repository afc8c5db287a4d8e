-- ===== src/Lib.antt =====
-- SwarmX distributes tasks of a host over worker machines. This library models the part of the host
-- daemon, core/src, that decides what happens to a task, and cuts and joins its data.
--
-- The parts and their files:
-- - Task: core/src/types.ts, the task record and its status.
-- - Store: core/src/db/task_store.ts, class TaskStore. The table `tasks` is a list of rows, a SELECT
--   or an UPDATE goes over all rows, and a transaction that throws leaves the old table. Each method
--   is one function with the name of the method; `now` is the clock that the method reads.
--   Store/Table has the rows and the statements, Store/Ops the methods on one task, Store/Recovery
--   the recoveries, the reports of failures and the queries about workers, Store/Create the insertion
--   with the search for cycles. Store/System has the sequences of calls, and the other files of
--   Store the proofs.
-- - Graph: the depth-first search of validateDagCycle in core/src/db/task_store.ts and of
--   detectCycles in core/src/dag_engine.ts, over a map from a node to its parents. `createTask` and
--   `registerDag` throw on its verdict.
-- - Chunk: core/src/chunk_engine.ts. Chunk/Matrix has MatrixChunkEngine, that cuts a product of
--   matrices by rows and joins the results, Chunk/Image has ImageChunkEngine, that does so with an
--   image and gives each slice the rows around it, Chunk/Video has VideoChunkEngine, with JSON and
--   base64 as parameters, and Chunk/Buffer what they use of Node's Buffer, a list of its bytes.
-- - Dag: core/src/dag_engine.ts, class DagEngine. The engine is its map `dags`; an object that the code
--   changes in place is set in its map again. Dag/Validate has validateDag, Dag/Stages registerDag and
--   getDagProgress, Dag/Steps the other methods, Dag/System their sequences, and the rest the proofs.
--   KernelRegistry.isCertified and SHA-256 are the parameters `is_certified` and `sha256`.
-- - Pipeline: core/src/workload_pipeline.ts, class WorkloadPipeline, over the store: Pipeline/Workloads
--   has the workloads, Pipeline/Results the handling of results, in the two parts that `await` leaves.
--   What getValidator chooses is the parameter `validate`, the text of a reference `memory_ref`.
-- - Workers: core/src/worker_manager.ts, class WorkerManager, over its map of workers. Workers/Manager
--   has the methods but for updateWorkerStage, which Workers/Stage has, and Workers/Checklist their
--   sequences. Shares of a battery or a processor are in hundredths.
-- - Scheduler: core/src/scheduler.ts. Scheduler/Candidates has the tests of a worker, Scheduler/Scored
--   the class ScoredScheduler over the store's table and the list of workers, Scheduler/Allocation its
--   allocateMultiChunkWorkload, Scheduler/Fifo the class DeterministicFifoScheduler, and
--   Scheduler/Contract the interface IScheduler, that both implement. The formulas in floating-point
--   numbers are parameters: `score` in ten-thousandths, `ema` and `share`.
-- - Pairing: core/src/pairing_service.ts, class PairingService. A session is an object that two keys
--   share: the sessions are a list, and the map activeSessions gives a place in it. Pairing/Trust has
--   pairing and revocation, Pairing/Envelope encryption and decryption, Pairing/Bytes the numbers and
--   texts as bytes, Pairing/Calls the sequences of calls. Node's crypto and base64 are the record
--   `Crypto` of Pairing/Crypto, whose random values are arguments of the methods.
-- - Transport: core/src/transport_server.ts, class TransportServer, over the states of pairing, workers
--   and pipeline, that has the store's table. Transport/Peers has what is sent to workers and the loss
--   of one, Transport/Messages and Transport/Dispatch the method handleWorkerMessage, Transport/Sockets
--   the handlers of a connection, the watchdog and the sweep. What setImmediate puts off is a list, and
--   the result of a task is handled in one piece. JSON is among the parameters in the record `Host`.
-- - Stealer: core/src/work_stealer.ts, class WorkStealer. Stealer/Detector has the record of durations
--   and the test for a straggler, Stealer/Steal the method attemptSteal over the store's table. The
--   moving average `ema` and the mean of two durations `mean` are parameters.
-- - Decision: core/src/kernel_registry.ts, the map of kernels of class KernelRegistry, and
--   core/src/decision_engine.ts, class DistributionDecisionEngine: its state in Decision, its method
--   evaluate in Decision/Evaluate. The text of a worker and a kernel in one key is the parameter `key_of`.
-- - Common: Boolean tests on numbers, results, maps and the sort by a key that the parts share.
--
-- Identifiers and texts that are only compared or stored are numbers, with 0 for the empty text;
-- times, sizes and counts are natural numbers. The code's numbers are doubles, which are exact up to
-- 2^53: no result of an addition here is taken to wrap. An absent value is `none`.
--
-- The recursion of the search for cycles runs on fuel, one more than the entries of the map with
-- their repetitions: a call enters a node that no call entered before, so it cannot be deeper than
-- there are nodes. All other loops are recursion on a list or on a number of rounds.
--
-- Not modelled: the framing of messages; the columns' encoding as JSON and SQLite
-- itself, floating-point work (the validator of results, the simulated worker),
-- sockets and their servers, the log, and the server that answers the editor, the editor extension, and the workers in other
-- languages.

pub mod Common
pub mod Task
pub mod Graph
pub mod Store
pub mod Chunk
pub mod Dag
pub mod Pipeline
pub mod Workers
pub mod Scheduler
pub mod Pairing
pub mod Transport
pub mod Stealer
pub mod Decision
