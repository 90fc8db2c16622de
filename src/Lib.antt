-- ===== src/Lib.antt =====
-- A verification of the distributed testing system: the service that stores the tests of programming
-- tasks in batches (Tabasco), and the processor that runs a submission on them.
--
-- How the parts interact. PUT /uploadTests of the HTTP server splits the tests of a task into batches
-- and stores the tests and the metadata of the task in two MongoDB collections. A testing processor
-- takes a submission from a queue, asks the gRPC service for the scripts of a build and for one batch
-- after the other, runs the submission on each test in a Docker container and posts its reports. In the
-- container the executor runs the command under a limit, and leaves a report that the processor reads.
--
-- Which file models which part:
-- - Base: shared names. Outcome is what a C++ call ends in: a value, an exception, or undefined
--   behaviour; Action passes on the world too; Int has int64_t, Text has std::string as its bytes,
--   Number has std::stoull.
-- - Extern: third-party code, as records of operations and laws that are parameters: Json
--   (nlohmann::json), Mongo (mongocxx and bsoncxx), Crow (requests and multipart messages), System
--   (files, processes, the gRPC stub, curl), Unix (the system calls of the executor). The laws state
--   documented behaviour; Sample has instances that satisfy them.
-- - Utils: utils/expected.h (Expected), utils/parse_json.cpp (ParseJson), utils/execv_args.h
--   (ExecVArgs), utils/lru_cache.h (LruCache). In LruCache: Values (the map), Order (the list), Linked
--   (both together), Recency (the operations), History (sequences of them).
-- - Config: the configuration file of the main functions. Tabasco.Main has those of
--   task_batcher_storage_coordinator/http and grpc, Processor.Instances that of testing_processor,
--   Executor that of executor.
-- - Tabasco.Batches: SplitIntoBatches of task_batcher_storage_coordinator/http/handlers/
--   upload_tests_handler.cpp; Batches.Cover, Bounds and Minimal are its theorems.
-- - Tabasco.Data: task_batcher_storage_coordinator/common/storage_client/data_repr.{h,cpp}.
-- - Tabasco.Storage: TStorageClient of storage_client.cpp beside it. Its modules: Rows and Table (the
--   collection of tests as a table with a key), Upload (writes), Spots and Fetch (reads), Written and
--   Documents (documents by _id), Keyed (an interface of writes and reads by an id) and History (its
--   two implementations).
-- - Tabasco.Server, Tabasco.Http and its modules: task_batcher_storage_coordinator/http. upload_tests,
--   upload_build, upload_task_root_dir, handle_build and handle_builds are the Handle methods, the
--   parse functions the Parse methods.
-- - Tabasco.Grpc: task_batcher_storage_coordinator/grpc/server.cpp. Grpc.Batches has the client that
--   fetches batch after batch.
-- - Tabasco.Http.Accepted and Http.Order: what an upload has done where it ends. Http.Codes: the status
--   codes of the handlers. Http.Builds: a build that is put and shown.
-- - Tabasco.Served: requests that http/server.cpp answers one after the other; Kept and Fetched are its
--   theorems.
-- - Tabasco.EndToEnd: from the upload to the batches that are fetched.
-- - Processor: testing_processor. Container (docker_container.cpp), Report,
--   Request, Tabasco (tabasco_request_task.cpp), Execute (ExecuteAndTest), Testing (Test), Process
--   (Prepare, Commit, Process and the handler of broker_client.cpp). Process.Unprepared and
--   Process.Childless are about submissions that could not be prepared.
-- - Processor.Broker: the deliveries of the queue (testing_processor/broker_client.cpp); Broker.Defined
--   and Broker.Consume are its theorems.
-- - Processor.Queue: the queue with the instances of testing_processor/main.cpp, over lost connections
--   and new starts; Queue.Conserved and Queue.Progress are its theorems.
-- - Executor: executor. execute is TExecutor::Execute, child what the forked child does, supervise what
--   its parent does; Timeout and Reported are its theorems.
-- - Judging: the processor with the service. Reaches says that the stub of the one calls the other.
-- - Sample and Examples: instances of the interfaces, tests, and the theorems at concrete inputs.
--
-- State and exceptions. The collections are the server's state and are passed on; a write that fails
-- leaves the collection that the driver gives back. The processor's state is the world of System and
-- its container. uint64_t and size_t keep their wrap-around where the code adds or multiplies them;
-- int64_t is a signed type whose overflow is undefined. No definition has fuel: the loops go over lists
-- or over a count.
--
-- Threads. The queue and its instances move by deliveries, acknowledgements, lost connections and new
-- starts, each one step of a relation. Requests to the HTTP server are answered one after the other: its
-- threads share one mongocxx client, which the library documents as unsafe to share, so that nothing is
-- said of requests at the same time.
--
-- Waiting. A call of the operating system or of a library returns in the model. A process that never
-- ends makes waitpid and system wait for ever, and the processor with them; theorems that say that the
-- processor goes on are about runs in which every process that is waited for ends.
--
-- Not modelled: requests at the same time; the locks of the libraries, so that a call of the cache is
-- one step; what the command in a child does; the event loop; transactions of the database; the parsers
-- of the command line and of protobuf's text format, which are parameters; userver (Python) and the
-- deployment. storage_client.cpp includes utils/lru_cache.h, and its caches are commented out.
pub mod Base
pub mod Extern
pub mod Utils
pub mod Config
pub mod Tabasco
pub mod Processor
pub mod Executor
pub mod Judging
pub mod Sample
mod Examples
