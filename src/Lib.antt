-- ===== src/Lib.antt =====
-- TWIG-KV is a key-value store whose servers keep their keys on disk, cache some of them, and read
-- from the caches of the others by RDMA. This library models the logic of src/ and proves what the
-- parts promise each other. Paths are from the root of the repository.
--
-- Parts and files:
-- - Config: `Configuration` of src/operations.h.
-- - Placement: src/rdma_reads.cpp. A key has a slot of a node (`calculateNodeAndOffset`); without a
--   cache index its block is written and read there. The servers' memory is the record OneSided of
--   operations, and OneSidedLaws says what they do.
-- - Workload: Generate has the generators of operations of src/operations.cpp, over a given sequence
--   of random numbers, Split the one that shares them out among shuffled threads, Partition compares
--   the partitioned one with Placement, Zipfian is about those with a shuffled order of keys, Files
--   the data set and the files of operations of src/dataset.cpp and src/operations.cpp as texts,
--   Database `generateDatabaseAndOperationSet` that makes both, and Chunks the ways to share
--   operations out among client threads, `get_chunk` of src/ldc.cpp and `divideOperationSetPerThread`
--   of src/operations.cpp.
-- - Index: the cache indexes of src/ldc.h. Each server has a table that says where its cache keeps a
--   key, and a copy of every other server's table. Api is what the cache and the RDMA library give,
--   Connect the connections, Tables the operations of `CacheIndexes` and `read_callback`, Publish what
--   they post, Coherence all interleavings of puts, evictions and transfers, Lookup the reads, and
--   Logs the alternative with batches, `CacheIndexLogs`. The state of all servers is the record
--   Cluster; a posted write is a Request in the queue of its server.
-- - Storage: the tokens and buffers of `RDMADataWithQueue` of src/ldc.h, with which entries that the
--   index names are read.
-- - Snapshot: the counters of accesses of src/ldc.h.
-- - Server: the server thread, `server_worker` of src/ldc.cpp with `Server` of src/connection.cpp and
--   the background thread of src/async_rdma.h. State is the state with its queues and the reads that
--   are under way, Handler the handler of requests, Completions the callbacks, Pending
--   `execute_pending_operations`, Answers follows the answers from the request to the packet,
--   Failures shows that no queued entry reports a failure, Delivery hands the packets of the server to
--   its Connection, and Puts is about the response to a PUT request.
--   Handler uses Placement, Index and Snapshot; the block cache is the record BlockCacheApi.
-- - AccessRate: src/access_rate_calculations.cpp. Distribution builds the distribution of the accesses
--   from the frequencies that the cache has counted, Optimal searches it for the best water marks,
--   and Distribution/Round is the round of the access rate thread of src/ldc.cpp that does both.
-- - Connection: src/connection.h and src/connection.cpp, with the client's part of src/ldc.cpp. A
--   connection keeps a flow for each machine and port: Routing and Sources say which flow an answer goes over,
--   Links what the constructor of a client sets up, Sync when clients wait for each other, and
--   Replies what the calls of `get` in `execute_operations` return. Machnet is the record of the same
--   name; what `machnet_recv` returns is a list of calls, and a wait that they do not end has the
--   result `none`.
-- - MaxHeap: src/heap.h.
-- - Common: what the modules share. Examples: runs at concrete inputs.
--
-- Conventions: a call ends in `ok`, in `panic` (also an uncaught exception or a failed assertion), or
-- in `undefined` (behaviour that C++ leaves undefined). Unsigned 64-bit arithmetic has its wrap-around
-- written out where it can happen (add64, sub64, mul64); an `int` is a natural number where the code
-- keeps it non-negative. Keys are numbers, which the code gets by `std::stoi`, and values are lists of
-- bytes. Loops are recursions on the number of rounds that they have left; the wait of `append_entry`
-- for other servers is a recursion on the rounds of probes that happen, and may end in `waiting`. The
-- loop that reads a file of operations has as many rounds as the file has bytes, and each round that
-- reads an operation takes some of them. Decimal numerals have 20 digits at most, enough for 64 bits.
--
-- Not modelled: sockets, files that cannot be opened, logging, threads and time (a step of another
-- thread is a step of the model, at any time), the generated packet code, the setup of RDMA devices,
-- and the third-party libraries, which are parameters. Where a call waits for other servers, for a
-- free buffer or for a request token, the model of the server takes it at the moment when it goes on
-- (Storage and Index.Logs have these waits by themselves); the tokens of the writes of CacheIndexes
-- are not counted.
pub mod Common
pub mod Config
pub mod Placement
pub mod Workload
pub mod Index
pub mod Snapshot
pub mod MaxHeap
pub mod Connection
pub mod Storage
pub mod Server
pub mod AccessRate
pub mod Examples
