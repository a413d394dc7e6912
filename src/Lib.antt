-- ===== src/Lib.antt =====
-- The verification library of mytonprovider-backend: how the coordinator decides which storage
-- contracts are proved, and how an agent checks a piece of a bag.
--
-- Each cycle of the storage-proof worker (`StoreProof`) reads the storage contracts, drops those that
-- were rejected, and looks up the providers' endpoints. A pass (`runStoreProofChecks`) groups the
-- contracts into one batch per provider, shards the batches across the agents, calls the agents at
-- once, merges their answers, and gives every contract a result. Results that are final are written;
-- the others wait for a second pass away from the agents of the first, and are written after it. An
-- agent checks the contracts of a provider over one peer connection, which its checks share: they pass
-- a gate, take slots for the pieces that they fetch, and give the provider up after too many failures
-- in a row.
--
-- Files, with paths from the repository's root:
--   Reason      agent/internal/reason/reason.go, coordinator/internal/constants/constants.go and
--               coordinator/internal/workers/providersMaster/reason_mapper.go: the codes
--   Db          coordinator/internal/models/db/types.go: rows; messages of contracts/proto
--   Shard       .../providersMaster/runchecks_shard.go: `assignProvidersToAgents`, `pickAgent`
--   StoreProof  .../providersMaster/worker.go (`mergeRunChecksResponses`), storeproof_commit.go, and
--               `ParseStageFromDetails` of coordinator/internal/pipelineevents/recorder.go
--   Pipeline    coordinator/internal/pipelineevents/recorder.go: the recorder of events
--   RunChecks   .../providersMaster/worker.go: the request, the sticky agents, `fanoutRunChecks` and
--               `runStoreProofChecks`, and `RunChecks` of coordinator/internal/clients/agentrpc
--   Rejected    .../providersMaster/worker.go (`updateRejectedContracts`) and helpers.go
--   Cycle       .../providersMaster/worker.go: `StoreProof` and `waitUntil`
--   EndpointRefresh  .../providersMaster/endpoint_refresh.go, the lookups of worker.go
--               (`findProviderIPs`, `findStorageIPOverlay`) and resolve_errors.go
--   Workers     .../providersMaster/worker.go: `UpdateKnownProviders`, `CollectNewProviders` and
--               `CollectProvidersNewStorageContracts`
--   Cache       coordinator/internal/cache/simple.go: `SimpleCache`
--   Agent       agent/internal/checker: the limit of pieces (aimd.go), the gate of a peer (session.go),
--               and of checker.go the tally of failures, the check of a piece (`checkPiece`), and the
--               pool of workers of a provider's check (`checkProviderFiles`), as turns in any order;
--               Agent/Server is agent/internal/grpcserver: the validation of the requests, the
--               deadlines, the bearer token, and the calls for rates and for storage info
--   Tests       runs, and each theorem at a concrete input
--   Prelude     what these share: maps, tests, signed integers, and `strings` and `strconv` of Go
--
-- A function keeps the name it has in the code, and a loop is a function of its own with the variables
-- that it changes as arguments. A Go map is an association list with distinct keys; where the code
-- ranges over a map, whose order Go leaves open, the model goes in the order of the list. A pointer
-- that may be nil is an `Option`. Calls that leave the program (the agents, the database, the clock)
-- are arguments or fields of the records `Agents` and `Env`, and the order in which the agents'
-- concurrent calls end is the field `order`. A panic is `none`, or `panic` for a pass. Every loop is
-- structural recursion and no fuel is used, but for the words of a text, of which there are no more
-- than characters. The functions of tonutils-go and float64 quotients are the parameters `Ton` and
-- `Floats`.
--
-- Not modelled: the recorder's run and worker, which each event repeats; logging and metrics; the
-- agent's goroutine for each provider of a job and the progress that it logs; the telemetry and
-- cleaner workers, the HTTP API, the SQL of the repositories, and the network clients. The results of
-- a refresh of endpoints are fields of the `Env` of a cycle. The texts of errors are kept where the
-- code passes them on, and shortened.
pub mod Prelude
pub mod Reason
pub mod Shard
pub mod Db
pub mod StoreProof
pub mod Pipeline
pub mod RunChecks
pub mod Cycle
pub mod Agent
pub mod Cache
pub mod EndpointRefresh
pub mod Rejected
pub mod Tests
pub mod Workers
