-- ===== src/Lib.antt =====
-- A verification library for the Go runtime of the UbiQ message queue (runtime/go).
--
-- The runtime takes event envelopes from clients and transports, keeps them in a control store,
-- leases them to workers under fencing tokens, and records how they were settled. Routes lead an
-- envelope over named transports; a secure transport signs what it publishes and verifies what it
-- receives. The server stores what clients publish, shows it to observers through the hub, hands
-- it to a transport, and keeps what the transport refuses in an outbox, which its maintenance
-- loop empties. A cluster agrees over Raft on its nodes and places shards on them.
--
-- Which file models which part:
--   Event, Event/Pattern            event names: canonicalEventPattern, Envelope.State (ubiq/model.go)
--   Json                            the scanner of encoding/json: json.Valid, and Compact as Marshal
--                                   calls it on a json.RawMessage
--   Json/Scanning, Json/Compacting  the scanner on a text and on its compact form
--   Envelope, Envelope/Validity     Envelope, Lease, ControlFrame, their checks and their codec
--                                   (ubiq/model.go, ubiq/transports_broker.go)
--   Sql, Sql/Keeps                  database/sql as the store calls it: ExecContext and QueryRowContext
--                                   (statement), BeginTx, Commit and the deferred Rollback (transaction)
--   Store/Rows                      the tables and the SQL statements of ControlStore (ubiq/store.go)
--   Store                           its methods: Publish, Claim, MarkReceived, Settle, RequeueExpired,
--                                   State, EnqueueOutbox, NextOutbox, MarkOutboxDelivered
--   Store/Run and below             sequences of calls of the methods, with clock readings
--   Store/Invariant, Store/Consistency, Store/Settling
--                                   the invariant of the tables
--   Store/Lifecycle and below       the state machine of one event, and that the methods refine it
--   Store/Claiming, Store/Fencing, Store/Outcome, Store/Publishing, Store/Maintenance
--                                   the laws of the single methods
--   Transport and below             Capabilities.Satisfies, Registry, ValidateRoute (ubiq/transport.go)
--   Replay and below                the replay cache that VerifyPoP (ubiq/crypto.go) and the DPoP
--                                   verifier (ubiq/dpop.go) keep, and why it admits a proof once
--   Crypto, Crypto/Pop              CryptoProvider: Sign, VerifyHybrid, NewPoP, VerifyPoP
--   Crypto/Session, Crypto/Agreement
--                                   Secret, Establish, Accept, Seal, Open
--   Crypto/Acceptance, Crypto/Replaying, Crypto/RoundTrip
--                                   which proofs VerifyPoP accepts, and how often
--   Dpop, Dpop/Once                 DPoPVerifier.Verify (ubiq/dpop.go)
--   Secure and below                StaticTrustStore, SecureTransport (ubiq/secure_transport.go)
--   Shard/Rows, Shard               shard migrations, the interface ShardBackend, and the operations of
--                                   ShardCoordinator (ubiq/shard.go)
--   Shard/Progress, Shard/Run       a migration as a state machine, and sequences of calls
--   Shard/Targets, Shard/Verifying, Shard/Backfilling, Shard/Undoing
--                                   the targets of a write, and the laws of single operations
--   Handlers and below              the map of handlers of the TCP, QUIC and gRPC transports, and dispatch
--   Tcp, Tcp/Framing                TCPTransport: frames, Publish, handleConn (ubiq/tcp.go)
--   Quic, Grpc                      QUICTransport, GRPCTransport (ubiq/quic.go, ubiq/grpc.go)
--   Memory                          MemoryTransport, canonicalSubject (ubiq/transports_broker.go)
--   Brokers                         what the adapters of NATS, Kafka, RabbitMQ, Redis Streams and MQTT
--                                   publish, and under which names (ubiq/transports_broker.go)
--   Brokers/Messages, Brokers/Settling
--                                   what they do with a message, and what they acknowledge
--   Hub, Hub/Bounded                Hub, and what an observer gets of it (ubiq/server.go)
--   Server                          ingest, handlePublish, handleClaim, handleReceived, handleSettle,
--                                   BindTransport, RunMaintenance (ubiq/server.go)
--   Server/Ingesting, Server/Marking, Server/Ticking, Server/Leasing
--                                   the laws of ingest, of a tick and of lease_ms
--   Cluster, Cluster/Machine        ClusterNode, the state machine, Placement (ubiq/cluster_raft.go)
--   Cluster/Placing, Cluster/Moving what a placement promises, and what becomes of it when a node leaves
--   Cluster/Raft and below          Join, Remove, UpsertNode, Heartbeat, ReapStale
--   Cluster/Replicating             Replicate
--   Command, Command/Guarding       dpopMiddleware, csvEnv, envDefault, envBool, loadTrust
--                                   (cmd/ubiqd/main.go, in runtime/go)
--   Adapter                         the universal adapter (generated/go/universal_adapter.go)
--   ShardSql and below              SQLShardBackend (ubiq/shard_sql.go), and a whole backfill between two
--                                   tables
--   ShardMongo                      MongoShardBackend (ubiq/shard_mongo.go)
--   Tests and below                 runs at concrete inputs, and instances of the theorems
--   Prelude and below               lists as tables, byte strings, integers, errors
--
-- State and time. A method of the store is a function from a world to a result and a world: the
-- tables, and the list of the coming calls of the driver that fail, so that each theorem covers a
-- failure of any call. A method reads the clock once and gets the reading as an argument, natural
-- milliseconds since the epoch (nanoseconds for VerifyPoP and DPoP); creation times, which
-- clients choose, are integers. The methods hold no lock across calls, so that concurrent callers
-- are a sequence of calls in some order; a transaction of SQLite is one step of that sequence.
--
-- Strings are lists of bytes, compared byte by byte, taken to be valid UTF-8. JSON that holds an
-- envelope is represented by the envelope that it decodes to; that encoding/json escapes U+2028,
-- U+2029 and the characters of HTML inside strings is not modelled. Counters (attempts, fencing
-- tokens, sequence numbers) are natural numbers: that they stay below 2^63 is assumed, as is that
-- a lease added to the clock does. SQLite is taken to do what its statements say, and to test the
-- conflict target of an insert before its primary key.
--
-- Parameters. The primitives of the crypto packages are the records Scheme and Exchange, and what
-- their packages document of them the hypotheses IsSound and IsExchange, which a toy instance in
-- Tests/Crypto satisfies. The JOSE library is the record Jose, and a shard backend the record
-- ShardBackend, whose operations may do and return anything; ShardSql and ShardMongo fill it.
-- What they decode the JSON of a document to, and what a SQL table then has of it, is the records
-- DocumentReader and KeyReader. A transport is a parameter through its name, its capabilities and
-- its Close, and to the server also through its Publish. The library raft is the record Raft, and
-- what it documents of a committed entry the hypothesis IsCommitting, which a cluster of one
-- member in Tests/Cluster satisfies. The client libraries of QUIC, gRPC and the brokers are the
-- results of their calls. The JSON bytes on a TCP connection are the record Wire. Randomness is
-- an argument.
--
-- Bounds and fuel. The loop of a TCP connection runs on as much fuel as there are bytes, which is
-- enough since each round takes four of them at least; a tick of the maintenance loop has the 64
-- rounds that the code gives it; a decimal of 64 bits has 20 digits at most; every other loop is
-- a recursion on a list. Durations, epochs, hashes, subscription ids and frame lengths wrap as
-- their types do.
--
-- Orders. A Go map is its entries in the order in which they were made, or in the order of the
-- keys for the nodes of a cluster; sort.Slice is a stable sort by insertion, which the library
-- uses for up to twelve elements and which matters only for nodes of equal scores.
--
-- Not modelled: opening and closing of databases, connections, servers and clients; the loops
-- that accept connections; the loops of handleSSE and handleWS, and the routing of net/http;
-- flags, wiring and TLS files of the command (cmd/ubiqd/main.go); the other languages.
pub mod Prelude
pub mod Sql
pub mod Json
pub mod Event
pub mod Envelope
pub mod Store
pub mod Tests
pub mod Transport
pub mod Replay
pub mod Crypto
pub mod Secure
pub mod Shard
pub mod Dpop
pub mod Handlers
pub mod Quic
pub mod Grpc
pub mod Tcp
pub mod Memory
pub mod Brokers
pub mod Hub
pub mod Server
pub mod Cluster
pub mod Command
pub mod Adapter
pub mod ShardSql
pub mod ShardMongo
