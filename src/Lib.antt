-- ===== src/Lib.antt =====
-- Raft consensus and a key-value store on it: a model of the Go packages raft, kvstore and chaos, of
-- the servers cmd/kvstore and cmd/chaos and of the sidecar cmd/sidecar, and what is proved of them.
--
-- The program. A RaftNode (raft/node.go) keeps a log (raft/log.go), its term and its vote, and saves
-- these three (raft/persist.go). A node that hears no leader asks its peers for a pre-vote and then for
-- a vote (raft/election.go). A leader sends its entries to its peers, counts what they hold and commits
-- (raft/replication.go); a peer that lags behind the compacted log is sent a snapshot
-- (raft/snapshot.go). Committed entries go to a state machine (raft/apply.go, raft/state_machine.go),
-- for which kvstore/kvstore.go is one. Nodes call each other over a transport (raft/transport.go): in
-- process (raft/transport_memory.go), over gRPC (raft/transport_grpc.go) or over HTTP
-- (raft/transport_http.go); chaos/ puts a rule engine in front of the first, and runs scenarios.
-- cmd/kvstore/main.go serves one node's store, log and membership over HTTP. cmd/sidecar/main.go starts,
-- stops and pauses the containers of nodes, asks the leader's server to add and remove them, and runs
-- scenarios on the live cluster.
--
-- The files. Prelude passes on the library's names and has the tests, lists, 64-bit words and maps that
-- the parts share. Under Raft:
--   Log            raft/log.go: Log.append, get, truncateFrom, compactTo, slice, firstIndexForTerm
--   Rpc            raft/rpc.go: the arguments and replies
--   Disk           raft/persist.go, raft/snapshot.go: the two files, their writing and reading
--   Node           raft/node.go: RaftNode, Config, NewRaftNode; persist of raft/persist.go
--   Election       raft/election.go: becomeFollower to HandleRequestVote
--   Replication    raft/replication.go: sendHeartbeats, sendToPeer, maybeCommit, HandleAppendEntries
--   Snapshot       raft/snapshot.go: TakeSnapshot, HandleInstallSnapshot, sendSnapshotToPeer, restart
--   Accessors      raft/node.go: State, LeaderID, LogEntries and the other reads
--   Membership     raft/node.go: Submit, AddPeer, RemovePeer, applyConfigEntry
--   EventLoop      raft/node.go: checkQuorum, randomElectionTimeout and the cases of Run
--   Steps          the events of one node as one type, and runs of them
--   Apply          raft/apply.go: applyLoop; Apply.Between, the two halves of a round
--   MemoryNetwork  raft/transport_memory.go
--   Transport      raft/transport.go; below it Proto and Grpc, raft/transport_grpc.go, and Http,
--                  raft/transport_http.go; Agree compares the three
--   Votes          what steps of one node do to its term and its vote
--   Cluster        the cluster as a step relation: handlers in any order, votes under way, restarts
--   Matching       such a cluster with commands and the leaders' append messages on their way
--   Complete       what the runs of Matching show that nodes held, and how each leader was elected
-- Kv.Store is kvstore/kvstore.go: the state machine and the calls that wait;
-- Kv.Store.Snapshots its construction and its automatic snapshot; Kv.Store.Refines the abstract map. Kv.Server is
-- cmd/kvstore/main.go: the handlers; Kv.Server.Addrs its settings, Kv.Server.Start
-- the construction of the node in main. Chaos.Network is chaos/network.go,
-- with its transport in Chaos.Network.Calls; Chaos.Network.Injector is chaos/injector.go, Chaos.Harness
-- is chaos/harness.go, Chaos.Live is chaos/scenarios.go, and Chaos.Server is cmd/chaos/main.go.
-- Under Sidecar are the parts of cmd/sidecar/main.go:
--   Registry       NodeDef, findNode, addDynamicNode, removeDynamicNode, isPaused, setPaused
--   Docker         compose, getBuiltImage, clearNodeData, buildPeerHTTPAddrs
--   Cluster        fetchRaftStatus, findOnlinePortExcluding, waitForHTTP, retryAddNode
--   Lifecycle      startPresetNode, createDynamicNode, stopNode, restartNode, pauseNode, unpauseNode
--   Status         handleNodes
--   Scenarios      the four live scenarios
--   Handlers       handleCreateNode, handleNodeAction, handleRunLiveScenario
-- Its other modules hold proofs: Ports, Pauses, Restores, Quorum, Stops, Presets, Requests, PeerAddrs. The
-- modules named Examples run the code on concrete data.
--
-- How the code is modelled. A method that holds the mutex is a function from the node to the node and
-- its reply. A goroutine that sends a call is two parts: the arguments that it builds, and what it does
-- with the reply, an Option that is none where the call fails. The time is a parameter in
-- milliseconds. A channel of capacity one is an Option, or a Bool if it carries no value. A uint64 is a
-- native number, and an addition or subtraction on it is taken modulo 2 ^ 64 (add64, sub64). A map is an
-- association list in which a missing key reads the zero value. Where Go panics on an empty slice of
-- entries, the zero entry is read. A map is walked in the order of its list.
--
-- The cluster. Membership is fixed, each node is configured with all the others, and a step is one
-- handler at one node. A poll is what startElection shares between its goroutines; an answer to it may
-- be counted late, in any order, or never, and once for each voter. Restarts keep what the disk holds.
-- The ghost field ever records whom each node voted for in each term. In Matching an append message
-- is what message_for builds at a leader; it may arrive at any node, any number of times, at any later
-- time. There no node takes or installs a snapshot, and the ghost field book records the leader of each
-- term with its log. An append reply that a leader handles is any reply, so the cluster does not relate
-- match indexes to what the peers hold. What a node has held in a run (Complete) is read off the states
-- of the run.
--
-- Fuel. The inner loop of applyLoop runs on commitIndex - lastApplied rounds of fuel, since each round
-- counts lastApplied up by one and leaves commitIndex. The search of sendToPeer for a term runs on the
-- last index as fuel, since it counts that index down. A loop up to a deadline is a recursion on a number
-- of rounds, an argument: the time that a round takes is not known. A decimal number is printed with the
-- number itself as fuel. All other loops are recursions on lists.
--
-- Parameters. The state machine is a record of functions. encoding/gob is a record with the documented
-- round trip. The file system is a list of answers, one for each write or read; a write that fails
-- leaves the file. The random number of a loss rule is an argument, and rand.Intn is a function that may
-- panic. The generated gRPC client, net/http and encoding/json are records of functions, the last with
-- the documented round trip. What docker and the nodes' HTTP servers answer to the sidecar is a record of
-- functions on a world of any type. strconv.Atoi is an argument.
--
-- The chaos scenarios. A scenario of chaos/scenarios.go is a script that reads the nodes, submits
-- commands, injects faults and reports to the harness. What the nodes do beside it is a function that
-- acts while the script sleeps, and a wait has a number of rounds that is an argument too.
--
-- Not modelled: the generated protocol code; connections, listeners and the start of the processes in the
-- main functions; cmd/readstate (it prints a file); the temporary directories and the teardown of the
-- chaos scenarios; Stop and the timers of raft/node.go (a timer may fire at any step); log lines, sleeps
-- and measured durations of the sidecar, and the concurrency of its handlers.
mod Prelude
pub mod Raft
pub mod Kv
pub mod Chaos
pub mod Sidecar
