-- ===== src/Lib.antt =====
-- rdsync keeps a shard of Valkey servers highly available. One rdsync process runs beside each
-- server. The processes agree through a DCS (ZooKeeper) on which server is the master, which are the
-- active nodes, and which process is the manager. The manager gathers the state of every host, keeps
-- the list of active nodes, tells the master how many and which replicas to wait for, and on the
-- master's failure decides whether another host takes over and which.
--
-- How the files correspond to the code:
--
-- - Types: internal/app/types.go, the records that are kept in the DCS or gathered from the hosts;
--   Types/Names has the names of the states and modes and their parsers.
-- - Lag: internal/app/lag.go, replication offsets, partial resynchronisation and the choice of the
--   host to promote, with GetNodeConfiguration of internal/valkey/shard.go. Lag/Psync, Lag/Recent and
--   Lag/Desirable prove one function each.
-- - ActiveNodes: internal/app/active_nodes.go. ActiveNodes/Transition has
--   applyActiveNodesTransition over three operations that may fail, its proof in Transition/Run (the
--   reasoning about runs) and Transition/Safety. ActiveNodes/Calc has calcActiveNodes, its loop in
--   Calc/Loop and the laws in Calc/Laws. ActiveNodes/Update has updateActiveNodes and
--   actualizeQuorumReplicas as programs, Update/Refines relates its transition to the one over three
--   operations, and Update/Served runs it on a master and a DCS that do what they document.
-- - Failover: internal/app/failover.go, getNumReplicasToWrite of internal/app/master.go, and from
--   internal/app/switchover.go countAliveHAReplicasWithinNodes and approveSwitchover.
-- - Replication: replicates and isReplicaStale of internal/app/replication.go, with Node.MatchHost of
--   internal/valkey/node.go; Replication/Close has closeStaleReplica.
-- - Actions: the calls that the programs make of the servers, the DCS and the clock, and programs of
--   such calls with the errors of Go; runParallel and combineErrors of internal/app/parallel.go and
--   getShardStateFromDB of internal/app/state.go. Actions/Hoare and Actions/Steps say when a program
--   keeps to rules on its calls, whatever the replies; Actions/Only reasons about programs that make
--   only calls of one kind, and Actions/Run runs a program against given servers.
-- - Pill: internal/app/poison_pill.go; Pill/Apply says when a pill is marked as applied.
-- - State: getHostState of internal/app/state.go, a reader of INFO that stops at the first field that
--   is missing or malformed; State/Fields reasons about its steps and State/Complete about the whole.
--   Base/Text/Numbers has the numbers in texts.
-- - Availability: internal/app/checks.go and internal/app/aof.go, with getShardStateFromDcs of
--   internal/app/state.go and GetActiveNodes of internal/app/active_nodes.go.
-- - Repair: internal/app/repair.go: repairReplica, whose replFailTime is read and set by calls,
--   Repair/Shard with repairShard, Repair/Watchdog with reservedConnectionsWatchdog, and Repair/Local
--   with repairLocalNode. Repair/Shard/Bounds counts the hosts that are told to follow the master;
--   Repair/Local/Opens and Repair/Local/Opening say when the local node is set online, and
--   Repair/Local/Busy what follows a SCRIPT KILL.
-- - Manager: internal/app/manager.go; Manager/Lock has the rules of the turn, Manager/Named its master,
--   Manager/Turn its parts and Manager/Safety the whole.
-- - Lost: internal/app/lost.go and internal/app/init.go; Lost/Fence has the rules and Lost/Safety the
--   turn.
-- - Maintenance: internal/app/maintenance.go; Maintenance/Order is about entering and
--   Maintenance/Leave about leaving.
-- - Cache: updateCache of internal/app/cache.go, with the records of internal/valkey/senticache.go;
--   Cache/Gathers has one turn of its loop, Cache/Given what it gives the cache and Cache/Ends when it
--   does not panic.
-- - Dcs: internal/dcs. Dcs/Lock has AcquireLock, ReleaseLockOrError and handleSessionEvent of
--   internal/dcs/zk.go, over requests to ZooKeeper that are a parameter. AcquireLock is in two parts,
--   its requests and what it remembers of them, since an event of the session may be handled between
--   the two. Dcs/Lock/Held has what ZooKeeper documents of a node and its owner, and Dcs/Lock/Own the
--   moments of a connection, as steps; a connection begins where no node has the process's data.
--   Dcs/Path has buildFullPath.
-- - Valkey: internal/valkey/node.go. Valkey/Cluster has the checks on the text of CLUSTER NODES, with
--   the majority in Cluster/Majority; Valkey/Ping the results of the last pings that GetState keeps and
--   EvaluatePing reads, with runs of equal results in Ping/Window; Valkey/State has GetState on the
--   answers of a server, and State/Kept what the node remembers.
-- - Kinds: which calls each part of a turn makes, for the theorems about whole turns.
-- - Master: internal/app/master.go, with changeMaster, waitForCatchup and promote; Master/Current has
--   getMasterHost, ensureCurrentMaster and getCurrentMaster, and Master/Recorded when these write;
--   Master/Ends has the end of a wait.
-- - Switchover: internal/app/switchover.go, the operations on a switchover's record, with
--   performFailover. performSwitchover is in four files for its phases: Switchover/Freeze (1 and 2),
--   Switchover/Choose (3 and 4), Switchover/Promotion (5) and Switchover/Perform (6 and the whole, with
--   repairMaster of internal/app/repair.go). Switchover/Known has the rules on promotions,
--   Switchover/Mild the parts that do not bear on them, Switchover/Stopped the first phases,
--   Switchover/Ready, Switchover/Prepared and Switchover/Promotes the fifth and Switchover/Safety the
--   whole.
-- - Candidate: internal/app/candidate.go, and in Candidate/Turn what a candidate's turn ends in.
-- - Base: what the parts share: texts and their order, host maps, integers, errors and results.
-- - Tests: runs of the code on a shard of three hosts, and each result at a concrete input.
--
-- How the code's types are rendered:
--
-- - A map from hosts is an association list, in an order that stands for the order in which Go's
--   range visits it: a theorem for all lists holds for every order. A host is a String. A nil pointer
--   is none.
-- - A Time is a number of nanoseconds since the zero time, and a Duration an integer; since is their
--   difference, without the saturation that time.Since has beyond 292 years. An int64 of a server is
--   an integer of Base/Int, and where the code adds or multiplies such numbers the sum or product
--   wraps around at 64 bits.
-- - An error is a value of Error: the DCS errors by name, any other by its text. Log lines are left
--   out. The clock is an argument for each reading of it.
-- - The replies of the servers and of the DCS are arguments, or operations whose documented effect is
--   a named hypothesis: Serves of ActiveNodes/Update/Served (a write that succeeds has set its value,
--   one that fails has set it or left it) and IsHonest of Dcs/Lock/Held.
-- - A program that talks to the servers is a value of Act: calls, with what is done for each reply.
--   Errors that Go wraps keep the constant part of the message. A nil pointer that is dereferenced is
--   crash. A registered host has a node, so that shard.Get finds it.
-- - The bodies of runParallel run one after another; other interleavings of their calls are left out.
-- - Loops over hosts are structural recursions. A loop that sleeps a second until a deadline has a turn
--   for each second of the timeout and two more, which is enough while the clock goes on during a sleep
--   for as long as that; with no turn left it is hang.
--
-- Not modelled: network and file input and output, logging, the setup of TLS and of the profiler, and
-- the libraries for Valkey and ZooKeeper. Of the code's own logic, the run loop, the command line and
-- the values kept in ZooKeeper are not modelled; the programs make calls in the place of getHostState,
-- GetState, updateCache and AcquireLock.
pub mod Actions
pub mod ActiveNodes
pub mod Availability
pub mod Base
pub mod Cache
pub mod Candidate
pub mod Dcs
pub mod Failover
pub mod Kinds
pub mod Lag
pub mod Lost
pub mod Maintenance
pub mod Manager
pub mod Master
pub mod Pill
pub mod Repair
pub mod Replication
pub mod Switchover
pub mod State
pub mod Types
pub mod Valkey
mod Tests
