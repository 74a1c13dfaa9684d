-- ===== src/Lib.antt =====
-- Capper: containers, networks, volumes and access control on a cluster of nodes. This library models
-- the decisions of its control plane and what they promise each other.
--
-- Access: internal/authz/authz.go and internal/iam/eval.go. Access/Glob is matchGlob, matchesAny and
--   resourceMatchesAny; Access/Pipeline is Evaluator.Evaluate with its records; Access/Crn is BuildCRN
--   and ParseCRN; Access/Grants is Store.Evaluate of the IAM store with matchPattern and matchResource.
--   Texts that the code looks into are lists of bytes. The IAM queries are a record of functions.
-- Csd: the shared disk. Csd/Lease is internal/csd/server/lease_manager.go over the rows of
--   internal/csd/store/leases.go, one function for each call, which takes and returns the table and is
--   told which statements fail; `run` is any sequence of calls. Csd/Fence is the FencingToken of
--   internal/csd/replication/transport.go, a 64-bit counter with its wrap-around. Csd/Election is the
--   tick, the election and the promotion of internal/csd/replication/election.go on one node, over the
--   rows of internal/csd/store/replicas.go; whether a higher peer answers in time is an input.
--   Csd/Protocol is the frames of internal/csd/protocol/codec.go on a stream of bytes. Csd/Extents has the
--   rows of internal/csd/store and the objects of the backend, and Csd/Extents/Wrapped is Write and Read of
--   internal/csd/server/extent_manager.go on them: its offsets and sizes are the bit patterns of int64,
--   whose sums wrap, and a slice out of range panics; the loop over the chunks has the number of bytes as
--   fuel, since each takes at least one. The Write and Read of Csd/Extents itself are a reference on
--   numbers without bound, which Csd/Extents/Wrapped/Plain and Read compare with them. The printed key of
--   an object is a parameter.
--   Csd/Metadata is the tables of inodes and of journal entries, Csd/Metadata/Manager the calls of
--   metadata_manager.go on them, Csd/Metadata/Replay what a restart does with the journal, and
--   Csd/Metadata/Served the messages of internal/csd/protocol/quic.go that lead to these calls. A call
--   that is cut off is one of whose statements all the later ones fail. How JSON reads a number back is
--   a parameter. Csd/Metadata/Directory is the abstract directory that the calls implement.
-- Topology: internal/topology/scheduler.go. Topology/Filter, Topology/Score and Topology/Simulate are
--   the methods of the Scheduler, over a record of the store's queries. `int` arithmetic wraps at 64
--   bits, and the ranking is the code's insertion sort, which Prelude/Sort keeps from the back.
-- Autoscale: internal/autoscale. Autoscale/Evaluators is target.go and queue.go of the evaluator package,
--   Autoscale/Cron its schedule.go, Autoscale/Reconcile the evaluation of a policy in reconciler.go with
--   its cooldown. float64, the calendar, the metric queries and the JSON decoder are parameters. The
--   search for the last minute goes back the 10,080 minutes of the code.
-- Network: internal/network/ipam.go over the lease table of internal/network/store.go. Addresses are
--   numbers below 2 ^ 32; how Go's net package reads and prints them is a record of functions with two
--   laws. The walk of AllocateIP has no bound in the code: its fuel is the last address and two more,
--   which is more than there are candidates. Network/Mac is RandomMAC.
-- Vpc: internal/vpc/cidr.go, and AllocateSubnetIP of internal/vpc/eni_store.go, which looks at 65,536
--   addresses as the code does.
-- Eventing: the message queues of internal/eventing/queues.go, one function for each call on the tables of
--   queues and messages, told the clock, the failing statements and the ids of new messages. The clock counts nanoseconds
--   since the year 1, and the stored texts are its whole seconds, which sort like them up to the year
--   9999; a timeout's product wraps to an int64. How strings.TrimSpace cuts a text is a parameter.
-- Ipam: the pools of routable addresses, internal/ipam. Ipam/Tables is the statements of store.go on four
--   tables, each told whether it fails; Ipam/Manager is Reserve, Release, Attach, Detach, AddExclusion and
--   RemoveExclusion of manager.go, written as chains of these statements, and Ipam/Create its
--   CreatePool and DeletePool of store.go; Ipam/Calls is any sequence of them. Ipam/Triple has the
--   rules by which an invariant goes through such a chain. Ipam/Expand is cidr.go; net/netip is a record
--   of functions, and the loop's fuel is the size of the block and one.
-- Supervisor: internal/supervisor/supervisor.go over the rows of internal/store/instances.go. A tick takes
--   and returns the table and the session's counts; what a tick finds (clock, live processes, failing
--   statements, quotas) is a record. The checks of internal/manager/instance_manager.go before a start
--   are modelled, what it starts behind them is part of that record. `run` is any sequence of ticks.
-- Mover: internal/vpcmover. Mover is the tables of plans, jobs, steps and locks with the statements of
--   store.go; Mover/Planner is planner.go; Mover/Executor is executor.go, the handlers of steps.go and
--   the calls of operations.go, with a job that runs in the background run at once. Mover/Calls is any
--   sequence of calls. The faults of a run are numbered by step and try; times are left out, and the
--   message of a failed job is the name of its step.
-- Prelude: what the others share: numbers, bytes, Go's int64, lists, sorting, and calls that take a state
--   and end in a value or an error.
--
-- The autoscaler's reconciler runs the evaluators; Network and Vpc share the addresses and the gateway of
-- a subnet; the IAM evaluation and the pipeline stand side by side, each with its own pattern language.
-- The modules named Examples try the theorems at concrete inputs; Network/Sample is a notation for
-- addresses for that.
--
-- Not modelled: messages between the electing nodes, the snapshots and the rebalancing of the shared
-- disk; the event bus, quotas, the firewall, the load balancer, stacks; the rows of VPCs
-- that a move copies; SQL, HTTP, the command line, and what the container runtime asks of Linux; IPv6,
-- which the VPC code refuses and the network code does not treat apart.
pub mod Prelude
pub mod Access
pub mod Csd
pub mod Topology
pub mod Autoscale
pub mod Network
pub mod Vpc
pub mod Eventing
pub mod Ipam
pub mod Supervisor
pub mod Mover
