-- ===== src/Lib.antt =====
-- raft-example: a key-value store on Pebble that HashiCorp's raft replicates, served over gRPC.
--
-- The program's parts, and the files that model them:
--
-- * The package fsm is the replicated state machine. fsm/apply.go decodes the commands of the log and
--   runs them on the store (Fsm/Command); fsm/fsm.go is the raft.FSM with Apply, Snapshot, Persist and
--   Restore (Fsm/Machine). fsm/store.go keeps the database: its reads and writes, newStore, and
--   recoverSnapShot from the header to the swap (Fsm/Store), the snapshot header (Fsm/Header),
--   saveSnapShot (Fsm/Save), and the loop of recoverSnapShot that reads the records (Fsm/Restore) with
--   the write batch of fsm/wb.go (Fsm/Batch). fsm/utils.go keeps the data directory, in which the file
--   pebble.running names the folder of the database (Fsm/DataDir, over the calls of os in Fsm/Disk).
--   Fsm/RoundTrip reads a saved snapshot back. Fsm/Store/Crash follows recoverSnapShot to a crash anywhere
--   in it, Fsm/DataDir/Opening the start behind it, and Fsm/Machine/Replicas the machines of a cluster.
-- * gossip/gossip.go keeps a table of nodes from memberlist's events (Gossip), and resolver/resolver.go
--   finds the gRPC address of a node in a table of its own or in the gossip's (Resolver). ParseHostPort
--   is in Gossip/Address, and the joining of the seeds in Gossip/Joining.
-- * service/blocking_query.go waits for the index of the state to reach a minimum and follows a key in a
--   loop; service/service.go has the same loop over a stream (Watch). Watch/Abandoning puts the wait
--   beside the state machine whose Restore ends it.
-- * engine/kv.go and engine/linearizable.go write through raft and read the state machine, after
--   ConsistentRead where the read is consistent (Engine); engine/raft.go starts and ends leaderLoop as
--   the leadership comes and goes, and sets the flag that consistent reads wait for
--   (Engine/Leadership); Engine/Leadership/Serving puts a read beside these steps. Nodes lists the
--   servers in the order of their ids (Engine/Nodes). Stats gathers what raft, the state machine and
--   the directories report (Engine/Stats, and Fsm/Sizes with DirSize of fsm/utils.go).
-- * service/service.go answers Add and Get, or forwards them to the leader over a cached connection
--   (Service, Service/Connections); the messages of proto/service.proto that it makes for the replies
--   are in Service/Messages. WatchKeyBlocking is in Service/Blocking, and Stat in Service/Stats.
-- * engine/engine.go puts the parts together and takes them down, with newRaft and close of
--   engine/raft.go (Assembly); app.go makes the configuration from the flags (Program).
-- * cmd/cmd.go is a client: Client has its random ids, Client/Demo writes and reads five keys, over any
--   cluster and over a node that leads (Client/Demo/Node); Client/Demo/Follower sends requests to a node
--   that forwards them. Client/Following has the demonstration of a watch.
--
-- How they meet: Service asks Engine for the leader and Resolver for its address; Engine hands commands
-- to raft, which calls Fsm/Machine's Apply on every node; Watch reads through Engine's Query and waits
-- on the channel that Fsm/Machine's Restore replaces. A state is a record and an operation a function
-- that returns the new one; the calls of the file system are a state monad over Disk whose run ends by
-- a result, an error, a panic or a crash; goroutines are steps in any order.
--
-- Parameters, with what they are relied on for (Fsm/Platform, Fsm/Command): the Pebble database, where
-- a read answers by the committed operations and an iterator passes each key once (PebbleIsLawful),
-- and, where a result says so, every commit succeeds (IsReliable) and no read fails (IsReadable);
-- compress/gzip and crc32 (CodecIsLawful); encoding/json at the types of the log (JsonIsLawful); md5,
-- the random folder name and the clock. What raft, memberlist and the network answer is an argument of
-- the operation that asks. Numbers of a fixed width are natural numbers with the wrap-around written
-- out; bytes are natural numbers.
--
-- Fuel: load_snapshot of recoverSnapShot's loop gives one round for each byte of the reader and one more,
-- and each round that goes on takes at least eight bytes. random_bytes_mod takes the number of draws as
-- fuel, since the source of random bytes may give none that can be taken. `max_alloc` is the largest
-- slice that Go's runtime can make; a larger one panics.
-- walk of Fsm/Sizes takes as fuel how much longer than the directory's a path below it is.
--
-- Not modelled: the options of raft and of the gRPC server; observe, which logs what raft's observer
-- reports until the shutdown; the log output; createNodeDataDir and existFilePath, which nothing calls;
-- the choice of a demonstration in main of cmd; the benchmark and the generated code of proto.
-- Durations in the metrics are left out. An open database's own files are outside: a folder stands for
-- them. On the disk a crash loses nothing that was written before it, synced or not; a call that it
-- stops has done nothing, or a part of it where it is a write or a removal.
pub mod Prelude
pub mod Fsm
pub mod Gossip
pub mod Resolver
pub mod Watch
pub mod Engine
pub mod Service
pub mod Assembly
pub mod Program
pub mod Client
pub mod Tests
