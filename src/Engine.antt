-- ===== src/Engine.antt =====
-- engine/kv.go and engine/linearizable.go: reads and writes of the replicated store, and the reads
-- that first make sure of the leadership.
pub mod Leadership
pub mod Nodes
pub mod Writes
pub mod Reads
pub mod Stats
use raft_example.Prelude.{
  ℕ, ◌-◌, ◌*◌, ◌/◌, Bool, true, false, Option, none, some, List, [], ◌∷◌, Bytes, Result, ok, err,
  leb, ◌==◌, length, if◌then◌else◌, same,
}
use raft_example.Fsm.Platform.{Pebble}
use raft_example.Fsm.Errors.{StoreError}
use raft_example.Fsm.Command.{Json, CommandResponse, insert_type}
use raft_example.Fsm.Machine.{StateMachine, read_local}

-- Raft's own errors are kept as their text.
pub data EngineError : Type 0 where
  apply_failed : Bytes → Bytes → EngineError
  store_failed : StoreError → EngineError
  no_leader : EngineError
  verify_failed : Bytes → EngineError
  not_ready : EngineError
  shutting_down : EngineError
  read_failed : Bytes → EngineError → EngineError

-- raftServer, without raft itself, its transport and its stores.
pub record RaftServer : Type 0 where
  pub raft_id : Bytes
  pub raft_addr : Bytes
  pub db_applied_index : ℕ
  pub ready_for_consistent_reads : ℕ

-- What raft knows of the leader: whether it is this node, and the leader's address or "".
pub record LeaderView : Type 0 where
  pub is_leader : Bool
  pub leader_addr : Bytes

unfoldable pub get_leader : LeaderView → Bool × Bytes × Option EngineError
get_leader v =
    if v.is_leader
    then (true, [], none)
    else if length v.leader_addr == 0
    then (false, [], some no_leader)
    else (false, v.leader_addr, none)

-- Times are in nanoseconds. A context with no deadline has the deadline 0.
unfoldable pub ctx_timeout : ℕ → ℕ → ℕ
ctx_timeout deadline now = deadline - now

abbrev pub raft_apply_timeout : ℕ
raft_apply_timeout = 3000000000

unfoldable pub apply_timeout : ℕ → ℕ → ℕ
unfolding ctx_timeout
apply_timeout deadline now =
    let timeout = ctx_timeout deadline now in
    if leb timeout raft_apply_timeout then raft_apply_timeout else timeout

unfoldable pub insert_command : Json → Bytes → Bytes → Bytes
insert_command J key val =
    J.marshal_command (record {
      kind = insert_type;
      payload = J.marshal_payload (record { key = key; value = val });
    })

unfoldable pub on_response : ℕ → Option StoreError → Result EngineError ℕ
on_response index none = ok index
on_response index (some e) = err (store_failed e)

-- Apply, by what raft answers for the command: an error, or the index and what the state machine
-- returned.
unfoldable pub apply :
    Result Bytes (ℕ × CommandResponse) → RaftServer → Result EngineError ℕ × RaftServer
unfolding on_response
apply (err e) s = (err (apply_failed s.raft_addr e), s)
apply (ok (index, res)) s = (on_response index res.error, record s { db_applied_index = index })

-- What ends a turn of the select in consistentReadWithContext: the ticker, with the flag at that
-- time, the deadline, or the channel of the shutdown.
pub data Poll : Type 0 where
  tick : ℕ → Poll
  deadline : Poll
  shutdown : Poll

-- No result while the polls have not ended the loop.
unfoldable pub poll : List Poll → Option (Result EngineError Unit)
poll [] = none
poll (tick flag ∷ ps) = let rest = poll ps in if flag == 1 then some (ok tt) else rest
poll (deadline ∷ ps) = some (err not_ready)
poll (shutdown ∷ ps) = some (err shutting_down)

-- `left` is the time until the context's deadline.
unfoldable pub consistent_read :
    Option Bytes → ℕ → List Poll → RaftServer → Option (Result EngineError Unit)
unfolding poll
consistent_read (some e) left polls s = some (err (verify_failed e))
consistent_read none left polls s =
    if s.ready_for_consistent_reads == 1
    then some (ok tt)
    else if left / 16 == 0
    then some (err not_ready)
    else poll polls

unfoldable pub read_result : ℕ → Bytes → Option StoreError → Result EngineError (ℕ × Bytes)
read_result applied val none = ok (applied, val)
read_result applied val (some e) = err (store_failed e)

-- The local read, and the index that raft has applied when the read is over.
unfoldable pub local_read : ℕ → CommandResponse → Result EngineError (ℕ × Bytes)
unfolding read_result
local_read applied res = read_result applied res.val res.error

unfoldable pub on_consistent :
    Option (Result EngineError Unit)
    → ℕ
    → CommandResponse
    → RaftServer
    → Option (Result EngineError (ℕ × Bytes))
unfolding local_read
on_consistent none applied res s = none
on_consistent (some (err e)) applied res s = some (err (read_failed s.raft_addr e))
on_consistent (some (ok u)) applied res s = some (local_read applied res)

-- Query, by what raft and the clock answer to ConsistentRead, what the state machine answers to
-- ReadLocal, and the index that raft has applied behind it.
unfoldable pub query :
    Bool
    → Option Bytes
    → ℕ
    → List Poll
    → ℕ
    → CommandResponse
    → RaftServer
    → Option (Result EngineError (ℕ × Bytes))
unfolding on_consistent local_read consistent_read
query consistent verify left polls applied res s =
    if consistent
    then on_consistent (consistent_read verify left polls s) applied res s
    else some (local_read applied res)

-- A server of raft's configuration.
pub record Server : Type 0 where
  pub id : Bytes
  pub address : Bytes
  pub voter : Bool

unfoldable pub find_voter : Bytes → List Server → Bool
find_voter id [] = false
find_voter id (srv ∷ servers) =
    let rest = find_voter id servers in if same srv.id id then srv.voter else rest

unfoldable pub is_voter : Result Bytes (List Server) → RaftServer → Result Bytes Bool
unfolding find_voter
is_voter (err e) s = err e
is_voter (ok servers) s = ok (find_voter s.raft_id servers)
