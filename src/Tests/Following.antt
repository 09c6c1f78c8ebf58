-- ===== src/Tests/Following.antt =====
-- A client of a node that follows, at concrete components.
use raft_example.Prelude.{
  ℕ, ◌≡◌, refl, true, false, none, some, [], ◌∷◌, Bytes, bytes_of, Result, ok,
}
use raft_example.Prelude.Map
use raft_example.Prelude.Map.{Map, lookup}
use raft_example.Fsm.Command.{CommandResponse, apply_command, insert, query}
use raft_example.Fsm.Store.{build_column_family_key, get_bytes}
use raft_example.Fsm.Machine
use raft_example.Fsm.Machine.{StateMachine, read_local}
use raft_example.Resolver.{AddressResolver, static_resolver, resolve}
use raft_example.Engine
use raft_example.Engine.{EngineError, LeaderView, RaftServer, get_leader}
use raft_example.Service.{Network, add_reply, Methods, find_method, forward_request_to_leader}
use raft_example.Service
use raft_example.Service.Connections.{ConnPool, ready, get_or_create_conn}
use raft_example.Client.Demo.Answers.{written}
use raft_example.Client.Demo.Node.{node_value, node_add, node_get}
use raft_example.Client.Demo.Follower.{serve, follower_add, follower_get, Wrote, nothing, wrote}
use raft_example.Client.Demo.Follower.Reads.{follower_get-written, follower_completes}
use raft_example.Tests.Memory.{
  memory, memory-PebbleIsLawful, memory-IsReliable, tagged, tagged-JsonIsLawful,
}
use raft_example.Tests.Store.{machine}

abbrev methods : Methods
methods = record { by_name = λ m. some m; to_camel = λ m. m }

abbrev table : AddressResolver
table = static_resolver ((bytes_of "Br", bytes_of "Bg") ∷ [])

abbrev view : LeaderView
view = record { is_leader = false; leader_addr = bytes_of "Br" }

abbrev pool : ConnPool
pool = record { conn_cache = (bytes_of "Bg", 0) ∷ []; next = 1; closed = [] }

abbrev network : {R : Type 0} → Network R
network = record {
  seen = λ c. ready;
  state = λ c. ready;
  dials = true;
  relocked = pool;
  invoke = λ c m. none;
}

abbrev server : Bytes → RaftServer
server id = record {
  raft_id = id;
  raft_addr = id;
  db_applied_index = 7;
  ready_for_consistent_reads = 1;
}

abbrev leader : StateMachine memory × RaftServer
leader = (machine 7 [], server (bytes_of "B"))

abbrev after_add : StateMachine memory × RaftServer
after_add = (node_add memory tagged (bytes_of "k") (bytes_of "w") leader).1

abbrev here : Result EngineError ℕ
here = ok 3

adds-Wrote :
    Wrote memory tagged 0 [] methods table view leader ((bytes_of "k", bytes_of "w") ∷ []) after_add
unfolding follower_add serve Service.add forward_request_to_leader find_method get_leader resolve
    lookup get_or_create_conn node_add Machine.apply apply_command insert Engine.apply
    Engine.insert_command Engine.on_response add_reply
adds-Wrote =
    wrote network here (bytes_of "k") (bytes_of "w") (bytes_of "Add") pool 8 refl refl nothing

abbrev nothing_here : CommandResponse
nothing_here = record { val = []; error = none }

follower_get-written_example :
    (bytes_of "w"
      ≡ written (node_value memory leader) ((bytes_of "k", bytes_of "w") ∷ []) (bytes_of "k"))
    × ((node_get memory tagged 0 [] (bytes_of "k") true after_add).0 ≡ some (bytes_of "w", 8))
unfolding follower_get serve Service.get forward_request_to_leader find_method get_leader resolve
    lookup get_or_create_conn node_add node_get Machine.apply apply_command insert Map.insert
    Engine.apply Engine.insert_command Engine.query Engine.consistent_read Engine.local_read
    Engine.read_result Engine.on_consistent read_local query build_column_family_key get_bytes
follower_get-written_example =
    follower_get-written memory tagged memory-PebbleIsLawful memory-IsReliable tagged-JsonIsLawful 0
      [] methods table view leader after_add ((bytes_of "k", bytes_of "w") ∷ []) network
      (bytes_of "not the leader") nothing_here (server (bytes_of "A")) (bytes_of "k") pool 8
      (bytes_of "w") refl adds-Wrote refl

follower_completes_example :
    (follower_add memory tagged 0 [] methods table view network here
        (bytes_of "k")
        (bytes_of "w")
        leader
        pool
      ≡ ok 8)
    × (follower_get memory tagged 0 [] methods table view network
          (bytes_of "not the leader")
          nothing_here
          (server (bytes_of "A"))
          (bytes_of "k")
          leader
          pool
        ≡ ok (7, []))
unfolding find_method resolve lookup get_or_create_conn node_add node_get Machine.apply
    apply_command insert Map.insert Engine.apply Engine.insert_command Engine.on_response add_reply
    Engine.query Engine.consistent_read Engine.local_read Engine.read_result Engine.on_consistent
    read_local query build_column_family_key get_bytes
follower_completes_example =
    follower_completes memory tagged 0 [] methods table view (bytes_of "Bg") 0 network network here
      (bytes_of "k") (bytes_of "w") (bytes_of "not the leader") [] nothing_here
      (server (bytes_of "A")) leader pool 8 7 refl (λ e. cc) refl refl refl refl refl refl refl
