-- ===== src/Tests/Nodes.antt =====
-- Gossip, resolver, leadership and forwarding at concrete nodes, with their theorems.
use raft_example.Prelude.{
  ℕ, ◌≡◌, refl, true, false, Option, none, some, List, [], ◌∷◌, Bytes, bytes_of, ok, err, same,
  same_iff, arith,
}
use raft_example.Prelude.Map
use raft_example.Prelude.Map.{Map, lookup}
use raft_example.Gossip.{NodeMeta, Gossip, new_gossip, addr_of, get_grpc_addr}
use raft_example.Gossip.Table.{
  Event, join, leave, update, notify_all, last_heard, present, KeyedById, get_grpc_addr-last_heard,
}
use raft_example.Resolver.{AddressResolver, static_resolver, gossip_resolver}
use raft_example.Engine.{LeaderView}
use raft_example.Engine.Leadership.{
  Leadership, Step, notified, joined, barrier, stopped, polled, elapsed, caught_up, failed, run,
  started, stopping, idle, exited, established,
}
use raft_example.Engine.Leadership.Ready.{IsValid, run-IsValid}
use raft_example.Engine.Leadership.Ends.{run_ends}
use raft_example.Service.Connections.{
  ConnPool, ConnState, ready, transient_failure, get_or_create_conn,
}
use raft_example.Service.Connections.Valid
use raft_example.Service.Connections.Valid.{get_or_create_conn-IsValid}
use raft_example.Service.{unknown_leader, dial_failed, Methods, Network, add, find_method}
use raft_example.Service.Replies.{add_unresolved}

abbrev node : Bytes → Bytes → Bytes → NodeMeta
node id raft grpc = record { node_id = id; raft_addr = raft; grpc_addr = grpc }

-- Metadata of one letter: the node's id, with the addresses "r" and "g" behind it.
abbrev unmarshal : Bytes → Option NodeMeta
unmarshal [] = none
unmarshal (c ∷ b) = some (node (c ∷ []) (c ∷ bytes_of "r") (c ∷ bytes_of "g"))

abbrev local_a : NodeMeta
local_a = node (bytes_of "A") (bytes_of "Ar") (bytes_of "Ag")

abbrev events : List Event
events = join (bytes_of "B") ∷ join (bytes_of "C") ∷ leave (bytes_of "B") ∷ update [] ∷ []

get_grpc_addr-last_heard_example :
    get_grpc_addr (bytes_of "C") (notify_all unmarshal events (new_gossip local_a))
    ≡ addr_of (
        last_heard unmarshal events
          (bytes_of "C")
          (present unmarshal (some local_a) (bytes_of "C") none))
get_grpc_addr-last_heard_example = get_grpc_addr-last_heard unmarshal events (bytes_of "C") local_a

local_keyed : KeyedById unmarshal (new_gossip local_a)
unfolding new_gossip lookup Map.insert
local_keyed id meta e = ground (arith, same_iff (bytes_of "A") id)

abbrev node_c : NodeMeta
node_c = node (bytes_of "C") (bytes_of "Cr") (bytes_of "Cg")

abbrev table : AddressResolver
table = static_resolver ((bytes_of "Br", bytes_of "Bg") ∷ [])

-- The leadership is acquired, the first barrier fails, and the second does not.
abbrev steps : List Step
steps =
    notified true
    ∷ barrier failed false []
    ∷ elapsed
    ∷ barrier caught_up false []
    ∷ notified false
    ∷ []

run-IsValid_example : IsValid (run steps started)
run-IsValid_example = run-IsValid steps started (refl, refl)

abbrev lost : Leadership
lost = record {
  ready_for_consistent_reads = 1;
  loop = established;
  stop_closed = true;
  monitor = stopping;
}

run_ends_example :
    ((run (barrier failed false [] ∷ polled ∷ stopped ∷ joined ∷ []) lost).monitor ≡ idle)
    × ((run (barrier failed false [] ∷ polled ∷ stopped ∷ joined ∷ []) lost).loop ≡ exited)
    × ((run
          (barrier failed false [] ∷ polled ∷ stopped ∷ joined ∷ [])
          lost).ready_for_consistent_reads
        ≡ 0)
run_ends_example = run_ends failed false [] lost (refl, refl) refl

abbrev one_conn : ConnPool
one_conn = record { conn_cache = (bytes_of "Bg", 0) ∷ []; next = 1; closed = [] }

one_conn-IsValid : Valid.IsValid one_conn
unfolding lookup
one_conn-IsValid = (
  λ a c e.
      let there : (same (bytes_of "Bg") a ≡ true) × (c ≡ 0) = ground arith in
      (
        ground arith,
        refl,
        λ b k. ground (arith, same_iff (bytes_of "Bg") a, same_iff (bytes_of "Bg") b, same_iff a b),
      ),
  tt,
)

abbrev broken : ℕ → ConnState
broken c = transient_failure

get_or_create_conn-IsValid_example :
    Valid.IsValid
      (get_or_create_conn dial_failed broken broken true (bytes_of "Bg") one_conn one_conn).1
    × ((c : ℕ)
        → (get_or_create_conn dial_failed broken broken true (bytes_of "Bg") one_conn one_conn).0
          ≡ ok c
        → lookup
            (bytes_of "Bg")
            (get_or_create_conn dial_failed broken broken true
              (bytes_of "Bg")
              one_conn
              one_conn).1.conn_cache
          ≡ some c)
get_or_create_conn-IsValid_example =
    get_or_create_conn-IsValid dial_failed broken broken true (bytes_of "Bg") one_conn one_conn
      one_conn-IsValid one_conn-IsValid

abbrev methods : Methods
methods = record { by_name = λ m. some m; to_camel = λ m. m }

abbrev view : LeaderView
view = record { is_leader = false; leader_addr = bytes_of "Br" }

abbrev network : {R : Type 0} → R → Network R
network resp = record {
  seen = λ c. ready;
  state = λ c. ready;
  dials = true;
  relocked = one_conn;
  invoke = λ c m. some resp;
}

-- B leads, and A knows it by the gossip.
abbrev heard_of : Gossip
heard_of = record {
  local_meta = local_a;
  nodes = (bytes_of "B", node (bytes_of "B") (bytes_of "Br") (bytes_of "Bg")) ∷ [];
}

add_unresolved_example :
    add (network 5) methods (bytes_of "Add") (gossip_resolver heard_of) view (ok 3) one_conn
    ≡ (err (unknown_leader (bytes_of "Br")), one_conn)
unfolding find_method lookup
add_unresolved_example =
    add_unresolved (network 5) methods (bytes_of "Add") (bytes_of "Add") heard_of view (ok 3)
      one_conn refl refl (λ e. cc) (λ id meta e. ground (arith, same_iff (bytes_of "B") id))
      (λ id meta e. ground arith)
