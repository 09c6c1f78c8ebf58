-- ===== src/Assembly.antt =====
-- engine/engine.go, with newRaft and close of engine/raft.go: how a node is put together from its
-- parts, and taken down.
pub mod Opening
pub mod Failing
use raft_example.Prelude.{
  ℕ, ◌≡◌, Bool, true, false, Option, none, some, List, [], ◌∷◌, Bytes, Result, ok, err,
  if◌then◌else◌, ◌==◌,
}
use raft_example.Prelude.Map.{Map}
use raft_example.Gossip.{NodeMeta, Gossip, new_gossip}
use raft_example.Gossip.Address.{AddressError, ℤ, parse_host_port, split_host_port}
use raft_example.Resolver.{AddressResolver, gossip_resolver, new_static_resolver}
use raft_example.Service.{new_grpc_service, new_grpc_service_with_resolver}
use raft_example.Service.Connections.{ConnPool, close_all_conns}

-- What is open or running in the process.
pub data Resource : Type 0 where
  state_machine : Resource
  raft_db : Resource
  transport : Resource
  raft_node : Resource
  observe_loop : Resource
  monitor_loop : Resource
  memberlist : Resource
  join_loop : Resource
  grpc_server : Resource
  listener : Resource
  serve_loop : Resource

pub data SetupError : Type 0 where
  state_machine_failed : SetupError
  raft_db_failed : SetupError
  snapshot_store_failed : SetupError
  address_unresolved : SetupError
  transport_failed : SetupError
  raft_failed : SetupError
  bootstrap_failed : SetupError
  gossip_address_invalid : AddressError → SetupError
  memberlist_failed : SetupError
  grpc_address_invalid : AddressError → SetupError
  listen_failed : SetupError

-- Whether each call of a library goes through.
pub record Calls : Type 0 where
  pub new_state_machine : Bool
  pub new_pebble_store : Bool
  pub new_file_snapshot_store : Bool
  pub resolve_tcp_addr : Bool
  pub new_tcp_transport : Bool
  pub new_raft_node : Bool
  pub bootstrap_cluster : Bool
  pub create_memberlist : Bool
  pub listen : Bool

-- `raft_dir` is where the data directories of the node stand.
pub record EngineConfig : Type 0 where
  pub raft_dir : Bytes
  pub node_id : Bytes
  pub raft_addr : Bytes
  pub grpc_addr : Bytes
  pub raft_bootstrap : Bool
  pub gossip_enabled : Bool
  pub gossip_addr : Bytes
  pub gossip_seeds : List Bytes
  pub static_lookup : Map Bytes

-- `resolver` is the engine's, and `service_resolver` the one that the registered service uses.
pub record Engine : Type 0 where
  pub gossip : Option Gossip
  pub resolver : AddressResolver
  pub service_resolver : AddressResolver
  pub shutdown : Bool

-- A setup works on what is open, the last first.
abbrev pub Setup : Type 0 → Type 0
Setup A = List Resource → Result SetupError A × List Resource

abbrev pub go_on : {A B : Type 0} → Result SetupError A → (A → Setup B) → Setup B
go_on (err e) f w = (err e, w)
go_on (ok a) f w = f a w

infixl 5 ◌>>=◌ ◌>>◌
abbrev pub ◌>>=◌ : {A B : Type 0} → Setup A → (A → Setup B) → Setup B
◌>>=◌ m f w = let (r, w') = m w in go_on r f w'

abbrev pub ◌>>◌ : {A B : Type 0} → Setup A → Setup B → Setup B
m >> n = m >>= λ _. n

abbrev pub pure : {A : Type 0} → A → Setup A
pure a w = (ok a, w)

abbrev pub throw : {A : Type 0} → SetupError → Setup A
throw e w = (err e, w)

abbrev pub opens : Resource → Setup Unit
opens r w = (ok tt, r ∷ w)

abbrev pub needs : Bool → SetupError → Setup Unit
needs goes_through e = if goes_through then pure tt else throw e

abbrev pub lift_address :
    {A : Type 0} → (AddressError → SetupError) → Result AddressError A → Setup A
lift_address wrap (ok a) = pure a
lift_address wrap (err e) = throw (wrap e)

module _ (c : Calls) where
  bootstrap : Bool → Setup Unit
  bootstrap raft_bootstrap =
      if raft_bootstrap then needs c.bootstrap_cluster bootstrap_failed else pure tt

  -- The index of the state machine is raised to raft's; see `update_fsm_index`.
  unfoldable pub new_raft : Bool → Setup Unit
  unfolding bootstrap
  new_raft raft_bootstrap = do
    needs c.new_pebble_store raft_db_failed
    opens raft_db
    needs c.new_file_snapshot_store snapshot_store_failed
    needs c.resolve_tcp_addr address_unresolved
    needs c.new_tcp_transport transport_failed
    opens transport
    needs c.new_raft_node raft_failed
    opens raft_node
    opens observe_loop
    bootstrap raft_bootstrap
    opens monitor_loop

  join_seeds : List Bytes → Setup Unit
  join_seeds [] = pure tt
  join_seeds (seed ∷ seeds) = opens join_loop

  -- `gossip.New`, behind the check of its address.
  unfoldable pub setup_gossip : EngineConfig → Setup Gossip
  unfolding join_seeds
  setup_gossip cfg = do
    (host, port) ← lift_address gossip_address_invalid (parse_host_port cfg.gossip_addr)
    needs c.create_memberlist memberlist_failed
    opens memberlist
    join_seeds cfg.gossip_seeds
    pure (
        new_gossip
          (record { node_id = cfg.node_id; raft_addr = cfg.raft_addr; grpc_addr = cfg.grpc_addr }))

  -- The engine's gossip and resolver, and the service's resolver.
  unfoldable pub setup_resolvers : EngineConfig → Setup Engine
  unfolding setup_gossip
  setup_resolvers cfg =
      if cfg.gossip_enabled
      then (setup_gossip cfg >>= λ g. pure (record {
        gossip = some g;
        resolver = gossip_resolver g;
        service_resolver = (new_grpc_service_with_resolver (gossip_resolver g)).resolver;
        shutdown = false;
      }))
      else pure (record {
        gossip = none;
        resolver = new_static_resolver [];
        service_resolver = (new_grpc_service cfg.static_lookup).resolver;
        shutdown = false;
      })

  unfoldable pub new_engine_with_config : EngineConfig → Setup Engine
  unfolding new_raft setup_resolvers
  new_engine_with_config cfg = do
    needs c.new_state_machine state_machine_failed
    opens state_machine
    new_raft cfg.raft_bootstrap
    e ← setup_resolvers cfg
    opens grpc_server
    (host, port) ← lift_address grpc_address_invalid (split_host_port cfg.grpc_addr)
    needs c.listen listen_failed
    opens listener
    opens serve_loop
    pure e

code : Resource → ℕ
code state_machine = 0
code raft_db = 1
code transport = 2
code raft_node = 3
code observe_loop = 4
code monitor_loop = 5
code memberlist = 6
code join_loop = 7
code grpc_server = 8
code listener = 9
code serve_loop = 10

unfoldable pub end_one : Resource → List Resource → List Resource
unfolding code
end_one r [] = []
end_one r (q ∷ w) = let rest = end_one r w in if code q == code r then rest else q ∷ rest

abbrev end_all : List Resource → List Resource → List Resource
end_all [] w = w
end_all (r ∷ rs) w = end_all rs (end_one r w)

-- The signal to the two loops, `raft.Shutdown`, and the transport and the log's database.
unfoldable pub close_raft : List Resource → List Resource
unfolding end_one
close_raft w = end_all (observe_loop ∷ monitor_loop ∷ raft_node ∷ transport ∷ raft_db ∷ []) w

-- Leave, whose error is logged, and Shutdown.
unfoldable pub leave_gossip : Option Gossip → List Resource → List Resource
unfolding end_one
leave_gossip none w = w
leave_gossip (some g) w = end_one memberlist w

-- The server stops by itself or is stopped when the time is over; either ends the goroutine that
-- serves. `sync.Once` lets the body run once.
unfoldable pub close : Engine → ConnPool → List Resource → Engine × ConnPool × List Resource
unfolding close_raft leave_gossip close_all_conns
close e pool w = if e.shutdown then (e, pool, w) else (
  record e { shutdown = true },
  close_all_conns pool,
  end_one state_machine
      (close_raft (leave_gossip e.gossip (end_all (grpc_server ∷ serve_loop ∷ listener ∷ []) w))),
)
