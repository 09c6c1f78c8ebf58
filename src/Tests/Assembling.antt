-- ===== src/Tests/Assembling.antt =====
-- A node that is put together from its flags, and taken down.
use raft_example.Prelude.{
  Bytes, ℕ, ◌≡◌, ◌⊎◌, refl, true, false, some, List, [], ◌∷◌, bytes_of, Result, ok,
}
use raft_example.Gossip.{new_gossip}
use raft_example.Gossip.Address.{
  pos, has, atoi, parse_host_port, join_host_port, IsPart, parse_host_port-join,
}
use raft_example.Resolver.{gossip_resolver}
use raft_example.Service.Connections.{ConnPool}
use raft_example.Assembly.{
  Resource, Calls, EngineConfig, Engine, SetupError, listen_failed, state_machine_failed,
  state_machine, new_engine_with_config, close,
}
use raft_example.Prelude.Map.{lookup}
use raft_example.Service.Connections.Valid.{contains}
use raft_example.Assembly.Opening.{left_open, new_engine-close}
use raft_example.Assembly.Failing.{IsOpen, new_engine_leaks}
use raft_example.Program.{CommandLine, engine_config}

abbrev flags : CommandLine
flags = record {
  raft_addr = bytes_of "localhost:50051";
  grpc_addr = bytes_of "localhost:40051";
  raft_id = bytes_of "A";
  raft_dir = bytes_of "/tmp";
  raft_bootstrap = true;
  gossip_addr = bytes_of "0.0.0.0:7946";
  gossip_seeds = bytes_of "b:7946,c:7946";
}

abbrev cfg : EngineConfig
cfg = engine_config flags

host-IsPart : IsPart (bytes_of "::1")
unfolding has
host-IsPart = record { no_opening = refl; no_closing = refl }

port-IsPart : IsPart (bytes_of "7946")
unfolding has
port-IsPart = record { no_opening = refl; no_closing = refl }

parse_host_port-join_example :
    parse_host_port (join_host_port (bytes_of "::1") (bytes_of "7946"))
    ≡ ok (bytes_of "::1", pos 7946)
unfolding has atoi
parse_host_port-join_example =
    parse_host_port-join (bytes_of "::1") (bytes_of "7946") (pos 7946) host-IsPart port-IsPart refl
      refl

abbrev all_through : Calls
all_through = record {
  new_state_machine = true;
  new_pebble_store = true;
  new_file_snapshot_store = true;
  resolve_tcp_addr = true;
  new_tcp_transport = true;
  new_raft_node = true;
  bootstrap_cluster = true;
  create_memberlist = true;
  listen = true;
}

abbrev started : Result SetupError Engine × List Resource
started = new_engine_with_config all_through cfg []

abbrev engine : Engine
engine = record {
  gossip = some (
      new_gossip (record {
        node_id = flags.raft_id;
        raft_addr = flags.raft_addr;
        grpc_addr = flags.grpc_addr;
      }));
  resolver = gossip_resolver (
      new_gossip (record {
        node_id = flags.raft_id;
        raft_addr = flags.raft_addr;
        grpc_addr = flags.grpc_addr;
      }));
  service_resolver = gossip_resolver (
      new_gossip (record {
        node_id = flags.raft_id;
        raft_addr = flags.raft_addr;
        grpc_addr = flags.grpc_addr;
      }));
  shutdown = false;
}

abbrev pool : ConnPool
pool = record { conn_cache = (bytes_of "b:40051", 0) ∷ []; next = 1; closed = [] }

new_engine-close_example :
    ((close engine pool started.1).2 ≡ left_open cfg)
    × ((close engine pool started.1).1.conn_cache ≡ [])
    × ((a : Bytes) (conn : ℕ)
        → lookup a pool.conn_cache ≡ some conn
        → contains conn (close engine pool started.1).1.closed ≡ true)
    × (close
          (close engine pool started.1).0
          (close engine pool started.1).1
          (close engine pool started.1).2
        ≡ close engine pool started.1)
unfolding new_engine_with_config engine_config parse_host_port
new_engine-close_example = new_engine-close all_through cfg engine started.1 pool refl

abbrev port_taken : Calls
port_taken = record all_through { listen = false }

abbrev refused : Result SetupError Engine × List Resource
refused = new_engine_with_config port_taken cfg []

new_engine_leaks_example :
    ((listen_failed ≡ state_machine_failed) × (refused.1 ≡ [])) ⊎ IsOpen state_machine refused.1
unfolding new_engine_with_config engine_config parse_host_port
new_engine_leaks_example = new_engine_leaks port_taken cfg listen_failed refused.1 refl
