-- ===== src/Program.antt =====
-- app.go: from the flags of the command line to the configuration of the engine.
pub mod Flags
use raft_example.Prelude.{
  ℕ, Bool, true, false, List, [], ◌∷◌, Bytes, bytes_of, Result, ok, err, if◌then◌else◌, ◌==◌, not,
}
use raft_example.Prelude.Map.{Map}
use raft_example.Assembly.{EngineConfig}

-- The flags as they are parsed, with the defaults where none is given.
pub record CommandLine : Type 0 where
  pub raft_addr : Bytes
  pub grpc_addr : Bytes
  pub raft_id : Bytes
  pub raft_dir : Bytes
  pub raft_bootstrap : Bool
  pub gossip_addr : Bytes
  pub gossip_seeds : Bytes

-- A flag that ends the program where it is empty.
pub data Required : Type 0 where
  raft_id_required : Required
  raft_addr_required : Required
  grpc_addr_required : Required

abbrev pub comma : ℕ
comma = 44

abbrev default_static_lookup : Map Bytes
default_static_lookup =
    (bytes_of "127.0.0.1:50051", bytes_of "127.0.0.1:40051")
    ∷ (bytes_of "127.0.0.1:50052", bytes_of "127.0.0.1:40052")
    ∷ (bytes_of "127.0.0.1:50053", bytes_of "127.0.0.1:40053")
    ∷ []

put_on : ℕ → List Bytes → List Bytes
put_on c [] = (c ∷ []) ∷ []
put_on c (part ∷ parts) = (c ∷ part) ∷ parts

-- `strings.Split` by one byte: there is always a part.
unfoldable pub split : ℕ → Bytes → List Bytes
unfolding put_on
split c [] = [] ∷ []
split c (x ∷ xs) = let parts = split c xs in if x == c then [] ∷ parts else put_on x parts

is_empty : Bytes → Bool
is_empty [] = true
is_empty (c ∷ cs) = false

-- The seeds of a gossip that is on.
seeds_of : CommandLine → List Bytes
unfolding split is_empty
seeds_of f =
    if is_empty f.gossip_addr
    then []
    else if is_empty f.gossip_seeds
    then []
    else split comma f.gossip_seeds

unfoldable pub engine_config : CommandLine → EngineConfig
unfolding seeds_of is_empty
engine_config f = record {
  raft_dir = f.raft_dir;
  node_id = f.raft_id;
  raft_addr = f.raft_addr;
  grpc_addr = f.grpc_addr;
  raft_bootstrap = f.raft_bootstrap;
  gossip_enabled = not (is_empty f.gossip_addr);
  gossip_addr = f.gossip_addr;
  gossip_seeds = seeds_of f;
  static_lookup = default_static_lookup;
}

-- The part of `main` before the engine is made.
unfoldable pub config_of_flags : CommandLine → Result Required EngineConfig
unfolding engine_config is_empty
config_of_flags f =
    if is_empty f.raft_id
    then err raft_id_required
    else if is_empty f.raft_addr
    then err raft_addr_required
    else if is_empty f.grpc_addr
    then err grpc_addr_required
    else ok (engine_config f)
