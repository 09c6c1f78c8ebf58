-- ===== src/Gossip.antt =====
-- gossip/gossip.go: the table of nodes that memberlist's events keep.
pub mod Table
pub mod Address
pub mod Joining
use raft_example.Prelude.{
  ℕ, Bool, true, false, Option, none, some, List, [], ◌∷◌, Bytes, if◌then◌else◌, ◌==◌, length,
}
use raft_example.Prelude.Map
use raft_example.Prelude.Map.{Map, lookup}

pub record NodeMeta : Type 0 where
  pub node_id : Bytes
  pub raft_addr : Bytes
  pub grpc_addr : Bytes

-- The memberlist and the callbacks are outside; an event returns what the callback is called with.
pub record Gossip : Type 0 where
  pub local_meta : NodeMeta
  pub nodes : Map NodeMeta

-- `New`, before the first event: the node knows itself.
unfoldable pub new_gossip : NodeMeta → Gossip
new_gossip meta = record { local_meta = meta; nodes = Map.insert meta.node_id meta [] }

-- A node's metadata on the wire: `json.Unmarshal` reads it, or has an error.
module _ (unmarshal : Bytes → Option NodeMeta) where
  joined : Option NodeMeta → Gossip → Gossip × Option NodeMeta
  joined none g = (g, none)
  joined (some meta) g = (record g { nodes = Map.insert meta.node_id meta g.nodes }, some meta)

  unfoldable pub notify_join : Bytes → Gossip → Gossip × Option NodeMeta
  unfolding joined
  notify_join meta g = if length meta == 0 then (g, none) else joined (unmarshal meta) g

  left : Option NodeMeta → Gossip → Gossip × Option NodeMeta
  left none g = (g, none)
  left (some meta) g = (record g { nodes = Map.remove meta.node_id g.nodes }, some meta)

  unfoldable pub notify_leave : Bytes → Gossip → Gossip × Option NodeMeta
  unfolding left
  notify_leave meta g = if length meta == 0 then (g, none) else left (unmarshal meta) g

  unfoldable pub notify_update : Bytes → Gossip → Gossip × Option NodeMeta
  unfolding notify_join
  notify_update meta g = notify_join meta g

unfoldable pub addr_of : Option NodeMeta → Option Bytes
addr_of none = none
addr_of (some meta) = some meta.grpc_addr

-- `none` is the pair of the empty address and false.
unfoldable pub get_grpc_addr : Bytes → Gossip → Option Bytes
unfolding addr_of
get_grpc_addr node_id g = addr_of (lookup node_id g.nodes)

values : Map NodeMeta → List NodeMeta
values [] = []
values ((k, meta) ∷ m) = meta ∷ values m

-- The order of Go's map iteration is left open there; here it is that of the list.
unfoldable pub get_all_nodes : Gossip → List NodeMeta
unfolding values
get_all_nodes g = values g.nodes
