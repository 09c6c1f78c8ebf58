-- ===== src/Resolver.antt =====
-- resolver/resolver.go: the address of a node for leader forwarding, from a table of its own or from
-- the gossip's.
pub mod Laws
use raft_example.Prelude.{Bool, Option, none, some, List, [], ◌∷◌, Bytes}
use raft_example.Prelude.Map
use raft_example.Prelude.Map.{Map, lookup}
use raft_example.Gossip.{Gossip, get_grpc_addr}

-- The two implementations of AddressResolver. The gossip behind the second is given as it is at the
-- time of the call.
pub data AddressResolver : Type 0 where
  static_resolver : Map Bytes → AddressResolver
  gossip_resolver : Gossip → AddressResolver

copy_addrs : Map Bytes → Map Bytes → Map Bytes
copy_addrs [] addrs = addrs
copy_addrs ((k, v) ∷ rest) addrs = copy_addrs rest (Map.insert k v addrs)

unfoldable pub new_static_resolver : Map Bytes → AddressResolver
unfolding copy_addrs
new_static_resolver initial = static_resolver (copy_addrs initial [])

-- `none` is the pair of the empty address and false.
unfoldable pub resolve : AddressResolver → Bytes → Option Bytes
resolve (static_resolver addrs) node_id = lookup node_id addrs
resolve (gossip_resolver g) node_id = get_grpc_addr node_id g

unfoldable pub set_grpc_addr : Bytes → Bytes → AddressResolver → AddressResolver
set_grpc_addr node_id grpc_addr (static_resolver addrs) =
    static_resolver (Map.insert node_id grpc_addr addrs)
set_grpc_addr node_id grpc_addr (gossip_resolver g) = gossip_resolver g

unfoldable pub remove_addr : Bytes → AddressResolver → AddressResolver
remove_addr node_id (static_resolver addrs) = static_resolver (Map.remove node_id addrs)
remove_addr node_id (gossip_resolver g) = gossip_resolver g
