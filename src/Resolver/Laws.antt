-- ===== src/Resolver/Laws.antt =====
-- The resolvers of resolver/resolver.go behind sequences of writes.
use raft_example.Prelude.{
  ◌≡◌, refl, ap, ◌∙◌, Option, none, some, List, [], ◌∷◌, Bytes, same, if◌then◌else◌,
}
use raft_example.Prelude.Map
use raft_example.Prelude.Map.{Map, lookup, lookup-insert, lookup-remove}
use raft_example.Gossip.{Gossip, get_grpc_addr}
use raft_example.Resolver.{
  AddressResolver, static_resolver, gossip_resolver, resolve, set_grpc_addr, remove_addr,
}

pub data Write : Type 0 where
  set : Bytes → Bytes → Write
  remove : Bytes → Write

abbrev pub perform : Write → AddressResolver → AddressResolver
perform (set k v) r = set_grpc_addr k v r
perform (remove k) r = remove_addr k r

abbrev pub perform_all : List Write → AddressResolver → AddressResolver
perform_all [] r = r
perform_all (w ∷ ws) r = perform_all ws (perform w r)

abbrev pub last_write : List Write → Bytes → Option Bytes → Option Bytes
last_write [] id old = old
last_write (set k v ∷ ws) id old = last_write ws id (if same k id then some v else old)
last_write (remove k ∷ ws) id old = last_write ws id (if same k id then none else old)

static_lem :
    (ws : List Write) (addrs : Map Bytes) (id : Bytes)
    → resolve (perform_all ws (static_resolver addrs)) id ≡ last_write ws id (lookup id addrs)
unfolding resolve set_grpc_addr remove_addr
static_lem [] addrs id = refl
static_lem (set k v ∷ ws) addrs id =
    static_lem ws (Map.insert k v addrs) id ∙ ap (last_write ws id) (lookup-insert k id v addrs)
static_lem (remove k ∷ ws) addrs id =
    static_lem ws (Map.remove k addrs) id ∙ ap (last_write ws id) (lookup-remove k id addrs)

gossip_lem :
    (ws : List Write) (g : Gossip) (id : Bytes)
    → resolve (perform_all ws (gossip_resolver g)) id ≡ get_grpc_addr id g
unfolding resolve set_grpc_addr remove_addr
gossip_lem [] g id = refl
gossip_lem (set k v ∷ ws) g id = gossip_lem ws g id
gossip_lem (remove k ∷ ws) g id = gossip_lem ws g id

-- What a resolver answers behind any writes: a static one by the last write to the id, over what it
-- answered before; a gossip one as before.
abbrev pub answers : List Write → AddressResolver → Bytes → Option Bytes
answers ws (static_resolver addrs) id = last_write ws id (resolve (static_resolver addrs) id)
answers ws (gossip_resolver g) id = resolve (gossip_resolver g) id

-- Behind any sequence of SetGRPCAddr and RemoveAddr a static resolver answers by the last write to
-- the id, or as it did before where there is none, and a gossip resolver answers as it did before.
pub resolve-perform_all :
    (ws : List Write) (r : AddressResolver) (id : Bytes)
    → resolve (perform_all ws r) id ≡ answers ws r id
unfolding resolve
resolve-perform_all ws (static_resolver addrs) id = static_lem ws addrs id
resolve-perform_all ws (gossip_resolver g) id = gossip_lem ws g id
