-- ===== src/Gossip/Table.antt =====
-- The table of gossip/gossip.go behind sequences of memberlist's events.
use raft_example.Prelude.{
  ◌≡◌, refl, sym, ap, ◌∙◌, Option, none, some, List, [], ◌∷◌, Bytes, arith, same, same_iff,
  if◌then◌else◌, ◌==◌, length,
}
use raft_example.Prelude.Map
use raft_example.Prelude.Map.{Map, lookup, lookup-insert, lookup-remove}
use raft_example.Gossip.{
  NodeMeta, Gossip, new_gossip, joined, left, notify_join, notify_leave, notify_update,
  get_grpc_addr, addr_of,
}

pub data Event : Type 0 where
  join : Bytes → Event
  leave : Bytes → Event
  update : Bytes → Event

module _ (unmarshal : Bytes → Option NodeMeta) where
  abbrev pub notify : Event → Gossip → Gossip
  notify (join meta) g = (notify_join unmarshal meta g).0
  notify (leave meta) g = (notify_leave unmarshal meta g).0
  notify (update meta) g = (notify_update unmarshal meta g).0

  abbrev pub notify_all : List Event → Gossip → Gossip
  notify_all [] g = g
  notify_all (e ∷ es) g = notify_all es (notify e g)

  -- The metadata of an event; an empty one, and one that cannot be read, tells of no node.
  abbrev read : Bytes → Option NodeMeta
  read meta = if length meta == 0 then none else unmarshal meta

  abbrev pub present : Option NodeMeta → Bytes → Option NodeMeta → Option NodeMeta
  present none id old = old
  present (some meta) id old = if same meta.node_id id then some meta else old

  abbrev absent : Option NodeMeta → Bytes → Option NodeMeta → Option NodeMeta
  absent none id old = old
  absent (some meta) id old = if same meta.node_id id then none else old

  -- What one event says of a node, over what was known before.
  abbrev pub heard : Event → Bytes → Option NodeMeta → Option NodeMeta
  heard (join meta) id old = present (read meta) id old
  heard (leave meta) id old = absent (read meta) id old
  heard (update meta) id old = present (read meta) id old

  abbrev pub last_heard : List Event → Bytes → Option NodeMeta → Option NodeMeta
  last_heard [] id old = old
  last_heard (e ∷ es) id old = last_heard es id (heard e id old)

  joined_lem :
      (o : Option NodeMeta) (id : Bytes) (g : Gossip)
      → lookup id (joined unmarshal o g).0.nodes ≡ present o id (lookup id g.nodes)
  unfolding joined
  joined_lem none id g = refl
  joined_lem (some meta) id g = lookup-insert meta.node_id id meta g.nodes

  left_lem :
      (o : Option NodeMeta) (id : Bytes) (g : Gossip)
      → lookup id (left unmarshal o g).0.nodes ≡ absent o id (lookup id g.nodes)
  unfolding left
  left_lem none id g = refl
  left_lem (some meta) id g = lookup-remove meta.node_id id g.nodes

  notify_lem :
      (e : Event) (id : Bytes) (g : Gossip)
      → lookup id (notify e g).nodes ≡ heard e id (lookup id g.nodes)
  unfolding notify_join notify_leave notify_update
  notify_lem (join meta) id g = ground (arith, joined_lem (unmarshal meta) id g)
  notify_lem (leave meta) id g = ground (arith, left_lem (unmarshal meta) id g)
  notify_lem (update meta) id g = ground (arith, joined_lem (unmarshal meta) id g)

  notify_all_lem :
      (es : List Event) (id : Bytes) (g : Gossip)
      → lookup id (notify_all es g).nodes ≡ last_heard es id (lookup id g.nodes)
  notify_all_lem [] id g = refl
  notify_all_lem (e ∷ es) id g =
      notify_all_lem es id (notify e g) ∙ ap (last_heard es id) (notify_lem e id g)

  -- Behind any events a node's address is found exactly by what was last heard of its id, where the
  -- node itself counts as heard of at the start.
  pub get_grpc_addr-last_heard :
      (es : List Event) (id : Bytes) (local : NodeMeta)
      → get_grpc_addr id (notify_all es (new_gossip local))
        ≡ addr_of (last_heard es id (present (some local) id none))
  unfolding get_grpc_addr new_gossip Map.insert lookup
  get_grpc_addr-last_heard es id local = ap addr_of (notify_all_lem es id (new_gossip local))

  -- The table is keyed by the id of the node that it holds.
  abbrev pub KeyedById : Gossip → Type 0
  KeyedById g = (id : Bytes) (meta : NodeMeta) → lookup id g.nodes ≡ some meta → meta.node_id ≡ id

  present_keyed :
      (o : Option NodeMeta) (id : Bytes) (old : Option NodeMeta) (meta : NodeMeta)
      → (old ≡ some meta → meta.node_id ≡ id)
      → present o id old ≡ some meta
      → meta.node_id ≡ id
  present_keyed none id old meta h e = h e
  present_keyed (some m) id old meta h e = ground (arith, same_iff m.node_id id)

  absent_keyed :
      (o : Option NodeMeta) (id : Bytes) (old : Option NodeMeta) (meta : NodeMeta)
      → (old ≡ some meta → meta.node_id ≡ id)
      → absent o id old ≡ some meta
      → meta.node_id ≡ id
  absent_keyed none id old meta h e = h e
  absent_keyed (some m) id old meta h e = ground (arith, same_iff m.node_id id)

  heard_keyed :
      (ev : Event) (id : Bytes) (old : Option NodeMeta) (meta : NodeMeta)
      → (old ≡ some meta → meta.node_id ≡ id)
      → heard ev id old ≡ some meta
      → meta.node_id ≡ id
  heard_keyed (join b) id old meta h e = present_keyed (read b) id old meta h e
  heard_keyed (leave b) id old meta h e = absent_keyed (read b) id old meta h e
  heard_keyed (update b) id old meta h e = present_keyed (read b) id old meta h e

  notify-KeyedById : (ev : Event) (g : Gossip) → KeyedById g → KeyedById (notify ev g)
  notify-KeyedById ev g h id meta e =
      heard_keyed ev id (lookup id g.nodes) meta (h id meta) (sym (notify_lem ev id g) ∙ e)

  -- If what is kept under each id is the metadata of a node with that id, it is so behind any
  -- events.
  pub notify_all-KeyedById :
      (es : List Event) (g : Gossip) → KeyedById g → KeyedById (notify_all es g)
  notify_all-KeyedById [] g h = h
  notify_all-KeyedById (e ∷ es) g h = notify_all-KeyedById es (notify e g) (notify-KeyedById e g h)
