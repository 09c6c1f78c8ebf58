-- ===== src/Service/Replies.antt =====
-- Who answers Add and Get: this node as the leader, or the node behind the leader's address.
use raft_example.Prelude.{
  ℕ, ◌≡◌, ◌≢◌, refl, subst, Option-cases, ap, ◌⊎◌, inl, inr, Bool, true, false, Option, none, some,
  [], ◌∷◌, Bytes, Result, ok, err, arith, length, if◌then◌else◌, ◌==◌,
}
use raft_example.Prelude.Map.{lookup}
use raft_example.Gossip.{NodeMeta, Gossip, addr_of, get_grpc_addr}
use raft_example.Resolver.{AddressResolver, gossip_resolver, resolve}
use raft_example.Engine.{EngineError, LeaderView, get_leader, no_leader}
use raft_example.Service.Connections.{ConnPool, get_or_create_conn}
use raft_example.Service.{
  ServiceError, unknown_leader, dial_failed, Methods, find_method, Network, invoked, on_conn,
  on_addr, on_leader, on_method, forward_request_to_leader, wrap, add_reply, add, get_reply, get,
}

-- This node is not the leader, the resolver has an address for the leader, and the reply came over
-- the connection that getOrCreateConn returned for it, to the method that was found for the name.
abbrev pub Forwarded :
    {R : Type 0}
    → Network R
    → Methods
    → Bytes
    → AddressResolver
    → LeaderView
    → ConnPool
    → R
    → Type 0
Forwarded net ms method r v w resp =
    (v.is_leader ≡ false)
    × (m : Bytes) × (addr : Bytes) × (c : ℕ) × (find_method ms method ≡ some m)
    × (resolve r v.leader_addr ≡ some addr)
    × ((get_or_create_conn dial_failed net.seen net.state net.dials addr w net.relocked).0 ≡ ok c)
    × (net.invoke c m ≡ some resp)

-- The outcomes of forwarding that are no error.
abbrev Handled :
    {R : Type 0}
    → Network R
    → Methods
    → Bytes
    → AddressResolver
    → LeaderView
    → ConnPool
    → Result ServiceError (Option R)
    → Type 0
Handled net ms method r v w (err e) = Unit
Handled net ms method r v w (ok none) = v.is_leader ≡ true
Handled net ms method r v w (ok (some resp)) = Forwarded net ms method r v w resp

module _ {R : Type 0} (net : Network R) (ms : Methods) (method : Bytes) (r : AddressResolver)
    (v : LeaderView) (w : ConnPool) where
  invoked-Handled :
      (m addr : Bytes) (c : ℕ) (o : Option R)
      → find_method ms method ≡ some m
      → v.is_leader ≡ false
      → resolve r v.leader_addr ≡ some addr
      → (get_or_create_conn dial_failed net.seen net.state net.dials addr w net.relocked).0 ≡ ok c
      → net.invoke c m ≡ o
      → Handled net ms method r v w (invoked net o)
  unfolding invoked
  invoked-Handled m addr c none k f a g e = tt
  invoked-Handled m addr c (some resp) k f a g e = (f, m, addr, c, k, a, g, e)

  on_conn-Handled :
      (m addr : Bytes) (res : Result ServiceError ℕ) (w' : ConnPool)
      → find_method ms method ≡ some m
      → v.is_leader ≡ false
      → resolve r v.leader_addr ≡ some addr
      → (get_or_create_conn dial_failed net.seen net.state net.dials addr w net.relocked).0 ≡ res
      → Handled net ms method r v w (on_conn net m (res, w')).0
  unfolding on_conn
  on_conn-Handled m addr (err e) w' k f a g = tt
  on_conn-Handled m addr (ok c) w' k f a g = invoked-Handled m addr c (net.invoke c m) k f a g refl

  on_addr-Handled :
      (m leader : Bytes) (o : Option Bytes)
      → find_method ms method ≡ some m
      → v.is_leader ≡ false
      → resolve r v.leader_addr ≡ o
      → Handled net ms method r v w (on_addr net m leader o w).0
  unfolding on_addr
  on_addr-Handled m leader none k f a = tt
  on_addr-Handled m leader (some addr) k f a =
      let call = get_or_create_conn dial_failed net.seen net.state net.dials addr w net.relocked in
      on_conn-Handled m addr call.0 call.1 k f a refl

  on_leader-Handled :
      (m : Bytes)
      → find_method ms method ≡ some m
      → Handled net ms method r v w (on_leader net m r (get_leader v) w).0
  unfolding on_leader get_leader
  on_leader-Handled m k = by_view v.is_leader (length v.leader_addr == 0) refl
    where
      by_view :
          (b c : Bool)
          → v.is_leader ≡ b
          → Handled net ms method r v w
              (on_leader net m r
                (if b
                  then (true, [], none)
                  else if c
                  then (false, [], some no_leader)
                  else (false, v.leader_addr, none))
                w).0
      by_view true c e = e
      by_view false true e = tt
      by_view false false e = on_addr-Handled m v.leader_addr (resolve r v.leader_addr) k e refl

  on_method-Handled :
      (o : Option Bytes)
      → find_method ms method ≡ o
      → Handled net ms method r v w (on_method net method o r v w).0
  unfolding on_method
  on_method-Handled none k = tt
  on_method-Handled (some m) k = on_leader-Handled m k

  forward_lem : Handled net ms method r v w (forward_request_to_leader net ms method r v w).0
  unfolding forward_request_to_leader
  forward_lem = on_method-Handled (find_method ms method) refl

-- An Add that returns an index without an error has either been applied by this node, which is the
-- leader, or been forwarded: this node is not the leader, the resolver has an address for the
-- leader's raft address, and the index is the reply over the connection that getOrCreateConn
-- returned for it.
pub add_ok :
    (net : Network ℕ) (ms : Methods) (method : Bytes) (r : AddressResolver) (v : LeaderView)
    (applied : Result EngineError ℕ) (w : ConnPool) (index : ℕ)
    → (add net ms method r v applied w).0 ≡ ok index
    → ((v.is_leader ≡ true) × (applied ≡ ok index)) ⊎ Forwarded net ms method r v w index
unfolding add
add_ok net ms method r v applied w index h =
    by_reply (forward_request_to_leader net ms method r v w).0 applied
      (forward_lem net ms method r v w) h
  where
    by_reply :
        (f : Result ServiceError (Option ℕ)) (a : Result EngineError ℕ)
        → Handled net ms method r v w f
        → add_reply f a ≡ ok index
        → ((v.is_leader ≡ true) × (a ≡ ok index)) ⊎ Forwarded net ms method r v w index
    by_reply (err e) a s k = cc
    by_reply (ok none) (ok n) s k = inl (s, ground arith)
    by_reply (ok none) (err e) s k = cc
    by_reply (ok (some resp)) a s k =
        let e : resp ≡ index = ground arith in inr (subst (Forwarded net ms method r v w) e s)

-- A linearizable Get that returns without an error returns the reply of the leader's node,
-- forwarded as for Add, or what a consistent query answers here.
pub get_ok :
    (net : Network (ℕ × Bytes)) (ms : Methods) (method : Bytes) (r : AddressResolver)
    (v : LeaderView) (query : Bool → Result EngineError (ℕ × Bytes)) (w : ConnPool)
    (resp : ℕ × Bytes)
    → (get net ms method r v true query w).0 ≡ ok resp
    → (query true ≡ ok resp) ⊎ Forwarded net ms method r v w resp
unfolding get
get_ok net ms method r v query w resp h =
    by_reply (forward_request_to_leader net ms method r v w).0 (query true)
      (forward_lem net ms method r v w) h
  where
    by_query : (a : Result EngineError (ℕ × Bytes)) → wrap a ≡ ok resp → a ≡ ok resp
    by_query (ok x) k = ap ok (ground arith)
    by_query (err e) k = cc

    by_reply :
        (f : Result ServiceError (Option (ℕ × Bytes))) (a : Result EngineError (ℕ × Bytes))
        → Handled net ms method r v w f
        → get_reply f a ≡ ok resp
        → (a ≡ ok resp) ⊎ Forwarded net ms method r v w resp
    by_reply (err e) a s k = inl (by_query a k)
    by_reply (ok none) a s k = inl (by_query a k)
    by_reply (ok (some x)) a s k =
        let e : x ≡ resp = ground arith in inr (subst (Forwarded net ms method r v w) e s)

not_empty : (b : Bytes) → b ≢ [] → (length b == 0) ≡ false
not_empty [] h = absurd (h refl)
not_empty (x ∷ b) h = ground arith

-- A request of a known method at a node that knows the leader and its address, and has a connection
-- to it, is answered by the reply to that method over it.
module _ {R : Type 0} (net : Network R) (ms : Methods) (method m addr : Bytes) (r : AddressResolver)
    (v : LeaderView) where
  forwarded_lem :
      (w : ConnPool) (c : ℕ)
      → find_method ms method ≡ some m
      → v.is_leader ≡ false
      → v.leader_addr ≢ []
      → resolve r v.leader_addr ≡ some addr
      → (get_or_create_conn dial_failed net.seen net.state net.dials addr w net.relocked).0 ≡ ok c
      → (forward_request_to_leader net ms method r v w).0 ≡ invoked net (net.invoke c m)
  unfolding forward_request_to_leader on_method on_leader on_addr on_conn get_leader
  forwarded_lem w c known follows named resolved conn =
      rw (known, follows, not_empty v.leader_addr named, resolved, conn) refl

pub add_forwarded :
    (net : Network ℕ) (ms : Methods) (method m addr : Bytes) (r : AddressResolver) (v : LeaderView)
    (applied : Result EngineError ℕ) (w : ConnPool) (c i : ℕ)
    → find_method ms method ≡ some m
    → v.is_leader ≡ false
    → v.leader_addr ≢ []
    → resolve r v.leader_addr ≡ some addr
    → (get_or_create_conn dial_failed net.seen net.state net.dials addr w net.relocked).0 ≡ ok c
    → net.invoke c m ≡ some i
    → (add net ms method r v applied w).0 ≡ ok i
unfolding add add_reply invoked
add_forwarded net ms method m addr r v applied w c i known follows named resolved conn came =
    rw (forwarded_lem net ms method m addr r v w c known follows named resolved conn, came) refl

pub get_forwarded :
    (net : Network (ℕ × Bytes)) (ms : Methods) (method m addr : Bytes) (r : AddressResolver)
    (v : LeaderView) (query : Bool → Result EngineError (ℕ × Bytes)) (w : ConnPool) (c : ℕ)
    (resp : ℕ × Bytes)
    → find_method ms method ≡ some m
    → v.is_leader ≡ false
    → v.leader_addr ≢ []
    → resolve r v.leader_addr ≡ some addr
    → (get_or_create_conn dial_failed net.seen net.state net.dials addr w net.relocked).0 ≡ ok c
    → net.invoke c m ≡ some resp
    → (get net ms method r v true query w).0 ≡ ok resp
unfolding get get_reply invoked
get_forwarded net ms method m addr r v query w c resp known follows named resolved conn came =
    rw (forwarded_lem net ms method m addr r v w c known follows named resolved conn, came) refl

-- Let this node know another as the leader, and resolve by a gossip whose table is keyed by the ids
-- of its nodes. If no node of the table has the leader's raft address for its id, an Add of a known
-- method fails here, whatever this node itself would answer.
pub add_unresolved :
    (net : Network ℕ) (ms : Methods) (method m : Bytes) (g : Gossip) (v : LeaderView)
    (applied : Result EngineError ℕ) (w : ConnPool)
    → find_method ms method ≡ some m
    → v.is_leader ≡ false
    → v.leader_addr ≢ []
    → ((id : Bytes) (meta : NodeMeta) → lookup id g.nodes ≡ some meta → meta.node_id ≡ id)
    → ((id : Bytes) (meta : NodeMeta)
        → lookup id g.nodes ≡ some meta
        → meta.node_id ≢ v.leader_addr)
    → add net ms method (gossip_resolver g) v applied w ≡ (err (unknown_leader v.leader_addr), w)
unfolding add forward_request_to_leader on_method on_leader on_addr get_leader resolve get_grpc_addr
    add_reply addr_of
add_unresolved net ms method m g v applied w known follower named keyed apart =
    rw (known, follower, not_empty v.leader_addr named, missing) refl
  where
    missing : lookup v.leader_addr g.nodes ≡ none
    missing = elim (Option-cases (lookup v.leader_addr g.nodes)) [
      | inl none_there ↦ none_there
      | inr (meta, there) ↦ absurd (apart v.leader_addr meta there (keyed v.leader_addr meta there))
    ]
