-- ===== src/Assembly/Opening.antt =====
-- What a node has open behind NewEngineWithConfig, when it goes through and when it fails, and
-- behind Close.
use raft_example.Prelude.{
  ℕ, ◌≡◌, refl, sym, ap, ◌∙◌, subst, ◌⊎◌, inl, inr, Bool, true, false, Option, none, some, List, [],
  ◌∷◌, ◌++◌, Bytes, Result, ok, err, if◌then◌else◌, arith,
}
use raft_example.Gossip.{Gossip}
use raft_example.Resolver.{gossip_resolver, new_static_resolver}
use raft_example.Gossip.Address.{AddressError, parse_host_port, split_host_port}
use raft_example.Prelude.Map.{Map, lookup}
use raft_example.Service.Connections.{ConnPool, conns_of, close_all_conns}
use raft_example.Service.Connections.Valid.{contains}
use raft_example.Assembly.{
  Resource, state_machine, raft_db, transport, raft_node, observe_loop, monitor_loop, memberlist,
  join_loop, grpc_server, listener, serve_loop, SetupError, state_machine_failed, Calls,
  EngineConfig, Engine, Setup, go_on, ◌>>=◌, ◌>>◌, pure, opens, needs, lift_address,
  gossip_address_invalid, grpc_address_invalid, memberlist_failed, listen_failed, bootstrap,
  new_raft, join_seeds, setup_gossip, setup_resolvers, new_engine_with_config, code, end_one,
  close_raft, leave_gossip, close,
}

-- A connection that is cached is one of those that CloseAllConns closes.
conns_of_lem :
    (m : Map ℕ) (closed : List ℕ) (a : Bytes) (c : ℕ)
    → lookup a m ≡ some c
    → contains c (conns_of m ++ closed) ≡ true
unfolding lookup
conns_of_lem [] closed a c h = cc
conns_of_lem ((b, d) ∷ m) closed a c h = ground (arith, conns_of_lem m closed a c)

-- A chain goes through when each of its parts does.
bind_ok :
    {A B : Type 0} (m : Setup A) (f : A → Setup B) (w w'' : List Resource) (b : B)
    → (m >>= f) w ≡ (ok b, w'')
    → (a : A) × (w' : List Resource) × (m w ≡ (ok a, w')) × (f a w' ≡ (ok b, w''))
bind_ok {A} {B} m f w w'' b h = by_result (m w).0 (m w).1 refl h
  where
    by_result :
        (r : Result SetupError A) (w' : List Resource)
        → m w ≡ (r, w')
        → go_on r f w' ≡ (ok b, w'')
        → (a : A) × (w' : List Resource) × (m w ≡ (ok a, w')) × (f a w' ≡ (ok b, w''))
    by_result (ok a) w' e k = (a, w', e, k)
    by_result (err x) w' e k = cc

needs_ok :
    {B : Type 0} (goes : Bool) (e : SetupError) (m : Setup B) (w w' : List Resource) (b : B)
    → (needs goes e >> m) w ≡ (ok b, w')
    → m w ≡ (ok b, w')
needs_ok true e m w w' b h = h
needs_ok false e m w w' b h = cc

pure_ok :
    {A : Type 0} (a b : A) (w w' : List Resource)
    → ◌≡◌ {A = Result SetupError A × List Resource} (ok a, w) (ok b, w')
    → (a ≡ b) × (w ≡ w')
pure_ok a b w w' h = ground arith

lift_ok :
    {A B : Type 0} (wrap : AddressError → SetupError) (r : Result AddressError A) (f : A → Setup B)
    (w w' : List Resource) (b : B)
    → (lift_address wrap r >>= f) w ≡ (ok b, w')
    → (a : A) × (f a w ≡ (ok b, w'))
lift_ok wrap (ok a) f w w' b h = (a, h)
lift_ok wrap (err e) f w w' b h = cc

module _ (c : Calls) where
  bootstrap_ok :
      {B : Type 0} (on : Bool) (m : Setup B) (w w' : List Resource) (b : B)
      → (bootstrap c on >> m) w ≡ (ok b, w')
      → m w ≡ (ok b, w')
  unfolding bootstrap
  bootstrap_ok true m w w' b h = needs_ok c.bootstrap_cluster _ m w w' b h
  bootstrap_ok false m w w' b h = h

  new_raft_ok :
      (on : Bool) (w w' : List Resource) (u : Unit {0})
      → new_raft c on w ≡ (ok u, w')
      → w' ≡ monitor_loop ∷ observe_loop ∷ raft_node ∷ transport ∷ raft_db ∷ w
  unfolding new_raft
  new_raft_ok on w w' u h =
      let h₁ = needs_ok c.new_pebble_store _ _ w w' u h in
      let h₂ = needs_ok c.new_file_snapshot_store _ _ (raft_db ∷ w) w' u h₁ in
      let h₃ = needs_ok c.resolve_tcp_addr _ _ (raft_db ∷ w) w' u h₂ in
      let h₄ = needs_ok c.new_tcp_transport _ _ (raft_db ∷ w) w' u h₃ in
      let h₅ = needs_ok c.new_raft_node _ _ (transport ∷ raft_db ∷ w) w' u h₄ in
      let h₆ =
        bootstrap_ok on (opens monitor_loop) (observe_loop ∷ raft_node ∷ transport ∷ raft_db ∷ w) w'
          u h₅ in
      sym (ap (λ (z : Result SetupError (Unit {0}) × List Resource). z.1) h₆)

-- The goroutine that joins the seeds ends by itself, after at most five attempts.
abbrev pub seeds_left : List Bytes → List Resource
seeds_left [] = []
seeds_left (seed ∷ seeds) = join_loop ∷ []

abbrev pub left_open : EngineConfig → List Resource
left_open cfg = if cfg.gossip_enabled then seeds_left cfg.gossip_seeds else []

-- The gossip that the engine has, and what is open for it.
abbrev GossipOpen : EngineConfig → Option Gossip → List Resource → List Resource → Type 0
GossipOpen cfg none w w' = (w' ≡ w) × (left_open cfg ≡ [])
GossipOpen cfg (some g) w w' = w' ≡ left_open cfg ++ memberlist ∷ w

left_cases : (cfg : EngineConfig) → (left_open cfg ≡ []) ⊎ (left_open cfg ≡ join_loop ∷ [])
left_cases cfg = by_seeds cfg.gossip_enabled cfg.gossip_seeds
  where
    by_seeds :
        (b : Bool) (seeds : List Bytes)
        → ((if b then seeds_left seeds else []) ≡ [])
          ⊎ ((if b then seeds_left seeds else []) ≡ join_loop ∷ [])
    by_seeds false seeds = inl refl
    by_seeds true [] = inl refl
    by_seeds true (seed ∷ seeds) = inr refl

module _ (c : Calls) where
  seeds_ok :
      {B : Type 0} (seeds : List Bytes) (b b' : B) (w w' : List Resource)
      → (join_seeds c seeds >> pure b) w ≡ (ok b', w')
      → (b ≡ b') × (w' ≡ seeds_left seeds ++ w)
  unfolding join_seeds
  seeds_ok [] b b' w w' h = ground arith
  seeds_ok (seed ∷ seeds) b b' w w' h = ground arith

  setup_gossip_ok :
      (cfg : EngineConfig) (g : Gossip) (w w' : List Resource)
      → setup_gossip c cfg w ≡ (ok g, w')
      → w' ≡ seeds_left cfg.gossip_seeds ++ memberlist ∷ w
  unfolding setup_gossip
  setup_gossip_ok cfg g w w' h =
      let ((host, port), h₁) =
        lift_ok gossip_address_invalid (parse_host_port cfg.gossip_addr) _ w w' g h in
      let h₂ = needs_ok c.create_memberlist memberlist_failed _ w w' g h₁ in
      (seeds_ok cfg.gossip_seeds _ g (memberlist ∷ w) w' h₂).1

  setup_resolvers_ok :
      (cfg : EngineConfig) (e : Engine) (w w' : List Resource)
      → setup_resolvers c cfg w ≡ (ok e, w')
      → (e.shutdown ≡ false) × GossipOpen cfg e.gossip w w'
  unfolding setup_resolvers
  setup_resolvers_ok cfg e w w' h = by_config cfg.gossip_enabled refl h
    where
      by_config :
          (b : Bool)
          → cfg.gossip_enabled ≡ b
          → (if b
                then (setup_gossip c cfg >>= λ g. pure (record {
                  gossip = some g;
                  resolver = gossip_resolver g;
                  service_resolver = gossip_resolver g;
                  shutdown = false;
                }))
                else pure (record {
                  gossip = none;
                  resolver = new_static_resolver [];
                  service_resolver = new_static_resolver cfg.static_lookup;
                  shutdown = false;
                }))
              w
            ≡ (ok e, w')
          → (e.shutdown ≡ false) × GossipOpen cfg e.gossip w w'
      by_config true on k =
          let (g, w₁, e₁, h₁) = bind_ok (setup_gossip c cfg) _ w w' e k in
          let opened = setup_gossip_ok cfg g w w₁ e₁ in
          let (same_engine, same_open) = pure_ok _ e w₁ w' h₁ in
          subst (λ (x : Engine). (x.shutdown ≡ false) × GossipOpen cfg x.gossip w w') same_engine
            (
              refl,
              sym same_open
                  ∙ opened
                  ∙ ap (λ x. (if x then seeds_left cfg.gossip_seeds else []) ++ memberlist ∷ w)
                      (sym on),
            )
      by_config false off k =
          let (same_engine, same_open) = pure_ok _ e w w' k in
          subst (λ (x : Engine). (x.shutdown ≡ false) × GossipOpen cfg x.gossip w w') same_engine
            (refl, (sym same_open, ap (λ x. if x then seeds_left cfg.gossip_seeds else []) off))

  abbrev raft_open : List Resource
  raft_open = monitor_loop ∷ observe_loop ∷ raft_node ∷ transport ∷ raft_db ∷ state_machine ∷ []

  -- What NewEngineWithConfig has opened when it returns, the last first.
  new_engine_ok :
      (cfg : EngineConfig) (e : Engine) (w : List Resource)
      → new_engine_with_config c cfg [] ≡ (ok e, w)
      → (w' : List Resource) × (w ≡ serve_loop ∷ listener ∷ grpc_server ∷ w')
        × (e.shutdown ≡ false)
        × GossipOpen cfg e.gossip raft_open w'
  unfolding new_engine_with_config
  new_engine_ok cfg e w h =
      let h₁ = needs_ok c.new_state_machine state_machine_failed _ [] w e h in
      let (u, w₂, e₂, h₂) = bind_ok (new_raft c cfg.raft_bootstrap) _ (state_machine ∷ []) w e h₁ in
      let (e', w₃, e₃, h₃) = bind_ok (setup_resolvers c cfg) _ w₂ w e h₂ in
      let ((host, port), h₄) =
        lift_ok grpc_address_invalid (split_host_port cfg.grpc_addr) _ (grpc_server ∷ w₃) w e h₃ in
      let h₅ = needs_ok c.listen listen_failed _ (grpc_server ∷ w₃) w e h₄ in
      let (same_engine, same_open) = pure_ok e' e _ w h₅ in
      let (running, gossip_open) = setup_resolvers_ok cfg e' w₂ w₃ e₃ in
      let behind_raft = new_raft_ok c cfg.raft_bootstrap (state_machine ∷ []) w₂ u e₂ in
      (
        w₃,
        sym same_open,
        ap (λ (x : Engine). x.shutdown) (sym same_engine) ∙ running,
        subst (λ (x : Engine). GossipOpen cfg x.gossip raft_open w₃) same_engine
            (subst (λ x. GossipOpen cfg e'.gossip x w₃) behind_raft gossip_open),
      )

  -- Closing ends all that is open.
  closed_lem :
      (cfg : EngineConfig) (e : Engine) (w w' : List Resource) (pool : ConnPool)
      → e.shutdown ≡ false
      → w ≡ serve_loop ∷ listener ∷ grpc_server ∷ w'
      → GossipOpen cfg e.gossip raft_open w'
      → (close e pool w).2 ≡ left_open cfg
  unfolding close end_one code close_raft leave_gossip
  closed_lem cfg e w w' pool running opened gossip_open = by_gossip e.gossip refl gossip_open
    where
      by_gossip :
          (g : Option Gossip)
          → e.gossip ≡ g
          → GossipOpen cfg g raft_open w'
          → (close e pool w).2 ≡ left_open cfg
      by_gossip none eq (same_open, nothing_left) =
          rw (running, eq, opened, same_open, nothing_left) refl
      by_gossip (some g) eq same_open = elim (left_cases cfg) [
        | inl e ↦ rw (running, eq, opened, same_open, e) refl
        | inr e ↦ rw (running, eq, opened, same_open, e) refl
      ]

  close_pool :
      (e : Engine) (pool : ConnPool) (w : List Resource)
      → e.shutdown ≡ false
      → (close e pool w).1 ≡ close_all_conns pool
  unfolding close
  close_pool e pool w running = rw running refl

  -- When NewEngineWithConfig returns an engine, Close ends all that is open, but for the goroutine
  -- that joins the seeds if gossip is on and has seeds; it empties the cache of connections, each
  -- of which has been closed, and does nothing when it is called again.
  pub new_engine-close :
      (cfg : EngineConfig) (e : Engine) (w : List Resource) (pool : ConnPool)
      → new_engine_with_config c cfg [] ≡ (ok e, w)
      → ((close e pool w).2 ≡ left_open cfg)
        × ((close e pool w).1.conn_cache ≡ [])
        × ((a : Bytes) (conn : ℕ)
            → lookup a pool.conn_cache ≡ some conn
            → contains conn (close e pool w).1.closed ≡ true)
        × (close (close e pool w).0 (close e pool w).1 (close e pool w).2 ≡ close e pool w)
  unfolding close close_all_conns
  new_engine-close cfg e w pool h =
      let (w', opened, running, gossip_open) = new_engine_ok cfg e w h in
      (
        closed_lem cfg e w w' pool running opened gossip_open,
        rw running refl,
        λ a conn there.
            rw (close_pool e pool w running)
              (conns_of_lem pool.conn_cache pool.closed a conn there),
        rw running refl,
      )
