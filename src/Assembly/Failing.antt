-- ===== src/Assembly/Failing.antt =====
-- NewEngineWithConfig where it fails: what it has opened before stays open.
use raft_example.Prelude.{
  ◌≡◌, ◌⊎◌, inl, inr, Bool, true, false, none, some, List, [], ◌∷◌, Bytes, Result, ok, err,
  if◌then◌else◌, subst, arith,
}
use raft_example.Gossip.{Gossip}
use raft_example.Gossip.Address.{AddressError, parse_host_port, split_host_port}
use raft_example.Resolver.{gossip_resolver, new_static_resolver}
use raft_example.Assembly.{
  Resource, state_machine, SetupError, state_machine_failed, Calls, EngineConfig, Engine, Setup,
  go_on, ◌>>=◌, ◌>>◌, pure, opens, needs, lift_address, bootstrap, new_raft, join_seeds,
  setup_gossip, setup_resolvers, new_engine_with_config, raft_db, transport, raft_node,
  observe_loop, monitor_loop, memberlist, grpc_server, listener, serve_loop, raft_db_failed,
  snapshot_store_failed, address_unresolved, transport_failed, raft_failed, gossip_address_invalid,
  memberlist_failed, grpc_address_invalid, listen_failed,
}

-- The resource is open.
pub data IsOpen (r : Resource) : List Resource → Type 0 where
  first : (w : List Resource) → IsOpen r (r ∷ w)
  further : (q : Resource) (w : List Resource) → IsOpen r w → IsOpen r (q ∷ w)

-- A part of the setup closes nothing.
record ClosesNone {A : Type 0} (m : Setup A) : Type 0 where
  at : (r : Resource) (w : List Resource) → IsOpen r w → IsOpen r (m w).1

ClosesNone-bind :
    {A B : Type 0} (m : Setup A) (f : A → Setup B)
    → ClosesNone m
    → ((a : A) → ClosesNone (f a))
    → ClosesNone (m >>= f)
ClosesNone-bind {A} m f hm hf = record { at = λ r w h. by_result r (m w).0 (m w).1 (hm.at r w h) }
  where
    by_result :
        (r : Resource) (x : Result SetupError A) (w' : List Resource)
        → IsOpen r w'
        → IsOpen r (go_on x f w').1
    by_result r (ok a) w' k = (hf a).at r w' k
    by_result r (err e) w' k = k

ClosesNone-pure : {A : Type 0} (a : A) → ClosesNone (pure a)
ClosesNone-pure a = record { at = λ r w h. h }

ClosesNone-opens : (q : Resource) → ClosesNone (opens q)
ClosesNone-opens q = record { at = λ r w h. further q w h }

ClosesNone-needs : (b : Bool) (e : SetupError) → ClosesNone (needs b e)
ClosesNone-needs true e = record { at = λ r w h. h }
ClosesNone-needs false e = record { at = λ r w h. h }

ClosesNone-lift :
    {A : Type 0} (wrap : AddressError → SetupError) (x : Result AddressError A)
    → ClosesNone (lift_address wrap x)
ClosesNone-lift wrap (ok a) = record { at = λ r w h. h }
ClosesNone-lift wrap (err e) = record { at = λ r w h. h }

-- One more part in front.
module _ {B : Type 0} {m : Setup B} (rest : ClosesNone m) where
  behind-needs : (b : Bool) (e : SetupError) → ClosesNone (needs b e >> m)
  behind-needs b e = ClosesNone-bind (needs b e) (λ _. m) (ClosesNone-needs b e) (λ _. rest)

  behind-opens : (q : Resource) → ClosesNone (opens q >> m)
  behind-opens q = ClosesNone-bind (opens q) (λ _. m) (ClosesNone-opens q) (λ _. rest)

module _ (c : Calls) where
  ClosesNone-bootstrap : (on : Bool) → ClosesNone (bootstrap c on)
  unfolding bootstrap
  ClosesNone-bootstrap true = ClosesNone-needs c.bootstrap_cluster _
  ClosesNone-bootstrap false = ClosesNone-pure tt

  ClosesNone-new_raft : (on : Bool) → ClosesNone (new_raft c on)
  unfolding new_raft
  ClosesNone-new_raft on =
      let up_to_bootstrap =
        ClosesNone-bind (bootstrap c on) (λ _. opens monitor_loop) (ClosesNone-bootstrap on)
          (λ _. ClosesNone-opens monitor_loop) in
      let with_raft = behind-opens (behind-opens up_to_bootstrap observe_loop) raft_node in
      let with_transport =
        behind-opens (behind-needs with_raft c.new_raft_node raft_failed) transport in
      let with_db =
        behind-opens
          (behind-needs
            (behind-needs (behind-needs with_transport c.new_tcp_transport transport_failed)
              c.resolve_tcp_addr address_unresolved)
            c.new_file_snapshot_store snapshot_store_failed)
          raft_db in
      behind-needs with_db c.new_pebble_store raft_db_failed

  ClosesNone-join_seeds : (seeds : List Bytes) → ClosesNone (join_seeds c seeds)
  unfolding join_seeds
  ClosesNone-join_seeds [] = ClosesNone-pure tt
  ClosesNone-join_seeds (seed ∷ seeds) = ClosesNone-opens _

  ClosesNone-setup_gossip : (cfg : EngineConfig) → ClosesNone (setup_gossip c cfg)
  unfolding setup_gossip
  ClosesNone-setup_gossip cfg =
      ClosesNone-bind (lift_address gossip_address_invalid (parse_host_port cfg.gossip_addr)) _
        (ClosesNone-lift gossip_address_invalid (parse_host_port cfg.gossip_addr))
        (λ x.
          behind-needs
            (behind-opens
              (ClosesNone-bind (join_seeds c cfg.gossip_seeds) _
                (ClosesNone-join_seeds cfg.gossip_seeds) (λ _. ClosesNone-pure _))
              memberlist)
            c.create_memberlist memberlist_failed)

  ClosesNone-setup_resolvers : (cfg : EngineConfig) → ClosesNone (setup_resolvers c cfg)
  unfolding setup_resolvers
  ClosesNone-setup_resolvers cfg = by_config cfg.gossip_enabled
    where
      without : Engine
      without = record {
        gossip = none;
        resolver = new_static_resolver [];
        service_resolver = new_static_resolver cfg.static_lookup;
        shutdown = false;
      }

      with_gossip : Gossip → Engine
      with_gossip g = record {
        gossip = some g;
        resolver = gossip_resolver g;
        service_resolver = gossip_resolver g;
        shutdown = false;
      }

      by_config :
          (b : Bool)
          → ClosesNone
              (if b then (setup_gossip c cfg >>= λ g. pure (with_gossip g)) else pure without)
      by_config true =
          ClosesNone-bind (setup_gossip c cfg) _ (ClosesNone-setup_gossip cfg)
            (λ g. ClosesNone-pure (with_gossip g))
      by_config false = ClosesNone-pure without

  behind_state_machine : (cfg : EngineConfig) → Setup Engine
  behind_state_machine cfg = do
    new_raft c cfg.raft_bootstrap
    e ← setup_resolvers c cfg
    opens grpc_server
    (host, port) ← lift_address grpc_address_invalid (split_host_port cfg.grpc_addr)
    needs c.listen listen_failed
    opens listener
    opens serve_loop
    pure e

  ClosesNone-behind_state_machine : (cfg : EngineConfig) → ClosesNone (behind_state_machine cfg)
  unfolding behind_state_machine
  ClosesNone-behind_state_machine cfg =
      ClosesNone-bind (new_raft c cfg.raft_bootstrap) _ (ClosesNone-new_raft cfg.raft_bootstrap)
        (λ u. ClosesNone-bind (setup_resolvers c cfg) _ (ClosesNone-setup_resolvers cfg) (λ e.
          behind-opens
            (ClosesNone-bind (lift_address grpc_address_invalid (split_host_port cfg.grpc_addr)) _
              (ClosesNone-lift grpc_address_invalid (split_host_port cfg.grpc_addr))
              (λ x.
                behind-needs (behind-opens (behind-opens (ClosesNone-pure e) serve_loop) listener)
                  c.listen listen_failed))
            grpc_server))

  failed_at_once :
      (e : SetupError) (w : List Resource)
      → ◌≡◌ {A = Result SetupError Engine × List Resource} (err state_machine_failed, []) (err e, w)
      → (e ≡ state_machine_failed) × (w ≡ [])
  failed_at_once e w h = ground arith

  -- When NewEngineWithConfig returns an error, either the state machine could not be opened and
  -- nothing is open, or the state machine is open and stays open.
  pub new_engine_leaks :
      (cfg : EngineConfig) (e : SetupError) (w : List Resource)
      → new_engine_with_config c cfg [] ≡ (err e, w)
      → ((e ≡ state_machine_failed) × (w ≡ [])) ⊎ IsOpen state_machine w
  unfolding new_engine_with_config behind_state_machine
  new_engine_leaks cfg e w h = by_first c.new_state_machine h
    where
      by_first :
          (b : Bool)
          → (needs b state_machine_failed >> (opens state_machine >> behind_state_machine cfg)) []
            ≡ (err e, w)
          → ((e ≡ state_machine_failed) × (w ≡ [])) ⊎ IsOpen state_machine w
      by_first true k = inr (
          subst (λ (z : Result SetupError Engine × List Resource). IsOpen state_machine z.1) k
            ((ClosesNone-behind_state_machine cfg).at state_machine (state_machine ∷ [])
              (first [])))
      by_first false k = inl (failed_at_once e w k)
