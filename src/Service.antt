-- ===== src/Service.antt =====
-- service/service.go: the requests Add and Get, which a node that is not the leader forwards.
pub mod Connections
pub mod Replies
pub mod Stats
pub mod Blocking
pub mod Messages
use raft_example.Prelude.{
  ℕ, Bool, true, false, Option, none, some, List, [], ◌∷◌, Bytes, Result, ok, err, if◌then◌else◌,
}
use raft_example.Prelude.Map.{Map}
use raft_example.Resolver.{AddressResolver, new_static_resolver, resolve}
use raft_example.Engine.{EngineError, LeaderView, get_leader}
use raft_example.Service.Connections.{ConnPool, ConnState, get_or_create_conn}

pub data ServiceError : Type 0 where
  unknown_command : Bytes → ServiceError
  engine_error : EngineError → ServiceError
  unknown_leader : Bytes → ServiceError
  dial_failed : ServiceError
  invoke_failed : ServiceError

-- The service, without the state machine and the raft server that it holds.
pub record GrpcService : Type 0 where
  pub resolver : AddressResolver

abbrev pub new_grpc_service_with_resolver : AddressResolver → GrpcService
new_grpc_service_with_resolver r = record { resolver = r }

abbrev pub new_grpc_service : Map Bytes → GrpcService
new_grpc_service static_lookup = new_grpc_service_with_resolver (new_static_resolver static_lookup)

-- The descriptors of the methods, which a build generates, and strcase.
pub record Methods : Type 0 where
  pub by_name : Bytes → Option Bytes
  pub to_camel : Bytes → Bytes

abbrev or_camel : Methods → Bytes → Option Bytes → Option Bytes
or_camel ms method (some m) = some m
or_camel ms method none = ms.by_name (ms.to_camel method)

unfoldable pub find_method : Methods → Bytes → Option Bytes
find_method ms method = or_camel ms method (ms.by_name method)

-- What the network does for one forwarded request: the states of the connections under the two
-- locks, whether a dial succeeds, the cache when the write lock is taken, and the reply over a
-- connection to a method.
pub record Network (R : Type 0) : Type 0 where
  pub seen : ℕ → ConnState
  pub state : ℕ → ConnState
  pub dials : Bool
  pub relocked : ConnPool
  pub invoke : ℕ → Bytes → Option R

-- `ok none` is a request that this node handles itself, and `ok (some resp)` one that was forwarded.
module _ {R : Type 0} (net : Network R) where
  invoked : Option R → Result ServiceError (Option R)
  invoked none = err invoke_failed
  invoked (some resp) = ok (some resp)

  on_conn : Bytes → Result ServiceError ℕ × ConnPool → Result ServiceError (Option R) × ConnPool
  unfolding invoked
  on_conn m (err e, w) = (err e, w)
  on_conn m (ok c, w) = (invoked (net.invoke c m), w)

  on_addr : Bytes → Bytes → Option Bytes → ConnPool → Result ServiceError (Option R) × ConnPool
  unfolding on_conn
  on_addr m leader none w = (err (unknown_leader leader), w)
  on_addr m leader (some addr) w =
      on_conn m (get_or_create_conn dial_failed net.seen net.state net.dials addr w net.relocked)

  on_leader :
      Bytes
      → AddressResolver
      → Bool × Bytes × Option EngineError
      → ConnPool
      → Result ServiceError (Option R) × ConnPool
  unfolding on_addr
  on_leader m r (true, leader, e) w = (ok none, w)
  on_leader m r (false, leader, some e) w = (err (engine_error e), w)
  on_leader m r (false, leader, none) w = on_addr m leader (resolve r leader) w

  on_method :
      Bytes
      → Option Bytes
      → AddressResolver
      → LeaderView
      → ConnPool
      → Result ServiceError (Option R) × ConnPool
  unfolding on_leader
  on_method method none r v w = (err (unknown_command method), w)
  on_method method (some m) r v w = on_leader m r (get_leader v) w

  unfoldable pub forward_request_to_leader :
      Methods
      → Bytes
      → AddressResolver
      → LeaderView
      → ConnPool
      → Result ServiceError (Option R) × ConnPool
  unfolding on_method
  forward_request_to_leader ms method r v w = on_method method (find_method ms method) r v w

abbrev pub wrap : {A : Type 0} → Result EngineError A → Result ServiceError A
wrap (ok a) = ok a
wrap (err e) = err (engine_error e)

-- The commit index of the response, by what forwarding answers and what Apply would answer here.
unfoldable pub add_reply :
    Result ServiceError (Option ℕ) → Result EngineError ℕ → Result ServiceError ℕ
add_reply (err e) applied = err e
add_reply (ok (some resp)) applied = ok resp
add_reply (ok none) applied = wrap applied

unfoldable pub add :
    Network ℕ
    → Methods
    → Bytes
    → AddressResolver
    → LeaderView
    → Result EngineError ℕ
    → ConnPool
    → Result ServiceError ℕ × ConnPool
unfolding add_reply forward_request_to_leader
add net ms method r v applied w =
    let (f, w') = forward_request_to_leader net ms method r v w in (add_reply f applied, w')

-- The index and the value of the response. An error of forwarding is not looked at: the request is
-- then handled here.
unfoldable pub get_reply :
    Result ServiceError (Option (ℕ × Bytes))
    → Result EngineError (ℕ × Bytes)
    → Result ServiceError (ℕ × Bytes)
get_reply (err e) queried = wrap queried
get_reply (ok (some resp)) queried = ok resp
get_reply (ok none) queried = wrap queried

unfoldable pub get :
    Network (ℕ × Bytes)
    → Methods
    → Bytes
    → AddressResolver
    → LeaderView
    → Bool
    → (Bool → Result EngineError (ℕ × Bytes))
    → ConnPool
    → Result ServiceError (ℕ × Bytes) × ConnPool
unfolding get_reply forward_request_to_leader
get net ms method r v linearizable query w =
    if linearizable
    then (let (f, w') = forward_request_to_leader net ms method r v w in
        (get_reply f (query true), w'))
    else (wrap (query false), w)
