-- ===== src/Client/Demo/Follower.antt =====
-- Requests of a client to a node that follows: service/service.go forwards them to the node that leads,
-- which answers the method that was invoked from its own raft server and state machine.
pub mod Reads
use raft_example.Prelude.{
  ℕ, Bool, sym, ◌≡◌, refl, ap, ◌∙◌, inl, inr, true, false, Option, none, some, List, [], ◌∷◌, Bytes,
  bytes_of, Result, ok, err, arith, same, if◌then◌else◌,
}
use raft_example.Fsm.Platform.{Pebble, PebbleIsLawful, IsReliable}
use raft_example.Fsm.Command.{Json, JsonIsLawful, CommandResponse}
use raft_example.Fsm.Machine.{StateMachine}
use raft_example.Resolver.{AddressResolver}
use raft_example.Engine
use raft_example.Engine.{
  EngineError, LeaderView, Poll, RaftServer, consistent_read, on_consistent, verify_failed,
  read_failed,
}
use raft_example.Service
use raft_example.Service.{Methods, Network, ServiceError, find_method}
use raft_example.Service.Messages.{
  Message, add_request_of, add_response_of, get_request_of, get_response_of,
}
use raft_example.Service.Connections.{ConnPool}
use raft_example.Service.Replies.{Forwarded, add_ok, get_ok}
use raft_example.Client.Demo.Answers.{written, written_same}
use raft_example.Client.Demo.Node.{node_add, node_get, node_value, node_add_lem, node_get_lem}

-- A network over which every connection leads to a service that answers a method so.
abbrev pub over : {R : Type 0} → Network R → (Bytes → Option R) → Network R
over net reply = record net { invoke = λ c m. reply m }

abbrev pub reply_with : {A : Type 0} → (A → Message) → Option A → Option Message
reply_with respond none = none
reply_with respond (some a) = some (respond a)

-- The assertions on the type of a reply, which Add and Get make.
abbrev pub add_response_in : Option Message → Option ℕ
add_response_in (some (add_response_of i)) = some i
add_response_in _ = none

abbrev pub get_response_in : Option Message → Option (ℕ × Bytes)
get_response_in (some (get_response_of i value)) = some (i, value)
get_response_in _ = none

abbrev pub or_not_ready : Option (Result EngineError (ℕ × Bytes)) → Result EngineError (ℕ × Bytes)
or_not_ready none = err Engine.not_ready
or_not_ready (some r) = r

module _ (P : Pebble) (J : Json) (left : ℕ) (polls : List Poll) where
  -- The service of the node that leads: the handler of the method that is invoked, on the request.
  -- A method has no handler for the request of another, and Stat and Watch are not followed here.
  unfoldable pub serve :
      Bytes → Message → StateMachine P × RaftServer → Option Message × (StateMachine P × RaftServer)
  serve m (add_request_of key val) l =
      if same m (bytes_of "Add")
      then (let (i, l') = node_add P J key val l in (reply_with add_response_of i, l'))
      else (none, l)
  serve m (get_request_of key linearizable) l =
      if same m (bytes_of "Get")
      then (let (r, l') = node_get P J left polls key linearizable l in
          (reply_with (λ (value, i). get_response_of i value) r, l'))
      else (none, l)
  serve m _ l = (none, l)

  module _ (ms : Methods) (r : AddressResolver) (v : LeaderView) where
    -- Add at the follower, where the leader is in the state `l`; `applied` is what Apply would answer
    -- here.
    unfoldable pub follower_add :
        Network ℕ
        → Result EngineError ℕ
        → Bytes
        → Bytes
        → StateMachine P × RaftServer
        → ConnPool
        → Result ServiceError ℕ
    follower_add net applied key val l w =
        (Service.add (over net (λ m. add_response_in (serve m (add_request_of key val) l).0)) ms
          (bytes_of "Add") r v applied w).0

    -- A linearizable Get at the follower, whose own raft does not confirm the leadership to it, with
    -- the error `e`; `res` is what its own state machine would answer, and `polls` are the leader's.
    unfoldable pub follower_get :
        Network (ℕ × Bytes)
        → Bytes
        → CommandResponse
        → RaftServer
        → Bytes
        → StateMachine P × RaftServer
        → ConnPool
        → Result ServiceError (ℕ × Bytes)
    follower_get net e res s key l w =
        (Service.get (over net (λ m. get_response_in (serve m (get_request_of key true) l).0)) ms
          (bytes_of "Get") r v true (λ c. or_not_ready (Engine.query c (some e) left [] 0 res s))
          w).0

-- Adds at the follower, each of which has returned an index, and the leader before and behind them;
-- `m` is the method that was invoked there.
pub data Wrote (P : Pebble) (J : Json) (left : ℕ) (polls : List Poll) (ms : Methods)
    (r : AddressResolver) (v : LeaderView)
    : StateMachine P × RaftServer
      → List (Bytes × Bytes)
      → StateMachine P × RaftServer
      → Type 0 where
  nothing : {l : StateMachine P × RaftServer} → Wrote P J left polls ms r v l [] l
  wrote :
      {l l' : StateMachine P × RaftServer} {pairs : List (Bytes × Bytes)} (net : Network ℕ)
      (applied : Result EngineError ℕ) (key val m : Bytes) (w : ConnPool) (i : ℕ)
      → find_method ms (bytes_of "Add") ≡ some m
      → follower_add P J left polls ms r v net applied key val l w ≡ ok i
      → Wrote P J left polls ms r v (serve P J left polls m (add_request_of key val) l).1 pairs l'
      → Wrote P J left polls ms r v l ((key, val) ∷ pairs) l'
