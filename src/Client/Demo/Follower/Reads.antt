-- ===== src/Client/Demo/Follower/Reads.antt =====
-- What a client that asks a node that follows has read, over the node that leads.
use raft_example.Prelude.{
  ℕ, ◌≢◌, Bool, sym, ◌≡◌, refl, ap, ◌∙◌, inl, inr, true, false, Option, none, some, List, [], Bytes,
  bytes_of, Result, ok, arith, same, if◌then◌else◌,
}
use raft_example.Fsm.Platform.{Pebble, PebbleIsLawful, IsReliable}
use raft_example.Fsm.Command.{Json, JsonIsLawful, CommandResponse}
use raft_example.Fsm.Machine.{StateMachine}
use raft_example.Resolver.{AddressResolver, resolve}
use raft_example.Engine
use raft_example.Engine.{
  EngineError, LeaderView, Poll, RaftServer, consistent_read, on_consistent, verify_failed,
  read_failed,
}
use raft_example.Service.{Methods, Network, dial_failed, find_method}
use raft_example.Service.Messages.{
  Message, add_request_of, add_response_of, get_request_of, get_response_of,
}
use raft_example.Service.Connections.{ConnPool, get_or_create_conn}
use raft_example.Service.Replies.{Forwarded, add_ok, get_ok, add_forwarded, get_forwarded}
use raft_example.Client.Demo.Answers.{written, written_same}
use raft_example.Client.Demo.Node.{node_add, node_get, node_value, node_add_lem, node_get_lem}
use raft_example.Client.Demo.Follower.{
  over, reply_with, add_response_in, get_response_in, or_not_ready, serve, follower_add,
  follower_get, Wrote, nothing, wrote,
}

-- The two parts of a forwarded reply: this node does not lead, and the leader has answered the
-- method so.
Forwarded-over :
    {R : Type 0} (net : Network R) (reply : Bytes → Option R) (ms : Methods) (method : Bytes)
    (r : AddressResolver) (v : LeaderView) (w : ConnPool) (x : R)
    → Forwarded (over net reply) ms method r v w x
    → (v.is_leader ≡ false) × (m : Bytes) × (find_method ms method ≡ some m) × (reply m ≡ some x)
Forwarded-over net reply ms method r v w x (follows, m, addr, c, known, found, conn, replied) =
    (follows, m, known, replied)

some_same : (a b : Bytes) → some a ≡ some b → a ≡ b
some_same a b h = cc

refused :
    (e : Bytes) (left applied i : ℕ) (res : CommandResponse) (s : RaftServer) (x : Bytes)
    → or_not_ready (Engine.query true (some e) left [] applied res s) ≡ ok (i, x)
    → ⊥
unfolding Engine.query on_consistent consistent_read
refused e left applied i res s x h = cc

module _ (P : Pebble) (J : Json) (left : ℕ) (polls : List Poll) where
  -- A reply of the right type is one of the right method.
  serve_added :
      (m key val : Bytes) (l : StateMachine P × RaftServer) (i : ℕ)
      → add_response_in (serve P J left polls m (add_request_of key val) l).0 ≡ some i
      → ((node_add P J key val l).0 ≡ some i)
        × ((serve P J left polls m (add_request_of key val) l).1 ≡ (node_add P J key val l).1)
  unfolding serve
  serve_added m key val l i h =
      by_reply (same m (bytes_of "Add")) (node_add P J key val l).0 (node_add P J key val l).1 h
    where
      Served :
          Bool
          → Option ℕ
          → StateMachine P × RaftServer
          → Option Message × (StateMachine P × RaftServer)
      Served b o l' = if b then (reply_with add_response_of o, l') else (none, l)

      by_reply :
          (b : Bool) (o : Option ℕ) (l' : StateMachine P × RaftServer)
          → add_response_in (Served b o l').0 ≡ some i
          → (o ≡ some i) × ((Served b o l').1 ≡ l')
      by_reply true (some x) l' k = (k, refl)
      by_reply true none l' k = cc
      by_reply false o l' k = cc

  serve_got :
      (m key : Bytes) (l : StateMachine P × RaftServer) (i : ℕ) (x : Bytes)
      → get_response_in (serve P J left polls m (get_request_of key true) l).0 ≡ some (i, x)
      → (node_get P J left polls key true l).0 ≡ some (x, i)
  unfolding serve node_get
  serve_got m key l i x h =
      by_reply (same m (bytes_of "Get")) (node_get P J left polls key true l).0 h
    where
      Served : Bool → Option (Bytes × ℕ) → Option Message × (StateMachine P × RaftServer)
      Served b o =
          if b then (reply_with (λ (value, j). get_response_of j value) o, l) else (none, l)

      by_reply :
          (b : Bool) (o : Option (Bytes × ℕ))
          → get_response_in (Served b o).0 ≡ some (i, x)
          → o ≡ some (x, i)
      by_reply true (some (value, j)) k = ap some (ground arith)
      by_reply true none k = cc
      by_reply false o k = cc

module _ (P : Pebble) (J : Json) (lawful : PebbleIsLawful P) (reliable : IsReliable P)
    (json : JsonIsLawful J) (left : ℕ) (polls : List Poll) (ms : Methods) (r : AddressResolver)
    (v : LeaderView) where
  follower_add_ok :
      (net : Network ℕ) (applied : Result EngineError ℕ) (key val m : Bytes)
      (l : StateMachine P × RaftServer) (w : ConnPool) (i : ℕ)
      → v.is_leader ≡ false
      → find_method ms (bytes_of "Add") ≡ some m
      → follower_add P J left polls ms r v net applied key val l w ≡ ok i
      → ((node_add P J key val l).0 ≡ some i)
        × ((serve P J left polls m (add_request_of key val) l).1 ≡ (node_add P J key val l).1)
  unfolding follower_add
  follower_add_ok net applied key val m l w i follows known h =
      let reply : Bytes → Option ℕ =
        λ n. add_response_in (serve P J left polls n (add_request_of key val) l).0 in
      elim (add_ok (over net reply) ms (bytes_of "Add") r v applied w i h) [
        | inl (leads, here) ↦ absurd cc
        | inr forwarded ↦
            let (f, n, found, came) =
              Forwarded-over net reply ms (bytes_of "Add") r v w i forwarded in
            let same_method : n ≡ m = some_same n m (sym found ∙ known) in
            serve_added P J left polls m key val l i (ap reply (sym same_method) ∙ came)
      ]

  follower_get_ok :
      (net : Network (ℕ × Bytes)) (e : Bytes) (res : CommandResponse) (s : RaftServer) (key : Bytes)
      (l : StateMachine P × RaftServer) (w : ConnPool) (i : ℕ) (x : Bytes)
      → follower_get P J left polls ms r v net e res s key l w ≡ ok (i, x)
      → (node_get P J left polls key true l).0 ≡ some (x, i)
  unfolding follower_get
  follower_get_ok net e res s key l w i x h =
      let reply : Bytes → Option (ℕ × Bytes) =
        λ n. get_response_in (serve P J left polls n (get_request_of key true) l).0 in
      elim (get_ok (over net reply) ms (bytes_of "Get") r v
        (λ c. or_not_ready (Engine.query c (some e) left [] 0 res s)) w (i, x) h) [
          | inl here ↦ absurd (refused e left 0 i res s x here)
          | inr forwarded ↦
              let (f, n, found, came) =
                Forwarded-over net reply ms (bytes_of "Get") r v w (i, x) forwarded in
              serve_got P J left polls n key l i x came
        ]

  Wrote-written :
      {l l' : StateMachine P × RaftServer} {pairs : List (Bytes × Bytes)}
      → v.is_leader ≡ false
      → Wrote P J left polls ms r v l pairs l'
      → (j : Bytes) → node_value P l' j ≡ written (node_value P l) pairs j
  Wrote-written follows nothing j = refl
  Wrote-written follows (wrote {l} {l'} {pairs} net applied key val m w i known done rest) j =
      let (went, moved) = follower_add_ok net applied key val m l w i follows known done in
      Wrote-written follows rest j
      ∙ ap (λ n. written (node_value P n) pairs j) moved
      ∙ written_same (node_value P (node_add P J key val l).1)
          (λ k. if same key k then val else node_value P l k) pairs j
          (node_add_lem P J lawful reliable json key val l (node_add P J key val l).1 i
            (ap (λ o. (o, (node_add P J key val l).1)) went))

  -- Over a lawful database whose commits succeed and a JSON encoding that is read back: let a
  -- client send its requests to a node that follows, to which raft does not confirm the leadership,
  -- whatever its resolver, its connections and its own state machine are, and let every connection
  -- lead to one leader, which handles Add and Get by the method that is invoked and refuses a
  -- request to any other. Behind any Adds that have each returned an index, a linearizable Get that
  -- returns without an error returns the value that the Adds last wrote under the key, or else the
  -- one that the leader had before them, which is empty where it had none; and the leader has
  -- answered so.
  pub follower_get-written :
      (l l' : StateMachine P × RaftServer) (pairs : List (Bytes × Bytes))
      (net : Network (ℕ × Bytes)) (e : Bytes) (res : CommandResponse) (s : RaftServer) (key : Bytes)
      (w : ConnPool) (i : ℕ) (x : Bytes)
      → v.is_leader ≡ false
      → Wrote P J left polls ms r v l pairs l'
      → follower_get P J left polls ms r v net e res s key l' w ≡ ok (i, x)
      → (x ≡ written (node_value P l) pairs key)
        × ((node_get P J left polls key true l').0 ≡ some (x, i))
  follower_get-written l l' pairs net e res s key w i x follows writes h =
      let went = follower_get_ok net e res s key l' w i x h in
      let after = (node_get P J left polls key true l').1 in
      let (value, kept) =
        node_get_lem P J lawful reliable json left polls key true l' after x i
          (ap (λ o. (o, after)) went) in
      (value ∙ Wrote-written follows writes key, went)

module _ (P : Pebble) (J : Json) (left : ℕ) (polls : List Poll) (ms : Methods) (r : AddressResolver)
    (v : LeaderView) (addr : Bytes) (c : ℕ) where
  -- Let a node follow, know the leader's address, resolve it and have a connection to it for an Add
  -- and for a Get, let the service's descriptors have Add and Get under these names, and let the
  -- leader answer the Add of a pair with an index, and the linearizable Get of a key with a value
  -- and an index. Then the Add and the Get that are sent to the node that follows return just
  -- these, whatever the node itself would answer.
  pub follower_completes :
      (net : Network ℕ) (net' : Network (ℕ × Bytes)) (applied : Result EngineError ℕ)
      (key val e x : Bytes) (res : CommandResponse) (s : RaftServer)
      (l : StateMachine P × RaftServer) (w : ConnPool) (i j : ℕ)
      → v.is_leader ≡ false
      → v.leader_addr ≢ []
      → resolve r v.leader_addr ≡ some addr
      → find_method ms (bytes_of "Add") ≡ some (bytes_of "Add")
      → find_method ms (bytes_of "Get") ≡ some (bytes_of "Get")
      → (get_or_create_conn dial_failed net.seen net.state net.dials addr w net.relocked).0 ≡ ok c
      → (get_or_create_conn dial_failed net'.seen net'.state net'.dials addr w net'.relocked).0
        ≡ ok c
      → (node_add P J key val l).0 ≡ some i
      → (node_get P J left polls key true l).0 ≡ some (x, j)
      → (follower_add P J left polls ms r v net applied key val l w ≡ ok i)
        × (follower_get P J left polls ms r v net' e res s key l w ≡ ok (j, x))
  unfolding follower_add follower_get serve node_get
  follower_completes net net' applied key val e x res s l w i j follows named resolved known known'
        conn conn' added got =
      let reply : Bytes → Option ℕ =
        λ n. add_response_in (serve P J left polls n (add_request_of key val) l).0 in
      let reply' : Bytes → Option (ℕ × Bytes) =
        λ n. get_response_in (serve P J left polls n (get_request_of key true) l).0 in
      (
        add_forwarded (over net reply) ms (bytes_of "Add") (bytes_of "Add") addr r v applied w c i
            known follows named resolved conn (rw added refl),
        get_forwarded (over net' reply') ms (bytes_of "Get") (bytes_of "Get") addr r v
            (λ b. or_not_ready (Engine.query b (some e) left [] 0 res s)) w c (j, x) known' follows
            named resolved conn'
            (ap (λ o. get_response_in (reply_with (λ (value, n). get_response_of n value) o)) got),
      )
