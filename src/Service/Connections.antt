-- ===== src/Service/Connections.antt =====
-- The cache of connections to other nodes in service/service.go: getOrCreateConn and CloseAllConns.
pub mod Valid
use raft_example.Prelude.{
  ℕ, ◌+◌, Bool, true, false, Option, none, some, List, [], ◌∷◌, ◌++◌, Bytes, Result, ok, err,
  if◌then◌else◌,
}
use raft_example.Prelude.Map
use raft_example.Prelude.Map.{Map, lookup}

-- The states of google.golang.org/grpc/connectivity.
pub data ConnState : Type 0 where
  idle : ConnState
  connecting : ConnState
  ready : ConnState
  transient_failure : ConnState
  shutdown : ConnState

abbrev pub usable : ConnState → Bool
usable idle = true
usable connecting = true
usable ready = true
usable transient_failure = false
usable shutdown = false

-- connCache, with a number for each connection: those below `next` have been dialled, and those of
-- `closed` were closed.
pub record ConnPool : Type 0 where
  pub conn_cache : Map ℕ
  pub next : ℕ
  pub closed : List ℕ

abbrev pub no_connections : ConnPool
no_connections = record { conn_cache = []; next = 0; closed = [] }

-- The cached connection for an address, if its state allows its use.
abbrev pub cached : (ℕ → ConnState) → Option ℕ → Option ℕ
cached state none = none
cached state (some c) = if usable (state c) then some c else none

-- `conn.Close` and `delete`, where there is a connection.
unfoldable pub evict : Bytes → Option ℕ → ConnPool → ConnPool
evict addr none w = w
evict addr (some c) w = record w {
  conn_cache = Map.remove addr w.conn_cache;
  closed = c ∷ w.closed;
}

module _ {E : Type 0} (dial_failed : E) where
  -- `dials` is whether DialContext returns a connection.
  unfoldable pub dial : Bool → Bytes → ConnPool → Result E ℕ × ConnPool
  dial false addr w = (err dial_failed, w)
  dial true addr w =
      (ok w.next, record w { conn_cache = Map.insert addr w.next w.conn_cache; next = w.next + 1 })

  unfoldable pub or_dial : Option ℕ → Bool → Bytes → Option ℕ → ConnPool → Result E ℕ × ConnPool
  unfolding evict dial
  or_dial (some c) dials addr stale w = (ok c, w)
  or_dial none dials addr stale w = dial dials addr (evict addr stale w)

  -- The part under the write lock.
  unfoldable pub create_conn : (ℕ → ConnState) → Bool → Bytes → ConnPool → Result E ℕ × ConnPool
  unfolding or_dial
  create_conn state dials addr w =
      let found = lookup addr w.conn_cache in or_dial (cached state found) dials addr found w

  unfoldable pub or_create :
      Option ℕ → (ℕ → ConnState) → Bool → Bytes → ConnPool → ConnPool → Result E ℕ × ConnPool
  unfolding create_conn
  or_create (some c) state dials addr w w' = (ok c, w)
  or_create none state dials addr w w' = create_conn state dials addr w'

  -- The cache is `w` under the read lock and `w'` when the write lock is taken; `seen` and `state`
  -- are what GetState answers under the one and the other.
  unfoldable pub get_or_create_conn :
      (ℕ → ConnState) → (ℕ → ConnState) → Bool → Bytes → ConnPool → ConnPool → Result E ℕ × ConnPool
  unfolding or_create
  get_or_create_conn seen state dials addr w w' =
      or_create (cached seen (lookup addr w.conn_cache)) state dials addr w w'

abbrev pub conns_of : Map ℕ → List ℕ
conns_of [] = []
conns_of ((a, c) ∷ m) = c ∷ conns_of m

unfoldable pub close_all_conns : ConnPool → ConnPool
close_all_conns w = record w { conn_cache = []; closed = conns_of w.conn_cache ++ w.closed }
