-- ===== src/Service/Connections/Valid.antt =====
-- The cache of connections in service/service.go: when it is valid, and calls on a valid one.
use raft_example.Prelude.{
  ℕ, ◌+◌, ◌<◌, ◌≡◌, refl, ◌⊎◌, Bool, true, false, ◌||◌, Option, none, some, List, [], ◌∷◌, Bytes,
  Result, ok, inl, inr, if◌then◌else◌, ◌==◌, arith, same, same_iff, same_refl,
}
use raft_example.Prelude.Map
use raft_example.Prelude.Map.{Map, lookup, lookup-insert, lookup-remove}
use raft_example.Service.Connections.{
  ConnState, usable, ConnPool, cached, evict, dial, or_dial, create_conn, or_create,
  get_or_create_conn,
}

abbrev pub contains : ℕ → List ℕ → Bool
contains c [] = false
contains c (d ∷ ds) = (c == d) || contains c ds

abbrev pub AllBelow : ℕ → List ℕ → Type 0
AllBelow n [] = Unit
AllBelow n (c ∷ cs) = (c < n) × AllBelow n cs

-- Each cached connection has been dialled, is not closed, and is kept under one address only; what is
-- closed has been dialled.
abbrev pub IsValid : ConnPool → Type 0
IsValid w =
    ((a : Bytes) (c : ℕ)
      → lookup a w.conn_cache ≡ some c
      → (c < w.next)
        × (contains c w.closed ≡ false)
        × ((b : Bytes) → lookup b w.conn_cache ≡ some c → same a b ≡ true))
    × AllBelow w.next w.closed

contains_fresh : (n : ℕ) (cs : List ℕ) → AllBelow n cs → contains n cs ≡ false
contains_fresh n [] h = refl
contains_fresh n (c ∷ cs) (l, h) = ground (arith, contains_fresh n cs h)

AllBelow-suc : (n : ℕ) (cs : List ℕ) → AllBelow n cs → AllBelow (n + 1) cs
AllBelow-suc n [] h = tt
AllBelow-suc n (c ∷ cs) (l, h) = (omega arith, AllBelow-suc n cs h)

-- Taking the entry of an address out and closing its connection.
removed-IsValid :
    (addr : Bytes) (c : ℕ) (w : ConnPool)
    → IsValid w
    → lookup addr w.conn_cache ≡ some c
    → IsValid (evict addr (some c) w)
unfolding evict
removed-IsValid addr c w (h, below) e = (
  λ a d k.
      let (l, o, u) = h a d (ground (arith, lookup-remove addr a w.conn_cache)) in
      (
        l,
        ground (arith, lookup-remove addr a w.conn_cache, (h addr c e).2 a),
        λ b m. u b (ground (arith, lookup-remove addr b w.conn_cache)),
      ),
  ((h addr c e).0, below),
)

-- What is found behind an insert is the new entry or an old one of another address.
inserted :
    (addr a : Bytes) (n c : ℕ) (m : Map ℕ)
    → lookup a (Map.insert addr n m) ≡ some c
    → ((same addr a ≡ true) × (c ≡ n)) ⊎ ((same addr a ≡ false) × (lookup a m ≡ some c))
inserted addr a n c m e = ground (arith, lookup-insert addr a n m)

added-IsValid :
    (addr : Bytes) (w : ConnPool)
    → IsValid w
    → lookup addr w.conn_cache ≡ none
    → IsValid (record w { conn_cache = Map.insert addr w.next w.conn_cache; next = w.next + 1 })
added-IsValid addr w (h, below) e = (
  λ a c k. elim (inserted addr a w.next c w.conn_cache k) [
    | inl (s, q) ↦ (
      omega arith,
      rw q (contains_fresh w.next w.closed below),
      λ b m. elim (inserted addr b w.next c w.conn_cache m) [
        | inl (s', q') ↦ ground (arith, same_iff addr a, same_iff addr b, same_iff a b)
        | inr (s', l) ↦ absurd (ground (arith, (h b c l).0))
      ],
    )
    | inr (s, l) ↦ (
      let lt : c < w.next = (h a c l).0 in omega arith,
      (h a c l).1,
      λ b m. elim (inserted addr b w.next c w.conn_cache m) [
        | inl (s', q') ↦ absurd (ground (arith, (h a c l).0))
        | inr (s', l') ↦ (h a c l).2 b l'
      ],
    )
  ],
  AllBelow-suc w.next w.closed below,
)

module _ {E : Type 0} (dial_failed : E) where
  -- What a call leaves behind: a valid cache that holds the connection it returns.
  abbrev Returned : Bytes → Result E ℕ × ConnPool → Type 0
  Returned addr (r, w) = IsValid w × ((c : ℕ) → r ≡ ok c → lookup addr w.conn_cache ≡ some c)

  dial_lem :
      (dials : Bool) (addr : Bytes) (w : ConnPool)
      → IsValid w
      → lookup addr w.conn_cache ≡ none
      → Returned addr (dial dial_failed dials addr w)
  unfolding dial
  dial_lem false addr w h e = (h, λ c k. cc)
  dial_lem true addr w h e = (
    added-IsValid addr w h e,
    λ c k. ground (arith, lookup-insert addr addr w.next w.conn_cache, same_refl addr),
  )

  or_dial_lem :
      (state : ℕ → ConnState) (dials : Bool) (addr : Bytes) (w : ConnPool) (found : Option ℕ)
      → lookup addr w.conn_cache ≡ found
      → IsValid w
      → Returned addr (or_dial dial_failed (cached state found) dials addr found w)
  unfolding or_dial evict
  or_dial_lem state dials addr w none e h = dial_lem dials addr w h e
  or_dial_lem state dials addr w (some c) e h = by_state (usable (state c))
    where
      by_state :
          (b : Bool)
          → Returned addr (or_dial dial_failed (if b then some c else none) dials addr (some c) w)
      by_state true = (h, λ d k. ground (arith, e))
      by_state false =
          dial_lem dials addr (evict addr (some c) w) (removed-IsValid addr c w h e)
            (ground (arith, lookup-remove addr addr w.conn_cache, same_refl addr))

  create_lem :
      (seen state : ℕ → ConnState) (dials : Bool) (addr : Bytes) (w w' : ConnPool)
      (found : Option ℕ)
      → lookup addr w.conn_cache ≡ found
      → IsValid w
      → IsValid w'
      → Returned addr (or_create dial_failed (cached seen found) state dials addr w w')
  unfolding or_create create_conn
  create_lem seen state dials addr w w' none e h h' =
      or_dial_lem state dials addr w' (lookup addr w'.conn_cache) refl h'
  create_lem seen state dials addr w w' (some c) e h h' = by_state (usable (seen c))
    where
      by_state :
          (b : Bool)
          → Returned addr (or_create dial_failed (if b then some c else none) state dials addr w w')
      by_state true = (h, λ d k. ground (arith, e))
      by_state false = or_dial_lem state dials addr w' (lookup addr w'.conn_cache) refl h'

  -- Let the cache be valid under the read lock and under the write lock: every cached connection
  -- has been dialled, is not closed, and is kept for one address. Then it is valid behind a call of
  -- getOrCreateConn, whatever the states of the connections and however the dial ends, and a
  -- connection that the call returns is the one cached for the address.
  pub get_or_create_conn-IsValid :
      (seen state : ℕ → ConnState) (dials : Bool) (addr : Bytes) (w w' : ConnPool)
      → IsValid w
      → IsValid w'
      → IsValid (get_or_create_conn dial_failed seen state dials addr w w').1
        × ((c : ℕ)
            → (get_or_create_conn dial_failed seen state dials addr w w').0 ≡ ok c
            → lookup addr (get_or_create_conn dial_failed seen state dials addr w w').1.conn_cache
              ≡ some c)
  unfolding get_or_create_conn
  get_or_create_conn-IsValid seen state dials addr w w' h h' =
      create_lem seen state dials addr w w' (lookup addr w.conn_cache) refl h h'
