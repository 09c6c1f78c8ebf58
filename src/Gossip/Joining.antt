-- ===== src/Gossip/Joining.antt =====
-- gossip/gossip.go: what a node tells the others of itself, and the goroutine of New that joins the
-- seeds.
use raft_example.Prelude.{
  ℕ, zero, suc, ◌≡◌, ◌≢◌, ◌≤◌, refl, Bool, true, false, Option, some, [], ◌∷◌, Bytes, arith, length,
  if◌then◌else◌, ◌==◌, same_refl, ◌+◌, ◌*◌,
}
use raft_example.Prelude.Map.{lookup-insert}
use raft_example.Gossip.{NodeMeta, Gossip, joined, notify_join, addr_of, get_grpc_addr}

-- `NodeMeta` of the delegate, with the bytes of `json.Marshal`.
unfoldable pub node_meta : (NodeMeta → Bytes) → Gossip → Bytes
node_meta marshal g = marshal g.local_meta

-- How the attempts end: after how many, after how many seconds of waiting, and whether one has
-- joined.
pub record Joining : Type 0 where
  pub attempts : ℕ
  pub waited : ℕ
  pub has_joined : Bool

join_from : (ℕ → Bool) → ℕ → ℕ → ℕ → Joining
join_from succeeds zero i waited = record { attempts = i; waited = waited; has_joined = false }
join_from succeeds (suc left) i waited =
    let rest = join_from succeeds left (i + 1) (waited + (i + 1)) in
    if succeeds i then record { attempts = i + 1; waited = waited; has_joined = true } else rest

-- `succeeds i` says whether the attempt `i`, from 0, goes through.
unfoldable pub join_attempts : (ℕ → Bool) → Joining
unfolding join_from
join_attempts succeeds = join_from succeeds 5 0 0

join_from_lem :
    (succeeds : ℕ → Bool) (left i waited : ℕ)
    → i + left ≤ 5
    → waited + 5 * left ≤ 25
    → ((join_from succeeds left i waited).attempts ≤ 5)
      × ((join_from succeeds left i waited).waited ≤ 25)
unfolding join_from
join_from_lem succeeds zero i waited h k = (omega (arith, h), omega (arith, k))
join_from_lem succeeds (suc left) i waited h k = by_test (succeeds i) (
    join_from_lem succeeds left (i + 1) (waited + (i + 1)) (omega (arith, h)) (omega (arith, h, k)))
  where
    rest : Joining
    rest = join_from succeeds left (i + 1) (waited + (i + 1))

    Chosen : Bool → Joining
    Chosen b = if b then record { attempts = i + 1; waited = waited; has_joined = true } else rest

    by_test :
        (b : Bool)
        → (rest.attempts ≤ 5) × (rest.waited ≤ 25)
        → ((Chosen b).attempts ≤ 5) × ((Chosen b).waited ≤ 25)
    by_test true r = (omega (arith, h), omega (arith, k))
    by_test false r = r

-- There are at most five attempts, with at most 25 seconds between them.
pub join_attempts-bounds :
    (succeeds : ℕ → Bool)
    → ((join_attempts succeeds).attempts ≤ 5) × ((join_attempts succeeds).waited ≤ 25)
unfolding join_attempts
join_attempts-bounds succeeds = join_from_lem succeeds 5 0 0 (omega arith) (omega arith)

zero_length : (xs : Bytes) → xs ≢ [] → (length xs == 0) ≡ false
zero_length [] h = absurd (h refl)
zero_length (x ∷ xs) h = ground arith

module _ (marshal : NodeMeta → Bytes) (unmarshal : Bytes → Option NodeMeta)
    (reads_back : (m : NodeMeta) → unmarshal (marshal m) ≡ some m)
    (nonempty : (m : NodeMeta) → marshal m ≢ []) where
  -- A node that hears of another by the other's own metadata knows its address.
  pub notify_join-node_meta :
      (g h : Gossip)
      → get_grpc_addr g.local_meta.node_id (notify_join unmarshal (node_meta marshal g) h).0
        ≡ some g.local_meta.grpc_addr
  unfolding node_meta notify_join joined get_grpc_addr addr_of
  notify_join-node_meta g h =
      rw (reads_back g.local_meta, zero_length (marshal g.local_meta) (nonempty g.local_meta))
        (rw (lookup-insert, same_refl g.local_meta.node_id) refl)
