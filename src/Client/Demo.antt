-- ===== src/Client/Demo.antt =====
-- runKVDemo of cmd/cmd.go: five keys are written to the cluster and read back.
pub mod Answers
pub mod Node
pub mod Follower
pub mod Completes
use raft_example.Prelude.{
  ℕ, zero, suc, ◌+◌, ◌*◌, ◌%◌, ◌≡◌, refl, Bool, true, false, Option, none, some, List, [], ◌∷◌,
  Bytes, same, if◌then◌else◌, ◌==◌, arith, ap, sym, subst, ◌∙◌, length, All,
}
use raft_example.Client.{random_id}

-- The cluster as the client sees it through its stub; `none` is an error of the call.
pub record Cluster : Type 1 where
  pub S : Type 0
  pub add : Bytes → Bytes → S → Option ℕ × S
  pub get : Bytes → Bool → S → Option (Bytes × ℕ) × S
  pub stat : S → Option Bytes × S

-- A line of the second half of the output.
pub record Reading : Type 0 where
  pub linearizable : Bool
  pub key : Bytes
  pub value : Bytes
  pub read_at_index : ℕ

-- The process ends where a call fails.
abbrev pub Demo : Type 0 → Type 0 → Type 0
Demo S A = S → Option A × S

abbrev pub go_on : {S A B : Type 0} → Option A → (A → Demo S B) → Demo S B
go_on none f s = (none, s)
go_on (some a) f s = f a s

infixl 5 ◌>>=◌
abbrev pub ◌>>=◌ : {S A B : Type 0} → Demo S A → (A → Demo S B) → Demo S B
◌>>=◌ m f s = let (r, s') = m s in go_on r f s'

abbrev pub pure : {S A : Type 0} → A → Demo S A
pure a s = (some a, s)

module _ (C : Cluster) where
  unfoldable pub write_keys : List (Bytes × Bytes) → Demo C.S (List Bytes)
  write_keys [] = pure []
  write_keys ((k, v) ∷ pairs) = do
    commit_index ← C.add k v
    keys ← write_keys pairs
    pure (k ∷ keys)

  unfoldable pub read_keys : ℕ → List Bytes → Demo C.S (List Reading)
  read_keys i [] = pure []
  read_keys i (k ∷ keys) = do
    (value, index) ← C.get k (i % 3 == 0)
    readings ← read_keys (i + 1) keys
    pure (
        record { linearizable = i % 3 == 0; key = k; value = value; read_at_index = index }
        ∷ readings)

  -- The loops over drawn pairs, and the statistics.
  unfoldable pub write_and_read : List (Bytes × Bytes) → Demo C.S (List Reading × Bytes)
  unfolding write_keys read_keys
  write_and_read pairs = do
    keys ← write_keys pairs
    readings ← read_keys 0 keys
    stats ← C.stat
    pure (readings, stats)

-- Neither a loop that has not ended nor an id that panics.
drawn_id : Option (Option Bytes) → Option Bytes
drawn_id none = none
drawn_id (some r) = r

pair_up : Option Bytes → Option Bytes → Option (Bytes × Bytes)
pair_up none v = none
pair_up (some k) none = none
pair_up (some k) (some v) = some (k, v)

put_pair : Option (Bytes × Bytes) → Option (List (Bytes × Bytes)) → Option (List (Bytes × Bytes))
put_pair none pairs = none
put_pair (some p) none = none
put_pair (some p) (some pairs) = some (p ∷ pairs)

-- The ids of the loop from its turn `i` on: `random` is the source that each call of randomId has.
unfoldable pub draw_pairs : (ℕ → ℕ → ℕ → Bytes) → ℕ → ℕ → ℕ → Option (List (Bytes × Bytes))
unfolding drawn_id pair_up put_pair
draw_pairs random fuel zero i = some []
draw_pairs random fuel (suc n) i =
    put_pair
      (pair_up (drawn_id (random_id (random (2 * i)) fuel 10))
        (drawn_id (random_id (random (2 * i + 1)) fuel 32)))
      (draw_pairs random fuel n (i + 1))

on_pairs :
    (C : Cluster)
    → C.S
    → Option (List (Bytes × Bytes))
    → Option (Option (List Reading × Bytes) × C.S)
unfolding write_and_read
on_pairs C s none = none
on_pairs C s (some pairs) = some (write_and_read C pairs s)

-- The outer `none` is a draw that has not ended, the inner one an error, which ends the process.
unfoldable pub run_kv_demo :
    (ℕ → ℕ → ℕ → Bytes) → ℕ → (C : Cluster) → C.S → Option (Option (List Reading × Bytes) × C.S)
unfolding on_pairs draw_pairs
run_kv_demo random fuel C s = on_pairs C s (draw_pairs random fuel 5 0)
