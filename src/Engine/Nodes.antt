-- ===== src/Engine/Nodes.antt =====
-- Nodes of engine/kv.go: the servers of the configuration, in the order of their ids.
use raft_example.Prelude.{
  ◌≡◌, refl, subst, Bool, true, false, List, [], ◌∷◌, Bytes, Result, ok, err, if◌then◌else◌, ltb,
  ◌==◌, ◌||◌, ◌&&◌, All, arith,
}
use mathlib.Core.List.{Perm}
use mathlib.Core.List.Perm
use raft_example.Engine.{Server}

-- `<` on strings
unfoldable pub less : Bytes → Bytes → Bool
less [] [] = false
less [] (y ∷ ys) = true
less (x ∷ xs) [] = false
less (x ∷ xs) (y ∷ ys) = ltb x y || x == y && less xs ys

insert_server : Server → List Server → List Server
insert_server s [] = s ∷ []
insert_server s (t ∷ ts) =
    let rest = insert_server s ts in if less t.id s.id then t ∷ rest else s ∷ t ∷ ts

-- `sort.Slice` by the ids, which are different in a configuration of raft.
unfoldable pub sort_by_id : List Server → List Server
unfolding insert_server less
sort_by_id [] = []
sort_by_id (s ∷ servers) = insert_server s (sort_by_id servers)

-- `configuration` is what GetConfiguration gives.
unfoldable pub nodes : Result Bytes (List Server) → Result Bytes (List Server)
unfolding sort_by_id
nodes (err e) = err e
nodes (ok servers) = ok (sort_by_id servers)

less_asym : (xs ys : Bytes) → less xs ys ≡ true → less ys xs ≡ false
unfolding less
less_asym [] [] h = refl
less_asym [] (y ∷ ys) h = refl
less_asym (x ∷ xs) [] h = absurd cc
less_asym (x ∷ xs) (y ∷ ys) h = ground (arith, less_asym xs ys, h)

-- No id stands behind a greater one.
abbrev pub IsSorted : List Server → Type 0
IsSorted [] = Unit
IsSorted (s ∷ servers) = All (λ t. less t.id s.id ≡ false) servers × IsSorted servers

less_trans : (xs ys zs : Bytes) → less ys xs ≡ false → less zs ys ≡ false → less zs xs ≡ false
unfolding less
less_trans [] ys [] h k = refl
less_trans [] ys (z ∷ zs) h k = refl
less_trans (x ∷ xs) [] zs h k = absurd cc
less_trans (x ∷ xs) (y ∷ ys) [] h k = absurd cc
less_trans (x ∷ xs) (y ∷ ys) (z ∷ zs) h k = ground (arith, less_trans xs ys zs, h, k)

insert-perm : (s : Server) (ts : List Server) → Perm (insert_server s ts) (s ∷ ts)
unfolding insert_server
insert-perm s [] = Perm.rfl
insert-perm s (t ∷ ts) = by_test (less t.id s.id) (insert-perm s ts)
  where
    by_test :
        (b : Bool)
        → Perm (insert_server s ts) (s ∷ ts)
        → Perm (if b then t ∷ insert_server s ts else s ∷ t ∷ ts) (s ∷ t ∷ ts)
    by_test true h = Perm.trans (Perm.cons t h) (Perm.swap s t ts)
    by_test false h = Perm.rfl

insert-All :
    (P : Server → Type 0) (s : Server) (ts : List Server)
    → P s
    → All P ts
    → All P (insert_server s ts)
unfolding insert_server
insert-All P s [] h hs = (h, tt)
insert-All P s (t ∷ ts) h (ht, hs) = by_test (less t.id s.id) (insert-All P s ts h hs)
  where
    by_test :
        (b : Bool)
        → All P (insert_server s ts)
        → All P (if b then t ∷ insert_server s ts else s ∷ t ∷ ts)
    by_test true k = (ht, k)
    by_test false k = (h, (ht, hs))

behind-All :
    (s t : Server) (ts : List Server)
    → less t.id s.id ≡ false
    → All (λ u. less u.id t.id ≡ false) ts
    → All (λ u. less u.id s.id ≡ false) ts
behind-All s t [] h hs = tt
behind-All s t (u ∷ ts) h (hu, hs) = (less_trans s.id t.id u.id h hu, behind-All s t ts h hs)

insert-IsSorted : (s : Server) (ts : List Server) → IsSorted ts → IsSorted (insert_server s ts)
unfolding insert_server
insert-IsSorted s [] h = (tt, tt)
insert-IsSorted s (t ∷ ts) (below, h) = by_test (less t.id s.id) refl (insert-IsSorted s ts h)
  where
    by_test :
        (b : Bool)
        → less t.id s.id ≡ b
        → IsSorted (insert_server s ts)
        → IsSorted (if b then t ∷ insert_server s ts else s ∷ t ∷ ts)
    by_test true e k =
        (insert-All (λ u. less u.id t.id ≡ false) s ts (less_asym t.id s.id e) below, k)
    by_test false e k = ((e, behind-All s t ts e below), (below, h))

sort_by_id_lem :
    (servers : List Server) → Perm (sort_by_id servers) servers × IsSorted (sort_by_id servers)
unfolding sort_by_id
sort_by_id_lem [] = (Perm.rfl, tt)
sort_by_id_lem (s ∷ servers) =
    let (perm, sorted) = sort_by_id_lem servers in
    (
      Perm.trans (insert-perm s (sort_by_id servers)) (Perm.cons s perm),
      insert-IsSorted s (sort_by_id servers) sorted,
    )

-- When Nodes returns servers, they are those of the configuration, in another order, and none of
-- them stands behind one with a greater id.
pub nodes-IsSorted :
    (configuration : Result Bytes (List Server)) (sorted : List Server)
    → nodes configuration ≡ ok sorted
    → (servers : List Server) × (configuration ≡ ok servers) × Perm sorted servers × IsSorted sorted
unfolding nodes
nodes-IsSorted (err e) sorted h = absurd cc
nodes-IsSorted (ok servers) sorted h =
    let same_list : sort_by_id servers ≡ sorted = ground arith in
    let (perm, in_order) =
      subst (λ x. Perm x servers × IsSorted x) same_list (sort_by_id_lem servers) in
    (servers, refl, perm, in_order)
