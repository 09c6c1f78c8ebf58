-- ===== src/Fsm/Disk/Paths.antt =====
-- Paths of names that stand directly in one directory.
use raft_example.Prelude.{
  ℕ, leb, length, ◌+◌, ◌&&◌, Bool, ◌≡◌, refl, false, [], ◌∷◌, Bytes, same, same_refl, same_iff,
  ==_refl, arith, none, some, Option-cases, ap, ◌∙◌, inl, inr, true, if◌then◌else◌,
}
use raft_example.Prelude.Map.{Map, lookup}
use raft_example.Fsm.Disk.{
  Node, children, child_of, join, below, within, prune, prune_last, has_slash,
}

within-name : (a b : Bytes) → has_slash b ≡ false → same a b ≡ false → within a b ≡ false
within-name [] [] plain other = other
within-name [] (y ∷ ys) plain other = ground arith
within-name (x ∷ xs) [] plain other = refl
within-name (x ∷ xs) (y ∷ ys) plain other = ground (arith, within-name xs ys, same_refl xs)

-- Removing one name removes no other.
pub within-join :
    (dir a b : Bytes)
    → has_slash b ≡ false
    → same a b ≡ false
    → within (join dir a) (join dir b) ≡ false
within-join [] a b plain other = within-name a b plain other
within-join (c ∷ dir) a b plain other = rw (==_refl c) (within-join dir a b plain other)

pub within-same : (p q : Bytes) → within p q ≡ false → same p q ≡ false
within-same p q h = ground arith

pub below-join : (dir k : Bytes) → below dir (join dir k) ≡ some k
below-join [] k = refl
below-join (c ∷ dir) k = rw (==_refl c) (below-join dir k)

pub below_lem : (dir q name : Bytes) → below dir q ≡ some name → q ≡ join dir name
below_lem [] [] name h = cc
below_lem [] (y ∷ ys) name h = ground (arith)
below_lem (x ∷ xs) [] name h = cc
below_lem (x ∷ xs) (y ∷ ys) name h = ground (arith, below_lem xs ys name)

pub same-join : (dir a b : Bytes) → same (join dir a) (join dir b) ≡ same a b
same-join [] a b = refl
same-join (c ∷ dir) a b = rw (==_refl c, same-join dir a b)

-- What one entry adds to a listing, for a name that has no slash.
lookup-child_of :
    (dir k q : Bytes) (n : Node) (rest : Map Node)
    → has_slash k ≡ false
    → lookup k (child_of (below dir q) n rest)
      ≡ (if same q (join dir k) then some n else lookup k rest)
unfolding lookup
lookup-child_of dir k q n rest plain = elim (Option-cases (below dir q)) [
  | inl e ↦
      let other : same q (join dir k) ≡ false =
        ground (arith, same_iff q (join dir k), below-join dir k) in
      rw (e, other)
  | inr (name, e) ↦
      rw (e, below_lem dir q name e, same-join dir name k) (ground (arith, same_iff name k))
]

-- A listing finds what stands at the path of a name.
pub lookup-children :
    (dir k : Bytes) (m : Map Node)
    → has_slash k ≡ false
    → lookup k (children dir m) ≡ lookup (join dir k) m
unfolding lookup children
lookup-children dir k [] plain = refl
lookup-children dir k ((q, n) ∷ m) plain =
    lookup-child_of dir k q n (children dir m) plain
    ∙ ap (λ o. if same q (join dir k) then some n else o) (lookup-children dir k m plain)

-- Each path stands once.
unfoldable pub Unique : Map Node → Type 0
Unique [] = Unit
Unique ((k, n) ∷ m) = (lookup k m ≡ none) × Unique m

-- A removal, even one that stops, puts nothing on the disk.
prune_last-none :
    (k : ℕ) (p q : Bytes) (m : Map Node) → lookup q m ≡ none → lookup q (prune_last k p m) ≡ none
unfolding lookup prune_last
prune_last-none k p q [] h = refl
prune_last-none k p q ((r, n) ∷ m) h = ground (arith, prune_last-none k p q m, h)

pub prune_last-Unique : (k : ℕ) (p : Bytes) (m : Map Node) → Unique m → Unique (prune_last k p m)
unfolding Unique prune_last
prune_last-Unique k p [] h = tt
prune_last-Unique k p ((q, n) ∷ m) (fresh, h) =
    by_test (within p q && leb (length m + 1) k) (prune_last-Unique k p m h)
  where
    by_test :
        (b : Bool)
        → Unique (prune_last k p m)
        → Unique (if b then prune_last k p m else (q, n) ∷ prune_last k p m)
    by_test true rest = rest
    by_test false rest = (prune_last-none k p q m fresh, rest)

-- What a removal leaves.
pub lookup-prune :
    (p q : Bytes) (m : Map Node) → lookup q (prune p m) ≡ (if within p q then none else lookup q m)
unfolding lookup prune
lookup-prune p q [] = ground arith
lookup-prune p q ((r, n) ∷ m) = ground (arith, lookup-prune p q m, same_iff r q)

pub prune-Unique : (p : Bytes) (m : Map Node) → Unique m → Unique (prune p m)
unfolding Unique prune
prune-Unique p [] h = tt
prune-Unique p ((q, n) ∷ m) (fresh, h) = by_within (within p q) (prune-Unique p m h)
  where
    by_within :
        (b : Bool) → Unique (prune p m) → Unique (if b then prune p m else (q, n) ∷ prune p m)
    by_within true rest = rest
    by_within false rest = (ground (arith, lookup-prune p q m, fresh), rest)
