-- ===== src/Fsm/Sizes/Names.antt =====
-- The first name of a path below a directory, for the walk of DirSize in fsm/utils.go.
use raft_example.Prelude.{
  ◌≡◌, refl, ap, ◌⊎◌, inl, inr, Bool, true, false, [], ◌∷◌, Bytes, same, ==_refl, ◌==◌,
  if◌then◌else◌, arith,
}
use raft_example.Fsm.Disk.{slash, join, below, within, is_some, has_slash}

abbrev pub head_name : Bytes → Bytes
head_name [] = []
head_name (c ∷ cs) = let rest = c ∷ head_name cs in if c == slash then [] else rest

pub has_slash-head_name : (r : Bytes) → has_slash (head_name r) ≡ false
has_slash-head_name [] = refl
has_slash-head_name (c ∷ cs) = ground (arith, has_slash-head_name cs)

-- A path is its first name, or goes on behind it.
pub head_name-cases :
    (r : Bytes) → (r ≡ head_name r) ⊎ ((more : Bytes) × (r ≡ join (head_name r) more))
head_name-cases [] = inl refl
head_name-cases (c ∷ cs) = by_slash (c == slash) refl (head_name-cases cs)
  where
    Cases : Bool → Type 0
    Cases b =
        (c ∷ cs ≡ (if b then [] else c ∷ head_name cs))
        ⊎ ((more : Bytes) × (c ∷ cs ≡ join (if b then [] else c ∷ head_name cs) more))

    by_slash :
        (b : Bool)
        → (c == slash) ≡ b
        → (cs ≡ head_name cs) ⊎ ((more : Bytes) × (cs ≡ join (head_name cs) more))
        → Cases b
    by_slash true e k = inr (cs, ground arith)
    by_slash false e (inl k) = inl (ap (λ x. c ∷ x) k)
    by_slash false e (inr (more, k)) = inr (more, ap (λ x. c ∷ x) k)

pub within-head_name : (c r : Bytes) → has_slash c ≡ false → within c r ≡ same c (head_name r)
within-head_name [] [] plain = refl
within-head_name [] (y ∷ ys) plain = ground arith
within-head_name (x ∷ xs) [] plain = refl
within-head_name (x ∷ xs) (y ∷ ys) plain = ground (arith, within-head_name xs ys)

pub within-join_both : (p c r : Bytes) → within (join p c) (join p r) ≡ within c r
within-join_both [] c r = refl
within-join_both (x ∷ p) c r = rw (==_refl x) (within-join_both p c r)

pub below-within : (p c q : Bytes) → within (join p c) q ≡ true → is_some (below p q) ≡ true
below-within [] c [] h = absurd cc
below-within [] c (y ∷ ys) h = ground arith
below-within (x ∷ p) c [] h = absurd cc
below-within (x ∷ p) c (y ∷ ys) h = ground (arith, below-within p c ys)

pub within-deeper : (b p x : Bytes) → within b p ≡ true → within b (join p x) ≡ true
within-deeper [] [] x h = refl
within-deeper [] (y ∷ ys) x h = ground arith
within-deeper (c ∷ b) [] x h = absurd cc
within-deeper (c ∷ b) (y ∷ ys) x h = ground (arith, within-deeper b ys x)
