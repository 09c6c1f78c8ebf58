-- ===== src/Fsm/Sizes/Sums.antt =====
-- Sums over lists, and the one entry of a listing that a name picks.
use raft_example.Prelude.{
  ℕ, ◌+◌, ◌≡◌, refl, sym, ap, ◌∙◌, Bool, true, false, Option, none, some, List, [], ◌∷◌, Bytes,
  same, same_iff, if◌then◌else◌, All, arith,
}
use raft_example.Prelude.Map.{lookup}
use raft_example.Fsm.Disk.{Node}
use raft_example.Fsm.Disk.Paths.{Unique}

module _ {A : Type 0} where
  abbrev pub sum_over : (A → ℕ) → List A → ℕ
  sum_over f [] = 0
  sum_over f (x ∷ xs) = f x + sum_over f xs

  sum_over_zero : (xs : List A) → sum_over (λ x. 0) xs ≡ 0
  sum_over_zero [] = refl
  sum_over_zero (x ∷ xs) = omega (arith, sum_over_zero xs)

  sum_over_plus :
      (f g : A → ℕ) (xs : List A) → sum_over (λ x. f x + g x) xs ≡ sum_over f xs + sum_over g xs
  sum_over_plus f g [] = refl
  sum_over_plus f g (x ∷ xs) = omega (arith, sum_over_plus f g xs)

  pub sum_over_same :
      (f g : A → ℕ) (xs : List A) → All (λ x. f x ≡ g x) xs → sum_over f xs ≡ sum_over g xs
  sum_over_same f g [] h = refl
  sum_over_same f g (x ∷ xs) (h, hs) = omega (arith, h, sum_over_same f g xs hs)

  pub sum_over_none : (f : A → ℕ) (xs : List A) → All (λ x. f x ≡ 0) xs → sum_over f xs ≡ 0
  sum_over_none f xs h = sum_over_same f (λ x. 0) xs h ∙ sum_over_zero xs

module _ {A B : Type 0} where
  pub sum_over_exchange :
      (f : A → B → ℕ) (xs : List A) (ys : List B)
      → sum_over (λ x. sum_over (f x) ys) xs ≡ sum_over (λ y. sum_over (λ x. f x y) xs) ys
  sum_over_exchange f xs [] = sum_over_zero xs
  sum_over_exchange f xs (y ∷ ys) =
      sum_over_plus (λ x. f x y) (λ x. sum_over (f x) ys) xs
      ∙ ap (λ n. sum_over (λ x. f x y) xs + n) (sum_over_exchange f xs ys)

abbrev pub pick : Option Node → ℕ → ℕ
pick none w = 0
pick (some n) w = w

-- Where names stand once, a sum that counts one name only counts it once.
pub sum_over-pick :
    (h : Bytes) (w : ℕ) (cs : List (Bytes × Node))
    → Unique cs
    → sum_over (λ c. if same c.0 h then w else 0) cs ≡ pick (lookup h cs) w
unfolding Unique lookup
sum_over-pick h w [] u = refl
sum_over-pick h w ((k, n) ∷ cs) (fresh, u) =
    by_same (same k h) (λ e. ap (λ j. lookup j cs) (sym ((same_iff k h).0 e)) ∙ fresh)
      (sum_over-pick h w cs u)
  where
    by_same :
        (b : Bool)
        → (b ≡ true → lookup h cs ≡ none)
        → sum_over (λ c. if same c.0 h then w else 0) cs ≡ pick (lookup h cs) w
        → (if b then w else 0) + sum_over (λ c. if same c.0 h then w else 0) cs
          ≡ pick (if b then some n else lookup h cs) w
    by_same true gone k = let e = k ∙ ap (λ o. pick o w) (gone refl) in omega (arith, e)
    by_same false gone k = omega (arith, k)
