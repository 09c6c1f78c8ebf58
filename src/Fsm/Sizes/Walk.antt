-- ===== src/Fsm/Sizes/Walk.antt =====
-- `filepath.Walk` over a tree that stands still, as DirSize of fsm/utils.go uses it, and the sum that
-- it makes.
use raft_example.Prelude.{
  ℕ, suc, zero, ◌+◌, ◌%◌, ◌^◌, ◌≤◌, ◌≡◌, refl, sym, ap, ◌∙◌, inl, inr, true, some, Option-cases,
  List, [], ◌∷◌, ◌++◌, Bytes, ok, length, length-append, All, arith, same_refl,
}
use raft_example.Prelude.Map.{Map, lookup}
use raft_example.Fsm.Disk.{Node, folder, file, slash, join, below, within, is_some, children}
use raft_example.Fsm.Disk.Paths.{Unique, below_lem, lookup-children}
use raft_example.Fsm.Sizes.{
  Visit, walked, failed, passed_over, size_of, total_size, dir_size, dir_size_from, IsHarmless,
}
use raft_example.Fsm.Sizes.Names.{below-within, within-deeper}
use raft_example.Fsm.Sizes.Children.{
  All-weaken, IsPlain, children-IsPlain, children-Unique, IsFoundIn, Unique-IsFoundIn,
}
use raft_example.Fsm.Sizes.Sums.{sum_over, sum_over_none}
use raft_example.Fsm.Sizes.Tree.{weight, files_within, IsTree, outside_weight, folder_sum, file_sum}

abbrev pub each : (Bytes → Node → List Visit) → List (Bytes × Node) → List Visit
each f [] = []
each f ((name, n) ∷ cs) = f name n ++ each f cs

-- The calls for a node at a path: for it, and for what stands below it. The order of the names in a
-- folder makes no difference to a sum. The fuel is the length of the longest path below.
unfoldable pub walk : ℕ → Map Node → Bytes → Node → List Visit
walk zero m p n = walked n ∷ []
walk (suc fuel) m p (file b) = walked (file b) ∷ []
walk (suc fuel) m p folder =
    walked folder ∷ each (λ name n. walk fuel m (join p name) n) (children p m)

total_size_append : (vs ws : List Visit) → total_size (vs ++ ws) ≡ total_size vs + total_size ws
total_size_append [] ws = omega arith
total_size_append (failed e ∷ vs) ws = total_size_append vs ws
total_size_append (walked n ∷ vs) ws = omega (arith, total_size_append vs ws)

total_size_each :
    (f : Bytes → Node → List Visit) (g : Bytes × Node → ℕ) (cs : List (Bytes × Node))
    → All (λ c. total_size (f c.0 c.1) ≡ g c) cs
    → total_size (each f cs) ≡ sum_over g cs
total_size_each f g [] h = refl
total_size_each f g ((name, n) ∷ cs) (h, hs) =
    omega (arith, total_size_append (f name n) (each f cs), h, total_size_each f g cs hs)

IsHarmless-append :
    (vs ws : List Visit) → All IsHarmless vs → All IsHarmless ws → All IsHarmless (vs ++ ws)
IsHarmless-append [] ws h k = k
IsHarmless-append (v ∷ vs) ws (h, hs) k = (h, IsHarmless-append vs ws hs k)

each-IsHarmless :
    (f : Bytes → Node → List Visit) (cs : List (Bytes × Node))
    → ((name : Bytes) (n : Node) → All IsHarmless (f name n))
    → All IsHarmless (each f cs)
each-IsHarmless f [] h = tt
each-IsHarmless f ((name, n) ∷ cs) h =
    IsHarmless-append (f name n) (each f cs) (h name n) (each-IsHarmless f cs h)

walk-IsHarmless :
    (fuel : ℕ) (m : Map Node) (p : Bytes) (n : Node) → All IsHarmless (walk fuel m p n)
unfolding walk
walk-IsHarmless zero m p n = (tt, tt)
walk-IsHarmless (suc fuel) m p (file b) = (tt, tt)
walk-IsHarmless (suc fuel) m p folder = (
  tt,
  each-IsHarmless (λ name n. walk fuel m (join p name) n) (children p m)
      (λ name n. walk-IsHarmless fuel m (join p name) n),
)

-- With no other error DirSize goes to the end.
dir_size_from_ends :
    (vs : List Visit) (acc size : ℕ)
    → size ≡ acc % 2 ^ 64
    → All IsHarmless vs
    → dir_size_from size vs ≡ ok ((acc + total_size vs) % 2 ^ 64)
unfolding dir_size_from passed_over
dir_size_from_ends [] acc size e h = ap ok (omega arith)
dir_size_from_ends (walked folder ∷ vs) acc size e (h, hs) =
    dir_size_from_ends vs acc size e hs ∙ ap ok (omega arith)
dir_size_from_ends (walked (file b) ∷ vs) acc size e (h, hs) =
    dir_size_from_ends vs (acc + length b) ((size + length b) % 2 ^ 64) (omega arith) hs
    ∙ ap ok (omega arith)
dir_size_from_ends (failed x ∷ vs) acc size e (h, hs) = rw h (dir_size_from_ends vs acc size e hs)

module _ (base : Bytes) (m : Map Node) (unique : Unique m) (tree : IsTree base m) where
  -- No path at `p` or below it is longer than `p` by more than the fuel.
  abbrev pub IsShort : ℕ → Bytes → Bytes × Node → Type 0
  IsShort fuel p e = within p e.0 ≡ true → length e.0 ≤ length p + fuel

  longer : (p rest : Bytes) → length (join p rest) ≡ length p + suc (length rest)
  longer p rest = length-append p (slash ∷ rest)

  child-IsShort :
      (fuel : ℕ) (p : Bytes) (c e : Bytes × Node)
      → IsShort (suc fuel) p e
      → IsShort fuel (join p c.0) e
  child-IsShort fuel p (k, n') (q, n) short inside =
      let below_p : is_some (below p q) ≡ true = below-within p k q inside in
      let within_p : within p q ≡ true = ground arith in omega (arith, short within_p, longer p k)

  leaf_weight :
      (p : Bytes) (e : Bytes × Node)
      → lookup p m ≡ some folder
      → IsShort 0 p e
      → IsFoundIn m e
      → weight p e ≡ 0
  leaf_weight p (q, n) there short found = elim (Option-cases (below p q)) [
    | inl outside ↦ outside_weight base m unique tree p there (q, n) outside found
    | inr (rest, e) ↦ absurd (
        let within_p : within p q ≡ true = ground arith in
        let path : length q ≡ length (join p rest) = ap length (below_lem p q rest e) in
        omega (arith, short within_p, path, longer p rest))
  ]

  All-both :
      (P Q R : Bytes × Node → Type 0) (es : Map Node)
      → ((e : Bytes × Node) → P e → Q e → R e)
      → All P es
      → All Q es
      → All R es
  All-both P Q R [] f h k = tt
  All-both P Q R (e ∷ es) f (h, hs) (k, ks) = (f e h k, All-both P Q R es f hs ks)

  leaf_sum :
      (p : Bytes) (n : Node)
      → within base p ≡ true
      → lookup p m ≡ some n
      → All (IsShort 0 p) m
      → size_of n ≡ files_within p m
  leaf_sum p (file b) inside there short = sym (file_sum base m unique tree p b inside there)
  leaf_sum p folder inside there short = sym (
      sum_over_none (weight p) m (
        All-both (IsShort 0 p) (IsFoundIn m) _ m (λ e s found. leaf_weight p e there s found) short
          (Unique-IsFoundIn m unique)))

  child_there :
      (p : Bytes) (c : Bytes × Node)
      → IsPlain c
      → IsFoundIn (children p m) c
      → lookup (join p c.0) m ≡ some c.1
  child_there p (k, n) plain found = sym (lookup-children p k m plain) ∙ found

  walk_total :
      (fuel : ℕ) (p : Bytes) (n : Node)
      → within base p ≡ true
      → lookup p m ≡ some n
      → All (IsShort fuel p) m
      → total_size (walk fuel m p n) ≡ files_within p m
  unfolding walk
  walk_total zero p n inside there short =
      let e = leaf_sum p n inside there short in omega (arith, e)
  walk_total (suc fuel) p (file b) inside there short =
      let e = file_sum base m unique tree p b inside there in omega (arith, e)
  walk_total (suc fuel) p folder inside there short =
      let below_it =
        total_size_each (λ name n. walk fuel m (join p name) n) (λ c. files_within (join p c.0) m)
          (children p m)
          (All-both IsPlain (IsFoundIn (children p m)) _ (children p m)
            (λ c plain found.
              walk_total fuel (join p c.0) c.1 (within-deeper base p c.0 inside)
                (child_there p c plain found)
                (All-weaken (IsShort (suc fuel) p) (IsShort fuel (join p c.0)) m
                  (λ e s. child-IsShort fuel p c e s) short))
            (children-IsPlain p m)
            (Unique-IsFoundIn (children p m) (children-Unique p m unique))) in
      let all = folder_sum base m unique tree p there inside in omega (arith, below_it, all)

  -- Let the paths of a still file system stand once each, and each path at or below the directory
  -- that has a path below it be a folder. DirSize of what stands at the directory returns, without
  -- an error, the sum of the sizes of all files at its path or below it, in 64 bits.
  pub dir_size-files_within :
      (fuel : ℕ) (n : Node)
      → lookup base m ≡ some n
      → All (IsShort fuel base) m
      → dir_size (walk fuel m base n) ≡ ok (files_within base m % 2 ^ 64)
  unfolding dir_size
  dir_size-files_within fuel n there short =
      let here : within base base ≡ true = ground (arith, same_refl base) in
      dir_size_from_ends (walk fuel m base n) 0 0 refl (walk-IsHarmless fuel m base n)
      ∙ ap (λ x. ok (x % 2 ^ 64)) (omega (arith, walk_total fuel base n here there short))
