-- ===== src/Fsm/Sizes/Tree.antt =====
-- DirSize of fsm/utils.go over a tree that stands still while it is walked.
use raft_example.Prelude.{
  ℕ, ◌≡◌, refl, sym, ap, ◌∙◌, inl, inr, Bool, true, false, ◌||◌, none, some, Option-cases,
  Bool-cases, ◌∷◌, append_assoc, Bytes, same, same_iff, same_sym, if◌then◌else◌, length, arith,
}
use raft_example.Prelude.Map.{Map, lookup}
use raft_example.Fsm.Disk.{Node, folder, file, slash, join, below, within, is_some, children}
use raft_example.Fsm.Disk.Paths.{Unique, below_lem, lookup-children}
use raft_example.Fsm.Sizes.{size_of}
use raft_example.Fsm.Sizes.Names.{
  head_name, has_slash-head_name, head_name-cases, within-head_name, within-join_both, below-within,
  within-deeper,
}
use raft_example.Fsm.Sizes.Children.{
  All-weaken, IsPlain, children-IsPlain, children-Unique, IsFoundIn, Unique-IsFoundIn,
}
use raft_example.Fsm.Sizes.Sums.{
  sum_over, sum_over_same, sum_over_none, sum_over_exchange, pick, sum_over-pick,
}

-- The size that an entry adds to a path: its own, if it stands there or below.
abbrev pub weight : Bytes → Bytes × Node → ℕ
weight p e = if within p e.0 then size_of e.1 else 0

-- The sizes of the files at a path and below it, read off the flat list of the paths.
abbrev pub files_within : Bytes → Map Node → ℕ
files_within p m = sum_over (weight p) m

-- What has a path below it is a folder.
abbrev pub IsTree : Bytes → Map Node → Type 0
IsTree base m =
    (a r : Bytes) (n : Node)
    → within base a ≡ true
    → lookup (join a r) m ≡ some n
    → lookup a m ≡ some folder

size_of_folder : (n : Node) → some n ≡ some folder → size_of n ≡ 0
size_of_folder folder h = refl
size_of_folder (file b) h = absurd cc

module _ (base : Bytes) (m : Map Node) (unique : Unique m) (tree : IsTree base m) where
  module _ (p : Bytes) (there : lookup p m ≡ some folder) where
    -- An entry that is not below the folder.
    pub outside_weight : (e : Bytes × Node) → below p e.0 ≡ none → IsFoundIn m e → weight p e ≡ 0
    outside_weight (q, n) outside found = by_same (same p q) refl
      where
        by_same :
            (b : Bool) → same p q ≡ b → (if b || is_some (below p q) then size_of n else 0) ≡ 0
        by_same true e =
            size_of_folder n (sym found ∙ ap (λ x. lookup x m) (sym ((same_iff p q).0 e)) ∙ there)
        by_same false e = rw outside refl

    outside_child : (e c : Bytes × Node) → below p e.0 ≡ none → weight (join p c.0) e ≡ 0
    outside_child (q, n) (k, n') outside = elim (Bool-cases (within (join p k) q)) [
      | inl inside ↦ absurd (let h = below-within p k q inside in ground arith)
      | inr not_inside ↦ rw not_inside refl
    ]

    -- An entry below the folder is below the one child that has its first name.
    child_found :
        (rest : Bytes) (n : Node)
        → within base p ≡ true
        → lookup (join p rest) m ≡ some n
        → (n' : Node) × (lookup (join p (head_name rest)) m ≡ some n')
    child_found rest n inside found = elim (head_name-cases rest) [
      | inl whole ↦ (n, ap (λ r. lookup (join p r) m) (sym whole) ∙ found)
      | inr (more, goes_on) ↦ (
        folder,
        tree (join p (head_name rest)) more n (within-deeper base p (head_name rest) inside) (
            ap (λ x. lookup x m)
              (append_assoc p (slash ∷ head_name rest) (slash ∷ more)
                ∙ ap (λ r. join p r) (sym goes_on))
            ∙ found),
      )
    ]

    inside_child :
        (rest : Bytes) (n : Node) (c : Bytes × Node)
        → IsPlain c
        → weight (join p c.0) (join p rest, n)
          ≡ (if same c.0 (head_name rest) then size_of n else 0)
    inside_child rest n (k, n') plain =
        rw (within-join_both p k rest, within-head_name k rest plain) refl

    inside_weight :
        (rest : Bytes) (n : Node)
        → within base p ≡ true
        → lookup (join p rest) m ≡ some n
        → sum_over (λ c. weight (join p c.0) (join p rest, n)) (children p m) ≡ size_of n
    inside_weight rest n inside found =
        let name = head_name rest in
        let (n', e) = child_found rest n inside found in
        sum_over_same (λ c. weight (join p c.0) (join p rest, n))
          (λ c. if same c.0 name then size_of n else 0) (children p m)
          (All-weaken IsPlain _ (children p m) (λ c plain. inside_child rest n c plain)
            (children-IsPlain p m))
        ∙ sum_over-pick name (size_of n) (children p m) (children-Unique p m unique)
        ∙ ap (λ o. pick o (size_of n)) (lookup-children p name m (has_slash-head_name rest) ∙ e)

    -- Each entry counts for the folder as often as for its children.
    entry_weight :
        (e : Bytes × Node)
        → within base p ≡ true
        → IsFoundIn m e
        → sum_over (λ c. weight (join p c.0) e) (children p m) ≡ weight p e
    entry_weight (q, n) inside found = elim (Option-cases (below p q)) [
      | inl outside ↦
          sum_over_none (λ c. weight (join p c.0) (q, n)) (children p m)
            (All-weaken IsPlain _ (children p m) (λ c plain. outside_child (q, n) c outside)
              (children-IsPlain p m))
          ∙ sym (outside_weight (q, n) outside found)
      | inr (rest, e) ↦
          let path : q ≡ join p rest = below_lem p q rest e in
          let here : (if same p q || is_some (below p q) then size_of n else 0) ≡ size_of n =
            ground arith in
          ap (λ x. sum_over (λ c. weight (join p c.0) (x, n)) (children p m)) path
          ∙ inside_weight rest n inside (ap (λ x. lookup x m) (sym path) ∙ found)
          ∙ sym here
    ]

    pub folder_sum :
        within base p ≡ true
        → sum_over (λ c. files_within (join p c.0) m) (children p m) ≡ files_within p m
    folder_sum inside =
        sum_over_exchange (λ c e. weight (join p c.0) e) (children p m) m
        ∙ sum_over_same (λ e. sum_over (λ c. weight (join p c.0) e) (children p m)) (weight p) m
            (All-weaken (IsFoundIn m) _ m (λ e found. entry_weight e inside found)
              (Unique-IsFoundIn m unique))

  -- Nothing is below a file.
  file_weight :
      (p b : Bytes) (e : Bytes × Node)
      → within base p ≡ true
      → lookup p m ≡ some (file b)
      → IsFoundIn m e
      → weight p e ≡ (if same e.0 p then length b else 0)
  file_weight p b (q, n) inside there found = elim (Option-cases (below p q)) [
    | inl outside ↦ by_same (same p q) refl outside
    | inr (rest, e) ↦ absurd (
        let folder_there =
          tree p rest n inside (ap (λ x. lookup x m) (sym (below_lem p q rest e)) ∙ found) in
        let wrong : some (file b) ≡ some folder = sym there ∙ folder_there in cc)
  ]
    where
      by_same :
          (c : Bool)
          → same p q ≡ c
          → below p q ≡ none
          → (if same p q || is_some (below p q) then size_of n else 0)
            ≡ (if same q p then length b else 0)
      by_same true e outside =
          let same_node : some n ≡ some (file b) =
            sym found ∙ ap (λ x. lookup x m) (sym ((same_iff p q).0 e)) ∙ there in
          let node : n ≡ file b = ground arith in rw (same_sym q p, e, node) refl
      by_same false e outside = rw (same_sym q p, e, outside) refl

  pub file_sum :
      (p b : Bytes)
      → within base p ≡ true
      → lookup p m ≡ some (file b)
      → files_within p m ≡ length b
  file_sum p b inside there =
      sum_over_same (weight p) (λ e. if same e.0 p then length b else 0) m
        (All-weaken (IsFoundIn m) _ m (λ e found. file_weight p b e inside there found)
          (Unique-IsFoundIn m unique))
      ∙ sum_over-pick p (length b) m unique
      ∙ ap (λ o. pick o (length b)) there
