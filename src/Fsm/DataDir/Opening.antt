-- ===== src/Fsm/DataDir/Opening.antt =====
-- getPebbleDBDir on a directory that has been in use, when the calls all go through.
pub mod Reopens
use raft_example.Prelude.{
  ◌≡◌, ◌≢◌, refl, sym, ap, ◌∙◌, subst, Bool, Bool-cases, Option, Option-cases, none, some, [], ◌∷◌,
  ◌⊎◌, true, false, inl, inr, Bytes, List, same, same_iff, same_refl, arith, ok, if◌then◌else◌,
}
use raft_example.Prelude.Map.{Map, lookup}
use raft_example.Fsm.Disk.{
  read_file, touch, Node, folder, file, Disk, Exit, done, Io, ◌>>=◌, ◌>>◌, pure, lift, try, stat,
  remove_all, read_dir, syscall, has_slash, join, within, children, below, child_of, prune,
}
use raft_example.Fsm.Disk.Ends.{Ends, bind-Ends, try-Ends, Either, syscall-Ends, read_file-Ends}
use raft_example.Fsm.Disk.Paths.{
  same-join, within-join, within-same, below_lem, lookup-children, lookup-prune, Unique,
}
use raft_example.Fsm.DataDir.{
  current_db_filename, updating_db_filename, running_path, updating_path, parse_pointer,
  get_current_db_dir_name, keep_or_remove, remove_others, cleanup_node_data_dir, is_new_run,
  open_existing, get_pebble_db_dir,
}

-- The names of a listing, none of the folders among which has the name of the pointer file.
Tidy : List (Bytes × Node) → Type 0
Tidy [] = Unit
Tidy ((name, n) ∷ files) =
    (has_slash name ≡ false) × (n ≡ folder → same name current_db_filename ≡ false) × Tidy files

listed-Tidy :
    (name : Bytes) (n : Node) (files : List (Bytes × Node))
    → (n ≡ folder → same name current_db_filename ≡ false)
    → Tidy files
    → Tidy (if has_slash name then files else (name, n) ∷ files)
unfolding Tidy
listed-Tidy name n files other h = by_slash (has_slash name) refl
  where
    by_slash : (b : Bool) → has_slash name ≡ b → Tidy (if b then files else (name, n) ∷ files)
    by_slash true e = h
    by_slash false e = (e, other, h)

child_of-Tidy :
    (dir q : Bytes) (n : Node) (files : List (Bytes × Node))
    → (n ≡ folder → same q (running_path dir) ≡ false)
    → Tidy files
    → Tidy (child_of (below dir q) n files)
child_of-Tidy dir q n files other h = elim (Option-cases (below dir q)) [
  | inl e ↦ rw e h
  | inr (name, e) ↦
      let plain : n ≡ folder → same name current_db_filename ≡ false = λ f.
        sym (same-join dir name current_db_filename)
        ∙ ap (λ x. same x (running_path dir)) (sym (below_lem dir q name e))
        ∙ other f in
      rw e (listed-Tidy name n files plain h)
]

children-Tidy :
    (dir : Bytes) (m : Map Node)
    → Unique m
    → lookup (running_path dir) m ≢ some folder
    → Tidy (children dir m)
unfolding Unique lookup children Tidy
children-Tidy dir [] unique no_folder = tt
children-Tidy dir ((q, n) ∷ m) (fresh, unique) no_folder =
    let apart : n ≡ folder → same q (running_path dir) ≡ false = λ e.
      elim (Bool-cases (same q (running_path dir))) [
        | inl same_path ↦ absurd (no_folder (rw same_path (ap some e)))
        | inr other ↦ other
      ] in
    let later : lookup (running_path dir) m ≢ some folder =
      λ e. no_folder (ground (arith, same_iff q (running_path dir), fresh, e)) in
    child_of-Tidy dir q n (children dir m) (λ e. apart e) (children-Tidy dir m unique later)

absent-prune :
    (p q : Bytes) (m : Map Node)
    → (lookup q m ≢ some folder) ⊎ (same p q ≡ true)
    → lookup q (prune p m) ≢ some folder
absent-prune p q m (inl gone) e = gone (ground (arith, lookup-prune p q m))
absent-prune p q m (inr s) e = ground (arith, lookup-prune p q m)

module _ (md5 : Bytes → Bytes) (dir target content : Bytes) (plain : has_slash target ≡ false)
    (other_file : same current_db_filename target ≡ false)
    (parsed : parse_pointer md5 content ≡ ok (join dir target)) where
  -- No call is to fail, and pebble.running names the folder of the database, which is there.
  abbrev pub Live : Disk → Type 0
  Live d =
      (d.plan ≡ [])
      × (lookup (running_path dir) d.nodes ≡ some (file content))
      × (lookup (join dir target) d.nodes ≡ some folder)

  abbrev pub Goes : {A : Type 0} → (A → Disk → Type 0) → Exit A × Disk → Type 0
  Goes = Ends (λ _. ⊥) (λ _. ⊥)

  module _ (k : Bytes) (others : same k target ≡ false) where
    abbrev NoFolder : Disk → Type 0
    NoFolder d = lookup (join dir k) d.nodes ≢ some folder

    -- One folder of the listing: it stays if it is the database's, and a removal brings nothing back.
    abbrev Stepped : Bytes → Disk → Disk → Type 0
    Stepped name d d' = Live d' × (NoFolder d ⊎ (same name k ≡ true) → NoFolder d')

    removed-Goes :
        (name : Bytes) (d : Disk)
        → same name target ≡ false
        → same name current_db_filename ≡ false
        → Live d
        → Goes (λ (u : Unit {0}). Stepped name d) (remove_all (join dir name) d)
    unfolding remove_all syscall
    removed-Goes name d other apart (p, r, t) = rw p (
      (
        refl,
        rw (lookup-prune, within-join dir name current_db_filename refl apart) r,
        rw (lookup-prune, within-join dir name target plain other) t,
      ),
      λ h.
          absent-prune (join dir name) (join dir k) d.nodes
            (elim h [ inl gone ↦ inl gone | inr e ↦ inr (same-join dir name k ∙ e) ]),
    )

    step-Goes :
        (name : Bytes) (d : Disk)
        → same name current_db_filename ≡ false
        → Live d
        → Goes
            (λ (u : Unit {0}). Stepped name d)
            (keep_or_remove md5 (join dir target) (join dir name) folder d)
    unfolding keep_or_remove
    step-Goes name d apart live = elim (Bool-cases (same name target)) [
      | inl e ↦
          rw (same-join dir name target, e)
            (
              live,
              λ h. elim h [
                | inl gone ↦ gone
                | inr e' ↦ absurd (
                    ground
                      (arith, same_iff name target, same_iff name k, same_refl k, e, e', others))
              ],
            )
      | inr e ↦ rw (same-join dir name target, e) (removed-Goes name d e apart live)
    ]

    -- No folder of the listing but the database's is left.
    remove_others-Goes :
        (files : List (Bytes × Node)) (d : Disk)
        → Tidy files
        → Live d
        → NoFolder d ⊎ (lookup k files ≡ some folder)
        → Goes
            (λ (u : Unit {0}) d'. Live d' × NoFolder d')
            (remove_others md5 dir (join dir target) files d)
    unfolding remove_others Tidy lookup
    remove_others-Goes [] d tidy live h = (live, elim h [ inl gone ↦ gone | inr e ↦ absurd (cc) ])
    remove_others-Goes ((name, file b) ∷ files) d (slash_free, other, tidy) live h =
        remove_others-Goes files d tidy live
          (elim h [ inl gone ↦ inl gone | inr e ↦ inr (ground (arith, e)) ])
    remove_others-Goes ((name, folder) ∷ files) d (slash_free, other, tidy) live h =
        bind-Ends (λ _. ⊥) (λ _. ⊥) (keep_or_remove md5 (join dir target) (join dir name) folder)
          (λ _. remove_others md5 dir (join dir target) files) (λ (u : Unit {0}). Stepped name d)
          (λ (u : Unit {0}) d'. Live d' × NoFolder d') d (step-Goes name d (other refl) live)
          (λ u d' (live', still). remove_others-Goes files d' tidy live' (elim h [
            | inl gone ↦ inl (still (inl gone))
            | inr e ↦ elim (Bool-cases (same name k)) [
              | inl s ↦ inl (still (inr s))
              | inr s ↦ inr (ground (arith, e, s))
            ]
          ]))

  pub current_lem :
      (d : Disk)
      → Live d
      → get_current_db_dir_name md5 dir d ≡ (done (join dir target), record d { plan = [] })
  unfolding get_current_db_dir_name read_file syscall touch
  current_lem d (p, r, t) = rw (p, r, parsed) refl

  read_dir_lem :
      (d : Disk) → Live d → read_dir dir d ≡ (done (children dir d.nodes), record d { plan = [] })
  unfolding read_dir syscall
  read_dir_lem d (p, r, t) = rw p refl

  pub stat_lem :
      (q : Bytes) (n : Node) (d : Disk)
      → d.plan ≡ []
      → lookup q d.nodes ≡ some n
      → stat q d ≡ (done n, record d { plan = [] })
  unfolding stat syscall
  stat_lem q n d p e = rw (p, e) refl

  node_cases : (o : Option Node) → (o ≢ some folder) ⊎ (o ≡ some folder)
  node_cases none = inl (λ e. cc)
  node_cases (some folder) = inr refl
  node_cases (some (file b)) = inl (λ e. cc)

  module _ (k : Bytes) (others : same k target ≡ false) (slash_free : has_slash k ≡ false) where
    abbrev pub Cleared : Disk → Type 0
    Cleared d = Live d × (lookup (join dir k) d.nodes ≢ some folder)

    pub listed-Goes :
        (d : Disk)
        → Live d
        → Unique d.nodes
        → Goes
            (λ (u : Unit {0}). Cleared)
            ((get_current_db_dir_name md5 dir >>= λ dbdir.
                read_dir dir >>= remove_others md5 dir dbdir)
              d)
    listed-Goes d live unique =
        let e : Disk = record d { plan = [] } in
        let held : Live e = (refl, live.1, live.2) in
        let no_folder : lookup (running_path dir) d.nodes ≢ some folder = λ w. cc (w, live.1) in
        rw (current_lem d live, read_dir_lem e held)
          (remove_others-Goes k others (children dir d.nodes) e
            (children-Tidy dir d.nodes unique no_folder) held
            (elim (node_cases (lookup (join dir k) d.nodes)) [
              | inl absent ↦ inl absent
              | inr there ↦ inr (lookup-children dir k d.nodes slash_free ∙ there)
            ]))
