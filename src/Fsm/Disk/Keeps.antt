-- ===== src/Fsm/Disk/Keeps.antt =====
-- What a call of the file system leaves alone, wherever it ends: by a result, an error, or a crash.
use raft_example.Prelude.{
  ℕ, ◌≡◌, refl, ◌∙◌, Bool, true, false, Option, none, some, Bytes, arith, same, same_iff,
  if◌then◌else◌, Result, ok, err, or_error, [], ◌∷◌,
}
use raft_example.Prelude.Map.{Map, lookup, insert, remove, lookup-insert, lookup-remove}
use raft_example.Fsm.Errors.{StoreError, not_exist}
use raft_example.Fsm.Disk.{
  Node, file, folder, make_dir, Fate, passes, fails, crashes, Disk, caught, next_fate, meets,
  within, prune, prune_last, move_node, file_of, Exit, done, error, panicked, crashed, Io, continue,
  ◌>>=◌, pure, throw, try, lift, panic, syscall, stat, touch, create, write, read_file, rename,
  remove_all, read_dir,
}

-- `m` keeps what is at the path `p`.
pub record Keeps {A : Type 0} (p : Bytes) (m : Io A) : Type 0 where
  pub at : (d : Disk) → lookup p (m d).1.nodes ≡ lookup p d.nodes

module _ {A : Type 0} {p : Bytes} where
  pub Keeps-pure : (a : A) → Keeps p (pure a)
  Keeps-pure a = record { at = λ d. refl }

  pub Keeps-throw : (e : StoreError) → Keeps p (throw {A = A} e)
  Keeps-throw e = record { at = λ d. refl }

  pub Keeps-panic : Keeps {A = A} p panic
  Keeps-panic = record { at = λ d. refl }

  pub Keeps-lift : (r : Result StoreError A) → Keeps p (lift r)
  Keeps-lift (ok a) = Keeps-pure a
  Keeps-lift (err e) = Keeps-throw e

  pub Keeps-if : (b : Bool) (m n : Io A) → Keeps p m → Keeps p n → Keeps p (if b then m else n)
  Keeps-if true m n hm hn = hm
  Keeps-if false m n hm hn = hn

  pub Keeps-try : (m : Io A) → Keeps p m → Keeps p (try m)
  Keeps-try m h = record { at = λ d. caught_keeps (m d).0 (m d).1 ∙ h.at d }
    where
      caught_keeps : (r : Exit A) (d : Disk) → lookup p (caught r d).1.nodes ≡ lookup p d.nodes
      caught_keeps (done a) d = refl
      caught_keeps (error e) d = refl
      caught_keeps panicked d = refl
      caught_keeps crashed d = refl

module _ {A B : Type 0} {p : Bytes} where
  Keeps-continue : (r : Exit A) (f : A → Io B) → ((a : A) → Keeps p (f a)) → Keeps p (continue r f)
  Keeps-continue (done a) f h = h a
  Keeps-continue (error e) f h = record { at = λ d. refl }
  Keeps-continue panicked f h = record { at = λ d. refl }
  Keeps-continue crashed f h = record { at = λ d. refl }

  -- What stands behind `m` keeps the path.
  pub bind-Keeps :
      (m : Io A) (f : A → Io B)
      → ((a : A) → Keeps p (f a))
      → (d : Disk) → lookup p ((m >>= f) d).1.nodes ≡ lookup p (m d).1.nodes
  bind-Keeps m f hf d = (Keeps-continue (m d).0 f hf).at (m d).1

  pub Keeps-bind :
      (m : Io A) (f : A → Io B) → Keeps p m → ((a : A) → Keeps p (f a)) → Keeps p (m >>= f)
  Keeps-bind m f hm hf = record { at = λ d. bind-Keeps m f hf d ∙ hm.at d }

module _ {A : Type 0} (p : Bytes) where
  meets_keeps :
      (f : Fate) (call : Io A) (part : ℕ → Disk → Disk) (d : Disk)
      → lookup p (call d).1.nodes ≡ lookup p d.nodes
      → ((n : ℕ) → lookup p (part n d).nodes ≡ lookup p d.nodes)
      → lookup p (meets f call part d).1.nodes ≡ lookup p d.nodes
  meets_keeps passes call part d hc hp = hc
  meets_keeps (fails n) call part d hc hp = hp n
  meets_keeps (crashes n) call part d hc hp = hp n

module _ {A : Type 0} {p : Bytes} where
  pub Keeps-syscall :
      (call : Io A) (part : ℕ → Disk → Disk)
      → ((d : Disk) → lookup p (call d).1.nodes ≡ lookup p d.nodes)
      → ((n : ℕ) (d : Disk) → lookup p (part n d).nodes ≡ lookup p d.nodes)
      → Keeps p (syscall call part)
  unfolding syscall
  Keeps-syscall call part hc hp = record {
    at = λ d.
        let rest = record d { plan = (next_fate d.plan).1 } in
        meets_keeps p (next_fate d.plan).0 call part rest (hc rest) (λ n. hp n rest);
  }

module _ (p : Bytes) where
  insert_keeps :
      (q : Bytes) (n : Node) (m : Map Node)
      → same q p ≡ false
      → lookup p (insert q n m) ≡ lookup p m
  insert_keeps q n m h = rw (lookup-insert, h)

  prune_keeps : (q : Bytes) (m : Map Node) → within q p ≡ false → lookup p (prune q m) ≡ lookup p m
  unfolding lookup prune
  prune_keeps q [] h = refl
  prune_keeps q ((r, n) ∷ m) h = ground (arith, prune_keeps q m h, same_iff r p)

  prune_last_keeps :
      (k : ℕ) (q : Bytes) (m : Map Node)
      → within q p ≡ false
      → lookup p (prune_last k q m) ≡ lookup p m
  unfolding lookup prune_last
  prune_last_keeps k q [] h = refl
  prune_last_keeps k q ((r, n) ∷ m) h = ground (arith, prune_last_keeps k q m h, same_iff r p)

  move_keeps :
      (from to : Bytes) (o : Option Node) (d : Disk)
      → same from p ≡ false
      → same to p ≡ false
      → lookup p (move_node from to o d).1.nodes ≡ lookup p d.nodes
  move_keeps from to none d hf ht = refl
  move_keeps from to (some n) d hf ht =
      insert_keeps to n (remove from d.nodes) ht ∙ rw (lookup-remove, hf)

  pub Keeps-stat : (q : Bytes) → Keeps p (stat q)
  unfolding stat
  Keeps-stat q =
      Keeps-syscall _ _ (λ d. (Keeps-lift (or_error not_exist (lookup q d.nodes))).at d)
        (λ n d. refl)

  pub Keeps-touch : Keeps p touch
  unfolding touch
  Keeps-touch = Keeps-syscall _ _ (λ d. refl) (λ n d. refl)

  pub Keeps-create : (q : Bytes) → same q p ≡ false → Keeps p (create q)
  unfolding create
  Keeps-create q h = Keeps-syscall _ _ (λ d. insert_keeps q (file []) d.nodes h) (λ n d. refl)

  pub Keeps-write : (q b : Bytes) → same q p ≡ false → Keeps p (write q b)
  unfolding write
  Keeps-write q b h =
      Keeps-syscall _ _ (λ d. insert_keeps q _ d.nodes h) (λ n d. insert_keeps q _ d.nodes h)

  pub Keeps-read_file : (q : Bytes) → Keeps p (read_file q)
  unfolding read_file
  Keeps-read_file q =
      Keeps-bind _ _
        (Keeps-syscall _ _ (λ d. (Keeps-lift (file_of (lookup q d.nodes))).at d) (λ n d. refl))
        (λ b. Keeps-bind _ _ Keeps-touch (λ _. Keeps-pure b))

  pub Keeps-rename :
      (from to : Bytes) → same from p ≡ false → same to p ≡ false → Keeps p (rename from to)
  unfolding rename
  Keeps-rename from to hf ht =
      Keeps-syscall _ _ (λ d. move_keeps from to (lookup from d.nodes) d hf ht) (λ n d. refl)

  pub Keeps-remove_all : (q : Bytes) → within q p ≡ false → Keeps p (remove_all q)
  unfolding remove_all
  Keeps-remove_all q h =
      Keeps-syscall _ _ (λ d. prune_keeps q d.nodes h) (λ n d. prune_last_keeps n q d.nodes h)

  pub Keeps-read_dir : (q : Bytes) → Keeps p (read_dir q)
  unfolding read_dir
  Keeps-read_dir q = Keeps-syscall _ _ (λ d. refl) (λ n d. refl)

  pub Keeps-make_dir : (q : Bytes) → same q p ≡ false → Keeps p (make_dir q)
  unfolding make_dir
  Keeps-make_dir q h = Keeps-syscall _ _ (λ d. insert_keeps q folder d.nodes h) (λ n d. refl)
