-- ===== src/Fsm/Disk/Once.antt =====
-- On a disk each path stands once, and no call changes that.
use raft_example.Prelude.{
  ℕ, ◌≡◌, refl, Bool, true, false, Option, none, some, [], ◌∷◌, Bytes, same, same_iff, arith,
  if◌then◌else◌, Result, ok, err, or_error,
}
use raft_example.Prelude.Map.{Map, lookup, insert, remove, lookup-insert, lookup-remove}
use raft_example.Fsm.Errors.{StoreError, not_exist}
use raft_example.Fsm.Disk.{
  Node, file, folder, Fate, passes, fails, crashes, Disk, Exit, done, error, panicked, crashed, Io,
  continue, caught, ◌>>=◌, lift, try, next_fate, meets, syscall, nothing, stat, touch, create,
  write, read_file, rename, remove_all, make_dir, move_node, file_of,
}
use raft_example.Fsm.Disk.Paths.{Unique, prune-Unique, prune_last-Unique}

insert-Unique : (p : Bytes) (n : Node) (m : Map Node) → Unique m → Unique (insert p n m)
unfolding Unique insert lookup
insert-Unique p n [] h = (refl, tt)
insert-Unique p n ((q, k) ∷ m) (fresh, h) = by_test (same q p) refl (insert-Unique p n m h)
  where
    by_test :
        (b : Bool)
        → same q p ≡ b
        → Unique (insert p n m)
        → Unique (if b then (p, n) ∷ m else (q, k) ∷ insert p n m)
    by_test true e rest = (ground (arith, same_iff q p, e, fresh), h)
    by_test false e rest =
        (ground (arith, lookup-insert p q n m, same_iff q p, same_iff p q, e, fresh), rest)

remove-Unique : (p : Bytes) (m : Map Node) → Unique m → Unique (remove p m)
unfolding Unique remove
remove-Unique p [] h = tt
remove-Unique p ((q, k) ∷ m) (fresh, h) = by_test (same q p) (remove-Unique p m h)
  where
    by_test :
        (b : Bool) → Unique (remove p m) → Unique (if b then remove p m else (q, k) ∷ remove p m)
    by_test true rest = rest
    by_test false rest = (ground (arith, lookup-remove p q m, fresh), rest)

-- `m` keeps each path standing once.
pub record KeepsOnce {A : Type 0} (m : Io A) : Type 0 where
  pub at : (d : Disk) → Unique d.nodes → Unique (m d).1.nodes

-- What ends at once, or only changes the plan.
pub KeepsOnce-here : {A : Type 0} (r : Exit A) → KeepsOnce (λ d. (r, d))
KeepsOnce-here r = record { at = λ d h. h }

module _ {A : Type 0} where
  pub KeepsOnce-lift : (r : Result StoreError A) → KeepsOnce (lift r)
  KeepsOnce-lift (ok a) = KeepsOnce-here (done a)
  KeepsOnce-lift (err e) = KeepsOnce-here (error e)

  pub KeepsOnce-try : (m : Io A) → KeepsOnce m → KeepsOnce (try m)
  KeepsOnce-try m h = record { at = λ d u. by_exit (m d).0 (m d).1 (h.at d u) }
    where
      by_exit : (r : Exit A) (d : Disk) → Unique d.nodes → Unique (caught r d).1.nodes
      by_exit (done a) d u = u
      by_exit (error e) d u = u
      by_exit panicked d u = u
      by_exit crashed d u = u

  pub KeepsOnce-bind :
      {B : Type 0} (m : Io A) (f : A → Io B)
      → KeepsOnce m
      → ((a : A) → KeepsOnce (f a))
      → KeepsOnce (m >>= f)
  KeepsOnce-bind m f hm hf = record { at = λ d u. by_exit (m d).0 (m d).1 (hm.at d u) }
    where
      by_exit : (r : Exit A) (d : Disk) → Unique d.nodes → Unique (continue r f d).1.nodes
      by_exit (done a) d u = (hf a).at d u
      by_exit (error e) d u = u
      by_exit panicked d u = u
      by_exit crashed d u = u

  KeepsOnce-syscall :
      (call : Io A) (part : ℕ → Disk → Disk)
      → KeepsOnce call
      → ((n : ℕ) (d : Disk) → Unique d.nodes → Unique (part n d).nodes)
      → KeepsOnce (syscall call part)
  unfolding syscall
  KeepsOnce-syscall call part hc hp = record {
    at = λ d u. by_fate (next_fate d.plan).0 (record d { plan = (next_fate d.plan).1 }) u;
  }
    where
      by_fate : (f : Fate) (d : Disk) → Unique d.nodes → Unique (meets f call part d).1.nodes
      by_fate passes d u = hc.at d u
      by_fate (fails n) d u = hp n d u
      by_fate (crashes n) d u = hp n d u

pub KeepsOnce-stat : (p : Bytes) → KeepsOnce (stat p)
unfolding stat
KeepsOnce-stat p =
    KeepsOnce-syscall _ nothing
      (record { at = λ d u. (KeepsOnce-lift (or_error not_exist (lookup p d.nodes))).at d u })
      (λ n d u. u)

pub KeepsOnce-touch : KeepsOnce touch
unfolding touch
KeepsOnce-touch = KeepsOnce-syscall _ nothing (KeepsOnce-here (done tt)) (λ n d u. u)

pub KeepsOnce-create : (p : Bytes) → KeepsOnce (create p)
unfolding create
KeepsOnce-create p =
    KeepsOnce-syscall _ nothing (record { at = λ d u. insert-Unique p (file []) d.nodes u })
      (λ n d u. u)

pub KeepsOnce-make_dir : (p : Bytes) → KeepsOnce (make_dir p)
unfolding make_dir
KeepsOnce-make_dir p =
    KeepsOnce-syscall _ nothing (record { at = λ d u. insert-Unique p folder d.nodes u })
      (λ n d u. u)

pub KeepsOnce-write : (p b : Bytes) → KeepsOnce (write p b)
unfolding write
KeepsOnce-write p b =
    KeepsOnce-syscall _ _ (record { at = λ d u. insert-Unique p _ d.nodes u })
      (λ n d u. insert-Unique p _ d.nodes u)

pub KeepsOnce-read_file : (p : Bytes) → KeepsOnce (read_file p)
unfolding read_file
KeepsOnce-read_file p =
    KeepsOnce-bind _ _
      (KeepsOnce-syscall _ nothing
        (record { at = λ d u. (KeepsOnce-lift (file_of (lookup p d.nodes))).at d u }) (λ n d u. u))
      (λ b. KeepsOnce-bind _ _ KeepsOnce-touch (λ _. KeepsOnce-here (done b)))

pub KeepsOnce-rename : (from to : Bytes) → KeepsOnce (rename from to)
unfolding rename
KeepsOnce-rename from to =
    KeepsOnce-syscall _ nothing (record { at = λ d u. moved (lookup from d.nodes) d u })
      (λ n d u. u)
  where
    moved : (o : Option Node) (d : Disk) → Unique d.nodes → Unique (move_node from to o d).1.nodes
    moved none d u = u
    moved (some n) d u = insert-Unique to n (remove from d.nodes) (remove-Unique from d.nodes u)

pub KeepsOnce-remove_all : (p : Bytes) → KeepsOnce (remove_all p)
unfolding remove_all
KeepsOnce-remove_all p =
    KeepsOnce-syscall _ _ (record { at = λ d u. prune-Unique p d.nodes u })
      (λ n d u. prune_last-Unique n p d.nodes u)
