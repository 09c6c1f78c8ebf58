-- ===== src/Fsm/Disk/Results.antt =====
-- What a call of the file system has done when it returns without an error.
use raft_example.Prelude.{
  ◌≡◌, ◌≢◌, refl, ◌⊎◌, inl, inr, Option, none, some, ◌++◌, [], Bytes, arith, same_refl, ok,
}
use raft_example.Prelude.Map.{lookup, lookup-insert}
use raft_example.Fsm.Disk.{
  Node, file, Fate, passes, fails, crashes, next_fate, Disk, Exit, done, error, panicked, crashed,
  Io, continue, caught, ◌>>=◌, try, create, write, rename, contents, move_node, meets,
}

pub >>=-eq-done :
    {A B : Type 0} (m : Io A) (f : A → Io B) (d d'' : Disk) (b : B)
    → (m >>= f) d ≡ (done b, d'')
    → (a : A) × (d' : Disk) × (m d ≡ (done a, d')) × (f a d' ≡ (done b, d''))
>>=-eq-done {A} {B} m f d d'' b h = go (m d).0 (m d).1 refl h
  where
    go :
        (r : Exit A) (d' : Disk)
        → m d ≡ (r, d')
        → continue r f d' ≡ (done b, d'')
        → (a : A) × (d' : Disk) × (m d ≡ (done a, d')) × (f a d' ≡ (done b, d''))
    go (done a) d' e k = (a, d', e, k)
    go (error x) d' e k = cc
    go panicked d' e k = cc
    go crashed d' e k = cc

-- A tried call that goes on with no error has returned.
pub try_ok :
    {A : Type 0} (m : Io A) (d d' : Disk) (a : A) → try m d ≡ (done (ok a), d') → m d ≡ (done a, d')
try_ok {A} m d d' a h = go (m d).0 (m d).1 refl h
  where
    go :
        (r : Exit A) (e : Disk) → m d ≡ (r, e) → caught r e ≡ (done (ok a), d') → m d ≡ (done a, d')
    go (done x) e p k = ground arith
    go (error x) e p k = cc
    go panicked e p k = cc
    go crashed e p k = cc

pub create_lem :
    (q : Bytes) (d d' : Disk) (u : Unit {0})
    → create q d ≡ (done u, d')
    → lookup q d'.nodes ≡ some (file [])
unfolding create
create_lem q d d' u h = ground (arith, lookup-insert q q (file []) d.nodes, same_refl q)

pub write_lem :
    (q b c : Bytes) (d d' : Disk) (u : Unit {0})
    → write q b d ≡ (done u, d')
    → lookup q d.nodes ≡ some (file c)
    → lookup q d'.nodes ≡ some (file (c ++ b))
unfolding write
write_lem q b c d d' u h old =
    ground (arith, lookup-insert q q (file (contents (lookup q d.nodes) ++ b)) d.nodes, same_refl q)

-- The call has put the node `o` at the path `to`, or nothing has changed and it has not returned.
abbrev pub Moved : Bytes → Option Node → Disk → Exit Unit × Disk → Type 0
Moved to o d r =
    ((r.0 ≡ done tt) × (lookup to r.1.nodes ≡ o)) ⊎ ((r.0 ≢ done tt) × (r.1.nodes ≡ d.nodes))

move_cases : (from to : Bytes) (o : Option Node) (d : Disk) → Moved to o d (move_node from to o d)
move_cases from to none d = inr (λ e. cc, refl)
move_cases from to (some n) d = inl (refl, rw (lookup-insert, same_refl to))

rename_meets :
    (from to : Bytes) (f : Fate) (d : Disk)
    → Moved to
        (lookup from d.nodes)
        d
        (meets f (λ e. move_node from to (lookup from e.nodes) e) (λ n e. e) d)
rename_meets from to passes d = move_cases from to (lookup from d.nodes) d
rename_meets from to (fails n) d = inr (λ e. cc, refl)
rename_meets from to (crashes n) d = inr (λ e. cc, refl)

-- A rename has replaced the file, or nothing has changed and an error or a crash has ended it.
pub rename_cases :
    (from to : Bytes) (d : Disk) → Moved to (lookup from d.nodes) d (rename from to d)
unfolding rename
rename_cases from to d =
    rename_meets from to (next_fate d.plan).0 (record d { plan = (next_fate d.plan).1 })
