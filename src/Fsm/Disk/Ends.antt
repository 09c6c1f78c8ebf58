-- ===== src/Fsm/Disk/Ends.antt =====
-- What holds of the disk where a function of the package ends, whichever way it ends.
use raft_example.Prelude.{◌≡◌, refl, Result, ok, err, Bytes, ℕ, List, some}
use raft_example.Prelude.Map.{lookup}
use raft_example.Fsm.Errors.{StoreError}
use raft_example.Fsm.Disk.{
  Fate, passes, fails, crashes, next_fate, meets, syscall, prune, prune_last, remove_all, Disk,
  file, read_file, touch, pure, nothing, lift, file_of, Exit, done, error, panicked, crashed, Io,
  continue, caught, ◌>>=◌, ◌>>◌, try,
}

-- `Good` where it returns, `Failed` where it returns an error, and `Stopped` where a panic or a
-- crash has ended it.
abbrev pub Ends :
    {A : Type 0} → (Disk → Type 0) → (Disk → Type 0) → (A → Disk → Type 0) → Exit A × Disk → Type 0
Ends Stopped Failed Good (done a, d) = Good a d
Ends Stopped Failed Good (error e, d) = Failed d
Ends Stopped Failed Good (panicked, d) = Stopped d
Ends Stopped Failed Good (crashed, d) = Stopped d

module _ (Stopped Failed : Disk → Type 0) where
  module _ {A B : Type 0} where
    pub bind-Ends :
        (m : Io A) (f : A → Io B) (Mid : A → Disk → Type 0) (Good : B → Disk → Type 0) (d : Disk)
        → Ends Stopped Failed Mid (m d)
        → ((a : A) (d' : Disk) → Mid a d' → Ends Stopped Failed Good (f a d'))
        → Ends Stopped Failed Good ((m >>= f) d)
    bind-Ends m f Mid Good d h k = by_exit (m d).0 (m d).1 h
      where
        by_exit :
            (r : Exit A) (d' : Disk)
            → Ends Stopped Failed Mid (r, d')
            → Ends Stopped Failed Good (continue r f d')
        by_exit (done a) d' h = k a d' h
        by_exit (error e) d' h = h
        by_exit panicked d' h = h
        by_exit crashed d' h = h

  -- Before the call and after it, `P` holds wherever it ends.
  pub always-Ends :
      {A : Type 0} (m : Io A) (P : Disk → Type 0) (d : Disk)
      → ((d' : Disk) → P d' → Stopped d')
      → ((d' : Disk) → P d' → Failed d')
      → P (m d).1
      → Ends Stopped Failed (λ (a : A). P) (m d)
  always-Ends {A} m P d stopped failed h = by_exit (m d).0 (m d).1 h
    where
      by_exit : (r : Exit A) (d' : Disk) → P d' → Ends Stopped Failed (λ (a : A). P) (r, d')
      by_exit (done a) d' h = h
      by_exit (error e) d' h = failed d' h
      by_exit panicked d' h = stopped d' h
      by_exit crashed d' h = stopped d' h

pub same-Ends :
    {A : Type 0} (P : Disk → Type 0) (r : Exit A) (d : Disk) → Ends P P (λ (a : A). P) (r, d) → P d
same-Ends P (done a) d h = h
same-Ends P (error e) d h = h
same-Ends P panicked d h = h
same-Ends P crashed d h = h

-- Where no error, panic or crash can be, the function returns.
pub returns-Ends :
    {A : Type 0} (Good : A → Disk → Type 0) (r : Exit A) (d : Disk)
    → Ends (λ _. ⊥) (λ _. ⊥) Good (r, d)
    → (a : A) × (r ≡ done a) × Good a d
returns-Ends Good (done a) d h = (a, refl, h)
returns-Ends Good (error e) d h = absurd h
returns-Ends Good panicked d h = absurd h
returns-Ends Good crashed d h = absurd h

-- A result that the code looks at itself.
abbrev pub Either :
    {A : Type 0} → (Disk → Type 0) → (A → Disk → Type 0) → Result StoreError A → Disk → Type 0
Either Failed Good (ok a) d = Good a d
Either Failed Good (err e) d = Failed d

pub try-Ends :
    {A : Type 0} (Stopped Failed Outer : Disk → Type 0) (Good : A → Disk → Type 0) (m : Io A)
    (d : Disk)
    → Ends Stopped Failed Good (m d)
    → Ends Stopped Outer (Either Failed Good) (try m d)
try-Ends {A} Stopped Failed Outer Good m d h = by_exit (m d).0 (m d).1 h
  where
    by_exit :
        (r : Exit A) (d' : Disk)
        → Ends Stopped Failed Good (r, d')
        → Ends Stopped Outer (Either Failed Good) (caught r d')
    by_exit (done a) d' h = h
    by_exit (error e) d' h = h
    by_exit panicked d' h = h
    by_exit crashed d' h = h

module _ (Stopped Failed : Disk → Type 0) {A : Type 0} (Good : A → Disk → Type 0) where
  pub syscall-Ends :
      (call : Io A) (part : ℕ → Disk → Disk) (d : Disk)
      → ((rest : List Fate) → Ends Stopped Failed Good (call (record d { plan = rest })))
      → ((n : ℕ) (rest : List Fate) → Failed (part n (record d { plan = rest })))
      → ((n : ℕ) (rest : List Fate) → Stopped (part n (record d { plan = rest })))
      → Ends Stopped Failed Good (syscall call part d)
  unfolding syscall
  syscall-Ends call part d good fail stop = by_fate (next_fate d.plan).0 (next_fate d.plan).1
    where
      by_fate :
          (f : Fate) (rest : List Fate)
          → Ends Stopped Failed Good (meets f call part (record d { plan = rest }))
      by_fate passes rest = good rest
      by_fate (fails n) rest = fail n rest
      by_fate (crashes n) rest = stop n rest

-- A removal does not panic, and its error is not looked at.
pub remove_all-Ends :
    (Stopped : Disk → Type 0) (p : Bytes) (d : Disk)
    → ((t : Disk) → remove_all p d ≡ (crashed, t) → Stopped t)
    → Ends Stopped (λ _. Unit) (λ (u : Unit {0}) _. Unit) (remove_all p d)
unfolding remove_all syscall
remove_all-Ends Stopped p d h =
    by_fate (next_fate d.plan).0 (record d { plan = (next_fate d.plan).1 }) h
  where
    removed : Disk → Exit (Unit {0}) × Disk
    removed e = (done tt, record e { nodes = prune p e.nodes })

    partly : ℕ → Disk → Disk
    partly n e = record e { nodes = prune_last n p e.nodes }

    by_fate :
        (f : Fate) (e : Disk)
        → ((t : Disk) → meets f removed partly e ≡ (crashed, t) → Stopped t)
        → Ends Stopped (λ _. Unit) (λ (u : Unit {0}) _. Unit) (meets f removed partly e)
    by_fate passes e k = tt
    by_fate (fails n) e k = tt
    by_fate (crashes n) e k = k (partly n e) refl

module _ (Stopped Failed Held : Disk → Type 0) (stopped : (d : Disk) → Held d → Stopped d)
    (failed : (d : Disk) → Held d → Failed d)
    (any_plan : (d : Disk) (rest : List Fate) → Held d → Held (record d { plan = rest })) where
  -- Reading a file that is there changes nothing and gives what it holds.
  pub read_file-Ends :
      (p content : Bytes) (d : Disk)
      → lookup p d.nodes ≡ some (file content)
      → Held d
      → Ends Stopped Failed (λ (b : Bytes) d'. Held d' × (b ≡ content)) (read_file p d)
  unfolding read_file touch
  read_file-Ends p content d there h =
      let Good : Bytes → Disk → Type 0 = λ b d'. Held d' × (b ≡ content) in
      let call : Io Bytes = λ e. lift (file_of (lookup p e.nodes)) e in
      bind-Ends Stopped Failed (syscall call nothing) (λ b. touch >> pure b) Good Good d
        (syscall-Ends Stopped Failed Good call nothing d
          (λ rest. rw there (any_plan d rest h, refl)) (λ n rest. failed _ (any_plan d rest h))
          (λ n rest. stopped _ (any_plan d rest h)))
        (λ b d' (h', e).
          bind-Ends Stopped Failed touch (λ _. pure b) (λ _. Held) Good d'
            (syscall-Ends Stopped Failed (λ (u : Unit {0}). Held) _ _ d'
              (λ rest. any_plan d' rest h') (λ n rest. failed _ (any_plan d' rest h'))
              (λ n rest. stopped _ (any_plan d' rest h')))
            (λ u t g. (g, e)))
