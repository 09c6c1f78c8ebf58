-- ===== src/Fsm/Disk.antt =====
-- The file system under the data directory of fsm/utils.go, as the calls of the package os see it.
-- Any call may fail or be the last before a crash: a plan chooses for each.
pub mod Keeps
pub mod Ends
pub mod Paths
pub mod Once
pub mod Results
use raft_example.Prelude.{
  ℕ, ◌≡◌, refl, Bool, true, false, Option, none, some, List, [], ◌∷◌, ◌++◌, Bytes, bytes_of, same,
  take, leb, length, ◌+◌, if◌then◌else◌, ◌==◌, Result, ok, err, or_error, ◌&&◌, not, ◌||◌,
}
use raft_example.Prelude.Map.{Map, lookup, insert, remove}
use raft_example.Fsm.Errors.{StoreError, os_failed, not_exist}

pub data Node : Type 0 where
  folder : Node
  file : Bytes → Node

-- A call goes through, returns an error, or the machine stops in it. A write that does not go through
-- may have written that many bytes, and a removal have gone that far; any other call that does not
-- go through has done nothing. What was written before a crash is there behind it.
pub data Fate : Type 0 where
  passes : Fate
  fails : ℕ → Fate
  crashes : ℕ → Fate

-- Behind the end of the plan all calls go through. `windows` is `runtime.GOOS == "windows"`.
pub record Disk : Type 0 where
  pub nodes : Map Node
  pub plan : List Fate
  pub windows : Bool

-- A Go function returns, returns an error, or panics; a crash ends it where it stands.
pub data Exit (A : Type 0) : Type 0 where
  done : A → Exit A
  error : StoreError → Exit A
  panicked : Exit A
  crashed : Exit A

abbrev pub Io : Type 0 → Type 0
Io A = Disk → Exit A × Disk

abbrev pub continue : {A B : Type 0} → Exit A → (A → Io B) → Io B
continue (done a) f d = f a d
continue (error e) f d = (error e, d)
continue panicked f d = (panicked, d)
continue crashed f d = (crashed, d)

infixl 5 ◌>>=◌ ◌>>◌
abbrev pub ◌>>=◌ : {A B : Type 0} → Io A → (A → Io B) → Io B
◌>>=◌ m f d = let (r, d') = m d in continue r f d'

abbrev pub ◌>>◌ : {A B : Type 0} → Io A → Io B → Io B
m >> n = m >>= λ _. n

abbrev pub pure : {A : Type 0} → A → Io A
pure a d = (done a, d)

abbrev pub throw : {A : Type 0} → StoreError → Io A
throw e d = (error e, d)

abbrev pub panic : {A : Type 0} → Io A
panic d = (panicked, d)

abbrev pub lift : {A : Type 0} → Result StoreError A → Io A
lift (ok a) = pure a
lift (err e) = throw e

abbrev pub caught : {A : Type 0} → Exit A → Io (Result StoreError A)
caught (done a) d = (done (ok a), d)
caught (error e) d = (done (err e), d)
caught panicked d = (panicked, d)
caught crashed d = (crashed, d)

-- The code looks at the error itself.
abbrev pub try : {A : Type 0} → Io A → Io (Result StoreError A)
try m d = let (r, d') = m d in caught r d'

next_fate : List Fate → Fate × List Fate
next_fate [] = (passes, [])
next_fate (f ∷ fs) = (f, fs)

-- A call with its effect and result, and what it leaves behind where it does not go through.
abbrev meets :
    {A : Type 0} → Fate → (Disk → Exit A × Disk) → (ℕ → Disk → Disk) → Disk → Exit A × Disk
meets passes call part d = call d
meets (fails n) call part d = (error os_failed, part n d)
meets (crashes n) call part d = (crashed, part n d)

unfoldable pub syscall : {A : Type 0} → Io A → (ℕ → Disk → Disk) → Io A
unfolding next_fate
syscall call part d =
    let (f, rest) = next_fate d.plan in meets f call part (record d { plan = rest })

abbrev pub nothing : ℕ → Disk → Disk
nothing n d = d

-- `os.Stat`: the node, or an error that `os.IsNotExist` knows.
unfoldable pub stat : Bytes → Io Node
unfolding syscall
stat p = syscall (λ d. lift (or_error not_exist (lookup p d.nodes)) d) nothing

-- A call with no effect on what is modelled: open, fsync or close of a file that is there.
unfoldable pub touch : Io Unit
unfolding syscall
touch = syscall (pure tt) nothing

abbrev put_node : Bytes → Node → Disk → Disk
put_node p n d = record d { nodes = insert p n d.nodes }

-- `os.Create`
unfoldable pub create : Bytes → Io Unit
unfolding syscall
create p = syscall (λ d. (done tt, put_node p (file []) d)) nothing

abbrev contents : Option Node → Bytes
contents (some (file b)) = b
contents _ = []

abbrev append_to : Bytes → Bytes → Disk → Disk
append_to p b d = put_node p (file (contents (lookup p d.nodes) ++ b)) d

-- `f.Write` at the end of an open file
unfoldable pub write : Bytes → Bytes → Io Unit
unfolding syscall
write p b = syscall (λ d. (done tt, append_to p b d)) (λ n. append_to p (take n b))

abbrev pub file_of : Option Node → Result StoreError Bytes
file_of none = err not_exist
file_of (some folder) = err os_failed
file_of (some (file b)) = ok b

-- `os.OpenFile` for reading, and `io.ReadAll`
unfoldable pub read_file : Bytes → Io Bytes
unfolding syscall touch
read_file p = do b ← syscall (λ d. lift (file_of (lookup p d.nodes)) d) nothing; touch; pure b

abbrev move_node : Bytes → Bytes → Option Node → Io Unit
move_node from to none d = (error not_exist, d)
move_node from to (some n) d = (done tt, record d { nodes = insert to n (remove from d.nodes) })

-- `os.Rename`, which replaces what stands at the new path at once
unfoldable pub rename : Bytes → Bytes → Io Unit
unfolding syscall
rename from to = syscall (λ d. move_node from to (lookup from d.nodes) d) nothing

abbrev pub slash : ℕ
slash = 47

-- `filepath.Join` of a clean directory, other than the root, and a name.
abbrev pub join : Bytes → Bytes → Bytes
join dir name = dir ++ slash ∷ name

-- What stands behind `dir` and a slash, for a path below `dir`.
abbrev pub below : Bytes → Bytes → Option Bytes
below [] [] = none
below [] (y ∷ ys) = if y == slash then some ys else none
below (x ∷ xs) [] = none
below (x ∷ xs) (y ∷ ys) = let rest = below xs ys in if x == y then rest else none

abbrev pub is_some : Option Bytes → Bool
is_some none = false
is_some (some b) = true

-- A path that `os.RemoveAll` of `p` removes: `p` itself and all below it.
abbrev pub within : Bytes → Bytes → Bool
within p q = same p q || is_some (below p q)

unfoldable pub prune : Bytes → Map Node → Map Node
prune p [] = []
prune p ((q, n) ∷ m) = let rest = prune p m in if within p q then rest else (q, n) ∷ rest

-- A removal that has come to the last `n` entries of the disk, which are those that were put there
-- last: what stands in a folder goes before the folder.
unfoldable pub prune_last : ℕ → Bytes → Map Node → Map Node
prune_last n p [] = []
prune_last n p ((q, k) ∷ m) =
    let rest = prune_last n p m in
    if within p q && leb (length m + 1) n then rest else (q, k) ∷ rest

-- `os.RemoveAll`, to which a path that is not there is no error
unfoldable pub remove_all : Bytes → Io Unit
unfolding syscall
remove_all p =
    syscall (λ d. (done tt, record d { nodes = prune p d.nodes }))
      (λ n d. record d { nodes = prune_last n p d.nodes })

abbrev pub has_slash : Bytes → Bool
has_slash [] = false
has_slash (c ∷ cs) = c == slash || has_slash cs

abbrev pub child_of : Option Bytes → Node → List (Bytes × Node) → List (Bytes × Node)
child_of none n rest = rest
child_of (some name) n rest = if has_slash name then rest else (name, n) ∷ rest

unfoldable pub children : Bytes → Map Node → List (Bytes × Node)
children dir [] = []
children dir ((q, n) ∷ m) = child_of (below dir q) n (children dir m)

-- `os.ReadDir`: the names that stand directly in a directory
unfoldable pub read_dir : Bytes → Io (List (Bytes × Node))
unfolding syscall
read_dir dir = syscall (λ d. (done (children dir d.nodes), d)) nothing

-- `os.MkdirAll`, for a directory whose parent is there
unfoldable pub make_dir : Bytes → Io Unit
unfolding syscall
make_dir p = syscall (λ d. (done tt, put_node p folder d)) nothing

-- `filepath.Dir` of a clean path with a directory in front: what stands before the last slash.
abbrev pub parent_dir : Bytes → Bytes
parent_dir [] = []
parent_dir (c ∷ cs) = let rest = c ∷ parent_dir cs in if has_slash cs then rest else []
