-- ===== src/Fsm/DataDir/Pointer.antt =====
-- The file pebble.running under the two calls that change it, saveCurrentDBDirName and
-- replaceCurrentDBFile, with any errors and a crash anywhere.
use raft_example.Prelude.{
  ◌≡◌, ◌≢◌, refl, sym, ap, ◌∙◌, ◌⊎◌, inl, inr, Bool, true, false, Option, some, [], ◌∷◌, ◌++◌,
  Bytes, same, ==_refl, Result, ok, err,
}
use raft_example.Prelude.Map.{lookup}
use raft_example.Fsm.Errors.{StoreError}
use raft_example.Fsm.Disk.{
  Node, folder, file, Disk, Exit, done, error, panicked, crashed, Io, continue, ◌>>=◌, ◌>>◌, try,
  lift, touch, create, write, rename,
}
use raft_example.Fsm.Disk.Keeps.{
  Keeps, bind-Keeps, Keeps-pure, Keeps-throw, Keeps-panic, Keeps-lift, Keeps-try, Keeps-bind,
  Keeps-stat, Keeps-touch, Keeps-create, Keeps-write,
}
use raft_example.Fsm.Disk.Results.{>>=-eq-done, try_ok, create_lem, write_lem, rename_cases}
use raft_example.Fsm.DataDir.{
  running_path, updating_path, sync_dir, sync_folder, on_other_systems, close_synced,
  panic_on_error, replace_current_db_file, checksum, write_pointer, save_current_db_dir_name,
}

pub same-append : (dir a b : Bytes) → same (dir ++ a) (dir ++ b) ≡ same a b
same-append [] a b = refl
same-append (c ∷ dir) a b = rw (==_refl c, same-append dir a b)

pub updating-ne-running : (dir : Bytes) → same (updating_path dir) (running_path dir) ≡ false
updating-ne-running dir = same-append dir _ _

pub running-ne-updating : (dir : Bytes) → same (running_path dir) (updating_path dir) ≡ false
running-ne-updating dir = same-append dir _ _

-- A sync changes no file.
module _ (p : Bytes) where
  Keeps-close_synced : (a b : Result StoreError Unit) → Keeps p (close_synced a b)
  unfolding close_synced
  Keeps-close_synced (err e) b = Keeps-throw e
  Keeps-close_synced (ok tt) b = Keeps-lift b

  Keeps-sync_folder : (n : Node) → Keeps p (sync_folder n)
  unfolding sync_folder
  Keeps-sync_folder (file b) = Keeps-pure tt
  Keeps-sync_folder folder = Keeps-bind _ _ (Keeps-touch p) (λ _.
      Keeps-bind _ _ (Keeps-try touch (Keeps-touch p))
        (λ a. Keeps-bind _ _ (Keeps-try touch (Keeps-touch p)) (λ b. Keeps-close_synced a b)))

  Keeps-on_other_systems : (dir : Bytes) (windows : Bool) → Keeps p (on_other_systems dir windows)
  unfolding on_other_systems
  Keeps-on_other_systems dir true = Keeps-pure tt
  Keeps-on_other_systems dir false = Keeps-bind _ _ (Keeps-stat p dir) (λ n. Keeps-sync_folder n)

  pub Keeps-sync_dir : (dir : Bytes) → Keeps p (sync_dir dir)
  unfolding sync_dir
  Keeps-sync_dir dir = record { at = λ d. (Keeps-on_other_systems dir d.windows).at d }

  Keeps-panic_on_error : (r : Result StoreError Unit) → Keeps p (panic_on_error r)
  unfolding panic_on_error
  Keeps-panic_on_error (ok tt) = Keeps-pure tt
  Keeps-panic_on_error (err e) = Keeps-panic

-- What follows the writes, for the result of these.
abbrev close_pointer : Bytes → Result StoreError Unit → Io Unit
close_pointer dir written = do
  closing ← try touch
  panic_on_error closing
  synced ← try (sync_dir dir)
  panic_on_error synced
  lift written

Keeps-close_pointer :
    (p dir : Bytes) (written : Result StoreError Unit) → Keeps p (close_pointer dir written)
Keeps-close_pointer p dir written = Keeps-bind _ _ (Keeps-try touch (Keeps-touch p)) (λ a.
    Keeps-bind _ _ (Keeps-panic_on_error p a) (λ _.
      Keeps-bind _ _ (Keeps-try (sync_dir dir) (Keeps-sync_dir p dir))
        (λ b. Keeps-bind _ _ (Keeps-panic_on_error p b) (λ _. Keeps-lift written))))

module _ (md5 : Bytes → Bytes) (dir dbdir : Bytes) where
  -- A write to the new file leaves the current one alone.
  pub Keeps-save :
      (p : Bytes)
      → same (updating_path dir) p ≡ false
      → Keeps p (save_current_db_dir_name md5 dir dbdir)
  unfolding save_current_db_dir_name write_pointer
  Keeps-save p h = Keeps-bind _ _ (Keeps-create p (updating_path dir) h) (λ _.
      Keeps-bind _ _
        (Keeps-try _ (
          Keeps-bind _ _ (Keeps-write p (updating_path dir) (checksum md5 dbdir) h)
            (λ _. Keeps-bind _ _ (Keeps-write p (updating_path dir) dbdir h) (λ _. Keeps-touch p))))
        (λ w. Keeps-close_pointer p dir w))

  -- The file that pebble.updating becomes, behind its digest.
  abbrev pub pointer : Node
  pointer = file (checksum md5 dbdir ++ dbdir)

  write_pointer_lem :
      (path : Bytes) (d d' : Disk) (u : Unit {0})
      → write_pointer md5 path dbdir d ≡ (done u, d')
      → lookup path d.nodes ≡ some (file [])
      → lookup path d'.nodes ≡ some pointer
  unfolding write_pointer
  write_pointer_lem path d d' u h empty =
      let (u₁, d₁, e₁, h₁) =
        >>=-eq-done (write path (checksum md5 dbdir)) (λ _. write path dbdir >> touch) d d' u h in
      let (u₂, d₂, e₂, h₂) = >>=-eq-done (write path dbdir) (λ _. touch) d₁ d' u h₁ in
      let written =
        write_lem path dbdir (checksum md5 dbdir) d₁ d₂ u₂ e₂
          (write_lem path (checksum md5 dbdir) [] d d₁ u₁ e₁ empty) in
      ap (λ (z : Exit Unit × Disk). lookup path z.1.nodes) (sym h₂)
      ∙ (Keeps-touch path).at d₂
      ∙ written

  close_pointer_err :
      (e : StoreError) (d d' : Disk) (u : Unit {0}) → close_pointer dir (err e) d ≢ (done u, d')
  close_pointer_err e d d' u h =
      let (a, d₁, e₁, h₁) =
        >>=-eq-done (try touch)
          (λ c. panic_on_error c >> (try (sync_dir dir) >>= λ s. panic_on_error s >> lift (err e)))
          d d' u h in
      let (_, d₂, e₂, h₂) =
        >>=-eq-done (panic_on_error a)
          (λ _. try (sync_dir dir) >>= λ s. panic_on_error s >> lift (err e)) d₁ d' u h₁ in
      let (b, d₃, e₃, h₃) =
        >>=-eq-done (try (sync_dir dir)) (λ s. panic_on_error s >> lift (err e)) d₂ d' u h₂ in
      let (_, d₄, e₄, h₄) = >>=-eq-done (panic_on_error b) (λ _. lift (err e)) d₃ d' u h₃ in cc h₄

  -- When the save returns, pebble.updating is complete.
  pub save_lem :
      (d d' : Disk) (u : Unit {0})
      → save_current_db_dir_name md5 dir dbdir d ≡ (done u, d')
      → lookup (updating_path dir) d'.nodes ≡ some pointer
  unfolding save_current_db_dir_name
  save_lem d d' u h =
      let path = updating_path dir in
      let writes = write_pointer md5 path dbdir in
      let (u₁, d₁, e₁, h₁) =
        >>=-eq-done (create path) (λ _. try writes >>= close_pointer dir) d d' u h in
      let (w, d₂, e₂, h₂) = >>=-eq-done (try writes) (close_pointer dir) d₁ d' u h₁ in
      by_result d₁ d₂ (create_lem path d d₁ u₁ e₁) w e₂ h₂
    where
      by_result :
          (d₁ d₂ : Disk)
          → lookup (updating_path dir) d₁.nodes ≡ some (file [])
          → (w : Result StoreError Unit)
          → try (write_pointer md5 (updating_path dir) dbdir) d₁ ≡ (done w, d₂)
          → close_pointer dir w d₂ ≡ (done u, d')
          → lookup (updating_path dir) d'.nodes ≡ some pointer
      by_result d₁ d₂ empty (err e) tried rest = absurd (close_pointer_err e d₂ d' u rest)
      by_result d₁ d₂ empty (ok v) tried rest =
          ap (λ (z : Exit Unit × Disk). lookup (updating_path dir) z.1.nodes) (sym rest)
          ∙ (Keeps-close_pointer (updating_path dir) dir (ok v)).at d₂
          ∙ write_pointer_lem (updating_path dir) d₁ d₂ v
              (try_ok (write_pointer md5 (updating_path dir) dbdir) d₁ d₂ v tried) empty

  abbrev pub set_pointer : Io Unit
  set_pointer = save_current_db_dir_name md5 dir dbdir >> replace_current_db_file dir

  abbrev pub running : Disk → Option Node
  running d = lookup (running_path dir) d.nodes

  replace_cases :
      (d : Disk)
      → (running (replace_current_db_file dir d).1 ≡ running d)
        ⊎ (running (replace_current_db_file dir d).1 ≡ lookup (updating_path dir) d.nodes)
  unfolding replace_current_db_file
  replace_cases d =
      let from = updating_path dir in
      let to = running_path dir in
      let tail =
        bind-Keeps {p = to} (rename from to) (λ _. sync_dir dir) (λ _. Keeps-sync_dir to dir) d in
      elim (rename_cases from to d) [
        | inl (e, moved) ↦ inr (tail ∙ moved)
        | inr (e, kept) ↦ inl (tail ∙ ap (lookup to) kept)
      ]

  -- Wherever saveCurrentDBDirName followed by replaceCurrentDBFile ends, by a result, an error, a
  -- panic or a crash, pebble.running is what it was before or the complete new pointer.
  pub set_pointer_atomic :
      (d : Disk)
      → (running (set_pointer d).1 ≡ running d) ⊎ (running (set_pointer d).1 ≡ some pointer)
  set_pointer_atomic d =
      let save = save_current_db_dir_name md5 dir dbdir in
      by_exit (save d).0 (save d).1 refl
        ((Keeps-save (running_path dir) (updating-ne-running dir)).at d)
    where
      by_exit :
          (r : Exit Unit) (d₁ : Disk)
          → save_current_db_dir_name md5 dir dbdir d ≡ (r, d₁)
          → running d₁ ≡ running d
          → (running (continue r (λ _. replace_current_db_file dir) d₁).1 ≡ running d)
            ⊎ (running (continue r (λ _. replace_current_db_file dir) d₁).1 ≡ some pointer)
      by_exit (done u) d₁ saved kept = elim (replace_cases d₁) [
        | inl e ↦ inl (e ∙ kept)
        | inr e ↦ inr (e ∙ save_lem d d₁ u saved)
      ]
      by_exit (error e) d₁ saved kept = inl kept
      by_exit panicked d₁ saved kept = inl kept
      by_exit crashed d₁ saved kept = inl kept

  -- When saveCurrentDBDirName followed by replaceCurrentDBFile returns without an error,
  -- pebble.running is the complete new pointer.
  pub set_pointer_done :
      (d d' : Disk) (u : Unit {0}) → set_pointer d ≡ (done u, d') → running d' ≡ some pointer
  unfolding replace_current_db_file
  set_pointer_done d d' u h =
      let from = updating_path dir in
      let to = running_path dir in
      let (v, d₁, e₁, h₁) =
        >>=-eq-done (save_current_db_dir_name md5 dir dbdir) (λ _. replace_current_db_file dir) d d'
          u h in
      let (w, d₂, e₂, h₂) = >>=-eq-done (rename from to) (λ _. sync_dir dir) d₁ d' u h₁ in
      let tail =
        bind-Keeps {p = to} (rename from to) (λ _. sync_dir dir) (λ _. Keeps-sync_dir to dir) d₁ in
      let last : running d' ≡ running (rename from to d₁).1 =
        ap (λ (z : Exit Unit × Disk). lookup to z.1.nodes) (sym h₁) ∙ tail in
      elim (rename_cases from to d₁) [
        | inl (e, moved) ↦ last ∙ moved ∙ save_lem d d₁ v e₁
        | inr (ne, kept) ↦ absurd (ne (ap (λ (z : Exit Unit × Disk). z.0) e₂))
      ]
