-- ===== src/Fsm/Store/Crash.antt =====
-- recoverSnapShot and a crash anywhere in it: which folder pebble.running names afterwards, and that
-- it is there.
pub mod Survives
pub mod Once
pub mod Restart
use raft_example.Prelude.{
  ℕ, ◌≡◌, refl, sym, ap, ◌∙◌, subst, ◌⊎◌, inl, inr, false, some, List, [], ◌∷◌, Bytes, same,
  same_refl, arith, Result, ok, err,
}
use raft_example.Prelude.Map.{Map, lookup, lookup-insert, lookup-remove}
use raft_example.Fsm.Platform.{Pebble, Codec}
use raft_example.Fsm.Stream.{Reader}
use raft_example.Fsm.Errors.{StoreError}
use raft_example.Fsm.Header.{SnapshotHeader, read_snapshot_header}
use raft_example.Fsm.Restore.{
  Loaded, loaded, failed, panicked as load_panicked, stuck, load_snapshot,
}
use raft_example.Fsm.Disk.{
  Node, folder, file, Fate, Disk, Exit, done, error, panicked, crashed, Io, ◌>>=◌, ◌>>◌, pure,
  continue, caught, throw, try, lift, make_dir, remove_all, within, parent_dir, prune, rename,
}
use raft_example.Fsm.Disk.Keeps.{
  Keeps, Keeps-lift, Keeps-make_dir, Keeps-remove_all, Keeps-bind, Keeps-read_file, Keeps-try,
  Keeps-pure,
}
use raft_example.Fsm.Disk.Ends.{
  Ends, Either, bind-Ends, try-Ends, always-Ends, syscall-Ends, remove_all-Ends,
}
use raft_example.Fsm.Disk.Paths.{within-same}
use raft_example.Fsm.DataDir.{
  running_path, updating_path, get_current_db_dir_name, parse_pointer, save_current_db_dir_name,
  replace_current_db_file, sync_dir,
}
use raft_example.Fsm.DataDir.Pointer.{
  pointer, save_lem, Keeps-save, Keeps-sync_dir, updating-ne-running,
}
use raft_example.Fsm.Store.{
  Store, Installed, cleanup_new_db, or_cleanup, loaded_or_cleanup, switch_replace, switch_to,
  install, retire, swapped, after_install, recover_snapshot,
}
use raft_example.Fsm.Store.Install.{behind_load, behind_open, behind_old_dir, behind_header}

module _ (Stopped : Disk → Type 0) where
  -- A crash in the cleanup is one in its removal, and otherwise the error comes back.
  pub cleanup-Ends :
      {A : Type 0} (Good : A → Disk → Type 0) (p : Bytes) (e : StoreError) (d : Disk)
      → ((t : Disk) → remove_all p d ≡ (crashed, t) → Stopped t)
      → Ends Stopped (λ _. Unit) Good ((cleanup_new_db p >> throw e) d)
  unfolding cleanup_new_db
  cleanup-Ends Good p e d h =
      bind-Ends Stopped (λ _. Unit) (cleanup_new_db p) (λ _. throw e) (λ _ _. Unit) Good d
        (bind-Ends Stopped (λ _. Unit) (try (remove_all p)) (λ _. pure tt)
          (Either (λ _. Unit) (λ _ _. Unit)) (λ _ _. Unit) d
          (try-Ends Stopped (λ _. Unit) (λ _. Unit) (λ _ _. Unit) (remove_all p) d
            (remove_all-Ends Stopped p d h))
          (λ _ _ _. tt))
        (λ _ _ _. tt)

-- The two folders and the two files of the pointer are apart.
pub record Apart (dir new old : Bytes) : Type 0 where
  pub new_old : within new old ≡ false
  pub old_new : within old new ≡ false
  pub new_running : within new (running_path dir) ≡ false
  pub old_running : within old (running_path dir) ≡ false
  pub updating_new : same (updating_path dir) new ≡ false
  pub updating_old : same (updating_path dir) old ≡ false
  pub running_new : same (running_path dir) new ≡ false
  pub running_old : same (running_path dir) old ≡ false

-- pebble.running is the file, and the folder is there.
abbrev pub Points : Bytes → Node → Bytes → Disk → Type 0
Points dir pointer_file folder_path d =
    (lookup (running_path dir) d.nodes ≡ some pointer_file)
    × (lookup folder_path d.nodes ≡ some folder)

pub Keeps-Points :
    {A : Type 0} (dir : Bytes) (n : Node) (p : Bytes) (m : Io A) (d : Disk)
    → Keeps (running_path dir) m
    → Keeps p m
    → Points dir n p d
    → Points dir n p (m d).1
Keeps-Points dir n p m d hr hp (r, f) = (hr.at d ∙ r, hp.at d ∙ f)

module _ (md5 : Bytes → Bytes) (C : Codec) (P : Pebble) (max_alloc : ℕ) (dir new old : Bytes)
    (before : Node) (apart : Apart dir new old) where
  abbrev pub after : Node
  after = pointer md5 dir new

  -- The directory names the old folder, or the new one.
  abbrev Named : Disk → Type 0
  Named d = Points dir before old d ⊎ Points dir after new d

  -- The old folder is named, and the new one is there.
  abbrev pub Both : Disk → Type 0
  Both d = Points dir before old d × (lookup new d.nodes ≡ some folder)

  -- The removal of the new folder has been interrupted behind a replaceCurrentDBFile that had renamed
  -- the pointer file and then returned an error.
  abbrev pub Interrupted : Disk → Type 0
  Interrupted d =
      (d₀ : Disk) × (e : StoreError) × Both d₀
      × ((replace_current_db_file dir d₀).0 ≡ error e)
      × Points dir after new (replace_current_db_file dir d₀).1
      × (remove_all new (replace_current_db_file dir d₀).1 ≡ (crashed, d))

  abbrev pub Safe : Disk → Type 0
  Safe d = Points dir before old d ⊎ (Points dir after new d ⊎ Interrupted d)

  Named-Safe : (d : Disk) → Named d → Safe d
  Named-Safe d (inl h) = inl h
  Named-Safe d (inr h) = inr (inl h)

  -- The old folder is named still where the removal of the new one has stopped.
  pub removed-Safe :
      (d t : Disk) → Points dir before old d → remove_all new d ≡ (crashed, t) → Safe t
  removed-Safe d t h stopped = subst Safe (ap (λ (z : Exit (Unit {0}) × Disk). z.1) stopped) (
      inl (
        Keeps-Points dir before old (remove_all new) d
          (Keeps-remove_all (running_path dir) new apart.new_running)
          (Keeps-remove_all old new apart.new_old) h))

  abbrev pub Run : {A : Type 0} → (A → Disk → Type 0) → Exit A × Disk → Type 0
  Run = Ends Safe (λ _. Unit)

  -- What changes neither file nor folder.
  pub still-Run :
      {A : Type 0} (m : Io A) (d : Disk)
      → Keeps (running_path dir) m
      → Keeps old m
      → Points dir before old d
      → Run (λ (a : A). Points dir before old) (m d)
  still-Run m d hr ho h =
      always-Ends Safe (λ _. Unit) m (Points dir before old) d (λ d' g. inl g) (λ d' g. tt)
        (Keeps-Points dir before old m d hr ho h)

  pub made-Ends :
      (d : Disk) → Points dir before old d → Run (λ (u : Unit {0}). Both) (make_dir new d)
  unfolding make_dir
  made-Ends d (r, o) =
      syscall-Ends Safe (λ _. Unit) (λ (u : Unit {0}). Both) _ _ d
        (λ rest. (
          (
            rw (lookup-insert, within-same new (running_path dir) apart.new_running) r,
            rw (lookup-insert, within-same new old apart.new_old) o,
          ),
          rw (lookup-insert, same_refl new),
        ))
        (λ n rest. tt) (λ n rest. inl (r, o))

  replace-Ends :
      (d : Disk)
      → Both d
      → lookup (updating_path dir) d.nodes ≡ some after
      → Ends Safe Named (λ (u : Unit {0}). Points dir after new) (replace_current_db_file dir d)
  unfolding replace_current_db_file rename
  replace-Ends d ((r, o), n) u =
      bind-Ends Safe Named (rename (updating_path dir) (running_path dir)) (λ _. sync_dir dir)
        (λ (u : Unit {0}). Points dir after new) (λ (u : Unit {0}). Points dir after new) d
        (syscall-Ends Safe Named (λ (u : Unit {0}). Points dir after new) _ _ d
          (λ rest. rw u (
            rw (lookup-insert, same_refl (running_path dir)),
            rw (lookup-insert, apart.running_new, lookup-remove, apart.updating_new) n,
          ))
          (λ n rest. inl (r, o)) (λ n rest. inl (r, o)))
        (λ a d' h.
          always-Ends Safe Named (sync_dir dir) (Points dir after new) d' (λ _ g. inr (inl g))
            (λ _. inr)
            (Keeps-Points dir after new (sync_dir dir) d' (Keeps-sync_dir (running_path dir) dir)
              (Keeps-sync_dir new dir) h))

  switch_replace-Ends :
      (d : Disk)
      → Both d
      → lookup (updating_path dir) d.nodes ≡ some after
      → Run (λ (u : Unit {0}). Points dir after new) (switch_replace md5 C P max_alloc dir new d)
  unfolding switch_replace or_cleanup
  switch_replace-Ends d h u =
      by_exit (replace_current_db_file dir d).0 (replace_current_db_file dir d).1 refl
        (replace-Ends d h u)
    where
      Swapped : Unit {0} → Disk → Type 0
      Swapped v = Points dir after new

      -- The error `e` of the call, whose disk may name either folder.
      failed :
          (e : StoreError) (d' : Disk)
          → replace_current_db_file dir d ≡ (error e, d')
          → Named d'
          → Run Swapped ((cleanup_new_db new >> throw e) d')
      failed e d' eq (inl points) =
          cleanup-Ends Safe Swapped new e d' (λ t c. removed-Safe d' t points c)
      failed e d' eq (inr points) = cleanup-Ends Safe Swapped new e d' (λ t c.
          inr (inr (d, e, h, ap (λ (z : Exit (Unit {0}) × Disk). z.0) eq, rw eq points, rw eq c)))

      by_exit :
          (r : Exit (Unit {0})) (d' : Disk)
          → replace_current_db_file dir d ≡ (r, d')
          → Ends Safe Named Swapped (r, d')
          → Run Swapped (continue (caught r d').0 (or_cleanup new) (caught r d').1)
      by_exit (done v) d' eq g = g
      by_exit (error e) d' eq g = failed e d' eq g
      by_exit panicked d' eq g = g
      by_exit crashed d' eq g = g

  abbrev Ready : Disk → Type 0
  Ready d = Both d × (lookup (updating_path dir) d.nodes ≡ some after)

  save-Ends :
      (d : Disk)
      → Both d
      → Ends Safe Both (λ (u : Unit {0}). Ready) (save_current_db_dir_name md5 dir new d)
  save-Ends d (h, n) =
      let save = save_current_db_dir_name md5 dir new in
      by_exit (save d).0 (save d).1 refl (
        Keeps-Points dir before old save d
            (Keeps-save md5 dir new (running_path dir) (updating-ne-running dir))
            (Keeps-save md5 dir new old apart.updating_old) h,
        (Keeps-save md5 dir new new apart.updating_new).at d ∙ n,
      )
    where
      by_exit :
          (r : Exit (Unit {0})) (d' : Disk)
          → save_current_db_dir_name md5 dir new d ≡ (r, d')
          → Both d'
          → Ends Safe Both (λ (u : Unit {0}). Ready) (r, d')
      by_exit (done u) d' e b = (b, save_lem md5 dir new d d' u e)
      by_exit (error x) d' e b = b
      by_exit panicked d' e b = inl (b.0)
      by_exit crashed d' e b = inl (b.0)

  pub switch_to-Ends :
      (d : Disk)
      → Both d
      → Run (λ (u : Unit {0}). Points dir after new) (switch_to md5 C P max_alloc dir new d)
  unfolding switch_to or_cleanup
  switch_to-Ends d h =
      bind-Ends Safe (λ _. Unit) (try (save_current_db_dir_name md5 dir new))
        (λ r. or_cleanup new r >> switch_replace md5 C P max_alloc dir new)
        (Either Both (λ (u : Unit {0}). Ready)) (λ (u : Unit {0}). Points dir after new) d
        (try-Ends Safe Both (λ _. Unit) (λ (u : Unit {0}). Ready)
          (save_current_db_dir_name md5 dir new) d (save-Ends d h))
        by_result
    where
      saved :
          (r : Result StoreError (Unit {0})) (d' : Disk)
          → Either Both (λ (u : Unit {0}). Ready) r d'
          → Run (λ (u : Unit {0}). Ready) (or_cleanup new r d')
      saved (ok v) d' h' = h'
      saved (err e) d' h' =
          cleanup-Ends Safe (λ (u : Unit {0}). Ready) new e d' (λ t c. removed-Safe d' t h'.0 c)

      by_result :
          (r : Result StoreError (Unit {0})) (d' : Disk)
          → Either Both (λ (u : Unit {0}). Ready) r d'
          → Run
              (λ (u : Unit {0}). Points dir after new)
              ((or_cleanup new r >> switch_replace md5 C P max_alloc dir new) d')
      by_result r d' h' =
          bind-Ends Safe (λ _. Unit) (or_cleanup new r)
            (λ _. switch_replace md5 C P max_alloc dir new) (λ (u : Unit {0}). Ready)
            (λ (u : Unit {0}). Points dir after new) d' (saved r d' h')
            (λ a t g. switch_replace-Ends t (g.0) (g.1))
