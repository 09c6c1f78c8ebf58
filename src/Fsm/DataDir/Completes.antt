-- ===== src/Fsm/DataDir/Completes.antt =====
-- The change of pebble.running on a disk whose calls all go through.
use raft_example.Prelude.{
  ◌≡◌, refl, ap, Bool, Bool-cases, inl, inr, true, false, some, [], ◌∷◌, Bytes, length,
  length-append, Result, ok, arith, same, same_iff,
}
use raft_example.Prelude.Map.{lookup, lookup-insert, lookup-remove}
use raft_example.Fsm.Errors.{StoreError}
use raft_example.Fsm.Disk.{
  Node, folder, Disk, Exit, done, error, panicked, crashed, Io, continue, ◌>>=◌, ◌>>◌, pure, try,
  lift, touch, create, write, rename, stat, join, syscall,
}
use raft_example.Fsm.DataDir.{
  running_path, updating_path, sync_dir, sync_folder, on_other_systems, close_synced,
  panic_on_error, replace_current_db_file, write_pointer, save_current_db_dir_name,
}
use raft_example.Fsm.DataDir.Pointer.{pointer, set_pointer, save_lem}

pub join-ne-dir : (dir name : Bytes) → same (join dir name) dir ≡ false
join-ne-dir dir name = elim (Bool-cases (same (join dir name) dir)) [
  | inl e ↦
      let longer = ap length ((same_iff (join dir name) dir).0 e) in
      absurd (omega (arith, longer, length-append dir (47 ∷ name)))
  | inr e ↦ e
]

module _ (dir : Bytes) where
  -- No call is to fail, and the data directory is there.
  abbrev pub IsHealthy : Disk → Type 0
  IsHealthy d = (d.plan ≡ []) × (lookup dir d.nodes ≡ some folder)

  abbrev pub Returns : {A : Type 0} → Exit A × Disk → Type 0
  Returns {A} (r, d) = ((a : A) × (r ≡ done a)) × IsHealthy d

  abbrev pub Completes : {A : Type 0} → Io A → Type 0
  Completes f = (d : Disk) → IsHealthy d → Returns (f d)

  module _ {A B : Type 0} where
    pub bind-Returns :
        (m : Io A) (f : A → Io B) (d : Disk)
        → Returns (m d)
        → ((a : A) → Completes (f a))
        → Returns ((m >>= f) d)
    bind-Returns m f d h k = by_exit (m d).0 (m d).1 h
      where
        by_exit : (r : Exit A) (t : Disk) → Returns (r, t) → Returns (continue r f t)
        by_exit (done a) t (_, healthy) = k a t healthy
        by_exit (error e) t ((a, wrong), healthy) = absurd (ground (arith, wrong))
        by_exit panicked t ((a, wrong), healthy) = absurd (ground (arith, wrong))
        by_exit crashed t ((a, wrong), healthy) = absurd (ground (arith, wrong))

    pub Completes-bind :
        (m : Io A) (f : A → Io B) → Completes m → ((a : A) → Completes (f a)) → Completes (m >>= f)
    Completes-bind m f h k d q = bind-Returns m f d (h d q) k

  -- A call that does not fail is not caught.
  module _ {A B : Type 0} where
    pub try-Returns :
        (m : Io A) (f : Result StoreError A → Io B) (d : Disk)
        → Returns (m d)
        → ((a : A) → Completes (f (ok a)))
        → Returns ((try m >>= f) d)
    try-Returns m f d h k = by_exit (m d).0 (m d).1 refl h
      where
        by_exit :
            (r : Exit A) (t : Disk) → m d ≡ (r, t) → Returns (r, t) → Returns ((try m >>= f) d)
        by_exit (done a) t e (_, healthy) = rw e (k a t healthy)
        by_exit (error x) t e ((a, wrong), healthy) = absurd (ground (arith, wrong))
        by_exit panicked t e ((a, wrong), healthy) = absurd (ground (arith, wrong))
        by_exit crashed t e ((a, wrong), healthy) = absurd (ground (arith, wrong))

    Completes-try :
        (m : Io A) (f : Result StoreError A → Io B)
        → Completes m
        → ((a : A) → Completes (f (ok a)))
        → Completes (try m >>= f)
    Completes-try m f h k d q = try-Returns m f d (h d q) k

  pub Completes-pure : {A : Type 0} (a : A) → Completes (pure a)
  Completes-pure a d q = ((a, refl), q)

  Completes-touch : Completes touch
  unfolding touch syscall
  Completes-touch d (p, f) = rw p ((tt, refl), (refl, f))

  Completes-create : (name : Bytes) → Completes (create (join dir name))
  unfolding create syscall
  Completes-create name d (p, f) = rw p ((tt, refl), (refl, rw (lookup-insert, join-ne-dir) f))

  Completes-write : (name b : Bytes) → Completes (write (join dir name) b)
  unfolding write syscall
  Completes-write name b d (p, f) = rw p ((tt, refl), (refl, rw (lookup-insert, join-ne-dir) f))

  Completes-sync_folder : Completes (sync_folder folder)
  unfolding sync_folder close_synced
  Completes-sync_folder = Completes-bind touch _ Completes-touch (λ _.
      Completes-try touch _ Completes-touch
        (λ a. Completes-try touch _ Completes-touch (λ b. Completes-pure tt)))

  pub Completes-sync_dir : Completes (sync_dir dir)
  unfolding sync_dir on_other_systems stat syscall
  Completes-sync_dir d (p, f) = by_system d.windows
    where
      by_system : (w : Bool) → Returns (on_other_systems dir w d)
      by_system true = ((tt, refl), (p, f))
      by_system false = rw (p, f) (Completes-sync_folder (record d { plan = [] }) (refl, f))

  Completes-panic_on_error : Completes (panic_on_error (ok tt))
  unfolding panic_on_error
  Completes-panic_on_error = Completes-pure tt

  module _ (md5 : Bytes → Bytes) (dbdir : Bytes) where
    Completes-write_pointer : Completes (write_pointer md5 (updating_path dir) dbdir)
    unfolding write_pointer
    Completes-write_pointer =
        Completes-bind _ _ (Completes-write _ _)
          (λ _. Completes-bind _ _ (Completes-write _ dbdir) (λ _. Completes-touch))

    abbrev behind_sync : Result StoreError Unit → Result StoreError Unit → Io Unit
    behind_sync w s = panic_on_error s >> lift w

    abbrev behind_close : Result StoreError Unit → Result StoreError Unit → Io Unit
    behind_close w c = panic_on_error c >> (try (sync_dir dir) >>= behind_sync w)

    Completes-behind_sync : Completes (behind_sync (ok tt) (ok tt))
    Completes-behind_sync =
        Completes-bind (panic_on_error (ok tt)) (λ _. pure tt) Completes-panic_on_error
          (λ _. Completes-pure tt)

    Completes-behind_close : Completes (behind_close (ok tt) (ok tt))
    Completes-behind_close =
        Completes-bind (panic_on_error (ok tt)) (λ _. try (sync_dir dir) >>= behind_sync (ok tt))
          Completes-panic_on_error
          (λ _.
            Completes-try (sync_dir dir) (behind_sync (ok tt)) Completes-sync_dir
              (λ s. Completes-behind_sync))

    pub Completes-save : Completes (save_current_db_dir_name md5 dir dbdir)
    unfolding save_current_db_dir_name
    Completes-save = Completes-bind (create (updating_path dir)) _ (Completes-create _) (λ _.
        Completes-try (write_pointer md5 (updating_path dir) dbdir)
          (λ w. try touch >>= behind_close w) Completes-write_pointer
          (λ w.
            Completes-try touch (behind_close (ok tt)) Completes-touch
              (λ c. Completes-behind_close)))

    -- The rename needs pebble.updating, which the save has left.
    rename-Returns :
        (d : Disk)
        → IsHealthy d
        → (n : Node) → lookup (updating_path dir) d.nodes ≡ some n
        → Returns (rename (updating_path dir) (running_path dir) d)
    unfolding rename syscall
    rename-Returns d (p, f) n there =
        rw (p, there)
          ((tt, refl), (refl, rw (lookup-insert, join-ne-dir, lookup-remove, join-ne-dir) f))

    pub replace-Returns :
        (d : Disk)
        → IsHealthy d
        → (n : Node) → lookup (updating_path dir) d.nodes ≡ some n
        → Returns (replace_current_db_file dir d)
    unfolding replace_current_db_file
    replace-Returns d q n there =
        bind-Returns (rename (updating_path dir) (running_path dir)) (λ _. sync_dir dir) d
          (rename-Returns d q n there) (λ _. Completes-sync_dir)

    -- On a disk whose calls all go through, with the data directory there, saveCurrentDBDirName
    -- followed by replaceCurrentDBFile returns without an error, and the data directory is still
    -- there.
    pub set_pointer_completes :
        (d : Disk)
        → IsHealthy d
        → ((set_pointer md5 dir dbdir d).0 ≡ done tt) × IsHealthy (set_pointer md5 dir dbdir d).1
    set_pointer_completes d q =
        let save = save_current_db_dir_name md5 dir dbdir in
        let ((u, e), healthy) = by_save (save d).0 (save d).1 refl (Completes-save d q) in
        (e, healthy)
      where
        by_save :
            (r : Exit Unit) (t : Disk)
            → save_current_db_dir_name md5 dir dbdir d ≡ (r, t)
            → Returns (r, t)
            → Returns (continue r (λ _. replace_current_db_file dir) t)
        by_save (done u) t e (_, healthy) =
            replace-Returns t healthy (pointer md5 dir dbdir) (save_lem md5 dir dbdir d t u e)
        by_save (error x) t e ((a, wrong), healthy) = absurd (ground (arith, wrong))
        by_save panicked t e ((a, wrong), healthy) = absurd (ground (arith, wrong))
        by_save crashed t e ((a, wrong), healthy) = absurd (ground (arith, wrong))
