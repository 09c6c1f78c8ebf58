-- ===== src/Fsm/Store/Install.antt =====
-- recoverSnapShot when it gets as far as the swap of the databases: what it read, and what the
-- pointer file then names.
use raft_example.Prelude.{ℕ, ◌≡◌, refl, sym, ap, ◌∙◌, subst, some, Bytes, arith, Result, ok, err}
use raft_example.Prelude.Map.{lookup}
use raft_example.Fsm.Platform.{Pebble, Codec}
use raft_example.Fsm.Stream.{Reader}
use raft_example.Fsm.Errors.{StoreError}
use raft_example.Fsm.Disk.{
  Disk, Exit, done, error, panicked, crashed, Io, ◌>>=◌, ◌>>◌, pure, throw, try, lift, make_dir,
}
use raft_example.Fsm.Disk.Results.{>>=-eq-done, try_ok}
use raft_example.Fsm.DataDir.{
  running_path, save_current_db_dir_name, replace_current_db_file, get_current_db_dir_name,
}
use raft_example.Fsm.DataDir.Pointer.{pointer, set_pointer_done}
use raft_example.Fsm.Header.{SnapshotHeader, read_snapshot_header}
use raft_example.Fsm.Restore.{
  Loaded, loaded, failed, panicked as load_panicked, stuck, load_snapshot,
}
use raft_example.Fsm.Store.{
  Store, cleanup_new_db, or_cleanup, loaded_or_cleanup, switch_to, Installed, install, swapped,
  retire, after_install, recover_snapshot,
}
use raft_example.Fsm.Disk.{join}

lift_done :
    {A : Type 0} (r : Result StoreError A) (d d' : Disk) (a : A)
    → lift r d ≡ (done a, d')
    → (r ≡ ok a) × (d ≡ d')
lift_done (ok x) d d' a h = ground arith
lift_done (err e) d d' a h = cc

or_cleanup_done :
    (dbdir : Bytes) (r : Result StoreError Unit) (d d' : Disk) (u : Unit {0})
    → or_cleanup dbdir r d ≡ (done u, d')
    → (r ≡ ok u) × (d ≡ d')
unfolding or_cleanup
or_cleanup_done dbdir (ok v) d d' u h = (refl, ground arith)
or_cleanup_done dbdir (err e) d d' u h =
    let (v, d₁, e₁, h₁) = >>=-eq-done (cleanup_new_db dbdir) (λ _. throw e) d d' u h in cc h₁

bind-done :
    {A B : Type 0} (m : Io A) (f : A → Io B) (d d' : Disk) (a : A)
    → m d ≡ (done a, d')
    → (m >>= f) d ≡ f a d'
bind-done m f d d' a h = rw h

module _ (md5 : Bytes → Bytes) (C : Codec) (P : Pebble) (max_alloc : ℕ) where
  loaded_done :
      (dbdir : Bytes) (l : Loaded P) (d d' : Disk) (db : P.DB)
      → loaded_or_cleanup md5 C P max_alloc dbdir l d ≡ (done db, d')
      → l ≡ loaded db
  unfolding loaded_or_cleanup
  loaded_done dbdir (loaded x) d d' db h = ground arith
  loaded_done dbdir (failed e) d d' db h =
      let (v, d₁, e₁, h₁) = >>=-eq-done (cleanup_new_db dbdir) (λ _. throw e) d d' db h in cc h₁
  loaded_done dbdir load_panicked d d' db h = cc
  loaded_done dbdir stuck d d' db h = cc

  switch_done :
      (dir dbdir : Bytes) (d d' : Disk) (u : Unit {0})
      → switch_to md5 C P max_alloc dir dbdir d ≡ (done u, d')
      → lookup (running_path dir) d'.nodes ≡ some (pointer md5 dir dbdir)
  unfolding switch_to
  switch_done dir dbdir d d' u h =
      let save = save_current_db_dir_name md5 dir dbdir in
      let replace = replace_current_db_file dir in
      let (r₁, d₁, e₁, h₁) =
        >>=-eq-done (try save)
          (λ r. or_cleanup dbdir r >> (try replace >>= λ r₂. or_cleanup dbdir r₂)) d d' u h in
      let (v, d₂, e₂, h₂) =
        >>=-eq-done (or_cleanup dbdir r₁) (λ _. try replace >>= λ r₂. or_cleanup dbdir r₂) d₁ d' u
          h₁ in
      let (r₃, d₃, e₃, h₃) = >>=-eq-done (try replace) (λ r. or_cleanup dbdir r) d₂ d' u h₂ in
      let (saved, same₁) = or_cleanup_done dbdir r₁ d₁ d₂ v e₂ in
      let (replaced, same₃) = or_cleanup_done dbdir r₃ d₃ d' u h₃ in
      let save_run : save d ≡ (done v, d₂) =
        try_ok save d d₂ v
          (subst (λ x. try save d ≡ (done (ok v), x)) same₁ (e₁ ∙ ap (λ r. (done r, d₁)) saved)) in
      let replace_run : replace d₂ ≡ (done u, d') = try_ok replace d₂ d' u (
        subst (λ x. try replace d₂ ≡ (done (ok u), x)) same₃
          (e₃ ∙ ap (λ r. (done r, d₃)) replaced)) in
      set_pointer_done md5 dir dbdir d d' u
        (bind-done save (λ _. replace) d d₂ v save_run ∙ replace_run)

  -- The stages of `install`, each behind the one before.
  abbrev pub behind_load :
      Bytes → Bytes → SnapshotHeader → Bytes → P.DB → Io (Installed md5 C P max_alloc)
  behind_load base_dir name header old_dir newdb =
      switch_to md5 C P max_alloc base_dir (join base_dir name)
      >> pure (record { header = header; newdb = newdb; old_dir = old_dir })

  abbrev pub behind_open :
      Bytes → Bytes → SnapshotHeader → Reader → Bytes → Io (Installed md5 C P max_alloc)
  behind_open base_dir name header rest old_dir =
      loaded_or_cleanup md5 C P max_alloc (join base_dir name)
        (load_snapshot C P max_alloc P.open_new rest)
      >>= behind_load base_dir name header old_dir

  abbrev pub behind_old_dir :
      Bytes → Bytes → SnapshotHeader → Reader → Bytes → Io (Installed md5 C P max_alloc)
  behind_old_dir base_dir name header rest old_dir =
      make_dir (join base_dir name) >> behind_open base_dir name header rest old_dir

  abbrev pub behind_header :
      Bytes → Bytes → SnapshotHeader × Reader → Io (Installed md5 C P max_alloc)
  behind_header base_dir name (header, rest) =
      get_current_db_dir_name md5 base_dir >>= behind_old_dir base_dir name header rest

  -- When recoverSnapShot reaches the swap of the databases, it has read the snapshot's header, the
  -- new database is what its loop has loaded from the rest of the reader, and the pointer file
  -- names the new folder.
  pub install_lem :
      (base_dir name : Bytes) (reader : Reader) (d d' : Disk) (i : Installed md5 C P max_alloc)
      → install md5 C P max_alloc base_dir name reader d ≡ (done i, d')
      → (rest : Reader) × (read_snapshot_header reader ≡ ok (i.header, rest))
        × (load_snapshot C P max_alloc P.open_new rest ≡ loaded i.newdb)
        × (lookup (running_path base_dir) d'.nodes
            ≡ some (pointer md5 base_dir (join base_dir name)))
  unfolding install
  install_lem base_dir name reader d d' i h =
      let dbdir = join base_dir name in
      let ((header, rest), d₁, e₁, h₁) =
        >>=-eq-done (lift (read_snapshot_header reader)) (behind_header base_dir name) d d' i h in
      let (old_dir, d₂, e₂, h₂) =
        >>=-eq-done (get_current_db_dir_name md5 base_dir)
          (behind_old_dir base_dir name header rest) d₁ d' i h₁ in
      let (u₃, d₃, e₃, h₃) =
        >>=-eq-done (make_dir dbdir) (λ _. behind_open base_dir name header rest old_dir) d₂ d' i
          h₂ in
      let (newdb, d₄, e₄, h₄) =
        >>=-eq-done
          (loaded_or_cleanup md5 C P max_alloc dbdir (load_snapshot C P max_alloc P.open_new rest))
          (behind_load base_dir name header old_dir) d₃ d' i h₃ in
      let (u₅, d₅, e₅, h₅) =
        >>=-eq-done (switch_to md5 C P max_alloc base_dir dbdir)
          (λ _. pure (record { header = header; newdb = newdb; old_dir = old_dir })) d₄ d' i h₄ in
      let result : record { header = header; newdb = newdb; old_dir = old_dir } ≡ i =
        ground arith in
      (
        rest,
        (lift_done (read_snapshot_header reader) d d₁ (header, rest) e₁).0
            ∙ ap (λ (j : Installed md5 C P max_alloc). ok (j.header, rest)) result,
        loaded_done dbdir (load_snapshot C P max_alloc P.open_new rest) d₃ d₄ newdb e₄
            ∙ ap (λ (j : Installed md5 C P max_alloc). loaded j.newdb) result,
        ap
              (λ (z : Exit (Installed md5 C P max_alloc) × Disk).
                lookup (running_path base_dir) z.1.nodes)
              (sym h₅)
            ∙ switch_done base_dir dbdir d₄ d₅ u₅ e₅,
      )

  swapped_done :
      (h : SnapshotHeader) (r : Exit Unit) (h' : SnapshotHeader)
      → swapped md5 C P max_alloc h r ≡ done h'
      → h ≡ h'
  unfolding swapped
  swapped_done h (done u) h' e = ground arith
  swapped_done h (error x) h' e = cc
  swapped_done h panicked h' e = cc
  swapped_done h crashed h' e = cc

  -- When recoverSnapShot returns a header, the store has the database that was loaded.
  pub recover_snapshot_done :
      (name : Bytes) (reader : Reader) (s s' : Store P) (d d' : Disk) (h : SnapshotHeader)
      → recover_snapshot md5 C P max_alloc name reader s d ≡ (done h, s', d')
      → (rest : Reader) × (newdb : P.DB) × (read_snapshot_header reader ≡ ok (h, rest))
        × (load_snapshot C P max_alloc P.open_new rest ≡ loaded newdb)
        × (s' ≡ record s { db = newdb })
  unfolding recover_snapshot
  recover_snapshot_done name reader s s' d d' h e =
      by_install (install md5 C P max_alloc s.base_dir name reader d).0
        (install md5 C P max_alloc s.base_dir name reader d).1 refl e
    where
      by_install :
          (r : Exit (Installed md5 C P max_alloc)) (d₁ : Disk)
          → install md5 C P max_alloc s.base_dir name reader d ≡ (r, d₁)
          → after_install md5 C P max_alloc s r d₁ ≡ (done h, s', d')
          → (rest : Reader) × (newdb : P.DB) × (read_snapshot_header reader ≡ ok (h, rest))
            × (load_snapshot C P max_alloc P.open_new rest ≡ loaded newdb)
            × (s' ≡ record s { db = newdb })
      by_install (done i) d₁ run k =
          let (rest, header, load, _) = install_lem s.base_dir name reader d d₁ i run in
          (
            rest,
            i.newdb,
            header
                ∙ ap (λ x. ok (x, rest))
                    (swapped_done i.header (retire md5 C P max_alloc i.old_dir d₁).0 h
                      (ap (λ (z : Exit SnapshotHeader × Store P × Disk). z.0) k)),
            load,
            sym (ap (λ (z : Exit SnapshotHeader × Store P × Disk). z.1) k),
          )
      by_install (error x) d₁ run k = cc
      by_install panicked d₁ run k = cc
      by_install crashed d₁ run k = cc
