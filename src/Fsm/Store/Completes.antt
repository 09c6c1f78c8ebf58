-- ===== src/Fsm/Store/Completes.antt =====
-- recoverSnapShot on a disk whose calls all go through.
use raft_example.Prelude.{ℕ, ◌≡◌, refl, ap, sym, subst, ◌∙◌, false, some, [], Bytes, ok, arith}
use raft_example.Prelude.Map.{lookup, lookup-insert}
use raft_example.Fsm.Platform.{Pebble, Codec}
use raft_example.Fsm.Stream.{Reader}
use raft_example.Fsm.Header.{SnapshotHeader, read_snapshot_header}
use raft_example.Fsm.Restore.{loaded, load_snapshot}
use raft_example.Fsm.Disk.{
  file, Disk, Exit, done, error, panicked, crashed, Io, continue, ◌>>=◌, pure, read_file, touch,
  syscall, make_dir, remove_all, within, prune, parent_dir, join,
}
use raft_example.Fsm.DataDir.{
  running_path, parse_pointer, get_current_db_dir_name, save_current_db_dir_name,
  replace_current_db_file,
}
use raft_example.Fsm.DataDir.Pointer.{pointer, save_lem}
use raft_example.Fsm.DataDir.Completes.{
  join-ne-dir, IsHealthy, Returns, Completes, try-Returns, Completes-pure, Completes-save,
  replace-Returns, Completes-sync_dir,
}
use raft_example.Fsm.Store.{
  Store, Installed, or_cleanup, loaded_or_cleanup, switch_replace, switch_to, install, retire,
  swapped, after_install, recover_snapshot,
}
use raft_example.Fsm.Store.Install.{behind_load, behind_open, behind_old_dir}
use raft_example.Fsm.Disk.Paths.{lookup-prune}

module _ (md5 : Bytes → Bytes) (C : Codec) (P : Pebble) (max_alloc : ℕ) (dir : Bytes) where
  Completes-or_cleanup : (dbdir : Bytes) (u : Unit {0}) → Completes dir (or_cleanup dbdir (ok u))
  unfolding or_cleanup
  Completes-or_cleanup dbdir u = Completes-pure dir tt

  Completes-switch_to : (dbdir : Bytes) → Completes dir (switch_to md5 C P max_alloc dir dbdir)
  unfolding switch_to switch_replace
  Completes-switch_to dbdir d q =
      let save = save_current_db_dir_name md5 dir dbdir in
      by_save (save d).0 (save d).1 refl (Completes-save dir md5 dbdir d q)
    where
      by_save :
          (r : Exit Unit) (t : Disk)
          → save_current_db_dir_name md5 dir dbdir d ≡ (r, t)
          → Returns dir (r, t)
          → Returns dir (switch_to md5 C P max_alloc dir dbdir d)
      by_save (done u) t e (_, healthy) = rw e (
          try-Returns dir (replace_current_db_file dir) (or_cleanup dbdir) t
            (replace-Returns dir md5 dbdir t healthy (pointer md5 dir dbdir)
              (save_lem md5 dir dbdir d t u e))
            (Completes-or_cleanup dbdir))
      by_save (error x) t e ((a, wrong), healthy) = absurd (ground (arith, wrong))
      by_save panicked t e ((a, wrong), healthy) = absurd (ground (arith, wrong))
      by_save crashed t e ((a, wrong), healthy) = absurd (ground (arith, wrong))

  -- The call returns just this, and still no call is to fail.
  abbrev Gives : {A : Type 0} → A → Exit A × Disk → Type 0
  Gives a (r, d) = (r ≡ done a) × IsHealthy dir d

  bind-Gives :
      {A B : Type 0} (m : Io A) (f : A → Io B) (d : Disk) (a : A) (b : B)
      → Gives a (m d)
      → Gives b (f a (m d).1)
      → Gives b ((m >>= f) d)
  bind-Gives m f d a b (e, q) g = subst (λ r. Gives b (continue r f (m d).1)) (sym e) g

  make_dir-Gives :
      (name : Bytes) (d : Disk) → IsHealthy dir d → Gives tt (make_dir (join dir name) d)
  unfolding make_dir syscall
  make_dir-Gives name d (p, f) = rw p (refl, (refl, rw (lookup-insert, join-ne-dir) f))

  current-Gives :
      (content old : Bytes) (d : Disk)
      → IsHealthy dir d
      → lookup (running_path dir) d.nodes ≡ some (file content)
      → parse_pointer md5 content ≡ ok old
      → Gives old (get_current_db_dir_name md5 dir d)
  unfolding get_current_db_dir_name read_file syscall touch
  current-Gives content old d (p, f) there parsed = rw (p, there, parsed) (refl, (refl, f))

  behind_load-Gives :
      (name : Bytes) (header : SnapshotHeader) (old : Bytes) (newdb : P.DB) (d : Disk)
      → IsHealthy dir d
      → Gives
          (record { header = header; newdb = newdb; old_dir = old })
          (behind_load md5 C P max_alloc dir name header old newdb d)
  behind_load-Gives name header old newdb d q =
      let switch = switch_to md5 C P max_alloc dir (join dir name) in
      let i : Installed md5 C P max_alloc = record {
        header = header;
        newdb = newdb;
        old_dir = old;
      } in
      let ((u, e), healthy) = Completes-switch_to (join dir name) d q in
      bind-Gives switch (λ _. pure i) d u i (e, healthy) (refl, healthy)

  install-Gives :
      (name content old : Bytes) (reader rest : Reader) (header : SnapshotHeader) (newdb : P.DB)
      (d : Disk)
      → IsHealthy dir d
      → lookup (running_path dir) d.nodes ≡ some (file content)
      → parse_pointer md5 content ≡ ok old
      → read_snapshot_header reader ≡ ok (header, rest)
      → load_snapshot C P max_alloc P.open_new rest ≡ loaded newdb
      → Gives
          (record { header = header; newdb = newdb; old_dir = old })
          (install md5 C P max_alloc dir name reader d)
  unfolding install loaded_or_cleanup
  install-Gives name content old reader rest header newdb d q there parsed read load =
      let i : Installed md5 C P max_alloc = record {
        header = header;
        newdb = newdb;
        old_dir = old;
      } in
      let current = current-Gives content old d q there parsed in
      let d₁ = (get_current_db_dir_name md5 dir d).1 in
      let made = make_dir-Gives name d₁ (current.1) in
      let d₂ = (make_dir (join dir name) d₁).1 in
      rw read (
        bind-Gives (get_current_db_dir_name md5 dir)
          (behind_old_dir md5 C P max_alloc dir name header rest) d old i current
          (bind-Gives (make_dir (join dir name))
            (λ _. behind_open md5 C P max_alloc dir name header rest old) d₁ tt i made
            (rw load (behind_load-Gives name header old newdb d₂ (made.1)))))

  retire-Gives :
      (old : Bytes) (d : Disk)
      → IsHealthy dir d
      → within old dir ≡ false
      → parent_dir old ≡ dir
      → Gives tt (retire md5 C P max_alloc old d)
  unfolding retire remove_all syscall
  retire-Gives old d (p, f) apart parent =
      let removed : IsHealthy dir
          (record { nodes = prune old d.nodes; plan = []; windows = d.windows }) =
        (refl, rw (lookup-prune, apart) f) in
      let ((u, e), healthy) = Completes-sync_dir dir _ removed in rw (p, parent) (e, healthy)

module _ (md5 : Bytes → Bytes) (C : Codec) (P : Pebble) (max_alloc : ℕ) (s : Store P) where
  -- The data directory names the folder of the present database, which stands directly in it.
  abbrev pub Names : Bytes → Bytes → Disk → Type 0
  Names content old d =
      IsHealthy s.base_dir d
      × (lookup (running_path s.base_dir) d.nodes ≡ some (file content))
      × (parse_pointer md5 content ≡ ok old)
      × (within old s.base_dir ≡ false)
      × (parent_dir old ≡ s.base_dir)

  pub recover_snapshot_completes :
      (name content old : Bytes) (reader rest : Reader) (header : SnapshotHeader) (newdb : P.DB)
      (d : Disk)
      → Names content old d
      → read_snapshot_header reader ≡ ok (header, rest)
      → load_snapshot C P max_alloc P.open_new rest ≡ loaded newdb
      → (recover_snapshot md5 C P max_alloc name reader s d).0 ≡ done header
  unfolding recover_snapshot after_install swapped
  recover_snapshot_completes name content old reader rest header newdb d
        (q, there, parsed, apart, parent) read load =
      let i : Installed md5 C P max_alloc = record {
        header = header;
        newdb = newdb;
        old_dir = old;
      } in
      let (e, healthy) =
        install-Gives md5 C P max_alloc s.base_dir name content old reader rest header newdb d q
          there parsed read load in
      let d' = (install md5 C P max_alloc s.base_dir name reader d).1 in
      let gone = (retire-Gives md5 C P max_alloc s.base_dir old d' healthy apart parent).0 in
      ap (λ r. (after_install md5 C P max_alloc s r d').0) e
      ∙ ap (swapped md5 C P max_alloc header) gone
