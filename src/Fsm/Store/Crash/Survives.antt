-- ===== src/Fsm/Store/Crash/Survives.antt =====
-- recoverSnapShot as a whole, with a crash anywhere in it.
use raft_example.Prelude.{ℕ, ◌≡◌, ◌≢◌, refl, sym, subst, inl, inr, Bytes, ok}
use raft_example.Fsm.Platform.{Pebble, Codec}
use raft_example.Fsm.Stream.{Reader}
use raft_example.Fsm.Errors.{StoreError}
use raft_example.Fsm.Header.{SnapshotHeader, read_snapshot_header}
use raft_example.Fsm.Restore.{
  Loaded, loaded, failed, panicked as load_panicked, stuck, load_snapshot,
}
use raft_example.Fsm.Disk.{
  file, Disk, Exit, done, error, panicked, crashed, Io, pure, lift, read_file, make_dir, remove_all,
  parent_dir, join,
}
use raft_example.Fsm.Disk.Keeps.{Keeps, Keeps-lift, Keeps-remove_all}
use raft_example.Fsm.Disk.Ends.{Ends, bind-Ends, always-Ends, same-Ends, read_file-Ends}
use raft_example.Fsm.DataDir.{running_path, get_current_db_dir_name, parse_pointer, sync_dir}
use raft_example.Fsm.DataDir.Pointer.{Keeps-sync_dir}
use raft_example.Fsm.Store.{
  Store, Installed, loaded_or_cleanup, switch_to, install, retire, after_install, recover_snapshot,
}
use raft_example.Fsm.Store.Install.{behind_load, behind_open, behind_old_dir, behind_header}
use raft_example.Fsm.Store.Crash.{
  Apart, Points, Keeps-Points, Safe, Both, Run, after, still-Run, made-Ends, switch_to-Ends,
  cleanup-Ends, removed-Safe,
}

module _ (md5 : Bytes → Bytes) (C : Codec) (P : Pebble) (max_alloc : ℕ)
    (dir name old content : Bytes) (apart : Apart dir (join dir name) old)
    (parsed : parse_pointer md5 content ≡ ok old) where
  abbrev new : Bytes
  new = join dir name

  abbrev Named : Disk → Type 0
  Named = Points dir (file content) old

  abbrev Survives : {A : Type 0} → (A → Disk → Type 0) → Exit A × Disk → Type 0
  Survives = Run md5 C P max_alloc dir new old (file content) apart

  abbrev SafeDisk : Disk → Type 0
  SafeDisk = Safe md5 C P max_alloc dir new old (file content) apart

  abbrev Swapped : Disk → Type 0
  Swapped = Points dir (after md5 C P max_alloc dir new old (file content) apart) new

  current-Ends :
      (d : Disk)
      → Named d
      → Survives (λ (o : Bytes) d'. Named d' × (o ≡ old)) (get_current_db_dir_name md5 dir d)
  unfolding get_current_db_dir_name read_file
  current-Ends d (r, o) =
      let Good : Bytes → Disk → Type 0 = λ b d'. Named d' × (b ≡ content) in
      bind-Ends SafeDisk (λ _. Unit) (read_file (running_path dir))
        (λ c. lift (parse_pointer md5 c)) Good (λ o' d'. Named d' × (o' ≡ old)) d
        (read_file-Ends SafeDisk (λ _. Unit) Named (λ _. inl) (λ _ _. tt) (λ _ _ h. h)
          (running_path dir) content d r (r, o))
        (λ b d' (h, e). rw (e, parsed) (h, refl))

  loaded-Ends :
      (l : Loaded P) (d : Disk)
      → Both md5 C P max_alloc dir new old (file content) apart d
      → Survives
          (λ (db : P.DB). Both md5 C P max_alloc dir new old (file content) apart)
          (loaded_or_cleanup md5 C P max_alloc new l d)
  unfolding loaded_or_cleanup
  loaded-Ends (loaded db) d h = h
  loaded-Ends (failed e) d h =
      cleanup-Ends SafeDisk (λ (db : P.DB). Both md5 C P max_alloc dir new old (file content) apart)
        new e d (λ t c. removed-Safe md5 C P max_alloc dir new old (file content) apart d t h.0 c)
  loaded-Ends load_panicked d h = inl (h.0)
  loaded-Ends stuck d h = inl (h.0)

  still :
      (m : Io Unit) (d : Disk)
      → Keeps (running_path dir) m
      → Keeps new m
      → Swapped d
      → Ends Swapped Swapped (λ (u : Unit {0}). Swapped) (m d)
  still m d hr hn h =
      always-Ends Swapped Swapped m Swapped d (λ _ g. g) (λ _ g. g)
        (Keeps-Points dir _ new m d hr hn h)

  retire-Ends :
      (d : Disk)
      → Swapped d
      → Ends Swapped Swapped (λ (u : Unit {0}). Swapped) (retire md5 C P max_alloc old d)
  unfolding retire
  retire-Ends d h =
      bind-Ends Swapped Swapped (remove_all old) (λ _. sync_dir (parent_dir old))
        (λ (u : Unit {0}). Swapped) (λ (u : Unit {0}). Swapped) d
        (still (remove_all old) d (Keeps-remove_all (running_path dir) old apart.old_running)
          (Keeps-remove_all new old apart.old_new) h)
        (λ u d' h'.
          still (sync_dir (parent_dir old)) d' (Keeps-sync_dir (running_path dir) (parent_dir old))
            (Keeps-sync_dir new (parent_dir old)) h')

  abbrev Done : Installed md5 C P max_alloc → Disk → Type 0
  Done i d = Swapped d × (i.old_dir ≡ old)

  behind_load-Ends :
      (header : SnapshotHeader) (newdb : P.DB) (d : Disk)
      → Both md5 C P max_alloc dir new old (file content) apart d
      → Survives Done (behind_load md5 C P max_alloc dir name header old newdb d)
  behind_load-Ends header newdb d h =
      bind-Ends SafeDisk (λ _. Unit) (switch_to md5 C P max_alloc dir new)
        (λ _. pure (record { header = header; newdb = newdb; old_dir = old }))
        (λ (u : Unit {0}). Swapped) Done d
        (switch_to-Ends md5 C P max_alloc dir new old (file content) apart d h)
        (λ u d' g. (g, refl))

  behind_old_dir-Ends :
      (header : SnapshotHeader) (rest : Reader) (d : Disk)
      → Named d
      → Survives Done (behind_old_dir md5 C P max_alloc dir name header rest old d)
  behind_old_dir-Ends header rest d h =
      let BothThere = Both md5 C P max_alloc dir new old (file content) apart in
      bind-Ends SafeDisk (λ _. Unit) (make_dir new)
        (λ _. behind_open md5 C P max_alloc dir name header rest old) (λ (u : Unit {0}). BothThere)
        Done d (made-Ends md5 C P max_alloc dir new old (file content) apart d h)
        (λ u d₁ g.
          bind-Ends SafeDisk (λ _. Unit)
            (loaded_or_cleanup md5 C P max_alloc new (load_snapshot C P max_alloc P.open_new rest))
            (behind_load md5 C P max_alloc dir name header old) (λ (db : P.DB). BothThere) Done d₁
            (loaded-Ends (load_snapshot C P max_alloc P.open_new rest) d₁ g)
            (λ db d₂ k. behind_load-Ends header db d₂ k))

  install-Ends :
      (reader : Reader) (d : Disk)
      → Named d
      → Survives Done (install md5 C P max_alloc dir name reader d)
  unfolding install
  install-Ends reader d h =
      bind-Ends SafeDisk (λ _. Unit) (lift (read_snapshot_header reader))
        (behind_header md5 C P max_alloc dir name) (λ (x : SnapshotHeader × Reader). Named) Done d
        (still-Run md5 C P max_alloc dir new old (file content) apart
          (lift (read_snapshot_header reader)) d (Keeps-lift _) (Keeps-lift _) h)
        (λ (header, rest) d₁ g.
          bind-Ends SafeDisk (λ _. Unit) (get_current_db_dir_name md5 dir)
            (behind_old_dir md5 C P max_alloc dir name header rest)
            (λ (o : Bytes) d'. Named d' × (o ≡ old)) Done d₁ (current-Ends d₁ g)
            (λ o d₂ (k, e). rw e (behind_old_dir-Ends header rest d₂ k)))

  after_install-Ends :
      (s : Store P) (r : Exit (Installed md5 C P max_alloc)) (d : Disk)
      → Survives Done (r, d)
      → ((e : StoreError) → (after_install md5 C P max_alloc s r d).0 ≢ error e)
      → SafeDisk (after_install md5 C P max_alloc s r d).2
  unfolding after_install
  after_install-Ends s (done i) d (g, e) kept =
      let retired = retire md5 C P max_alloc i.old_dir d in
      inr (
        inl (
          same-Ends Swapped retired.0 retired.1 (
            subst
              (λ o. Ends Swapped Swapped (λ (u : Unit {0}). Swapped) (retire md5 C P max_alloc o d))
              (sym e) (retire-Ends d g))))
  after_install-Ends s (error e) d h kept = absurd (kept e refl)
  after_install-Ends s panicked d h kept = h
  after_install-Ends s crashed d h kept = h

module _ (md5 : Bytes → Bytes) (C : Codec) (P : Pebble) (max_alloc : ℕ) (s : Store P) where
  -- Let pebble.running name the folder of the present database, which is there, and the new folder
  -- be apart from it. Then, wherever recoverSnapShot ends without an error, by a result, a panic or
  -- a crash, either pebble.running still names the old folder and that folder is there, or it is
  -- the complete pointer to the new folder and the new folder is there, or a crash has interrupted
  -- the removal of the new folder behind a replaceCurrentDBFile that had failed behind its rename.
  pub recover_snapshot_survives :
      (name old content : Bytes) (reader : Reader) (d : Disk)
      (apart : Apart s.base_dir (join s.base_dir name) old)
      → parse_pointer md5 content ≡ ok old
      → Points s.base_dir (file content) old d
      → ((e : StoreError) → (recover_snapshot md5 C P max_alloc name reader s d).0 ≢ error e)
      → Safe md5 C P max_alloc s.base_dir
          (join s.base_dir name)
          old
          (file content)
          apart
          (recover_snapshot md5 C P max_alloc name reader s d).2
  unfolding recover_snapshot
  recover_snapshot_survives name old content reader d apart parsed h kept =
      let installed = install md5 C P max_alloc s.base_dir name reader d in
      after_install-Ends md5 C P max_alloc s.base_dir name old content apart parsed s installed.0
        installed.1
        (install-Ends md5 C P max_alloc s.base_dir name old content apart parsed reader d h) kept
