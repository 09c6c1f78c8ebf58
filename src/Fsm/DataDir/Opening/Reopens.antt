-- ===== src/Fsm/DataDir/Opening/Reopens.antt =====
-- getPebbleDBDir as a whole, on a directory that has been in use, when the calls all go through.
use raft_example.Prelude.{◌≡◌, ◌≢◌, refl, ap, ◌∙◌, false, some, [], Bytes, same, ok, err, Result}
use raft_example.Prelude.Map.{lookup}
use raft_example.Fsm.Errors.{StoreError}
use raft_example.Fsm.Disk.{
  folder, file, Disk, Exit, done, ◌>>=◌, try, stat, remove_all, syscall, read_dir, has_slash, join,
}
use raft_example.Fsm.Disk.Ends.{bind-Ends, try-Ends, returns-Ends, Either}
use raft_example.Fsm.Disk.Paths.{within-join, lookup-prune, Unique, prune-Unique}
use raft_example.Fsm.DataDir.{
  current_db_filename, updating_db_filename, running_path, updating_path, parse_pointer,
  get_current_db_dir_name, remove_others, cleanup_node_data_dir, is_new_run, existing,
  open_existing, get_pebble_db_dir,
}
use raft_example.Fsm.DataDir.Opening.{Live, Goes, Cleared, current_lem, stat_lem, listed-Goes}

-- A name that stands directly in the data directory, beside the two files of the pointer.
pub record IsFolderName (name : Bytes) : Type 0 where
  pub plain : has_slash name ≡ false
  pub not_running : same current_db_filename name ≡ false
  pub not_updating : same updating_db_filename name ≡ false

module _ (md5 : Bytes → Bytes) (dir target content : Bytes) (named : IsFolderName target)
    (parsed : parse_pointer md5 content ≡ ok (join dir target)) where
  abbrev pub IsLive : Disk → Type 0
  IsLive = Live md5 dir target content named.plain named.not_running parsed

  abbrev GoesOn : {A : Type 0} → (A → Disk → Type 0) → Exit A × Disk → Type 0
  GoesOn = Goes md5 dir target content named.plain named.not_running parsed

  updated-Goes :
      (d : Disk)
      → IsLive d
      → Unique d.nodes
      → GoesOn (λ (u : Unit {0}) d'. IsLive d' × Unique d'.nodes) (remove_all (updating_path dir) d)
  unfolding remove_all syscall
  updated-Goes d (p, r, t) unique = rw p (
    (
      refl,
      rw (lookup-prune, within-join dir updating_db_filename current_db_filename refl refl) r,
      rw (lookup-prune, within-join dir updating_db_filename target named.plain named.not_updating)
          t,
    ),
    prune-Unique (updating_path dir) d.nodes unique,
  )

  module _ (k : Bytes) (others : same k target ≡ false) (slash_free : has_slash k ≡ false) where
    abbrev IsCleared : Disk → Type 0
    IsCleared =
        Cleared md5 dir target content named.plain named.not_running parsed k others slash_free

    cleanup-Goes :
        (d : Disk)
        → IsLive d
        → Unique d.nodes
        → GoesOn (λ (u : Unit {0}). IsCleared) (cleanup_node_data_dir md5 dir d)
    unfolding cleanup_node_data_dir
    cleanup-Goes d live unique =
        bind-Ends (λ _. ⊥) (λ _. ⊥) (try (remove_all (updating_path dir)))
          (λ _. get_current_db_dir_name md5 dir >>= λ dbdir.
            read_dir dir >>= remove_others md5 dir dbdir)
          (Either (λ _. ⊥) (λ (u : Unit {0}) d'. IsLive d' × Unique d'.nodes))
          (λ (u : Unit {0}). IsCleared) d
          (try-Ends (λ _. ⊥) (λ _. ⊥) (λ _. ⊥) (λ (u : Unit {0}) d'. IsLive d' × Unique d'.nodes)
            (remove_all (updating_path dir)) d (updated-Goes d live unique))
          by_result
      where
        by_result :
            (r : Result StoreError (Unit {0})) (d' : Disk)
            → Either (λ _. ⊥) (λ (u : Unit {0}) t. IsLive t × Unique t.nodes) r d'
            → GoesOn
                (λ (u : Unit {0}). IsCleared)
                ((get_current_db_dir_name md5 dir >>= λ dbdir.
                    read_dir dir >>= remove_others md5 dir dbdir)
                  d')
        by_result (ok u) d' (live', unique') =
            listed-Goes md5 dir target content named.plain named.not_running parsed k others
              slash_free d' live' unique'
        by_result (err e) d' h = absurd h

    abbrev Opened : Bytes → Disk → Type 0
    Opened dbdir d = (dbdir ≡ join dir target) × IsCleared d

    open-Goes : (d : Disk) → IsLive d → Unique d.nodes → GoesOn Opened (open_existing md5 dir d)
    unfolding open_existing existing
    open-Goes d live unique =
        bind-Ends (λ _. ⊥) (λ _. ⊥) (cleanup_node_data_dir md5 dir)
          (λ _.
            get_current_db_dir_name md5 dir >>= λ dbdir. try (stat dbdir) >>= existing md5 dbdir)
          (λ (u : Unit {0}). IsCleared) Opened d (cleanup-Goes d live unique)
          (λ u d' (live', gone).
            rw
              (
                current_lem md5 dir target content named.plain named.not_running parsed d' live',
                stat_lem md5 dir target content named.plain named.not_running parsed
                    (join dir target) folder (record d' { plan = [] }) refl (live'.2),
              )
              (refl, ((refl, live'.1, live'.2), gone)))

    get_pebble_db_dir-Goes :
        (name : Bytes) (d : Disk)
        → IsLive d
        → Unique d.nodes
        → GoesOn Opened (get_pebble_db_dir md5 dir name d)
    unfolding get_pebble_db_dir is_new_run
    get_pebble_db_dir-Goes name d live unique =
        rw
          (stat_lem md5 dir target content named.plain named.not_running parsed (running_path dir)
            (file content) d (live.0) (live.1))
          (open-Goes (record d { plan = [] }) (refl, live.1, live.2) unique)

    -- Let no call fail, pebble.running name a folder of the directory that is there, and each path
    -- stand once. Then getPebbleDBDir returns that folder, the folder is still there, and no other
    -- folder `k` is left in the directory.
    pub get_pebble_db_dir_reopens :
        (name : Bytes) (d : Disk)
        → IsLive d
        → Unique d.nodes
        → ((get_pebble_db_dir md5 dir name d).0 ≡ done (join dir target))
          × (lookup (join dir target) (get_pebble_db_dir md5 dir name d).1.nodes ≡ some folder)
          × (lookup (join dir k) (get_pebble_db_dir md5 dir name d).1.nodes ≢ some folder)
    get_pebble_db_dir_reopens name d live unique =
        let (dbdir, e, (same_dir, (live', gone))) =
          returns-Ends Opened (get_pebble_db_dir md5 dir name d).0
            (get_pebble_db_dir md5 dir name d).1 (get_pebble_db_dir-Goes name d live unique) in
        (e ∙ ap done same_dir, live'.2, gone)
