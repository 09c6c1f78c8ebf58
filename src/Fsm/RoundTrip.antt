-- ===== src/Fsm/RoundTrip.antt =====
-- A snapshot that saveSnapShot has written, read back by readSnapshotHeader and the loop of
-- recoverSnapShot.
use raft_example.Prelude.{
  ℕ, suc, ◌-◌, ◌≤◌, ◌<◌, ◌^◌, ◌≡◌, ◌≢◌, refl, sym, ap, subst, append-nil, ◌∙◌, false, [], ◌∷◌, ◌++◌,
  arith, All, Option, some, none, Bytes, length, length-append, ok,
}
use raft_example.Prelude.Map.{Map, lookup}
use raft_example.Fsm.Endian.{put_le, length-put_le}
use raft_example.Fsm.Platform.{
  Pebble, PebbleIsLawful, IsReliable, Codec, CodecIsLawful, DistinctKeys, overlay,
}
use raft_example.Fsm.Stream.{Reader, Sink}
use raft_example.Fsm.Batch.{new_write_batch}
use raft_example.Fsm.Errors.{checksum_mismatch}
use raft_example.Fsm.Header.{read_snapshot_header}
use raft_example.Fsm.Header.Laws.{written_header, read_snapshot_header-header_bytes}
use raft_example.Fsm.Save.{SnapshotResult, save_snapshot}
use raft_example.Fsm.Save.Steps.{record_bytes, zipped, records_bytes}
use raft_example.Fsm.Save.Written.{snapshot_bytes, save_snapshot-IsFinished}
use raft_example.Fsm.Restore.{Restoring, loaded, failed, flush, load_records, load_snapshot}
use raft_example.Fsm.Restore.Loop.{Fits, added_all, load_records-records}
use raft_example.Fsm.Restore.Content.{
  or_else, added_all-IsCounted, added_all-hashed, added_all-content, flush-content,
}
use raft_example.Fsm.Restore.Ends.{load_records-checksum, load_records-mismatch, load_records-eof}

length-records : (C : Codec) (es : Map Bytes) → length es ≤ length (records_bytes C es)
length-records C [] = omega arith
length-records C ((key, val) ∷ es) = omega (
  arith,
  length-records C es,
  length-append (record_bytes C key (zipped C val)) (records_bytes C es),
  length-append (put_le 8 (length key)) (key ++ (put_le 8 (length (zipped C val)) ++ zipped C val)),
  length-put_le 8 (length key),
)

module _ (C : Codec) (P : Pebble) (max_alloc : ℕ) (codec : CodecIsLawful C)
    (lawful : PebbleIsLawful P) (reliable : IsReliable P) (alloc_fits : max_alloc < 2 ^ 64)
    (es : Map Bytes) (distinct : DistinctKeys es) (fits : All (Fits C P max_alloc) es) where
  abbrev start : Restoring P
  start = record { wb = new_write_batch P P.open_new; k = 0; hashed = [] }

  abbrev last : Restoring P
  last = added_all C P max_alloc es start

  last-find : (k : Bytes) → P.find (flush C P max_alloc last) k ≡ lookup k es
  unfolding new_write_batch overlay
  last-find k =
      flush-content C P max_alloc lawful reliable last k
        (added_all-IsCounted C P max_alloc es start refl)
      ∙ added_all-content C P max_alloc lawful reliable es k start distinct
      ∙ rw (lawful.find-open_new k) (or_else-none (lookup k es))
    where
      or_else-none : (o : Option Bytes) → or_else o none ≡ o
      or_else-none none = refl
      or_else-none (some a) = refl

  abbrev records : Bytes
  records = records_bytes C es

  abbrev stream : Bytes → Reader
  stream b = record { bytes = b; broken = false }

  -- The fuel that is left behind the rounds for the records.
  abbrev spare : Bytes → ℕ
  spare tail = length (records ++ tail) - length es

  load_records-last :
      (tail : Bytes)
      → load_snapshot C P max_alloc P.open_new (stream (records ++ tail))
        ≡ load_records C P max_alloc (suc (spare tail)) last (stream tail)
  unfolding load_snapshot
  load_records-last tail =
      ap (λ f. load_records C P max_alloc f start (stream (records ++ tail)))
        (omega (arith, length-records C es, length-append records tail))
      ∙ load_records-records C P max_alloc false alloc_fits codec es _ tail start fits

  -- The records and their sum load into a new database that holds just their pairs.
  pub records_loaded :
      (db : P.DB) × (load_snapshot C P max_alloc P.open_new
          (stream (records ++ put_le 4 (C.crc32 records)))
        ≡ loaded db)
      × ((k : Bytes) → P.find db k ≡ lookup k es)
  records_loaded = (
    flush C P max_alloc last,
    load_records-last (put_le 4 (C.crc32 records))
        ∙ subst
            (λ h.
              load_records C P max_alloc (suc (spare (put_le 4 (C.crc32 records)))) last
                (stream (put_le 4 (C.crc32 h)))
              ≡ loaded (flush C P max_alloc last))
            (added_all-hashed C P max_alloc es start)
            (load_records-checksum C P max_alloc (spare (put_le 4 (C.crc32 records))) last codec),
    last-find,
  )

  -- Over a lawful codec and a lawful database whose commits succeed, with less than 2 ^ 64 bytes to
  -- allocate: a snapshot of distinct keys that can be restored, cut behind its records so that the
  -- sum is gone, loads without an error.
  pub records_loaded_unchecked :
      (db : P.DB) × (load_snapshot C P max_alloc P.open_new (stream records) ≡ loaded db)
      × ((k : Bytes) → P.find db k ≡ lookup k es)
  records_loaded_unchecked = (
    flush C P max_alloc last,
    ap (λ b. load_snapshot C P max_alloc P.open_new (stream b)) (sym (append-nil records))
        ∙ load_records-last []
        ∙ load_records-eof C P max_alloc (spare []) last,
    last-find,
  )

  -- Over a lawful codec and a lawful database whose commits succeed, with less than 2 ^ 64 bytes to
  -- allocate: behind the records of distinct keys that can be restored, any four bytes but those of
  -- their sum are refused, and the error names both sums.
  pub records_refused :
      (sum : ℕ)
      → sum < 2 ^ 32
      → sum ≢ C.crc32 records
      → load_snapshot C P max_alloc P.open_new (stream (records ++ put_le 4 sum))
        ≡ failed (checksum_mismatch sum (C.crc32 records))
  records_refused sum sum_fits differ =
      let hashed = added_all-hashed C P max_alloc es start in
      load_records-last (put_le 4 sum)
      ∙ subst
          (λ h.
            load_records C P max_alloc (suc (spare (put_le 4 sum))) last (stream (put_le 4 sum))
            ≡ failed (checksum_mismatch sum (C.crc32 h)))
          hashed
          (load_records-mismatch C P max_alloc (spare (put_le 4 sum)) last sum sum_fits
            (λ k. differ (k ∙ ap C.crc32 hashed)))

module _ (C : Codec) (P : Pebble) (max_alloc : ℕ) (codec : CodecIsLawful C)
    (lawful : PebbleIsLawful P) (reliable : IsReliable P) (alloc_fits : max_alloc < 2 ^ 64)
    (node_id : Bytes) (last_index now : ℕ) (db : P.DB) (sink after : Sink)
    (r : SnapshotResult) where
  -- Every pair of the database can be read back: its key is at most 1 GiB long, and the runtime can
  -- make the slice for its compressed value.
  abbrev pub CanRestore : Type 0
  CanRestore = (es : Map Bytes) → P.iterate db ≡ ok (es, none) → All (Fits C P max_alloc) es

  -- Over a lawful codec and a lawful database whose commits succeed, and with less than 2 ^ 64
  -- bytes to allocate: let saveSnapShot return without an error from an empty sink, with a node id,
  -- an index and a time that fit their fields and pairs that can all be restored. Then a reader of
  -- the bytes that it wrote first yields its header, and what is left loads into a new database
  -- with the same value, or none, under every key.
  pub save-restore :
      save_snapshot C P node_id last_index now db sink ≡ (ok r, after)
      → sink.written ≡ []
      → length node_id < 2 ^ 16
      → last_index < 2 ^ 64
      → now < 2 ^ 64
      → CanRestore
      → (rest : Reader) × (read_snapshot_header (record { bytes = after.written; broken = false })
          ≡ ok (written_header node_id last_index now, rest))
        × (newdb : P.DB) × (load_snapshot C P max_alloc P.open_new rest ≡ loaded newdb)
        × ((k : Bytes) → P.find newdb k ≡ P.find db k)
  save-restore saved empty id_fits index_fits now_fits can =
      let (es, it, done) =
        save_snapshot-IsFinished C P node_id last_index now db sink after r saved in
      let (newdb, run, found) =
        records_loaded C P max_alloc codec lawful reliable alloc_fits es
          (lawful.iterate_distinct db es it) (can es it) in
      let tail = records_bytes C es ++ put_le 4 (C.crc32 (records_bytes C es)) in
      (
        record { bytes = tail; broken = false },
        subst
            (λ b.
              read_snapshot_header (record { bytes = b; broken = false })
              ≡ ok (written_header node_id last_index now, record { bytes = tail; broken = false }))
            (sym (done.written ∙ ap (λ w. w ++ snapshot_bytes C node_id last_index now es) empty))
            (read_snapshot_header-header_bytes node_id tail last_index now false id_fits index_fits
              now_fits),
        newdb,
        run,
        λ k. found k ∙ sym (lawful.find-iterate db es k it),
      )
