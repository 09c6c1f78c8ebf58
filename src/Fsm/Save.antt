-- ===== src/Fsm/Save.antt =====
-- saveSnapShot of fsm/store.go and gzipEncode of fsm/utils.go: the header, a record for each entry
-- of the database, and the sum of the records, written to the sink of a snapshot.
pub mod Steps
pub mod Written
pub mod Completes
use raft_example.Prelude.{
  ℕ, ◌+◌, Bool, true, false, Option, none, some, List, [], ◌∷◌, ◌++◌, Bytes, length, Result, ok,
  err, if◌then◌else◌,
}
use raft_example.Prelude.Map.{Map}
use raft_example.Fsm.Endian.{put_le}
use raft_example.Fsm.Platform.{Pebble, PebbleError, Codec}
use raft_example.Fsm.Stream.{Sink, write, cancel, close}
use raft_example.Fsm.Errors.{
  StoreError, pebble_error, sink_failed, compress_failed, iterator_failed,
}
use raft_example.Fsm.Header.{header_bytes}

-- The variables of saveSnapShot; `hashed` is what the hasher was given. `total_size` and `count` are
-- below 2^63 for any snapshot that fits a disk.
pub record Saving : Type 0 where
  pub sink : Sink
  pub total_size : ℕ
  pub count : ℕ
  pub hashed : Bytes

abbrev pub Save : Type 0 → Type 0
Save A = Saving → Result StoreError A × Saving

abbrev pub continue : {A B : Type 0} → Result StoreError A → (A → Save B) → Save B
continue (ok a) f s = f a s
continue (err e) f s = (err e, s)

infixl 5 ◌>>=◌ ◌>>◌
abbrev pub ◌>>=◌ : {A B : Type 0} → Save A → (A → Save B) → Save B
◌>>=◌ m f s = let (r, s') = m s in continue r f s'

abbrev pub ◌>>◌ : {A B : Type 0} → Save A → Save B → Save B
m >> n = m >>= λ _. n

-- `sink.Write`, with the `sink.Cancel` on its error.
unfoldable pub write_or_cancel : Bytes → Save Unit
write_or_cancel p s =
    let (done, sink') = write p s.sink in
    if done
    then (ok tt, record s { sink = sink'; total_size = s.total_size + length p })
    else (err sink_failed, record s { sink = cancel sink' })

-- The same, and `hasher.Write` behind it.
unfoldable pub write_hashed : Bytes → Save Unit
unfolding write_or_cancel
write_hashed p = do write_or_cancel p; λ s. (ok tt, record s { hashed = s.hashed ++ p })

unfoldable pub cancelled_with : {A : Type 0} → StoreError → Save A
cancelled_with e s = (err e, record s { sink = cancel s.sink })

unfoldable pub count_record : Save Unit
count_record s = (ok tt, record s { count = s.count + 1 })

pub record SnapshotResult : Type 0 where
  pub size : ℕ
  pub records : ℕ
  pub checksum : ℕ

unfoldable pub close_sink : Save Unit
close_sink s =
    let (done, sink') = close s.sink in
    (if done then ok tt else err sink_failed, record s { sink = sink' })

module _ (C : Codec) where
  unfoldable pub gzip_encode : Bytes → Result StoreError Bytes
  gzip_encode content = elim (C.compress content) [ none ↦ err compress_failed | some z ↦ ok z ]

  unfoldable pub gzip_or_cancel : Bytes → Save Bytes
  gzip_or_cancel val s = elim (gzip_encode val) [ ok z ↦ (ok z, s) | err e ↦ cancelled_with e s ]

  -- One round of the loop over the iterator.
  unfoldable pub save_record : Bytes → Bytes → Save Unit
  save_record key val = do
    count_record
    write_hashed (put_le 8 (length key))
    write_hashed key
    gzip_val ← gzip_or_cancel val
    write_hashed (put_le 8 (length gzip_val))
    write_hashed gzip_val

  unfoldable pub save_records : Map Bytes → Save Unit
  save_records [] = λ s. (ok tt, s)
  save_records ((key, val) ∷ rest) = do save_record key val; save_records rest

  -- `iter.Error()` after the loop.
  unfoldable pub check_iterator : Option PebbleError → Save Unit
  check_iterator none s = (ok tt, s)
  check_iterator (some e) s = cancelled_with (iterator_failed e) s

  unfoldable pub write_checksum : Save Unit
  write_checksum s = write_or_cancel (put_le 4 (C.crc32 s.hashed)) s

  unfoldable pub result_of : Saving → SnapshotResult
  result_of s = record { size = s.total_size; records = s.count; checksum = C.crc32 s.hashed }

  -- From the end of the loop to the return.
  unfoldable pub finish : Option PebbleError → Save SnapshotResult
  unfolding check_iterator write_checksum close_sink result_of write_or_cancel cancelled_with
  finish failure = do check_iterator failure; write_checksum; close_sink; λ s. (ok (result_of s), s)

  unfoldable pub save_body : Bytes → ℕ → ℕ → Map Bytes → Option PebbleError → Save SnapshotResult
  save_body node_id last_index now entries failure = do
    write_or_cancel (header_bytes node_id last_index now)
    save_records entries
    finish failure

  -- From the result of `snapshot.NewIter` on.
  unfoldable pub save_iterated :
      Bytes
      → ℕ
      → ℕ
      → Sink
      → Result PebbleError (Map Bytes × Option PebbleError)
      → Result StoreError SnapshotResult × Sink
  save_iterated node_id last_index now sink (err e) = (err (pebble_error e), sink)
  save_iterated node_id last_index now sink (ok (entries, failure)) =
      let (r, s) =
        save_body node_id last_index now entries failure
          (record { sink = sink; total_size = 0; count = 0; hashed = [] }) in
      (r, s.sink)

  -- `now` is the clock's Unix time; the raft address is only printed.
  unfoldable pub save_snapshot :
      (P : Pebble) → Bytes → ℕ → ℕ → P.DB → Sink → Result StoreError SnapshotResult × Sink
  unfolding save_iterated
  save_snapshot P node_id last_index now snapshot sink =
      save_iterated node_id last_index now sink (P.iterate snapshot)
