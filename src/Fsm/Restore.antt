-- ===== src/Fsm/Restore.antt =====
-- The loop of recoverSnapShot in fsm/store.go, which reads the records of a snapshot into a new
-- database, and gzipDecode of fsm/utils.go.
pub mod Loop
pub mod Content
pub mod Ends
use raft_example.Prelude.{
  ℕ, zero, suc, ◌+◌, ◌^◌, List, [], ◌∷◌, ◌++◌, Option, none, some, Bytes, ltb, leb, ◌==◌,
  if◌then◌else◌, length, take, Result, ok, err, or_error,
}
use raft_example.Fsm.Endian.{get_le}
use raft_example.Fsm.Platform.{Pebble, Codec}
use raft_example.Fsm.Stream.{
  Reader, ReadError, eof, unexpected_eof, read_failed, read_full, on_read,
}
use raft_example.Fsm.Errors.{
  StoreError, record_unread, checksum_mismatch, partial_read, invalid_key_length, decompress_failed,
}
use raft_example.Fsm.Batch.{WriteBatch, new_write_batch, put, commit}

-- The variables of the loop; `hashed` is what the hasher was given, and `k` counts the puts since the
-- last commit. The number of records is only printed, and left out.
pub record Restoring (P : Pebble) : Type 0 where
  pub wb : WriteBatch P
  pub k : ℕ
  pub hashed : Bytes

-- One round goes on, leaves the loop by `break`, returns an error, or panics.
pub data Round (P : Pebble) : Type 0 where
  again : Restoring P → Reader → Round P
  stop : Restoring P → Round P
  fail : StoreError → Round P
  panic : Round P

-- The new database behind the loop, an error, or a panic. `stuck` is no result of the code: it says
-- that the fuel ran out.
pub data Loaded (P : Pebble) : Type 0 where
  loaded : P.DB → Loaded P
  failed : StoreError → Loaded P
  panicked : Loaded P
  stuck : Loaded P

-- `make([]byte, n)` panics above `max_alloc`, the largest slice of bytes that the runtime makes.
module _ (C : Codec) (P : Pebble) (max_alloc : ℕ) where
  unfoldable pub gzip_decode : Bytes → Result StoreError Bytes
  gzip_decode msg = or_error decompress_failed (C.decompress msg)

  -- `hasher.Write`
  unfoldable pub hash : Bytes → Restoring P → Restoring P
  hash p s = record s { hashed = s.hashed ++ p }

  -- The put, and the commit after every hundredth.
  unfoldable pub put_value : Bytes → Bytes → Restoring P → Restoring P
  put_value key val s =
      let wb = put P key val s.wb in
      if leb 100 (s.k + 1)
      then record s { wb = commit P wb; k = 0 }
      else record s { wb = wb; k = s.k + 1 }

  -- An error of `io.ReadFull` inside a record: `io.EOF` leaves the loop.
  unfoldable pub read_fails : Restoring P → ReadError → Round P
  read_fails s eof = stop s
  read_fails s (unexpected_eof b) = fail (record_unread (unexpected_eof b))
  read_fails s read_failed = fail (record_unread read_failed)

  unfoldable pub decode_value :
      Bytes → Bytes → Restoring P → Reader → Result StoreError Bytes → Round P
  decode_value key vdata s r (err e) = fail e
  decode_value key vdata s r (ok val) = again (put_value key val s) r

  unfoldable pub read_value : Bytes → ℕ → Restoring P → Reader → Round P
  unfolding hash decode_value gzip_decode
  read_value key to_read s r =
      if ltb max_alloc to_read
      then panic
      else on_read (read_fails s)
          (λ vdata rest. decode_value key vdata (hash vdata s) rest (gzip_decode vdata))
          (read_full to_read r)

  unfoldable pub read_value_size : Bytes → Restoring P → Reader → Round P
  unfolding hash read_value
  read_value_size key s r =
      on_read (read_fails s) (λ sz. read_value key (get_le sz) (hash sz s)) (read_full 8 r)

  unfoldable pub read_key : ℕ → Restoring P → Reader → Round P
  unfolding hash read_value_size
  read_key key_len s r =
      on_read (read_fails s) (λ kdata. read_value_size kdata (hash kdata s)) (read_full key_len r)

  -- The stream ends where a key's size should stand: four bytes are the checksum.
  unfoldable pub end_of_records : Restoring P → ReadError → Round P
  end_of_records s eof = stop s
  end_of_records s (unexpected_eof sz) =
      if length sz == 4
      then (if get_le (take 4 sz) == C.crc32 s.hashed
          then stop s
          else fail (checksum_mismatch (get_le (take 4 sz)) (C.crc32 s.hashed)))
      else fail (partial_read sz)
  end_of_records s read_failed = fail (record_unread read_failed)

  -- The sanity check of the key's length, and the rest of the record.
  unfoldable pub read_sized_key : ℕ → Restoring P → Reader → Round P
  unfolding read_key
  read_sized_key key_len s r =
      if ltb (2 ^ 30) key_len then fail (invalid_key_length key_len) else read_key key_len s r

  unfoldable pub restore_round : Restoring P → Reader → Round P
  unfolding hash read_sized_key end_of_records read_fails put_value
  restore_round s r =
      on_read (end_of_records s) (λ sz. read_sized_key (get_le sz) (hash sz s)) (read_full 8 r)

  -- The commit behind the loop.
  unfoldable pub flush : Restoring P → P.DB
  flush s = (if ltb 0 s.k then commit P s.wb else s.wb).db

  unfoldable pub next_round : (Restoring P → Reader → Loaded P) → Round P → Loaded P
  next_round rec (again s r) = rec s r
  next_round rec (stop s) = loaded (flush s)
  next_round rec (fail e) = failed e
  next_round rec panic = panicked

  unfoldable pub load_records : ℕ → Restoring P → Reader → Loaded P
  load_records zero s r = stuck
  load_records (suc fuel) s r = next_round (load_records fuel) (restore_round s r)

  -- A round that goes on has taken eight bytes at least, so this fuel is enough.
  unfoldable pub load_snapshot : P.DB → Reader → Loaded P
  load_snapshot newdb r =
      load_records (suc (length r.bytes))
        (record { wb = new_write_batch P newdb; k = 0; hashed = [] }) r
