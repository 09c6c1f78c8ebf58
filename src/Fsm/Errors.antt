-- ===== src/Fsm/Errors.antt =====
-- The errors that the package fsm returns, one constructor for each `errors.New` and `fmt.Errorf`
-- of its source and for each error that it passes on.
use raft_example.Prelude.{ℕ, Bytes}
use raft_example.Fsm.Platform.{PebbleError}
use raft_example.Fsm.Stream.{ReadError}

pub data StoreError : Type 0 where
  db_closed : StoreError  -- pebble.ErrClosed
  pebble_error : PebbleError → StoreError
  -- readSnapshotHeader
  header_unread : ReadError → StoreError
  invalid_magic : ℕ → StoreError
  unsupported_version : ℕ → StoreError
  node_id_unread : ReadError → StoreError
  header_checksum_unread : ReadError → StoreError
  -- saveSnapShot
  sink_failed : StoreError
  compress_failed : StoreError
  iterator_failed : PebbleError → StoreError
  -- recoverSnapShot
  record_unread : ReadError → StoreError
  checksum_mismatch : ℕ → ℕ → StoreError
  partial_read : Bytes → StoreError
  invalid_key_length : ℕ → StoreError
  decompress_failed : StoreError
  -- utils.go
  os_failed : StoreError
  not_exist : StoreError
  corrupted_content : StoreError
  corrupted_crc : StoreError
  db_dir_deleted : StoreError
  -- applyCommand and insert
  command_unparsed : StoreError
  payload_unparsed : StoreError
  command_undefined : StoreError
