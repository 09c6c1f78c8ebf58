-- ===== src/Fsm/Header.antt =====
-- The snapshot header of fsm/store.go: what saveSnapShot writes and readSnapshotHeader reads.
pub mod Laws
use raft_example.Prelude.{
  ℕ, ◌^◌, Bool, ◌++◌, Bytes, ltb, ◌==◌, if◌then◌else◌, length, take, drop, Result, ok, err, ◌>>=◌,
  wrap_error,
}
use raft_example.Fsm.Endian.{put_le, get_le}
use raft_example.Fsm.Stream.{Reader, read_full}
use raft_example.Fsm.Errors.{
  StoreError, header_unread, invalid_magic, unsupported_version, node_id_unread,
  header_checksum_unread,
}

abbrev pub snapshot_version : ℕ
snapshot_version = 1

abbrev pub snapshot_magic : ℕ
snapshot_magic = 0x52414654

-- `timestamp` is the bit pattern of the int64.
pub record SnapshotHeader : Type 0 where
  pub magic : ℕ
  pub version : ℕ
  pub last_index : ℕ
  pub timestamp : ℕ
  pub node_id : Bytes
  pub checksum : ℕ

-- The 26 bytes of fixed fields; a node id is announced by the low 16 bits of its length.
unfoldable pub fixed_fields : ℕ → ℕ → ℕ → Bytes
fixed_fields last_index now node_id_len =
    put_le 4 snapshot_magic
    ++ (put_le 4 snapshot_version
        ++ (put_le 8 last_index ++ (put_le 8 now ++ put_le 2 node_id_len)))

-- The header buffer. Its last four bytes, the place of the checksum, stay zero.
unfoldable pub header_bytes : Bytes → ℕ → ℕ → Bytes
unfolding fixed_fields
header_bytes node_id last_index now =
    fixed_fields last_index now (length node_id) ++ (node_id ++ put_le 4 0)

-- The fields behind the magic number and the version, which have been checked.
read_node_id : ℕ → ℕ → Bytes → Reader → Result StoreError (SnapshotHeader × Reader)
read_node_id magic version fields r = do
  (node_id, r₁) ← wrap_error node_id_unread (read_full (get_le (take 2 (drop 16 fields))) r)
  (sum, r₂) ← wrap_error header_checksum_unread (read_full 4 r₁)
  ok (
    record {
      magic = magic;
      version = version;
      last_index = get_le (take 8 fields);
      timestamp = get_le (take 8 (drop 8 fields));
      node_id = node_id;
      checksum = get_le sum;
    },
    r₂,
  )

check_header : Bytes → Reader → Result StoreError (SnapshotHeader × Reader)
unfolding read_node_id
check_header buf r =
    let magic = get_le (take 4 buf) in
    let version = get_le (take 4 (drop 4 buf)) in
    if magic == snapshot_magic
    then (if ltb snapshot_version version
        then err (unsupported_version version)
        else read_node_id magic version (drop 8 buf) r)
    else err (invalid_magic magic)

unfoldable pub read_snapshot_header : Reader → Result StoreError (SnapshotHeader × Reader)
unfolding check_header
read_snapshot_header r = do
  (buf, rest) ← wrap_error header_unread (read_full 26 r)
  check_header buf rest
