-- ===== src/Fsm/Header/Laws.antt =====
-- Reading back a header, and what a header that is accepted looks like.
use raft_example.Prelude.{
  ℕ, ◌+◌, ◌^◌, ◌<◌, ◌≡◌, refl, sym, ◌++◌, arith, Bytes, Bool, append_assoc, length, length-append,
  take, drop, ok,
}
use raft_example.Fsm.Endian.{put_le, get_le, length-put_le, get_le-put_le}
use raft_example.Fsm.Stream.{read_full-append}
use raft_example.Fsm.Header.{
  SnapshotHeader, fixed_fields, header_bytes, read_node_id, check_header, read_snapshot_header,
  snapshot_magic, snapshot_version,
}

pub length-header_bytes :
    (node_id : Bytes) (last_index now : ℕ)
    → length (header_bytes node_id last_index now) ≡ 30 + length node_id
unfolding header_bytes put_le
length-header_bytes node_id last_index now = omega (arith, length-append node_id (put_le 4 0))

abbrev pub written_header : Bytes → ℕ → ℕ → SnapshotHeader
written_header node_id last_index now = record {
  magic = snapshot_magic;
  version = snapshot_version;
  last_index = last_index;
  timestamp = now;
  node_id = node_id;
  checksum = 0;
}

module _ (node_id rest : Bytes) (last_index now : ℕ) (broken : Bool)
    (id_fits : length node_id < 2 ^ 16) (index_fits : last_index < 2 ^ 64)
    (now_fits : now < 2 ^ 64) where
  abbrev fields : Bytes
  fields = fixed_fields last_index now (length node_id)

  length-fields : 26 ≡ length fields
  unfolding fixed_fields put_le
  length-fields = refl

  last_index_field : get_le (take 8 (drop 8 fields)) ≡ last_index
  unfolding fixed_fields put_le
  last_index_field = get_le-put_le 8 last_index index_fits

  now_field : get_le (take 8 (drop 8 (drop 8 fields))) ≡ now
  unfolding fixed_fields put_le
  now_field = get_le-put_le 8 now now_fits

  id_field : get_le (take 2 (drop 16 (drop 8 fields))) ≡ length node_id
  unfolding fixed_fields put_le
  id_field = get_le-put_le 2 (length node_id) id_fits

  read_node_id-written :
      read_node_id snapshot_magic snapshot_version
        (drop 8 fields)
        (record { bytes = node_id ++ (put_le 4 0 ++ rest); broken = broken })
      ≡ ok (written_header node_id last_index now, record { bytes = rest; broken = broken })
  unfolding read_node_id
  read_node_id-written =
      rw
        (
          id_field,
          read_full-append _ node_id (put_le 4 0 ++ rest) broken refl,
          read_full-append 4 (put_le 4 0) rest broken (sym (length-put_le 4 0)),
          last_index_field,
          now_field,
        )
        (unfold get_le put_le in refl)

  check_header-written :
      check_header fields (record { bytes = node_id ++ (put_le 4 0 ++ rest); broken = broken })
      ≡ ok (written_header node_id last_index now, record { bytes = rest; broken = broken })
  unfolding check_header fixed_fields put_le get_le
  check_header-written = read_node_id-written

  -- The fields come back as they were written, with the node id if it fits its 16-bit length, and
  -- what stands behind the header is left to be read.
  pub read_snapshot_header-header_bytes :
      read_snapshot_header
        (record { bytes = header_bytes node_id last_index now ++ rest; broken = broken })
      ≡ ok (written_header node_id last_index now, record { bytes = rest; broken = broken })
  unfolding read_snapshot_header header_bytes
  read_snapshot_header-header_bytes =
      rw
        (
          append_assoc fields (node_id ++ put_le 4 0) rest,
          append_assoc node_id (put_le 4 0) rest,
          read_full-append 26 fields (node_id ++ (put_le 4 0 ++ rest)) broken length-fields,
        )
        check_header-written
