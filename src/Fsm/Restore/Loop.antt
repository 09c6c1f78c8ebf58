-- ===== src/Fsm/Restore/Loop.antt =====
-- The loop of recoverSnapShot in fsm/store.go on the records that saveSnapShot writes.
use raft_example.Prelude.{
  ℕ, suc, ◌+◌, ◌^◌, ◌<◌, ◌≤◌, ◌≡◌, refl, sym, ap, ◌∙◌, Bool, false, [], ◌∷◌, ◌++◌, append_assoc,
  arith, All, some, Bytes, ltb, length,
}
use raft_example.Prelude.Map.{Map}
use raft_example.Fsm.Endian.{put_le, length-put_le, get_le-put_le}
use raft_example.Fsm.Platform.{Pebble, Codec, CodecIsLawful}
use raft_example.Fsm.Stream.{Reader, read_full-append}
use raft_example.Fsm.Save.Steps.{record_bytes, zipped, records_bytes}
use raft_example.Fsm.Restore.{
  Restoring, again, hash, put_value, read_value, read_value_size, read_key, restore_round,
  gzip_decode, load_records, next_round,
}

not-ltb : (a b : ℕ) → a ≤ b → ltb b a ≡ false
not-ltb a b h = ground arith

no_more : (fuel : ℕ) → 0 + fuel ≡ fuel
no_more fuel = omega arith

one_more : (n fuel : ℕ) → suc n + fuel ≡ suc (n + fuel)
one_more n fuel = omega arith

module _ (C : Codec) (P : Pebble) (max_alloc : ℕ) where
  -- The state behind a record: its bytes are hashed and its pair is put.
  abbrev pub added : Bytes → Bytes → Bytes → Restoring P → Restoring P
  added key z val s =
      put_value C P max_alloc key val (record s { hashed = s.hashed ++ record_bytes C key z })

  -- A pair that the restore accepts back: its key is at most 1 GiB long, and the runtime can make
  -- the slice for its compressed value.
  abbrev pub Fits : Bytes × Bytes → Type 0
  Fits (key, val) = (length key ≤ 2 ^ 30) × (length (zipped C val) ≤ max_alloc)

  abbrev pub added_all : Map Bytes → Restoring P → Restoring P
  added_all [] s = s
  added_all ((key, val) ∷ es) s = added_all es (added key (zipped C val) val s)

module _ (C : Codec) (P : Pebble) (max_alloc : ℕ) (broken : Bool)
    (alloc_fits : max_alloc < 2 ^ 64) where
  abbrev from : Bytes → Reader
  from b = record { bytes = b; broken = broken }

  module _ (key z val rest : Bytes) (decodes : C.decompress z ≡ some val) where
    read_value-record :
        (s : Restoring P)
        → length z ≤ max_alloc
        → read_value C P max_alloc key (length z) s (from (z ++ rest))
          ≡ again (put_value C P max_alloc key val (hash C P max_alloc z s)) (from rest)
    unfolding read_value gzip_decode
    read_value-record s small =
        rw (not-ltb _ _ small, read_full-append _ z rest broken refl, decodes)

    read_value_size-record :
        (s : Restoring P)
        → length z ≤ max_alloc
        → read_value_size C P max_alloc key s (from (put_le 8 (length z) ++ (z ++ rest)))
          ≡ again
              (put_value C P max_alloc key val
                (hash C P max_alloc z (hash C P max_alloc (put_le 8 (length z)) s)))
              (from rest)
    unfolding read_value_size
    read_value_size-record s small =
        rw
          (
            read_full-append 8 (put_le 8 (length z)) (z ++ rest) broken (sym (length-put_le 8 _)),
            get_le-put_le 8 (length z) (omega arith),
          )
          (read_value-record _ small)

    read_key-record :
        (s : Restoring P)
        → length z ≤ max_alloc
        → read_key C P max_alloc (length key) s (from (key ++ (put_le 8 (length z) ++ (z ++ rest))))
          ≡ again
              (put_value C P max_alloc key val (
                hash C P max_alloc z
                  (hash C P max_alloc (put_le 8 (length z)) (hash C P max_alloc key s))))
              (from rest)
    unfolding read_key
    read_key-record s small =
        rw (read_full-append _ key (put_le 8 (length z) ++ (z ++ rest)) broken refl)
          (read_value_size-record _ small)

    restore_round-record :
        (s : Restoring P)
        → length key ≤ 2 ^ 30
        → length z ≤ max_alloc
        → restore_round C P max_alloc s (from (record_bytes C key z ++ rest))
          ≡ again (added C P max_alloc key z val s) (from rest)
    unfolding restore_round
    restore_round-record s key_small small =
        rw
          (
            append_assoc (put_le 8 (length key)) (key ++ (put_le 8 (length z) ++ z)) rest,
            append_assoc key (put_le 8 (length z) ++ z) rest,
            append_assoc (put_le 8 (length z)) z rest,
            read_full-append 8 (put_le 8 (length key)) (key ++ (put_le 8 (length z) ++ (z ++ rest)))
                broken (sym (length-put_le 8 _)),
            get_le-put_le 8 (length key) (omega arith),
            not-ltb _ _ key_small,
          )
          (read_key-record _ small
            ∙ ap
                (λ h. again (put_value C P max_alloc key val (record s { hashed = h })) (from rest))
                (simp append_assoc))

  -- On the records of `es` the loop takes a round for each, whatever comes behind them.
  pub load_records-records :
      CodecIsLawful C
      → (es : Map Bytes) (fuel : ℕ) (tail : Bytes) (s : Restoring P) → All (Fits C P max_alloc) es
      → load_records C P max_alloc (length es + fuel) s (from (records_bytes C es ++ tail))
        ≡ load_records C P max_alloc fuel (added_all C P max_alloc es s) (from tail)
  unfolding load_records next_round
  load_records-records lawful [] fuel tail s fits =
      ap (λ f. load_records C P max_alloc f s (from tail)) (no_more fuel)
  load_records-records lawful ((key, val) ∷ es) fuel tail s ((k, v), fits) =
      let (z, e) = lawful.compresses val in
      let decodes : C.decompress (zipped C val) ≡ some val =
        lawful.decompress-compress val (zipped C val) (e ∙ rw e) in
      rw
        (
          one_more (length es) fuel,
          append_assoc (record_bytes C key (zipped C val)) (records_bytes C es) tail,
          restore_round-record key (zipped C val) val (records_bytes C es ++ tail) decodes s k v,
        )
        (load_records-records lawful es fuel tail _ fits)
