-- ===== src/Fsm/Restore/Ends.antt =====
-- The ends of the loop of recoverSnapShot in fsm/store.go.
use raft_example.Prelude.{
  ℕ, zero, suc, ◌+◌, ◌≤◌, ◌<◌, ◌^◌, ◌≡◌, ◌≢◌, refl, Bool, inl, inr, true, false, [], arith, Bytes,
  ==_refl, ltb, if◌then◌else◌, length, Result, ok, err, Result-cases,
}
use raft_example.Fsm.Endian.{put_le, get_le, get_le-put_le}
use raft_example.Fsm.Platform.{Pebble, Codec, CodecIsLawful}
use raft_example.Fsm.Stream.{
  Reader, ReadError, eof, unexpected_eof, read_failed, read_full, on_read, read_full_takes,
}
use raft_example.Fsm.Errors.{StoreError, checksum_mismatch}
use raft_example.Fsm.Restore.{
  Restoring, Round, again, stop, fail, panic, Loaded, loaded, failed, stuck, read_fails,
  decode_value, read_value, read_value_size, read_key, read_sized_key, end_of_records,
  restore_round, load_records, load_snapshot, next_round, flush,
}

module _ (C : Codec) (P : Pebble) (max_alloc : ℕ) (s' : Restoring P) (r' : Reader) where
  read_again :
      (n : ℕ) (r : Reader) (f : ReadError → Round P) (g : Bytes → Reader → Round P)
      → ((e : ReadError) → f e ≢ again s' r')
      → on_read f g (read_full n r) ≡ again s' r'
      → (b : Bytes) × (rest : Reader) × (length rest.bytes + n ≡ length r.bytes)
        × (g b rest ≡ again s' r')
  read_again n r f g no_error h = elim (Result-cases (read_full n r)) [
    | inl ((b, rest), e) ↦ (b, rest, read_full_takes n r rest b e, rw e at h)
    | inr (x, e) ↦ absurd (no_error x (rw e at h))
  ]

  read_fails-ne-again :
      (s : Restoring P) (e : ReadError) → read_fails C P max_alloc s e ≢ again s' r'
  unfolding read_fails
  read_fails-ne-again s eof h = cc
  read_fails-ne-again s (unexpected_eof b) h = cc
  read_fails-ne-again s read_failed h = cc

  end_of_records-ne-again :
      (s : Restoring P) (e : ReadError) → end_of_records C P max_alloc s e ≢ again s' r'
  unfolding end_of_records
  end_of_records-ne-again s eof h = cc
  end_of_records-ne-again s (unexpected_eof b) h = ground arith
  end_of_records-ne-again s read_failed h = cc

  decode_value_again :
      (key vdata : Bytes) (s : Restoring P) (r : Reader) (d : Result StoreError Bytes)
      → decode_value C P max_alloc key vdata s r d ≡ again s' r'
      → length r'.bytes ≡ length r.bytes
  unfolding decode_value
  decode_value_again key vdata s r (err e) h = cc
  decode_value_again key vdata s r (ok val) h = ground arith

  else_again :
      (b : Bool) (x y : Round P)
      → x ≢ again s' r'
      → (if b then x else y) ≡ again s' r'
      → y ≡ again s' r'
  else_again true x y no_again h = absurd (no_again h)
  else_again false x y no_again h = h

  read_value_again :
      (key : Bytes) (n : ℕ) (s : Restoring P) (r : Reader)
      → read_value C P max_alloc key n s r ≡ again s' r'
      → length r'.bytes ≤ length r.bytes
  unfolding read_value
  read_value_again key n s r h =
      let (b, rest, e, k) =
        read_again n r _ _ (read_fails-ne-again s)
          (else_again (ltb max_alloc n) panic _ (λ p. cc) h) in
      omega (arith, e, decode_value_again key b _ rest _ k)

  read_key_again :
      (n : ℕ) (s : Restoring P) (r : Reader)
      → read_key C P max_alloc n s r ≡ again s' r'
      → length r'.bytes ≤ length r.bytes
  unfolding read_key read_value_size
  read_key_again n s r h =
      let (key, r₁, e, k) = read_again n r _ _ (read_fails-ne-again s) h in
      let (sz, r₂, e₂, k₂) = read_again 8 r₁ _ _ (read_fails-ne-again _) k in
      omega (arith, e, e₂, read_value_again key _ _ r₂ k₂)

  -- A round that goes on has taken eight bytes or more.
  pub restore_round_takes :
      (s : Restoring P) (r : Reader)
      → restore_round C P max_alloc s r ≡ again s' r'
      → length r'.bytes + 8 ≤ length r.bytes
  unfolding restore_round read_sized_key
  restore_round_takes s r h =
      let (sz, r₁, e, k) = read_again 8 r _ _ (end_of_records-ne-again s) h in
      omega
        (arith, e, read_key_again _ _ r₁ (else_again (ltb (2 ^ 30) (get_le sz)) _ _ (λ p. cc) k))

module _ (C : Codec) (P : Pebble) (max_alloc : ℕ) where
  next_round-ne-stuck :
      (rec : Restoring P → Reader → Loaded P) (round : Round P)
      → ((s : Restoring P) (r : Reader) → round ≡ again s r → rec s r ≢ stuck)
      → next_round C P max_alloc rec round ≢ stuck
  unfolding next_round
  next_round-ne-stuck rec (again s r) ends h = ends s r refl h
  next_round-ne-stuck rec (stop s) ends h = cc
  next_round-ne-stuck rec (fail e) ends h = cc
  next_round-ne-stuck rec panic ends h = cc

  load_records-ne-stuck :
      (fuel : ℕ) (s : Restoring P) (r : Reader)
      → length r.bytes < fuel
      → load_records C P max_alloc fuel s r ≢ stuck
  unfolding load_records
  load_records-ne-stuck zero s r h = absurd (omega arith)
  load_records-ne-stuck (suc fuel) s r h =
      next_round-ne-stuck (load_records C P max_alloc fuel) (restore_round C P max_alloc s r)
        (λ s' r' e.
          load_records-ne-stuck fuel s' r'
            (omega (arith, restore_round_takes C P max_alloc s' r' s r e)))

  -- The loop of recoverSnapShot ends on every stream, well formed or not: the fuel that it is given
  -- is enough.
  pub load_snapshot-ne-stuck :
      (newdb : P.DB) (r : Reader) → load_snapshot C P max_alloc newdb r ≢ stuck
  unfolding load_snapshot
  load_snapshot-ne-stuck newdb r = load_records-ne-stuck _ _ r (omega arith)

  module _ (fuel : ℕ) (s : Restoring P) where
    -- Four bytes at the end that are the sum of the records: the loop is done.
    pub load_records-checksum :
        CodecIsLawful C
        → load_records C P max_alloc
            (suc fuel)
            s
            (record { bytes = put_le 4 (C.crc32 s.hashed); broken = false })
          ≡ loaded (flush C P max_alloc s)
    unfolding load_records restore_round read_full put_le end_of_records next_round
    load_records-checksum lawful = rw (
      get_le-put_le 4 (C.crc32 s.hashed) (lawful.crc32_bound s.hashed),
      ==_refl (C.crc32 s.hashed),
    )

    -- The same for the sum of other bytes: an error.
    pub load_records-mismatch :
        (sum : ℕ)
        → sum < 2 ^ 32
        → sum ≢ C.crc32 s.hashed
        → load_records C P max_alloc (suc fuel) s (record { bytes = put_le 4 sum; broken = false })
          ≡ failed (checksum_mismatch sum (C.crc32 s.hashed))
    unfolding load_records restore_round read_full put_le end_of_records next_round
    load_records-mismatch sum fits differ = rw (get_le-put_le 4 sum fits) (ground arith)

    -- A stream that ends where a key's size should stand is accepted without any sum.
    pub load_records-eof :
        load_records C P max_alloc (suc fuel) s (record { bytes = []; broken = false })
        ≡ loaded (flush C P max_alloc s)
    unfolding load_records restore_round read_full end_of_records next_round
    load_records-eof = refl
