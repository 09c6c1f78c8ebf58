-- ===== src/Fsm/Save/Completes.antt =====
-- saveSnapShot into a sink whose calls all go through.
use raft_example.Prelude.{ℕ, ◌≡◌, refl, none, [], ◌∷◌, Bytes, length, Result, ok, err, arith}
use raft_example.Prelude.Map.{Map}
use raft_example.Fsm.Endian.{put_le}
use raft_example.Fsm.Platform.{Pebble, Codec, CodecIsLawful}
use raft_example.Fsm.Errors.{StoreError}
use raft_example.Fsm.Stream.{Sink, write, close}
use raft_example.Fsm.Header.{header_bytes}
use raft_example.Fsm.Save.{
  Saving, Save, continue, ◌>>=◌, write_or_cancel, write_hashed, count_record, SnapshotResult,
  close_sink, gzip_encode, gzip_or_cancel, save_record, save_records, check_iterator,
  write_checksum, result_of, finish, save_body, save_iterated, save_snapshot,
}

-- No call of the sink is to fail.
abbrev Free : Saving → Type 0
Free s = s.sink.plan ≡ []

-- The action returns with no error, and still no call is to fail.
abbrev Returns : {A : Type 0} → Result StoreError A × Saving → Type 0
Returns {A} (r, s) = ((a : A) × (r ≡ ok a)) × Free s

abbrev Completes : {A : Type 0} → Save A → Type 0
Completes f = (s : Saving) → Free s → Returns (f s)

module _ {A B : Type 0} where
  Completes-bind :
      (m : Save A) (f : A → Save B)
      → Completes m
      → ((a : A) → Completes (f a))
      → Completes (m >>= f)
  Completes-bind m f h k s q = by_result (m s).0 (m s).1 (h s q)
    where
      by_result : (r : Result StoreError A) (t : Saving) → Returns (r, t) → Returns (continue r f t)
      by_result (ok a) t (_, free) = k a t free
      by_result (err e) t ((a, wrong), free) = absurd (ground (arith, wrong))

Completes-write_or_cancel : (p : Bytes) → Completes (write_or_cancel p)
unfolding write_or_cancel write
Completes-write_or_cancel p s q = rw q ((tt, refl), refl)

Completes-write_hashed : (p : Bytes) → Completes (write_hashed p)
unfolding write_hashed
Completes-write_hashed p =
    Completes-bind _ _ (Completes-write_or_cancel p) (λ _ s q. ((tt, refl), q))

Completes-count_record : Completes count_record
unfolding count_record
Completes-count_record s q = ((tt, refl), q)

Completes-close_sink : Completes close_sink
unfolding close_sink close
Completes-close_sink s q = rw q ((tt, refl), refl)

module _ (C : Codec) (codec : CodecIsLawful C) where
  Completes-gzip_or_cancel : (val : Bytes) → Completes (gzip_or_cancel C val)
  unfolding gzip_or_cancel gzip_encode
  Completes-gzip_or_cancel val s q =
      let (z, e) = codec.compresses val in rw (gzip_or_cancel, e) ((z, refl), q)

  Completes-save_record : (key val : Bytes) → Completes (save_record C key val)
  unfolding save_record
  Completes-save_record key val = Completes-bind _ _ Completes-count_record (λ _.
      Completes-bind _ _ (Completes-write_hashed (put_le 8 (length key))) (λ _.
        Completes-bind _ _ (Completes-write_hashed key) (λ _.
          Completes-bind _ _ (Completes-gzip_or_cancel val) (λ z.
            Completes-bind _ _ (Completes-write_hashed (put_le 8 (length z)))
              (λ _. Completes-write_hashed z)))))

  Completes-save_records : (es : Map Bytes) → Completes (save_records C es)
  unfolding save_records
  Completes-save_records [] = λ s q. ((tt, refl), q)
  Completes-save_records ((key, val) ∷ es) =
      Completes-bind _ _ (Completes-save_record key val) (λ _. Completes-save_records es)

  Completes-check_iterator : Completes (check_iterator C none)
  unfolding check_iterator
  Completes-check_iterator s q = ((tt, refl), q)

  Completes-write_checksum : Completes (write_checksum C)
  unfolding write_checksum
  Completes-write_checksum s q = Completes-write_or_cancel (put_le 4 (C.crc32 s.hashed)) s q

  give_result : Save SnapshotResult
  give_result s = (ok (result_of C s), s)

  Completes-give_result : Completes give_result
  unfolding give_result
  Completes-give_result s q = ((result_of C s, refl), q)

  Completes-finish : Completes (finish C none)
  unfolding finish give_result
  Completes-finish =
      Completes-bind (check_iterator C none)
        (λ _. write_checksum C >>= λ _. close_sink >>= λ _. give_result) Completes-check_iterator
        (λ _.
          Completes-bind (write_checksum C) (λ _. close_sink >>= λ _. give_result)
            Completes-write_checksum
            (λ _.
              Completes-bind close_sink (λ _. give_result) Completes-close_sink
                (λ _. Completes-give_result)))

  Completes-save_body :
      (node_id : Bytes) (last_index now : ℕ) (es : Map Bytes)
      → Completes (save_body C node_id last_index now es none)
  unfolding save_body
  Completes-save_body node_id last_index now es =
      Completes-bind _ _ (Completes-write_or_cancel (header_bytes node_id last_index now))
        (λ _. Completes-bind _ _ (Completes-save_records es) (λ _. Completes-finish))

  -- With a codec that compresses every value, an iterator that passes all entries with no error,
  -- and a sink whose calls all go through, saveSnapShot returns without an error.
  pub save_snapshot_completes :
      (P : Pebble) (node_id : Bytes) (last_index now : ℕ) (db : P.DB) (sink : Sink) (es : Map Bytes)
      → P.iterate db ≡ ok (es, none)
      → sink.plan ≡ []
      → (r : SnapshotResult) × ((save_snapshot C P node_id last_index now db sink).0 ≡ ok r)
  unfolding save_snapshot save_iterated
  save_snapshot_completes P node_id last_index now db sink es it free = rw it (
      (Completes-save_body node_id last_index now es
        (record { sink = sink; total_size = 0; count = 0; hashed = [] }) free).0)
