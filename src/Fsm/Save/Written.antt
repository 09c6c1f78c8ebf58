-- ===== src/Fsm/Save/Written.antt =====
-- The bytes of a snapshot that saveSnapShot has finished, and the sink after an error.
use raft_example.Prelude.{
  ℕ, ◌+◌, ◌≡◌, ap, subst, refl, ◌⊎◌, inl, inr, ◌∙◌, Option, none, some, [], ◌++◌, append_assoc,
  arith, Bytes, length, length-append, Result, ok, err,
}
use raft_example.Prelude.Map.{Map}
use raft_example.Fsm.Endian.{put_le, length-put_le}
use raft_example.Fsm.Platform.{Codec, Pebble, PebbleError}
use raft_example.Fsm.Stream.{Sink, closed, cancelled, write, cancel, close}
use raft_example.Fsm.Errors.{StoreError, sink_failed, pebble_error}
use raft_example.Fsm.Header.{header_bytes}
use raft_example.Fsm.Save.{
  Saving, SnapshotResult, ◌>>◌, write_or_cancel, finish, save_records, save_body, save_iterated,
  save_snapshot,
}
use raft_example.Fsm.Save.Steps.{
  Grew, >>=-eq-ok, >>=-eq-err, write_or_cancel-Adds, save_records-Adds, records_bytes,
}

-- A finished snapshot: the header, the records, and the sum of the records.
abbrev pub snapshot_bytes : Codec → Bytes → ℕ → ℕ → Map Bytes → Bytes
snapshot_bytes C node_id last_index now es =
    header_bytes node_id last_index now
    ++ (records_bytes C es ++ put_le 4 (C.crc32 (records_bytes C es)))

abbrev pub fresh : Sink → Saving
fresh sink = record { sink = sink; total_size = 0; count = 0; hashed = [] }

-- What saveSnapShot reports and leaves in the sink when it returns without an error.
pub record IsFinished (C : Codec) (node_id : Bytes) (last_index now : ℕ) (es : Map Bytes)
    (before : Sink) (r : SnapshotResult) (after : Sink) : Type 0 where
  pub state : after.state ≡ closed
  pub written : after.written ≡ before.written ++ snapshot_bytes C node_id last_index now es
  pub size : r.size ≡ length (snapshot_bytes C node_id last_index now es)
  pub records : r.records ≡ length es
  pub checksum : r.checksum ≡ C.crc32 (records_bytes C es)

module _ (C : Codec) (s t : Saving) where
  finish_returns :
      (failure : Option PebbleError) (r : SnapshotResult)
      → finish C failure s ≡ (ok r, t)
      → (failure ≡ none)
        × (t.sink.state ≡ closed)
        × (t.sink.written ≡ s.sink.written ++ put_le 4 (C.crc32 s.hashed))
        × (r.size ≡ s.total_size + 4)
        × (r.records ≡ s.count)
        × (r.checksum ≡ C.crc32 s.hashed)
  unfolding finish write cancel close
  finish_returns none r h = ground (arith, length-put_le 4 (C.crc32 s.hashed))
  finish_returns (some e) r h = cc

  finish_fails :
      (failure : Option PebbleError) (e : StoreError)
      → finish C failure s ≡ (err e, t)
      → (t.sink.state ≡ cancelled)
        ⊎ ((failure ≡ none)
            × (e ≡ sink_failed)
            × (t.sink.state ≡ s.sink.state)
            × (t.sink.written ≡ s.sink.written ++ put_le 4 (C.crc32 s.hashed)))
  unfolding finish write cancel close
  finish_fails none e h = ground arith
  finish_fails (some x) e h = ground arith

-- `sink.Close` has returned an error, with the whole snapshot written.
pub record IsUnclosed (C : Codec) (node_id : Bytes) (last_index now : ℕ) (es : Map Bytes)
    (before : Sink) (e : StoreError) (after : Sink) : Type 0 where
  pub error : e ≡ sink_failed
  pub state : after.state ≡ before.state
  pub written : after.written ≡ before.written ++ snapshot_bytes C node_id last_index now es

module _ (C : Codec) (node_id : Bytes) (last_index now : ℕ) (es : Map Bytes)
    (failure : Option PebbleError) (sink : Sink) where
  save_body-IsFinished :
      (r : SnapshotResult) (after : Saving)
      → save_body C node_id last_index now es failure (fresh sink) ≡ (ok r, after)
      → (failure ≡ none) × IsFinished C node_id last_index now es sink r after.sink
  unfolding save_body
  save_body-IsFinished r after h =
      let header = header_bytes node_id last_index now in
      let (u, s₁, e₁, h₁) =
        >>=-eq-ok (write_or_cancel header) (λ _. save_records C es >> finish C failure) (fresh sink)
          after r h in
      let (v, s₂, e₂, h₂) = >>=-eq-ok (save_records C es) (λ _. finish C failure) s₁ after r h₁ in
      let g₁ = (write_or_cancel-Adds header).returns _ s₁ u e₁ in
      let g₂ = (save_records-Adds C es).returns s₁ s₂ v e₂ in
      let (good, state, written, size, records, checksum) =
        finish_returns C s₂ after failure r h₂ in
      let hashed : s₂.hashed ≡ records_bytes C es = g₂.hashed ∙ rw g₁.hashed in
      (
        good,
        record {
          state = state;
          written = rw (written, g₂.written, g₁.written, hashed) (simp append_assoc);
          size = omega (
            arith,
            size,
            g₂.total_size,
            g₁.total_size,
            length-append header (records_bytes C es ++ put_le 4 (C.crc32 (records_bytes C es))),
            length-append (records_bytes C es) (put_le 4 (C.crc32 (records_bytes C es))),
            length-put_le 4 (C.crc32 (records_bytes C es)),
          );
          records = omega (arith, records, g₂.count, g₁.count);
          checksum = checksum ∙ ap C.crc32 hashed;
        },
      )

  save_body_fails :
      (e : StoreError) (after : Saving)
      → save_body C node_id last_index now es failure (fresh sink) ≡ (err e, after)
      → (after.sink.state ≡ cancelled)
        ⊎ ((failure ≡ none) × IsUnclosed C node_id last_index now es sink e after.sink)
  unfolding save_body
  save_body_fails e after h =
      let header = header_bytes node_id last_index now in
      elim (>>=-eq-err (write_or_cancel header) (λ _. save_records C es >> finish C failure)
        (fresh sink) after e h) [
          | inl x ↦ inl ((write_or_cancel-Adds header).fails _ after e x)
          | inr (u, s₁, e₁, h₁) ↦
              elim (>>=-eq-err (save_records C es) (λ _. finish C failure) s₁ after e h₁) [
                | inl x ↦ inl ((save_records-Adds C es).fails s₁ after e x)
                | inr (v, s₂, e₂, h₂) ↦
                    unclosed s₁ s₂ ((write_or_cancel-Adds header).returns _ s₁ u e₁)
                      ((save_records-Adds C es).returns s₁ s₂ v e₂)
                      (finish_fails C s₂ after failure e h₂)
              ]
        ]
    where
      unclosed :
          (s₁ s₂ : Saving)
          → Grew (header_bytes node_id last_index now) [] 0 (fresh sink) s₁
          → Grew (records_bytes C es) (records_bytes C es) (length es) s₁ s₂
          → (after.sink.state ≡ cancelled)
            ⊎ ((failure ≡ none)
                × (e ≡ sink_failed)
                × (after.sink.state ≡ s₂.sink.state)
                × (after.sink.written ≡ s₂.sink.written ++ put_le 4 (C.crc32 s₂.hashed)))
          → (after.sink.state ≡ cancelled)
            ⊎ ((failure ≡ none) × IsUnclosed C node_id last_index now es sink e after.sink)
      unclosed s₁ s₂ g₁ g₂ (inl c) = inl c
      unclosed s₁ s₂ g₁ g₂ (inr (good, which, state, written)) =
          let hashed : s₂.hashed ≡ records_bytes C es = g₂.hashed ∙ rw g₁.hashed in
          inr (
            good,
            record {
              error = which;
              state = state ∙ g₂.state ∙ g₁.state;
              written = rw (written, g₂.written, g₁.written, hashed) (simp append_assoc);
            },
          )

-- The two halves of a run whose final state is known only in part.
run_of :
    {A : Type 0} {r : Result StoreError A} {after : Sink} (body : Result StoreError A × Saving)
    → ◌≡◌ {A = Result StoreError A × Sink} (body.0, body.1.sink) (r, after)
    → (body ≡ (r, body.1)) × (body.1.sink ≡ after)
run_of {A} body h = (
  ap (λ z. (z, body.1)) (ap (λ (w : Result StoreError A × Sink). w.0) h),
  ap (λ (w : Result StoreError A × Sink). w.1) h,
)

module _ (C : Codec) (node_id : Bytes) (last_index now : ℕ) (sink after : Sink) where
  save_iterated-IsFinished :
      (it : Result PebbleError (Map Bytes × Option PebbleError)) (r : SnapshotResult)
      → save_iterated C node_id last_index now sink it ≡ (ok r, after)
      → (es : Map Bytes) × (it ≡ ok (es, none))
        × IsFinished C node_id last_index now es sink r after
  unfolding save_iterated
  save_iterated-IsFinished (err e) r h = cc
  save_iterated-IsFinished (ok (es, failure)) r h =
      let (run, last) = run_of (save_body C node_id last_index now es failure (fresh sink)) h in
      let (good, done) = save_body-IsFinished C node_id last_index now es failure sink r _ run in
      (
        es,
        ap (λ f. ok (es, f)) good,
        subst (λ z. IsFinished C node_id last_index now es sink r z) last done,
      )

  save_iterated_fails :
      (it : Result PebbleError (Map Bytes × Option PebbleError)) (e : StoreError)
      → save_iterated C node_id last_index now sink it ≡ (err e, after)
      → (after.state ≡ cancelled)
        ⊎ ((x : PebbleError) × (it ≡ err x) × (e ≡ pebble_error x) × (after ≡ sink))
        ⊎ ((es : Map Bytes) × (it ≡ ok (es, none))
            × IsUnclosed C node_id last_index now es sink e after)
  unfolding save_iterated
  save_iterated_fails (err x) e h = inr (inl (x, refl, ground arith, ground arith))
  save_iterated_fails (ok (es, failure)) e h =
      let (run, last) = run_of (save_body C node_id last_index now es failure (fresh sink)) h in
      elim (save_body_fails C node_id last_index now es failure sink e _ run) [
        | inl c ↦ inl (subst (λ z. z.state ≡ cancelled) last c)
        | inr (good, u) ↦ inr (
            inr (
              es,
              ap (λ f. ok (es, f)) good,
              subst (λ z. IsUnclosed C node_id last_index now es sink e z) last u,
            ))
      ]

module _ (C : Codec) (P : Pebble) (node_id : Bytes) (last_index now : ℕ) (db : P.DB)
    (sink after : Sink) where
  -- When saveSnapShot returns without an error, the iterator passed all entries with no error, the
  -- sink is closed, and it has got the header, one record for each entry, and the sum of the
  -- records; the result counts those bytes and records and names that sum.
  pub save_snapshot-IsFinished :
      (r : SnapshotResult)
      → save_snapshot C P node_id last_index now db sink ≡ (ok r, after)
      → (es : Map Bytes) × (P.iterate db ≡ ok (es, none))
        × IsFinished C node_id last_index now es sink r after
  unfolding save_snapshot
  save_snapshot-IsFinished r h =
      save_iterated-IsFinished C node_id last_index now sink after (P.iterate db) r h

  -- When saveSnapShot returns an error, one of three things has happened: the sink has been
  -- cancelled; or the iterator could not be opened, and the sink is untouched; or the iterator
  -- passed all entries with no error, the sink has got the whole snapshot and its Close has
  -- returned the error, with the state of the sink as it was before.
  pub save_snapshot_fails :
      (e : StoreError)
      → save_snapshot C P node_id last_index now db sink ≡ (err e, after)
      → (after.state ≡ cancelled)
        ⊎ ((x : PebbleError) × (P.iterate db ≡ err x) × (e ≡ pebble_error x) × (after ≡ sink))
        ⊎ ((es : Map Bytes) × (P.iterate db ≡ ok (es, none))
            × IsUnclosed C node_id last_index now es sink e after)
  unfolding save_snapshot
  save_snapshot_fails e h =
      save_iterated_fails C node_id last_index now sink after (P.iterate db) e h
