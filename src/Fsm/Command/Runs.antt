-- ===== src/Fsm/Command/Runs.antt =====
-- Commands of fsm/apply.go that run without an error.
use raft_example.Prelude.{◌≡◌, ◌≢◌, refl, false, none, [], ◌∷◌, Bytes, Result, ok, err}
use raft_example.Fsm.Platform.{
  Pebble, PebbleError, set, not_found, io_failed, IsReliable, IsReadable,
}
use raft_example.Fsm.Store.{Store, found, get_bytes, build_column_family_key, cf_default}
use raft_example.Fsm.Command.{
  Json, JsonIsLawful, SetPayload, insert_type, query, committed, insert_parsed, insert, run_command,
  apply_command,
}

module _ (P : Pebble) (J : Json) where
  -- An insert whose encoding is read back changes the database and nothing else of the store.
  pub insert_runs :
      (json : JsonIsLawful J) (reliable : IsReliable P) (key val : Bytes) (s : Store P)
      → (db : P.DB) × (apply_command J P
            (J.marshal_command (record {
              kind = insert_type;
              payload = J.marshal_payload (record { key = key; value = val });
            }))
            s
          ≡ (record { val = []; error = none }, record s { db = db }))
  unfolding apply_command run_command insert insert_parsed committed
  insert_runs json reliable key val s =
      let sp : SetPayload = record { key = key; value = val } in
      let (db, e) = reliable.commits s.db (set (build_column_family_key cf_default key) val ∷ []) in
      (
        db,
        rw
            (
              json.unmarshal-marshal_command
                  (record { kind = insert_type; payload = J.marshal_payload sp }),
              json.unmarshal-marshal_payload sp,
              e,
            )
            refl,
      )

  found_runs : (r : Result PebbleError Bytes) → r ≢ err io_failed → (v : Bytes) × (found P r ≡ ok v)
  unfolding found
  found_runs (ok v) h = (v, refl)
  found_runs (err not_found) h = ([], refl)
  found_runs (err io_failed) h = absurd (h refl)

  pub query_runs :
      (readable : IsReadable P) (key : Bytes) (s : Store P)
      → s.closed ≡ false
      → (v : Bytes) × (query J P key s ≡ ok v)
  unfolding query get_bytes
  query_runs readable key s e =
      let path = build_column_family_key cf_default key in
      let (v, went) = found_runs (P.get s.db path) (readable.gets s.db path) in
      (v, rw (e, went) refl)
