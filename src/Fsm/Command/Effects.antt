-- ===== src/Fsm/Command/Effects.antt =====
-- What a command does to the value of each key, whatever bytes the log holds.
use raft_example.Prelude.{
  ◌≡◌, refl, ◌∙◌, ◌⊎◌, inl, inr, false, Option, none, some, [], ◌∷◌, Bytes, Result, ok, err,
  or_error, if◌then◌else◌, ◌==◌, arith, same,
}
use raft_example.Fsm.Platform.{
  Pebble, PebbleError, not_found, io_failed, PebbleIsLawful, IsReliable, set, overlay,
}
use raft_example.Fsm.Errors.{StoreError, command_unparsed, payload_unparsed}
use raft_example.Fsm.Store.{Store, cf_default, found}
use raft_example.Fsm.Command.{
  query_type, insert_type, Command, SetPayload, Json, query, insert, insert_parsed, run_command,
  apply_command,
}

-- The value of a user's key in the store.
abbrev pub value_of : (P : Pebble) → Store P → Bytes → Option Bytes
value_of P s key = P.find s.db (cf_default ∷ key)

abbrev decoded_insert : Json → Option Command → Option SetPayload
decoded_insert J none = none
decoded_insert J (some c) =
    if c.kind == query_type
    then none
    else if c.kind == insert_type
    then J.unmarshal_payload c.payload
    else none

-- The pair that the bytes of a log entry set, if they are an insert that can be read.
abbrev pub write_of : Json → Bytes → Option SetPayload
write_of J input = decoded_insert J (J.unmarshal_command input)

abbrev pub written_value : Option SetPayload → Bytes → Option Bytes → Option Bytes
written_value none key old = old
written_value (some sp) key old = if same sp.key key then some sp.value else old

module _ (J : Json) (P : Pebble) (lawful : PebbleIsLawful P) where
  found_value :
      (db : P.DB) (key val : Bytes)
      → found P (P.get db key) ≡ ok val
      → (P.find db key ≡ some val) ⊎ ((P.find db key ≡ none) × (val ≡ []))
  unfolding found
  found_value db key val h = by_get (P.get db key) refl h
    where
      by_get :
          (r : Result PebbleError Bytes)
          → P.get db key ≡ r
          → found P r ≡ ok val
          → (P.find db key ≡ some val) ⊎ ((P.find db key ≡ none) × (val ≡ []))
      by_get (ok v) e k = inl (lawful.get_ok db key v e ∙ ground arith)
      by_get (err not_found) e k = inr (lawful.get_not_found db key e, ground arith)
      by_get (err io_failed) e k = cc

  -- Over a lawful database, a query that returns no error returns the key's value, or nothing where
  -- there is none, and the store was open.
  pub query_value :
      (key val : Bytes) (s : Store P)
      → query J P key s ≡ ok val
      → (s.closed ≡ false)
        × ((value_of P s key ≡ some val) ⊎ ((value_of P s key ≡ none) × (val ≡ [])))
  unfolding query
  query_value key val s h = (ground arith, found_value s.db (cf_default ∷ key) val (ground arith))

  module _ (reliable : IsReliable P) where
    insert_parsed_value :
        (o : Option SetPayload) (key : Bytes) (s : Store P)
        → value_of P (insert_parsed J P (or_error payload_unparsed o) s).1 key
          ≡ written_value o key (value_of P s key)
    unfolding insert overlay
    insert_parsed_value none key s = refl
    insert_parsed_value (some sp) key s =
        let ops = set (cf_default ∷ sp.key) sp.value ∷ [] in
        let (db, e) = reliable.commits s.db ops in
        rw e (lawful.find-commit s.db db ops (cf_default ∷ key) e)

    run_command_value :
        (o : Option Command) (key : Bytes) (s : Store P)
        → value_of P (run_command J P (or_error command_unparsed o) s).1 key
          ≡ written_value (decoded_insert J o) key (value_of P s key)
    unfolding run_command
    run_command_value none key s = refl
    run_command_value (some c) key s =
        ground (arith, insert_parsed_value (J.unmarshal_payload c.payload) key s)

    -- Over a lawful database whose commits succeed, and whatever the bytes of a command, the only
    -- value that changes is that of the key of a readable insert.
    pub apply_command_value :
        (input key : Bytes) (s : Store P)
        → value_of P (apply_command J P input s).1 key
          ≡ written_value (write_of J input) key (value_of P s key)
    unfolding apply_command
    apply_command_value input key s = run_command_value (J.unmarshal_command input) key s

  -- Over a lawful database, a command that is answered with an error has changed nothing.
  pub apply_command_error :
      (input : Bytes) (s : Store P) (e : StoreError)
      → (apply_command J P input s).0.error ≡ some e
      → (apply_command J P input s).1 ≡ s
  unfolding apply_command
  apply_command_error input s e h = ground arith
