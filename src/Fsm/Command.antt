-- ===== src/Fsm/Command.antt =====
-- fsm/apply.go: the commands of the log, and what they do to the store.
pub mod Effects
pub mod Runs
use raft_example.Prelude.{
  ℕ, ◌≡◌, Bool, true, false, Option, none, some, List, [], ◌∷◌, Bytes, Result, ok, err, wrap_error,
  or_error, ◌>>=◌, if◌then◌else◌, ◌==◌,
}
use raft_example.Fsm.Platform.{Pebble, PebbleError, Op, set}
use raft_example.Fsm.Errors.{
  StoreError, db_closed, pebble_error, command_unparsed, payload_unparsed, command_undefined,
}
use raft_example.Fsm.Store.{Store, cf_default, build_column_family_key, get_bytes}

-- A CommandType is an int; `kind` is its value, and a negative one is given as any other that is
-- neither of the two.
abbrev pub query_type : ℕ
query_type = 0

abbrev pub insert_type : ℕ
insert_type = 1

pub record Command : Type 0 where
  pub kind : ℕ
  pub payload : Bytes

pub record SetPayload : Type 0 where
  pub key : Bytes
  pub value : Bytes

-- `error` is nil where it is `none`.
pub record CommandResponse : Type 0 where
  pub val : Bytes
  pub error : Option StoreError

-- encoding/json at the two types of the log; `none` is an error of Unmarshal.
pub record Json : Type 0 where
  pub marshal_command : Command → Bytes
  pub unmarshal_command : Bytes → Option Command
  pub marshal_payload : SetPayload → Bytes
  pub unmarshal_payload : Bytes → Option SetPayload

pub record JsonIsLawful (J : Json) : Type 0 where
  pub unmarshal-marshal_command : (c : Command) → J.unmarshal_command (J.marshal_command c) ≡ some c
  pub unmarshal-marshal_payload :
      (p : SetPayload) → J.unmarshal_payload (J.marshal_payload p) ≡ some p

-- The response of a call that returns a value or an error.
abbrev pub respond : Result StoreError Bytes → CommandResponse
respond (ok v) = record { val = v; error = none }
respond (err e) = record { val = []; error = some e }

abbrev pub respond_done : Result StoreError Unit → CommandResponse
respond_done (ok u) = record { val = []; error = none }
respond_done (err e) = record { val = []; error = some e }

module _ (J : Json) (P : Pebble) where
  unfoldable pub query : Bytes → Store P → Result StoreError Bytes
  unfolding build_column_family_key get_bytes
  query key s =
      if s.closed then err db_closed else get_bytes P (build_column_family_key cf_default key) s

  -- The commit of the batch; on its error the store keeps its database.
  committed : Store P → Result PebbleError P.DB → Result StoreError Unit × Store P
  committed s (ok db) = (ok tt, record s { db = db })
  committed s (err e) = (err (pebble_error e), s)

  insert_parsed : Result StoreError SetPayload → Store P → Result StoreError Unit × Store P
  unfolding committed build_column_family_key
  insert_parsed (err e) s = (err e, s)
  insert_parsed (ok sp) s =
      committed s (P.commit s.db (set (build_column_family_key cf_default sp.key) sp.value ∷ []))

  unfoldable pub insert : Bytes → Store P → Result StoreError Unit × Store P
  unfolding insert_parsed
  insert input s = insert_parsed (or_error payload_unparsed (J.unmarshal_payload input)) s

  run_command : Result StoreError Command → Store P → CommandResponse × Store P
  unfolding query insert
  run_command (err e) s = (respond (err e), s)
  run_command (ok c) s =
      if c.kind == query_type
      then (respond (query c.payload s), s)
      else if c.kind == insert_type
      then (let (r, s') = insert c.payload s in (respond_done r, s'))
      else (respond (err command_undefined), s)

  unfoldable pub apply_command : Bytes → Store P → CommandResponse × Store P
  unfolding run_command
  apply_command input s = run_command (or_error command_unparsed (J.unmarshal_command input)) s
