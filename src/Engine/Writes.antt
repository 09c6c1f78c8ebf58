-- ===== src/Engine/Writes.antt =====
-- A write through Apply of engine/kv.go, seen by the reads behind it.
use raft_example.Prelude.{
  ℕ, ◌≡◌, refl, ap, sym, ◌∙◌, inl, inr, false, Option, none, some, [], ◌∷◌, Bytes, Result, ok, err,
  arith, same, same_refl, if◌then◌else◌,
}
use raft_example.Fsm.Platform.{Pebble, PebbleIsLawful, IsReliable}
use raft_example.Fsm.Errors.{StoreError}
use raft_example.Fsm.Command.{Json, JsonIsLawful, CommandResponse, respond}
use raft_example.Fsm.Command.Effects.{write_of, written_value, query_value}
use raft_example.Fsm.Machine
use raft_example.Fsm.Machine.{StateMachine, Log, read_local}
use raft_example.Fsm.Machine.Replay.{machine_value, apply_all-last_write}
use raft_example.Engine.{RaftServer, insert_command, apply, on_response, local_read}

module _ (P : Pebble) (J : Json) where
  write_of-insert_command :
      (json : JsonIsLawful J) (key val : Bytes)
      → write_of J (insert_command J key val) ≡ some (record { key = key; value = val })
  unfolding insert_command
  write_of-insert_command json key val =
      rw (json.unmarshal-marshal_command, json.unmarshal-marshal_payload) refl

  machine_apply_lem :
      (index : ℕ) (payload : Bytes) (m m' : StateMachine P) (res : CommandResponse)
      → Machine.apply P J (record { index = index; payload = payload }) m ≡ (res, m')
      → res.error ≡ none
      → m.store.closed ≡ false
  unfolding Machine.apply
  machine_apply_lem index payload m m' res h e = ground arith

-- An Apply without an error is one whose command the state machine has run without an error.
apply_ok :
    (index n : ℕ) (res : CommandResponse) (s s' : RaftServer)
    → apply (ok (index, res)) s ≡ (ok n, s')
    → (n ≡ index) × (s'.db_applied_index ≡ index) × (res.error ≡ none)
unfolding apply on_response
apply_ok index n res s s' h = by_error res.error (ap (λ z. z.0) h) (ap (λ z. z.1) h)
  where
    by_error :
        (o : Option StoreError)
        → on_response index o ≡ ok n
        → record s { db_applied_index = index } ≡ s'
        → (n ≡ index) × (s'.db_applied_index ≡ index) × (o ≡ none)
    by_error none e k = (ground arith, ap (λ x. x.db_applied_index) (sym k), refl)
    by_error (some x) e k = cc

local_read_ok :
    (applied i : ℕ) (val : Bytes) (r : Result StoreError Bytes)
    → local_read applied (respond r) ≡ ok (i, val)
    → r ≡ ok val
unfolding local_read
local_read_ok applied i val (ok v) h = ground arith
local_read_ok applied i val (err e) h = cc

module _ (P : Pebble) (J : Json) (lawful : PebbleIsLawful P) (reliable : IsReliable P)
    (json : JsonIsLawful J) where
  -- Over a lawful database whose commits succeed and a JSON encoding that is read back: let raft
  -- answer the Apply of an insert of a value under a key with the index and the response with which
  -- the state machine applied the command, and let Apply return without an error. Then the index is
  -- the one returned and stored, the key has the value and every other key its old one, and a local
  -- read of the key that returns without an error returns the value.
  pub apply-local_read :
      (key val : Bytes) (index n : ℕ) (res : CommandResponse) (m m' : StateMachine P)
      (s s' : RaftServer)
      → Machine.apply P J (record { index = index; payload = insert_command J key val }) m
        ≡ (res, m')
      → apply (ok (index, res)) s ≡ (ok n, s')
      → (n ≡ index)
        × (s'.db_applied_index ≡ index)
        × ((k : Bytes)
            → machine_value P m' k ≡ (if same key k then some val else machine_value P m k))
        × ((applied i : ℕ) (v : Bytes)
            → local_read applied (read_local P J key m') ≡ ok (i, v)
            → v ≡ val)
  unfolding read_local
  apply-local_read key val index n res m m' s s' applied answered =
      let (same_index, stored, no_error) = apply_ok index n res s s' answered in
      let log : Log = record { index = index; payload = insert_command J key val } in
      let is_open =
        machine_apply_lem P J index (insert_command J key val) m m' res applied no_error in
      let value : (k : Bytes)
          → machine_value P m' k ≡ (if same key k then some val else machine_value P m k) =
        λ k.
          ap (λ (z : CommandResponse × StateMachine P). machine_value P z.1 k) (sym applied)
          ∙ (apply_all-last_write P J lawful reliable (log ∷ []) m k is_open).0
          ∙ ap (λ w. written_value w k (machine_value P m k))
              (write_of-insert_command P J json key val) in
      let here : machine_value P m' key ≡ some val = value key ∙ rw (same_refl key) refl in
      (
        same_index,
        stored,
        value,
        λ at i v k. elim ((query_value J P lawful key v m'.store (local_read_ok at i v _ k)).1) [
          | inl found ↦ ground (arith, sym found ∙ here)
          | inr (missing, empty) ↦ absurd (ground (arith, sym missing ∙ here))
        ],
      )
