-- ===== src/Fsm/Machine/Replay.antt =====
-- Runs of Apply of fsm/fsm.go over the entries of a log.
use raft_example.Prelude.{
  ℕ, ◌≡◌, refl, ap, sym, ◌∙◌, true, false, Option, List, [], ◌∷◌, Bytes, arith,
}
use raft_example.Fsm.Platform.{Pebble, PebbleIsLawful, IsReliable}
use raft_example.Fsm.Command.{Json, CommandResponse, apply_command}
use raft_example.Fsm.Command.Effects.{value_of, write_of, written_value, apply_command_value}
use raft_example.Fsm.Machine.{StateMachine, Log, apply}

-- A run of Apply over committed entries, as raft makes it.
abbrev pub apply_all : (P : Pebble) → Json → List Log → StateMachine P → StateMachine P
apply_all P J [] m = m
apply_all P J (log ∷ logs) m = apply_all P J logs (apply P J log m).1

-- The last value that a log sets for a key, over what was there before.
abbrev pub last_write : Json → List Log → Bytes → Option Bytes → Option Bytes
last_write J [] key old = old
last_write J (log ∷ logs) key old =
    last_write J logs key (written_value (write_of J log.payload) key old)

abbrev pub last_index : List Log → ℕ → ℕ
last_index [] i = i
last_index (log ∷ logs) i = last_index logs log.index

abbrev pub machine_value : (P : Pebble) → StateMachine P → Bytes → Option Bytes
machine_value P m = value_of P m.store

module _ (P : Pebble) (J : Json) where
  apply_open :
      (log : Log) (m : StateMachine P)
      → m.store.closed ≡ false
      → apply P J log m ≡ (
        (apply_command J P log.payload m.store).0,
        record m { fsm_index = log.index; store = (apply_command J P log.payload m.store).1 },
      )
  unfolding apply
  apply_open log m h = rw h

  pub apply_keeps_open :
      (log : Log) (m : StateMachine P)
      → m.store.closed ≡ false
      → (apply P J log m).1.store.closed ≡ false
  unfolding apply apply_command
  apply_keeps_open log m h = ground arith

  module _ (lawful : PebbleIsLawful P) (reliable : IsReliable P) where
    -- Over a lawful database whose commits succeed, from an open machine and whatever bytes the
    -- entries hold: behind a run of Apply each key has the last value that an entry sets, or what
    -- it had before where none does, and the index is that of the last entry.
    pub apply_all-last_write :
        (logs : List Log) (m : StateMachine P) (key : Bytes)
        → m.store.closed ≡ false
        → (machine_value P (apply_all P J logs m) key
            ≡ last_write J logs key (machine_value P m key))
          × ((apply_all P J logs m).fsm_index ≡ last_index logs m.fsm_index)
    apply_all-last_write [] m key h = (refl, refl)
    apply_all-last_write (log ∷ logs) m key h =
        let (v, i) = apply_all-last_write logs (apply P J log m).1 key (apply_keeps_open log m h) in
        let e = apply_open log m h in
        (
          v
              ∙ ap (last_write J logs key) (
                  ap (λ (r : CommandResponse × StateMachine P). machine_value P r.1 key) e
                  ∙ apply_command_value J P lawful reliable log.payload key m.store),
          i ∙ ap (λ (r : CommandResponse × StateMachine P). last_index logs r.1.fsm_index) e,
        )

    -- Over a lawful database whose commits succeed, two open machines that agree on every key agree
    -- on every key behind the same entries.
    pub apply_all_agree :
        (logs : List Log) (m n : StateMachine P)
        → m.store.closed ≡ false
        → n.store.closed ≡ false
        → ((key : Bytes) → machine_value P m key ≡ machine_value P n key)
        → (key : Bytes)
        → machine_value P (apply_all P J logs m) key ≡ machine_value P (apply_all P J logs n) key
    apply_all_agree logs m n hm hn agree key =
        (apply_all-last_write logs m key hm).0
        ∙ ap (last_write J logs key) (agree key)
        ∙ sym ((apply_all-last_write logs n key hn).0)

  -- A closed machine keeps its whole state, its index too, behind any entries.
  pub apply_closed :
      (logs : List Log) (m : StateMachine P) → m.store.closed ≡ true → apply_all P J logs m ≡ m
  apply_closed [] m h = refl
  apply_closed (log ∷ logs) m h =
      let e : (apply P J log m).1 ≡ m = unfold apply in rw h in
      ap (apply_all P J logs) e ∙ apply_closed logs m h
