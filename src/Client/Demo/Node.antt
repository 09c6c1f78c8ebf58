-- ===== src/Client/Demo/Node.antt =====
-- runKVDemo of cmd/cmd.go against a node that leads: its service answers from the node's own raft
-- server and state machine.
use raft_example.Prelude.{
  ℕ, ◌+◌, ◌≡◌, refl, inl, inr, Bool, Option, none, some, List, [], Bytes, Result, ok, err, same,
  if◌then◌else◌, arith, ap, sym, ◌∙◌, length, All,
}
use raft_example.Fsm.Platform.{Pebble, PebbleIsLawful, IsReliable}
use raft_example.Fsm.Errors.{StoreError}
use raft_example.Fsm.Command.{Json, JsonIsLawful, respond, query}
use raft_example.Fsm.Command.Effects.{query_value}
use raft_example.Fsm.Machine
use raft_example.Fsm.Machine.{StateMachine, Log, read_local}
use raft_example.Fsm.Machine.Replay.{machine_value}
use raft_example.Engine
use raft_example.Engine.{EngineError, RaftServer, Poll, insert_command}
use raft_example.Engine.Reads.{query_ok}
use raft_example.Engine.Writes.{apply-local_read}
use raft_example.Service.{ServiceError, add_reply}
use raft_example.Engine.Stats.{Stats, StatsError, Answers}
use raft_example.Service.Stats.{stat}
use raft_example.Client.Demo.{Cluster, Reading, draw_pairs, run_kv_demo}
use raft_example.Client.Demo.Answers.{
  IsUpToDate, written, keys_of, IsKey, AnswersTo, run_kv_demo-AnswersTo,
}

abbrev added : Result ServiceError ℕ → Option ℕ
added (ok index) = some index
added (err e) = none

abbrev got : Option (Result EngineError (ℕ × Bytes)) → Option (Bytes × ℕ)
got none = none
got (some (ok (index, val))) = some (val, index)
got (some (err e)) = none

abbrev reported : Result StatsError Bytes → Option Bytes
reported (ok stats) = some stats
reported (err e) = none

module _ (P : Pebble) (J : Json) where
  -- Raft gives the entry the next index and has the state machine apply it.
  unfoldable pub node_add :
      Bytes → Bytes → StateMachine P × RaftServer → Option ℕ × (StateMachine P × RaftServer)
  node_add key val (m, s) =
      let index = m.fsm_index + 1 in
      let (res, m') =
        Machine.apply P J (record { index = index; payload = insert_command J key val }) m in
      let (applied, s') = Engine.apply (ok (index, res)) s in
      (added (add_reply (ok none) applied), (m', s'))

  -- Raft confirms the leadership; `left` and `polls` are for a flag that is not set yet.
  unfoldable pub node_get :
      ℕ
      → List Poll
      → Bytes
      → Bool
      → StateMachine P × RaftServer
      → Option (Bytes × ℕ) × (StateMachine P × RaftServer)
  node_get left polls key linearizable (m, s) =
      (got (Engine.query linearizable none left polls m.fsm_index (read_local P J key m) s), (m, s))

  -- The node's own Stat.
  abbrev pub node_stat :
      (Stats → Bytes)
      → Bytes
      → Answers
      → StateMachine P × RaftServer
      → Option Bytes × (StateMachine P × RaftServer)
  node_stat marshal raft_dir a (m, s) = (reported (stat P marshal raft_dir a s m), (m, s))

  abbrev pub node : ℕ → List Poll → (Stats → Bytes) → Bytes → Answers → Cluster
  node left polls marshal raft_dir a = record {
    S = StateMachine P × RaftServer;
    add = node_add;
    get = node_get left polls;
    stat = node_stat marshal raft_dir a;
  }

-- A key that is not there reads as the empty value.
abbrev pub value_or_empty : Option Bytes → Bytes
value_or_empty none = []
value_or_empty (some v) = v

abbrev pub node_value : (P : Pebble) → StateMachine P × RaftServer → Bytes → Bytes
node_value P (m, s) k = value_or_empty (machine_value P m k)

added_ok : (r : Result EngineError ℕ) (i : ℕ) → added (add_reply (ok none) r) ≡ some i → r ≡ ok i
unfolding add_reply
added_ok (ok n) i h = ap ok (ground arith)
added_ok (err e) i h = absurd cc

got_ok :
    (r : Option (Result EngineError (ℕ × Bytes))) (v : Bytes) (i : ℕ)
    → got r ≡ some (v, i)
    → r ≡ some (ok (i, v))
got_ok none v i h = absurd cc
got_ok (some (ok x)) v i h = ap (λ z. some (ok z)) (ground arith)
got_ok (some (err e)) v i h = absurd cc

respond_ok : (r : Result StoreError Bytes) → (respond r).error ≡ none → r ≡ ok (respond r).val
respond_ok (ok v) h = refl
respond_ok (err e) h = absurd cc

chosen_value :
    (b : Bool) (v : Bytes) (o : Option Bytes)
    → value_or_empty (if b then some v else o) ≡ (if b then v else value_or_empty o)
chosen_value b v o = ground arith

module _ (P : Pebble) (J : Json) (lawful : PebbleIsLawful P) (reliable : IsReliable P)
    (json : JsonIsLawful J) where
  pub node_add_lem :
      (key val : Bytes) (s s' : StateMachine P × RaftServer) (i : ℕ)
      → node_add P J key val s ≡ (some i, s')
      → (j : Bytes) → node_value P s' j ≡ (if same key j then val else node_value P s j)
  unfolding node_add
  node_add_lem key val (m, s) (m', s') i h j =
      let index = m.fsm_index + 1 in
      let log : Log = record { index = index; payload = insert_command J key val } in
      let ran = Machine.apply P J log m in
      let answered = Engine.apply (ok (index, ran.0)) s in
      let first : answered.0 ≡ ok i = added_ok answered.0 i (ap (λ z. z.0) h) in
      let machine : ran.1 ≡ m' = ap (λ z. z.1.0) h in
      let (same_index, stored, value, read) =
        apply-local_read P J lawful reliable json key val index i ran.0 m ran.1 s answered.1 refl
          (ap (λ r. (r, answered.1)) first) in
      ap (λ n. value_or_empty (machine_value P n j)) (sym machine)
      ∙ ap value_or_empty (value j)
      ∙ chosen_value (same key j) val (machine_value P m j)

  read_value :
      (m : StateMachine P) (key : Bytes)
      → (read_local P J key m).error ≡ none
      → (read_local P J key m).val ≡ value_or_empty (machine_value P m key)
  unfolding read_local
  read_value m key h =
      let r = query J P key m.store in
      elim ((query_value J P lawful key (respond r).val m.store (respond_ok r h)).1) [
        | inl found ↦ ap value_or_empty (sym found)
        | inr (missing, empty) ↦ empty ∙ ap value_or_empty (sym missing)
      ]

  pub node_get_lem :
      (left : ℕ) (polls : List Poll) (key : Bytes) (linearizable : Bool)
      (s s' : StateMachine P × RaftServer) (v : Bytes) (i : ℕ)
      → node_get P J left polls key linearizable s ≡ (some (v, i), s')
      → (v ≡ node_value P s key) × ((j : Bytes) → node_value P s' j ≡ node_value P s j)
  unfolding node_get
  node_get_lem left polls key linearizable (m, s) (m', s') v i h =
      let res = read_local P J key m in
      let answer = Engine.query linearizable none left polls m.fsm_index res s in
      let (same_index, same_value, no_error, confirmed) =
        query_ok linearizable none left polls m.fsm_index i res s v
          (got_ok answer v i (ap (λ z. z.0) h)) in
      let machine : m ≡ m' = ap (λ z. z.1.0) h in
      (
        same_value ∙ read_value m key no_error,
        λ j. ap (λ n. value_or_empty (machine_value P n j)) (sym machine),
      )

  node-IsUpToDate :
      (left : ℕ) (polls : List Poll) (marshal : Stats → Bytes) (raft_dir : Bytes) (a : Answers)
      → IsUpToDate (node P J left polls marshal raft_dir a)
  node-IsUpToDate left polls marshal raft_dir a = record {
    value_of = node_value P;
    add_lem = node_add_lem;
    get_lem = node_get_lem left polls;
  }

  -- Over a lawful database whose commits succeed and a JSON encoding that is read back, let
  -- runKVDemo come to its end against a node that leads, whose raft applies each entry to the state
  -- machine and confirms the leadership. Then it has drawn five pairs whose keys are ids of ten
  -- characters of the table, and has read the five keys in the order in which they were written,
  -- the first and the fourth linearizably, and each with the value that was last written under it.
  pub run_kv_demo-node :
      (left : ℕ) (polls : List Poll) (marshal : Stats → Bytes) (raft_dir : Bytes) (a : Answers)
      (random : ℕ → ℕ → ℕ → Bytes) (fuel : ℕ) (s s' : StateMachine P × RaftServer)
      (readings : List Reading) (out : Bytes)
      → run_kv_demo random fuel (node P J left polls marshal raft_dir a) s
        ≡ some (some (readings, out), s')
      → (pairs : List (Bytes × Bytes)) × (draw_pairs random fuel 5 0 ≡ some pairs)
        × (length pairs ≡ 5)
        × All IsKey (keys_of pairs)
        × AnswersTo (written (node_value P s) pairs) 0 (keys_of pairs) readings
  unfolding node-IsUpToDate
  run_kv_demo-node left polls marshal raft_dir a random fuel s s' readings out h =
      run_kv_demo-AnswersTo random fuel (node P J left polls marshal raft_dir a)
        (node-IsUpToDate left polls marshal raft_dir a) s s' readings out h
