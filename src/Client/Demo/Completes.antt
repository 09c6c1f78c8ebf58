-- ===== src/Client/Demo/Completes.antt =====
-- runKVDemo of cmd/cmd.go comes to its end against a node that is ready.
use raft_example.Prelude.{
  ℕ, ◌+◌, ◌%◌, ◌≡◌, refl, ap, sym, ◌∙◌, subst, Bool, true, false, none, some, List, [], ◌∷◌, Bytes,
  ok, err, ◌==◌, if◌then◌else◌, All,
}
use raft_example.Fsm.Platform.{Pebble, PebbleIsLawful, IsReliable, IsReadable}
use raft_example.Fsm.Errors.{db_closed}
use raft_example.Fsm.Store.{Store}
use raft_example.Fsm.Command.{Json, JsonIsLawful, CommandResponse, respond, apply_command}
use raft_example.Fsm.Command.Runs.{insert_runs, query_runs}
use raft_example.Fsm.Machine
use raft_example.Fsm.Machine.{StateMachine, Log, read_local}
use raft_example.Engine
use raft_example.Engine.{RaftServer, Poll, insert_command, consistent_read}
use raft_example.Service.{add_reply}
use raft_example.Engine.Stats.{Stats, Answers}
use raft_example.Service.Stats.{stat}
use raft_example.Client.Demo.{
  Reading, write_keys, read_keys, write_and_read, on_pairs, draw_pairs, run_kv_demo,
}
use raft_example.Client.Demo.Answers.{written, keys_of, IsKey, AnswersTo}
use raft_example.Client.Demo.Node.{node, node_add, node_get, node_value, run_kv_demo-node}

-- The store is open, and the flag of consistent reads is set.
abbrev pub IsReady : {P : Pebble} → StateMachine P × RaftServer → Type 0
IsReady (m, s) = (m.store.closed ≡ false) × (s.ready_for_consistent_reads ≡ 1)

some_same : (xs ys : List (Bytes × Bytes)) → some xs ≡ some ys → xs ≡ ys
some_same xs ys h = cc

module _ (P : Pebble) (J : Json) (reliable : IsReliable P) (readable : IsReadable P)
    (json : JsonIsLawful J) where
  -- Stat returns without an error in any state of the node.
  abbrev Statable : (Stats → Bytes) → Bytes → Answers → Type 0
  Statable marshal raft_dir a =
      (m : StateMachine P) (s : RaftServer) → (b : Bytes) × (stat P marshal raft_dir a s m ≡ ok b)

  machine_completes :
      (key val : Bytes) (index : ℕ) (m : StateMachine P)
      → m.store.closed ≡ false
      → (db : P.DB) × (Machine.apply P J
            (record { index = index; payload = insert_command J key val })
            m
          ≡ (
            record { val = []; error = none },
            record m { fsm_index = index; store = record m.store { db = db } },
          ))
  unfolding Machine.apply insert_command
  machine_completes key val index m is_open =
      let (db, e) = insert_runs P J json reliable key val m.store in
      let run : CommandResponse × Store P = apply_command J P (insert_command J key val) m.store in
      let made : CommandResponse × Store P → CommandResponse × StateMachine P =
        λ z. (z.0, record m { fsm_index = index; store = z.1 }) in
      (
        db,
        subst
            (λ b.
              (if b then (respond (err db_closed), m) else made run)
              ≡ made (record { val = []; error = none }, record m.store { db = db }))
            (sym is_open) (ap made e),
      )

  add_completes :
      (key val : Bytes) (l : StateMachine P × RaftServer)
      → IsReady l
      → (i : ℕ) × (l' : StateMachine P × RaftServer) × (node_add P J key val l ≡ (some i, l'))
        × IsReady l'
  unfolding node_add Engine.apply Engine.on_response add_reply
  add_completes key val (m, s) (is_open, ready) =
      let index = m.fsm_index + 1 in
      let (db, e) = machine_completes key val index m is_open in
      (
        index,
        (
          record m { fsm_index = index; store = record m.store { db = db } },
          record s { db_applied_index = index },
        ),
        rw e refl,
        (is_open, ready),
      )

  get_completes :
      (left : ℕ) (polls : List Poll) (key : Bytes) (linearizable : Bool)
      (l : StateMachine P × RaftServer)
      → IsReady l
      → (v : Bytes) × (i : ℕ) × (node_get P J left polls key linearizable l ≡ (some (v, i), l))
  unfolding node_get Engine.query consistent_read read_local Engine.on_consistent Engine.local_read
      Engine.read_result
  get_completes left polls key true (m, s) (is_open, ready) =
      let (v, e) = query_runs P J readable key m.store is_open in
      (v, m.fsm_index, rw (ready, e) refl)
  get_completes left polls key false (m, s) (is_open, ready) =
      let (v, e) = query_runs P J readable key m.store is_open in (v, m.fsm_index, rw e refl)

  module _ (left : ℕ) (polls : List Poll) (marshal : Stats → Bytes) (raft_dir : Bytes)
      (a : Answers) where
    write_keys_completes :
        (pairs : List (Bytes × Bytes)) (l : StateMachine P × RaftServer)
        → IsReady l
        → (keys : List Bytes) × (l' : StateMachine P × RaftServer) × (write_keys
              (node P J left polls marshal raft_dir a)
              pairs
              l
            ≡ (some keys, l'))
          × IsReady l'
    unfolding write_keys
    write_keys_completes [] l h = ([], l, refl, h)
    write_keys_completes ((k, v) ∷ pairs) l h =
        let (i, l1, e, h1) = add_completes k v l h in
        let (keys, l2, e2, h2) = write_keys_completes pairs l1 h1 in
        (k ∷ keys, l2, rw (e, e2) refl, h2)

    read_keys_completes :
        (i : ℕ) (keys : List Bytes) (l : StateMachine P × RaftServer)
        → IsReady l
        → (readings : List Reading) × (read_keys (node P J left polls marshal raft_dir a) i keys l
            ≡ (some readings, l))
    unfolding read_keys
    read_keys_completes i [] l h = ([], refl)
    read_keys_completes i (k ∷ keys) l h =
        let (v, index, e) = get_completes left polls k (i % 3 == 0) l h in
        let (readings, e2) = read_keys_completes (i + 1) keys l h in
        (
          record { linearizable = i % 3 == 0; key = k; value = v; read_at_index = index }
              ∷ readings,
          rw (e, e2) refl,
        )

    run_completes :
        (random : ℕ → ℕ → ℕ → Bytes) (fuel : ℕ) (pairs : List (Bytes × Bytes))
        (l : StateMachine P × RaftServer)
        → draw_pairs random fuel 5 0 ≡ some pairs
        → IsReady l
        → Statable marshal raft_dir a
        → (readings : List Reading) × (l' : StateMachine P × RaftServer) × (stats : Bytes)
          × (run_kv_demo random fuel (node P J left polls marshal raft_dir a) l
              ≡ some (some (readings, stats), l'))
    unfolding run_kv_demo on_pairs write_and_read
    run_completes random fuel pairs l drawn h answers =
        let (keys, l1, e, h1) = write_keys_completes pairs l h in
        let (readings, e2) = read_keys_completes 0 keys l1 h1 in
        let (stats, e3) = answers l1.0 l1.1 in (readings, l1, stats, rw (drawn, e, e2, e3) refl)

  -- Over a lawful database that fails no commit and no read, and a JSON encoding that is read back,
  -- let a node lead with an open store and the flag of consistent reads set, let its raft apply
  -- each entry to the state machine and confirm the leadership, and let its Stat return without an
  -- error in any state. If the five pairs of ids are drawn, runKVDemo comes to its end against it:
  -- the keys are ids of ten characters of the table, and the five keys are read in the order in
  -- which they were written, the first and the fourth linearizably, and each with the value that
  -- was last written under it.
  pub run_kv_demo_completes :
      (lawful : PebbleIsLawful P) (left : ℕ) (polls : List Poll) (marshal : Stats → Bytes)
      (raft_dir : Bytes) (a : Answers) (random : ℕ → ℕ → ℕ → Bytes) (fuel : ℕ)
      (pairs : List (Bytes × Bytes)) (l : StateMachine P × RaftServer)
      → draw_pairs random fuel 5 0 ≡ some pairs
      → IsReady l
      → ((m : StateMachine P) (s : RaftServer)
          → (b : Bytes) × (stat P marshal raft_dir a s m ≡ ok b))
      → (readings : List Reading) × (l' : StateMachine P × RaftServer) × (stats : Bytes)
        × (run_kv_demo random fuel (node P J left polls marshal raft_dir a) l
            ≡ some (some (readings, stats), l'))
        × All IsKey (keys_of pairs)
        × AnswersTo (written (node_value P l) pairs) 0 (keys_of pairs) readings
  run_kv_demo_completes lawful left polls marshal raft_dir a random fuel pairs l drawn h answers =
      let (readings, l', stats, e) =
        run_completes left polls marshal raft_dir a random fuel pairs l drawn h answers in
      let (pairs', drawn', five, keys, found) =
        run_kv_demo-node P J lawful reliable json left polls marshal raft_dir a random fuel l l'
          readings stats e in
      let same_pairs : pairs' ≡ pairs = some_same pairs' pairs (sym drawn' ∙ drawn) in
      let (keys_are, read) =
        subst
          (λ ps.
            All IsKey (keys_of ps)
            × AnswersTo (written (node_value P l) ps) 0 (keys_of ps) readings)
          same_pairs (keys, found) in
      (readings, l', stats, e, keys_are, read)
