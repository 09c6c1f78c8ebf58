-- ===== src/Fsm/Machine/Replicas.antt =====
-- The machines of a cluster: each applies the entries of the log in their order, or is given the
-- snapshot of another machine, which has applied a part of the log.
use raft_example.Prelude.{
  ℕ, ◌<◌, ◌^◌, ◌≡◌, refl, ◌⊎◌, inl, inr, ap, sym, ◌∙◌, false, none, Option, List, [], ◌∷◌, ◌++◌,
  Bytes, length, ok, All, arith, if◌then◌else◌, ltb,
}
use raft_example.Prelude.Map.{Map}
use raft_example.Fsm.Platform.{Pebble, PebbleIsLawful, IsReliable, Codec, CodecIsLawful}
use raft_example.Fsm.Stream.{Sink}
use raft_example.Fsm.Disk.{Disk, done}
use raft_example.Fsm.Restore.Loop.{Fits}
use raft_example.Fsm.Command.{Json}
use raft_example.Fsm.Command.Effects.{write_of, written_value}
use raft_example.Fsm.Machine.{StateMachine, FsmSnapshot, Log, apply, snapshot, persist, restore}
use raft_example.Fsm.Machine.Replay.{
  apply_keeps_open, last_write, last_index, machine_value, apply_all-last_write,
}
use raft_example.Fsm.Machine.Restoring.{persist-restore, restore-closed}

module _ (P : Pebble) (C : Codec) (J : Json) (max_alloc : ℕ) (md5 : Bytes → Bytes)
    (initial : Bytes → Option Bytes) where
  -- A transfer from `m` to `n`, which becomes `n'`: Snapshot, Persist to an empty sink and Restore
  -- from what it wrote, all without an error, with a node id, an index and a time that fit their
  -- fields and entries that can be restored.
  pub record Transfer (m n n' : StateMachine P) : Type 0 where
    pub snap : FsmSnapshot P
    pub now : ℕ
    pub sink : Sink
    pub after : Sink
    pub m' : StateMachine P
    pub name : Bytes
    pub d : Disk
    pub d' : Disk
    pub taken : snapshot P m ≡ ok snap
    pub persisted : persist P C now snap sink m ≡ (ok tt, after, m')
    pub empty : sink.written ≡ []
    pub id_fits : length m.node_id < 2 ^ 16
    pub index_fits : m.fsm_index < 2 ^ 64
    pub now_fits : now < 2 ^ 64
    pub can : (es : Map Bytes) → P.iterate m.store.db ≡ ok (es, none) → All (Fits C P max_alloc) es
    pub came :
        restore P C md5 max_alloc name (record { bytes = after.written; broken = false }) n d
        ≡ (done tt, n', d')

  -- The machines that the cluster can have, each with the part of the log that it stands for.
  pub data Reaches : StateMachine P → List Log → Type 0 where
    fresh :
        (m : StateMachine P)
        → m.store.closed ≡ false
        → m.fsm_index ≡ 0
        → ((key : Bytes) → machine_value P m key ≡ initial key)
        → Reaches m []
    applied :
        (m : StateMachine P) (logs : List Log) (log : Log)
        → Reaches m logs
        → Reaches (apply P J log m).1 (logs ++ log ∷ [])
    installed :
        (m n n' : StateMachine P) (logs behind : List Log)
        → Reaches m logs
        → Reaches n behind
        → Transfer m n n'
        → Reaches n' logs

  reaches-open : (m : StateMachine P) (logs : List Log) → Reaches m logs → m.store.closed ≡ false
  reaches-open m logs (fresh _ is_open index agrees) = is_open
  reaches-open m logs (applied n before log r) =
      apply_keeps_open P J log n (reaches-open n before r)
  reaches-open m logs (installed from n _ _ behind r r' t) =
      restore-closed C P md5 max_alloc t.name _ n m t.d t.d' t.came ∙ reaches-open n behind r'

last_write-append :
    (J : Json) (logs : List Log) (log : Log) (key : Bytes) (old : Option Bytes)
    → last_write J (logs ++ log ∷ []) key old
      ≡ written_value (write_of J log.payload) key (last_write J logs key old)
last_write-append J [] log key old = refl
last_write-append J (l ∷ logs) log key old =
    last_write-append J logs log key (written_value (write_of J l.payload) key old)

last_index-append :
    (logs : List Log) (log : Log) (i : ℕ) → last_index (logs ++ log ∷ []) i ≡ log.index
last_index-append [] log i = refl
last_index-append (l ∷ logs) log i = last_index-append logs log l.index

kept_index :
    (i j k last : ℕ)
    → k ≡ (if ltb 0 i then i else j)
    → (last ≡ 0) ⊎ (i ≡ last)
    → (last ≡ 0) ⊎ (k ≡ last)
kept_index i j k last h g = ground arith

module _ (P : Pebble) (C : Codec) (J : Json) (max_alloc : ℕ) (md5 : Bytes → Bytes)
    (initial : Bytes → Option Bytes) (codec : CodecIsLawful C) (lawful : PebbleIsLawful P)
    (reliable : IsReliable P) (alloc_fits : max_alloc < 2 ^ 64) where
  -- Over a lawful codec and a lawful database whose commits succeed, and with less than 2 ^ 64
  -- bytes to allocate: let the machines of a cluster start open, with index 0 and the same values,
  -- and then apply entries one by one, and take over each other's snapshots, where Snapshot,
  -- Persist to an empty sink and Restore each return without an error, the node id that is written
  -- is shorter than 2 ^ 16 bytes, the index and the time are below 2 ^ 64, and every pair of the
  -- database has sizes that can be restored. Then a machine that stands for a part of the log holds
  -- under each key the last value that an entry of that part sets, or else the initial one, and its
  -- index is that of the last entry, unless that is 0 or there is none: a snapshot with the index 0
  -- leaves the index of the machine that takes it over as it was.
  pub reaches-refines :
      (m : StateMachine P) (logs : List Log)
      → Reaches P C J max_alloc md5 initial m logs
      → ((key : Bytes) → machine_value P m key ≡ last_write J logs key (initial key))
        × ((last_index logs 0 ≡ 0) ⊎ (m.fsm_index ≡ last_index logs 0))
  reaches-refines m logs (fresh _ is_open index agrees) = (agrees, inl refl)
  reaches-refines m logs (applied n before log r) =
      let (values, index) = reaches-refines n before r in
      let step = λ (key : Bytes).
        apply_all-last_write P J lawful reliable (log ∷ []) n key
          (reaches-open P C J max_alloc md5 initial n before r) in
      (
        λ key.
            (step key).0
            ∙ ap (written_value (write_of J log.payload) key) (values key)
            ∙ sym (last_write-append J before log key (initial key)),
        inr ((step []).1 ∙ sym (last_index-append before log 0)),
      )
  reaches-refines m logs (installed from n _ _ behind r r' t) =
      let (values, index) = reaches-refines from logs r in
      let (same_values, same_index, _, _) =
        persist-restore C P max_alloc codec lawful reliable alloc_fits md5 t.now t.name from t.m' n
          m t.d t.d' t.snap t.sink t.after t.taken t.persisted t.empty t.id_fits t.index_fits
          t.now_fits t.can t.came in
      (
        λ key. same_values key ∙ values key,
        kept_index from.fsm_index n.fsm_index m.fsm_index (last_index logs 0) same_index index,
      )
