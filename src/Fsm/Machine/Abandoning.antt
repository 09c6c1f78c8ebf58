-- ===== src/Fsm/Machine/Abandoning.antt =====
-- The abandon channel of fsm/fsm.go over a run of calls of the state machine.
use raft_example.Prelude.{
  ℕ, ◌+◌, ◌≤◌, ◌<◌, ◌≡◌, ◌≢◌, refl, ◌↔◌, ◌⊎◌, inl, inr, Bool, true, false, List, [], ◌∷◌, Bytes,
  Result, ok, err, arith, subst, if◌then◌else◌,
}
use raft_example.Fsm.Platform.{Pebble, Codec}
use raft_example.Fsm.Stream.{Reader, Sink}
use raft_example.Fsm.Errors.{StoreError, db_closed}
use raft_example.Fsm.Header.{SnapshotHeader}
use raft_example.Fsm.Save.{SnapshotResult, save_snapshot}
use raft_example.Fsm.Disk.{Disk, Exit, done, error, panicked, crashed}
use raft_example.Fsm.Store.{Store, recover_snapshot}
use raft_example.Fsm.Command.{Json}
use raft_example.Fsm.Machine
use raft_example.Fsm.Machine.{
  StateMachine, Log, FsmSnapshot, persist, on_persist, persisted, restore, restore_open, on_restore,
  restored, abandon,
}

-- What the node does with its state machine: raft's Apply, Persist of a snapshot and Restore on the
-- disk as it is then, and Close.
pub data MachineCall (P : Pebble) : Type 0 where
  applies : Log → MachineCall P
  persists : ℕ → FsmSnapshot P → Sink → MachineCall P
  restores : Bytes → Reader → Disk → MachineCall P
  closes : MachineCall P

-- The open channel, by its number.
unfoldable pub abandon_channel : {P : Pebble} → StateMachine P → ℕ
abandon_channel m = m.abandon_ch

module _ (P : Pebble) (J : Json) (C : Codec) (md5 : Bytes → Bytes) (max_alloc : ℕ) where
  unfoldable pub call : MachineCall P → StateMachine P → StateMachine P
  call (applies log) m = (Machine.apply P J log m).1
  call (persists now snap sink) m = (persist P C now snap sink m).2
  call (restores name reader d) m = (restore P C md5 max_alloc name reader m d).1
  call closes m = Machine.close P m

  unfoldable pub calls : List (MachineCall P) → StateMachine P → StateMachine P
  unfolding call
  calls [] m = m
  calls (c ∷ cs) m = calls cs (call c m)

  -- One of the Restores has returned without an error.
  abbrev pub HasRestored : List (MachineCall P) → StateMachine P → Type 0
  HasRestored [] m = ⊥
  HasRestored (applies log ∷ cs) m = HasRestored cs (call (applies log) m)
  HasRestored (persists now snap sink ∷ cs) m = HasRestored cs (call (persists now snap sink) m)
  HasRestored (restores name reader d ∷ cs) m =
      ((restore P C md5 max_alloc name reader m d).0 ≡ done tt)
      ⊎ HasRestored cs (call (restores name reader d) m)
  HasRestored (closes ∷ cs) m = HasRestored cs (call closes m)

  apply_channel :
      (log : Log) (m : StateMachine P) → (Machine.apply P J log m).1.abandon_ch ≡ m.abandon_ch
  unfolding Machine.apply
  apply_channel log m = ground arith

  close_channel : (m : StateMachine P) → (Machine.close P m).abandon_ch ≡ m.abandon_ch
  unfolding Machine.close
  close_channel m = ground arith

  on_persist_channel :
      (r : Result StoreError SnapshotResult) (m : StateMachine P)
      → (on_persist P C r m).1.abandon_ch ≡ m.abandon_ch
  unfolding on_persist persisted
  on_persist_channel (err e) m = refl
  on_persist_channel (ok r) m = refl

  persist_channel :
      (now : ℕ) (snap : FsmSnapshot P) (sink : Sink) (m : StateMachine P)
      → (persist P C now snap sink m).2.abandon_ch ≡ m.abandon_ch
  unfolding persist
  persist_channel now snap sink m =
      on_persist_channel (save_snapshot C P m.node_id snap.last_index now snap.snapshot sink).0 m

  -- A Restore without an error makes a new channel, and any other none.
  abbrev Renews : Exit Unit → ℕ → ℕ → Type 0
  Renews r before after =
      ((r ≡ done tt) × (after ≡ before + 1)) ⊎ ((r ≢ done tt) × (after ≡ before))

  on_restore-Renews :
      (r : Exit SnapshotHeader) (m : StateMachine P)
      → Renews (on_restore P C r m).0 m.abandon_ch (on_restore P C r m).1.abandon_ch
  unfolding on_restore restored abandon
  on_restore-Renews (done h) m = inl (refl, ground arith)
  on_restore-Renews (error e) m = inr (λ x. cc, refl)
  on_restore-Renews panicked m = inr (λ x. cc, refl)
  on_restore-Renews crashed m = inr (λ x. cc, refl)

  restore-Renews :
      (name : Bytes) (reader : Reader) (d : Disk) (m : StateMachine P)
      → Renews
          (restore P C md5 max_alloc name reader m d).0
          m.abandon_ch
          (restore P C md5 max_alloc name reader m d).1.abandon_ch
  unfolding restore restore_open
  restore-Renews name reader d m = by_state m.store.closed
    where
      recovered : Exit SnapshotHeader × Store P × Disk
      recovered = recover_snapshot md5 C P max_alloc name reader m.store d

      by_state :
          (b : Bool)
          → Renews
              (if b
                then (error db_closed, m, d)
                else restore_open P C md5 max_alloc name reader m d).0
              m.abandon_ch
              (if b
                then (error db_closed, m, d)
                else restore_open P C md5 max_alloc name reader m d).1.abandon_ch
      by_state true = inr (λ x. cc, refl)
      by_state false = on_restore-Renews recovered.0 (record m { store = recovered.1 })

  call-le : (c : MachineCall P) (m : StateMachine P) → m.abandon_ch ≤ (call c m).abandon_ch
  unfolding call
  call-le (applies log) m = omega (arith, apply_channel log m)
  call-le (persists now snap sink) m = omega (arith, persist_channel now snap sink m)
  call-le (restores name reader d) m = elim (restore-Renews name reader d m) [
    | inl (e, renewed) ↦ omega (arith, renewed)
    | inr (e, kept) ↦ omega (arith, kept)
  ]
  call-le closes m = omega (arith, close_channel m)

  calls-le :
      (cs : List (MachineCall P)) (m : StateMachine P) → m.abandon_ch ≤ (calls cs m).abandon_ch
  unfolding calls
  calls-le [] m = omega arith
  calls-le (c ∷ cs) m = omega (arith, call-le c m, calls-le cs (call c m))

  -- A call that keeps the channel.
  kept_iff :
      (c : MachineCall P) (cs : List (MachineCall P)) (m : StateMachine P) (S : Type 0)
      → (call c m).abandon_ch ≡ m.abandon_ch
      → ((call c m).abandon_ch < (calls cs (call c m)).abandon_ch) ↔ S
      → (m.abandon_ch < (calls cs (call c m)).abandon_ch) ↔ S
  kept_iff c cs m S e k = subst (λ n. (n < (calls cs (call c m)).abandon_ch) ↔ S) e k

  -- Whatever calls are made, the channel of before is closed exactly if a Restore has returned without
  -- an error.
  pub calls-HasRestored :
      (cs : List (MachineCall P)) (m : StateMachine P)
      → (abandon_channel m < abandon_channel (calls cs m)) ↔ HasRestored cs m
  unfolding calls call abandon_channel
  calls-HasRestored [] m = (λ h. absurd (omega arith), λ h. absurd h)
  calls-HasRestored (applies log ∷ cs) m =
      kept_iff (applies log) cs m (HasRestored cs (call (applies log) m)) (apply_channel log m)
        (calls-HasRestored cs (call (applies log) m))
  calls-HasRestored (persists now snap sink ∷ cs) m =
      kept_iff (persists now snap sink) cs m (HasRestored cs (call (persists now snap sink) m))
        (persist_channel now snap sink m) (calls-HasRestored cs (call (persists now snap sink) m))
  calls-HasRestored (closes ∷ cs) m =
      kept_iff closes cs m (HasRestored cs (call closes m)) (close_channel m)
        (calls-HasRestored cs (call closes m))
  calls-HasRestored (restores name reader d ∷ cs) m =
      let m' = call (restores name reader d) m in
      let later = calls-HasRestored cs m' in
      elim (restore-Renews name reader d m) [
        | inl (e, renewed) ↦ (λ h. inl e, λ h. omega (arith, renewed, calls-le cs m'))
        | inr (e, kept) ↦ (
          λ h. inr (later.0 (omega (arith, kept, h))),
          λ h. elim h [
            | inl went ↦ absurd (e went)
            | inr others ↦ let after = later.1 others in omega (arith, kept, after)
          ],
        )
      ]
