-- ===== src/Watch/Abandoning.antt =====
-- BlockingQuery of service/blocking_query.go beside the state machine of fsm/fsm.go, whose Restore
-- closes the channel that the query waits on.
use raft_example.Prelude.{
  ℕ, ◌<◌, ◌≡◌, refl, ◌↔◌, ◌⊎◌, inl, inr, Bool, true, false, List, [], Bytes, ok, ltb, if◌then◌else◌,
  arith,
}
use raft_example.Fsm.Platform.{Pebble, Codec}
use raft_example.Fsm.Command.{Json}
use raft_example.Fsm.Machine.{StateMachine}
use raft_example.Fsm.Machine.Abandoning.{
  MachineCall, abandon_channel, calls, HasRestored, calls-HasRestored,
}
use raft_example.Watch.{BlockingQueryResult, Phase, waiting, answered, step, restored}

abbrev pub abandoned_result : BlockingQueryResult
abandoned_result = record { value = []; current_index = 0; abandoned = true }

-- A turn of the select that looks at the channel that AbandonCh returned when the select was entered:
-- it receives if the channel is closed.
unfoldable pub look : {P : Pebble} {E : Type 0} → ℕ → ℕ → StateMachine P → Phase E → Phase E
unfolding step abandon_channel
look min_index channel m p =
    if ltb channel (abandon_channel m) then step min_index restored p else p

module _ {E : Type 0} (v : Bytes) (i : ℕ) where
  answer : Phase E
  answer = answered (ok abandoned_result)

  -- By whether the channel is closed, which is `S`.
  by_closed :
      (b : Bool) (S : Type 0)
      → (b ≡ true) ↔ S
      → (((if b then answer else waiting v i) ≡ answer) ↔ S)
        × (((if b then answer else waiting v i) ≡ answer)
            ⊎ ((if b then answer else waiting v i) ≡ waiting v i))
  unfolding answer
  by_closed true S h = ((λ e. h.0 refl, λ s. refl), inl refl)
  by_closed false S h = ((λ e. absurd cc, λ s. absurd (let t = h.1 s in cc)), inr refl)

ltb_iff : (a b : ℕ) → (ltb a b ≡ true) ↔ (a < b)
ltb_iff a b = ground arith

module _ (P : Pebble) (J : Json) (C : Codec) (md5 : Bytes → Bytes) (max_alloc : ℕ) where
  -- Let BlockingQuery be in its select, with the channel that the state machine had when the select
  -- was entered. Whatever the node then does with the state machine, entries applied, snapshots
  -- persisted, Restores and Close: at its next look at the channel the query answers that the state
  -- was abandoned, or goes on waiting with its value and index, and it answers so exactly if one of
  -- the Restores has returned without an error.
  pub look-HasRestored :
      (E : Type 0) (min_index : ℕ) (v : Bytes) (i : ℕ) (cs : List (MachineCall P))
      (m : StateMachine P)
      → ((look {E = E} min_index (abandon_channel m) (calls P J C md5 max_alloc cs m) (waiting v i)
            ≡ answered (ok abandoned_result))
          ↔ HasRestored P J C md5 max_alloc cs m)
        × ((look {E = E} min_index
                (abandon_channel m)
                (calls P J C md5 max_alloc cs m)
                (waiting v i)
              ≡ answered (ok abandoned_result))
            ⊎ (look {E = E} min_index
                  (abandon_channel m)
                  (calls P J C md5 max_alloc cs m)
                  (waiting v i)
                ≡ waiting v i))
  unfolding look step answer
  look-HasRestored E min_index v i cs m =
      let (closed, restored_then) = calls-HasRestored P J C md5 max_alloc cs m in
      let (test, holds) =
        ltb_iff (abandon_channel m) (abandon_channel (calls P J C md5 max_alloc cs m)) in
      by_closed v i (ltb (abandon_channel m) (abandon_channel (calls P J C md5 max_alloc cs m)))
        (HasRestored P J C md5 max_alloc cs m) (λ t. closed (test t), λ h. holds (restored_then h))
