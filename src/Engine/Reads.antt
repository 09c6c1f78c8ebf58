-- ===== src/Engine/Reads.antt =====
-- The reads of engine/kv.go behind ConsistentRead of engine/linearizable.go.
use raft_example.Prelude.{
  ℕ, ◌≡◌, ◌≢◌, refl, ◌⊎◌, Bool, true, false, Option, none, some, List, [], ◌∷◌, ◌++◌, Bytes, Result,
  ok, err, arith,
}
use raft_example.Fsm.Errors.{StoreError}
use raft_example.Fsm.Command.{CommandResponse}
use raft_example.Engine.{
  RaftServer, EngineError, Poll, tick, deadline, shutdown, poll, consistent_read, local_read,
  read_result, on_consistent, query,
}

-- A tick that saw the flag, before any end of the wait.
abbrev pub SawReady : List Poll → Type 0
SawReady [] = ⊥
SawReady (tick flag ∷ ps) = (flag ≡ 1) ⊎ SawReady ps
SawReady (deadline ∷ ps) = ⊥
SawReady (shutdown ∷ ps) = ⊥

poll_ok : (ps : List Poll) (u : Unit) → poll ps ≡ some (ok u) → SawReady ps
unfolding poll
poll_ok [] u h = cc
poll_ok (tick flag ∷ ps) u h = ground (arith, poll_ok ps u)
poll_ok (deadline ∷ ps) u h = cc
poll_ok (shutdown ∷ ps) u h = cc

-- Raft has confirmed the leadership, and the flag was seen set, at once or by a tick of the wait.
abbrev pub Confirmed : Option Bytes → List Poll → RaftServer → Type 0
Confirmed verify polls s = (verify ≡ none) × ((s.ready_for_consistent_reads ≡ 1) ⊎ SawReady polls)

consistent_read_ok :
    (verify : Option Bytes) (left : ℕ) (polls : List Poll) (s : RaftServer) (u : Unit)
    → consistent_read verify left polls s ≡ some (ok u)
    → Confirmed verify polls s
unfolding consistent_read
consistent_read_ok (some e) left polls s u h = cc
consistent_read_ok none left polls s u h = (refl, ground (arith, poll_ok polls u))

read_result_ok :
    (applied i : ℕ) (val v : Bytes) (o : Option StoreError)
    → read_result applied val o ≡ ok (i, v)
    → (i ≡ applied) × (v ≡ val) × (o ≡ none)
unfolding read_result
read_result_ok applied i val v none h = ground arith
read_result_ok applied i val v (some e) h = cc

on_consistent_ok :
    (r : Option (Result EngineError Unit)) (applied i : ℕ) (res : CommandResponse) (s : RaftServer)
    (v : Bytes)
    → on_consistent r applied res s ≡ some (ok (i, v))
    → (r ≡ some (ok tt)) × (local_read applied res ≡ ok (i, v))
unfolding on_consistent
on_consistent_ok none applied i res s v h = cc
on_consistent_ok (some (err e)) applied i res s v h = cc
on_consistent_ok (some (ok u)) applied i res s v h = (refl, ground arith)

-- A Query that returns without an error returns what the state machine read, without an error, and
-- the index that raft had applied; and a consistent one returns so only if raft has confirmed the
-- leadership and the flag of consistent reads was seen set.
pub query_ok :
    (consistent : Bool) (verify : Option Bytes) (left : ℕ) (polls : List Poll) (applied i : ℕ)
    (res : CommandResponse) (s : RaftServer) (v : Bytes)
    → query consistent verify left polls applied res s ≡ some (ok (i, v))
    → (i ≡ applied)
      × (v ≡ res.val)
      × (res.error ≡ none)
      × (consistent ≡ true → Confirmed verify polls s)
unfolding query local_read
query_ok true verify left polls applied i res s v h =
    let (confirmed, read) =
      on_consistent_ok (consistent_read verify left polls s) applied i res s v h in
    let (same_index, same_value, no_error) = read_result_ok applied i res.val v res.error read in
    (same_index, same_value, no_error, λ k. consistent_read_ok verify left polls s tt confirmed)
query_ok false verify left polls applied i res s v h =
    let read : read_result applied res.val res.error ≡ ok (i, v) = ground arith in
    let (same_index, same_value, no_error) = read_result_ok applied i res.val v res.error read in
    (same_index, same_value, no_error, λ k. cc)

poll_ends : (ps qs : List Poll) → poll (ps ++ (deadline ∷ qs)) ≢ none
unfolding poll
poll_ends [] qs h = cc
poll_ends (tick flag ∷ ps) qs h = ground (arith, poll_ends ps qs)
poll_ends (deadline ∷ ps) qs h = cc
poll_ends (shutdown ∷ ps) qs h = cc

-- A consistent read whose deadline comes has a result, whatever came before it.
pub consistent_read_ends :
    (verify : Option Bytes) (left : ℕ) (ps qs : List Poll) (s : RaftServer)
    → consistent_read verify left (ps ++ (deadline ∷ qs)) s ≢ none
unfolding consistent_read
consistent_read_ends (some e) left ps qs s h = cc
consistent_read_ends none left ps qs s h = ground (arith, poll_ends ps qs)
