-- ===== src/Engine/Leadership.antt =====
-- engine/raft.go: monitorLeadership, leaderLoop, and the flag that allows consistent reads.
pub mod Ready
pub mod Ends
pub mod Held
pub mod Serving
use raft_example.Prelude.{
  ℕ, suc, zero, Bool, true, false, ◌&&◌, Option, none, some, List, [], ◌∷◌, Bytes, Result, ok, err,
  if◌then◌else◌, same,
}

-- Where leaderLoop is: at the barrier, waiting for the loss of an established leadership, at the poll
-- of the stop channel, waiting for it or for the time of a new try, or returned.
pub data Loop : Type 0 where
  reconciling : Loop
  established : Loop
  polling : Loop
  waiting : Loop
  exited : Loop

-- Where monitorLeadership is: in its select with no loop running, in its select with one, waiting for
-- the loop to return after a loss or after the shutdown, or returned.
pub data Monitor : Type 0 where
  idle : Monitor
  running : Monitor
  stopping : Monitor
  quitting : Monitor
  quit : Monitor

-- `stop_closed` is whether the channel of the present loop is closed.
pub record Leadership : Type 0 where
  pub ready_for_consistent_reads : ℕ
  pub loop : Loop
  pub stop_closed : Bool
  pub monitor : Monitor

-- What raft answers to a barrier.
pub data Barrier : Type 0 where
  caught_up : Barrier
  not_leader : Barrier
  failed : Barrier

-- The steps of the two goroutines. `barrier` carries raft's answer, whether the loop's context was
-- cancelled before establishLeadership, and raft's answers to LeadershipTransfer.
pub data Step : Type 0 where
  notified : Bool → Step
  shutdown : Step
  joined : Step
  barrier : Barrier → Bool → List Bool → Step
  stopped : Step
  polled : Step
  elapsed : Step

unfoldable pub set_consistent_read_ready : Leadership → Leadership
set_consistent_read_ready l = record l { ready_for_consistent_reads = 1 }

unfoldable pub reset_consistent_read_ready : Leadership → Leadership
reset_consistent_read_ready l = record l { ready_for_consistent_reads = 0 }

unfoldable pub revoke_leadership : Leadership → Leadership
unfolding reset_consistent_read_ready
revoke_leadership l = reset_consistent_read_ready l

-- `true` is success. A closed channel is needed for the context to be cancelled.
unfoldable pub establish_leadership : Bool → Leadership → Bool × Leadership
unfolding set_consistent_read_ready
establish_leadership cancelled l =
    if cancelled && l.stop_closed then (false, l) else (true, set_consistent_read_ready l)

-- Whether one of the first `tries` answers of raft is a success.
unfoldable pub leadership_transfer : ℕ → List Bool → Bool
leadership_transfer tries [] = false
leadership_transfer zero (a ∷ answers) = false
leadership_transfer (suc tries) (a ∷ answers) =
    let rest = leadership_transfer tries answers in if a then true else rest

-- The loop when establishLeadership has returned.
unfoldable pub on_establish : Bool → List Bool → Leadership → Leadership
unfolding revoke_leadership
on_establish true transfers l = record l { loop = established }
on_establish false transfers l =
    let l' = revoke_leadership l in
    if leadership_transfer 3 transfers
    then record l' { loop = exited }
    else record l' { loop = polling }

unfoldable pub on_barrier : Barrier → Bool → List Bool → Leadership → Leadership
unfolding establish_leadership on_establish
on_barrier not_leader cancelled transfers l = record l { loop = exited }
on_barrier failed cancelled transfers l = record l { loop = polling }
on_barrier caught_up cancelled transfers l =
    let (done, l') = establish_leadership cancelled l in on_establish done transfers l'

unfoldable pub reconcile : Barrier → Bool → List Bool → Loop → Leadership → Leadership
unfolding on_barrier
reconcile b cancelled transfers reconciling l = on_barrier b cancelled transfers l
reconcile b cancelled transfers established l = l
reconcile b cancelled transfers polling l = l
reconcile b cancelled transfers waiting l = l
reconcile b cancelled transfers exited l = l

-- The stop channel ends the loop in its two waits; an established leadership is left by the deferred
-- revokeLeadership.
unfoldable pub on_stopped : Loop → Leadership → Leadership
unfolding revoke_leadership
on_stopped reconciling l = l
on_stopped established l =
    if l.stop_closed then record (revoke_leadership l) { loop = exited } else l
on_stopped waiting l = if l.stop_closed then record l { loop = exited } else l
on_stopped polling l = l
on_stopped exited l = l

unfoldable pub on_polled : Loop → Leadership → Leadership
on_polled reconciling l = l
on_polled established l = l
on_polled polling l =
    if l.stop_closed then record l { loop = exited } else record l { loop = waiting }
on_polled waiting l = l
on_polled exited l = l

unfoldable pub on_elapsed : Loop → Leadership → Leadership
on_elapsed reconciling l = l
on_elapsed established l = l
on_elapsed polling l = l
on_elapsed waiting l = record l { loop = reconciling }
on_elapsed exited l = l

-- A loop is started only where none is running.
unfoldable pub on_acquired : Monitor → Leadership → Leadership
on_acquired idle l = record l { loop = reconciling; stop_closed = false; monitor = running }
on_acquired running l = l
on_acquired stopping l = l
on_acquired quitting l = l
on_acquired quit l = l

unfoldable pub on_lost : Monitor → Leadership → Leadership
on_lost idle l = l
on_lost running l = record l { stop_closed = true; monitor = stopping }
on_lost stopping l = l
on_lost quitting l = l
on_lost quit l = l

unfoldable pub on_shutdown : Monitor → Leadership → Leadership
on_shutdown idle l = record l { monitor = quit }
on_shutdown running l = record l { stop_closed = true; monitor = quitting }
on_shutdown stopping l = l
on_shutdown quitting l = l
on_shutdown quit l = l

-- The end of a wait for the loop, which goes on only when the loop has returned.
unfoldable pub go_on : Monitor → Loop → Leadership → Leadership
go_on next exited l = record l { monitor = next }
go_on next reconciling l = l
go_on next established l = l
go_on next polling l = l
go_on next waiting l = l

unfoldable pub on_joined : Monitor → Leadership → Leadership
unfolding go_on
on_joined idle l = l
on_joined running l = l
on_joined stopping l = go_on idle l.loop l
on_joined quitting l = go_on quit l.loop l
on_joined quit l = l

unfoldable pub step : Step → Leadership → Leadership
unfolding reconcile on_stopped on_polled on_elapsed on_acquired on_lost on_shutdown on_joined
step (notified true) l = on_acquired l.monitor l
step (notified false) l = on_lost l.monitor l
step shutdown l = on_shutdown l.monitor l
step joined l = on_joined l.monitor l
step (barrier b cancelled transfers) l = reconcile b cancelled transfers l.loop l
step stopped l = on_stopped l.loop l
step polled l = on_polled l.loop l
step elapsed l = on_elapsed l.loop l

unfoldable pub run : List Step → Leadership → Leadership
unfolding step
run [] l = l
run (s ∷ ss) l = run ss (step s l)

abbrev pub started : Leadership
started = record {
  ready_for_consistent_reads = 0;
  loop = exited;
  stop_closed = false;
  monitor = idle;
}
