-- ===== src/Engine/Leadership/Ends.antt =====
-- The end of a lost leadership in engine/raft.go.
use raft_example.Prelude.{◌≡◌, refl, subst, Bool, true, List, [], ◌∷◌, arith}
use raft_example.Engine.Leadership.{
  Loop, reconciling, established, polling, waiting, exited, idle, stopping, Leadership, Barrier,
  caught_up, not_leader, failed, joined, barrier, stopped, polled, set_consistent_read_ready,
  revoke_leadership, establish_leadership, on_establish, on_barrier, reconcile, on_stopped,
  on_polled, go_on, on_joined, step, run,
}
use raft_example.Engine.Leadership.Ready.{
  IsValid, Monitored, step-IsValid, on_stopped-IsValid, on_polled-IsValid,
}

abbrev Past : Loop → Type 0
Past reconciling = ⊥
Past established = Unit
Past polling = Unit
Past waiting = Unit
Past exited = Unit

abbrev Waits : Leadership → Type 0
Waits l = (l.monitor ≡ stopping) × Past l.loop

on_barrier-Waits :
    (b : Barrier) (cancelled : Bool) (transfers : List Bool) (l : Leadership)
    → l.monitor ≡ stopping
    → Waits (on_barrier b cancelled transfers l)
unfolding on_barrier establish_leadership on_establish set_consistent_read_ready revoke_leadership
on_barrier-Waits not_leader cancelled transfers l e = (e, tt)
on_barrier-Waits failed cancelled transfers l e = (e, tt)
on_barrier-Waits caught_up cancelled transfers l e = ground arith

reconcile-Waits :
    (b : Barrier) (cancelled : Bool) (transfers : List Bool) (p : Loop) (l : Leadership)
    → l.loop ≡ p
    → l.monitor ≡ stopping
    → Waits (reconcile b cancelled transfers p l)
unfolding reconcile
reconcile-Waits b cancelled transfers reconciling l e m = on_barrier-Waits b cancelled transfers l m
reconcile-Waits b cancelled transfers established l e m = (m, rw e tt)
reconcile-Waits b cancelled transfers polling l e m = (m, rw e tt)
reconcile-Waits b cancelled transfers waiting l e m = (m, rw e tt)
reconcile-Waits b cancelled transfers exited l e m = (m, rw e tt)

-- The loop is past its poll as well.
abbrev Held : Loop → Type 0
Held reconciling = ⊥
Held established = Unit
Held polling = ⊥
Held waiting = Unit
Held exited = Unit

on_polled-Held :
    (p : Loop) (l : Leadership)
    → l.loop ≡ p
    → IsValid l
    → Waits l
    → ((on_polled p l).monitor ≡ stopping) × Held (on_polled p l).loop
unfolding on_polled
on_polled-Held reconciling l e h (m, past) = absurd (subst Past e past)
on_polled-Held established l e h (m, past) = (m, rw e tt)
on_polled-Held polling l e (f, c) (m, past) =
    let closed : l.stop_closed ≡ true = subst (λ x. Monitored x l.loop l.stop_closed) m c in
    rw closed (m, tt)
on_polled-Held waiting l e h (m, past) = (m, rw e tt)
on_polled-Held exited l e h (m, past) = (m, rw e tt)

on_stopped_exits :
    (p : Loop) (l : Leadership)
    → l.loop ≡ p
    → IsValid l
    → (l.monitor ≡ stopping) × Held l.loop
    → ((on_stopped p l).loop ≡ exited) × ((on_stopped p l).monitor ≡ stopping)
unfolding on_stopped revoke_leadership
on_stopped_exits reconciling l e h (m, past) = absurd (subst Held e past)
on_stopped_exits established l e (f, c) (m, past) =
    let closed : l.stop_closed ≡ true = subst (λ x. Monitored x l.loop l.stop_closed) m c in
    rw closed (refl, m)
on_stopped_exits polling l e h (m, past) = absurd (subst Held e past)
on_stopped_exits waiting l e (f, c) (m, past) =
    let closed : l.stop_closed ≡ true = subst (λ x. Monitored x l.loop l.stop_closed) m c in
    rw closed (refl, m)
on_stopped_exits exited l e h (m, past) = (e, m)

join_ends :
    (l : Leadership)
    → IsValid l
    → l.loop ≡ exited
    → l.monitor ≡ stopping
    → ((step joined l).monitor ≡ idle)
      × ((step joined l).loop ≡ exited)
      × ((step joined l).ready_for_consistent_reads ≡ 0)
unfolding step on_joined go_on
join_ends l (f, c) e m = ground arith

-- In a valid state in which monitorLeadership waits behind a loss of the leadership, raft's answer
-- to a barrier that is outstanding, whatever it is, the poll of the closed channel, the wait on it
-- and the return of the loop bring it back to its select, with no loop and the flag reset.
pub run_ends :
    (b : Barrier) (cancelled : Bool) (transfers : List Bool) (l : Leadership)
    → IsValid l
    → l.monitor ≡ stopping
    → ((run (barrier b cancelled transfers ∷ polled ∷ stopped ∷ joined ∷ []) l).monitor ≡ idle)
      × ((run (barrier b cancelled transfers ∷ polled ∷ stopped ∷ joined ∷ []) l).loop ≡ exited)
      × ((run
            (barrier b cancelled transfers ∷ polled ∷ stopped ∷ joined ∷ [])
            l).ready_for_consistent_reads
          ≡ 0)
unfolding run
run_ends b cancelled transfers l h e =
    let passed = step-IsValid (barrier b cancelled transfers) l h in
    let waits = reconcile-Waits b cancelled transfers l.loop l refl e in
    let at = reconcile b cancelled transfers l.loop l in
    let (kept, held) = on_polled-Held at.loop at refl passed waits in
    let next = on_polled at.loop at in
    let valid = on_polled-IsValid at.loop at refl passed in
    let (gone, still) = on_stopped_exits next.loop next refl valid (kept, held) in
    join_ends (on_stopped next.loop next) (on_stopped-IsValid next.loop next refl valid) gone still
