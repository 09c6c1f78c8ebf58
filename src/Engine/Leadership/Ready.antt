-- ===== src/Engine/Leadership/Ready.antt =====
-- The flag of consistent reads beside the leader loop of engine/raft.go.
use raft_example.Prelude.{ℕ, ◌≡◌, refl, Bool, true, false, List, [], ◌∷◌, arith}
use raft_example.Engine.Leadership.{
  Loop, reconciling, established, polling, waiting, exited, Monitor, idle, running, stopping,
  quitting, quit, Leadership, Barrier, caught_up, not_leader, failed, Step, notified, shutdown,
  joined, barrier, stopped, polled, elapsed, set_consistent_read_ready, revoke_leadership,
  establish_leadership, on_establish, on_barrier, reconcile, on_stopped, on_polled, on_elapsed,
  on_acquired, on_lost, on_shutdown, go_on, on_joined, step, run,
}

abbrev pub flag_of : Loop → ℕ
flag_of reconciling = 0
flag_of established = 1
flag_of polling = 0
flag_of waiting = 0
flag_of exited = 0

-- What the monitor knows of the loop and its stop channel.
abbrev pub Monitored : Monitor → Loop → Bool → Type 0
Monitored idle loop stop_closed = loop ≡ exited
Monitored running loop stop_closed = stop_closed ≡ false
Monitored stopping loop stop_closed = stop_closed ≡ true
Monitored quitting loop stop_closed = stop_closed ≡ true
Monitored quit loop stop_closed = loop ≡ exited

-- The flag is set exactly while the loop holds an established leadership, and a loop runs only where
-- the monitor has started one and not yet seen it return.
abbrev pub IsValid : Leadership → Type 0
IsValid l =
    (l.ready_for_consistent_reads ≡ flag_of l.loop) × Monitored l.monitor l.loop l.stop_closed

-- A loop that runs may go to any place of its own.
moved :
    (m : Monitor) (loop loop' : Loop) (b : Bool)
    → Monitored m loop b
    → (loop ≡ exited → loop' ≡ exited)
    → Monitored m loop' b
moved idle loop loop' b h k = k h
moved running loop loop' b h k = h
moved stopping loop loop' b h k = h
moved quitting loop loop' b h k = h
moved quit loop loop' b h k = k h

on_barrier-IsValid :
    (b : Barrier) (cancelled : Bool) (transfers : List Bool) (l : Leadership)
    → l.loop ≡ reconciling
    → IsValid l
    → IsValid (on_barrier b cancelled transfers l)
unfolding on_barrier establish_leadership on_establish set_consistent_read_ready revoke_leadership
on_barrier-IsValid not_leader cancelled transfers l e (f, m) =
    ground (arith, moved l.monitor l.loop exited l.stop_closed m)
on_barrier-IsValid failed cancelled transfers l e (f, m) =
    ground (arith, moved l.monitor l.loop polling l.stop_closed m)
on_barrier-IsValid caught_up cancelled transfers l e (f, m) = ground (
  arith,
  moved l.monitor l.loop established l.stop_closed m,
  moved l.monitor l.loop exited l.stop_closed m,
  moved l.monitor l.loop polling l.stop_closed m,
)

pub on_stopped-IsValid :
    (p : Loop) (l : Leadership) → l.loop ≡ p → IsValid l → IsValid (on_stopped p l)
unfolding on_stopped revoke_leadership
on_stopped-IsValid reconciling l e h = h
on_stopped-IsValid established l e (f, m) =
    ground (arith, moved l.monitor l.loop exited l.stop_closed m)
on_stopped-IsValid waiting l e (f, m) =
    ground (arith, moved l.monitor l.loop exited l.stop_closed m)
on_stopped-IsValid polling l e h = h
on_stopped-IsValid exited l e h = h

on_acquired-IsValid :
    (m : Monitor) (l : Leadership) → l.monitor ≡ m → IsValid l → IsValid (on_acquired m l)
unfolding on_acquired
on_acquired-IsValid idle l e h = ground (arith, h)
on_acquired-IsValid running l e h = h
on_acquired-IsValid stopping l e h = h
on_acquired-IsValid quitting l e h = h
on_acquired-IsValid quit l e h = h

on_lost-IsValid : (m : Monitor) (l : Leadership) → l.monitor ≡ m → IsValid l → IsValid (on_lost m l)
unfolding on_lost
on_lost-IsValid idle l e h = h
on_lost-IsValid running l e h = (h.0, refl)
on_lost-IsValid stopping l e h = h
on_lost-IsValid quitting l e h = h
on_lost-IsValid quit l e h = h

on_shutdown-IsValid :
    (m : Monitor) (l : Leadership) → l.monitor ≡ m → IsValid l → IsValid (on_shutdown m l)
unfolding on_shutdown
on_shutdown-IsValid idle l e h = ground (arith, h)
on_shutdown-IsValid running l e h = (h.0, refl)
on_shutdown-IsValid stopping l e h = h
on_shutdown-IsValid quitting l e h = h
on_shutdown-IsValid quit l e h = h

go_on-IsValid :
    (next : Monitor) (p : Loop) (l : Leadership)
    → l.loop ≡ p
    → Monitored next exited l.stop_closed
    → IsValid l
    → IsValid (go_on next p l)
unfolding go_on
go_on-IsValid next exited l e n h = (h.0, rw e n)
go_on-IsValid next reconciling l e n h = h
go_on-IsValid next established l e n h = h
go_on-IsValid next polling l e n h = h
go_on-IsValid next waiting l e n h = h

on_joined-IsValid :
    (m : Monitor) (l : Leadership) → l.monitor ≡ m → IsValid l → IsValid (on_joined m l)
unfolding on_joined
on_joined-IsValid idle l e h = h
on_joined-IsValid running l e h = h
on_joined-IsValid stopping l e h = go_on-IsValid idle l.loop l refl refl h
on_joined-IsValid quitting l e h = go_on-IsValid quit l.loop l refl refl h
on_joined-IsValid quit l e h = h

reconcile-IsValid :
    (b : Barrier) (cancelled : Bool) (transfers : List Bool) (p : Loop) (l : Leadership)
    → l.loop ≡ p
    → IsValid l
    → IsValid (reconcile b cancelled transfers p l)
unfolding reconcile
reconcile-IsValid b cancelled transfers reconciling l e h =
    on_barrier-IsValid b cancelled transfers l e h
reconcile-IsValid b cancelled transfers established l e h = h
reconcile-IsValid b cancelled transfers polling l e h = h
reconcile-IsValid b cancelled transfers waiting l e h = h
reconcile-IsValid b cancelled transfers exited l e h = h

pub on_polled-IsValid :
    (p : Loop) (l : Leadership) → l.loop ≡ p → IsValid l → IsValid (on_polled p l)
unfolding on_polled
on_polled-IsValid reconciling l e h = h
on_polled-IsValid established l e h = h
on_polled-IsValid polling l e (f, m) = ground (
  arith,
  moved l.monitor l.loop exited l.stop_closed m,
  moved l.monitor l.loop waiting l.stop_closed m,
)
on_polled-IsValid waiting l e h = h
on_polled-IsValid exited l e h = h

on_elapsed-IsValid : (p : Loop) (l : Leadership) → l.loop ≡ p → IsValid l → IsValid (on_elapsed p l)
unfolding on_elapsed
on_elapsed-IsValid reconciling l e h = h
on_elapsed-IsValid established l e h = h
on_elapsed-IsValid polling l e h = h
on_elapsed-IsValid waiting l e (f, m) =
    ground (arith, moved l.monitor l.loop reconciling l.stop_closed m)
on_elapsed-IsValid exited l e h = h

pub step-IsValid : (s : Step) (l : Leadership) → IsValid l → IsValid (step s l)
unfolding step
step-IsValid (notified true) l h = on_acquired-IsValid l.monitor l refl h
step-IsValid (notified false) l h = on_lost-IsValid l.monitor l refl h
step-IsValid shutdown l h = on_shutdown-IsValid l.monitor l refl h
step-IsValid joined l h = on_joined-IsValid l.monitor l refl h
step-IsValid (barrier b cancelled transfers) l h =
    reconcile-IsValid b cancelled transfers l.loop l refl h
step-IsValid stopped l h = on_stopped-IsValid l.loop l refl h
step-IsValid polled l h = on_polled-IsValid l.loop l refl h
step-IsValid elapsed l h = on_elapsed-IsValid l.loop l refl h

-- From a valid state, whatever raft, the clock and the shutdown bring and however the steps of the
-- two goroutines are mixed, the flag of consistent reads is set exactly while leaderLoop holds an
-- established leadership; and while monitorLeadership has no loop, none runs.
pub run-IsValid : (ss : List Step) (l : Leadership) → IsValid l → IsValid (run ss l)
unfolding run
run-IsValid [] l h = h
run-IsValid (s ∷ ss) l h = run-IsValid ss (step s l) (step-IsValid s l h)
