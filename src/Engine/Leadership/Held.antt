-- ===== src/Engine/Leadership/Held.antt =====
-- Since when leaderLoop of engine/raft.go holds an established leadership.
use raft_example.Prelude.{◌≡◌, refl, ◌⊎◌, inl, inr, Bool, true, false, List, [], ◌∷◌, arith}
use raft_example.Engine.Leadership.{
  Loop, reconciling, established, polling, waiting, exited, Monitor, idle, running, stopping,
  quitting, quit, Leadership, Barrier, caught_up, not_leader, failed, Step, notified, shutdown,
  joined, barrier, stopped, polled, elapsed, revoke_leadership, reset_consistent_read_ready,
  on_barrier, reconcile, on_stopped, on_polled, on_elapsed, on_acquired, on_lost, on_shutdown,
  go_on, on_joined, step, run,
}

-- The loop holds the leadership now and after each of the steps.
abbrev pub Held : List Step → Leadership → Type 0
Held [] l = l.loop ≡ established
Held (s ∷ ss) l = (l.loop ≡ established) × Held ss (step s l)

-- One of the steps is a barrier that raft has answered with success, which leaderLoop was waiting for,
-- and from there on the loop holds the leadership.
pub data HeldSinceBarrier : List Step → Leadership → Type 0 where
  here :
      {cancelled : Bool} {transfers : List Bool} {ss : List Step} {l : Leadership}
      → l.loop ≡ reconciling
      → Held ss (step (barrier caught_up cancelled transfers) l)
      → HeldSinceBarrier (barrier caught_up cancelled transfers ∷ ss) l
  there :
      {s : Step} {ss : List Step} {l : Leadership}
      → HeldSinceBarrier ss (step s l)
      → HeldSinceBarrier (s ∷ ss) l

-- The steps that can bring the loop to an established leadership.
abbrev Enters : Step → Leadership → Type 0
Enters (barrier caught_up cancelled transfers) l = l.loop ≡ reconciling
Enters s l = ⊥

reconcile-Enters :
    (b : Barrier) (cancelled : Bool) (transfers : List Bool) (p : Loop) (l : Leadership)
    → l.loop ≡ p
    → (reconcile b cancelled transfers p l).loop ≡ established
    → (l.loop ≡ established) ⊎ Enters (barrier b cancelled transfers) l
unfolding reconcile on_barrier
reconcile-Enters caught_up cancelled transfers reconciling l e h = inr e
reconcile-Enters not_leader cancelled transfers reconciling l e h = absurd cc
reconcile-Enters failed cancelled transfers reconciling l e h = absurd cc
reconcile-Enters b cancelled transfers established l e h = inl e
reconcile-Enters b cancelled transfers polling l e h = inl h
reconcile-Enters b cancelled transfers waiting l e h = inl h
reconcile-Enters b cancelled transfers exited l e h = inl h

on_stopped_kept :
    (p : Loop) (l : Leadership)
    → l.loop ≡ p
    → (on_stopped p l).loop ≡ established
    → l.loop ≡ established
unfolding on_stopped revoke_leadership reset_consistent_read_ready
on_stopped_kept reconciling l e h = h
on_stopped_kept established l e h = e
on_stopped_kept waiting l e h = ground (arith)
on_stopped_kept polling l e h = h
on_stopped_kept exited l e h = h

on_polled_kept :
    (p : Loop) (l : Leadership)
    → l.loop ≡ p
    → (on_polled p l).loop ≡ established
    → l.loop ≡ established
unfolding on_polled
on_polled_kept reconciling l e h = h
on_polled_kept established l e h = e
on_polled_kept waiting l e h = h
on_polled_kept polling l e h = ground (arith)
on_polled_kept exited l e h = h

on_elapsed_kept :
    (p : Loop) (l : Leadership)
    → l.loop ≡ p
    → (on_elapsed p l).loop ≡ established
    → l.loop ≡ established
unfolding on_elapsed
on_elapsed_kept reconciling l e h = h
on_elapsed_kept established l e h = e
on_elapsed_kept waiting l e h = absurd cc
on_elapsed_kept polling l e h = h
on_elapsed_kept exited l e h = h

-- The monitor does not move the loop but to its start.
on_acquired_kept :
    (m : Monitor) (l : Leadership) → (on_acquired m l).loop ≡ established → l.loop ≡ established
unfolding on_acquired
on_acquired_kept idle l h = absurd cc
on_acquired_kept running l h = h
on_acquired_kept stopping l h = h
on_acquired_kept quitting l h = h
on_acquired_kept quit l h = h

on_lost_kept : (m : Monitor) (l : Leadership) → (on_lost m l).loop ≡ l.loop
unfolding on_lost
on_lost_kept idle l = refl
on_lost_kept running l = refl
on_lost_kept stopping l = refl
on_lost_kept quitting l = refl
on_lost_kept quit l = refl

on_shutdown_kept : (m : Monitor) (l : Leadership) → (on_shutdown m l).loop ≡ l.loop
unfolding on_shutdown
on_shutdown_kept idle l = refl
on_shutdown_kept running l = refl
on_shutdown_kept stopping l = refl
on_shutdown_kept quitting l = refl
on_shutdown_kept quit l = refl

go_on_kept : (m : Monitor) (p : Loop) (l : Leadership) → (go_on m p l).loop ≡ l.loop
unfolding go_on
go_on_kept m reconciling l = refl
go_on_kept m established l = refl
go_on_kept m polling l = refl
go_on_kept m waiting l = refl
go_on_kept m exited l = refl

on_joined_kept : (m : Monitor) (l : Leadership) → (on_joined m l).loop ≡ l.loop
unfolding on_joined
on_joined_kept idle l = refl
on_joined_kept running l = refl
on_joined_kept stopping l = go_on_kept idle l.loop l
on_joined_kept quitting l = go_on_kept quit l.loop l
on_joined_kept quit l = refl

step-Enters :
    (s : Step) (l : Leadership)
    → (step s l).loop ≡ established
    → (l.loop ≡ established) ⊎ Enters s l
unfolding step
step-Enters (notified true) l h = inl (on_acquired_kept l.monitor l h)
step-Enters (notified false) l h = inl (rw (← on_lost_kept l.monitor l) h)
step-Enters shutdown l h = inl (rw (← on_shutdown_kept l.monitor l) h)
step-Enters joined l h = inl (rw (← on_joined_kept l.monitor l) h)
step-Enters (barrier b cancelled transfers) l h =
    reconcile-Enters b cancelled transfers l.loop l refl h
step-Enters stopped l h = inl (on_stopped_kept l.loop l refl h)
step-Enters polled l h = inl (on_polled_kept l.loop l refl h)
step-Enters elapsed l h = inl (on_elapsed_kept l.loop l refl h)

Held-first : (ss : List Step) (l : Leadership) → Held ss l → l.loop ≡ established
Held-first [] l h = h
Held-first (s ∷ ss) l h = h.0

entered :
    (s : Step) (ss : List Step) (l : Leadership)
    → Enters s l
    → Held ss (step s l)
    → HeldSinceBarrier (s ∷ ss) l
entered (barrier caught_up cancelled transfers) ss l e h = here e h
entered (barrier not_leader cancelled transfers) ss l e h = absurd e
entered (barrier failed cancelled transfers) ss l e h = absurd e
entered (notified b) ss l e h = absurd e
entered shutdown ss l e h = absurd e
entered joined ss l e h = absurd e
entered stopped ss l e h = absurd e
entered polled ss l e h = absurd e
entered elapsed ss l e h = absurd e

pub run-Held :
    (ss : List Step) (l : Leadership)
    → (run ss l).loop ≡ established
    → Held ss l ⊎ HeldSinceBarrier ss l
unfolding run
run-Held [] l h = inl h
run-Held (s ∷ ss) l h = elim (run-Held ss (step s l) h) [
  | inl held ↦ elim (step-Enters s l (Held-first ss (step s l) held)) [
    | inl before ↦ inl (before, held)
    | inr enters ↦ inr (entered s ss l enters held)
  ]
  | inr since ↦ inr (there since)
]
