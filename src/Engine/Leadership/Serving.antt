-- ===== src/Engine/Leadership/Serving.antt =====
-- A consistent read of engine/linearizable.go beside the goroutines of engine/raft.go, whose flag it
-- looks at.
use raft_example.Prelude.{
  ℕ, ◌≡◌, refl, inl, inr, Bool, true, Option, none, some, List, [], ◌∷◌, ◌++◌, Bytes, Result, ok,
  arith, ap, ◌==◌,
}
use raft_example.Fsm.Command.{CommandResponse}
use raft_example.Engine.{RaftServer, EngineError, Poll, tick, deadline, query}
use raft_example.Engine
use raft_example.Engine.Reads.{SawReady, Confirmed, query_ok}
use raft_example.Engine.Leadership.{
  Loop, reconciling, established, polling, waiting, exited, Leadership, Step, step, run, started,
}
use raft_example.Engine.Leadership.Ready.{flag_of, IsValid, step-IsValid, run-IsValid}
use raft_example.Engine.Leadership.Held.{Held, HeldSinceBarrier, run-Held}

-- What happens while a read waits: a step of the goroutines, the read's ticker, its deadline, or the
-- shutdown.
pub data Moment : Type 0 where
  moved : Step → Moment
  ticked : Moment
  timed_out : Moment
  shut : Moment

unfoldable pub is_ready_for_consistent_reads : Leadership → Bool
is_ready_for_consistent_reads l = l.ready_for_consistent_reads == 1

-- What the select of the read sees of it.
unfoldable pub seen : List Moment → Leadership → List Poll
unfolding step
seen [] l = []
seen (moved s ∷ ms) l = seen ms (step s l)
seen (ticked ∷ ms) l = tick l.ready_for_consistent_reads ∷ seen ms l
seen (timed_out ∷ ms) l = deadline ∷ seen ms l
seen (shut ∷ ms) l = Engine.shutdown ∷ seen ms l

abbrev pub steps_of : List Moment → List Step
steps_of [] = []
steps_of (moved s ∷ ms) = s ∷ steps_of ms
steps_of (ticked ∷ ms) = steps_of ms
steps_of (timed_out ∷ ms) = steps_of ms
steps_of (shut ∷ ms) = steps_of ms

abbrev pub server_of : RaftServer → Leadership → RaftServer
server_of s l = record s { ready_for_consistent_reads = l.ready_for_consistent_reads }

-- A linearizable Query that starts in `l`.
unfoldable pub linearizable_query :
    Option Bytes
    → ℕ
    → List Moment
    → ℕ
    → CommandResponse
    → RaftServer
    → Leadership
    → Option (Result EngineError (ℕ × Bytes))
unfolding query seen
linearizable_query verify left ms applied res s l =
    query true verify left (seen ms l) applied res (server_of s l)

flag_established : (p : Loop) → flag_of p ≡ 1 → p ≡ established
flag_established reconciling h = absurd (omega arith)
flag_established established h = refl
flag_established polling h = absurd (omega arith)
flag_established waiting h = absurd (omega arith)
flag_established exited h = absurd (omega arith)

ready_established :
    (l : Leadership) → IsValid l → l.ready_for_consistent_reads ≡ 1 → l.loop ≡ established
ready_established l h e = flag_established l.loop (omega (arith, h.0, e))

-- The moments up to one in which the loop holds the leadership.
abbrev pub EstablishedIn : List Moment → Leadership → Type 0
EstablishedIn ms l =
    (front : List Moment) × (back : List Moment) × (ms ≡ front ++ back)
    × ((run (steps_of front) l).loop ≡ established)

established_later :
    (m : Moment) (ms : List Moment) (l : Leadership)
    → steps_of (m ∷ []) ≡ []
    → EstablishedIn ms l
    → EstablishedIn (m ∷ ms) l
established_later (moved s) ms l e h = absurd cc
established_later ticked ms l e (front, back, split, h) =
    (ticked ∷ front, back, ap (λ x. ticked ∷ x) split, h)
established_later timed_out ms l e (front, back, split, h) =
    (timed_out ∷ front, back, ap (λ x. timed_out ∷ x) split, h)
established_later shut ms l e (front, back, split, h) =
    (shut ∷ front, back, ap (λ x. shut ∷ x) split, h)

established_after :
    (s : Step) (ms : List Moment) (l : Leadership)
    → EstablishedIn ms (step s l)
    → EstablishedIn (moved s ∷ ms) l
unfolding run
established_after s ms l (front, back, split, h) =
    (moved s ∷ front, back, ap (λ x. moved s ∷ x) split, h)

seen_ready :
    (ms : List Moment) (l : Leadership) → IsValid l → SawReady (seen ms l) → EstablishedIn ms l
unfolding seen run
seen_ready [] l h saw = absurd saw
seen_ready (moved s ∷ ms) l h saw =
    established_after s ms l (seen_ready ms (step s l) (step-IsValid s l h) saw)
seen_ready (ticked ∷ ms) l h (inl flag) = ([], ticked ∷ ms, refl, ready_established l h flag)
seen_ready (ticked ∷ ms) l h (inr saw) = established_later ticked ms l refl (seen_ready ms l h saw)
seen_ready (timed_out ∷ ms) l h saw = absurd saw
seen_ready (shut ∷ ms) l h saw = absurd saw

Confirmed-established :
    (verify : Option Bytes) (ms : List Moment) (s : RaftServer) (l : Leadership)
    → IsValid l
    → Confirmed verify (seen ms l) (server_of s l)
    → EstablishedIn ms l
unfolding run
Confirmed-established verify ms s l h (v, inl flag) = ([], ms, refl, ready_established l h flag)
Confirmed-established verify ms s l h (v, inr saw) = seen_ready ms l h saw

run_append : (xs ys : List Step) (l : Leadership) → run (xs ++ ys) l ≡ run ys (run xs l)
unfolding run
run_append [] ys l = refl
run_append (x ∷ xs) ys l = run_append xs ys (step x l)

held_since_start :
    (ss : List Step) → (run ss started).loop ≡ established → HeldSinceBarrier ss started
held_since_start ss h = elim (run-Held ss started h) [
  | inl held ↦ absurd (not_started ss held)
  | inr since ↦ since
]
  where
    not_started : (ss : List Step) → Held ss started → ⊥
    not_started [] held = cc
    not_started (s ∷ ss) held = let h = held.0 in cc

-- From the start of the node, however the steps of its goroutines mix with the turns of the read: a
-- linearizable Query that returns a value does so only if raft has confirmed the leadership to it
-- and if, at a moment of the wait or before it, leaderLoop held a leadership that it had taken
-- after a successful barrier and has held without a break since that barrier.
pub linearizable_query_held :
    (before : List Step) (verify : Option Bytes) (left : ℕ) (ms : List Moment) (applied i : ℕ)
    (res : CommandResponse) (s : RaftServer) (v : Bytes)
    → linearizable_query verify left ms applied res s (run before started) ≡ some (ok (i, v))
    → (verify ≡ none)
      × (front : List Moment) × (back : List Moment) × (ms ≡ front ++ back)
      × HeldSinceBarrier (before ++ steps_of front) started
unfolding linearizable_query run
linearizable_query_held before verify left ms applied i res s v h =
    let l = run before started in
    let (same_index, same_value, no_error, consistent) =
      query_ok true verify left (seen ms l) applied i res (server_of s l) v h in
    let confirmed = consistent refl in
    let (front, back, split, e) =
      Confirmed-established verify ms s l (run-IsValid before started (refl, refl)) confirmed in
    (
      confirmed.0,
      front,
      back,
      split,
      held_since_start (before ++ steps_of front)
          (rw (run_append before (steps_of front) started) e),
    )
