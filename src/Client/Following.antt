-- ===== src/Client/Following.antt =====
-- runWatchDemo of cmd/cmd.go with its context, its background writer, and doWatchKey over any stream.
use raft_example.Prelude.{
  ℕ, ◌≡◌, refl, ◌↔◌, ◌⊎◌, inl, inr, Bool, true, false, Option, none, some, List, [], ◌∷◌, ◌++◌,
  Bytes, bytes_of, Result, ok, err, if◌then◌else◌, All,
}
use raft_example.Watch.{BlockingQueryResult}

-- How doWatchKey ends: with nil, with an error, or not yet.
pub data Outcome (E : Type 0) : Type 0 where
  returned : Outcome E
  failed : E → Outcome E
  receiving : Outcome E

module _ (E : Type 0) where
  -- What a stream gives behind its responses: its end, an error, or nothing yet.
  pub data Closing : Type 0 where
    eof : Closing
    broken : E → Closing
    still_open : Closing

  -- A turn of the loop: whether the context is done at its start, the stream that is opened or the
  -- error of that, and whether the context is done when doWatchKey has returned.
  pub record Round : Type 0 where
    pub cancelled : Bool
    pub stream : Result E (List BlockingQueryResult × Closing)
    pub cancelled_after : Bool

module _ {E : Type 0} where
  on_closing : Closing E → Outcome E
  on_closing eof = returned
  on_closing (broken e) = failed e
  on_closing still_open = receiving

  receive : List BlockingQueryResult → Closing E → List BlockingQueryResult × Outcome E
  unfolding on_closing
  receive [] c = ([], on_closing c)
  receive (r ∷ rs) c =
      let (printed, outcome) = receive rs c in
      if r.abandoned then ([], returned) else (r ∷ printed, outcome)

  -- doWatchKey: the updates that it prints, and how it ends.
  unfoldable pub watch_stream :
      Result E (List BlockingQueryResult × Closing E) → List BlockingQueryResult × Outcome E
  unfolding receive
  watch_stream (err e) = ([], failed e)
  watch_stream (ok (rs, c)) = receive rs c

  on_outcome :
      Outcome E
      → Bool
      → List BlockingQueryResult
      → List BlockingQueryResult × Bool
      → List BlockingQueryResult × Bool
  on_outcome returned cancelled printed (later, over) = (printed ++ later, over)
  on_outcome (failed e) true printed rest = (printed, true)
  on_outcome (failed e) false printed (later, over) = (printed ++ later, over)
  on_outcome receiving cancelled printed rest = (printed, false)

  -- The loop: the updates that it prints, and whether it has returned.
  unfoldable pub watch_loop : List (Round E) → List BlockingQueryResult × Bool
  unfolding watch_stream on_outcome
  watch_loop [] = ([], false)
  watch_loop (r ∷ rs) =
      let rest = watch_loop rs in
      let (printed, outcome) = watch_stream r.stream in
      if r.cancelled then ([], true) else on_outcome outcome r.cancelled_after printed rest

-- A turn of the background writer: the context is done, or the ticker fires, with the random id of the
-- new value and, where the Add fails, whether the context is done by then.
pub data WriterTurn : Type 0 where
  stopped : WriterTurn
  updated : Bytes → WriterTurn
  add_failed : Bytes → Bool → WriterTurn

new_val : Bytes → Bytes
new_val id = bytes_of "updated-" ++ id

-- The values that are sent to the key, and whether the goroutine has returned.
unfoldable pub writer_loop : List WriterTurn → List Bytes × Bool
unfolding new_val
writer_loop [] = ([], false)
writer_loop (stopped ∷ ts) = ([], true)
writer_loop (updated id ∷ ts) = let (sent, over) = writer_loop ts in (new_val id ∷ sent, over)
writer_loop (add_failed id cancelled ∷ ts) =
    let (sent, over) = writer_loop ts in
    if cancelled then (new_val id ∷ [], true) else (new_val id ∷ sent, over)

-- The first Add fails and ends the process, or the two loops run.
pub data WatchDemo : Type 0 where
  fatal : WatchDemo
  followed : List BlockingQueryResult × Bool → List Bytes × Bool → WatchDemo

unfoldable pub run_watch_demo :
    {E : Type 0} → Option ℕ → List (Round E) → List WriterTurn → WatchDemo
unfolding watch_loop writer_loop
run_watch_demo none rounds turns = fatal
run_watch_demo (some commit_index) rounds turns = followed (watch_loop rounds) (writer_loop turns)

module _ {E : Type 0} where
  -- doWatchKey has come to an end.
  abbrev pub IsOver : Outcome E → Type 0
  IsOver returned = Unit
  IsOver (failed e) = Unit
  IsOver receiving = ⊥

  -- The context was done when doWatchKey had failed.
  abbrev pub FailsIn : Bool → Outcome E → Type 0
  FailsIn cancelled returned = ⊥
  FailsIn cancelled (failed e) = cancelled ≡ true
  FailsIn cancelled receiving = ⊥

  -- The loop has looked at a context that was done.
  abbrev pub SawDone : List (Round E) → Type 0
  SawDone [] = ⊥
  SawDone (r ∷ rs) =
      (r.cancelled ≡ true) ⊎ (FailsIn r.cancelled_after (watch_stream r.stream).1 ⊎ SawDone rs)

  on_outcome_over :
      (o : Outcome E) (cancelled : Bool) (printed : List BlockingQueryResult)
      (rest : List BlockingQueryResult × Bool) (S : Type 0)
      → IsOver o
      → ((rest.1 ≡ true) ↔ S)
      → ((on_outcome o cancelled printed rest).1 ≡ true) ↔ (FailsIn cancelled o ⊎ S)
  unfolding on_outcome
  on_outcome_over returned cancelled printed rest S h k =
      (λ e. inr (k.0 e), λ s. elim s [ inl x ↦ absurd x | inr y ↦ k.1 y ])
  on_outcome_over (failed e) true printed rest S h k = (λ e'. inl refl, λ s. refl)
  on_outcome_over (failed e) false printed rest S h k =
      (λ e'. inr (k.0 e'), λ s. elim s [ inl x ↦ absurd cc | inr y ↦ k.1 y ])
  on_outcome_over receiving cancelled printed rest S h k = absurd h

  -- Let every doWatchKey come to an end. The loop of runWatchDemo returns exactly if it looks at
  -- its context when that is done, at the start of a turn or behind a doWatchKey that has failed;
  -- by no other event, be it an abandoned state, the end of a stream or an error.
  pub watch_loop_returns :
      (rs : List (Round E))
      → All (λ r. IsOver (watch_stream r.stream).1) rs
      → ((watch_loop rs).1 ≡ true) ↔ SawDone rs
  unfolding watch_loop
  watch_loop_returns [] h = (λ e. cc, λ s. absurd s)
  watch_loop_returns (r ∷ rs) (h, hs) = by_start r.cancelled refl (watch_loop_returns rs hs)
    where
      stream : List BlockingQueryResult × Outcome E
      stream = watch_stream r.stream

      by_start :
          (b : Bool)
          → r.cancelled ≡ b
          → ((watch_loop rs).1 ≡ true) ↔ SawDone rs
          → ((if b
                then ([], true)
                else on_outcome stream.1 r.cancelled_after stream.0 (watch_loop rs)).1
              ≡ true)
            ↔ ((b ≡ true) ⊎ (FailsIn r.cancelled_after stream.1 ⊎ SawDone rs))
      by_start true e k = (λ e'. inl refl, λ s. refl)
      by_start false e k =
          let (to, from) =
            on_outcome_over stream.1 r.cancelled_after stream.0 (watch_loop rs) (SawDone rs) h k in
          (λ e'. inr (to e'), λ s. elim s [ inl x ↦ absurd cc | inr y ↦ from y ])
