-- ===== src/Watch.antt =====
-- service/blocking_query.go, and Watch of service/service.go: a query that waits for the index of the
-- state to reach a minimum, and the two loops that follow a key with it.
pub mod Answers
pub mod Loops
pub mod Turns
pub mod Abandoning
use raft_example.Prelude.{
  ℕ, ◌+◌, ◌%◌, ◌^◌, Bool, true, false, ◌||◌, Option, none, some, List, [], ◌∷◌, Bytes, Result, ok,
  err, leb, ◌==◌, if◌then◌else◌,
}

pub record BlockingQueryResult : Type 0 where
  pub value : Bytes
  pub current_index : ℕ
  pub abandoned : Bool

-- What happens beside a call: queryFn returns, its select receives from the timeout or the ticker, and
-- a restore closes the channel that AbandonCh returns.
pub data Event (E : Type 0) : Type 0 where
  replied : Result E (Bytes × ℕ) → Event E
  expired : Event E
  ticked : Event E
  restored : Event E

-- Where a call is: in its first queryFn, in the select with the last value and index, in a later
-- queryFn, or returned.
pub data Phase (E : Type 0) : Type 0 where
  asking : Phase E
  waiting : Bytes → ℕ → Phase E
  rechecking : Phase E
  answered : Result E BlockingQueryResult → Phase E

module _ {E : Type 0} (min_index : ℕ) where
  unfoldable pub on_first_reply : Result E (Bytes × ℕ) → Phase E
  on_first_reply (err e) = answered (err e)
  on_first_reply (ok (v, i)) =
      if (min_index == 0) || leb min_index i
      then answered (ok (record { value = v; current_index = i; abandoned = false }))
      else waiting v i

  unfoldable pub on_reply : Result E (Bytes × ℕ) → Phase E
  on_reply (err e) = answered (err e)
  on_reply (ok (v, i)) =
      if leb min_index i
      then answered (ok (record { value = v; current_index = i; abandoned = false }))
      else waiting v i

  -- The select asks AbandonCh for the channel each time, so a restore that is over before the select
  -- is not seen by it; the select receives nothing while queryFn runs.
  unfoldable pub step : Event E → Phase E → Phase E
  unfolding on_first_reply on_reply
  step (replied r) asking = on_first_reply r
  step (replied r) rechecking = on_reply r
  step expired (waiting v i) =
      answered (ok (record { value = v; current_index = i; abandoned = false }))
  step restored (waiting v i) =
      answered (ok (record { value = []; current_index = 0; abandoned = true }))
  step ticked (waiting v i) = rechecking
  step (replied r) (waiting v i) = waiting v i
  step (replied r) (answered a) = answered a
  step expired asking = asking
  step expired rechecking = rechecking
  step expired (answered a) = answered a
  step restored asking = asking
  step restored rechecking = rechecking
  step restored (answered a) = answered a
  step ticked asking = asking
  step ticked rechecking = rechecking
  step ticked (answered a) = answered a

  unfoldable pub run : List (Event E) → Phase E → Phase E
  unfolding step
  run [] p = p
  run (e ∷ es) p = run es (step e p)

-- A call, by where it is behind some events.
unfoldable pub blocking_query : {E : Type 0} → ℕ → List (Event E) → Phase E
unfolding run
blocking_query min_index es = run min_index es asking

-- One round of a loop: whether the context is done at its start, the events of its query, and the
-- error of the callback or of the stream's Send.
pub record Turn (E : Type 0) : Type 0 where
  pub cancelled : Bool
  pub events : List (Event E)
  pub callback : Option E

-- The results that were handed on, and the error that ended the loop, if one did.
pub record Watched (E : Type 0) : Type 0 where
  pub delivered : List BlockingQueryResult
  pub ended : Option E

module _ {E : Type 0} (ctx_err : E) where
  hand_on : BlockingQueryResult → Option E → (BlockingQueryResult → Watched E) → Watched E
  hand_on r (some e) next = record { delivered = r ∷ []; ended = some e }
  hand_on r none next = record { delivered = r ∷ (next r).delivered; ended = (next r).ended }

  on_answer : Phase E → Option E → (BlockingQueryResult → Watched E) → Watched E
  unfolding hand_on
  on_answer (answered (ok r)) callback next = hand_on r callback next
  on_answer (answered (err e)) callback next = record { delivered = []; ended = some e }
  on_answer asking callback next = record { delivered = []; ended = none }
  on_answer rechecking callback next = record { delivered = []; ended = none }
  on_answer (waiting v i) callback next = record { delivered = []; ended = none }

  turn : ℕ → Turn E → (BlockingQueryResult → Watched E) → Watched E
  unfolding on_answer blocking_query
  turn min_index t next =
      if t.cancelled
      then record { delivered = []; ended = some ctx_err }
      else on_answer (blocking_query min_index t.events) t.callback next

  -- WatchKey from `last_index` on. The sum is a uint64.
  unfoldable pub watch_key : ℕ → List (Turn E) → Watched E
  unfolding turn
  watch_key last_index [] = record { delivered = []; ended = none }
  watch_key last_index (t ∷ ts) =
      turn ((last_index + 1) % 2 ^ 64) t
        (λ r. watch_key (if r.abandoned then 0 else r.current_index) ts)

  unfoldable pub watch : ℕ → List (Turn E) → Watched E
  unfolding turn
  watch min_index [] = record { delivered = []; ended = none }
  watch min_index (t ∷ ts) =
      turn min_index t (λ r. watch (if r.abandoned then 0 else (r.current_index + 1) % 2 ^ 64) ts)
