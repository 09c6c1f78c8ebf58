-- ===== src/Service/Blocking.antt =====
-- WatchKeyBlocking of service/service.go: a blocking query over the node's own reads of a key.
use raft_example.Prelude.{
  ℕ, ◌≡◌, refl, ◌⊎◌, inl, inr, false, Option, none, some, List, [], ◌∷◌, Bytes, Result, ok, err,
  All,
}
use raft_example.Fsm.Errors.{StoreError}
use raft_example.Fsm.Command.{CommandResponse}
use raft_example.Engine.{EngineError, RaftServer, query, local_read, read_result}
use raft_example.Watch.{
  BlockingQueryResult, Event, replied, expired, ticked, restored, Phase, answered, blocking_query,
}
use raft_example.Watch.Answers.{Permits, Answers, blocking_query-Answers}

-- What happens beside a call: a read of the key by the state machine, with the index that raft has
-- applied behind it, the timeout of 30 seconds or the end of the caller's context, a tick, a restore.
pub data Occurrence : Type 0 where
  read : ℕ → CommandResponse → Occurrence
  timed_out : Occurrence
  tick : Occurrence
  restore : Occurrence

abbrev swap : Option (Result EngineError (ℕ × Bytes)) → Event EngineError
swap (some (ok (index, val))) = replied (ok (val, index))
swap (some (err e)) = replied (err e)
swap none = ticked

-- queryFn: a Query that is not consistent, which has a result at once.
unfoldable pub query_fn : RaftServer → ℕ → CommandResponse → Event EngineError
unfolding query
query_fn s applied res = swap (query false none 0 [] applied res s)

unfoldable pub seen : RaftServer → Occurrence → Event EngineError
unfolding query_fn
seen s (read applied res) = query_fn s applied res
seen s timed_out = expired
seen s tick = ticked
seen s restore = restored

unfoldable pub all_seen : RaftServer → List Occurrence → List (Event EngineError)
unfolding seen
all_seen s [] = []
all_seen s (o ∷ os) = seen s o ∷ all_seen s os

unfoldable pub watch_key_blocking : ℕ → RaftServer → List Occurrence → Phase EngineError
unfolding blocking_query all_seen
watch_key_blocking min_index s os = blocking_query min_index (all_seen s os)

-- One of the reads gave that value, without an error, when raft had applied that index.
abbrev pub WasRead : List Occurrence → Bytes → ℕ → Type 0
WasRead [] v i = ⊥
WasRead (read applied res ∷ os) v i =
    ((applied ≡ i) × (res.val ≡ v) × (res.error ≡ none)) ⊎ WasRead os v i
WasRead (timed_out ∷ os) v i = WasRead os v i
WasRead (tick ∷ os) v i = WasRead os v i
WasRead (restore ∷ os) v i = WasRead os v i

abbrev pub TimedOut : List Occurrence → Type 0
TimedOut [] = ⊥
TimedOut (read applied res ∷ os) = TimedOut os
TimedOut (timed_out ∷ os) = Unit
TimedOut (tick ∷ os) = TimedOut os
TimedOut (restore ∷ os) = TimedOut os

module _ (Q : Bytes → ℕ → Type 0) (T : Type 0) (s : RaftServer) where
  query_fn-Permits :
      (applied : ℕ) (res : CommandResponse)
      → (res.error ≡ none → Q res.val applied)
      → Permits Q T (query_fn s applied res)
  unfolding query_fn query local_read read_result
  query_fn-Permits applied res h = by_error res.error h
    where
      by_error :
          (e : Option StoreError)
          → (e ≡ none → Q res.val applied)
          → Permits Q T (swap (some (read_result applied res.val e)))
      by_error none k = k refl
      by_error (some e) k = tt

  all_seen-Permits :
      (os : List Occurrence)
      → ((v : Bytes) (i : ℕ) → WasRead os v i → Q v i)
      → (TimedOut os → T)
      → All (Permits Q T) (all_seen s os)
  unfolding all_seen seen
  all_seen-Permits [] h k = tt
  all_seen-Permits (read applied res ∷ os) h k = (
    query_fn-Permits applied res (λ e. h res.val applied (inl (refl, refl, e))),
    all_seen-Permits os (λ v i w. h v i (inr w)) k,
  )
  all_seen-Permits (timed_out ∷ os) h k = (k tt, all_seen-Permits os h (λ t. k tt))
  all_seen-Permits (tick ∷ os) h k = (tt, all_seen-Permits os h k)
  all_seen-Permits (restore ∷ os) h k = (tt, all_seen-Permits os h k)

-- Whatever happens beside it: a result that WatchKeyBlocking returns without an error is the mark
-- of a restore, with no value and index 0, or it is a value that one of the node's own reads of the
-- key gave without an error and the index that raft had applied behind that read, and the index has
-- reached the minimum unless the call has timed out.
pub watch_key_blocking-Answers :
    (min_index : ℕ) (s : RaftServer) (os : List Occurrence) (r : BlockingQueryResult)
    → watch_key_blocking min_index s os ≡ answered (ok r)
    → Answers (WasRead os) (TimedOut os) min_index r
unfolding watch_key_blocking
watch_key_blocking-Answers min_index s os r h =
    blocking_query-Answers (WasRead os) (TimedOut os) min_index (all_seen s os) r
      (all_seen-Permits (WasRead os) (TimedOut os) s os (λ v i w. w) (λ t. t)) h
