-- ===== src/Watch/Turns.antt =====
-- One turn of the loop of Watch, when what it sends goes through.
use raft_example.Prelude.{
  ℕ, ◌≡◌, refl, ◌⊎◌, inl, inr, Bool, true, false, Option, none, some, [], ◌∷◌, List, ok, err,
  if◌then◌else◌, ◌+◌, ◌%◌, ◌^◌,
}
use raft_example.Watch.{
  BlockingQueryResult, Phase, asking, waiting, rechecking, answered, Turn, Watched, hand_on,
  on_answer, turn, blocking_query, watch,
}

module _ {E : Type 0} (ctx_err : E) where
  -- Nothing is delivered and the loop goes no further, or a result is, and the loop goes on.
  abbrev pub OneTurn : (BlockingQueryResult → Watched E) → Watched E → Type 0
  OneTurn next w =
      ((ended : Option E) × (w ≡ record { delivered = []; ended = ended }))
      ⊎ ((r : BlockingQueryResult) × (w
            ≡ record { delivered = r ∷ (next r).delivered; ended = (next r).ended }))

  answer_cases :
      (p : Phase E) (next : BlockingQueryResult → Watched E)
      → OneTurn next (on_answer ctx_err p none next)
  unfolding on_answer hand_on
  answer_cases (answered (ok r)) next = inr (r, refl)
  answer_cases (answered (err e)) next = inl (some e, refl)
  answer_cases asking next = inl (none, refl)
  answer_cases rechecking next = inl (none, refl)
  answer_cases (waiting v i) next = inl (none, refl)

  turn_cases :
      (i : ℕ) (t : Turn E) (next : BlockingQueryResult → Watched E)
      → t.callback ≡ none
      → OneTurn next (turn ctx_err i t next)
  unfolding turn
  turn_cases i t next goes = rw goes (by_test t.cancelled)
    where
      by_test :
          (b : Bool)
          → OneTurn next (
              if b
              then record { delivered = []; ended = some ctx_err }
              else on_answer ctx_err (blocking_query i t.events) none next)
      by_test true = inl (some ctx_err, refl)
      by_test false = answer_cases (blocking_query i t.events) next

  pub watch_cases :
      (i : ℕ) (t : Turn E) (ts : List (Turn E))
      → t.callback ≡ none
      → OneTurn
          (λ r. watch ctx_err (if r.abandoned then 0 else (r.current_index + 1) % 2 ^ 64) ts)
          (watch ctx_err i (t ∷ ts))
  unfolding watch
  watch_cases i t ts goes = turn_cases i t _ goes
