-- ===== src/Watch/Loops.antt =====
-- The indices that the loops WatchKey and Watch hand on.
use raft_example.Prelude.{
  ℕ, ◌+◌, ◌%◌, ◌^◌, ◌≤◌, ◌<◌, ◌≡◌, refl, ap, inl, inr, Bool, true, false, Option, none, some, List,
  [], ◌∷◌, Bytes, ok, err, if◌then◌else◌, arith, All,
}
use raft_example.Watch.{
  BlockingQueryResult, Phase, asking, waiting, rechecking, answered, blocking_query, Turn, Watched,
  hand_on, on_answer, turn, watch_key, watch,
}
use raft_example.Watch.Answers.{Permits, Answers, blocking_query-Answers}

-- Each index is at least the minimum, which is one above the last index handed on, and `reset` behind
-- the mark of a restore.
abbrev pub Advances : ℕ → ℕ → List BlockingQueryResult → Type 0
Advances reset min_index [] = Unit
Advances reset min_index (r ∷ rs) =
    if r.abandoned
    then Advances reset reset rs
    else ((min_index ≤ r.current_index) × Advances reset (r.current_index + 1) rs)

-- The index has a successor among the uint64.
abbrev pub HasNext : Bytes → ℕ → Type 0
HasNext v i = i + 1 < 2 ^ 64

abbrev pub Untimed : {E : Type 0} → Turn E → Type 0
Untimed t = All (Permits HasNext ⊥) t.events

if_true : (X Y : Type 0) (b : Bool) → b ≡ true → X → if b then X else Y
if_true X Y b h x = rw h x

if_false : (X Y : Type 0) (b : Bool) → b ≡ false → Y → if b then X else Y
if_false X Y b h y = rw h y

module _ {E : Type 0} (ctx_err : E) (reset : ℕ) where
  hand_on-Advances :
      (min_index : ℕ) (r : BlockingQueryResult) (callback : Option E)
      (next : BlockingQueryResult → Watched E)
      → Answers HasNext ⊥ min_index r
      → (r.abandoned ≡ true → Advances reset reset (next r).delivered)
      → (r.current_index + 1 < 2 ^ 64
          → r.abandoned ≡ false
          → Advances reset (r.current_index + 1) (next r).delivered)
      → Advances reset min_index (hand_on ctx_err r callback next).delivered
  unfolding hand_on
  hand_on-Advances min_index r (some e) next (inl a) again on =
      if_true _ _ r.abandoned (ap (λ x. x.abandoned) a) tt
  hand_on-Advances min_index r none next (inl a) again on =
      if_true _ _ r.abandoned (ap (λ x. x.abandoned) a) (again (ap (λ x. x.abandoned) a))
  hand_on-Advances min_index r (some e) next (inr (a, q, inl l)) again on =
      if_false _ _ r.abandoned a (l, tt)
  hand_on-Advances min_index r none next (inr (a, q, inl l)) again on =
      if_false _ _ r.abandoned a (l, on q a)
  hand_on-Advances min_index r callback next (inr (a, q, inr l)) again on = absurd l

  on_answer-Advances :
      (min_index : ℕ) (p : Phase E) (callback : Option E) (next : BlockingQueryResult → Watched E)
      → ((r : BlockingQueryResult) → p ≡ answered (ok r) → Answers HasNext ⊥ min_index r)
      → ((r : BlockingQueryResult) → r.abandoned ≡ true → Advances reset reset (next r).delivered)
      → ((r : BlockingQueryResult)
          → r.current_index + 1 < 2 ^ 64
          → r.abandoned ≡ false
          → Advances reset (r.current_index + 1) (next r).delivered)
      → Advances reset min_index (on_answer ctx_err p callback next).delivered
  unfolding on_answer
  on_answer-Advances min_index (answered (ok r)) callback next h again on =
      hand_on-Advances min_index r callback next (h r refl) (again r) (on r)
  on_answer-Advances min_index (answered (err e)) callback next h again on = tt
  on_answer-Advances min_index asking callback next h again on = tt
  on_answer-Advances min_index rechecking callback next h again on = tt
  on_answer-Advances min_index (waiting v i) callback next h again on = tt

  if-Advances :
      (min_index : ℕ) (b : Bool) (ended : Option E) (w : Watched E)
      → Advances reset min_index w.delivered
      → Advances reset min_index
          (if b then record { delivered = []; ended = ended } else w).delivered
  if-Advances min_index true ended w h = tt
  if-Advances min_index false ended w h = h

  -- A loop that goes on by `next r` behind a result `r`.
  turn-Advances :
      (min_index : ℕ) (t : Turn E) (next : BlockingQueryResult → Watched E)
      → Untimed t
      → ((r : BlockingQueryResult) → r.abandoned ≡ true → Advances reset reset (next r).delivered)
      → ((r : BlockingQueryResult)
          → r.current_index + 1 < 2 ^ 64
          → r.abandoned ≡ false
          → Advances reset (r.current_index + 1) (next r).delivered)
      → Advances reset min_index (turn ctx_err min_index t next).delivered
  unfolding turn
  turn-Advances min_index t next h again on = if-Advances min_index t.cancelled (some ctx_err) _ (
      on_answer-Advances min_index (blocking_query min_index t.events) t.callback next
        (λ r e. blocking_query-Answers HasNext ⊥ min_index t.events r h e) again on)

module _ {E : Type 0} (ctx_err : E) where
  -- Let the last index and every index that queryFn returns have a successor among the uint64, and
  -- no query run into its timeout. Then the results that WatchKey hands to its callback have
  -- increasing indices, from above the last index on, and begin again at 1 behind the mark of a
  -- restore.
  pub watch_key-Advances :
      (last_index : ℕ) (ts : List (Turn E))
      → last_index + 1 < 2 ^ 64
      → All Untimed ts
      → Advances 1 (last_index + 1) (watch_key ctx_err last_index ts).delivered
  unfolding watch_key
  watch_key-Advances last_index [] fits h = tt
  watch_key-Advances last_index (t ∷ ts) fits (h, hs) =
      let e : (last_index + 1) % 2 ^ 64 ≡ last_index + 1 = omega arith in
      rw e (
        turn-Advances ctx_err 1 (last_index + 1) t _ h
          (λ r a. rw a (watch_key-Advances 0 ts (omega arith) hs))
          (λ r next a. rw a (watch_key-Advances r.current_index ts next hs)))

  -- Let every index that queryFn returns have a successor among the uint64, and no query run into
  -- its timeout. Then the results that Watch sends have increasing indices, from the minimum that
  -- it is asked for on, and begin again at 0 behind the mark of a restore.
  pub watch-Advances :
      (min_index : ℕ) (ts : List (Turn E))
      → All Untimed ts
      → Advances 0 min_index (watch ctx_err min_index ts).delivered
  unfolding watch
  watch-Advances min_index [] h = tt
  watch-Advances min_index (t ∷ ts) (h, hs) =
      turn-Advances ctx_err 0 min_index t _ h (λ r a. rw a (watch-Advances 0 ts hs))
        (λ r next a.
          let e : (r.current_index + 1) % 2 ^ 64 ≡ r.current_index + 1 = omega arith in
          rw (a, e) (watch-Advances (r.current_index + 1) ts hs))
