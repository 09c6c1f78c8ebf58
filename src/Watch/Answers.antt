-- ===== src/Watch/Answers.antt =====
-- What a call of BlockingQuery answers, whatever happens beside it.
use raft_example.Prelude.{
  ℕ, ◌≤◌, ◌≡◌, refl, subst, ◌⊎◌, inl, inr, true, false, List, [], ◌∷◌, Bytes, Result, ok, err,
  arith, All,
}
use raft_example.Watch.{
  BlockingQueryResult, Event, replied, expired, ticked, restored, Phase, asking, waiting,
  rechecking, answered, on_first_reply, on_reply, step, run, blocking_query,
}

-- `Q` holds of what queryFn returns, and `T` where the timeout passes.
module _ (Q : Bytes → ℕ → Type 0) (T : Type 0) where
  abbrev pub Permits : {E : Type 0} → Event E → Type 0
  Permits (replied (ok (v, i))) = Q v i
  Permits (replied (err e)) = Unit
  Permits expired = T
  Permits ticked = Unit
  Permits restored = Unit

  -- A result is a mark of a restore, or it is from queryFn and has reached the minimum unless the
  -- timeout has passed.
  abbrev pub Answers : ℕ → BlockingQueryResult → Type 0
  Answers min_index r =
      (r ≡ record { value = []; current_index = 0; abandoned = true })
      ⊎ ((r.abandoned ≡ false) × Q r.value r.current_index × ((min_index ≤ r.current_index) ⊎ T))

module _ {E : Type 0} (Q : Bytes → ℕ → Type 0) (T : Type 0) (min_index : ℕ) where
  abbrev Sound : Phase E → Type 0
  Sound asking = Unit
  Sound (waiting v i) = Q v i
  Sound rechecking = Unit
  Sound (answered (ok r)) = Answers Q T min_index r
  Sound (answered (err e)) = Unit

  on_first_reply-Sound :
      (r : Result E (Bytes × ℕ)) → Permits Q T (replied r) → Sound (on_first_reply min_index r)
  unfolding on_first_reply
  on_first_reply-Sound (err e) h = tt
  on_first_reply-Sound (ok (v, i)) h = ground arith

  on_reply-Sound :
      (r : Result E (Bytes × ℕ)) → Permits Q T (replied r) → Sound (on_reply min_index r)
  unfolding on_reply
  on_reply-Sound (err e) h = tt
  on_reply-Sound (ok (v, i)) h = ground arith

  step-Sound : (e : Event E) (p : Phase E) → Permits Q T e → Sound p → Sound (step min_index e p)
  unfolding step
  step-Sound (replied r) asking h s = on_first_reply-Sound r h
  step-Sound (replied r) rechecking h s = on_reply-Sound r h
  step-Sound (replied r) (waiting v i) h s = s
  step-Sound (replied r) (answered a) h s = s
  step-Sound expired (waiting v i) h s = inr (refl, s, inr h)
  step-Sound expired asking h s = s
  step-Sound expired rechecking h s = s
  step-Sound expired (answered a) h s = s
  step-Sound restored (waiting v i) h s = inl refl
  step-Sound restored asking h s = s
  step-Sound restored rechecking h s = s
  step-Sound restored (answered a) h s = s
  step-Sound ticked (waiting v i) h s = tt
  step-Sound ticked asking h s = s
  step-Sound ticked rechecking h s = s
  step-Sound ticked (answered a) h s = s

  run-Sound :
      (es : List (Event E)) (p : Phase E)
      → All (Permits Q T) es
      → Sound p
      → Sound (run min_index es p)
  unfolding run
  run-Sound [] p h s = s
  run-Sound (e ∷ es) p (h, hs) s = run-Sound es (step min_index e p) hs (step-Sound e p h s)

  -- Let `Q` hold of every value and index that queryFn returns, and `T` where the timeout passes. A
  -- result that BlockingQuery returns without an error is the mark of a restore, with no value and
  -- index 0, or `Q` holds of it and its index has reached the minimum, unless `T` holds.
  pub blocking_query-Answers :
      (es : List (Event E)) (r : BlockingQueryResult)
      → All (Permits Q T) es
      → blocking_query min_index es ≡ answered (ok r)
      → Answers Q T min_index r
  unfolding blocking_query
  blocking_query-Answers es r h e = subst Sound e (run-Sound es asking h tt)
