-- ===== src/Fsm/Restore/Content.antt =====
-- The database behind the loop of recoverSnapShot in fsm/store.go.
use raft_example.Prelude.{
  ℕ, Bool, ◌≡◌, refl, sym, ap, subst, ◌∙◌, Bool, Bool-cases, inl, inr, true, false, List, [], ◌∷◌,
  ◌++◌, append_assoc, append-nil, arith, Option, some, none, Bytes, same, same_iff, ltb,
  if◌then◌else◌, length, length-append,
}
use raft_example.Prelude.Map.{Map, lookup}
use raft_example.Fsm.Platform.{Op, Pebble, PebbleIsLawful, IsReliable, Codec, DistinctKeys, overlay}
use raft_example.Fsm.Batch.{put, commit, content, content-put, content-commit}
use raft_example.Fsm.Save.Steps.{record_bytes, zipped, records_bytes}
use raft_example.Fsm.Restore.{Restoring, put_value, flush}
use raft_example.Fsm.Restore.Loop.{added, added_all}

abbrev pub or_else : Option Bytes → Option Bytes → Option Bytes
or_else none b = b
or_else (some a) b = some a

first_found :
    (b : Bool) (l c : Option Bytes) (v : Bytes)
    → (b ≡ true → l ≡ none)
    → or_else l (if b then some v else c) ≡ or_else (if b then some v else l) c
first_found true l c v h = rw (h refl)
first_found false l c v h = refl

nil_of_length {ℓ} : {A : Type ℓ} (xs : List A) → length xs ≡ 0 → xs ≡ []
nil_of_length [] h = refl
nil_of_length (x ∷ xs) h = absurd (omega arith)

module _ (C : Codec) (P : Pebble) (max_alloc : ℕ) where
  -- `k` counts the operations that wait in the batch.
  abbrev pub IsCounted : Restoring P → Type 0
  IsCounted s = s.k ≡ length s.wb.wb

  put_value-IsCounted :
      (key val : Bytes) (s : Restoring P)
      → IsCounted s
      → IsCounted (put_value C P max_alloc key val s)
  unfolding put_value put commit
  put_value-IsCounted key val s h = ground (arith, length-append s.wb.wb (Op.set key val ∷ []))

  put_value-hashed :
      (key val : Bytes) (s : Restoring P) → (put_value C P max_alloc key val s).hashed ≡ s.hashed
  unfolding put_value
  put_value-hashed key val s = ground arith

  pub added_all-hashed :
      (es : Map Bytes) (s : Restoring P)
      → (added_all C P max_alloc es s).hashed ≡ s.hashed ++ records_bytes C es
  added_all-hashed [] s = sym (append-nil s.hashed)
  added_all-hashed ((key, val) ∷ es) s =
      added_all-hashed es _
      ∙ rw put_value-hashed
          (append_assoc s.hashed (record_bytes C key (zipped C val)) (records_bytes C es))

  pub added_all-IsCounted :
      (es : Map Bytes) (s : Restoring P) → IsCounted s → IsCounted (added_all C P max_alloc es s)
  added_all-IsCounted [] s h = h
  added_all-IsCounted ((key, val) ∷ es) s h =
      added_all-IsCounted es _ (put_value-IsCounted key val _ h)

  module _ (lawful : PebbleIsLawful P) (reliable : IsReliable P) where
    put_value-content :
        (key val j : Bytes) (s : Restoring P)
        → content P (put_value C P max_alloc key val s).wb j
          ≡ (if same key j then some val else content P s.wb j)
    unfolding put_value
    put_value-content key val j s = ground (
      arith,
      content-put P s.wb key val j,
      content-commit P lawful reliable (put P key val s.wb) j,
    )

    -- With distinct keys each pair of the records is found under its key.
    pub added_all-content :
        (es : Map Bytes) (j : Bytes) (s : Restoring P)
        → DistinctKeys es
        → content P (added_all C P max_alloc es s).wb j ≡ or_else (lookup j es) (content P s.wb j)
    unfolding lookup
    added_all-content [] j s h = refl
    added_all-content ((key, val) ∷ es) j s (new, h) =
        added_all-content es j (added C P max_alloc key (zipped C val) val s) h
        ∙ rw
            (put_value-content key val j
              (record s { hashed = s.hashed ++ record_bytes C key (zipped C val) }))
            (first_found (same key j) (lookup j es) (content P s.wb j) val
              (λ e. subst (λ k. lookup k es ≡ none) ((same_iff key j).0 e) new))

    pub flush-content :
        (s : Restoring P) (j : Bytes)
        → IsCounted s
        → P.find (flush C P max_alloc s) j ≡ content P s.wb j
    unfolding flush commit overlay
    flush-content s j counted = elim (Bool-cases (ltb 0 s.k)) [
      | inl e ↦ rw (e, flush) (content-commit P lawful reliable s.wb j)
      | inr e ↦
          let empty : s.wb.wb ≡ [] = nil_of_length s.wb.wb (ground arith) in
          rw (e, flush) (sym (ap (λ ops. overlay ops j (P.find s.wb.db j)) empty))
    ]
