-- ===== src/Client/Demo/Answers.antt =====
-- What runKVDemo of cmd/cmd.go prints.
use raft_example.Prelude.{
  ℕ, zero, suc, ◌+◌, ◌*◌, ◌%◌, ◌≡◌, refl, Bool, true, Option, none, some, List, [], ◌∷◌, Bytes,
  same, if◌then◌else◌, ◌==◌, arith, ap, sym, subst, ◌∙◌, length, All,
}
use raft_example.Gossip.Address.{has}
use raft_example.Client.{id_chars, random_id}
use raft_example.Client.Random.{random_id_lem}
use raft_example.Client.Demo.{
  Cluster, Reading, Demo, go_on, ◌>>=◌, write_keys, read_keys, write_and_read, drawn_id, pair_up,
  put_pair, draw_pairs, on_pairs, run_kv_demo,
}

module _ {S A B : Type 0} where
  -- A chain that goes through has gone through at its first step.
  pub bind_some :
      (m : Demo S A) (f : A → Demo S B) (s s' : S) (b : B)
      → (m >>= f) s ≡ (some b, s')
      → (a : A) × (t : S) × (m s ≡ (some a, t)) × (f a t ≡ (some b, s'))
  bind_some m f s s' b h = by_first (m s) refl h
    where
      by_first :
          (r : Option A × S)
          → m s ≡ r
          → go_on r.0 f r.1 ≡ (some b, s')
          → (a : A) × (t : S) × (m s ≡ (some a, t)) × (f a t ≡ (some b, s'))
      by_first (none, t) e k = absurd cc
      by_first (some a, t) e k = (a, t, e, k)

-- The cluster answers reads by the last write to the key.
pub record IsUpToDate (C : Cluster) : Type 0 where
  pub value_of : C.S → Bytes → Bytes
  pub add_lem :
      (k v : Bytes) (s s' : C.S) (i : ℕ)
      → C.add k v s ≡ (some i, s')
      → (j : Bytes) → value_of s' j ≡ (if same k j then v else value_of s j)
  pub get_lem :
      (k : Bytes) (linearizable : Bool) (s s' : C.S) (v : Bytes) (i : ℕ)
      → C.get k linearizable s ≡ (some (v, i), s')
      → (v ≡ value_of s k) × ((j : Bytes) → value_of s' j ≡ value_of s j)

-- What a key has behind writes to what keys had before.
abbrev pub written : (Bytes → Bytes) → List (Bytes × Bytes) → Bytes → Bytes
written before [] j = before j
written before ((k, v) ∷ pairs) j = written (λ i. if same k i then v else before i) pairs j

abbrev pub keys_of : List (Bytes × Bytes) → List Bytes
keys_of [] = []
keys_of ((k, v) ∷ pairs) = k ∷ keys_of pairs

pub written_same :
    (f g : Bytes → Bytes) (pairs : List (Bytes × Bytes)) (j : Bytes)
    → ((i : Bytes) → f i ≡ g i)
    → written f pairs j ≡ written g pairs j
written_same f g [] j h = h j
written_same f g ((k, v) ∷ pairs) j h =
    written_same (λ i. if same k i then v else f i) (λ i. if same k i then v else g i) pairs j
      (λ i. rw (h i) refl)

-- Readings of the keys in their order, every third of them linearizable, with the values of `f`.
abbrev pub AnswersTo : (Bytes → Bytes) → ℕ → List Bytes → List Reading → Type 0
AnswersTo f i [] [] = Unit
AnswersTo f i [] (r ∷ rs) = ⊥
AnswersTo f i (k ∷ keys) [] = ⊥
AnswersTo f i (k ∷ keys) (r ∷ rs) =
    (r.key ≡ k) × (r.linearizable ≡ (i % 3 == 0)) × (r.value ≡ f k) × AnswersTo f (i + 1) keys rs

module _ (C : Cluster) (up : IsUpToDate C) where
  write_keys_ok :
      (pairs : List (Bytes × Bytes)) (s s' : C.S) (keys : List Bytes)
      → write_keys C pairs s ≡ (some keys, s')
      → (keys ≡ keys_of pairs) × ((j : Bytes) → up.value_of s' j ≡ written (up.value_of s) pairs j)
  unfolding write_keys
  write_keys_ok [] s s' keys h =
      let e : s ≡ s' = ground arith in (ground arith, λ j. ap (λ t. up.value_of t j) (sym e))
  write_keys_ok ((k, v) ∷ pairs) s s' keys h =
      let (i, t, added, rest) = bind_some (C.add k v) _ s s' keys h in
      let (keys', t', wrote, last) = bind_some (write_keys C pairs) _ t s' keys rest in
      let e : t' ≡ s' = ground arith in
      let (same_keys, values) = write_keys_ok pairs t t' keys' wrote in
      (
        let e' : (k ∷ keys') ≡ keys = ground arith in sym e' ∙ ap (λ l. k ∷ l) same_keys,
        λ j.
            ap (λ u. up.value_of u j) (sym e)
            ∙ values j
            ∙ written_same (up.value_of t) (λ i'. if same k i' then v else up.value_of s i') pairs j
                (up.add_lem k v s t i added),
      )

  read_keys_ok :
      (f : Bytes → Bytes) (i : ℕ) (keys : List Bytes) (s s' : C.S) (rs : List Reading)
      → ((j : Bytes) → up.value_of s j ≡ f j)
      → read_keys C i keys s ≡ (some rs, s')
      → AnswersTo f i keys rs
  unfolding read_keys
  read_keys_ok f i [] s s' rs h e =
      let e' : [] ≡ rs = ground arith in subst (AnswersTo f i []) e' tt
  read_keys_ok f i (k ∷ keys) s s' rs h e =
      let ((v, index), t, got, rest) = bind_some (C.get k (i % 3 == 0)) _ s s' rs e in
      let (rs', t', read, last) = bind_some (read_keys C (i + 1) keys) _ t s' rs rest in
      let (value, kept) = up.get_lem k (i % 3 == 0) s t v index got in
      let others = read_keys_ok f (i + 1) keys t t' rs' (λ j. kept j ∙ h j) read in
      let reading : Reading = record {
        linearizable = i % 3 == 0;
        key = k;
        value = v;
        read_at_index = index;
      } in
      let e' : (reading ∷ rs') ≡ rs = ground arith in
      subst (AnswersTo f i (k ∷ keys)) e' (refl, refl, value ∙ h k, others)

  write_and_read_ok :
      (pairs : List (Bytes × Bytes)) (s s' : C.S) (readings : List Reading) (stats : Bytes)
      → write_and_read C pairs s ≡ (some (readings, stats), s')
      → AnswersTo (written (up.value_of s) pairs) 0 (keys_of pairs) readings
  unfolding write_and_read
  write_and_read_ok pairs s s' readings stats h =
      let (keys, t, wrote, rest) = bind_some (write_keys C pairs) _ s s' (readings, stats) h in
      let (rs, t', read, last) = bind_some (read_keys C 0 keys) _ t s' (readings, stats) rest in
      let (st, t'', stated, end) = bind_some C.stat _ t' s' (readings, stats) last in
      let (same_keys, values) = write_keys_ok pairs s t keys wrote in
      let after = written (up.value_of s) pairs in
      let e : rs ≡ readings = ground arith in
      subst (AnswersTo after 0 (keys_of pairs)) e (
        subst (λ ks. AnswersTo after 0 ks rs) same_keys
          (read_keys_ok after 0 keys t t' rs values read))

-- An id of the key's length, of the characters of the table.
abbrev pub IsKey : Bytes → Type 0
IsKey k = (length k ≡ 10) × All (λ c. has c id_chars ≡ true) k

drawn_id-IsKey :
    (random : ℕ → ℕ → Bytes) (fuel : ℕ) (k : Bytes)
    → drawn_id (random_id random fuel 10) ≡ some k
    → IsKey k
unfolding drawn_id
drawn_id-IsKey random fuel k h = by_id (random_id random fuel 10) refl h
  where
    by_id :
        (o : Option (Option Bytes)) → random_id random fuel 10 ≡ o → drawn_id o ≡ some k → IsKey k
    by_id none e h' = absurd cc
    by_id (some r) e h' =
        let (s, same_id, sized, chars) = random_id_lem random fuel 10 r e in
        let e' : s ≡ k = ground arith in subst IsKey e' (sized, chars)

put_pair-some :
    (k v : Option Bytes) (o : Option (List (Bytes × Bytes))) (pairs : List (Bytes × Bytes))
    → put_pair (pair_up k v) o ≡ some pairs
    → (key : Bytes) × (val : Bytes) × (rest : List (Bytes × Bytes)) × (k ≡ some key)
      × (o ≡ some rest)
      × ((key, val) ∷ rest ≡ pairs)
unfolding put_pair pair_up
put_pair-some none v o pairs h = absurd cc
put_pair-some (some k) none o pairs h = absurd cc
put_pair-some (some k) (some v) none pairs h = absurd cc
put_pair-some (some k) (some v) (some rest) pairs h = (k, v, rest, refl, refl, ground arith)

draw_pairs_lem :
    (random : ℕ → ℕ → ℕ → Bytes) (fuel n i : ℕ) (pairs : List (Bytes × Bytes))
    → draw_pairs random fuel n i ≡ some pairs
    → (length pairs ≡ n) × All IsKey (keys_of pairs)
unfolding draw_pairs
draw_pairs_lem random fuel zero i pairs h =
    let e : [] ≡ pairs = ground arith in
    subst (λ ps. (length ps ≡ 0) × All IsKey (keys_of ps)) e (refl, tt)
draw_pairs_lem random fuel (suc n) i pairs h =
    let (k, v, rest, key, others, e) =
      put_pair-some (drawn_id (random_id (random (2 * i)) fuel 10))
        (drawn_id (random_id (random (2 * i + 1)) fuel 32)) (draw_pairs random fuel n (i + 1)) pairs
        h in
    let (sized, keys) = draw_pairs_lem random fuel n (i + 1) rest others in
    subst (λ ps. (length ps ≡ suc n) × All IsKey (keys_of ps)) e
      (ap suc sized, (drawn_id-IsKey (random (2 * i)) fuel k key, keys))

-- Let a cluster answer every read by the last write to the key. When runKVDemo comes to its end, it
-- has drawn five pairs whose keys are ids of ten characters of the table, and has read the five keys
-- in the order in which they were written, the first and the fourth linearizably, and each with the
-- value that was last written under it.
pub run_kv_demo-AnswersTo :
    (random : ℕ → ℕ → ℕ → Bytes) (fuel : ℕ) (C : Cluster) (up : IsUpToDate C) (s s' : C.S)
    (readings : List Reading) (stats : Bytes)
    → run_kv_demo random fuel C s ≡ some (some (readings, stats), s')
    → (pairs : List (Bytes × Bytes)) × (draw_pairs random fuel 5 0 ≡ some pairs)
      × (length pairs ≡ 5)
      × All IsKey (keys_of pairs)
      × AnswersTo (written (up.value_of s) pairs) 0 (keys_of pairs) readings
unfolding run_kv_demo on_pairs
run_kv_demo-AnswersTo random fuel C up s s' readings stats h =
    by_pairs (draw_pairs random fuel 5 0) refl h
  where
    by_pairs :
        (o : Option (List (Bytes × Bytes)))
        → draw_pairs random fuel 5 0 ≡ o
        → on_pairs C s o ≡ some (some (readings, stats), s')
        → (pairs : List (Bytes × Bytes)) × (draw_pairs random fuel 5 0 ≡ some pairs)
          × (length pairs ≡ 5)
          × All IsKey (keys_of pairs)
          × AnswersTo (written (up.value_of s) pairs) 0 (keys_of pairs) readings
    by_pairs none e k = absurd cc
    by_pairs (some pairs) e k =
        let (five, keys) = draw_pairs_lem random fuel 5 0 pairs e in
        let went : write_and_read C pairs s ≡ (some (readings, stats), s') = ground arith in
        (pairs, e, five, keys, write_and_read_ok C up pairs s s' readings stats went)
