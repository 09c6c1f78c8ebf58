-- ===== src/Fsm/Save/Steps.antt =====
-- What one action of saveSnapShot adds to the sink, the hasher and the counters when it returns,
-- and that the sink is cancelled behind its error.
use raft_example.Prelude.{
  ℕ, suc, ◌+◌, ◌≡◌, subst, refl, ◌∙◌, Option, none, some, [], ◌∷◌, ◌++◌, append_assoc, append-nil,
  arith, Bytes, length, length-append, Result, ok, err, ◌⊎◌, Option-cases, inl, inr,
}
use raft_example.Prelude.Map.{Map}
use mathlib.Core.Path.{fun_ext}
use raft_example.Fsm.Endian.{put_le}
use raft_example.Fsm.Platform.{Codec}
use raft_example.Fsm.Stream.{cancelled, write, cancel}
use raft_example.Fsm.Errors.{StoreError, compress_failed}
use raft_example.Fsm.Save.{
  Saving, Save, continue, ◌>>=◌, ◌>>◌, write_or_cancel, write_hashed, cancelled_with, count_record,
  gzip_encode, gzip_or_cancel, save_record, save_records,
}

-- From `s` to `t` the bytes `p` were written and `q` hashed, for `n` records.
pub record Grew (p q : Bytes) (n : ℕ) (s t : Saving) : Type 0 where
  pub written : t.sink.written ≡ s.sink.written ++ p
  pub hashed : t.hashed ≡ s.hashed ++ q
  pub total_size : t.total_size ≡ s.total_size + length p
  pub count : t.count ≡ s.count + n
  pub state : t.sink.state ≡ s.sink.state

-- `m` adds just that when it returns, and has cancelled the sink when it does not.
pub record Adds {A : Type 0} (p q : Bytes) (n : ℕ) (m : Save A) : Type 0 where
  pub returns : (s t : Saving) (a : A) → m s ≡ (ok a, t) → Grew p q n s t
  pub fails : (s t : Saving) (e : StoreError) → m s ≡ (err e, t) → t.sink.state ≡ cancelled

pub >>=-eq-ok :
    {A B : Type 0} (m : Save A) (f : A → Save B) (s u : Saving) (b : B)
    → (m >>= f) s ≡ (ok b, u)
    → (a : A) × (t : Saving) × (m s ≡ (ok a, t)) × (f a t ≡ (ok b, u))
>>=-eq-ok {A} {B} m f s u b h = go (m s).0 (m s).1 refl h
  where
    go :
        (r : Result StoreError A) (t : Saving)
        → m s ≡ (r, t)
        → continue r f t ≡ (ok b, u)
        → (a : A) × (t : Saving) × (m s ≡ (ok a, t)) × (f a t ≡ (ok b, u))
    go (ok a) t e k = (a, t, e, k)
    go (err x) t e k = cc

Grew-trans :
    {p q p' q' : Bytes} {n n' : ℕ} {s t u : Saving}
    → Grew p q n s t
    → Grew p' q' n' t u
    → Grew (p ++ p') (q ++ q') (n + n') s u
Grew-trans {p} {q} {p'} {q'} {s} g k = record {
  written = rw (k.written, g.written) (append_assoc s.sink.written p p');
  hashed = rw (k.hashed, g.hashed) (append_assoc s.hashed q q');
  total_size = omega (arith, g.total_size, k.total_size, length-append p p');
  count = omega (arith, g.count, k.count);
  state = k.state ∙ g.state;
}

-- An error of a chain is one of its first part, or of what follows it.
pub >>=-eq-err :
    {A B : Type 0} (m : Save A) (f : A → Save B) (s u : Saving) (x : StoreError)
    → (m >>= f) s ≡ (err x, u)
    → (m s ≡ (err x, u)) ⊎ ((a : A) × (t : Saving) × (m s ≡ (ok a, t)) × (f a t ≡ (err x, u)))
>>=-eq-err {A} {B} m f s u x h = go (m s).0 (m s).1 refl h
  where
    go :
        (r : Result StoreError A) (t : Saving)
        → m s ≡ (r, t)
        → continue r f t ≡ (err x, u)
        → (m s ≡ (err x, u)) ⊎ ((a : A) × (t : Saving) × (m s ≡ (ok a, t)) × (f a t ≡ (err x, u)))
    go (ok a) t e k = inr (a, t, e, k)
    go (err y) t e k = inl (rw e (ground arith))

pub Adds-bind :
    {A B : Type 0} {p q p' q' : Bytes} {n n' : ℕ} (m : Save A) (f : A → Save B)
    → Adds p q n m
    → ((a : A) → Adds p' q' n' (f a))
    → Adds (p ++ p') (q ++ q') (n + n') (m >>= f)
Adds-bind m f hm hf = record {
  returns = λ s u b h.
      let (a, t, e, k) = >>=-eq-ok m f s u b h in
      Grew-trans (hm.returns s t a e) ((hf a).returns t u b k);
  fails = λ s u x h. elim (>>=-eq-err m f s u x h) [
    | inl e ↦ hm.fails s u x e
    | inr (a, t, e, k) ↦ (hf a).fails t u x k
  ];
}

pub write_or_cancel-Adds : (p : Bytes) → Adds p [] 0 (write_or_cancel p)
unfolding write_or_cancel write cancel
write_or_cancel-Adds p = record {
  returns = λ s t a h. ground (arith, append-nil s.hashed);
  fails = λ s t e h. ground arith;
}

pub write_hashed-Adds : (p : Bytes) → Adds p p 0 (write_hashed p)
unfolding write_hashed write_or_cancel write cancel
write_hashed-Adds p = record { returns = λ s t a h. ground arith; fails = λ s t e h. ground arith }

count_record-Adds : Adds [] [] 1 count_record
unfolding count_record
count_record-Adds = record {
  returns = λ s t a h. ground (arith, append-nil s.hashed, append-nil s.sink.written);
  fails = λ s t e h. cc;
}

pub cancelled_with-Adds :
    {A : Type 0} (e : StoreError) (p q : Bytes) (n : ℕ) → Adds p q n (cancelled_with {A = A} e)
unfolding cancelled_with cancel
cancelled_with-Adds e p q n = record { returns = λ s t a h. cc; fails = λ s t x h. ground arith }

abort-Adds :
    {A B : Type 0} (e : StoreError) (f : A → Save B) (p q : Bytes) (n : ℕ)
    → Adds p q n (cancelled_with e >>= f)
unfolding cancelled_with cancel
abort-Adds e f p q n = record { returns = λ s t a h. cc; fails = λ s t x h. ground arith }

pub done-Adds : {A : Type 0} (f : Saving → A) → Adds [] [] 0 (λ s. (ok (f s), s))
done-Adds f = record {
  returns = λ s t a h. ground (arith, append-nil s.hashed, append-nil s.sink.written);
  fails = λ s t e h. cc;
}

abbrev pub or_empty : Option Bytes → Bytes
or_empty none = []
or_empty (some z) = z

one_more : (n : ℕ) → 1 + n ≡ suc n
one_more n = omega arith

module _ (C : Codec) where
  -- The gzip stream of a value; empty where there is none, and then the save is cancelled.
  abbrev pub zipped : Bytes → Bytes
  zipped v = or_empty (C.compress v)

  -- A record of the snapshot: each part behind its length in eight bytes.
  abbrev pub record_bytes : Bytes → Bytes → Bytes
  record_bytes key z = put_le 8 (length key) ++ (key ++ (put_le 8 (length z) ++ z))

  abbrev pub records_bytes : Map Bytes → Bytes
  records_bytes [] = []
  records_bytes ((key, val) ∷ rest) = record_bytes key (zipped val) ++ records_bytes rest

  gzip_or_cancel-none :
      (val : Bytes) → C.compress val ≡ none → gzip_or_cancel C val ≡ cancelled_with compress_failed
  unfolding gzip_or_cancel gzip_encode
  gzip_or_cancel-none val e = fun_ext λ s. ground arith

  gzip_or_cancel-some :
      (val z : Bytes) → C.compress val ≡ some z → gzip_or_cancel C val ≡ (λ s. (ok z, s))
  unfolding gzip_or_cancel gzip_encode
  gzip_or_cancel-some val z e = fun_ext λ s. ground arith

  abbrev write_value : Bytes → Save Unit
  write_value z = write_hashed (put_le 8 (length z)) >> write_hashed z

  write_value-Adds :
      (z : Bytes) → Adds (put_le 8 (length z) ++ z) (put_le 8 (length z) ++ z) 0 (write_value z)
  write_value-Adds z = Adds-bind _ _ (write_hashed-Adds _) (λ _. write_hashed-Adds z)

  gzip_value-Adds :
      (val : Bytes)
      → Adds
          (put_le 8 (length (zipped val)) ++ zipped val)
          (put_le 8 (length (zipped val)) ++ zipped val)
          0
          (gzip_or_cancel C val >>= write_value)
  gzip_value-Adds val = elim (Option-cases (C.compress val)) [
    | inl e ↦ rw (gzip_or_cancel-none val e, e) (abort-Adds compress_failed write_value _ _ 0)
    | inr (z, e) ↦ rw (gzip_or_cancel-some val z e, e) (write_value-Adds z)
  ]

  save_record-Adds :
      (key val : Bytes)
      → Adds
          (record_bytes key (zipped val))
          (record_bytes key (zipped val))
          1
          (save_record C key val)
  unfolding save_record
  save_record-Adds key val = Adds-bind _ _ count_record-Adds (λ _.
      Adds-bind _ _ (write_hashed-Adds _)
        (λ _. Adds-bind _ _ (write_hashed-Adds key) (λ _. gzip_value-Adds val)))

  pub save_records-Adds :
      (es : Map Bytes) → Adds (records_bytes es) (records_bytes es) (length es) (save_records C es)
  unfolding save_records
  save_records-Adds [] = done-Adds (λ _. tt)
  save_records-Adds ((key, val) ∷ es) =
      subst
        (λ n.
          Adds (records_bytes ((key, val) ∷ es)) (records_bytes ((key, val) ∷ es)) n
            (save_records C ((key, val) ∷ es)))
        (one_more (length es))
        (Adds-bind _ _ (save_record-Adds key val) (λ _. save_records-Adds es))
