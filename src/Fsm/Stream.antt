-- ===== src/Fsm/Stream.antt =====
-- The streams of a snapshot: an `io.Reader` under `io.ReadFull`, and the `raft.SnapshotSink`.
use raft_example.Prelude.{
  ℕ, ◌+◌, ◌≡◌, Bool, true, false, Option, none, some, List, [], ◌∷◌, ◌++◌, arith, Bytes, leb,
  le→leb, if◌then◌else◌, length, take, drop, length-append, take-append, drop-append, length-drop,
  Result, ok, err,
}

-- What is still to come, and whether the stream then ends in an error other than `io.EOF`.
pub record Reader : Type 0 where
  pub bytes : Bytes
  pub broken : Bool

-- The errors of `io.ReadFull`: `io.EOF` with nothing read, `io.ErrUnexpectedEOF` with the bytes that
-- were read before the end, or the stream's own error.
pub data ReadError : Type 0 where
  eof : ReadError
  unexpected_eof : Bytes → ReadError
  read_failed : ReadError

short_read : Bytes → ReadError
short_read [] = eof
short_read (b ∷ bs) = unexpected_eof (b ∷ bs)

-- `io.ReadFull` into a buffer of `n` bytes. It reads nothing, and has no error, at `n = 0`.
unfoldable pub read_full : ℕ → Reader → Result ReadError (Bytes × Reader)
unfolding short_read
read_full n r =
    if leb n (length r.bytes)
    then ok (take n r.bytes, record r { bytes = drop n r.bytes })
    else if r.broken
    then err read_failed
    else err (short_read r.bytes)

-- What follows a read: the handling of its error, or the code behind it.
abbrev pub on_read {ℓ} :
    {A : Type ℓ} → (ReadError → A) → (Bytes → Reader → A) → Result ReadError (Bytes × Reader) → A
on_read f g (err e) = f e
on_read f g (ok (b, r)) = g b r

-- A buffer as long as what stands in front reads just that.
pub read_full-append :
    (n : ℕ) (xs ys : Bytes) (broken : Bool)
    → n ≡ length xs
    → read_full n (record { bytes = xs ++ ys; broken = broken })
      ≡ ok (xs, record { bytes = ys; broken = broken })
unfolding read_full
read_full-append n xs ys broken e = rw (
  e,
  le→leb (length xs) (length (xs ++ ys)) (omega (arith, length-append xs ys)),
  take-append xs ys,
  drop-append xs ys,
)

-- A successful read takes `n` bytes from what is left.
pub read_full_takes :
    (n : ℕ) (r r' : Reader) (b : Bytes)
    → read_full n r ≡ ok (b, r')
    → length r'.bytes + n ≡ length r.bytes
unfolding read_full
read_full_takes n r r' b h = ground (arith, length-drop n r.bytes)

pub data SinkState : Type 0 where
  writing closed cancelled : SinkState

-- `plan` says of each call to come whether it goes through, `none`, or fails after that many bytes;
-- behind its end all calls go through.
pub record Sink : Type 0 where
  pub written : Bytes
  pub state : SinkState
  pub plan : List (Option ℕ)

next_call : List (Option ℕ) → Option ℕ × List (Option ℕ)
next_call [] = (none, [])
next_call (c ∷ cs) = (c, cs)

-- `sink.Write`, true if it went through.
unfoldable pub write : Bytes → Sink → Bool × Sink
unfolding next_call
write p s =
    let (c, rest) = next_call s.plan in
    elim c [
      | none ↦ (true, record s { written = s.written ++ p; plan = rest })
      | some n ↦ (false, record s { written = s.written ++ take n p; plan = rest })
    ]

unfoldable pub cancel : Sink → Sink
cancel s = record s { state = cancelled }

-- `sink.Close`, true if it went through.
unfoldable pub close : Sink → Bool × Sink
unfolding next_call
close s =
    let (c, rest) = next_call s.plan in
    elim c [
      | none ↦ (true, record s { state = closed; plan = rest })
      | some n ↦ (false, record s { plan = rest })
    ]
