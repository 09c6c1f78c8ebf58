-- ===== src/Fsm/Platform.antt =====
-- What the package fsm uses and does not implement: the Pebble database, compress/gzip and
-- hash/crc32, as records of operations with the documented behaviour that the proofs rely on.
use raft_example.Prelude.{
  ℕ, ◌^◌, ◌<◌, ◌≡◌, ◌≢◌, refl, Option, none, some, List, [], ◌∷◌, ◌++◌, Bytes, same, if◌then◌else◌,
  Result, ok, err,
}
use raft_example.Prelude.Map.{Map, lookup}

-- An operation of a `pebble.Batch`.
pub data Op : Type 0 where
  set : Bytes → Bytes → Op
  delete : Bytes → Op

-- The value of a key after the operations of a batch, in order, over what it was before.
unfoldable pub overlay : List Op → Bytes → Option Bytes → Option Bytes
overlay [] k old = old
overlay (set j v ∷ ops) k old = overlay ops k (if same j k then some v else old)
overlay (delete j ∷ ops) k old = overlay ops k (if same j k then none else old)

pub overlay-append :
    (a b : List Op) (k : Bytes) (old : Option Bytes)
    → overlay (a ++ b) k old ≡ overlay b k (overlay a k old)
unfolding overlay
overlay-append [] b k old = refl
overlay-append (set j v ∷ a) b k old = overlay-append a b k (if same j k then some v else old)
overlay-append (delete j ∷ a) b k old = overlay-append a b k (if same j k then none else old)

-- `pebble.ErrNotFound`, or any other error of the database.
pub data PebbleError : Type 0 where
  not_found io_failed : PebbleError

-- A key in front has no second entry behind it.
abbrev pub DistinctKeys : Map Bytes → Type 0
DistinctKeys [] = Unit
DistinctKeys ((k, v) ∷ m) = (lookup k m ≡ none) × DistinctKeys m

-- A snapshot of the database is the value `DB` at that time. `iterate` is NewIter's error, or the
-- entries that the iterator passes, in order, with its Error() after the last.
pub record Pebble : Type 1 where
  pub DB : Type 0
  pub open_new : DB
  pub get : DB → Bytes → Result PebbleError Bytes
  pub commit : DB → List Op → Result PebbleError DB
  pub iterate : DB → Result PebbleError (Map Bytes × Option PebbleError)
  -- the pair that a database holds under a key, by which the documentation explains the rest
  pub find : DB → Bytes → Option Bytes

pub record PebbleIsLawful (P : Pebble) : Type 0 where
  pub find-open_new : (k : Bytes) → P.find P.open_new k ≡ none
  pub get_ok : (db : P.DB) (k v : Bytes) → P.get db k ≡ ok v → P.find db k ≡ some v
  pub get_not_found : (db : P.DB) (k : Bytes) → P.get db k ≡ err not_found → P.find db k ≡ none
  pub find-commit :
      (db db' : P.DB) (ops : List Op) (k : Bytes)
      → P.commit db ops ≡ ok db'
      → P.find db' k ≡ overlay ops k (P.find db k)
  pub find-iterate :
      (db : P.DB) (es : Map Bytes) (k : Bytes)
      → P.iterate db ≡ ok (es, none)
      → P.find db k ≡ lookup k es
  pub iterate_distinct :
      (db : P.DB) (es : Map Bytes) → P.iterate db ≡ ok (es, none) → DistinctKeys es

-- The disk under the database does not fail: every commit goes through.
pub record IsReliable (P : Pebble) : Type 0 where
  pub commits : (db : P.DB) (ops : List Op) → (db' : P.DB) × (P.commit db ops ≡ ok db')

-- Nor does it fail a read: a key is found or it is not there.
pub record IsReadable (P : Pebble) : Type 0 where
  pub gets : (db : P.DB) (k : Bytes) → P.get db k ≢ err io_failed

-- compress/gzip and hash/crc32. `compress` is `none` where the writer has an error, `decompress`
-- where the input is no gzip stream; `crc32` is the sum of all that a hasher was given.
pub record Codec : Type 0 where
  pub compress : Bytes → Option Bytes
  pub decompress : Bytes → Option Bytes
  pub crc32 : Bytes → ℕ

pub record CodecIsLawful (C : Codec) : Type 0 where
  -- a gzip.Writer over a bytes.Buffer has no error to return
  pub compresses : (v : Bytes) → (z : Bytes) × (C.compress v ≡ some z)
  pub decompress-compress : (v z : Bytes) → C.compress v ≡ some z → C.decompress z ≡ some v
  pub crc32_bound : (b : Bytes) → C.crc32 b < 2 ^ 32
