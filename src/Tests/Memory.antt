-- ===== src/Tests/Memory.antt =====
-- Concrete components for the parameters of the package fsm: a database that is a list of pairs, a
-- codec that compresses nothing, and an encoding of the two JSON types.
use raft_example.Prelude.{
  ℕ, ◌+◌, ◌%◌, ◌^◌, ◌≡◌, refl, ap, sym, subst, ◌∙◌, Option, none, some, List, [], ◌∷◌, ◌++◌, Bytes,
  arith, length, take, drop, same_refl, ok, err, or_error, ◌≢◌, take-append, drop-append,
}
use raft_example.Prelude.Map
use raft_example.Prelude.Map.{Map, lookup, lookup-insert, lookup-remove}
use raft_example.Fsm.Platform.{
  Op, set, delete, overlay, not_found, io_failed, Pebble, PebbleIsLawful, IsReliable, IsReadable,
  Codec, CodecIsLawful, DistinctKeys,
}
use raft_example.Fsm.Command.{Command, SetPayload, Json, JsonIsLawful}

abbrev run_op : Op → Map Bytes → Map Bytes
run_op (set k v) m = Map.insert k v m
run_op (delete k) m = Map.remove k m

abbrev run_ops : List Op → Map Bytes → Map Bytes
run_ops [] m = m
run_ops (o ∷ ops) m = run_ops ops (run_op o m)

abbrev distinct : Map Bytes → Map Bytes
distinct [] = []
distinct ((k, v) ∷ m) = (k, v) ∷ Map.remove k (distinct m)

abbrev pub memory : Pebble
memory = record {
  DB = Map Bytes;
  open_new = [];
  get = λ db k. or_error not_found (lookup k db);
  commit = λ db ops. ok (run_ops ops db);
  iterate = λ db. ok (distinct db, none);
  find = λ db k. lookup k db;
}

lookup-run_ops :
    (ops : List Op) (db : Map Bytes) (k : Bytes)
    → lookup k (run_ops ops db) ≡ overlay ops k (lookup k db)
unfolding overlay
lookup-run_ops [] db k = refl
lookup-run_ops (set j v ∷ ops) db k =
    lookup-run_ops ops (Map.insert j v db) k ∙ rw lookup-insert refl
lookup-run_ops (delete j ∷ ops) db k =
    lookup-run_ops ops (Map.remove j db) k ∙ rw lookup-remove refl

lookup-distinct : (m : Map Bytes) (k : Bytes) → lookup k m ≡ lookup k (distinct m)
unfolding lookup
lookup-distinct [] k = refl
lookup-distinct ((j, v) ∷ m) k = ground (arith, lookup-distinct m k, lookup-remove j k (distinct m))

DistinctKeys-remove : (k : Bytes) (m : Map Bytes) → DistinctKeys m → DistinctKeys (Map.remove k m)
unfolding Map.remove
DistinctKeys-remove k [] h = h
DistinctKeys-remove k ((j, v) ∷ m) (new, h) =
    ground (arith, DistinctKeys-remove k m h, lookup-remove k j m)

DistinctKeys-distinct : (m : Map Bytes) → DistinctKeys (distinct m)
DistinctKeys-distinct [] = tt
DistinctKeys-distinct ((k, v) ∷ m) =
    (rw (lookup-remove, same_refl k), DistinctKeys-remove k (distinct m) (DistinctKeys-distinct m))

pub memory-PebbleIsLawful : PebbleIsLawful memory
memory-PebbleIsLawful = record {
  find-open_new = λ k. unfold lookup in refl;
  get_ok = λ db k v h. ground arith;
  get_not_found = λ db k h. ground arith;
  find-commit = λ db db' ops k h.
      let e : run_ops ops db ≡ db' = ground arith in
      ap (lookup k) (sym e) ∙ lookup-run_ops ops db k;
  find-iterate = λ db es k h.
      let e : distinct db ≡ es = ground arith in lookup-distinct db k ∙ ap (lookup k) e;
  iterate_distinct = λ db es h.
      let e : distinct db ≡ es = ground arith in subst DistinctKeys e (DistinctKeys-distinct db);
}

pub memory-IsReliable : IsReliable memory
memory-IsReliable = record { commits = λ db ops. (run_ops ops db, refl) }

found_or_missing : (o : Option Bytes) → or_error not_found o ≢ err io_failed
found_or_missing none h = cc
found_or_missing (some v) h = cc

pub memory-IsReadable : IsReadable memory
memory-IsReadable = record { gets = λ db k. found_or_missing (lookup k db) }

abbrev sum_of : Bytes → ℕ
sum_of [] = 0
sum_of (b ∷ bs) = b + sum_of bs

abbrev pub plain : Codec
plain = record { compress = λ v. some v; decompress = λ z. some z; crc32 = λ b. sum_of b % 2 ^ 32 }

pub plain-CodecIsLawful : CodecIsLawful plain
plain-CodecIsLawful = record {
  compresses = λ v. (v, refl);
  decompress-compress = λ v z h. ground arith;
  crc32_bound = λ b. omega arith;
}

abbrev read_command : Bytes → Option Command
read_command [] = none
read_command (k ∷ p) = some (record { kind = k; payload = p })

abbrev read_payload : Bytes → Option SetPayload
read_payload [] = none
read_payload (n ∷ b) = some (record { key = take n b; value = drop n b })

abbrev pub tagged : Json
tagged = record {
  marshal_command = λ c. c.kind ∷ c.payload;
  unmarshal_command = read_command;
  marshal_payload = λ p. length p.key ∷ (p.key ++ p.value);
  unmarshal_payload = read_payload;
}

pub tagged-JsonIsLawful : JsonIsLawful tagged
tagged-JsonIsLawful = record {
  unmarshal-marshal_command = λ c. refl;
  unmarshal-marshal_payload = λ p. rw (take-append, drop-append);
}
