-- ===== src/Fsm/Batch.antt =====
-- fsm/wb.go: a write batch beside the database that it is for. A set or a delete is kept in the
-- batch, where it cannot fail; `commit` ignores the error of the database's own Commit.
use raft_example.Prelude.{
  ◌≡◌, List, [], ◌∷◌, ◌++◌, Bytes, Result, ok, err, Option, some, same, if◌then◌else◌,
}
use raft_example.Fsm.Platform.{
  Op, set, delete, overlay, overlay-append, Pebble, PebbleError, PebbleIsLawful, IsReliable,
}

pub record WriteBatch (P : Pebble) : Type 0 where
  pub wb : List Op
  pub db : P.DB

module _ (P : Pebble) where
  unfoldable pub new_write_batch : P.DB → WriteBatch P
  new_write_batch db = record { wb = []; db = db }

  unfoldable pub put : Bytes → Bytes → WriteBatch P → WriteBatch P
  put key val w = record w { wb = w.wb ++ set key val ∷ [] }

  unfoldable pub delete_key : Bytes → WriteBatch P → WriteBatch P
  delete_key key w = record w { wb = w.wb ++ delete key ∷ [] }

  abbrev pub db_after : P.DB → Result PebbleError P.DB → P.DB
  db_after old (ok db) = db
  db_after old (err e) = old

  unfoldable pub commit : WriteBatch P → WriteBatch P
  commit w = record { wb = []; db = db_after w.db (P.commit w.db w.wb) }

  -- What the database will hold under a key once the batch is committed.
  abbrev pub content : WriteBatch P → Bytes → Option Bytes
  content w k = overlay w.wb k (P.find w.db k)

  pub content-put :
      (w : WriteBatch P) (key val k : Bytes)
      → content (put key val w) k ≡ (if same key k then some val else content w k)
  unfolding put overlay
  content-put w key val k = rw overlay-append

  pub content-commit :
      PebbleIsLawful P
      → IsReliable P
      → (w : WriteBatch P) (k : Bytes) → content (commit w) k ≡ content w k
  unfolding commit overlay
  content-commit lawful reliable w k =
      let (db, e) = reliable.commits w.db w.wb in rw e (lawful.find-commit w.db db w.wb k e)
