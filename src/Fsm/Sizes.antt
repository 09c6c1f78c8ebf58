-- ===== src/Fsm/Sizes.antt =====
-- DirSize of fsm/utils.go, and Stats of fsm/fsm.go.
pub mod Names
pub mod Children
pub mod Sums
pub mod Tree
pub mod Walk
use raft_example.Prelude.{
  ℕ, ◌+◌, ◌%◌, ◌^◌, ◌≡◌, refl, ◌⊎◌, inl, inr, List, [], ◌∷◌, Bytes, Result, ok, err, All, arith,
  length, subst,
}
use raft_example.Fsm.Platform.{Pebble}
use raft_example.Fsm.Errors.{StoreError, not_exist}
use raft_example.Fsm.Disk.{Node, folder, file}
use raft_example.Fsm.Machine.{SnapshotMetrics, StateMachine, get_fsm_index}

-- A call that `filepath.Walk` makes for a path: what stands there, or an error. The tree may change
-- while it is walked.
pub data Visit : Type 0 where
  walked : Node → Visit
  failed : StoreError → Visit

-- `info.Size()` where `info.IsDir()` is false.
abbrev pub size_of : Node → ℕ
size_of folder = 0
size_of (file b) = length b

-- An error that `os.IsNotExist` knows is passed over; any other ends the walk.
passed_over : StoreError → Result StoreError ℕ → Result StoreError ℕ
passed_over not_exist rest = rest
passed_over e rest = err e

-- The sum has 64 bits.
unfoldable pub dir_size_from : ℕ → List Visit → Result StoreError ℕ
unfolding passed_over
dir_size_from size [] = ok size
dir_size_from size (failed e ∷ vs) = let rest = dir_size_from size vs in passed_over e rest
dir_size_from size (walked folder ∷ vs) = dir_size_from size vs
dir_size_from size (walked (file b) ∷ vs) = dir_size_from ((size + length b) % 2 ^ 64) vs

unfoldable pub dir_size : List Visit → Result StoreError ℕ
unfolding dir_size_from
dir_size vs = dir_size_from 0 vs

abbrev pub total_size : List Visit → ℕ
total_size [] = 0
total_size (failed e ∷ vs) = total_size vs
total_size (walked n ∷ vs) = size_of n + total_size vs

abbrev pub IsHarmless : Visit → Type 0
IsHarmless (walked n) = Unit
IsHarmless (failed e) = e ≡ not_exist

passed_over_ok :
    (e : StoreError) (r : Result StoreError ℕ) (n : ℕ)
    → passed_over e r ≡ ok n
    → (e ≡ not_exist) × (r ≡ ok n)
unfolding passed_over
passed_over_ok not_exist r n h = (refl, h)
passed_over_ok e r n h = absurd cc

dir_size_from_lem :
    (vs : List Visit) (acc size n : ℕ)
    → size ≡ acc % 2 ^ 64
    → dir_size_from size vs ≡ ok n
    → (n ≡ (acc + total_size vs) % 2 ^ 64) × All IsHarmless vs
unfolding dir_size_from
dir_size_from_lem [] acc size n e h = (let e' : size ≡ n = ground arith in omega arith, tt)
dir_size_from_lem (walked folder ∷ vs) acc size n e h =
    let (k, hs) = dir_size_from_lem vs acc size n e h in (omega arith, (tt, hs))
dir_size_from_lem (walked (file b) ∷ vs) acc size n e h =
    let (k, hs) =
      dir_size_from_lem vs (acc + length b) ((size + length b) % 2 ^ 64) n (omega arith) h in
    (omega arith, (tt, hs))
dir_size_from_lem (failed e ∷ vs) acc size n f h =
    let (missing, r) = passed_over_ok e (dir_size_from size vs) n h in
    let (k, hs) = dir_size_from_lem vs acc size n f r in (k, (missing, hs))

-- A size that DirSize returns without an error is the sum of the sizes of the files that the walk has
-- seen, in 64 bits, and every error of the walk was of a path that was gone.
pub dir_size_ok :
    (vs : List Visit) (n : ℕ)
    → dir_size vs ≡ ok n
    → (n ≡ total_size vs % 2 ^ 64) × All IsHarmless vs
unfolding dir_size
dir_size_ok vs n h = let (k, hs) = dir_size_from_lem vs 0 0 n refl h in (omega arith, hs)

-- What Stats reports, without the durations and times of the last snapshot and restore.
pub record FsmStats : Type 0 where
  pub fsm_index : ℕ
  pub fsm_dir : Bytes
  pub fsm_dir_size : ℕ
  pub metrics : SnapshotMetrics

module _ (P : Pebble) where
  filled : StateMachine P → ℕ → FsmStats
  unfolding get_fsm_index
  filled m size = record {
    fsm_index = get_fsm_index P m;
    fsm_dir = m.store.base_dir;
    fsm_dir_size = size;
    metrics = m.metrics;
  }

  report : StateMachine P → Result StoreError ℕ → Result StoreError FsmStats
  unfolding filled
  report m (err e) = err e
  report m (ok size) = ok (filled m size)

  -- Stats, by the walk of the data directory.
  unfoldable pub stats : List Visit → StateMachine P → Result StoreError FsmStats
  unfolding report dir_size
  stats vs m = report m (dir_size vs)

  abbrev pub Reports : List Visit → StateMachine P → FsmStats → Type 0
  Reports vs m st =
      (st.fsm_index ≡ m.fsm_index)
      × (st.fsm_dir ≡ m.store.base_dir)
      × (st.fsm_dir_size ≡ total_size vs % 2 ^ 64)
      × (st.metrics ≡ m.metrics)

  pub stats-Reports :
      (vs : List Visit) (m : StateMachine P) (st : FsmStats) → stats vs m ≡ ok st → Reports vs m st
  unfolding stats report filled get_fsm_index
  stats-Reports vs m st h = by_size (dir_size vs) refl h
    where
      by_size : (r : Result StoreError ℕ) → dir_size vs ≡ r → report m r ≡ ok st → Reports vs m st
      by_size (err e) e' k = absurd cc
      by_size (ok size) e' k =
          let same_stats : filled m size ≡ st = ground arith in
          subst (Reports vs m) same_stats (refl, refl, (dir_size_ok vs size e').0, refl)
