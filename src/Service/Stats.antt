-- ===== src/Service/Stats.antt =====
-- Stat of service/service.go.
use raft_example.Prelude.{◌≡◌, refl, Bytes, Result, ok, err, arith}
use raft_example.Fsm.Platform.{Pebble}
use raft_example.Fsm.Machine.{StateMachine}
use raft_example.Engine.{RaftServer}
use raft_example.Engine.Stats.{Stats, StatsError, Answers, stats, Reports, stats-Reports_all}

-- `marshal` is `json.MarshalIndent`, whose error is not looked at.
stat_reply : (Stats → Bytes) → Result StatsError Stats → Result StatsError Bytes
stat_reply marshal (err e) = err e
stat_reply marshal (ok st) = ok (marshal st)

module _ (P : Pebble) (marshal : Stats → Bytes) where
  unfoldable pub stat : Bytes → Answers → RaftServer → StateMachine P → Result StatsError Bytes
  unfolding stat_reply stats
  stat raft_dir a s m = stat_reply marshal (stats P raft_dir a s m)

  -- A Stat that returns without an error returns the encoding of statistics in which: the nodes are
  -- those of raft's configuration, in the order of their ids; raft's own map holds whether the node
  -- is a voter of the configuration, the size of the log and, under every other key, what raft
  -- reported, as a number where it reads as one; the sizes of the log, of the data directory and of
  -- the store's are the sums of the sizes of the files walked, in 64 bits; and the rest of the
  -- store's part and the applied index are those of the state machine and of the server.
  pub stat-Reports :
      (raft_dir : Bytes) (a : Answers) (s : RaftServer) (m : StateMachine P) (b : Bytes)
      → stat raft_dir a s m ≡ ok b
      → (st : Stats) × (b ≡ marshal st) × Reports P raft_dir a s m st
  unfolding stat
  stat-Reports raft_dir a s m b h = by_stats (stats P raft_dir a s m) refl h
    where
      by_stats :
          (r : Result StatsError Stats)
          → stats P raft_dir a s m ≡ r
          → stat_reply marshal r ≡ ok b
          → (st : Stats) × (b ≡ marshal st) × Reports P raft_dir a s m st
      by_stats (err e) e' k = absurd cc
      by_stats (ok st) e' k = (st, ground arith, stats-Reports_all P raft_dir a s m st e')
