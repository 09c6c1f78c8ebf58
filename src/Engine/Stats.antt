-- ===== src/Engine/Stats.antt =====
-- Stats of engine/kv.go with logSize of engine/raft.go, and Stat of service/service.go, which reports
-- them.
use raft_example.Prelude.{
  ℕ, ◌%◌, ◌^◌, ◌≡◌, refl, Bool, Option, some, List, [], ◌∷◌, Bytes, bytes_of, Result, ok, err,
  ◌>>=◌, wrap_error, wrap_error_ok, ap, ◌∙◌, same, if◌then◌else◌, arith, subst,
}
use raft_example.Prelude.Map.{Map, lookup, insert, lookup-insert}
use mathlib.Core.Option
use mathlib.Core.List.{Perm}
use raft_example.Fsm.Platform.{Pebble}
use raft_example.Fsm.Errors.{StoreError}
use raft_example.Fsm.Machine.{StateMachine}
use raft_example.Fsm.Sizes
use raft_example.Fsm.Sizes.{Visit, dir_size, dir_size_ok, total_size, FsmStats, stats-Reports}
use raft_example.Gossip.Address.{AddressError, ℤ, atoi}
use raft_example.Engine.{RaftServer, Server, find_voter, is_voter}
use raft_example.Engine.Nodes.{nodes, IsSorted, nodes-IsSorted}

-- A number, a text, a flag, or the bits of an int64.
pub data StatValue : Type 0 where
  number : ℤ → StatValue
  text : Bytes → StatValue
  flag : Bool → StatValue
  bits : ℕ → StatValue

pub data StatsError : Type 0 where
  configuration_failed : Bytes → StatsError
  size_failed : StoreError → StatsError

-- What raft and the file system answer in the course of a call: the configuration to Nodes and to
-- IsVoter, and the walks of the log, of the data directory and of the store's.
pub record Answers : Type 0 where
  pub configuration : Result Bytes (List Server)
  pub leader_addr : Bytes
  pub leader_id : Bytes
  pub raft_stats : Map Bytes
  pub log_walk : List Visit
  pub voters : Result Bytes (List Server)
  pub dir_walk : List Visit
  pub fsm_walk : List Visit
  pub applied_index : ℕ
  pub num_observed : ℕ
  pub num_dropped : ℕ

pub record Stats : Type 0 where
  pub node_id : Bytes
  pub raft : Map StatValue
  pub db_applied_index : ℕ
  pub last_applied_index : ℕ
  pub addr : Bytes
  pub leader_id : Bytes
  pub leader_addr : Bytes
  pub observed : ℕ
  pub dropped : ℕ
  pub nodes : List Server
  pub raft_dir : Bytes
  pub raft_dir_size : ℕ
  pub fsm : FsmStats

parsed : Bytes → Result AddressError ℤ → StatValue
parsed v (ok n) = number n
parsed v (err e) = text v

-- `strconv.ParseInt` in base 10 and 64 bits, where it goes through.
unfoldable pub stat_value : Bytes → StatValue
unfolding parsed
stat_value v = parsed v (atoi v)

-- The loop over raft's own map.
unfoldable pub convert : Map Bytes → Map StatValue
convert [] = []
convert ((k, v) ∷ m) = insert k (stat_value v) (convert m)

unfoldable pub log_size : List Visit → Result StoreError ℕ
log_size log_walk = dir_size log_walk

abbrev voter_key : Bytes
voter_key = bytes_of "voter"

abbrev log_size_key : Bytes
log_size_key = bytes_of "log_size"

raft_map : Map Bytes → ℕ → Bool → Map StatValue
raft_map m size voter = insert voter_key (flag voter) (insert log_size_key (bits size) (convert m))

gathered : Bytes → Answers → RaftServer → List Server → ℕ → Bool → ℕ → FsmStats → Stats
unfolding raft_map
gathered raft_dir a s servers logged voter size fsm_stats = record {
  node_id = s.raft_id;
  raft = raft_map a.raft_stats logged voter;
  db_applied_index = s.db_applied_index;
  last_applied_index = a.applied_index;
  addr = s.raft_addr;
  leader_id = a.leader_id;
  leader_addr = a.leader_addr;
  observed = a.num_observed;
  dropped = a.num_dropped;
  nodes = servers;
  raft_dir = raft_dir;
  raft_dir_size = size;
  fsm = fsm_stats;
}

module _ (P : Pebble) where
  unfoldable pub stats : Bytes → Answers → RaftServer → StateMachine P → Result StatsError Stats
  unfolding gathered
  stats raft_dir a s m = do
    servers ← wrap_error configuration_failed (nodes a.configuration)
    logged ← wrap_error size_failed (log_size a.log_walk)
    voter ← wrap_error configuration_failed (is_voter a.voters s)
    size ← wrap_error size_failed (dir_size a.dir_walk)
    fsm_stats ← wrap_error size_failed (Sizes.stats P a.fsm_walk m)
    ok (gathered raft_dir a s servers logged voter size fsm_stats)

-- What Stats finds under a key of raft's map.
abbrev pub stat_at : Map Bytes → ℕ → Bool → Bytes → Option StatValue
stat_at m size voter k =
    if same voter_key k
    then some (flag voter)
    else if same log_size_key k
    then some (bits size)
    else Option.map stat_value (lookup k m)

lookup-convert :
    (m : Map Bytes) (k : Bytes) → lookup k (convert m) ≡ Option.map stat_value (lookup k m)
unfolding convert lookup
lookup-convert [] k = refl
lookup-convert ((j, v) ∷ m) k =
    rw (lookup-insert j k (stat_value v) (convert m), lookup-convert m k) (ground arith)

lookup-raft_map :
    (m : Map Bytes) (size : ℕ) (voter : Bool) (k : Bytes)
    → lookup k (raft_map m size voter) ≡ stat_at m size voter k
unfolding raft_map
lookup-raft_map m size voter k =
    lookup-insert voter_key k (flag voter) (insert log_size_key (bits size) (convert m))
    ∙ ap (λ o. if same voter_key k then some (flag voter) else o)
        (lookup-insert log_size_key k (bits size) (convert m)
          ∙ ap (λ o. if same log_size_key k then some (bits size) else o) (lookup-convert m k))

-- The voter that raft's configuration has under the node's id.
is_voter_ok :
    (r : Result Bytes (List Server)) (s : RaftServer) (b : Bool)
    → is_voter r s ≡ ok b
    → (servers : List Server) × (r ≡ ok servers) × (b ≡ find_voter s.raft_id servers)
unfolding is_voter
is_voter_ok (err e) s b h = absurd cc
is_voter_ok (ok servers) s b h = (servers, refl, ground arith)

module _ (P : Pebble) where
  abbrev pub Reports : Bytes → Answers → RaftServer → StateMachine P → Stats → Type 0
  Reports raft_dir a s m st =
      ((servers : List Server) × (a.configuration ≡ ok servers)
        × Perm st.nodes servers
        × IsSorted st.nodes)
      × ((servers : List Server) × (a.voters ≡ ok servers)
          × ((k : Bytes)
              → lookup k st.raft
                ≡ stat_at a.raft_stats (total_size a.log_walk % 2 ^ 64)
                    (find_voter s.raft_id servers) k))
      × (st.raft_dir_size ≡ total_size a.dir_walk % 2 ^ 64)
      × (st.db_applied_index ≡ s.db_applied_index)
      × Sizes.Reports P a.fsm_walk m st.fsm

  -- The five calls have gone through, and what they have answered makes up the result.
  stats_parts :
      (raft_dir : Bytes) (a : Answers) (s : RaftServer) (st : Stats)
      (nodes' : Result StatsError (List Server)) (log' : Result StatsError ℕ)
      (voter' : Result StatsError Bool) (size' : Result StatsError ℕ)
      (fsm' : Result StatsError FsmStats)
      → (do
        servers ← nodes'
        logged ← log'
        voter ← voter'
        size ← size'
        fsm_stats ← fsm'
        ok (gathered raft_dir a s servers logged voter size fsm_stats))
        ≡ ok st
      → (servers : List Server) × (logged : ℕ) × (voter : Bool) × (size : ℕ)
        × (fsm_stats : FsmStats) × (nodes' ≡ ok servers)
        × (log' ≡ ok logged)
        × (voter' ≡ ok voter)
        × (size' ≡ ok size)
        × (fsm' ≡ ok fsm_stats)
        × (gathered raft_dir a s servers logged voter size fsm_stats ≡ st)
  stats_parts raft_dir a s st (err e) log' voter' size' fsm' h = absurd cc
  stats_parts raft_dir a s st (ok servers) (err e) voter' size' fsm' h = absurd cc
  stats_parts raft_dir a s st (ok servers) (ok logged) (err e) size' fsm' h = absurd cc
  stats_parts raft_dir a s st (ok servers) (ok logged) (ok voter) (err e) fsm' h = absurd cc
  stats_parts raft_dir a s st (ok servers) (ok logged) (ok voter) (ok size) (err e) h = absurd cc
  stats_parts raft_dir a s st (ok servers) (ok logged) (ok voter) (ok size) (ok fsm_stats) h =
      (servers, logged, voter, size, fsm_stats, refl, refl, refl, refl, refl, ground arith)

  pub stats-Reports_all :
      (raft_dir : Bytes) (a : Answers) (s : RaftServer) (m : StateMachine P) (st : Stats)
      → stats P raft_dir a s m ≡ ok st
      → Reports raft_dir a s m st
  unfolding stats log_size gathered
  stats-Reports_all raft_dir a s m st h =
      let (servers, logged, voter, size, fsm_stats, e1, e2, e3, e4, e5, all) =
        stats_parts raft_dir a s st (wrap_error configuration_failed (nodes a.configuration))
          (wrap_error size_failed (log_size a.log_walk))
          (wrap_error configuration_failed (is_voter a.voters s))
          (wrap_error size_failed (dir_size a.dir_walk))
          (wrap_error size_failed (Sizes.stats P a.fsm_walk m)) h in
      let conf =
        nodes-IsSorted a.configuration servers
          (wrap_error_ok configuration_failed (nodes a.configuration) servers e1) in
      let (logged_total, gone) =
        dir_size_ok a.log_walk logged (wrap_error_ok size_failed (dir_size a.log_walk) logged e2) in
      let (voters, same_voters, found) =
        is_voter_ok a.voters s voter
          (wrap_error_ok configuration_failed (is_voter a.voters s) voter e3) in
      let (size_total, gone') =
        dir_size_ok a.dir_walk size (wrap_error_ok size_failed (dir_size a.dir_walk) size e4) in
      let fsm_reports =
        stats-Reports P a.fsm_walk m fsm_stats
          (wrap_error_ok size_failed (Sizes.stats P a.fsm_walk m) fsm_stats e5) in
      subst (Reports raft_dir a s m) all (
        conf,
        (
          voters,
          same_voters,
          λ k.
              lookup-raft_map a.raft_stats logged voter k
              ∙ ap (λ x. stat_at a.raft_stats x voter k) logged_total
              ∙ ap (λ x. stat_at a.raft_stats (total_size a.log_walk % 2 ^ 64) x k) found,
        ),
        size_total,
        refl,
        fsm_reports,
      )
