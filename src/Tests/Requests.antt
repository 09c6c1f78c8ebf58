-- ===== src/Tests/Requests.antt =====
-- Requests of service/service.go at concrete inputs: forwarded messages, a blocking watch, statistics.
use raft_example.Prelude.{◌≡◌, refl, true, false, none, some, [], ◌∷◌, List, Bytes, bytes_of, ok}
use raft_example.Fsm.Errors.{not_exist}
use raft_example.Fsm.Disk.{file, folder}
use raft_example.Fsm.Sizes.{Visit, walked, failed, dir_size}
use raft_example.Fsm.Sizes
use raft_example.Fsm.Command.{CommandResponse}
use raft_example.Engine.{RaftServer, Server, query, local_read, read_result, is_voter}
use raft_example.Engine.Nodes.{nodes}
use raft_example.Engine.Stats.{Answers, Stats, Reports, log_size}
use raft_example.Service.Messages.{
  Message, add_response_of, descriptor, add, add_response, forwarded, forwarded-IsTyped, IsTyped,
}
use raft_example.Service.Blocking.{
  Occurrence, read, tick, restore, watch_key_blocking, watch_key_blocking-Answers, WasRead,
  TimedOut, query_fn, all_seen, seen,
}
use raft_example.Service.Stats.{stat, stat-Reports}
use raft_example.Watch.{BlockingQueryResult, blocking_query, run, step, on_first_reply, on_reply}
use raft_example.Watch.Answers
use raft_example.Tests.Memory.{memory}
use raft_example.Tests.Store.{machine}

-- The first byte of an AddResponse is its index, and the others are empty.
abbrev unmarshal : Bytes → Message → Message
unmarshal (b ∷ bs) (add_response_of i) = add_response_of b
unmarshal bs m = m

unmarshal_same : (b : Bytes) (m : Message) → descriptor (unmarshal b m) ≡ descriptor m
unmarshal_same [] m = refl
unmarshal_same (b ∷ bs) (add_response_of i) = refl
unmarshal_same (b ∷ bs) m = refl

forwarded-IsTyped_example : IsTyped add_response (forwarded unmarshal (some (5 ∷ [])) add)
forwarded-IsTyped_example =
    forwarded-IsTyped unmarshal unmarshal_same (some (5 ∷ [])) add add_response refl

abbrev server : RaftServer
server = record {
  raft_id = bytes_of "A";
  raft_addr = bytes_of "r";
  db_applied_index = 7;
  ready_for_consistent_reads = 0;
}

abbrev found : Bytes → CommandResponse
found v = record { val = v; error = none }

abbrev beside : List Occurrence
beside = read 7 (found (bytes_of "v")) ∷ tick ∷ read 8 (found (bytes_of "w")) ∷ restore ∷ []

abbrev seen_w : BlockingQueryResult
seen_w = record { value = bytes_of "w"; current_index = 8; abandoned = false }

watch_key_blocking-Answers_example : Answers.Answers (WasRead beside) (TimedOut beside) 8 seen_w
unfolding watch_key_blocking all_seen seen query_fn query local_read read_result blocking_query run
    step on_first_reply on_reply
watch_key_blocking-Answers_example = watch_key_blocking-Answers 8 server beside seen_w refl

abbrev servers : List Server
servers =
    record { id = bytes_of "B"; address = bytes_of "q"; voter = false }
    ∷ record { id = bytes_of "A"; address = bytes_of "r"; voter = true }
    ∷ []

-- A file of the log is gone when the walk comes to it.
abbrev log_walk : List Visit
log_walk = walked folder ∷ walked (file (bytes_of "entry")) ∷ failed not_exist ∷ []

abbrev pub answered : Answers
answered = record {
  configuration = ok servers;
  leader_addr = bytes_of "r";
  leader_id = bytes_of "A";
  raft_stats = (bytes_of "term", bytes_of "3") ∷ (bytes_of "state", bytes_of "Leader") ∷ [];
  log_walk = log_walk;
  voters = ok servers;
  dir_walk = walked (file (bytes_of "x")) ∷ log_walk;
  fsm_walk = walked folder ∷ [];
  applied_index = 9;
  num_observed = 1;
  num_dropped = 0;
}

abbrev pub show : Stats → Bytes
show st = st.node_id

stat-Reports_example :
    (st : Stats) × (bytes_of "A" ≡ show st)
    × Reports memory (bytes_of "d") answered server (machine 7 []) st
unfolding stat log_size nodes is_voter dir_size Sizes.stats
stat-Reports_example =
    stat-Reports memory show (bytes_of "d") answered server (machine 7 []) (bytes_of "A") refl
