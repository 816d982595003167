-- ===== src/Server/Tests/Network.antt =====
-- The receive loop, the heartbeat and the election at concrete servers.
use inf01151_trabalho.Common.{
  ℕ, ◌≡◌, refl, ℤ, pos, true, none, some, List, [], ◌∷◌, ◌++◌, All, arith, int_eq, Option, Outcome,
  fault, done, replicate,
}
use inf01151_trabalho.Server.Types.{
  LeaderInfo, SockAddr, replica_secundario, Packet, find_leader, coordinator, Ledger, Server, Sent,
  zero_packet,
}
use inf01151_trabalho.Server.Ledger.{bank_of, empty_ledger-IsValid}
use inf01151_trabalho.Server.Bank.{request}
use inf01151_trabalho.Server.Clients.Find.{find}
use inf01151_trabalho.Server.Clients.Register.{Registered, find_or_add_client_refines}
use inf01151_trabalho.Server.Peers.Known.{Added, add_peer_refines}
use inf01151_trabalho.Server.Replication.Sends.{peers}
use inf01151_trabalho.Server.Processing.{handle_request}
use inf01151_trabalho.Server.Processing.Handle.{bank_answer, reply}
use inf01151_trabalho.Server.Backups.{others, recipients, TakesOver, request_replicated}
use inf01151_trabalho.Server.Startup.{initial, startup}
use inf01151_trabalho.Server.Safety.Starts.{startup-Runs}
use inf01151_trabalho.Server.Ping.{monitor_round}
use inf01151_trabalho.Server.Ping.Scans.{silent, remaining}
use inf01151_trabalho.Server.Ping.Removal.{healths, Monitored, monitor_round_refines}
use inf01151_trabalho.Server.Discovery.{would_block}
use inf01151_trabalho.Server.Dispatch.{World, dispatch}
use inf01151_trabalho.Server.Safety.{IsSafe, IsGood, SafeOut, Runs, leader_id_good}
use inf01151_trabalho.Server.Safety.Heartbeat.{monitor_round-Runs}
use inf01151_trabalho.Server.Safety.Rounds.{SafeRound, dispatch-Runs}
use inf01151_trabalho.Server.Tests.{
  backup_two, client_a, two_clients, two_clients-IsValid, primary, primary-HasPeers,
  transfer_packet,
}

-- Every `sendto` succeeds, the other threads change nothing, and it is second 100.
abbrev pub calm : World
calm = record {
  reaches = λ i. true;
  sleep = λ k s. s;
  now = 100;
  server_ip = some (49 ∷ []);
  discovery_send = would_block;
  thread_created = true;
}

abbrev pub port_of : ℕ → SockAddr
port_of a = record { s_addr = a; sin_port = 4000 }

pub primary-IsSafe : IsSafe primary
primary-IsSafe = record {
  has_peers = primary-HasPeers;
  health_size = refl;
  valid = two_clients-IsValid;
}

-- The backup 2 of the primary.
abbrev backup : Server
backup = record primary { my_id = pos 2; current_role = replica_secundario }

-- A server that starts, with the id 7.
abbrev pub newcomer : Packet
newcomer = record zero_packet {
  type = find_leader;
  new_server = record { id = pos 7; addr = port_of 107 };
}

pub newcomer-IsGood : IsGood newcomer
newcomer-IsGood = record { good_leader = leader_id_good (pos 0); good_rep = empty_ledger-IsValid }

find_or_add_client_refines_example : Registered 33 two_clients
find_or_add_client_refines_example = find_or_add_client_refines 33 two_clients-IsValid

add_peer_refines_example : Added (pos 7) (port_of 107) primary
add_peer_refines_example = add_peer_refines (pos 7) (port_of 107) primary-HasPeers

dispatch-Runs_example : Runs SafeRound (dispatch calm (port_of 0) newcomer (port_of 107) primary)
dispatch-Runs_example =
    dispatch-Runs calm (port_of 0) newcomer (port_of 107) (λ k s safe. safe) newcomer-IsGood
      primary-IsSafe

-- The backup has heard nothing for 99 seconds.
abbrev forsaken : Server
forsaken = record backup {
  server_health = replicate 4 (record { last_ping_received = 1; is_alive = true });
}

forsaken-IsSafe : IsSafe forsaken
forsaken-IsSafe = record {
  has_peers = record { list_size = refl; servers_counted = refl; servers_few = omega arith };
  health_size = refl;
  valid = two_clients-IsValid;
}

-- The leader and the count of servers after a round.
abbrev leader_and_count : Outcome (Server × List Sent) → Option (ℤ × ℤ)
leader_and_count fault = none
leader_and_count (done (s, out)) = some (s.current_leader_id, s.num_servers)

-- The monitor drops both silent servers and makes itself the leader.
monitor_run :
    leader_and_count (monitor_round (λ i. true) (λ k s. s) 100 forsaken) ≡ some (pos 2, pos 1)
unfolding monitor_round
monitor_run = refl

monitor_round-Runs_example : Runs SafeOut (monitor_round (λ i. true) (λ k s. s) 100 forsaken)
monitor_round-Runs_example =
    monitor_round-Runs (λ i. true) (λ k s. s) 100 (λ k s safe. safe) forsaken-IsSafe

request_replicated_example :
    (l : Ledger) × (updates : List Sent) × (handle_request
        (some client_a)
        (some (transfer_packet 1 22 30))
        primary
      ≡ done (
        record primary { ledger = l },
        updates ++ reply client_a (transfer_packet 1 22 30) ((bank_of l).account 11),
      ))
    × (recipients updates ≡ others (pos 3) (peers primary))
    × All (λ m. TakesOver calm (port_of 0) (port_of 103) backup l m.pkt) updates
    × (bank_of l ≡ (bank_answer client_a (transfer_packet 1 22 30) primary).1)
unfolding request find int_eq
request_replicated_example =
    request_replicated calm (port_of 0) (port_of 103) client_a (transfer_packet 1 22 30) primary
      backup refl two_clients-IsValid primary-HasPeers (omega arith) refl refl refl refl

monitor_round_refines_example : Monitored (λ i. true) (λ k s. s) 100 forsaken
monitor_round_refines_example =
    monitor_round_refines (λ i. true) (λ k s. s) 100 forsaken-IsSafe.has_peers refl

-- The servers left of those that the backup knows.
left_run : remaining 100 forsaken.my_id (peers forsaken) (healths forsaken) ≡ backup_two ∷ []
unfolding remaining silent int_eq
left_run = refl

-- A layout in which the other packets read as a list of no servers.
abbrev pub no_overlay : Packet → LeaderInfo
no_overlay pkt = zero_packet.leader

-- A primary 3 answers the question of the starting server 7, which takes over.
abbrev pub leader_reply : Packet
leader_reply = record zero_packet {
  type = coordinator;
  leader = record { leader_id = pos 3; nr_servers = pos 3; servers = primary.server_list };
}

pub leader_reply-IsGood : IsGood leader_reply
leader_reply-IsGood = record {
  good_leader = record { info_size = refl; info_counted = refl; info_few = omega arith };
  good_rep = empty_ledger-IsValid;
}

startup_run :
    leader_and_count
      (startup no_overlay 100 (port_of 0) (some (leader_reply, port_of 103)) (initial (pos 7)))
    ≡ some (pos 7, pos 4)
unfolding startup
startup_run = refl

startup-Runs_example :
    Runs SafeOut
      (startup no_overlay 100 (port_of 0) (some (leader_reply, port_of 103)) (initial (pos 7)))
startup-Runs_example =
    startup-Runs no_overlay 100 (port_of 0) (some (leader_reply, port_of 103)) (pos 7)
      leader_reply-IsGood.good_leader
