-- ===== src/Server/Ping/Removal.antt =====
-- A round of the ping monitor: the scan, and the election that may follow.
use inf01151_trabalho.Common.{
  ◌∙◌, ℕ, ◌≡◌, refl, pos, pos_part, Bool, false, not, ◌&&◌, List, [], length, take, done, arith, ap,
  int_eq, if◌then◌else◌,
}
use inf01151_trabalho.Server.Types.{Replica, Health, Server, max_servers}
use inf01151_trabalho.Server.Election.{start_election}
use inf01151_trabalho.Server.Replication.Sends.{HasPeers, peers}
use inf01151_trabalho.Server.Ping.{monitor_round, Scan}
use inf01151_trabalho.Server.Ping.Scans.{remaining, lost, scan_from_lem}

-- The entries of `server_health` of the servers that a server knows.
abbrev pub healths : Server → List Health
healths s = take (pos_part s.num_servers) s.server_health

-- Whether a round of the monitor finds the leader silent and is to hold an election.
abbrev pub leader_down : ℕ → Server → Bool
leader_down now s =
    lost now s.my_id s.current_leader_id (peers s) (healths s)
    && not s.election_in_progress
    && not (int_eq s.current_leader_id s.my_id)

-- The state after the scan, and how the round goes on from it.
pub record Monitored (reaches : ℕ → Bool) (sleep : ℕ → Server → Server) (now : ℕ) (s : Server)
    : Type 0 where
  pub list : List Replica
  pub health : List Health
  pub kept : ℕ
  pub returns : monitor_round reaches sleep now s ≡ (
      let s' = record s { server_list = list; server_health = health; num_servers = pos kept } in
      if leader_down now s then start_election reaches sleep now s' else done (s', []))
  pub left : take kept list ≡ remaining now s.my_id (peers s) (healths s)

-- A round of the monitor takes from the list of a well-formed server exactly the servers that are
-- silent, keeps the order of the others, and changes nothing else of the server but `server_health`;
-- it then holds an election just where the leader is among the silent ones, no election is on, and
-- the server is not the leader itself.
pub monitor_round_refines :
    (reaches : ℕ → Bool) (sleep : ℕ → Server → Server) (now : ℕ) {s : Server}
    → HasPeers s
    → length s.server_health ≡ max_servers
    → Monitored reaches sleep now s
unfolding monitor_round
monitor_round_refines reaches sleep now {s} h size =
    let c : Scan = record {
      list = s.server_list;
      health = s.server_health;
      count = s.num_servers;
      leader_failed = false;
    } in
    let scan = scan_from_lem now s.my_id s.current_leader_id 0 (pos_part s.num_servers) c (record {
      list_size = h.list_size;
      health_size = size;
      counted = h.servers_counted ∙ ap pos (omega arith);
      few = omega (arith, h.servers_few);
    }) in
    record {
      list = scan.result.list;
      health = scan.result.health;
      kept = scan.kept;
      returns = rw (scan.returns, scan.count, scan.failed) refl;
      left = scan.list;
    }
