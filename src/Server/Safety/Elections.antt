-- ===== src/Server/Safety/Elections.antt =====
-- The handlers of the election run to their end and keep a server well formed.
use Prim.Native.Nat.{min}
use inf01151_trabalho.Common.{
  ℕ, ◌≤◌, ◌≡◌, refl, ℤ, pos, pos_part, Option, none, some, List, ◌++◌, All-append, length, done,
  ◌>>=◌, arith, Bool, true, false, Bool-cases, inl, inr, int_lt, if◌then◌else◌, ◌==◌,
}
use inf01151_trabalho.Server.Types.{
  Replica, Health, LeaderInfo, Packet, Role, Server, Sent, SockAddr, max_servers, replica_primario,
  replica_secundario, zero_packet,
}
use inf01151_trabalho.Server.Replication.{propagate_state_to_backups, rep_packet}
use inf01151_trabalho.Server.Replication.Sends.{peers, replicated, propagate_lem}
use inf01151_trabalho.Server.Election.{
  all_alive, promote_to_primary, election_packet, start_election, answer_packet,
  handle_election_message, handle_answer_message, adopt_servers, handle_coordinator_message,
}
use inf01151_trabalho.Server.Safety.{
  IsSafe, IsLeaderInfo, IsGood, AllGood, SafeOut, Runs, Runs-bind, leader_id_good,
}
use inf01151_trabalho.Server.Safety.Loops.{
  to_others-good, send_others-good, copy_from-Runs, challenge_from-Runs, revive_from-Runs,
}
use inf01151_trabalho.Server.Ledger.{empty_ledger-IsValid}

pub rep_packet-IsGood : {s : Server} → IsSafe s → IsGood (rep_packet s.ledger)
rep_packet-IsGood safe = record { good_leader = leader_id_good (pos 0); good_rep = safe.valid }

pub id_packet-IsGood : (id : ℤ) → IsGood (election_packet id)
id_packet-IsGood id = record { good_leader = leader_id_good id; good_rep = empty_ledger-IsValid }

replicated-good : (r : Role) {s : Server} → s.current_role ≡ r → IsSafe s → AllGood (replicated s)
replicated-good replica_primario {s} is safe =
    rw is (to_others-good s.my_id (rep_packet s.ledger) (peers s) (rep_packet-IsGood safe))
replicated-good replica_secundario is safe = rw is tt

pub propagate-good : {s : Server} → IsSafe s → Runs AllGood (propagate_state_to_backups s)
propagate-good {s} safe =
    rw (propagate_lem safe.has_peers) (replicated-good s.current_role refl safe)

-- The state in which `promote_to_primary` sends.
abbrev pub promoted : ℕ → Server → Server
promoted now s = record s {
  current_role = replica_primario;
  current_leader_id = s.my_id;
  election_in_progress = false;
  server_health = all_alive now;
}

pub promoted-IsSafe : (now : ℕ) {s : Server} → IsSafe s → IsSafe (promoted now s)
promoted-IsSafe now safe = record {
  has_peers = record {
    list_size = safe.has_peers.list_size;
    servers_counted = safe.has_peers.servers_counted;
    servers_few = safe.has_peers.servers_few;
  };
  health_size = refl;
  valid = safe.valid;
}

pub leader_packet-good :
    (id : ℤ) (nr : ℤ) (servers : List Replica)
    → nr ≡ pos (pos_part nr)
    → pos_part nr ≤ max_servers
    → length servers ≡ max_servers
    → IsLeaderInfo (record { leader_id = id; nr_servers = nr; servers = servers })
leader_packet-good id nr servers counted few size = record {
  info_size = size;
  info_counted = counted;
  info_few = few;
}

pub promote_to_primary-Runs :
    (now : ℕ) {s : Server} → IsSafe s → Runs SafeOut (promote_to_primary now s)
unfolding promote_to_primary
promote_to_primary-Runs now {s} safe =
    Runs-bind (λ l. length l ≡ max_servers) SafeOut _ _
      (copy_from-Runs s.server_list zero_packet.leader.servers 0
        (min (pos_part s.num_servers) max_servers) max_servers
        (omega (arith, safe.has_peers.list_size)) (omega arith) refl)
      (λ servers size.
        Runs-bind AllGood SafeOut _ _
          (send_others-good _ (promoted-IsSafe now safe).has_peers (record {
            good_leader =
                leader_packet-good s.my_id s.num_servers servers safe.has_peers.servers_counted
                  safe.has_peers.servers_few size;
            good_rep = empty_ledger-IsValid;
          }))
          (λ out good.
            Runs-bind AllGood SafeOut _ _ (propagate-good (promoted-IsSafe now safe))
              (λ updates good'.
                (promoted-IsSafe now safe, All-append (λ m. IsGood m.pkt) out updates good good'))))

-- The other threads keep a server well formed while this one sleeps.
abbrev pub KeepsSafe : (ℕ → Server → Server) → Type 0
KeepsSafe sleep = (k : ℕ) (s : Server) → IsSafe s → IsSafe (sleep k s)

election_set-IsSafe :
    {s : Server} (b : Bool) → IsSafe s → IsSafe (record s { election_in_progress = b })
election_set-IsSafe b safe = record {
  has_peers = record {
    list_size = safe.has_peers.list_size;
    servers_counted = safe.has_peers.servers_counted;
    servers_few = safe.has_peers.servers_few;
  };
  health_size = safe.health_size;
  valid = safe.valid;
}

-- A promotion behind the packets of an election.
promote_after-Runs :
    (now : ℕ) (out : List Sent) {s : Server}
    → IsSafe s
    → AllGood out
    → Runs SafeOut (promote_to_primary now s >>= λ r. done (r.0, out ++ r.1))
promote_after-Runs now out {s} safe good =
    Runs-bind SafeOut SafeOut _ _ (promote_to_primary-Runs now safe)
      (λ r h. (h.0, All-append (λ m. IsGood m.pkt) out r.1 good h.1))

-- What follows the wait for an answer: `b` is whether the election is still on.
awaited-Runs :
    (b : Bool) (now : ℕ) (out : List Sent) {s : Server}
    → IsSafe s
    → AllGood out
    → Runs SafeOut
        (if b then (promote_to_primary now s >>= λ r. done (r.0, out ++ r.1)) else done (s, out))
awaited-Runs true now out safe good = promote_after-Runs now out safe good
awaited-Runs false now out safe good = (safe, good)

pub start_election-Runs :
    (reaches : ℕ → Bool) (sleep : ℕ → Server → Server) (now : ℕ) {s : Server}
    → KeepsSafe sleep
    → IsSafe s
    → Runs SafeOut (start_election reaches sleep now s)
unfolding start_election
start_election-Runs reaches sleep now {s} keeps safe =
    let s₁ = record s { election_in_progress = true } in
    let safe₁ = election_set-IsSafe true safe in
    Runs-bind (λ (r : ℕ × List Sent). AllGood r.1) SafeOut _ _
      (challenge_from-Runs reaches s.server_list s.my_id 0 (pos_part s.num_servers)
        (omega (arith, safe.has_peers.list_size, safe.has_peers.servers_few))
        (id_packet-IsGood s.my_id))
      (λ r good. elim (Bool-cases (r.0 == 0)) [
        | inl alone ↦ rw alone (promote_after-Runs now r.1 (keeps 1 s₁ safe₁) good)
        | inr challenged ↦
            rw challenged
              (awaited-Runs (sleep 3 s₁).election_in_progress now r.1 (keeps 3 s₁ safe₁) good)
      ])

pub handle_election_message-Runs :
    (reaches : ℕ → Bool) (sleep : ℕ → Server → Server) (now : ℕ) (pkt : Option Packet)
    (sender : Option SockAddr) {s : Server}
    → KeepsSafe sleep
    → IsSafe s
    → Runs SafeOut (handle_election_message reaches sleep now pkt sender s)
unfolding handle_election_message
handle_election_message-Runs reaches sleep now none sender keeps safe = (safe, tt)
handle_election_message-Runs reaches sleep now (some pkt) none keeps safe = (safe, tt)
handle_election_message-Runs reaches sleep now (some pkt) (some sender) {s} keeps safe =
    elim (Bool-cases (s.election_in_progress)) [
      | inl already ↦ rw already (election_set-IsSafe true safe, (id_good, tt))
      | inr free ↦ rw free (
          Runs-bind SafeOut SafeOut _ _ (start_election-Runs reaches sleep now keeps safe)
            (λ r h. (h.0, (id_good, h.1))))
    ]
  where
    id_good : IsGood (answer_packet s.my_id)
    id_good = record { good_leader = leader_id_good s.my_id; good_rep = empty_ledger-IsValid }

pub handle_answer_message-IsSafe :
    (pkt : Option Packet) {s : Server} → IsSafe s → IsSafe (handle_answer_message pkt s)
unfolding handle_answer_message
handle_answer_message-IsSafe none safe = safe
handle_answer_message-IsSafe (some pkt) safe = election_set-IsSafe false safe

-- Adopting the list of a well-formed announcement.
adopt_servers-Runs :
    (info : LeaderInfo) {s : Server}
    → IsLeaderInfo info
    → IsSafe s
    → Runs IsSafe (adopt_servers info s)
unfolding adopt_servers
adopt_servers-Runs info {s} good safe = elim (Bool-cases (int_lt (pos 0) info.nr_servers)) [
  | inr no_list ↦ rw no_list safe
  | inl listed ↦ rw listed (
      Runs-bind (λ (l : List Replica). length l ≡ max_servers) IsSafe _ _
        (copy_from-Runs info.servers s.server_list 0 (min (pos_part info.nr_servers) max_servers)
          max_servers (omega (arith, good.info_size)) (omega arith) safe.has_peers.list_size)
        (λ list size. record {
          has_peers = record {
            list_size = size;
            servers_counted = good.info_counted;
            servers_few = good.info_few;
          };
          health_size = safe.health_size;
          valid = safe.valid;
        }))
]

pub handle_coordinator_message-Runs :
    (now : ℕ) (pkt : Packet) {s : Server}
    → IsGood pkt
    → IsSafe s
    → Runs IsSafe (handle_coordinator_message now (some pkt) s)
unfolding handle_coordinator_message
handle_coordinator_message-Runs now pkt {s} good safe =
    Runs-bind (λ (h : List Health). length h ≡ max_servers) IsSafe _ _
      (revive_from-Runs now pkt.leader.leader_id s.server_list s.server_health 0
        (pos_part s.num_servers) max_servers
        (omega (arith, safe.has_peers.list_size, safe.has_peers.servers_few))
        (omega (arith, safe.has_peers.servers_few)) safe.health_size)
      (λ health size. adopt_servers-Runs pkt.leader good.good_leader (record {
        has_peers = record {
          list_size = safe.has_peers.list_size;
          servers_counted = safe.has_peers.servers_counted;
          servers_few = safe.has_peers.servers_few;
        };
        health_size = size;
        valid = safe.valid;
      }))
