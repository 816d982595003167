-- ===== src/Server/Safety.antt =====
-- Well-formed servers and packets, and what it is to run without leaving defined behaviour.
pub mod Loops
pub mod Elections
pub mod Heartbeat
pub mod Handlers
pub mod Rounds
pub mod Starts
use inf01151_trabalho.Common.{
  ℕ, ◌≤◌, ◌≡◌, refl, ℤ, pos, pos_part, List, [], ◌∷◌, ◌++◌, All, length, Outcome, done, fault,
  ◌>>=◌, arith,
}
use inf01151_trabalho.Server.Types.{
  LeaderInfo, ReplicationMsg, Packet, Ledger, Server, Sent, Replica, max_servers, zero_packet,
}
use inf01151_trabalho.Server.Ledger.{IsValid, empty_ledger-IsValid}
use inf01151_trabalho.Server.Replication.Sends.{HasPeers}

-- The arrays of a server have their sizes, its counts stay in them, and its ledger is well formed.
pub record IsSafe (s : Server) : Type 0 where
  pub has_peers : HasPeers s
  pub health_size : length s.server_health ≡ max_servers
  pub valid : IsValid s.ledger

-- The list of servers in a packet has its size, and its count stays in it.
pub record IsLeaderInfo (info : LeaderInfo) : Type 0 where
  pub info_size : length info.servers ≡ max_servers
  pub info_counted : info.nr_servers ≡ pos (pos_part info.nr_servers)
  pub info_few : pos_part info.nr_servers ≤ max_servers

-- The ledger that a replication message carries.
abbrev pub ledger_of : ReplicationMsg → Ledger
ledger_of rep = record {
  num_transactions = rep.num_transactions;
  total_transferred = rep.total_transferred;
  total_balance = rep.total_balance;
  num_clients = rep.num_clients;
  client_table = rep.client_table;
}

pub record IsGood (pkt : Packet) : Type 0 where
  pub good_leader : IsLeaderInfo pkt.leader
  pub good_rep : IsValid (ledger_of pkt.rep)

abbrev pub AllGood : List Sent → Type 0
AllGood = All (λ m. IsGood m.pkt)

-- The outcome is a value with the property.
abbrev pub Runs {ℓ} : {A : Type ℓ} → (A → Type 0) → Outcome A → Type 0
Runs P (done a) = P a
Runs P fault = ⊥

pub Runs-bind {ℓ κ} :
    {A : Type ℓ} {B : Type κ} (P : A → Type 0) (Q : B → Type 0) (m : Outcome A) (f : A → Outcome B)
    → Runs P m
    → ((a : A) → P a → Runs Q (f a))
    → Runs Q (m >>= f)
Runs-bind P Q (done a) f h k = k a h
Runs-bind P Q fault f h k = absurd h

pub Runs-done {ℓ} :
    {A : Type ℓ} (P : A → Type 0) (m : Outcome A) → Runs P m → (a : A) × (m ≡ done a) × P a
Runs-done P (done a) h = (a, refl, h)
Runs-done P fault h = absurd h

-- A server with packets that it sends.
abbrev pub SafeOut : Server × List Sent → Type 0
SafeOut (s, out) = IsSafe s × AllGood out

abbrev zero_leader_good : IsLeaderInfo zero_packet.leader
zero_leader_good = record { info_size = refl; info_counted = refl; info_few = omega arith }

pub leader_id_good : (id : ℤ) → IsLeaderInfo (record zero_packet.leader { leader_id = id })
leader_id_good id = record { info_size = refl; info_counted = refl; info_few = omega arith }
