-- ===== src/Server/Tests.antt =====
-- The server's functions at concrete states, and the theorems about them at concrete inputs.
mod Network
mod Process
mod Threads
use inf01151_trabalho.Common.{
  ℕ, ◌≡◌, refl, pos, some, List, [], ◌∷◌, arith, Outcome, done, fault, replicate,
}
use inf01151_trabalho.Server.Types.{
  SockAddr, Replica, replica_primario, Packet, req, Ledger, Server, Sent, no_client, no_replica,
  zero_packet,
}
use inf01151_trabalho.Server.Ledger.{IsValid, bank_of}
use inf01151_trabalho.Server.Clients.{new_client}
use inf01151_trabalho.Server.Clients.Find.{find, sum_balances}
use inf01151_trabalho.Server.Bank.{request}
use inf01151_trabalho.Server.Replication.Sends.{HasPeers}
use inf01151_trabalho.Server.Processing.{handle_request}
use inf01151_trabalho.Server.Processing.Handle.{reply, Handled, handle_request_refines}
use inf01151_trabalho.Server.Processing.Once.{handle_request_once}
use inf01151_trabalho.Server.Startup.{initial}

abbrev client_a : SockAddr
client_a = record { s_addr = 11; sin_port = 5000 }

-- Two clients, 11 and 22, of 100 each.
abbrev two_clients : Ledger
two_clients = record {
  num_transactions = pos 0;
  total_transferred = pos 0;
  total_balance = pos 200;
  num_clients = pos 2;
  client_table = new_client 11 ∷ new_client 22 ∷ replicate 8 no_client;
}

two_clients-IsValid : IsValid two_clients
unfolding sum_balances
two_clients-IsValid = record {
  size = refl;
  counted = refl;
  few = omega arith;
  total = refl;
  money = refl;
}

-- The primary 3, with the backups 2 and 1.
abbrev backup_two : Replica
backup_two = record { id = pos 2; addr = record { s_addr = 102; sin_port = 4000 } }

abbrev backup_one : Replica
backup_one = record { id = pos 1; addr = record { s_addr = 101; sin_port = 4000 } }

abbrev primary : Server
primary = record (initial (pos 3)) {
  current_leader_id = pos 3;
  current_role = replica_primario;
  num_servers = pos 3;
  server_list =
      record { id = pos 3; addr = record { s_addr = 0; sin_port = 4000 } }
      ∷ backup_two
      ∷ backup_one
      ∷ no_replica
      ∷ [];
  ledger = two_clients;
}

primary-HasPeers : HasPeers primary
primary-HasPeers = record { list_size = refl; servers_counted = refl; servers_few = omega arith }

abbrev transfer_packet : ℕ → ℕ → ℕ → Packet
transfer_packet seqn dest value = record zero_packet {
  type = req;
  seqn = seqn;
  req = record { dest_addr = dest; value = value };
}

-- The balances after a request.
abbrev balances : Outcome (Server × List Sent) → List ℕ
balances fault = []
balances (done (s, out)) = elim (s.ledger.client_table) [
  | [] ↦ []
  | a ∷ rest ↦ elim rest [ [] ↦ a.balance ∷ [] | b ∷ _ ↦ a.balance ∷ b.balance ∷ [] ]
]

transfer_run :
    balances (handle_request (some client_a) (some (transfer_packet 1 22 30)) primary)
    ≡ 70 ∷ 130 ∷ []
unfolding handle_request
transfer_run = refl

-- A transfer to oneself changes no balance.
self_transfer_run :
    balances (handle_request (some client_a) (some (transfer_packet 1 11 30)) primary)
    ≡ 100 ∷ 100 ∷ []
unfolding handle_request
self_transfer_run = refl

handle_request_refines_example : Handled client_a (transfer_packet 1 22 30) primary
handle_request_refines_example =
    handle_request_refines client_a (transfer_packet 1 22 30) refl two_clients-IsValid
      primary-HasPeers (omega arith)

-- The same number again, with another amount.
handle_request_once_example :
    (l : Ledger) × (l' : Ledger) × (out : List Sent) × (handle_request
        (some client_a)
        (some (transfer_packet 1 22 30))
        primary
      ≡ done (record primary { ledger = l }, out))
    × (handle_request
          (some client_a)
          (some (transfer_packet 1 22 5))
          (record primary { ledger = l })
        ≡ done (
          record primary { ledger = l' },
          reply client_a (transfer_packet 1 22 5) ((bank_of l).account 11),
        ))
    × (bank_of l' ≡ bank_of l)
unfolding request find
handle_request_once_example =
    handle_request_once client_a (transfer_packet 1 22 30) (transfer_packet 1 22 5) refl refl
      two_clients-IsValid primary-HasPeers (omega arith) tt (omega arith)
