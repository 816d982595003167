-- ===== src/Exchange/Tests.antt =====
-- One command of the client at the primary of the server's tests.
use inf01151_trabalho.Common.{
  ℕ, ◌^◌, ◌-◌, ◌≡◌, ◌≢◌, refl, pos, some, [], ◌∷◌, ◌++◌, replicate, arith, List, done,
}
use inf01151_trabalho.Client.Types as Client
use inf01151_trabalho.Client.Sender.{received, request_packet, send_command}
use inf01151_trabalho.Server.Types.{SockAddr, Server, Packet, Ledger, Sent}
use inf01151_trabalho.Server.Processing.{handle_request}
use inf01151_trabalho.Server.Ledger.{IsValid, bank_of}
use inf01151_trabalho.Server.Clients.{new_client}
use inf01151_trabalho.Server.Clients.Find.{find, sum_balances}
use inf01151_trabalho.Server.Bank.{Account, duplicate}
use inf01151_trabalho.Server.Replication.Sends.{HasPeers}
use inf01151_trabalho.Server.Processing.Effects.{sends as updates}
use inf01151_trabalho.Server.Processing.Handle.{
  bank_answer, ack_of, reply, Handled, handle_request_refines,
}
use inf01151_trabalho.Server.Startup.{initial}
use inf01151_trabalho.Server.Types.{no_client, no_replica, replica_primario}
use inf01151_trabalho.Exchange.{
  Exchange, begin, noted_in, to_client, to_clients, to_server, sends, serves, Reach, here, next,
}
use inf01151_trabalho.Exchange.Fits.{last_noted}
use inf01151_trabalho.Exchange.Numbers.{IsInOrder, Reach-IsInOrder}
use inf01151_trabalho.Exchange.Rounds.{next_request, acknowledged_fresh, numbers_end}

abbrev client : SockAddr
client = record { s_addr = 11; sin_port = 5000 }

-- The clients 11, with a last number, and 22.
abbrev clients_after : ℕ → Ledger
clients_after last = record {
  num_transactions = pos 0;
  total_transferred = pos 0;
  total_balance = pos 200;
  num_clients = pos 2;
  client_table =
      record (new_client 11) { last_req_id = last } ∷ new_client 22 ∷ replicate 8 no_client;
}

clients_after-IsValid : (last : ℕ) → IsValid (clients_after last)
unfolding sum_balances
clients_after-IsValid last = record {
  size = refl;
  counted = refl;
  few = omega arith;
  total = refl;
  money = refl;
}

abbrev serving : ℕ → Server
serving last = record (initial (pos 3)) {
  current_leader_id = pos 3;
  current_role = replica_primario;
  num_servers = pos 1;
  server_list =
      record { id = pos 3; addr = record { s_addr = 0; sin_port = 4000 } } ∷ replicate 3 no_replica;
  ledger = clients_after last;
}

serving-HasPeers : (last : ℕ) → HasPeers (serving last)
serving-HasPeers last = record {
  list_size = refl;
  servers_counted = refl;
  servers_few = omega arith;
}

abbrev pay : Client.Requisicao
pay = record { dest_addr = 22; value = 30 }

abbrev paid_packet : Packet
paid_packet = to_server (request_packet 1 pay)

paid : Handled client paid_packet (serving 0)
paid =
    handle_request_refines client paid_packet refl (clients_after-IsValid 0) (serving-HasPeers 0)
      (omega arith)

-- The client sends its command, and the server handles it.
abbrev served : Exchange
served = record {
  server = record (serving 0) { ledger = paid.ledger };
  next_sequence = 1;
  awaits = some pay;
  requests = paid_packet ∷ [];
  replies =
      to_clients (
        updates (bank_answer client paid_packet (serving 0)).0
          (record (serving 0) { ledger = paid.ledger })
        ++ reply client paid_packet ((bank_answer client paid_packet (serving 0)).1.account 11))
      ++ [];
  accepted = noted_in (bank_answer client paid_packet (serving 0)).0 1 [];
}

Reach-served : Reach client (begin (serving 0)) served
Reach-served = next (next here (sends pay refl)) (serves 0 refl paid.returns)

Reach-IsInOrder_example : IsInOrder client (last_noted client (serving 0)) served
Reach-IsInOrder_example =
    Reach-IsInOrder client (clients_after-IsValid 0) (serving-HasPeers 0) Reach-served

acknowledged_fresh_example :
    (ack : Packet) × (l : Ledger) × (l' : Ledger) × (updates_sent : List Sent) × (out : List Sent)
    × (handle_request (some client) (some paid_packet) (serving 0)
        ≡ done (
          record (serving 0) { ledger = l },
          updates_sent ++ (record { to = client; pkt = ack } ∷ []),
        ))
    × (handle_request
          (some client)
          (some (next_request pay pay 1 ack))
          (record (serving 0) { ledger = l })
        ≡ done (record (serving 0) { ledger = l' }, out))
    × (bank_of l'
        ≡ (bank_answer client (next_request pay pay 1 ack) (record (serving 0) { ledger = l })).1)
    × ((bank_answer client (next_request pay pay 1 ack) (record (serving 0) { ledger = l })).0
        ≢ duplicate)
unfolding find
acknowledged_fresh_example =
    acknowledged_fresh client paid_packet (record { last_req_id = 0; balance = 100 }) pay pay 1 refl
      (clients_after-IsValid 0) (serving-HasPeers 0) (omega arith) refl (omega arith) (omega arith)

abbrev noted_last_one : Account
noted_last_one = record { last_req_id = 2 ^ 32 - 1; balance = 100 }

last-account : (bank_of (clients_after (2 ^ 32 - 1))).account 11 ≡ some noted_last_one
unfolding find
last-account = refl

numbers_end_example :
    (h : Handled client paid_packet (serving (2 ^ 32 - 1))) × (bank_of h.ledger
      ≡ bank_of (clients_after (2 ^ 32 - 1)))
    × ((send_command (received (to_client (ack_of paid_packet noted_last_one))) pay 1).0 ≡ 0)
numbers_end_example =
    numbers_end client paid_packet noted_last_one pay 1 refl (omega arith)
      (clients_after-IsValid (2 ^ 32 - 1)) (serving-HasPeers (2 ^ 32 - 1)) last-account refl
