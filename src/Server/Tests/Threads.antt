-- ===== src/Server/Tests/Threads.antt =====
-- Two request threads of the primary: the second stands before the lock, the first after the unlock.
use inf01151_trabalho.Common.{pos, drop, length, All, ◌≤◌, ◌*◌, ◌≡◌, refl, [], ◌∷◌, arith}
use inf01151_trabalho.Server.Types.{Packet, Server}
use inf01151_trabalho.Server.Ledger.{clients, bank_of}
use inf01151_trabalho.Server.Processing.{serve}
use inf01151_trabalho.Server.Processing.Effects.{sends}
use inf01151_trabalho.Server.Processing.Serve.{bank_answer, Served, serve_answers}
use inf01151_trabalho.Server.Bank.{request}
use inf01151_trabalho.Server.Clients.Find.{find, sum_balances}
use inf01151_trabalho.Server.Threads.Money.{balances_conserved}
use inf01151_trabalho.Server.Threads.Snapshots.{IsConsistent, sent-IsConsistent}
use inf01151_trabalho.Server.Threads.{
  after_unlock, Pool, no_threads, created, unlocked, asked, creates, locks, Reach, here, next,
}
use inf01151_trabalho.Server.Threads.Linear.{IsLinear, Reach-IsLinear}
use inf01151_trabalho.Server.Tests.{
  client_a, two_clients, two_clients-IsValid, primary, primary-HasPeers, transfer_packet,
}

abbrev query_packet : Packet
query_packet = transfer_packet 1 22 0

-- The primary once the query is noted.
abbrev noted : Server
noted = record primary {
  ledger = record two_clients {
    client_table =
        record { ip_addr = 11; last_req_id = 1; balance = 100; in_use = pos 1 }
        ∷ drop 1 two_clients.client_table;
  };
}

abbrev two_threads : Pool
two_threads = record {
  server = noted;
  threads = unlocked client_a query_packet 0 ∷ created client_a (transfer_packet 2 22 30) ∷ [];
  served = asked client_a query_packet ∷ [];
  sent = [];
}

Reach-two_threads : Reach (no_threads primary) two_threads
unfolding serve
Reach-two_threads =
    next
      (next (next here (creates client_a (transfer_packet 2 22 30) refl))
        (creates client_a query_packet refl))
      (locks 0 refl refl)

Reach-IsLinear_example : IsLinear (bank_of two_clients) two_threads
Reach-IsLinear_example = Reach-IsLinear two_clients-IsValid primary-HasPeers Reach-two_threads

balances_conserved_example :
    (sum_balances (clients noted.ledger) ≡ 100 * length (clients noted.ledger))
    × All (λ c. c.balance ≤ 1000) (clients noted.ledger)
balances_conserved_example =
    balances_conserved two_clients-IsValid primary-HasPeers Reach-two_threads

-- A transfer of 30 is served, and its state sent to the two backups.
paid : Served client_a (transfer_packet 1 22 30) primary
unfolding request find
paid =
    serve_answers client_a (transfer_packet 1 22 30) two_clients-IsValid primary-HasPeers
      (omega arith)

abbrev replicating : Pool
replicating = record {
  server = record primary { ledger = paid.ledger };
  threads = after_unlock client_a (transfer_packet 1 22 30) paid.source ∷ [];
  served = asked client_a (transfer_packet 1 22 30) ∷ [];
  sent =
      sends (bank_answer client_a (transfer_packet 1 22 30) primary).0
        (record primary { ledger = paid.ledger });
}

Reach-replicating : Reach (no_threads primary) replicating
Reach-replicating =
    next (next here (creates client_a (transfer_packet 1 22 30) refl)) (locks 0 refl paid.returns)

sent-IsConsistent_example :
    All
      (λ m.
        IsConsistent (bank_of two_clients) (asked client_a (transfer_packet 1 22 30) ∷ []) m.pkt)
      (sends
        (bank_answer client_a (transfer_packet 1 22 30) primary).0
        (record primary { ledger = paid.ledger }))
sent-IsConsistent_example = sent-IsConsistent two_clients-IsValid primary-HasPeers Reach-replicating
