-- ===== src/Server/Ledger.antt =====
-- The ledger that `data_mutex` protects: its entries in use, what makes it well formed, and the
-- bank that it stands for.
use inf01151_trabalho.Common.{
  ◌*◌, ◌≤◌, ◌≡◌, pos, pos_part, List, replicate, take, length, arith, refl,
}
use inf01151_trabalho.Server.Types.{Client, Ledger, max_clients, no_client}
use inf01151_trabalho.Server.Clients.Find.{find, sum_balances}
use inf01151_trabalho.Server.Bank.{Bank, account_of}

abbrev pub clients : Ledger → List Client
clients l = take (pos_part l.num_clients) l.client_table

-- The table has its size, the count stays in it, and the money in it is what was handed out.
pub record IsValid (l : Ledger) : Type 0 where
  pub size : length l.client_table ≡ max_clients
  pub counted : l.num_clients ≡ pos (pos_part l.num_clients)
  pub few : pos_part l.num_clients ≤ max_clients
  pub total : l.total_balance ≡ pos (100 * pos_part l.num_clients)
  pub money : sum_balances (clients l) ≡ 100 * pos_part l.num_clients

abbrev pub bank_of : Ledger → Bank
bank_of l = record {
  account = λ ip. account_of (find ip (clients l));
  count = pos_part l.num_clients;
}

-- The globals as server.c initialises them.
abbrev pub empty_ledger : Ledger
empty_ledger = record {
  num_transactions = pos 0;
  total_transferred = pos 0;
  total_balance = pos 0;
  num_clients = pos 0;
  client_table = replicate max_clients no_client;
}

pub empty_ledger-IsValid : IsValid empty_ledger
unfolding sum_balances
empty_ledger-IsValid = record {
  size = refl;
  counted = refl;
  few = omega arith;
  total = refl;
  money = refl;
}
