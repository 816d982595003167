-- ===== src/Server/Clients.antt =====
-- server/processing.c, the client table: `find_client_by_ip` and `find_or_add_client`. A pointer
-- into the table is the index of its entry.
pub mod Find
pub mod Lookup
pub mod Register
use inf01151_trabalho.Common.{
  ℕ, zero, suc, ℤ, pos, pos_part, Option, none, some, List, ◌==◌, if◌then◌else◌, int_lt, Outcome,
  done, fault, ◌>>=◌, index, add_int, read, write,
}
use inf01151_trabalho.Server.Types.{Client, Ledger, max_clients}

-- `for (int i = 0; i < num_clients; i++) if (client_table[i].ip_addr == ip_addr) ...`, from `i` on
-- with the rounds that are left.
unfoldable pub find_from : ℕ → List Client → ℕ → ℕ → Outcome (Option ℕ)
unfolding read
find_from ip_addr table i zero = done none
find_from ip_addr table i (suc n) =
    let rest = find_from ip_addr table (suc i) n in
    do c ← read table i; if c.ip_addr == ip_addr then done (some i) else rest

-- A loop up to a negative count makes no round.
unfoldable pub find_client_by_ip : ℕ → Ledger → Outcome (Option ℕ)
unfolding find_from
find_client_by_ip ip_addr l = find_from ip_addr l.client_table 0 (pos_part l.num_clients)

abbrev pub new_client : ℕ → Client
new_client ip_addr = record { ip_addr = ip_addr; last_req_id = 0; balance = 100; in_use = pos 1 }

-- What follows the loop of `find_or_add_client`.
unfoldable pub add_client : ℕ → Ledger → Outcome (Option ℕ × Ledger)
unfolding int_lt write add_int
add_client ip_addr l =
    if int_lt l.num_clients (pos max_clients)
    then (do
      i ← index l.num_clients
      table ← write l.client_table i (new_client ip_addr)
      total ← add_int l.total_balance 100
      n ← add_int l.num_clients 1
      done (some i, record l { client_table = table; total_balance = total; num_clients = n }))
    else done (none, l)

unfoldable pub find_or_add_client : ℕ → Ledger → Outcome (Option ℕ × Ledger)
unfolding find_client_by_ip add_client
find_or_add_client ip_addr l = do
  found ← find_client_by_ip ip_addr l
  elim found [ some i ↦ done (some i, l) | none ↦ add_client ip_addr l ]
