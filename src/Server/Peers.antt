-- ===== src/Server/Peers.antt =====
-- server/server.c, the list of servers: `add_peer`.
pub mod Addresses
pub mod Known
use inf01151_trabalho.Common.{
  ℕ, zero, suc, ℤ, pos, pos_part, Option, none, some, List, if◌then◌else◌, int_eq, int_lt, Outcome,
  done, ◌>>=◌, index, add_int, read, write,
}
use inf01151_trabalho.Server.Types.{Replica, Server, SockAddr, max_servers}

-- `for (int i = 0; i < num_servers; i++) if (server_list[i].id == id) ...`, from `i` on.
unfoldable pub find_server_from : ℤ → List Replica → ℕ → ℕ → Outcome (Option ℕ)
unfolding read int_eq
find_server_from id list i zero = done none
find_server_from id list i (suc n) =
    let rest = find_server_from id list (suc i) n in
    do r ← read list i; if int_eq r.id id then done (some i) else rest

-- What follows the loop of `add_peer`. A full list only prints a warning.
unfoldable pub append_peer : ℤ → SockAddr → Server → Outcome Server
unfolding int_lt write add_int
append_peer id addr s =
    if int_lt s.num_servers (pos max_servers)
    then (do
      i ← index s.num_servers
      list ← write s.server_list i (record { id = id; addr = addr })
      n ← add_int s.num_servers 1
      done (record s { server_list = list; num_servers = n }))
    else done s

unfoldable pub add_peer : ℤ → SockAddr → Server → Outcome Server
unfolding find_server_from append_peer
add_peer id addr s = if int_eq id s.my_id then done s else do
  found ← find_server_from id s.server_list 0 (pos_part s.num_servers)
  elim found [
    | some i ↦ do
      r ← read s.server_list i
      list ← write s.server_list i (record r { addr = addr })
      done (record s { server_list = list })
    | none ↦ append_peer id addr s
  ]
