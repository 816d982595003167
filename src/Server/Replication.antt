-- ===== src/Server/Replication.antt =====
-- server/replication.c, replication of the ledger: `propagate_state_to_backups`,
-- `apply_state_update`, `handle_replication_update`. Pointers that the code tests for NULL are
-- options. Printing is left out.
pub mod Sends
use inf01151_trabalho.Common.{
  ℕ, zero, suc, ℤ, pos_part, Option, none, some, List, [], ◌∷◌, ◌++◌, if◌then◌else◌, int_eq,
  Outcome, done, ◌>>=◌, read, to_u32,
}
use inf01151_trabalho.Server.Types.{
  Replica, Role, replica_primario, replica_secundario, ReplicationMsg, Packet, rep_update,
  rep_confirm, Ledger, Server, Sent, SockAddr, zero_packet,
}

-- `for (int i = 0; i < num_servers; i++) if (server_list[i].id != my_id) sendto(...)`, from `i` on.
-- Whether a `sendto` succeeds changes only what is printed.
unfoldable pub send_others_from : List Replica → ℤ → Packet → ℕ → ℕ → Outcome (List Sent)
unfolding read int_eq
send_others_from list my_id pkt i zero = done []
send_others_from list my_id pkt i (suc n) =
    let rest = send_others_from list my_id pkt (suc i) n in
    do
      r ← read list i
      out ← rest
      done (if int_eq r.id my_id then out else record { to = r.addr; pkt = pkt } ∷ out)

unfoldable pub send_others : Packet → Server → Outcome (List Sent)
unfolding send_others_from
send_others pkt s = send_others_from s.server_list s.my_id pkt 0 (pos_part s.num_servers)

-- The loop over `MAX_CLIENTS` entries copies the whole table.
abbrev pub rep_message : Ledger → ReplicationMsg
rep_message l = record {
  num_clients = l.num_clients;
  num_transactions = l.num_transactions;
  total_transferred = l.total_transferred;
  total_balance = l.total_balance;
  client_table = l.client_table;
}

abbrev pub rep_packet : Ledger → Packet
rep_packet l = record zero_packet {
  type = rep_update;
  seqn = to_u32 l.num_transactions;
  rep = rep_message l;
}

unfoldable pub propagate_state_to_backups : Server → Outcome (List Sent)
unfolding send_others
propagate_state_to_backups s = elim s.current_role [
  | replica_primario ↦ send_others (rep_packet s.ledger) s
  | replica_secundario ↦ done []
]

unfoldable pub apply_state_update : Option ReplicationMsg → Server → Server
apply_state_update none s = s
apply_state_update (some rep) s = elim s.current_role [
  | replica_primario ↦ s
  | replica_secundario ↦ record s {
    ledger = record {
      num_transactions = rep.num_transactions;
      total_transferred = rep.total_transferred;
      total_balance = rep.total_balance;
      num_clients = rep.num_clients;
      client_table = rep.client_table;
    };
  }
]

unfoldable pub handle_replication_update :
    Option Packet → Option SockAddr → Server → Server × List Sent
unfolding apply_state_update
handle_replication_update none sender s = (s, [])
handle_replication_update (some pkt) none s = (s, [])
handle_replication_update (some pkt) (some sender) s =
    let s' = apply_state_update (some pkt.rep) s in
    let confirm = record zero_packet {
      type = rep_confirm;
      leader = record zero_packet.leader { leader_id = s.my_id };
    } in
    (s', record { to = sender; pkt = confirm } ∷ [])
