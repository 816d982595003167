-- ===== src/Server/Replication/Sends.antt =====
-- To whom the loops over `server_list` send, where the list holds what `num_servers` says.
use inf01151_trabalho.Common.{
  ℕ, zero, suc, ◌+◌, ◌≤◌, ◌≡◌, refl, ℤ, pos, pos_part, List, [], ◌∷◌, All, Bool-cases, inl, inr,
  if◌then◌else◌, arith, length, take, drop, done, read-drop, int_eq,
}
use inf01151_trabalho.Server.Types.{
  Replica, Packet, Server, Sent, max_servers, replica_primario, replica_secundario, Ledger,
}
use inf01151_trabalho.Server.Replication.{
  send_others_from, send_others, propagate_state_to_backups, rep_packet,
}

-- `server_list` has its size, and `num_servers` stays in it.
pub record HasPeers (s : Server) : Type 0 where
  pub list_size : length s.server_list ≡ max_servers
  pub servers_counted : s.num_servers ≡ pos (pos_part s.num_servers)
  pub servers_few : pos_part s.num_servers ≤ max_servers

-- The servers that a server knows.
abbrev pub peers : Server → List Replica
peers s = take (pos_part s.num_servers) s.server_list

-- One packet to each server with another id, in the order of the list.
unfoldable pub to_others : ℤ → Packet → List Replica → List Sent
to_others my_id pkt [] = []
to_others my_id pkt (r ∷ rs) =
    if int_eq r.id my_id
    then to_others my_id pkt rs
    else record { to = r.addr; pkt = pkt } ∷ to_others my_id pkt rs

-- Each packet is the one that is sent.
pub to_others-All :
    (P : Packet → Type 0) (my_id : ℤ) (pkt : Packet) (rs : List Replica)
    → P pkt
    → All (λ m. P m.pkt) (to_others my_id pkt rs)
unfolding to_others
to_others-All P my_id pkt [] h = tt
to_others-All P my_id pkt (r ∷ rs) h = elim (Bool-cases (int_eq r.id my_id)) [
  | inl own ↦ rw own (to_others-All P my_id pkt rs h)
  | inr other ↦ rw other (h, to_others-All P my_id pkt rs h)
]

send_others_from-eq-to_others :
    (list : List Replica) (my_id : ℤ) (pkt : Packet) (i n : ℕ)
    → i + n ≤ length list
    → send_others_from list my_id pkt i n ≡ done (to_others my_id pkt (take n (drop i list)))
unfolding send_others_from to_others
send_others_from-eq-to_others list my_id pkt i zero h = refl
send_others_from-eq-to_others list my_id pkt i (suc n) h =
    let (r, at, left) = read-drop list i (omega arith) in
    rw (at, left, send_others_from-eq-to_others list my_id pkt (suc i) n (omega arith))
      (ground arith)

pub send_others-eq-to_others :
    (pkt : Packet) {s : Server}
    → HasPeers s
    → send_others pkt s ≡ done (to_others s.my_id pkt (peers s))
unfolding send_others
send_others-eq-to_others pkt {s} h =
    send_others_from-eq-to_others s.server_list s.my_id pkt 0 (pos_part s.num_servers)
      (omega (arith, h.list_size, h.servers_few))

-- What `propagate_state_to_backups` sends: a primary sends its ledger to every other server.
abbrev pub replicated : Server → List Sent
replicated s = elim s.current_role [
  | replica_primario ↦ to_others s.my_id (rep_packet s.ledger) (peers s)
  | replica_secundario ↦ []
]

pub propagate_lem : {s : Server} → HasPeers s → propagate_state_to_backups s ≡ done (replicated s)
unfolding propagate_state_to_backups
propagate_lem {s} h = ground (arith, send_others-eq-to_others (rep_packet s.ledger) h)

-- The ledger does not matter to the servers known.
pub HasPeers-ledger : {s : Server} (l : Ledger) → HasPeers s → HasPeers (record s { ledger = l })
HasPeers-ledger l h = record {
  list_size = h.list_size;
  servers_counted = h.servers_counted;
  servers_few = h.servers_few;
}
