-- ===== src/Server/Leadership.antt =====
-- The election between servers: what a new leader announces, and what the receive loop of another
-- server makes of it.
pub mod Course
use Prim.Native.Nat.{min}
use inf01151_trabalho.Common.{
  ◌∙◌, ℕ, zero, suc, ◌+◌, ◌≤◌, ◌≡◌, refl, ℤ, pos, pos_part, List, [], ◌∷◌, ◌++◌, length, length-set,
  set, take, take-set_next, done, arith, ap, sym, write-eq-set, read-take, false,
}
use inf01151_trabalho.Server.Types.{
  Replica, Packet, coordinator, replica_secundario, Server, SockAddr, zero_packet, max_servers,
}
use inf01151_trabalho.Server.Replication.{rep_packet}
use inf01151_trabalho.Server.Replication.Sends.{
  HasPeers, peers, to_others, send_others-eq-to_others, propagate_lem,
}
use inf01151_trabalho.Server.Startup.{join_packet}
use inf01151_trabalho.Server.Dispatch.{World, quiet_round, dispatch}
use inf01151_trabalho.Server.Safety.Elections.{promoted}
use inf01151_trabalho.Server.Election.{all_alive, copy_from, promote_to_primary}

-- The loop that copies servers copies them.
copy_from-take :
    (source target : List Replica) (i n : ℕ)
    → i + n ≤ length source
    → i + n ≤ length target
    → take i target ≡ take i source
    → (t : List Replica) × (copy_from source target i n ≡ done t)
      × (take (i + n) t ≡ take (i + n) source)
      × (length t ≡ length target)
unfolding copy_from
copy_from-take source target i zero h room same = (
  target,
  refl,
  ap (λ k. take k target) (omega arith) ∙ same ∙ ap (λ k. take k source) (omega arith),
  refl,
)
copy_from-take source target i (suc n) h room same =
    let (r, at, next) = read-take source i (omega arith) in
    let (t, copies, agree, size) =
      copy_from-take source (set target i r) (suc i) n (omega arith)
        (omega (arith, length-set target i r))
        (take-set_next i target r (omega arith) ∙ ap (λ rs. rs ++ (r ∷ [])) same ∙ sym next) in
    (
      t,
      rw (at, write-eq-set target i r (omega arith)) copies,
      ap (λ k. take k t) (omega arith) ∙ agree ∙ ap (λ k. take k source) (omega arith),
      size ∙ length-set target i r,
    )

-- The announcement of a new leader, with the servers that it copies into it.
abbrev pub announcement : Server → List Replica → Packet
announcement s servers = record zero_packet {
  type = coordinator;
  leader = record { leader_id = s.my_id; nr_servers = s.num_servers; servers = servers };
}

promoted-HasPeers : (now : ℕ) {s : Server} → HasPeers s → HasPeers (promoted now s)
promoted-HasPeers now h = record {
  list_size = h.list_size;
  servers_counted = h.servers_counted;
  servers_few = h.servers_few;
}

-- `promote_to_primary` makes the server the leader and sends its announcement, with the servers
-- that it knows, to every other one of them, and its ledger after it.
pub promote_to_primary_lem :
    (now : ℕ) {s : Server}
    → HasPeers s
    → (servers : List Replica) × (promote_to_primary now s
        ≡ done (
          promoted now s,
          to_others s.my_id (announcement s servers) (peers s)
              ++ to_others s.my_id (rep_packet s.ledger) (peers s),
        ))
      × (take (pos_part s.num_servers) servers ≡ peers s)
      × (length servers ≡ max_servers)
unfolding promote_to_primary
promote_to_primary_lem now {s} h =
    let (servers, copied, agree, size) =
      copy_from-take s.server_list zero_packet.leader.servers 0
        (min (pos_part s.num_servers) max_servers) (omega (arith, h.list_size)) (omega arith)
        refl in
    let h' = promoted-HasPeers now h in
    (
      servers,
      rw (copied, send_others-eq-to_others (announcement s servers) h', propagate_lem h') refl,
      ap (λ k. take k servers) (omega (arith, h.servers_few))
          ∙ agree
          ∙ ap (λ k. take k s.server_list) (omega (arith, h.servers_few)),
      size,
    )

-- The state of a server that follows a leader.
abbrev pub following : ℕ → ℤ → ℕ → List Replica → Server → Server
following now id n list b = record b {
  current_leader_id = id;
  current_role = replica_secundario;
  election_in_progress = false;
  num_servers = pos n;
  server_list = list;
  server_health = all_alive now;
}

-- The round of the receive loop in which a server takes up a leader and the servers that it
-- announces, and joins it.
pub record Follows (w : World) (self from : SockAddr) (b : Server) (id : ℤ) (n : ℕ)
    (known : List Replica) (pkt : Packet) : Type 0 where
  pub list : List Replica
  pub returns :
      dispatch w self pkt from b
      ≡ done (
          quiet_round
            (following w.now id n list b)
            (record { to = from; pkt = join_packet (record { id = b.my_id; addr = self }) } ∷ []))
  pub knows : take n list ≡ known
  pub list_size : length list ≡ max_servers
