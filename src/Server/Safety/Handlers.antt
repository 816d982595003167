-- ===== src/Server/Safety/Handlers.antt =====
-- What the receive loop does with each type of packet runs to its end and keeps a server well formed.
use inf01151_trabalho.Common.{
  ℕ, zero, suc, ◌+◌, ◌≤◌, ℤ, pos, pos_part, Option, none, some, List, [], ◌∷◌, length, done, arith,
  Bool-cases, inl, inr, int_eq, int_lt, ◌||◌,
}
use inf01151_trabalho.Server.Types.{
  Replica, Packet, Role, replica_primario, replica_secundario, Ledger, Server, SockAddr,
}
use inf01151_trabalho.Server.Ledger.{IsValid, empty_ledger-IsValid}
use inf01151_trabalho.Server.Replication.Sends.{HasPeers-ledger}
use inf01151_trabalho.Server.Startup.{join_packet}
use inf01151_trabalho.Server.Peers.{add_peer}
use inf01151_trabalho.Server.Peers.Known.{add_peer_refines}
use inf01151_trabalho.Server.Clients.Register.{find_or_add_client_refines}
use inf01151_trabalho.Server.Replication.{handle_replication_update, apply_state_update}
use inf01151_trabalho.Server.Discovery.{
  SendResult, sent, would_block, failed, Discovery, replied, exited, handle_discovery,
}
use inf01151_trabalho.Server.Dispatch.{
  World, leader_packet, announce_from, on_find_leader, on_server_join, on_coordinator,
  on_rep_update,
}
use inf01151_trabalho.Server.Safety.{
  IsSafe, IsGood, AllGood, SafeOut, Runs, Runs-bind, Runs-done, leader_id_good, ledger_of,
}
use inf01151_trabalho.Server.Safety.Loops.{read-Runs}
use inf01151_trabalho.Server.Safety.Elections.{
  KeepsSafe, start_election-Runs, handle_coordinator_message-Runs, rep_packet-IsGood,
}
use inf01151_trabalho.Server.Safety.Heartbeat.{reset_health_timers-IsSafe}

pub add_peer-Runs :
    (id : ℤ) (addr : SockAddr) {s : Server} → IsSafe s → Runs IsSafe (add_peer id addr s)
add_peer-Runs id addr {s} safe =
    let added = add_peer_refines id addr safe.has_peers in
    rw added.returns
      (record { has_peers = added.has_peers; health_size = safe.health_size; valid = safe.valid })

announce_from-Runs :
    (list : List Replica) (my_id backup_id : ℤ) (pkt : Packet) (i n : ℕ)
    → i + n ≤ length list
    → IsGood pkt
    → Runs AllGood (announce_from list my_id backup_id pkt i n)
unfolding announce_from
announce_from-Runs list my_id backup_id pkt i zero h g = tt
announce_from-Runs list my_id backup_id pkt i (suc n) h g =
    let (r, at) = read-Runs list i (omega arith) in
    let (out, e, good) =
      Runs-done AllGood (announce_from list my_id backup_id pkt (suc i) n)
        (announce_from-Runs list my_id backup_id pkt (suc i) n (omega arith) g) in
    elim (Bool-cases (int_eq r.id my_id || int_eq r.id backup_id)) [
      | inl skipped ↦ rw (at, e, skipped) good
      | inr told ↦ rw (at, e, told) (g, good)
    ]

leader_packet-IsGood : {s : Server} → IsSafe s → IsGood (leader_packet s)
leader_packet-IsGood safe = record {
  good_leader = record {
    info_size = safe.has_peers.list_size;
    info_counted = safe.has_peers.servers_counted;
    info_few = safe.has_peers.servers_few;
  };
  good_rep = empty_ledger-IsValid;
}

pub on_find_leader-Runs :
    (pkt : Packet) (from : SockAddr) {s : Server}
    → IsSafe s
    → Runs SafeOut (on_find_leader pkt from s)
unfolding on_find_leader
on_find_leader-Runs pkt from {s} safe = elim (Bool-cases (int_eq s.my_id s.current_leader_id)) [
  | inr follower ↦ rw follower (safe, tt)
  | inl leads ↦ rw leads (
      Runs-bind IsSafe SafeOut _ _ (add_peer-Runs pkt.new_server.id from safe) (λ s' safe'.
        Runs-bind AllGood SafeOut _ _
          (announce_from-Runs s'.server_list s'.my_id pkt.new_server.id (leader_packet s') 0
            (pos_part s'.num_servers)
            (omega (arith, safe'.has_peers.list_size, safe'.has_peers.servers_few))
            (leader_packet-IsGood safe'))
          (λ out good. (safe', (leader_packet-IsGood safe', (rep_packet-IsGood safe', good))))))
]

pub on_server_join-Runs :
    (pkt : Packet) (from : SockAddr) {s : Server}
    → IsSafe s
    → Runs IsSafe (on_server_join pkt from s)
unfolding on_server_join
on_server_join-Runs pkt from {s} safe = elim (Bool-cases (int_eq s.my_id s.current_leader_id)) [
  | inr follower ↦ rw follower safe
  | inl leads ↦ rw leads (add_peer-Runs pkt.new_server.id from safe)
]

-- A follower joins the leader.
join-good :
    (r : Role) (me : Replica) (to : SockAddr)
    → AllGood (elim r [
      | replica_primario ↦ []
      | replica_secundario ↦ record { to = to; pkt = join_packet me } ∷ []
    ])
join-good replica_primario me to = tt
join-good replica_secundario me to =
    (record { good_leader = leader_id_good (pos 0); good_rep = empty_ledger-IsValid }, tt)

pub on_coordinator-Runs :
    (w : World) (self : SockAddr) (pkt : Packet) (from : SockAddr) {s : Server}
    → KeepsSafe w.sleep
    → IsGood pkt
    → IsSafe s
    → Runs SafeOut (on_coordinator w self pkt from s)
unfolding on_coordinator
on_coordinator-Runs w self pkt from {s} keeps good safe =
    elim (Bool-cases (int_lt pkt.leader.leader_id s.my_id)) [
      | inl lower ↦ rw lower (start_election-Runs w.reaches w.sleep w.now keeps safe)
      | inr higher ↦ rw higher (
          Runs-bind IsSafe SafeOut _ _ (handle_coordinator_message-Runs w.now pkt good safe)
            (λ s' safe'. (reset_health_timers-IsSafe w.now safe', join-good _ _ from)))
    ]

-- The ledger of a well-formed message, or the server's own.
applied-IsSafe :
    (pkt : Packet) {s : Server}
    → IsGood pkt
    → IsSafe s
    → IsSafe (apply_state_update (some pkt.rep) s)
unfolding apply_state_update
applied-IsSafe pkt {s} good safe =
    elim s.current_role
      as (λ (r : Role). IsSafe (elim r [
        | replica_primario ↦ s
        | replica_secundario ↦ record s { ledger = ledger_of pkt.rep }
      ])) [
        | replica_primario ↦ safe
        | replica_secundario ↦ record {
          has_peers = HasPeers-ledger (ledger_of pkt.rep) safe.has_peers;
          health_size = safe.health_size;
          valid = good.good_rep;
        }
      ]

pub on_rep_update-SafeOut :
    (pkt : Packet) (from : SockAddr) {s : Server}
    → IsGood pkt
    → IsSafe s
    → SafeOut (on_rep_update pkt from s)
unfolding on_rep_update handle_replication_update
on_rep_update-SafeOut pkt from {s} good safe =
    elim (Bool-cases (int_eq s.my_id s.current_leader_id)) [
      | inl leads ↦ rw leads (safe, tt)
      | inr follower ↦ rw follower (
        applied-IsSafe pkt good safe,
        (record { good_leader = leader_id_good s.my_id; good_rep = empty_ledger-IsValid }, tt),
      )
    ]

ledger_set-IsSafe :
    {s : Server} (l : Ledger) → IsValid l → IsSafe s → IsSafe (record s { ledger = l })
ledger_set-IsSafe l v safe = record {
  has_peers = HasPeers-ledger l safe.has_peers;
  health_size = safe.health_size;
  valid = v;
}

pub handle_discovery-Runs :
    (ip : Option (List ℕ)) (result : SendResult) (from : SockAddr) {s : Server}
    → IsSafe s
    → Runs (λ r. IsSafe r.0) (handle_discovery ip result from s)
unfolding handle_discovery
handle_discovery-Runs none result from {s} safe =
    elim (Bool-cases (int_eq s.my_id s.current_leader_id)) [
      | inl leads ↦ rw leads safe
      | inr follower ↦ rw follower safe
    ]
handle_discovery-Runs (some text) result from {s} safe =
    let registered = find_or_add_client_refines from.s_addr safe.valid in
    elim (Bool-cases (int_eq s.my_id s.current_leader_id)) [
      | inr follower ↦ rw follower safe
      | inl leads ↦
          rw (leads, registered.returns)
            (answered result (ledger_set-IsSafe registered.ledger registered.valid safe))
    ]
  where
    answered :
        (result : SendResult) {s' : Server}
        → IsSafe s'
        → Runs
            (λ (r : Server × Discovery). IsSafe r.0)
            (elim result [
              | sent ↦ done (s', replied from text)
              | would_block ↦ done (s', replied from text)
              | failed ↦ done (s', exited)
            ])
    answered sent h = h
    answered would_block h = h
    answered failed h = h
