-- ===== src/Server/Backups.antt =====
-- Replication between a primary and a backup: what an executed request sends, and what the receive
-- loop of a backup makes of it.
use inf01151_trabalho.Common.{
  ◌∙◌, ◌≡◌, refl, ℤ, some, List, [], ◌∷◌, ◌++◌, All, done, arith, ap, ap₂, sym, Bool-cases, false,
  inl, inr, int_eq, if◌then◌else◌, ◌<ℤ◌, int_max,
}
use inf01151_trabalho.Server.Types.{
  Replica, Packet, req, rep_confirm, replica_primario, replica_secundario, Ledger, Server, Sent,
  SockAddr, zero_packet,
}
use inf01151_trabalho.Server.Ledger.{IsValid, bank_of}
use inf01151_trabalho.Server.Bank.{Bank, Verdict, executed}
use inf01151_trabalho.Server.Replication.{rep_packet, apply_state_update, handle_replication_update}
use inf01151_trabalho.Server.Replication.Sends.{HasPeers, peers, to_others}
use inf01151_trabalho.Server.Processing.{handle_request}
use inf01151_trabalho.Server.Processing.Effects.{sends}
use inf01151_trabalho.Server.Processing.Handle.{bank_answer, reply, handle_request_refines}
use inf01151_trabalho.Server.Dispatch.{World, quiet_round, on_rep_update, dispatch}

-- The addresses of the servers with another id, in the order of the list.
unfoldable pub others : ℤ → List Replica → List SockAddr
others my_id [] = []
others my_id (r ∷ rs) = if int_eq r.id my_id then others my_id rs else r.addr ∷ others my_id rs

unfoldable pub recipients : List Sent → List SockAddr
recipients [] = []
recipients (m ∷ ms) = m.to ∷ recipients ms

-- What a backup answers to an update.
abbrev pub confirmation : Server → SockAddr → Sent
confirmation b from = record {
  to = from;
  pkt = record zero_packet {
    type = rep_confirm;
    leader = record zero_packet.leader { leader_id = b.my_id };
  };
}

pub recipients-to_others :
    (my_id : ℤ) (pkt : Packet) (rs : List Replica)
    → recipients (to_others my_id pkt rs) ≡ others my_id rs
unfolding to_others recipients others
recipients-to_others my_id pkt [] = refl
recipients-to_others my_id pkt (r ∷ rs) = ground (arith, recipients-to_others my_id pkt rs)

pub to_others-All :
    (P : Packet → Type 0) (my_id : ℤ) (pkt : Packet) (rs : List Replica)
    → P pkt
    → All (λ m. P m.pkt) (to_others my_id pkt rs)
unfolding to_others
to_others-All P my_id pkt [] p = tt
to_others-All P my_id pkt (r ∷ rs) p = elim (Bool-cases (int_eq r.id my_id)) [
  | inl own ↦ rw own (to_others-All P my_id pkt rs p)
  | inr other ↦ rw other (p, to_others-All P my_id pkt rs p)
]

-- The round of the receive loop in which a backup has taken over a ledger.
abbrev pub TakesOver : World → SockAddr → SockAddr → Server → Ledger → Packet → Type 0
TakesOver w self from b l pkt =
    dispatch w self pkt from b
    ≡ done (quiet_round (record b { ledger = l }) (confirmation b from ∷ []))

apply_state_update-backup :
    (l : Ledger) (b : Server)
    → b.current_role ≡ replica_secundario
    → apply_state_update (some (rep_packet l).rep) b ≡ record b { ledger = l }
unfolding apply_state_update
apply_state_update-backup l b backup = rw backup refl

rep_packet-TakesOver :
    (w : World) (self from : SockAddr) (l : Ledger) (b : Server)
    → b.current_role ≡ replica_secundario
    → int_eq b.my_id b.current_leader_id ≡ false
    → TakesOver w self from b l (rep_packet l)
unfolding dispatch on_rep_update handle_replication_update
rep_packet-TakesOver w self from l b backup follower = rw follower (
    ap (λ s. done (quiet_round s (confirmation b from ∷ [])))
      (apply_state_update-backup l b backup))

sends_executed :
    (p : Server) (l : Ledger) {v : Verdict}
    → v ≡ executed
    → p.current_role ≡ replica_primario
    → sends v (record p { ledger = l }) ≡ to_others p.my_id (rep_packet l) (peers p)
sends_executed p l is primary = rw (is, primary) refl

-- A transfer that a primary executes, with a well-formed ledger and list of servers and fewer than
-- `INT_MAX` transfers counted, sends its new ledger to every other server that it knows, and then the acknowledgement; a backup that handles any one of these updates has that ledger, which
-- stands for the bank after the transfer, and answers with a confirmation.
pub request_replicated :
    (w : World) (self from addr : SockAddr) (pkt : Packet) (p b : Server)
    → pkt.type ≡ req
    → IsValid p.ledger
    → HasPeers p
    → p.ledger.num_transactions <ℤ int_max
    → p.current_role ≡ replica_primario
    → (bank_answer addr pkt p).0 ≡ executed
    → b.current_role ≡ replica_secundario
    → int_eq b.my_id b.current_leader_id ≡ false
    → (l : Ledger) × (updates : List Sent) × (handle_request (some addr) (some pkt) p
        ≡ done
            (record p { ledger = l }, updates ++ reply addr pkt ((bank_of l).account addr.s_addr)))
      × (recipients updates ≡ others p.my_id (peers p))
      × All (λ m. TakesOver w self from b l m.pkt) updates
      × (bank_of l ≡ (bank_answer addr pkt p).1)
request_replicated w self from addr pkt p b is_req v known room primary is backup follower =
    let h = handle_request_refines addr pkt is_req v known room in
    (
      h.ledger,
      to_others p.my_id (rep_packet h.ledger) (peers p),
      h.returns
          ∙ ap (λ out. done (record p { ledger = h.ledger }, out))
              (ap₂ ◌++◌ (sends_executed p h.ledger is primary)
                (ap (λ (k : Bank). reply addr pkt (k.account addr.s_addr)) (sym h.bank))),
      recipients-to_others p.my_id (rep_packet h.ledger) (peers p),
      to_others-All (TakesOver w self from b h.ledger) p.my_id (rep_packet h.ledger) (peers p)
          (rep_packet-TakesOver w self from h.ledger b backup follower),
      h.bank,
    )
