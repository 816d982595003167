-- ===== src/Server/Processing/Handle.antt =====
-- `handle_request` as a whole: it does to the table what `Bank.request` does to the bank.
use inf01151_trabalho.Common.{
  ◌∙◌, ℕ, ◌≡◌, refl, Option, none, some, List, [], ◌∷◌, ◌++◌, pos_part, ap, sym, inl, inr, done,
  ◌<ℤ◌, int_max, true,
}
use mathlib.Core.List.{append-nil}
use inf01151_trabalho.Server.Types.{
  Ledger, req, req_ack, Packet, Server, Sent, SockAddr, zero_packet,
}
use inf01151_trabalho.Server.Ledger.{clients, IsValid, bank_of}
use inf01151_trabalho.Server.Bank.{Bank, Account, account_of}
use inf01151_trabalho.Server.Clients.Find.{IsFirst}
use inf01151_trabalho.Server.Replication.Sends.{HasPeers}
use inf01151_trabalho.Server.Processing.{is_req, ack_packet, handle_request}
use inf01151_trabalho.Server.Processing.Execute.{entry}
use inf01151_trabalho.Server.Processing.Effects.{sends, HasRoom, HasRoom-all, Counted}
use inf01151_trabalho.Server.Processing.Settle.{Located-cases}
pub use inf01151_trabalho.Server.Processing.Serve.{bank_answer}
use inf01151_trabalho.Server.Processing.Serve.{Served, serve_answers}

-- The acknowledgement of a request to the owner of an account.
abbrev pub ack_of : Packet → Account → Packet
ack_of pkt a = record zero_packet {
  type = req_ack;
  seqn = pkt.seqn;
  ack = record { seqn = a.last_req_id; new_balance = a.balance };
}

abbrev pub reply : SockAddr → Packet → Option Account → List Sent
reply addr pkt none = []
reply addr pkt (some a) = record { to = addr; pkt = ack_of pkt a } ∷ []

-- `handle_request` returns, with a well-formed ledger that stands for the bank after the request;
-- it counts the transfer, if the verdict is one; it sends what the verdict wants and then the
-- acknowledgement, which shows the account of the source.
pub record Handled (addr : SockAddr) (pkt : Packet) (s : Server) : Type 0 where
  pub ledger : Ledger
  pub returns :
      handle_request (some addr) (some pkt) s
      ≡ done (
        record s { ledger = ledger },
        sends (bank_answer addr pkt s).0 (record s { ledger = ledger })
            ++ reply addr pkt ((bank_answer addr pkt s).1.account addr.s_addr),
      )
  pub valid : IsValid ledger
  pub bank : bank_of ledger ≡ (bank_answer addr pkt s).1
  pub counts : Counted (bank_answer addr pkt s).0 pkt.req.value s.ledger ledger

-- The acknowledgement shows the account of the entry that it reads.
pub ack_packet_reads :
    (addr : SockAddr) (pkt : Packet) (l : Ledger) (i : ℕ)
    → IsFirst addr.s_addr (clients l) i
    → (a : Account) × ((bank_of l).account addr.s_addr ≡ some a)
      × (ack_packet i pkt l ≡ done (ack_of pkt a))
unfolding ack_packet
ack_packet_reads addr pkt l i first =
    let e = entry (pos_part l.num_clients) l.client_table addr.s_addr i first in
    (
      record { last_req_id = e.client.last_req_id; balance = e.client.balance },
      ap account_of e.found,
      rw e.reads refl,
    )

handle-Served :
    (addr : SockAddr) (pkt : Packet) (s : Server)
    → pkt.type ≡ req
    → Served addr pkt s
    → Handled addr pkt s
unfolding handle_request
handle-Served addr pkt s is_request sv =
    let is_true : is_req pkt.type ≡ true = ap is_req is_request in
    elim (Located-cases addr.s_addr (clients sv.ledger) sv.source sv.located) [
      | inl (nowhere, absent) ↦
          let out = sends (bank_answer addr pkt s).0 (record s { ledger = sv.ledger }) in
          Handled-by (ap account_of absent) (
            rw (is_true, sv.returns, nowhere)
              (ap (λ (ms : List Sent). done (record s { ledger = sv.ledger }, ms))
                (sym (append-nil out))))
      | inr (i, found, first, _, _) ↦
          let (a, account, reads) = ack_packet_reads addr pkt sv.ledger i first in
          Handled-by account (rw (is_true, sv.returns, found, reads) refl)
    ]
  where
    Handled-by :
        {o : Option Account}
        → (bank_of sv.ledger).account addr.s_addr ≡ o
        → handle_request (some addr) (some pkt) s
          ≡ done (
            record s { ledger = sv.ledger },
            sends (bank_answer addr pkt s).0 (record s { ledger = sv.ledger }) ++ reply addr pkt o,
          )
        → Handled addr pkt s
    Handled-by account returns = record {
      ledger = sv.ledger;
      returns =
          returns
          ∙ ap
              (λ (o : Option Account). done (
                record s { ledger = sv.ledger },
                sends (bank_answer addr pkt s).0 (record s { ledger = sv.ledger })
                    ++ reply addr pkt o,
              ))
              (sym account ∙ ap (λ (b : Bank). b.account addr.s_addr) sv.bank);
      valid = sv.valid;
      bank = sv.bank;
      counts = sv.counts;
    }

-- The same where the counter of transfers need have room for an executed transfer only.
pub handle_request_answers :
    (addr : SockAddr) (pkt : Packet) {s : Server}
    → pkt.type ≡ req
    → IsValid s.ledger
    → HasPeers s
    → HasRoom (bank_answer addr pkt s).0 s.ledger
    → Handled addr pkt s
handle_request_answers addr pkt {s} is_request v peers room =
    handle-Served addr pkt s is_request (serve_answers addr pkt v peers room)

-- `handle_request` on a REQ, at a server with a well-formed ledger and list of servers that has not
-- counted `INT_MAX` transfers, returns; it does to the table what `Bank.request` does to the bank,
-- whatever the verdict, sends what the verdict wants and the acknowledgement, counts the transfer,
-- and keeps the ledger well formed.
pub handle_request_refines :
    (addr : SockAddr) (pkt : Packet) {s : Server}
    → pkt.type ≡ req
    → IsValid s.ledger
    → HasPeers s
    → s.ledger.num_transactions <ℤ int_max
    → Handled addr pkt s
handle_request_refines addr pkt {s} is_request v peers room =
    handle_request_answers addr pkt is_request v peers
      (HasRoom-all (bank_answer addr pkt s).0 s.ledger room)
