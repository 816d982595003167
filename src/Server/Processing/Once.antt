-- ===== src/Server/Processing/Once.antt =====
-- `handle_request` twice: what was accepted is not done again, and what stays unchanged.
use inf01151_trabalho.Common.{
  ℕ, ◌-◌, ◌^◌, ◌≤◌, ◌≡◌, sym, some, List, pos, arith, done, ◌<ℤ◌, ◌+ℤ◌, int_max, subst,
}
use inf01151_trabalho.Server.Types.{req, Packet, Ledger, Server, Sent, SockAddr}
use inf01151_trabalho.Server.Ledger.{IsValid, bank_of}
use inf01151_trabalho.Server.Bank.{
  Verdict, table_full, duplicate, unknown_dest, query, insufficient, executed, request,
}
use inf01151_trabalho.Server.Bank.Once.{Accepted, request_again}
use inf01151_trabalho.Server.Replication.Sends.{HasPeers, HasPeers-ledger}
use inf01151_trabalho.Server.Processing.{handle_request}
use inf01151_trabalho.Server.Processing.Effects.{Counted}
use inf01151_trabalho.Server.Processing.Handle.{bank_answer, reply, handle_request_refines}

-- A request raises the counter of transactions by one at most.
pub Counted-bound :
    (v : Verdict) (value : ℕ) (l l' : Ledger)
    → Counted v value l l'
    → l.num_transactions <ℤ pos (2 ^ 31 - 2)
    → l'.num_transactions <ℤ int_max
unfolding ◌+ℤ◌
Counted-bound executed value l l' c h = ground arith
Counted-bound table_full value l l' c h = ground arith
Counted-bound duplicate value l l' c h = ground arith
Counted-bound unknown_dest value l l' c h = ground arith
Counted-bound query value l l' c h = ground arith
Counted-bound insufficient value l l' c h = ground arith

-- Once a request is accepted (a transfer done or a query noted), a request from the same address
-- under its number or a lower one, whatever it asks for, is answered from the same bank: no account
-- changes, no update goes out, and only the acknowledgement is sent.
pub handle_request_once :
    (addr : SockAddr) (pkt pkt' : Packet) {s : Server}
    → pkt.type ≡ req
    → pkt'.type ≡ req
    → IsValid s.ledger
    → HasPeers s
    → s.ledger.num_transactions <ℤ pos (2 ^ 31 - 2)
    → Accepted (bank_answer addr pkt s).0
    → pkt'.seqn ≤ pkt.seqn
    → (l : Ledger) × (l' : Ledger) × (out : List Sent) × (handle_request (some addr) (some pkt) s
        ≡ done (record s { ledger = l }, out))
      × (handle_request (some addr) (some pkt') (record s { ledger = l })
          ≡ done (record s { ledger = l' }, reply addr pkt' ((bank_of l).account addr.s_addr)))
      × (bank_of l' ≡ bank_of l)
handle_request_once addr pkt pkt' {s} is_req is_req' v peers room acc old =
    let h = handle_request_refines addr pkt is_req v peers (omega arith) in
    let room' =
      Counted-bound (bank_answer addr pkt s).0 pkt.req.value s.ledger h.ledger h.counts room in
    let h' =
      handle_request_refines addr pkt' {s = record s { ledger = h.ledger }} is_req' h.valid
        (HasPeers-ledger h.ledger peers) room' in
    let again : bank_answer addr pkt' (record s { ledger = h.ledger })
        ≡ (duplicate, bank_of h.ledger) =
      subst
        (λ b. request addr.s_addr pkt'.req.dest_addr pkt'.seqn pkt'.req.value b ≡ (duplicate, b))
        (sym h.bank)
        (request_again addr.s_addr pkt.req.dest_addr pkt.seqn pkt.req.value pkt'.req.dest_addr
          pkt'.seqn pkt'.req.value (bank_of s.ledger) acc old) in
    (h.ledger, h'.ledger, _, h.returns, rw again at h'.returns, rw again at h'.bank)
