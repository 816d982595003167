-- ===== src/Exchange/Rounds.antt =====
-- A command after an acknowledgement, and the end of the numbers.
use inf01151_trabalho.Common.{
  ℕ, ◌+◌, ◌-◌, ◌^◌, ◌<◌, ◌≡◌, ◌≢◌, refl, ◌∙◌, ap, sym, some, arith, u32, List, [], ◌∷◌, ◌++◌, pos,
  ◌<ℤ◌, done,
}
use inf01151_trabalho.Client.Types as Client
use inf01151_trabalho.Client.Sender.{received, request_packet, send_command}
use inf01151_trabalho.Server.Types as Wire
use inf01151_trabalho.Server.Types.{Ledger, Sent, Server, SockAddr}
use inf01151_trabalho.Server.Ledger.{IsValid, bank_of}
use inf01151_trabalho.Server.Bank.{
  Account, Bank, Verdict, duplicate, verdict, request_verdict, request,
}
use inf01151_trabalho.Server.Bank.Register.{register_known, request_verdict_known}
use inf01151_trabalho.Server.Bank.Once.{request_duplicate}
use inf01151_trabalho.Server.Replication.Sends.{HasPeers, HasPeers-ledger}
use inf01151_trabalho.Server.Bank.Last.{request_keeps}
use inf01151_trabalho.Server.Processing.{handle_request}
use inf01151_trabalho.Server.Processing.Once.{Counted-bound}
use inf01151_trabalho.Server.Processing.Handle.{
  bank_answer, ack_of, Handled, handle_request_answers, handle_request_refines,
}
use inf01151_trabalho.Exchange.{to_client, to_server}

-- A number above the last is no duplicate.
fresh_verdict :
    (source dest seqn value : ℕ) (b : Bank) {a : Account}
    → b.account source ≡ some a
    → a.last_req_id < seqn
    → (request source dest seqn value b).0 ≢ duplicate
unfolding request verdict
fresh_verdict source dest seqn value b {a} known above e =
    let is : (request source dest seqn value b).0
        ≡ verdict source dest seqn value a (b.account dest) =
      ap (λ b'. request_verdict source dest seqn value b') (register_known source b known)
      ∙ request_verdict_known source dest seqn value b known in
    absurd (ground (arith, sym is ∙ e))

-- The packet of the client's next command, once it has heard an acknowledgement.
abbrev pub next_request : Client.Requisicao → Client.Requisicao → ℕ → Wire.Packet → Wire.Packet
next_request command command' n ack =
    to_server (request_packet (send_command (received (to_client ack)) command n).0 command')

-- A request of a registered client is answered with an acknowledgement, and the client that hears it
-- sends its next command under a number that `handle_request`, called on it with no other request in
-- between, does not take for a duplicate: that call does to the table what the bank does for a
-- request with another verdict. The ledger and the list of servers are to be well formed, with room
-- for two more transfers in the counter, and the numbers of the account and of the request below
-- the highest of `uint32_t`.
pub acknowledged_fresh :
    (addr : SockAddr) (pkt : Wire.Packet) {s : Server} (a : Account)
    (command command' : Client.Requisicao) (n : ℕ)
    → pkt.type ≡ Wire.req
    → IsValid s.ledger
    → HasPeers s
    → s.ledger.num_transactions <ℤ pos (2 ^ 31 - 2)
    → (bank_of s.ledger).account addr.s_addr ≡ some a
    → a.last_req_id < 2 ^ 32 - 1
    → pkt.seqn < 2 ^ 32 - 1
    → (ack : Wire.Packet) × (l : Ledger) × (l' : Ledger) × (updates : List Sent) × (out : List Sent)
      × (handle_request (some addr) (some pkt) s
          ≡ done (record s { ledger = l }, updates ++ (record { to = addr; pkt = ack } ∷ [])))
      × (handle_request
            (some addr)
            (some (next_request command command' n ack))
            (record s { ledger = l })
          ≡ done (record s { ledger = l' }, out))
      × (bank_of l'
          ≡ (bank_answer addr (next_request command command' n ack) (record s { ledger = l })).1)
      × ((bank_answer addr (next_request command command' n ack) (record s { ledger = l })).0
          ≢ duplicate)
unfolding send_command
acknowledged_fresh addr pkt {s} a command command' n is_request v peers room known low low_seqn =
    let h = handle_request_refines addr pkt is_request v peers (omega arith) in
    let (a', kept, low') =
      request_keeps addr.s_addr pkt.req.dest_addr pkt.seqn pkt.req.value (bank_of s.ledger)
        (2 ^ 32 - 1) known low low_seqn in
    let room' =
      Counted-bound (bank_answer addr pkt s).0 pkt.req.value s.ledger h.ledger h.counts room in
    let pkt' = next_request command command' n (ack_of pkt a') in
    let h' =
      handle_request_refines addr pkt' {s = record s { ledger = h.ledger }} refl h.valid
        (HasPeers-ledger h.ledger peers) room' in
    let account = ap (λ (b : Bank). b.account addr.s_addr) h.bank ∙ kept in
    (
      ack_of pkt a',
      h.ledger,
      h'.ledger,
      _,
      _,
      rw kept at h.returns,
      h'.returns,
      h'.bank,
      fresh_verdict addr.s_addr command'.dest_addr (u32 (a'.last_req_id + 1)) command'.value
          (bank_of h.ledger) account (omega (arith, low')),
    )

-- Once the highest number of `uint32_t` is noted for an address, every request from it is answered
-- as a duplicate: `handle_request` returns, no account changes, and the acknowledgement shows that
-- number, after which the client's next number is 0.
pub numbers_end :
    (addr : SockAddr) (pkt : Wire.Packet) {s : Server} (a : Account) (command : Client.Requisicao)
    (n : ℕ)
    → pkt.type ≡ Wire.req
    → pkt.seqn < 2 ^ 32
    → IsValid s.ledger
    → HasPeers s
    → (bank_of s.ledger).account addr.s_addr ≡ some a
    → a.last_req_id ≡ 2 ^ 32 - 1
    → (h : Handled addr pkt s) × (bank_of h.ledger ≡ bank_of s.ledger)
      × ((send_command (received (to_client (ack_of pkt a))) command n).0 ≡ 0)
unfolding send_command
numbers_end addr pkt {s} a command n is_request u32_number v peers known last =
    let again : bank_answer addr pkt s ≡ (duplicate, bank_of s.ledger) =
      request_duplicate addr.s_addr pkt.req.dest_addr pkt.seqn pkt.req.value (bank_of s.ledger)
        known (omega arith) in
    let h = handle_request_answers addr pkt is_request v peers (rw again tt) in
    (h, h.bank ∙ ap (λ (r : Verdict × Bank). r.1) again, rw last refl)
