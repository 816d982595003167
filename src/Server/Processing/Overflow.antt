-- ===== src/Server/Processing/Overflow.antt =====
-- The transfer that the counter of transfers has no room for.
use inf01151_trabalho.Common.{
  ◌∙◌, ℕ, ℤ, ◌+◌, ◌-◌, ◌^◌, ◌≡◌, ◌≢◌, refl, Option, some, set, ap, inl, inr, fault, done≢fault,
  arith, pos_part, u32, add_int, ◌+ℤ◌, int_lt, int_max, sym, ◌<ℤ◌, ◌⊎◌, ◌↔◌,
}
use inf01151_trabalho.Server.Types.{Client, req, Packet, Ledger, Server, SockAddr}
use inf01151_trabalho.Server.Ledger.{clients, IsValid, bank_of}
use inf01151_trabalho.Server.Bank.{
  Bank, Account, account_of, Verdict, table_full, duplicate, unknown_dest, query, insufficient,
  executed, verdict,
}
use inf01151_trabalho.Server.Bank.Register.{request_verdict_full, request_verdict_known}
use inf01151_trabalho.Server.Clients.Find.{find, IsFirst}
use inf01151_trabalho.Server.Clients.Register.{Located, find_or_add_client_refines}
use inf01151_trabalho.Server.Processing.{execute, settle, serve, handle_request}
use inf01151_trabalho.Server.Processing.Execute.{entry, written}
use inf01151_trabalho.Server.Replication.Sends.{HasPeers}
use inf01151_trabalho.Server.Processing.Effects.{HasRoom}
use inf01151_trabalho.Server.Processing.Settle.{Located-cases}
use inf01151_trabalho.Server.Processing.Serve.{
  bank_answer, bank_answer_lem, searched, Served, serve_answers,
}
use inf01151_trabalho.Server.Processing.Handle.{Handled, handle_request_answers}

full≢executed : table_full ≢ executed
full≢executed e = cc e

add_int_full : (n : ℤ) → ¬ (n <ℤ int_max) → add_int n 1 ≡ fault
unfolding add_int ◌+ℤ◌ int_lt
add_int_full n full = ground arith

execute_overflow :
    (source dest i j : ℕ) (pkt : Packet) (l : Ledger)
    → IsFirst source (clients l) i
    → IsFirst dest (clients l) j
    → ¬ (l.num_transactions <ℤ int_max)
    → execute i j pkt l ≡ fault
unfolding execute
execute_overflow source dest i j pkt l first_i first_j full =
    let n = pos_part l.num_clients in
    let e₁ = entry n l.client_table source i first_i in
    let c₁ : Client = record (e₁.client) {
      balance = u32 (e₁.client.balance + 2 ^ 32 - pkt.req.value);
    } in
    let w₁ = written n l.client_table source i (e₁.client) c₁ first_i e₁.at refl e₁.same in
    let t₁ = set l.client_table i c₁ in
    let first₁ = w₁.firsts dest j first_j in
    let e₂ = entry n t₁ dest j first₁ in
    let c₂ : Client = record (e₂.client) { balance = u32 (e₂.client.balance + pkt.req.value) } in
    let w₂ = written n t₁ dest j (e₂.client) c₂ first₁ e₂.at refl e₂.same in
    rw (e₁.reads, w₁.writes, e₂.reads, w₂.writes, add_int_full _ full) refl

module _ (source dest i : ℕ) (o : Option ℕ) (pkt : Packet) (s : Server)
    (first : IsFirst source (clients s.ledger) i) (located : Located dest (clients s.ledger) o)
    (full : ¬ (s.ledger.num_transactions <ℤ int_max)) where
  settle_overflow :
      (a : Account)
      → account_of (find source (clients s.ledger)) ≡ some a
      → verdict source dest pkt.seqn pkt.req.value a (account_of (find dest (clients s.ledger)))
        ≡ executed
      → settle i o pkt s ≡ fault
  unfolding settle verdict
  settle_overflow a is e = elim (Located-cases dest (clients s.ledger) o located) [
    | inl (unknown, absent) ↦ absurd (ground arith)
    | inr (j, known, first_j, c, found) ↦
        let at = entry (pos_part s.ledger.num_clients) s.ledger.client_table source i first in
        rw (at.reads, known)
          (ground
            (arith, at.found, execute_overflow source dest i j pkt s.ledger first first_j full))
  ]

-- The verdict lets the request through without a count, or there is room, or there is none.
room-cases :
    (v : Verdict) (l : Ledger) → HasRoom v l ⊎ ((v ≡ executed) × ¬ (l.num_transactions <ℤ int_max))
room-cases executed l = ground arith
room-cases table_full l = inl tt
room-cases duplicate l = inl tt
room-cases unknown_dest l = inl tt
room-cases query l = inl tt
room-cases insufficient l = inl tt

serve_overflows :
    (addr : SockAddr) (pkt : Packet) (s : Server)
    → IsValid s.ledger
    → (bank_answer addr pkt s).0 ≡ executed
    → ¬ (s.ledger.num_transactions <ℤ int_max)
    → serve addr pkt s ≡ fault
unfolding serve
serve_overflows addr pkt s v e full =
    let r = find_or_add_client_refines addr.s_addr v in
    let (o, dest, located) = searched pkt.req.dest_addr r.valid in
    let is_executed = sym (ap (λ (a : Verdict × Bank). a.0) (bank_answer_lem addr pkt s r)) ∙ e in
    elim (Located-cases addr.s_addr (clients r.ledger) r.found r.located) [
      | inl (none_left, absent) ↦ absurd (
          full≢executed (
            sym (
              request_verdict_full addr.s_addr pkt.req.dest_addr pkt.seqn pkt.req.value
                (bank_of r.ledger) (ap account_of absent))
            ∙ is_executed))
      | inr (i, found, first, c, is) ↦
          rw
            (
              r.returns,
              found,
              dest,
              settle_overflow addr.s_addr pkt.req.dest_addr i o pkt (record s { ledger = r.ledger })
                  first located (rw r.num_transactions_kept full) _ (ap account_of is)
                  (sym (
                      request_verdict_known addr.s_addr pkt.req.dest_addr pkt.seqn pkt.req.value
                        (bank_of r.ledger) (ap account_of is))
                    ∙ is_executed),
            )
            refl
    ]

overflows :
    (addr : SockAddr) (pkt : Packet) (s : Server)
    → pkt.type ≡ req
    → serve addr pkt s ≡ fault
    → handle_request (some addr) (some pkt) s ≡ fault
unfolding handle_request
overflows addr pkt s is_request e = rw (is_request, e) refl

-- `serve` returns, or it overflows.
pub serve-cases :
    (addr : SockAddr) (pkt : Packet) {s : Server}
    → IsValid s.ledger
    → HasPeers s
    → Served addr pkt s ⊎ (serve addr pkt s ≡ fault)
serve-cases addr pkt {s} v peers = elim (room-cases (bank_answer addr pkt s).0 s.ledger) [
  | inl room ↦ inl (serve_answers addr pkt v peers room)
  | inr h ↦ inr (serve_overflows addr pkt s v h.0 h.1)
]

-- The whole handler returns, or it overflows.
pub handle_request-cases :
    (addr : SockAddr) (pkt : Packet) {s : Server}
    → pkt.type ≡ req
    → IsValid s.ledger
    → HasPeers s
    → Handled addr pkt s ⊎ (handle_request (some addr) (some pkt) s ≡ fault)
handle_request-cases addr pkt {s} is_request v peers =
    elim (room-cases (bank_answer addr pkt s).0 s.ledger) [
      | inl room ↦ inl (handle_request_answers addr pkt is_request v peers room)
      | inr h ↦ inr (overflows addr pkt s is_request (serve_overflows addr pkt s v h.0 h.1))
    ]

-- `handle_request` on a REQ, at a server with a well-formed ledger and list of servers, leaves
-- defined behaviour just where the bank executes the transfer and the counter of transfers is not
-- below `INT_MAX`; in every other case it returns.
pub handle_request-fault :
    (addr : SockAddr) (pkt : Packet) {s : Server}
    → pkt.type ≡ req
    → IsValid s.ledger
    → HasPeers s
    → (handle_request (some addr) (some pkt) s ≡ fault)
      ↔ (((bank_answer addr pkt s).0 ≡ executed) × ¬ (s.ledger.num_transactions <ℤ int_max))
handle_request-fault addr pkt {s} is_request v peers = (
  λ faults. elim (room-cases (bank_answer addr pkt s).0 s.ledger) [
    | inl room ↦ absurd (
        done≢fault (sym (handle_request_answers addr pkt is_request v peers room).returns ∙ faults))
    | inr h ↦ h
  ],
  λ h. overflows addr pkt s is_request (serve_overflows addr pkt s v h.0 h.1),
)
