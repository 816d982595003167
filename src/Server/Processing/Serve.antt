-- ===== src/Server/Processing/Serve.antt =====
-- `serve`, what `handle_request` does under the mutex: the bank's request on the table.
use inf01151_trabalho.Common.{◌∙◌, ℕ, ◌≡◌, refl, Option, none, some, ap, sym, subst, inl, inr, done}
use inf01151_trabalho.Server.Types.{Ledger, Packet, Server, SockAddr}
use inf01151_trabalho.Server.Ledger.{clients, IsValid, bank_of}
use inf01151_trabalho.Server.Bank
use inf01151_trabalho.Server.Bank.{
  Bank, Account, account_of, Verdict, table_full, duplicate, unknown_dest, query, insufficient,
  executed, verdict, request, request_verdict,
}
use inf01151_trabalho.Server.Bank.Register.{request_verdict_full, request_verdict_known}
use inf01151_trabalho.Server.Clients.{find_client_by_ip}
use inf01151_trabalho.Server.Clients.Find.{find, IsFirst, IsFirst-find}
use inf01151_trabalho.Server.Clients.Lookup.{find_client_by_ip-cases}
use inf01151_trabalho.Server.Clients.Register.{Located, Registered, find_or_add_client_refines}
use inf01151_trabalho.Server.Replication.Sends.{HasPeers, HasPeers-ledger}
use inf01151_trabalho.Server.Processing.{serve}
use inf01151_trabalho.Server.Processing.Effects.{sends, HasRoom, Counted, Counted-from}
use inf01151_trabalho.Server.Processing.Settle.{Settled, settle_by, Located-cases}

-- The bank's answer to the request in a packet.
abbrev pub bank_answer : SockAddr → Packet → Server → Verdict × Bank
bank_answer addr pkt s =
    request addr.s_addr pkt.req.dest_addr pkt.seqn pkt.req.value (bank_of s.ledger)

-- `serve` returns, with a well-formed ledger that stands for the bank after the request and the
-- place of the source in it; it counts the transfer, if the verdict is one, sends what the verdict
-- wants, and leaves every entry in its place.
pub record Served (addr : SockAddr) (pkt : Packet) (s : Server) : Type 0 where
  pub source : Option ℕ
  pub ledger : Ledger
  pub returns :
      serve addr pkt s
      ≡ done (
        source,
        record s { ledger = ledger },
        sends (bank_answer addr pkt s).0 (record s { ledger = ledger }),
      )
  pub valid : IsValid ledger
  pub bank : bank_of ledger ≡ (bank_answer addr pkt s).1
  pub counts : Counted (bank_answer addr pkt s).0 pkt.req.value s.ledger ledger
  pub located : Located addr.s_addr (clients ledger) source
  pub firsts : (ip m : ℕ) → IsFirst ip (clients s.ledger) m → IsFirst ip (clients ledger) m

-- What a search for the destination finds.
pub searched :
    (ip : ℕ) {l : Ledger}
    → IsValid l
    → (o : Option ℕ) × (find_client_by_ip ip l ≡ done o) × Located ip (clients l) o
searched ip v = elim (find_client_by_ip-cases ip v) [
  | inl (e, absent) ↦ (none, e, absent)
  | inr (m, e, first) ↦ (some m, e, first)
]

module _ (addr : SockAddr) (pkt : Packet) (s : Server) (r : Registered addr.s_addr s.ledger) where
  -- The verdict on the request, from the bank where the source is registered.
  abbrev pub answered : Verdict
  answered = request_verdict addr.s_addr pkt.req.dest_addr pkt.seqn pkt.req.value (bank_of r.ledger)

  pub bank_answer_lem : bank_answer addr pkt s ≡ (
    answered,
    Bank.settle addr.s_addr pkt.req.dest_addr pkt.seqn pkt.req.value answered (bank_of r.ledger),
  )
  unfolding request
  bank_answer_lem = rw (← r.bank) refl

  Served-by :
      (v : Verdict) (b : Bank) (source : Option ℕ) (l : Ledger)
      → bank_answer addr pkt s ≡ (v, b)
      → serve addr pkt s ≡ done (source, record s { ledger = l }, sends v (record s { ledger = l }))
      → IsValid l
      → bank_of l ≡ b
      → Counted v pkt.req.value s.ledger l
      → Located addr.s_addr (clients l) source
      → ((ip m : ℕ) → IsFirst ip (clients r.ledger) m → IsFirst ip (clients l) m)
      → Served addr pkt s
  Served-by v b source l e returns valid bank counts located firsts = record {
    source = source;
    ledger = l;
    returns = rw e returns;
    valid = valid;
    bank = rw e bank;
    counts = rw e counts;
    located = located;
    firsts = λ ip m h. firsts ip m (r.firsts ip m h);
  }

  -- A full table: the request is dropped.
  serve_full : r.found ≡ none → find addr.s_addr (clients r.ledger) ≡ none → Served addr pkt s
  unfolding serve Bank.settle
  serve_full full absent =
      let (o, dest, located) = searched pkt.req.dest_addr r.valid in
      let v : answered ≡ table_full =
        request_verdict_full addr.s_addr pkt.req.dest_addr pkt.seqn pkt.req.value (bank_of r.ledger)
          (ap account_of absent) in
      Served-by table_full (bank_of r.ledger) none r.ledger (bank_answer_lem ∙ rw v)
        (rw (r.returns, full, dest)) r.valid refl
        (r.num_transactions_kept, r.total_transferred_kept) absent (λ ip m h. h)

  serve-Settled :
      (i : ℕ) (o : Option ℕ) (v : Verdict)
      → r.found ≡ some i
      → IsFirst addr.s_addr (clients r.ledger) i
      → find_client_by_ip pkt.req.dest_addr r.ledger ≡ done o
      → answered ≡ v
      → Settled addr.s_addr pkt.req.dest_addr i o v pkt (record s { ledger = r.ledger })
      → Served addr pkt s
  unfolding serve
  serve-Settled i o v found first dest is st =
      Served-by v _ (some i) st.ledger (bank_answer_lem ∙ rw is)
        (rw (r.returns, found, dest, st.returns)) st.valid st.bank
        (Counted-from v pkt.req.value s.ledger r.ledger st.ledger
          (r.num_transactions_kept, r.total_transferred_kept) st.counts)
        (st.firsts addr.s_addr i first) st.firsts

  serve_found :
      HasPeers s
      → HasRoom answered r.ledger
      → (i : ℕ) → r.found ≡ some i
      → IsFirst addr.s_addr (clients r.ledger) i
      → Served addr pkt s
  serve_found peers room i found first =
      let (o, dest, located) = searched pkt.req.dest_addr r.valid in
      let (c, _, is, _) = IsFirst-find addr.s_addr (clients r.ledger) i first in
      let v =
        request_verdict_known addr.s_addr pkt.req.dest_addr pkt.seqn pkt.req.value
          (bank_of r.ledger) (ap account_of is) in
      serve-Settled i o answered found first dest refl (
        settle_by addr.s_addr pkt.req.dest_addr i o pkt r.valid (HasPeers-ledger r.ledger peers)
          first located _ (ap account_of is) answered room (sym v))

  -- The registration leaves the counter of transfers alone.
  room_registered : (v : Verdict) → HasRoom v s.ledger → HasRoom v r.ledger
  room_registered executed room = rw r.num_transactions_kept room
  room_registered table_full room = tt
  room_registered duplicate room = tt
  room_registered unknown_dest room = tt
  room_registered query room = tt
  room_registered insufficient room = tt

-- Where the counter of transfers has room for the verdict.
pub serve_answers :
    (addr : SockAddr) (pkt : Packet) {s : Server}
    → IsValid s.ledger
    → HasPeers s
    → HasRoom (bank_answer addr pkt s).0 s.ledger
    → Served addr pkt s
serve_answers addr pkt {s} v peers room =
    let r = find_or_add_client_refines addr.s_addr v in
    elim (Located-cases addr.s_addr (clients r.ledger) r.found r.located) [
      | inl (full, absent) ↦ serve_full addr pkt s r full absent
      | inr (i, found, first, _, _) ↦
          serve_found addr pkt s r peers
            (room_registered addr pkt s r (answered addr pkt s r) (
              subst (λ (a : Verdict × Bank). HasRoom a.0 s.ledger) (bank_answer_lem addr pkt s r)
                room))
            i found first
    ]
