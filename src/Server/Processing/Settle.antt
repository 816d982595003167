-- ===== src/Server/Processing/Settle.antt =====
-- The tests on a request, from a found source on: each verdict, and its effect.
use inf01151_trabalho.Common.{
  ◌∙◌, ℕ, ◌≤◌, ◌≡◌, refl, Option, none, some, List, [], pos_part, ap, sym, arith, set, take, done,
  ◌<ℤ◌, ◌⊎◌, inl, inr, int_max,
}
use mathlib.Core.Path.{fun_ext}
use inf01151_trabalho.Server.Types.{Client, Ledger, Packet, Server}
use inf01151_trabalho.Server.Ledger.{clients, IsValid, bank_of}
use inf01151_trabalho.Server.Bank
use inf01151_trabalho.Server.Bank.{
  Bank, Account, account_of, post, Verdict, table_full, duplicate, unknown_dest, query,
  insufficient, executed, verdict,
}
use inf01151_trabalho.Server.Clients.Find.{find, IsFirst, IsFirst-find}
use inf01151_trabalho.Server.Clients.Register.{Located}
use inf01151_trabalho.Server.Replication.Sends.{
  HasPeers, HasPeers-ledger, replicated, propagate_lem,
}
use inf01151_trabalho.Server.Processing.{settle}
use inf01151_trabalho.Server.Processing.Execute.{
  Entry, entry, Written, written, Executed, execute_refines,
}
use inf01151_trabalho.Server.Processing.Effects.{sends, Counted, HasRoom}

-- What `settle` has done: it ends by the verdict, and changes nothing but the ledger.
pub record Settled (source dest i : ℕ) (o : Option ℕ) (v : Verdict) (pkt : Packet) (s : Server)
    : Type 0 where
  pub ledger : Ledger
  pub returns :
      settle i o pkt s ≡ done (record s { ledger = ledger }, sends v (record s { ledger = ledger }))
  pub valid : IsValid ledger
  pub bank : bank_of ledger ≡ Bank.settle source dest pkt.seqn pkt.req.value v (bank_of s.ledger)
  pub counts : Counted v pkt.req.value s.ledger ledger
  pub firsts : (ip m : ℕ) → IsFirst ip (clients s.ledger) m → IsFirst ip (clients ledger) m

pub Located-cases :
    (ip : ℕ) (xs : List Client) (o : Option ℕ)
    → Located ip xs o
    → ((o ≡ none) × (find ip xs ≡ none))
      ⊎ ((j : ℕ) × (o ≡ some j) × IsFirst ip xs j × (c : Client) × (find ip xs ≡ some c))
Located-cases ip xs none absent = inl (refl, absent)
Located-cases ip xs (some j) first =
    let (c, at, found, same) = IsFirst-find ip xs j first in inr (j, refl, first, c, found)

-- A query notes the request at the source.
module _ (source dest i : ℕ) (pkt : Packet) {l : Ledger} (v : IsValid l)
    (first : IsFirst source (clients l) i) where
  abbrev at_source : Entry (pos_part l.num_clients) l.client_table source i
  at_source = entry (pos_part l.num_clients) l.client_table source i first

  abbrev noted : Client
  noted = record (at_source.client) { last_req_id = pkt.seqn }

  noted-Written : Written (pos_part l.num_clients) l.client_table source i (at_source.client) noted
  noted-Written =
      written _ l.client_table source i (at_source.client) noted first at_source.at refl
        at_source.same

  abbrev noted_ledger : Ledger
  noted_ledger = record l { client_table = set l.client_table i noted }

  noted-IsValid : IsValid noted_ledger
  noted-IsValid = record {
    size = noted-Written.sized ∙ v.size;
    counted = v.counted;
    few = v.few;
    total = v.total;
    money = omega (arith, noted-Written.sums, v.money);
  }

  bank_of-noted :
      bank_of noted_ledger ≡ Bank.settle source dest pkt.seqn pkt.req.value query (bank_of l)
  unfolding Bank.settle
  bank_of-noted = λ k. record { account = fun_ext account k; count = pos_part l.num_clients }
    where
      account :
          (ip : ℕ)
          → account_of (find ip (take (pos_part l.num_clients) (set l.client_table i noted)))
            ≡ post source dest pkt.seqn 0 ip (account_of (find ip (clients l)))
      account ip = ground (arith, noted-Written.finds ip, at_source.found)

module _ (source dest i : ℕ) (o : Option ℕ) (pkt : Packet) {s : Server} (v : IsValid s.ledger)
    (peers : HasPeers s) (first : IsFirst source (clients s.ledger) i)
    (located : Located dest (clients s.ledger) o) (a : Account)
    (is : account_of (find source (clients s.ledger)) ≡ some a) where
  abbrev decided : Verdict
  decided = verdict source dest pkt.seqn pkt.req.value a (account_of (find dest (clients s.ledger)))

  abbrev source_at : Entry (pos_part s.ledger.num_clients) s.ledger.client_table source i
  source_at = at_source source dest i pkt v first

  -- A verdict that ends the request at once.
  refused :
      (w : Verdict)
      → settle i o pkt s ≡ done (s, [])
      → Bank.settle source dest pkt.seqn pkt.req.value w (bank_of s.ledger) ≡ bank_of s.ledger
      → sends w s ≡ []
      → Counted w pkt.req.value s.ledger s.ledger
      → Settled source dest i o w pkt s
  refused w e bank out counts = record {
    ledger = s.ledger;
    returns = e ∙ ap (λ x. done (s, x)) (sym out);
    valid = v;
    bank = sym bank;
    counts = counts;
    firsts = λ ip m h. h;
  }

  -- The destination, as the code and as the bank see it.
  destination :
      ((o ≡ none) × (find dest (clients s.ledger) ≡ none))
      ⊎ ((j : ℕ) × (o ≡ some j)
          × IsFirst dest (clients s.ledger) j
          × (c : Client) × (find dest (clients s.ledger) ≡ some c))
  destination = Located-cases dest (clients s.ledger) o located

  settle_query : decided ≡ query → Settled source dest i o query pkt s
  unfolding settle verdict
  settle_query e = record {
    ledger = noted_ledger source dest i pkt v first;
    returns = elim destination [
      | inl (unknown, absent) ↦ absurd (ground arith)
      | inr (j, known, _, c, found) ↦
          rw (source_at.reads, known, (noted-Written source dest i pkt v first).writes)
            (ground (arith, source_at.found))
    ];
    valid = noted-IsValid source dest i pkt v first;
    bank = bank_of-noted source dest i pkt v first;
    counts = (refl, refl);
    firsts = (noted-Written source dest i pkt v first).firsts;
  }

  -- The code reaches `execute`, and then propagates.
  settle_reaches :
      (j : ℕ) {c : Client}
      → o ≡ some j
      → find dest (clients s.ledger) ≡ some c
      → decided ≡ executed
      → (x : Executed source dest i j pkt s.ledger)
      → settle i o pkt s
        ≡ done (record s { ledger = x.ledger }, replicated (record s { ledger = x.ledger }))
  unfolding settle verdict
  settle_reaches j known found e x =
      rw (source_at.reads, known)
        (ground (arith, source_at.found, x.returns, propagate_lem (HasPeers-ledger x.ledger peers)))

  settle_enough :
      {c : Client}
      → find dest (clients s.ledger) ≡ some c
      → decided ≡ executed
      → pkt.req.value ≤ a.balance
  unfolding verdict
  settle_enough found e = ground arith

  settle_executed :
      s.ledger.num_transactions <ℤ int_max
      → decided ≡ executed
      → Settled source dest i o executed pkt s
  unfolding verdict Bank.settle
  settle_executed room e = elim destination [
    | inl (unknown, absent) ↦ absurd (ground arith)
    | inr (j, known, first_j, c, found) ↦
        let x : Executed source dest i j pkt s.ledger =
          execute_refines source dest i j pkt v first first_j a is (settle_enough found e) room in
        record {
          ledger = x.ledger;
          returns = settle_reaches j known found e x;
          valid = x.valid;
          bank = x.bank;
          counts = (x.counted, x.transferred);
          firsts = x.firsts;
        }
  ]

  pub settle_by : (w : Verdict) → HasRoom w s.ledger → decided ≡ w → Settled source dest i o w pkt s
  unfolding settle verdict Bank.settle
  settle_by table_full room e = absurd (ground arith)
  settle_by duplicate room e =
      refused duplicate (rw source_at.reads (ground (arith, source_at.found))) refl refl
        (refl, refl)
  settle_by unknown_dest room e = elim destination [
    | inl (unknown, absent) ↦
        refused unknown_dest (rw (source_at.reads, unknown) (ground (arith, source_at.found))) refl
          refl (refl, refl)
    | inr (j, known, _, c, found) ↦ absurd (ground arith)
  ]
  settle_by insufficient room e = elim destination [
    | inl (unknown, absent) ↦ absurd (ground arith)
    | inr (j, known, _, c, found) ↦
        refused insufficient (rw (source_at.reads, known) (ground (arith, source_at.found))) refl
          refl (refl, refl)
  ]
  settle_by query room e = settle_query e
  settle_by executed room e = settle_executed room e
