-- ===== src/Exchange/Numbers.antt =====
-- The numbers of the requests that the server accepts from a client, over a lossy network.
use inf01151_trabalho.Common.{
  ℕ, suc, ◌+◌, ◌≤◌, ◌≡◌, ◌≢◌, refl, inl, inr, ◌∙◌, ap, sym, subst, List, ◌++◌, All, All-append,
  All-get_elem?, Outcome, done, done≢fault, done-injective, arith,
}
use inf01151_trabalho.Client.Sender.{send_command}
use inf01151_trabalho.Server.Types as Wire
use inf01151_trabalho.Server.Types.{Server, Sent, SockAddr}
use inf01151_trabalho.Server.Ledger.{IsValid, bank_of}
use inf01151_trabalho.Server.Bank.Last.{
  last_of, noted, request-last_of, request-last_of_other, request-Accepted,
}
use inf01151_trabalho.Server.Replication.Sends.{HasPeers, HasPeers-ledger, peers}
use inf01151_trabalho.Server.Processing.Effects.{sends}
use inf01151_trabalho.Server.Processing.Handle.{bank_answer, reply, Handled}
use inf01151_trabalho.Server.Processing.Overflow.{handle_request-cases}
use inf01151_trabalho.Exchange.{
  Exchange, begin, noted_in, to_clients, Step, fails, hears, serves, serves_other, Reach, here,
  next,
}
use inf01151_trabalho.Exchange.Fits.{
  count_from, last_noted, FitsRequest, FitsReply, to_clients-All, sends-FitsReply, reply-FitsReply,
  advance, heard_bound, raised_requests, raised_replies,
}

-- `old` is the last number that the server had noted at the beginning. The server is well formed;
-- what it has accepted are the numbers after `old`, in order; and no number on the way is more than
-- one above the last.
pub record IsInOrder (addr : SockAddr) (old : ℕ) (x : Exchange) : Type 0 where
  pub valid : IsValid x.server.ledger
  pub has_peers : HasPeers x.server
  pub many : ℕ
  pub in_order : x.accepted ≡ count_from (suc old) many
  pub noted_last : last_noted addr x.server ≡ old + many
  pub next_bound : x.next_sequence ≤ suc (last_noted addr x.server)
  pub requests_fit : All (FitsRequest (last_noted addr x.server)) x.requests
  pub replies_fit : All (FitsReply (last_noted addr x.server)) x.replies

module _ (addr : SockAddr) (old : ℕ) {x : Exchange} (h : IsInOrder addr old x) where
  -- A state that a handled request leaves, for the client or another.
  abbrev left : {from : SockAddr} {pkt : Wire.Packet} → Handled from pkt x.server → Server
  left handled = record (x.server) { ledger = handled.ledger }

  -- The server handles a request of the client.
  served_order :
      {pkt : Wire.Packet}
      → FitsRequest (last_noted addr x.server) pkt
      → (handled : Handled addr pkt x.server)
      → IsInOrder addr old (record x {
        server = left handled;
        replies =
            to_clients (
              sends (bank_answer addr pkt x.server).0 (left handled)
              ++ reply addr pkt ((bank_answer addr pkt x.server).1.account addr.s_addr))
            ++ x.replies;
        accepted = noted_in (bank_answer addr pkt x.server).0 pkt.seqn x.accepted;
      })
  served_order {pkt} fits handled =
      let v = (bank_answer addr pkt x.server).0 in
      let last = last_noted addr x.server in
      let last' = last_noted addr (left handled) in
      let bank : last' ≡ last_of addr.s_addr (bank_answer addr pkt x.server).1 =
        ap (last_of addr.s_addr) handled.bank in
      let is : last' ≡ noted pkt.seqn v last =
        bank
        ∙ request-last_of addr.s_addr pkt.req.dest_addr pkt.seqn pkt.req.value
            (bank_of x.server.ledger) in
      let adv =
        advance old pkt.seqn last h.many v x.accepted
          (request-Accepted addr.s_addr pkt.req.dest_addr pkt.seqn pkt.req.value
            (bank_of x.server.ledger))
          fits.1 h.noted_last h.in_order in
      let rises : last ≤ last' = omega (arith, is, adv.rises) in
      let answer_fits = raised_replies _ _ last' (omega (arith, bank)) (
        to_clients-All (FitsReply (last_of addr.s_addr (bank_answer addr pkt x.server).1)) _ (
          All-append _ (sends v (left handled))
            (reply addr pkt ((bank_answer addr pkt x.server).1.account addr.s_addr))
            (sends-FitsReply (last_of addr.s_addr (bank_answer addr pkt x.server).1) v
              (left handled))
            (reply-FitsReply addr pkt ((bank_answer addr pkt x.server).1.account addr.s_addr)))) in
      record {
        valid = handled.valid;
        has_peers = HasPeers-ledger handled.ledger h.has_peers;
        many = adv.many';
        in_order = adv.in_order';
        noted_last = is ∙ adv.noted_last';
        next_bound = omega (arith, h.next_bound, rises);
        requests_fit = raised_requests x.requests last last' rises h.requests_fit;
        replies_fit =
            All-append (FitsReply last') _ x.replies answer_fits
              (raised_replies x.replies last last' rises h.replies_fit);
      }

  -- The server handles a request of another client.
  served_other_order :
      (from : SockAddr) (pkt : Wire.Packet)
      → from.s_addr ≢ addr.s_addr
      → (handled : Handled from pkt x.server)
      → IsInOrder addr old (record x { server = left handled })
  served_other_order from pkt other handled =
      let last = last_noted addr x.server in
      let last' = last_noted addr (left handled) in
      let is : last' ≡ last =
        ap (last_of addr.s_addr) handled.bank
        ∙ request-last_of_other from.s_addr pkt.req.dest_addr pkt.seqn pkt.req.value addr.s_addr
            (bank_of x.server.ledger) other in
      record {
        valid = handled.valid;
        has_peers = HasPeers-ledger handled.ledger h.has_peers;
        many = h.many;
        in_order = h.in_order;
        noted_last = is ∙ h.noted_last;
        next_bound = omega (arith, h.next_bound, is);
        requests_fit = raised_requests x.requests last last' (omega (arith, is)) h.requests_fit;
        replies_fit = raised_replies x.replies last last' (omega (arith, is)) h.replies_fit;
      }

-- The state after a call of `handle_request`, as the call is known to return.
by_call :
    {m : Outcome (Server × List Sent)} {a : Server × List Sent} (P : Server × List Sent → Type 0)
    → (s : Server) (out : List Sent) → m ≡ done a
    → m ≡ done (s, out)
    → P a
    → P (s, out)
by_call P s out e returns h = subst P (done-injective (sym e ∙ returns)) h

Step-IsInOrder :
    (addr : SockAddr) (old : ℕ) {x y : Exchange}
    → IsInOrder addr old x
    → Step addr x y
    → IsInOrder addr old y
unfolding send_command
Step-IsInOrder addr old {x} h (Step.sends command idle) = record {
  valid = h.valid;
  has_peers = h.has_peers;
  many = h.many;
  in_order = h.in_order;
  noted_last = h.noted_last;
  next_bound = h.next_bound;
  requests_fit = ((refl, h.next_bound), h.requests_fit);
  replies_fit = h.replies_fit;
}
Step-IsInOrder addr old {x} h (fails command idle) = record {
  valid = h.valid;
  has_peers = h.has_peers;
  many = h.many;
  in_order = h.in_order;
  noted_last = h.noted_last;
  next_bound = h.next_bound;
  requests_fit = h.requests_fit;
  replies_fit = h.replies_fit;
}
Step-IsInOrder addr old {x} h (hears answer command waits heard) = record {
  valid = h.valid;
  has_peers = h.has_peers;
  many = h.many;
  in_order = h.in_order;
  noted_last = h.noted_last;
  next_bound =
      heard_bound answer command x.replies x.next_sequence (last_noted addr x.server) heard
        h.replies_fit h.next_bound;
  requests_fit = h.requests_fit;
  replies_fit = h.replies_fit;
}
Step-IsInOrder addr old {x} h (serves k {pkt} {s} {out} at returns) =
    let fits =
      All-get_elem? (FitsRequest (last_noted addr x.server)) x.requests k h.requests_fit at in
    elim (handle_request-cases addr pkt fits.0 h.valid h.has_peers) [
      | inr faults ↦ absurd (done≢fault (sym returns ∙ faults))
      | inl handled ↦
          by_call
            (λ (r : Server × List Sent). IsInOrder addr old (record x {
              server = r.0;
              replies = to_clients r.1 ++ x.replies;
              accepted = noted_in (bank_answer addr pkt x.server).0 pkt.seqn x.accepted;
            }))
            s out handled.returns returns (served_order addr old h fits handled)
    ]
Step-IsInOrder addr old {x} h (serves_other from pkt {s} {out} other is_request returns) =
    elim (handle_request-cases from pkt is_request h.valid h.has_peers) [
      | inr faults ↦ absurd (done≢fault (sym returns ∙ faults))
      | inl handled ↦
          by_call (λ (r : Server × List Sent). IsInOrder addr old (record x { server = r.0 })) s out
            handled.returns returns (served_other_order addr old h from pkt other handled)
    ]

-- From the start of the client, at a well-formed server that has noted `old` as its last number,
-- over a network that loses, repeats, delays and reorders packets, and whatever other clients ask:
-- the numbers that the server accepts from it are the numbers after `old`, each once and in order, the last
-- of them is what the server has noted, and the client's next number is at most one higher.
pub Reach-IsInOrder :
    (addr : SockAddr) {s : Server} {x : Exchange}
    → IsValid s.ledger
    → HasPeers s
    → Reach addr (begin s) x
    → IsInOrder addr (last_noted addr s) x
Reach-IsInOrder addr {s} v peers here = record {
  valid = v;
  has_peers = peers;
  many = 0;
  in_order = refl;
  noted_last = omega arith;
  next_bound = omega arith;
  requests_fit = tt;
  replies_fit = tt;
}
Reach-IsInOrder addr {s} v peers (next before step) =
    Step-IsInOrder addr (last_noted addr s) (Reach-IsInOrder addr v peers before) step
