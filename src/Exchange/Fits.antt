-- ===== src/Exchange/Fits.antt =====
-- What fits on the way between a client and its server, by the last number that the server has noted.
use inf01151_trabalho.Common.{
  ℕ, zero, suc, ◌+◌, ◌≤◌, ◌<◌, ◌≡◌, refl, ◌⊎◌, inl, inr, ◌∙◌, ap, Option, none, some, List, [], ◌∷◌,
  ◌++◌, All, All-mono, All-get_elem?, false, arith,
}
use inf01151_trabalho.Client.Types as Client
use inf01151_trabalho.Client.Sender.{
  Answer, send_failed, receive_failed, received, is_req_ack, send_command,
}
use inf01151_trabalho.Server.Types as Wire
use inf01151_trabalho.Server.Types.{Server, Sent, SockAddr}
use inf01151_trabalho.Server.Ledger.{bank_of}
use inf01151_trabalho.Server.Bank.{
  Account, Verdict, table_full, duplicate, unknown_dest, query, insufficient, executed,
}
use inf01151_trabalho.Server.Bank.Once.{Accepted}
use inf01151_trabalho.Server.Bank.Last.{last_of, last_of_account, noted}
use inf01151_trabalho.Server.Processing.Effects.{sends, sends-All}
use inf01151_trabalho.Server.Processing.Handle.{reply}
use inf01151_trabalho.Exchange.{noted_in, to_client, to_clients, Hears, nothing, packet}

-- n numbers from k on.
abbrev pub count_from : ℕ → ℕ → List ℕ
count_from k zero = []
count_from k (suc n) = k ∷ count_from (suc k) n

count_from-append : (k n : ℕ) → count_from k n ++ ((k + n) ∷ []) ≡ count_from k (suc n)
count_from-append k zero = ap (λ m. m ∷ []) (omega arith)
count_from-append k (suc n) =
    ap (λ ms. k ∷ ms)
      (ap (λ m. count_from (suc k) n ++ (m ∷ [])) (omega arith) ∙ count_from-append (suc k) n)

-- The last number that the server has noted for the client.
abbrev pub last_noted : SockAddr → Server → ℕ
last_noted addr s = last_of addr.s_addr (bank_of s.ledger)

abbrev pub FitsRequest : ℕ → Wire.Packet → Type 0
FitsRequest last pkt = (pkt.type ≡ Wire.req) × (pkt.seqn ≤ suc last)

abbrev pub FitsReply : ℕ → Client.Packet → Type 0
FitsReply last p = (is_req_ack p.type ≡ false) ⊎ (p.ack.seqn ≤ last)

-- An update for the backups is no acknowledgement.
pub to_clients-All :
    (P : Client.Packet → Type 0) (ms : List Sent)
    → All (λ m. P (to_client m.pkt)) ms
    → All P (to_clients ms)
to_clients-All P [] h = tt
to_clients-All P (m ∷ ms) h = (h.0, to_clients-All P ms h.1)

pub sends-FitsReply :
    (last : ℕ) (v : Verdict) (s : Server)
    → All (λ (m : Sent). FitsReply last (to_client m.pkt)) (sends v s)
sends-FitsReply last v s = sends-All (λ p. FitsReply last (to_client p)) v s (inl refl)

pub reply-FitsReply :
    (addr : SockAddr) (pkt : Wire.Packet) (o : Option Account)
    → All (λ (m : Sent). FitsReply (last_of_account o) (to_client m.pkt)) (reply addr pkt o)
reply-FitsReply addr pkt none = tt
reply-FitsReply addr pkt (some a) = (inr (omega arith), tt)

-- What a request under at most the next number does to the numbers.
pub record Advanced (old seqn last : ℕ) (v : Verdict) (ns : List ℕ) : Type 0 where
  pub many' : ℕ
  pub in_order' : noted_in v seqn ns ≡ count_from (suc old) many'
  pub noted_last' : noted seqn v last ≡ old + many'
  pub rises : last ≤ noted seqn v last

accepts :
    (old seqn last many : ℕ) (ns : List ℕ)
    → last < seqn
    → seqn ≤ suc last
    → last ≡ old + many
    → ns ≡ count_from (suc old) many
    → ns ++ (seqn ∷ []) ≡ count_from (suc old) (suc many)
accepts old seqn last many ns above close is e =
    ap (λ (ms : List ℕ). ms ++ (seqn ∷ [])) e
    ∙ ap (λ m. count_from (suc old) many ++ (m ∷ [])) (omega arith)
    ∙ count_from-append (suc old) many

pub advance :
    (old seqn last many : ℕ) (v : Verdict) (ns : List ℕ)
    → (Accepted v → last < seqn)
    → seqn ≤ suc last
    → last ≡ old + many
    → ns ≡ count_from (suc old) many
    → Advanced old seqn last v ns
advance old seqn last many executed ns above close is e = record {
  many' = suc many;
  in_order' = accepts old seqn last many ns (above tt) close is e;
  noted_last' = omega (arith, above tt);
  rises = omega (arith, above tt);
}
advance old seqn last many query ns above close is e = record {
  many' = suc many;
  in_order' = accepts old seqn last many ns (above tt) close is e;
  noted_last' = omega (arith, above tt);
  rises = omega (arith, above tt);
}
advance old seqn last many table_full ns above close is e = record {
  many' = many;
  in_order' = e;
  noted_last' = is;
  rises = omega arith;
}
advance old seqn last many duplicate ns above close is e = record {
  many' = many;
  in_order' = e;
  noted_last' = is;
  rises = omega arith;
}
advance old seqn last many unknown_dest ns above close is e = record {
  many' = many;
  in_order' = e;
  noted_last' = is;
  rises = omega arith;
}
advance old seqn last many insufficient ns above close is e = record {
  many' = many;
  in_order' = e;
  noted_last' = is;
  rises = omega arith;
}

-- What the client makes of what it hears.
pub heard_bound :
    (answer : Answer) (command : Client.Requisicao) (replies : List Client.Packet) (n last : ℕ)
    → Hears replies answer
    → All (FitsReply last) replies
    → n ≤ suc last
    → (send_command answer command n).0 ≤ suc last
unfolding send_command
heard_bound send_failed command replies n last heard fit h = elim heard [ ]
heard_bound receive_failed command replies n last nothing fit h = h
heard_bound (received p) command replies n last (packet k e) fit h =
    elim (All-get_elem? (FitsReply last) replies k fit e) [
      | inl other ↦ rw other h
      | inr low ↦ ground (arith, low)
    ]

-- A higher last number leaves what fits fitting.
pub raised_requests :
    (ps : List Wire.Packet) (last last' : ℕ)
    → last ≤ last'
    → All (FitsRequest last) ps
    → All (FitsRequest last') ps
raised_requests ps last last' le fit =
    All-mono (FitsRequest last) (FitsRequest last') ps (λ p f. (f.0, omega (arith, f.1))) fit

pub raised_replies :
    (ps : List Client.Packet) (last last' : ℕ)
    → last ≤ last'
    → All (FitsReply last) ps
    → All (FitsReply last') ps
raised_replies ps last last' le fit =
    All-mono (FitsReply last) (FitsReply last') ps
      (λ p f. elim f [ inl other ↦ inl other | inr low ↦ inr (omega (arith, low)) ]) fit
