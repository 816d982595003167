-- ===== src/Server/Threads/Snapshots.antt =====
-- What the backups are sent by the request threads.
use inf01151_trabalho.Common.{
  ℕ, ◌≡◌, refl, ◌∙◌, sym, ap, subst, ◌⊎◌, inl, inr, Option, List, [], ◌∷◌, ◌++◌, All, All-append,
  All-mono, done, done≢fault, done-injective,
}
use mathlib.Core.List.{append_assoc, append-nil}
use inf01151_trabalho.Server.Types.{req_ack, Packet, Server, Sent, SockAddr}
use inf01151_trabalho.Server.Ledger.{IsValid, bank_of}
use inf01151_trabalho.Server.Bank.{Bank}
use inf01151_trabalho.Server.Replication.Sends.{HasPeers}
use inf01151_trabalho.Server.Safety.{ledger_of}
use inf01151_trabalho.Server.Processing.Effects.{sends-All}
use inf01151_trabalho.Server.Processing.Serve.{bank_answer}
use inf01151_trabalho.Server.Processing.Overflow.{serve-cases}
use inf01151_trabalho.Server.Threads.{
  Act, asked, registered, Pool, no_threads, creates, locks, discovers, acknowledges, Reach, here,
  next, one_by_one,
}
use inf01151_trabalho.Server.Threads.Linear.{IsLinear, served_IsLinear, Reach-IsLinear}

-- The packet holds the bank after the first of the acts.
pub record Snapshot (b : Bank) (acts : List Act) (pkt : Packet) : Type 0 where
  pub before : List Act
  pub later : List Act
  pub parts : acts ≡ before ++ later
  pub bank : bank_of (ledger_of pkt.rep) ≡ one_by_one before b

-- An acknowledgement, or such a packet.
abbrev pub IsConsistent : Bank → List Act → Packet → Type 0
IsConsistent b acts pkt = (pkt.type ≡ req_ack) ⊎ Snapshot b acts pkt

-- A further act leaves it so.
IsConsistent-append :
    (b : Bank) (acts : List Act) (a : Act) (pkt : Packet)
    → IsConsistent b acts pkt
    → IsConsistent b (acts ++ (a ∷ [])) pkt
IsConsistent-append b acts a pkt (inl ack) = inl ack
IsConsistent-append b acts a pkt (inr h) = inr (record {
  before = h.before;
  later = h.later ++ (a ∷ []);
  parts = ap (λ (as' : List Act). as' ++ (a ∷ [])) h.parts ∙ append_assoc h.before h.later (a ∷ []);
  bank = h.bank;
})

All-further :
    (b : Bank) (acts : List Act) (a : Act) (ms : List Sent)
    → All (λ m. IsConsistent b acts m.pkt) ms
    → All (λ m. IsConsistent b (acts ++ (a ∷ [])) m.pkt) ms
All-further b acts a ms h =
    All-mono (λ (m : Sent). IsConsistent b acts m.pkt)
      (λ (m : Sent). IsConsistent b (acts ++ (a ∷ [])) m.pkt) ms
      (λ m. IsConsistent-append b acts a m.pkt) h

-- What a thread sends under the mutex is the bank of that moment.
serve-IsConsistent :
    (b : Bank) {p : Pool} (k : ℕ) (addr : SockAddr) (pkt : Packet) {source : Option ℕ} {s : Server}
    {out : List Sent}
    → IsLinear b p
    → inf01151_trabalho.Server.Processing.serve addr pkt p.server ≡ done (source, s, out)
    → All (λ m. IsConsistent b (p.served ++ (asked addr pkt ∷ [])) m.pkt) out
serve-IsConsistent b {p} k addr pkt h e = elim (serve-cases addr pkt h.valid h.has_peers) [
  | inr faults ↦ absurd (done≢fault (sym e ∙ faults))
  | inl sv ↦
      let acts = p.served ++ (asked addr pkt ∷ []) in
      subst (λ (r : Option ℕ × Server × List Sent). All (λ m. IsConsistent b acts m.pkt) r.2)
        (done-injective (sym sv.returns ∙ e))
        (sends-All (IsConsistent b acts) (bank_answer addr pkt p.server).0
          (record (p.server) { ledger = sv.ledger })
          (inr (record {
            before = acts;
            later = [];
            parts = sym (append-nil acts);
            bank = (served_IsLinear b k addr pkt h sv []).bank;
          })))
]

-- Whatever the interleaving of the request threads of a well-formed server and the discoveries that
-- it answers: each packet that a thread sends is an acknowledgement, or holds the bank as it was
-- after the first of the requests and registrations that have held the mutex, for some number of
-- them.
pub sent-IsConsistent :
    {s : Server} {p : Pool}
    → IsValid s.ledger
    → HasPeers s
    → Reach (no_threads s) p
    → All (λ m. IsConsistent (bank_of s.ledger) p.served m.pkt) p.sent
sent-IsConsistent v peers here = tt
sent-IsConsistent v peers (next before (creates addr pkt is_request)) =
    sent-IsConsistent v peers before
sent-IsConsistent {s} v peers (next {q} before (discovers ip e)) =
    All-further (bank_of s.ledger) q.served (registered ip) q.sent
      (sent-IsConsistent v peers before)
sent-IsConsistent {s} v peers (next {q} before (locks k {addr} {pkt} {out} at e)) =
    All-append
      (λ (m : Sent). IsConsistent (bank_of s.ledger) (q.served ++ (asked addr pkt ∷ [])) m.pkt)
      q.sent out
      (All-further (bank_of s.ledger) q.served (asked addr pkt) q.sent
        (sent-IsConsistent v peers before))
      (serve-IsConsistent (bank_of s.ledger) k addr pkt (Reach-IsLinear v peers before) e)
sent-IsConsistent {s} v peers (next {q} before (acknowledges k number balance at)) =
    All-append (λ (m : Sent). IsConsistent (bank_of s.ledger) q.served m.pkt) q.sent _
      (sent-IsConsistent v peers before) (inl refl, tt)
