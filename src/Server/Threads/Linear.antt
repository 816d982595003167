-- ===== src/Server/Threads/Linear.antt =====
-- The request threads of a server are linearizable.
use inf01151_trabalho.Common.{
  ℕ, ◌≡◌, refl, ◌∙◌, sym, ap, subst, inl, inr, Option, none, some, List, [], ◌∷◌, ◌++◌, All,
  All-mono, All-set, set, done≢fault, done-injective,
}
use inf01151_trabalho.Server.Types.{Packet, Ledger, Server, Sent, SockAddr, Client}
use inf01151_trabalho.Server.Ledger.{clients, IsValid, bank_of}
use inf01151_trabalho.Server.Bank.{Bank, register}
use inf01151_trabalho.Server.Clients.Find.{IsFirst}
use inf01151_trabalho.Server.Clients.Register.{Located, Registered, find_or_add_client_refines}
use inf01151_trabalho.Server.Replication.Sends.{HasPeers, HasPeers-ledger}
use inf01151_trabalho.Server.Processing.Serve.{Served}
use inf01151_trabalho.Server.Processing.Overflow.{serve-cases}
use inf01151_trabalho.Server.Threads.{
  Thread, created, unlocked, over, Pool, no_threads, after_unlock, Act, asked, registered, act,
  Step, creates, locks, discovers, acknowledges, Reach, here, next, one_by_one,
}

-- The `source_client` of a thread is the entry of its client.
abbrev pub Points : List Client → Thread → Type 0
Points cs (created addr pkt) = Unit {0}
Points cs (unlocked addr pkt i) = IsFirst addr.s_addr cs i
Points cs over = Unit {0}

-- The server is well formed, its bank is the first one after what has held the mutex, one by one, and
-- every thread points at the entry of its client.
pub record IsLinear (b : Bank) (p : Pool) : Type 0 where
  pub valid : IsValid p.server.ledger
  pub has_peers : HasPeers p.server
  pub bank : bank_of p.server.ledger ≡ one_by_one p.served b
  pub points : All (Points (clients p.server.ledger)) p.threads

one_by_one-append :
    (acts : List Act) (a : Act) (b : Bank)
    → one_by_one (acts ++ (a ∷ [])) b ≡ act a (one_by_one acts b)
one_by_one-append [] a b = refl
one_by_one-append (a' ∷ acts) a b = one_by_one-append acts a (act a' b)

Points-kept :
    (cs cs' : List Client) (t : Thread)
    → ((ip m : ℕ) → IsFirst ip cs m → IsFirst ip cs' m)
    → Points cs t
    → Points cs' t
Points-kept cs cs' (created addr pkt) f h = tt
Points-kept cs cs' (unlocked addr pkt i) f h = f addr.s_addr i h
Points-kept cs cs' over f h = tt

Points-unlocked :
    (addr : SockAddr) (pkt : Packet) (cs : List Client) (o : Option ℕ)
    → Located addr.s_addr cs o
    → Points cs (after_unlock addr pkt o)
Points-unlocked addr pkt cs none h = tt
Points-unlocked addr pkt cs (some i) h = h

pub served_IsLinear :
    (b : Bank) {p : Pool} (k : ℕ) (addr : SockAddr) (pkt : Packet)
    → IsLinear b p
    → (sv : Served addr pkt p.server) → (out : List Sent)
    → IsLinear b (record {
      server = record (p.server) { ledger = sv.ledger };
      threads = set p.threads k (after_unlock addr pkt sv.source);
      served = p.served ++ (asked addr pkt ∷ []);
      sent = p.sent ++ out;
    })
served_IsLinear b {p} k addr pkt h sv out = record {
  valid = sv.valid;
  has_peers = HasPeers-ledger sv.ledger h.has_peers;
  bank =
      sv.bank
      ∙ ap (act (asked addr pkt)) h.bank
      ∙ sym (one_by_one-append p.served (asked addr pkt) b);
  points =
      All-set (Points (clients sv.ledger)) p.threads k _
        (All-mono (Points (clients p.server.ledger)) (Points (clients sv.ledger)) p.threads
          (λ t. Points-kept (clients p.server.ledger) (clients sv.ledger) t sv.firsts) h.points)
        (Points-unlocked addr pkt (clients sv.ledger) sv.source sv.located);
}

registered_IsLinear :
    (b : Bank) {p : Pool} (ip : ℕ)
    → IsLinear b p
    → (r : Registered ip p.server.ledger)
    → IsLinear b (record p {
      server = record (p.server) { ledger = r.ledger };
      served = p.served ++ (registered ip ∷ []);
    })
registered_IsLinear b {p} ip h r = record {
  valid = r.valid;
  has_peers = HasPeers-ledger r.ledger h.has_peers;
  bank = r.bank ∙ ap (register ip) h.bank ∙ sym (one_by_one-append p.served (registered ip) b);
  points =
      All-mono (Points (clients p.server.ledger)) (Points (clients r.ledger)) p.threads
        (λ t. Points-kept (clients p.server.ledger) (clients r.ledger) t r.firsts) h.points;
}

Step-IsLinear : (b : Bank) {p q : Pool} → IsLinear b p → Step p q → IsLinear b q
Step-IsLinear b {p} h (creates addr pkt is_request) = record {
  valid = h.valid;
  has_peers = h.has_peers;
  bank = h.bank;
  points = (tt, h.points);
}
Step-IsLinear b {p} h (locks k {addr} {pkt} {source} {s} {out} at e) =
    elim (serve-cases addr pkt h.valid h.has_peers) [
      | inr faults ↦ absurd (done≢fault (sym e ∙ faults))
      | inl sv ↦
          subst
            (λ (r : Option ℕ × Server × List Sent). IsLinear b (record {
              server = r.1;
              threads = set p.threads k (after_unlock addr pkt r.0);
              served = p.served ++ (asked addr pkt ∷ []);
              sent = p.sent ++ r.2;
            }))
            (done-injective (sym sv.returns ∙ e)) (served_IsLinear b k addr pkt h sv _)
    ]
Step-IsLinear b {p} h (discovers ip {found} {l} e) =
    let r = find_or_add_client_refines ip h.valid in
    subst
      (λ (x : Option ℕ × Ledger). IsLinear b (record p {
        server = record (p.server) { ledger = x.1 };
        served = p.served ++ (registered ip ∷ []);
      }))
      (done-injective (sym r.returns ∙ e)) (registered_IsLinear b ip h r)
Step-IsLinear b {p} h (acknowledges k number balance at) = record {
  valid = h.valid;
  has_peers = h.has_peers;
  bank = h.bank;
  points = All-set (Points (clients p.server.ledger)) p.threads k over h.points tt;
}

-- Whatever the interleaving of the request threads of a well-formed server and the discoveries that
-- it answers: its ledger is well formed and stands for the bank after the requests and registrations
-- that have held the mutex, one after another in that order, and every thread after the unlock
-- points at the entry of its client.
pub Reach-IsLinear :
    {s : Server} {p : Pool}
    → IsValid s.ledger
    → HasPeers s
    → Reach (no_threads s) p
    → IsLinear (bank_of s.ledger) p
Reach-IsLinear v peers here = record { valid = v; has_peers = peers; bank = refl; points = tt }
Reach-IsLinear {s} v peers (next before step) =
    Step-IsLinear (bank_of s.ledger) (Reach-IsLinear v peers before) step
