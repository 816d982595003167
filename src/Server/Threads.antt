-- ===== src/Server/Threads.antt =====
-- server/processing.c: `process_request_thread`, one thread for each request, interleaved. A thread
-- takes `data_mutex` once, for `serve`. It builds its acknowledgement after the unlock, from two reads
-- of the shared entry that no mutex guards: another thread can be between its writes to the entry, so
-- that any two values are taken to be possible.
-- The server stays the primary meanwhile, so that no update from another replaces the table.
pub mod Linear
pub mod Money
pub mod Snapshots
use inf01151_trabalho.Common.{ℕ, ◌≡◌, Option, none, some, List, [], ◌∷◌, ◌++◌, get_elem?, set, done}
use inf01151_trabalho.Server.Types.{
  req, req_ack, zero_packet, Packet, Ledger, Server, Sent, SockAddr,
}
use inf01151_trabalho.Server.Bank.{Bank, register, request}
use inf01151_trabalho.Server.Clients.{find_or_add_client}
use inf01151_trabalho.Server.Processing.{serve}

-- Where a thread stands: before the lock, after the unlock with its `source_client`, or at its end.
pub data Thread : Type 0 where
  created : SockAddr → Packet → Thread
  unlocked : SockAddr → Packet → ℕ → Thread
  over : Thread

-- What is done to the table under the mutex: a request, or the registration of a discovery.
pub data Act : Type 0 where
  asked : SockAddr → Packet → Act
  registered : ℕ → Act

-- `served` is what has been done under the mutex, in that order.
pub record Pool : Type 0 where
  pub server : Server
  pub threads : List Thread
  pub served : List Act
  pub sent : List Sent

abbrev pub no_threads : Server → Pool
no_threads s = record { server = s; threads = []; served = []; sent = [] }

-- With no entry for the source there is no acknowledgement.
abbrev pub after_unlock : SockAddr → Packet → Option ℕ → Thread
after_unlock addr pkt none = over
after_unlock addr pkt (some i) = unlocked addr pkt i

-- The packet of `ack_packet` on an entry of which the two reads give a number and a balance.
abbrev pub unguarded_ack : Packet → ℕ → ℕ → Packet
unguarded_ack pkt number balance = record zero_packet {
  type = req_ack;
  seqn = pkt.seqn;
  ack = record { seqn = number; new_balance = balance };
}

pub data Step (p : Pool) : Pool → Type 0 where
  creates :
      (addr : SockAddr) (pkt : Packet)
      → pkt.type ≡ req
      → Step p (record p { threads = created addr pkt ∷ p.threads })
  locks :
      (k : ℕ) {addr : SockAddr} {pkt : Packet} {source : Option ℕ} {s : Server} {out : List Sent}
      → get_elem? p.threads k ≡ some (created addr pkt)
      → serve addr pkt p.server ≡ done (source, s, out)
      → Step p (record {
        server = s;
        threads = set p.threads k (after_unlock addr pkt source);
        served = p.served ++ (asked addr pkt ∷ []);
        sent = p.sent ++ out;
      })
  discovers :
      (ip : ℕ) {found : Option ℕ} {l : Ledger}
      → find_or_add_client ip p.server.ledger ≡ done (found, l)
      → Step p (record p {
        server = record (p.server) { ledger = l };
        served = p.served ++ (registered ip ∷ []);
      })
  acknowledges :
      (k number balance : ℕ) {addr : SockAddr} {pkt : Packet} {i : ℕ}
      → get_elem? p.threads k ≡ some (unlocked addr pkt i)
      → Step p (record p {
        threads = set p.threads k over;
        sent = p.sent ++ (record { to = addr; pkt = unguarded_ack pkt number balance } ∷ []);
      })

pub data Reach (p : Pool) : Pool → Type 0 where
  here : Reach p p
  next : {q r : Pool} → Reach p q → Step q r → Reach p r

abbrev pub act : Act → Bank → Bank
act (asked addr pkt) b = (request addr.s_addr pkt.req.dest_addr pkt.seqn pkt.req.value b).1
act (registered ip) b = register ip b

-- The acts on the bank, one after another.
abbrev pub one_by_one : List Act → Bank → Bank
one_by_one [] b = b
one_by_one (a ∷ acts) b = one_by_one acts (act a b)
