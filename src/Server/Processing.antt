-- ===== src/Server/Processing.antt =====
-- server/processing.c: `handle_request`. What runs under `data_mutex` is `serve`; the
-- acknowledgement is built from the table after the unlock. Printing is left out.
pub mod Execute
pub mod Effects
pub mod Settle
pub mod Serve
pub mod Handle
pub mod Overflow
pub mod Once
use inf01151_trabalho.Common.{
  ℕ, zero, suc, ◌+◌, ◌-◌, ◌%◌, ◌^◌, ℤ, Bool, true, false, Option, none, some, List, [], ◌∷◌, ◌++◌,
  ◌==◌, ltb, leb, if◌then◌else◌, Outcome, done, ◌>>=◌, add_int, read, write, to_u32, to_int, u32,
}
use inf01151_trabalho.Server.Types.{
  Client, PacketType, req, req_ack, Packet, Ledger, Server, Sent, SockAddr, zero_packet,
}
use inf01151_trabalho.Server.Clients.{find_or_add_client, find_client_by_ip}
use inf01151_trabalho.Server.Replication.{propagate_state_to_backups}

abbrev pub is_req : PacketType → Bool
is_req req = true
is_req _ = false

-- The last `else`: `i` is `source_client` and `j` is `dest_client`, which may be the same entry.
unfoldable pub execute : ℕ → ℕ → Packet → Ledger → Outcome Ledger
unfolding read write add_int to_u32 to_int
execute i j pkt l = do
  let value = pkt.req.value
  source ← read l.client_table i
  table₁ ←
      write l.client_table i (record source { balance = u32 (source.balance + 2 ^ 32 - value) })
  dest ← read table₁ j
  table₂ ← write table₁ j (record dest { balance = u32 (dest.balance + value) })
  n ← add_int l.num_transactions 1
  let transferred = to_int (u32 (to_u32 l.total_transferred + value))
  source' ← read table₂ i
  table₃ ← write table₂ i (record source' { last_req_id = pkt.seqn })
  done (record l { client_table = table₃; num_transactions = n; total_transferred = transferred })

-- The tests on the request, from `req_packet->seqn <= source_client->last_req_id` on.
unfoldable pub settle : ℕ → Option ℕ → Packet → Server → Outcome (Server × List Sent)
unfolding execute read write propagate_state_to_backups
settle i dest pkt s = do
  source ← read s.ledger.client_table i
  if leb pkt.seqn source.last_req_id then done (s, []) else elim dest [
    | none ↦ done (s, [])
    | some j ↦
        if pkt.req.value == 0
        then (do
          table ← write s.ledger.client_table i (record source { last_req_id = pkt.seqn })
          done (record s { ledger = record (s.ledger) { client_table = table } }, []))
        else if ltb source.balance pkt.req.value
        then done (s, [])
        else do
          l ← execute i j pkt s.ledger
          let s' = record s { ledger = l }
          out ← propagate_state_to_backups s'
          done (s', out)
  ]

-- What is done under the mutex. No index is returned where the table is full.
unfoldable pub serve : SockAddr → Packet → Server → Outcome (Option ℕ × Server × List Sent)
unfolding settle find_or_add_client find_client_by_ip
serve client_addr pkt s = do
  (source, l) ← find_or_add_client client_addr.s_addr s.ledger
  dest ← find_client_by_ip pkt.req.dest_addr l
  let s₁ = record s { ledger = l }
  elim source [
    | none ↦ done (none, s₁, [])
    | some i ↦ do (s₂, out) ← settle i dest pkt s₁; done (some i, s₂, out)
  ]

-- `ack_packet`, read through `source_client` after the unlock.
unfoldable pub ack_packet : ℕ → Packet → Ledger → Outcome Packet
unfolding read
ack_packet i pkt l = do
  source ← read l.client_table i
  done (record zero_packet {
    type = req_ack;
    seqn = pkt.seqn;
    ack = record { seqn = source.last_req_id; new_balance = source.balance };
  })

unfoldable pub handle_request :
    Option SockAddr → Option Packet → Server → Outcome (Server × List Sent)
unfolding serve ack_packet
handle_request none pkt s = done (s, [])
handle_request (some client_addr) none s = done (s, [])
handle_request (some client_addr) (some pkt) s =
    if is_req pkt.type
    then (do
      (source, s', out) ← serve client_addr pkt s
      elim source [
        | none ↦ done (s', out)
        | some i ↦ do
          ack ← ack_packet i pkt s'.ledger
          done (s', out ++ (record { to = client_addr; pkt = ack } ∷ []))
      ])
    else done (s, [])
