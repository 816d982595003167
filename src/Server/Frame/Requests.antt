-- ===== src/Server/Frame/Requests.antt =====
-- `handle_request` changes nothing of a server but its ledger.
use inf01151_trabalho.Common.{
  ℕ, ◌==◌, ltb, leb, Option, none, some, List, [], ◌∷◌, ◌++◌, done, read, write, ◌>>=◌,
}
use inf01151_trabalho.Server.Types.{Client, Packet, Ledger, Server, Sent, SockAddr}
use inf01151_trabalho.Server.Clients.{find_or_add_client, find_client_by_ip}
use inf01151_trabalho.Server.Replication.{propagate_state_to_backups}
use inf01151_trabalho.Server.Processing.{is_req, execute, settle, serve, ack_packet, handle_request}
use inf01151_trabalho.Server.Frame.{Leaves, leaves, Leaves-bind, Leaves-any, if-Leaves}

-- What does not depend on the ledger is kept.
module _ (Q : Server → Type 0)
    (keeps : (s : Server) (l : Ledger) → Q s → Q (record s { ledger = l })) where
  settle-Leaves :
      (i : ℕ) (dest : Option ℕ) (pkt : Packet) (s : Server)
      → Q s
      → Leaves (λ (r : Server × List Sent). Q r.0) (settle i dest pkt s)
  unfolding settle
  settle-Leaves i none pkt s h =
      Leaves-any (λ (r : Server × List Sent). Q r.0) (read s.ledger.client_table i) _
        (λ (source : Client).
          if-Leaves (λ (r : Server × List Sent). Q r.0) (leb pkt.seqn source.last_req_id) _ _
            (leaves h) (leaves h))
  settle-Leaves i (some j) pkt s h =
      Leaves-any (λ (r : Server × List Sent). Q r.0) (read s.ledger.client_table i) _
        (λ (source : Client).
          if-Leaves (λ (r : Server × List Sent). Q r.0) (leb pkt.seqn source.last_req_id) _ _
            (leaves h)
            (if-Leaves (λ (r : Server × List Sent). Q r.0) (pkt.req.value == 0) _ _
              (Leaves-any (λ (r : Server × List Sent). Q r.0)
                (write s.ledger.client_table i (record source { last_req_id = pkt.seqn })) _
                (λ table. leaves (keeps s (record (s.ledger) { client_table = table }) h)))
              (if-Leaves (λ (r : Server × List Sent). Q r.0) (ltb source.balance pkt.req.value) _ _
                (leaves h)
                (Leaves-any (λ (r : Server × List Sent). Q r.0) (execute i j pkt s.ledger) _
                  (λ l.
                    Leaves-any (λ (r : Server × List Sent). Q r.0)
                      (propagate_state_to_backups (record s { ledger = l })) _
                      (λ out. leaves (keeps s l h)))))))

  serve_settles :
      (source dest : Option ℕ) (pkt : Packet) (s : Server)
      → Q s
      → Leaves
          (λ (r : Option ℕ × Server × List Sent). Q r.1)
          (elim source [
            | none ↦ done (none, s, [])
            | some i ↦ do (s₂, out) ← settle i dest pkt s; done (some i, s₂, out)
          ])
  serve_settles none dest pkt s h = leaves h
  serve_settles (some i) dest pkt s h =
      Leaves-bind (λ (r : Server × List Sent). Q r.0) (λ (r : Option ℕ × Server × List Sent). Q r.1)
        (settle i dest pkt s) _ (settle-Leaves i dest pkt s h) (λ r h'. leaves h')

  serve-Leaves :
      (addr : SockAddr) (pkt : Packet) (s : Server)
      → Q s
      → Leaves (λ (r : Option ℕ × Server × List Sent). Q r.1) (serve addr pkt s)
  unfolding serve
  serve-Leaves addr pkt s h =
      Leaves-any (λ (r : Option ℕ × Server × List Sent). Q r.1)
        (find_or_add_client addr.s_addr s.ledger) _
        (λ (r : Option ℕ × Ledger).
          Leaves-any (λ (r' : Option ℕ × Server × List Sent). Q r'.1)
            (find_client_by_ip pkt.req.dest_addr r.1) _
            (λ dest. serve_settles r.0 dest pkt (record s { ledger = r.1 }) (keeps s r.1 h)))

  acknowledged-Leaves :
      (source : Option ℕ) (addr : SockAddr) (pkt : Packet) (s : Server) (out : List Sent)
      → Q s
      → Leaves
          (λ (r : Server × List Sent). Q r.0)
          (elim source [
            | none ↦ done (s, out)
            | some i ↦ do
              ack ← ack_packet i pkt s.ledger
              done (s, out ++ (record { to = addr; pkt = ack } ∷ []))
          ])
  acknowledged-Leaves none addr pkt s out h = leaves h
  acknowledged-Leaves (some i) addr pkt s out h =
      Leaves-any (λ (r : Server × List Sent). Q r.0) (ack_packet i pkt s.ledger) _ (λ ack. leaves h)

  pub handle_request-Leaves :
      (addr : SockAddr) (pkt : Packet) {s : Server}
      → Q s
      → Leaves (λ (r : Server × List Sent). Q r.0) (handle_request (some addr) (some pkt) s)
  unfolding handle_request
  handle_request-Leaves addr pkt {s} h =
      if-Leaves (λ (r : Server × List Sent). Q r.0) (is_req pkt.type) _ _
        (Leaves-bind (λ (r : Option ℕ × Server × List Sent). Q r.1)
          (λ (r : Server × List Sent). Q r.0) (serve addr pkt s) _ (serve-Leaves addr pkt s h)
          (λ (r : Option ℕ × Server × List Sent) h'. acknowledged-Leaves r.0 addr pkt r.1 r.2 h'))
        (leaves h)
