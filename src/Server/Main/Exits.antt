-- ===== src/Server/Main/Exits.antt =====
-- Which rounds of the receive loop make the process leave.
use inf01151_trabalho.Common.{
  ◌≡◌, refl, ◌⊎◌, inl, inr, int_eq, Option, none, some, List, [], Outcome, done, Bool, true, false,
  if◌then◌else◌, ℕ,
}
use inf01151_trabalho.Server.Types.{
  PacketType, desc, req, desc_ack, req_ack, rep_update, rep_confirm, election, answer, coordinator,
  find_leader, ping, server_join, Packet, Server, SockAddr, Ledger,
}
use inf01151_trabalho.Server.Clients.{find_or_add_client}
use inf01151_trabalho.Server.Discovery.{
  SendResult, sent, would_block, failed, Discovery, silent, replied, exited, handle_discovery,
}
use inf01151_trabalho.Server.Dispatch.{
  World, Round, quiet_round, on_find_leader, on_server_join, on_coordinator, dispatch_as, dispatch,
}
use inf01151_trabalho.Server.Election.{handle_election_message}
use inf01151_trabalho.Server.Ping.{handle_ping}
use inf01151_trabalho.Server.Frame.{Leaves, leaves, Leaves-any, Leaves-bind}

-- `getsockname` or `sendto` fails.
abbrev pub CallFails : Option (List ℕ) → SendResult → Type 0
CallFails ip result = (ip ≡ none) ⊎ (result ≡ failed)

-- The packet is a DESC, the server is its own leader, and a call of `handle_discovery` fails.
abbrev pub IsExiting : PacketType → World → Server → Type 0
IsExiting t w s =
    (t ≡ desc)
    × (int_eq s.my_id s.current_leader_id ≡ true)
    × CallFails w.server_ip w.discovery_send

-- The handler exits just where one of its calls fails.
abbrev Answered : Option (List ℕ) → SendResult → Discovery → Type 0
Answered ip result silent = ¬ CallFails ip result
Answered ip result (replied addr text) = ¬ CallFails ip result
Answered ip result exited = CallFails ip result

abbrev pub Ended : PacketType → World → Server → Discovery → Type 0
Ended t w s silent = ¬ IsExiting t w s
Ended t w s (replied addr text) = ¬ IsExiting t w s
Ended t w s exited = IsExiting t w s

abbrev EndedIn : PacketType → World → Server → Round → Type 0
EndedIn t w s r = Ended t w s r.discovery

sent_by :
    (result : SendResult) (text : List ℕ) (from : SockAddr) (s : Server)
    → Leaves
        (λ (r : Server × Discovery). Answered (some text) result r.1)
        (elim result [
          | sent ↦ done (s, replied from text)
          | would_block ↦ done (s, replied from text)
          | failed ↦ done (s, exited)
        ])
sent_by sent text from s =
    leaves {a = (s, replied from text)} (λ h. elim h [ inl e ↦ absurd cc | inr e ↦ absurd cc ])
sent_by would_block text from s =
    leaves {a = (s, replied from text)} (λ h. elim h [ inl e ↦ absurd cc | inr e ↦ absurd cc ])
sent_by failed text from s = leaves {a = (s, exited)} (inr refl)

handle_discovery-Answered :
    (ip : Option (List ℕ)) (result : SendResult) (from : SockAddr) (s : Server)
    → int_eq s.my_id s.current_leader_id ≡ true
    → Leaves
        (λ (r : Server × Discovery). Answered ip result r.1)
        (handle_discovery ip result from s)
unfolding handle_discovery
handle_discovery-Answered none result from s leads = rw leads (leaves {a = (s, exited)} (inl refl))
handle_discovery-Answered (some text) result from s leads = rw leads (
    Leaves-any (λ (r : Server × Discovery). Answered (some text) result r.1)
      (find_or_add_client from.s_addr s.ledger) _
      (λ (r : Option ℕ × Ledger). sent_by result text from (record s { ledger = r.1 })))

desc-Ended :
    (w : World) (s : Server) (d : Discovery)
    → int_eq s.my_id s.current_leader_id ≡ true
    → Answered w.server_ip w.discovery_send d
    → Ended desc w s d
desc-Ended w s silent leads h = λ x. h x.2
desc-Ended w s (replied addr text) leads h = λ x. h x.2
desc-Ended w s exited leads h = (refl, leads, h)

-- Where the test is wanted.
if_cases-Leaves {ℓ} :
    {A : Type ℓ} (P : A → Type 0) (b : Bool) (m n : Outcome A)
    → (b ≡ true → Leaves P m)
    → (b ≡ false → Leaves P n)
    → Leaves P (if b then m else n)
if_cases-Leaves P true m n h k = h refl
if_cases-Leaves P false m n h k = k refl

on_desc-Ended :
    (w : World) (self : SockAddr) (pkt : Packet) (from : SockAddr) (s : Server)
    → Leaves (EndedIn desc w s) (dispatch_as desc w self pkt from s)
unfolding dispatch_as
on_desc-Ended w self pkt from s =
    if_cases-Leaves (EndedIn desc w s) (int_eq s.my_id s.current_leader_id) _ _
      (λ leads.
        Leaves-bind (λ (r : Server × Discovery). Answered w.server_ip w.discovery_send r.1)
          (EndedIn desc w s) (handle_discovery w.server_ip w.discovery_send from s) _
          (handle_discovery-Answered w.server_ip w.discovery_send from s leads)
          (λ r h. leaves (desc-Ended w s r.1 leads h)))
      (λ other. leaves {a = quiet_round s []} (λ x. cc (x.1)))

dispatch_as-Ended :
    (t : PacketType) (w : World) (self : SockAddr) (pkt : Packet) (from : SockAddr) (s : Server)
    → Leaves (EndedIn t w s) (dispatch_as t w self pkt from s)
unfolding dispatch_as
dispatch_as-Ended find_leader w self pkt from s =
    Leaves-any (EndedIn find_leader w s) (on_find_leader pkt from s) _ (λ r. leaves (λ x. cc (x.0)))
dispatch_as-Ended server_join w self pkt from s =
    Leaves-any (EndedIn server_join w s) (on_server_join pkt from s) _ (λ r. leaves (λ x. cc (x.0)))
dispatch_as-Ended coordinator w self pkt from s =
    Leaves-any (EndedIn coordinator w s) (on_coordinator w self pkt from s) _
      (λ r. leaves (λ x. cc (x.0)))
dispatch_as-Ended desc w self pkt from s = on_desc-Ended w self pkt from s
dispatch_as-Ended req w self pkt from s = leaves (λ x. cc (x.0))
dispatch_as-Ended rep_update w self pkt from s = leaves (λ x. cc (x.0))
dispatch_as-Ended election w self pkt from s =
    Leaves-any (EndedIn election w s)
      (handle_election_message w.reaches w.sleep w.now (some pkt) (some from) s) _
      (λ r. leaves (λ x. cc (x.0)))
dispatch_as-Ended answer w self pkt from s = leaves (λ x. cc (x.0))
dispatch_as-Ended ping w self pkt from s =
    Leaves-any (EndedIn ping w s) (handle_ping w.now (some pkt) (some from) s) _
      (λ r. leaves (λ x. cc (x.0)))
dispatch_as-Ended desc_ack w self pkt from s = leaves (λ x. cc (x.0))
dispatch_as-Ended req_ack w self pkt from s = leaves (λ x. cc (x.0))
dispatch_as-Ended rep_confirm w self pkt from s = leaves (λ x. cc (x.0))

pub dispatch-Ended :
    (w : World) (self : SockAddr) (pkt : Packet) (from : SockAddr) (s : Server)
    → Leaves (λ (r : Round). Ended pkt.type w s r.discovery) (dispatch w self pkt from s)
unfolding dispatch
dispatch-Ended w self pkt from s = dispatch_as-Ended pkt.type w self pkt from s
