-- ===== src/Server/Life.antt =====
-- A server from its start on: rounds of the receive loop and of the ping monitor, and requests that
-- the request threads answer, in any order. While one of them sleeps the others go on: what they do
-- meanwhile, a function as in `World`, is any sequence of these moves.
use inf01151_trabalho.Common.{
  ◌∙◌, sym, subst, ℕ, ◌≡◌, ℤ, Option, some, Outcome, done, Bool, inl, inr, List, done≢fault,
  done-injective,
}
use inf01151_trabalho.Server.Types.{LeaderInfo, Packet, Ledger, Server, Sent, SockAddr, req}
use inf01151_trabalho.Server.Ping.{monitor_round}
use inf01151_trabalho.Server.Startup.{startup, initial}
use inf01151_trabalho.Server.Dispatch.{World, Round, dispatch}
use inf01151_trabalho.Server.Safety.{IsSafe, IsGood, SafeOut, Runs, Runs-done}
use inf01151_trabalho.Server.Safety.Starts.{GoodReply}
use inf01151_trabalho.Server.Safety.Rounds.{SafeRound, dispatch-Runs}
use inf01151_trabalho.Server.Safety.Heartbeat.{monitor_round-Runs}
use inf01151_trabalho.Server.Frame.{Leaves, Leaves-done}
use inf01151_trabalho.Server.Frame.Elections.{KeptOut, monitor_round-Leaves}
use inf01151_trabalho.Server.Frame.Rounds.{dispatch-Leaves}
use inf01151_trabalho.Server.Frame.Requests.{handle_request-Leaves}
use inf01151_trabalho.Server.Frame.Led.{IsLed, led_frame, startup-IsLed}
use inf01151_trabalho.Server.Processing.{handle_request}
use inf01151_trabalho.Server.Processing.Overflow.{handle_request-cases}

-- From one state of the globals to another by what the threads of a server bound to `self` do, when
-- the packets that come are well formed.
pub data Moves (self : SockAddr) : Server → Server → Type 0 where
  stays : {s : Server} → Moves self s s
  received :
      (w : World) (pkt : Packet) (from : SockAddr) {s t : Server} {r : Round}
      → Moves self s t
      → ((k : ℕ) (u : Server) → Moves self u (w.sleep k u))
      → IsGood pkt
      → dispatch w self pkt from t ≡ done r
      → Moves self s r.server
  monitored :
      (reaches : ℕ → Bool) (sleep : ℕ → Server → Server) (now : ℕ) {s t t' : Server}
      {out : List Sent}
      → Moves self s t
      → ((k : ℕ) (u : Server) → Moves self u (sleep k u))
      → monitor_round reaches sleep now t ≡ done (t', out)
      → Moves self s t'
  served :
      (addr : SockAddr) (pkt : Packet) {s t t' : Server} {out : List Sent}
      → Moves self s t
      → pkt.type ≡ req
      → handle_request (some addr) (some pkt) t ≡ done (t', out)
      → Moves self s t'

-- The globals that a server with the id `my_id` that has bound `self` can have, between handlers.
pub data Reached (self : SockAddr) (my_id : ℤ) : Server → Type 0 where
  started :
      (overlay : Packet → LeaderInfo) (now : ℕ) (reply : Option (Packet × SockAddr)) {s : Server}
      {out : List Sent}
      → GoodReply overlay reply
      → startup overlay now self reply (initial my_id) ≡ done (s, out)
      → Reached self my_id s
  moved : {s t : Server} → Reached self my_id s → Moves self s t → Reached self my_id t

-- Well formed, and led.
abbrev pub IsUp : ℤ → Server → Type 0
IsUp id s = IsSafe s × IsLed id s

-- A value that is known twice.
at_done {ℓ} :
    {A : Type ℓ} (P : A → Type 0) {m : Outcome A} {a b : A} → m ≡ done a → m ≡ done b → P a → P b
at_done P e f h = subst P (done-injective (sym e ∙ f)) h

-- A ledger that is well formed in the place of the old one.
IsSafe-ledger :
    {s : Server} {l : Ledger}
    → IsSafe s
    → inf01151_trabalho.Server.Ledger.IsValid l
    → IsSafe (record s { ledger = l })
IsSafe-ledger safe valid = record {
  has_peers = record {
    list_size = safe.has_peers.list_size;
    servers_counted = safe.has_peers.servers_counted;
    servers_few = safe.has_peers.servers_few;
  };
  health_size = safe.health_size;
  valid = valid;
}

IsLed-ledger : (id : ℤ) (s : Server) (l : Ledger) → IsLed id s → IsLed id (record s { ledger = l })
IsLed-ledger id s l led = record {
  identity = led.identity;
  not_below = led.not_below;
  role = led.role;
}

-- What holds if a value comes holds of the value that has come.
left_at {ℓ} : {A : Type ℓ} (P : A → Type 0) {m : Outcome A} {a : A} → m ≡ done a → Leaves P m → P a
left_at P e h = Leaves-done (subst (Leaves P) e h)

runs_at {ℓ} : {A : Type ℓ} (P : A → Type 0) (m : Outcome A) {a : A} → m ≡ done a → Runs P m → P a
runs_at P m e h = let (b, is, p) = Runs-done P m h in at_done P is e p

pub Moves-IsSafe : (self : SockAddr) {s t : Server} → Moves self s t → IsSafe s → IsSafe t
Moves-IsSafe self stays safe = safe
Moves-IsSafe self (received w pkt from before meanwhile good e) safe =
    (runs_at SafeRound _ e (
      dispatch-Runs w self pkt from (λ k u. Moves-IsSafe self (meanwhile k u)) good
        (Moves-IsSafe self before safe))).0
Moves-IsSafe self (monitored reaches sleep now before meanwhile e) safe =
    (runs_at SafeOut _ e (
      monitor_round-Runs reaches sleep now (λ k u. Moves-IsSafe self (meanwhile k u))
        (Moves-IsSafe self before safe))).0
Moves-IsSafe self (served addr pkt before is_request e) safe =
    let safe' = Moves-IsSafe self before safe in
    elim (handle_request-cases addr pkt is_request safe'.valid safe'.has_peers) [
      | inl handled ↦
          at_done (λ (r : Server × List Sent). IsSafe r.0) handled.returns e
            (IsSafe-ledger safe' handled.valid)
      | inr faults ↦ absurd (done≢fault (sym e ∙ faults))
    ]

pub Moves-IsLed :
    (self : SockAddr) (id : ℤ) {s t : Server} → Moves self s t → IsLed id s → IsLed id t
Moves-IsLed self id stays led = led
Moves-IsLed self id (received w pkt from before meanwhile good e) led =
    left_at (λ (r : Round). IsLed id r.server) e
      (dispatch-Leaves (led_frame id) w self pkt from (λ k u. Moves-IsLed self id (meanwhile k u))
        tt (Moves-IsLed self id before led))
Moves-IsLed self id (monitored reaches sleep now before meanwhile e) led =
    left_at (KeptOut (led_frame id)) e (
      monitor_round-Leaves (led_frame id) reaches sleep now
        (λ k u. Moves-IsLed self id (meanwhile k u)) (Moves-IsLed self id before led))
Moves-IsLed self id (served addr pkt before is_request e) led =
    left_at (λ (r : Server × List Sent). IsLed id r.0) e
      (handle_request-Leaves (IsLed id) (IsLed-ledger id) addr pkt (Moves-IsLed self id before led))

-- In every state that a server reaches from its start, with no reply or one of which the bytes read
-- as a list of servers are well formed, by any sequence of rounds of the receive loop on well-formed
-- packets, rounds of the ping monitor and answered requests, where such sequences also run while a
-- round sleeps: its arrays, counts and ledger are well formed, its id is the one that it started
-- with, its leader's id is not lower, and if it is a primary it is its own leader.
pub Reached-IsUp : (self : SockAddr) (my_id : ℤ) {s : Server} → Reached self my_id s → IsUp my_id s
Reached-IsUp self my_id (started overlay now reply good e) =
    let (r, is, safe, led) = startup-IsLed overlay now self reply my_id good in
    at_done (λ (r : Server × List Sent). IsUp my_id r.0) is e (safe.0, led)
Reached-IsUp self my_id (moved before m) =
    let (safe, led) = Reached-IsUp self my_id before in
    (Moves-IsSafe self m safe, Moves-IsLed self my_id m led)
