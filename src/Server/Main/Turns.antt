-- ===== src/Server/Main/Turns.antt =====
-- A whole run of `main`: what it needs to serve, and when its loop is left.
use inf01151_trabalho.Common.{
  subst, none, some, ℕ, ◌≡◌, refl, ℤ, pos, Bool, true, false, ◌&&◌, Option, List, [], ◌∷◌, All,
  Outcome, done, ap, int_eq, ◌>>=◌, ◌==◌,
}
use inf01151_trabalho.Server.Types.{Packet, Server, SockAddr}
use inf01151_trabalho.Server.Dispatch.{Round, World, quiet_round}
use inf01151_trabalho.Server.Safety.{IsGood, AllGood}
use inf01151_trabalho.Server.Frame.Led.{dispatch-IsLed}
use inf01151_trabalho.Server.Discovery.{Discovery, silent, replied, exited}
use inf01151_trabalho.Server.Frame.{Leaves, Leaves-done}
use inf01151_trabalho.Server.Main.Exits.{IsExiting, Ended, dispatch-Ended}
use inf01151_trabalho.Server.Life.{IsUp, Moves, Moves-IsSafe, Moves-IsLed}
use inf01151_trabalho.Server.Main.{
  Turn, goes_on, left, after_round, Calls, Process, ended, serves, Arrival, no_memory, no_packet,
  arrived, turn,
}

-- The turns on a sequence of arrivals, up to the one in which the process leaves, if there is one: the
-- server that is left, if it has not.
unfoldable pub turns : SockAddr → List Arrival → Server → Outcome (Option Server)
unfolding turn
turns server_addr [] s = done (some s)
turns server_addr (a ∷ arrivals) s = turn server_addr a s >>= λ t. elim t [
  | left ↦ done none
  | goes_on s' r ↦ turns server_addr arrivals s'
]

-- The packet is well formed; while an election sleeps, the threads of the server go on.
abbrev pub GoodArrival : SockAddr → Arrival → Type 0
GoodArrival self no_memory = Unit {0}
GoodArrival self no_packet = Unit {0}
GoodArrival self (arrived w pkt from) =
    ((k : ℕ) (u : Server) → Moves self u (w.sleep k u)) × IsGood pkt

-- All calls that `main` needs succeed.
abbrev pub succeeds : ℕ → Calls → Bool
succeeds argc calls =
    argc == 3
    && calls.mutex_init
    && calls.socket
    && calls.bind
    && calls.enable_broadcast
    && calls.ask

-- The process serves, and is up.
abbrev pub ServesUp : ℤ → Process → Type 0
ServesUp id (ended code open_) = ⊥
ServesUp id (serves p) = IsUp id p.server × AllGood p.out

abbrev pub Fails : Process → Type 0
Fails (ended code open_) = int_eq code (pos 0) ≡ false
Fails (serves p) = ⊥

-- The arrival is a DESC that makes the process leave.
abbrev pub Exits : Arrival → Server → Type 0
Exits no_memory s = ⊥
Exits no_packet s = ⊥
Exits (arrived w pkt from) s = IsExiting pkt.type w s

-- The turns one by one: the server is up after each, until the process leaves, which it does just at
-- an arrival that makes it.
pub data Lasts (self : SockAddr) (id : ℤ) : List Arrival → Server → Option Server → Type 0 where
  serving : {s : Server} → IsUp id s → Lasts self id [] s (some s)
  leaves_at :
      {a : Arrival} {arrivals : List Arrival} {s : Server}
      → IsUp id s
      → Exits a s
      → Lasts self id (a ∷ arrivals) s none
  lasts :
      {a : Arrival} {arrivals : List Arrival} {s s' : Server} {r : Option Round} {o : Option Server}
      → IsUp id s
      → ¬ Exits a s
      → turn self a s ≡ done (goes_on s' r)
      → Lasts self id arrivals s' o
      → Lasts self id (a ∷ arrivals) s o

abbrev TurnFits : ℤ → Arrival → Server → Turn → Type 0
TurnFits id a s (goes_on s' r) = IsUp id s' × ¬ Exits a s
TurnFits id a s left = Exits a s

turned :
    (id : ℤ) (w : World) (pkt : Packet) (from : SockAddr) (s : Server) (r : Round) (d : Discovery)
    → Ended pkt.type w s d
    → IsUp id r.server
    → TurnFits id (arrived w pkt from) s (after_round d r)
turned id w pkt from s r silent h up = (up, h)
turned id w pkt from s r (replied addr text) h up = (up, h)
turned id w pkt from s r exited h up = h

turn-TurnFits :
    (self : SockAddr) (a : Arrival) (id : ℤ) {s : Server}
    → GoodArrival self a
    → IsUp id s
    → (t : Turn) × (turn self a s ≡ done t) × TurnFits id a s t
unfolding turn
turn-TurnFits self no_memory id {s} good up = (goes_on s none, refl, (up, λ x. absurd x))
turn-TurnFits self no_packet id {s} good up =
    (goes_on s (some (quiet_round s [])), refl, (up, λ x. absurd x))
turn-TurnFits self (arrived w pkt from) id {s} (meanwhile, good) (safe, led) =
    let (r, is, safe', led') =
      dispatch-IsLed w self pkt from id (λ k u. Moves-IsSafe self (meanwhile k u))
        (λ k u. Moves-IsLed self id (meanwhile k u)) good safe led in
    let ended =
      subst (Leaves (λ (r : Round). Ended pkt.type w s r.discovery)) is
        (dispatch-Ended w self pkt from s) in
    (
      after_round r.discovery r,
      ap (λ (m : Outcome Round). m >>= λ r. done (after_round r.discovery r)) is,
      turned id w pkt from s r r.discovery (Leaves-done ended) (safe'.0, led'),
    )

turns-from :
    (self : SockAddr) (a : Arrival) (arrivals : List Arrival) (id : ℤ) (s : Server) (t : Turn)
    → IsUp id s
    → turn self a s ≡ done t
    → TurnFits id a s t
    → ((s' : Server)
        → IsUp id s'
        → (o : Option Server) × (turns self arrivals s' ≡ done o) × Lasts self id arrivals s' o)
    → (o : Option Server) × ((elim t [ left ↦ done none | goes_on s' r ↦ turns self arrivals s' ])
        ≡ done o)
      × Lasts self id (a ∷ arrivals) s o
turns-from self a arrivals id s left up is exits on = (none, refl, leaves_at up exits)
turns-from self a arrivals id s (goes_on s' r) up is (up', stays_on) on =
    let (o, goes, rest) = on s' up' in (o, goes, lasts up stays_on is rest)

-- A server that is up in its receive loop goes through any sequence of turns, on well-formed
-- packets, failed allocations and failed calls of `recvfrom`, without leaving an array or
-- overflowing: it is up after each turn, until the process leaves by `exit(1)`, which it does just at a
-- DESC that it gets as its own leader and for which `getsockname` or `sendto` fails. While an
-- election sleeps, the ping monitor and the request threads go on in any way.
pub turns-Lasts :
    (self : SockAddr) (arrivals : List Arrival) (id : ℤ) {s : Server}
    → All (GoodArrival self) arrivals
    → IsUp id s
    → (o : Option Server) × (turns self arrivals s ≡ done o) × Lasts self id arrivals s o
unfolding turns
turns-Lasts self [] id {s} good up = (some s, refl, serving up)
turns-Lasts self (a ∷ arrivals) id {s} good up =
    let (t, is, fits) = turn-TurnFits self a id good.0 up in
    rw is (
      turns-from self a arrivals id s t up is fits
        (λ s' up'. turns-Lasts self arrivals id good.1 up'))

-- What has become of the process, by whether all calls have succeeded.
abbrev pub Came : Bool → ℤ → Process → Type 0
Came true id p = ServesUp id p
Came false id p = Fails p
