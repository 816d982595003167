-- ===== src/Server/Leadership/Course.antt =====
-- The course of an election: whom it challenges, and how it ends.
use inf01151_trabalho.Common.{
  ℕ, suc, ◌+◌, ◌<◌, ◌≡◌, ℤ, Bool, true, false, List, [], ◌∷◌, ◌++◌, int_lt, if◌then◌else◌,
}
use inf01151_trabalho.Server.Types.{Replica, Server, Sent}
use inf01151_trabalho.Server.Election.{election_packet}
use inf01151_trabalho.Server.Replication.{rep_packet}
use inf01151_trabalho.Server.Replication.Sends.{peers, to_others}
use inf01151_trabalho.Server.Safety.Elections.{promoted}
use inf01151_trabalho.Server.Leadership.{announcement}

-- A challenge to each server with a higher id, in the order of the list.
unfoldable pub challenges : ℤ → List Replica → List Sent
challenges my_id [] = []
challenges my_id (r ∷ rs) =
    if int_lt my_id r.id
    then record { to = r.addr; pkt = election_packet my_id } ∷ challenges my_id rs
    else challenges my_id rs

-- How many of these challenges go out, of the servers from the `i`th on.
unfoldable pub reached : (ℕ → Bool) → ℤ → ℕ → List Replica → ℕ
reached reaches my_id i [] = 0
reached reaches my_id i (r ∷ rs) =
    if int_lt my_id r.id
    then (if reaches i
        then reached reaches my_id (suc i) rs + 1
        else reached reaches my_id (suc i) rs)
    else reached reaches my_id (suc i) rs

-- The packets of a promotion: the announcement with the servers known, and the ledger.
abbrev pub campaign : Server → List Replica → List Sent
campaign s servers =
    to_others s.my_id (announcement s servers) (peers s)
    ++ to_others s.my_id (rep_packet s.ledger) (peers s)

-- How an election ends, with the state and the packets that follow the challenges. `s` is the state
-- in which the server starts to wait, `k` the number of challenges that went out.
pub data Ends (sleep : ℕ → Server → Server) (now : ℕ) (s : Server) (k : ℕ) (s' : Server)
    (out : List Sent) : Type 0 where
  unchallenged :
      (servers : List Replica)
      → k ≡ 0
      → s' ≡ promoted now (sleep 1 s)
      → out ≡ campaign (sleep 1 s) servers
      → Ends sleep now s k s' out
  unanswered :
      (servers : List Replica)
      → 0 < k
      → (sleep 3 s).election_in_progress ≡ true
      → s' ≡ promoted now (sleep 3 s)
      → out ≡ campaign (sleep 3 s) servers
      → Ends sleep now s k s' out
  answered :
      0 < k
      → (sleep 3 s).election_in_progress ≡ false
      → s' ≡ sleep 3 s
      → out ≡ []
      → Ends sleep now s k s' out
