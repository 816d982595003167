-- ===== src/Server/Threads/Money.antt =====
-- What the request threads do to the money.
use inf01151_trabalho.Common.{
  ℕ, ◌+◌, ◌*◌, ◌≤◌, ◌≡◌, List, [], ◌∷◌, All, All-mono, arith, length, pos_part, length-take,
}
use inf01151_trabalho.Server.Types.{Client, Server}
use inf01151_trabalho.Server.Ledger.{clients, IsValid}
use inf01151_trabalho.Server.Clients.Find.{sum_balances}
use inf01151_trabalho.Server.Replication.Sends.{HasPeers}
use inf01151_trabalho.Server.Threads.{Pool, no_threads, Reach}
use inf01151_trabalho.Server.Threads.Linear.{Reach-IsLinear}

balances-bound : (xs : List Client) → All (λ c. c.balance ≤ sum_balances xs) xs
unfolding sum_balances
balances-bound [] = tt
balances-bound (c ∷ cs) = (
  omega arith,
  All-mono (λ (d : Client). d.balance ≤ sum_balances cs)
      (λ (d : Client). d.balance ≤ c.balance + sum_balances cs) cs (λ d h. omega (arith, h))
      (balances-bound cs),
)

-- Whatever the interleaving of the request threads of a well-formed server and the discoveries that
-- it answers: the balances add up to 100 for each registered client, and no balance is above 1000.
pub balances_conserved :
    {s : Server} {p : Pool}
    → IsValid s.ledger
    → HasPeers s
    → Reach (no_threads s) p
    → (sum_balances (clients p.server.ledger) ≡ 100 * length (clients p.server.ledger))
      × All (λ c. c.balance ≤ 1000) (clients p.server.ledger)
balances_conserved {s} {p} v peers reach =
    let l = p.server.ledger in
    let valid = (Reach-IsLinear v peers reach).valid in
    let many : ◌≡◌ {A = ℕ} (length (clients l)) (pos_part l.num_clients) =
      omega (arith, length-take (pos_part l.num_clients) l.client_table, valid.size, valid.few) in
    (
      omega (arith, valid.money, many),
      All-mono (λ (c : Client). c.balance ≤ sum_balances (clients l))
          (λ (c : Client). c.balance ≤ 1000) (clients l)
          (λ c h. omega (arith, h, valid.money, valid.few)) (balances-bound (clients l)),
    )
