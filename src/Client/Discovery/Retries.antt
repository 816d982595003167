-- ===== src/Client/Discovery/Retries.antt =====
-- The retries of `discover_server`.
use inf01151_trabalho.Common.{
  ℕ, zero, suc, ◌≡◌, ◌↔◌, refl, ap, ◌∙◌, List, [], ◌∷◌, ◌++◌, true, false, replicate,
}
use inf01151_trabalho.Client.Discovery.{
  SendAnswer, goes_on, failed, ReceiveAnswer, timeout, broken, answered, Search, searching, exited,
  found, search_server, discover_server,
}

abbrev Try : Type 0
Try = SendAnswer × ReceiveAnswer

-- What the rounds have been for the search to end with a server: time-outs, and then its answer.
pub record Found (addr : ℕ) (rounds : List Try) : Type 0 where
  pub tries : ℕ
  pub later : List Try
  pub answers :
      rounds ≡ replicate tries (goes_on, timeout) ++ ((goes_on, answered addr true) ∷ later)

Found-next :
    {addr : ℕ} {rounds : List Try} → Found addr rounds → Found addr ((goes_on, timeout) ∷ rounds)
Found-next h = record {
  tries = suc h.tries;
  later = h.later;
  answers = ap (λ (rs : List Try). (goes_on, timeout) ∷ rs) h.answers;
}

addr_of : ℕ → Search → ℕ
addr_of n searching = n
addr_of n exited = n
addr_of n (found a) = a

search_server-Found :
    (addr : ℕ) (rounds : List Try) → search_server rounds ≡ found addr → Found addr rounds
unfolding search_server addr_of
search_server-Found addr [] e = cc e
search_server-Found addr ((failed, r) ∷ rounds) e = cc e
search_server-Found addr ((goes_on, timeout) ∷ rounds) e =
    Found-next (search_server-Found addr rounds e)
search_server-Found addr ((goes_on, broken) ∷ rounds) e = cc e
search_server-Found addr ((goes_on, answered a false) ∷ rounds) e = cc e
search_server-Found addr ((goes_on, answered a true) ∷ rounds) e = record {
  tries = 0;
  later = rounds;
  answers = ap (λ x. (goes_on, answered x true) ∷ rounds) (ap (addr_of addr) e);
}

search_server-retries :
    (addr n : ℕ) (later : List Try)
    → search_server (replicate n (goes_on, timeout) ++ ((goes_on, answered addr true) ∷ later))
      ≡ found addr
unfolding search_server
search_server-retries addr zero later = refl
search_server-retries addr (suc n) later = search_server-retries addr n later

-- Once its two timeouts are set, `discover_server` comes back with an address just where some rounds
-- have timed out, with no limit to their number, and the next has brought an answer from that
-- address, which `inet_ntop` can print.
pub discover_server_refines :
    (addr : ℕ) (rounds : List Try)
    → (discover_server true true rounds ≡ found addr) ↔ Found addr rounds
unfolding discover_server
discover_server_refines addr rounds = (
  search_server-Found addr rounds,
  λ h. ap search_server h.answers ∙ search_server-retries addr h.tries h.later,
)
