-- ===== src/Client/Discovery.antt =====
-- client/discovery.c: `discover_server`. How the socket calls answer, in each round of its loop for
-- a list of them, is an argument.
pub mod Retries
use inf01151_trabalho.Common.{ℕ, List, [], ◌∷◌, Bool, if◌then◌else◌}

-- `sendto` succeeds or would block, or fails for another reason.
pub data SendAnswer : Type 0 where
  goes_on failed : SendAnswer

-- `recvfrom` times out, fails for another reason, or gives the address of a server and whether
-- `inet_ntop` can print it.
pub data ReceiveAnswer : Type 0 where
  timeout broken : ReceiveAnswer
  answered : ℕ → Bool → ReceiveAnswer

-- How `discover_server` stands after some rounds: still in its loop, left by `exit(1)`, or back
-- with the server's address.
pub data Search : Type 0 where
  searching exited : Search
  found : ℕ → Search

-- `while (1)`.
unfoldable pub search_server : List (SendAnswer × ReceiveAnswer) → Search
search_server [] = searching
search_server ((failed, r) ∷ rounds) = exited
search_server ((goes_on, timeout) ∷ rounds) = search_server rounds
search_server ((goes_on, broken) ∷ rounds) = exited
search_server ((goes_on, answered addr printable) ∷ rounds) =
    if printable then found addr else exited

-- Whether each of the two timeouts can be set comes first.
unfoldable pub discover_server : Bool → Bool → List (SendAnswer × ReceiveAnswer) → Search
unfolding search_server
discover_server send_timeout receive_timeout rounds =
    if send_timeout then (if receive_timeout then search_server rounds else exited) else exited
