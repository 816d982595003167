-- ===== src/Client/Log.antt =====
-- client/interface.c: what each function prints. What `localtime` gives is an argument.
pub mod Reading
use inf01151_trabalho.Common.{ℕ, List, [], ◌∷◌, Outcome, done, ◌>>=◌}
use inf01151_trabalho.Print.{Piece, lit, u, s, text, printf}
use inf01151_trabalho.Print.Clock.{Tm, stamped}

abbrev newline : Piece
newline = lit (10 ∷ [])

unfoldable pub log_connection : Tm → List ℕ → Outcome (List ℕ)
unfolding stamped printf
log_connection local_time server_ip = do
  line ← stamped local_time (lit (text " server addr ") ∷ s server_ip ∷ newline ∷ [])
  done (printf line)

unfoldable pub log_timeout : Tm → Outcome (List ℕ)
unfolding stamped printf
log_timeout local_time = do
  line ← stamped local_time (lit (text " broadcast timeout") ∷ newline ∷ [])
  done (printf line)

abbrev pub request_pieces : List ℕ → List ℕ → ℕ → ℕ → ℕ → List Piece
request_pieces server_ip dest_ip req_id value new_balance =
    lit (text " server ")
    ∷ s server_ip
    ∷ lit (text " id req ")
    ∷ u req_id
    ∷ lit (text " dest ")
    ∷ s dest_ip
    ∷ lit (text " value ")
    ∷ u value
    ∷ lit (text " new balance ")
    ∷ u new_balance
    ∷ newline
    ∷ []

unfoldable pub log_request : Tm → List ℕ → List ℕ → ℕ → ℕ → ℕ → Outcome (List ℕ)
unfolding stamped printf
log_request local_time server_ip dest_ip req_id value new_balance = do
  line ← stamped local_time (request_pieces server_ip dest_ip req_id value new_balance)
  done (printf line)
