-- ===== src/Server/Log.antt =====
-- server/interface.c: what each function prints, one text for each call of `printf`. What
-- `localtime` gives is an argument.
pub mod Reading
use inf01151_trabalho.Common.{ℕ, ℤ, List, [], ◌∷◌, Outcome, done, ◌>>=◌, add_int}
use inf01151_trabalho.Print.{Piece, lit, d, u, s, text, printf}
use inf01151_trabalho.Print.Clock.{Tm, stamped}

abbrev pub newline : Piece
newline = lit (10 ∷ [])

abbrev pub history_pieces : ℤ → ℤ → ℤ → List Piece
history_pieces num_transactions total_transferred total_balance =
    lit (text " num_transactions ")
    ∷ d num_transactions
    ∷ lit (text " total_transferred ")
    ∷ d total_transferred
    ∷ lit (text " total_balance ")
    ∷ d total_balance
    ∷ newline
    ∷ []

unfoldable pub log_history : Tm → ℤ → ℤ → ℤ → Outcome (List (List ℕ))
unfolding stamped printf
log_history local_time num_transactions total_transferred total_balance = do
  line ← stamped local_time (history_pieces num_transactions total_transferred total_balance)
  done (printf line ∷ [])

abbrev pub discovery_pieces : List ℕ → List Piece
discovery_pieces client =
    lit (text " client ") ∷ s client ∷ lit (text " discovery received") ∷ newline ∷ []

unfoldable pub log_discovery : Tm → List ℕ → Outcome (List (List ℕ))
unfolding stamped printf
log_discovery local_time client = do
  line ← stamped local_time (discovery_pieces client)
  done (printf line ∷ [])

-- `mark` is what stands between the client and the number.
abbrev pub request_pieces : List ℕ → List ℕ → List ℕ → ℕ → ℕ → List Piece
request_pieces mark client_ip dest_ip req_id value =
    lit (text " client ")
    ∷ s client_ip
    ∷ lit mark
    ∷ u req_id
    ∷ lit (text " dest ")
    ∷ s dest_ip
    ∷ lit (text " value ")
    ∷ u value
    ∷ newline
    ∷ []

unfoldable pub log_request : Tm → List ℕ → List ℕ → ℕ → ℕ → ℤ → ℤ → ℤ → Outcome (List (List ℕ))
unfolding stamped printf
log_request local_time client_ip dest_ip req_id value num_transactions total_transferred
      total_balance =
    do
      line ← stamped local_time (request_pieces (text " id req ") client_ip dest_ip req_id value)
      done (
          printf line
          ∷ printf (lit (text "num transactions ") ∷ d num_transactions ∷ newline ∷ [])
          ∷ printf (
              lit (text "total transferred ")
              ∷ d total_transferred
              ∷ lit (text " total balance ")
              ∷ d total_balance
              ∷ newline
              ∷ [])
          ∷ [])

unfoldable pub log_duplicate_request :
    Tm → List ℕ → List ℕ → ℕ → ℕ → ℤ → ℤ → ℤ → Outcome (List (List ℕ))
unfolding stamped printf
log_duplicate_request local_time client_ip dest_ip req_id value num_transactions total_transferred
      total_balance =
    do
      line ←
          stamped local_time (request_pieces (text " DUP!! id req ") client_ip dest_ip req_id value)
      done (
          printf line
          ∷ printf (
              lit (text "num transactions ")
              ∷ d num_transactions
              ∷ lit (text " total transferred ")
              ∷ d total_transferred
              ∷ lit (text " total balance ")
              ∷ d total_balance
              ∷ newline
              ∷ [])
          ∷ [])
