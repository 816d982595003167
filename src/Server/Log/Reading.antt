-- ===== src/Server/Log/Reading.antt =====
-- The server's log can be read back.
use inf01151_trabalho.Common.{
  ℕ, ◌<◌, ◌^◌, ◌≡◌, refl, ap, ℤ, pos, ◌+ℤ◌, List, [], ◌∷◌, Outcome, done, ◌>>=◌, Option, none, some,
}
use inf01151_trabalho.Print.{
  lit, d, Conversion, lit', signed', unsigned', word', Read, skipped, int, uint, word, text, printf,
  render, scan_line,
}
use inf01151_trabalho.Print.Numbers.{IsInt}
use inf01151_trabalho.Print.Lines.{IsWord, scan_line-printf}
use inf01151_trabalho.Print.Clock.{Tm, IsTime, stamped_lem, date, date-Fits, date_format, date_read}
use inf01151_trabalho.Server.Log.{history_pieces, newline, log_history, log_request, request_pieces}

-- Each line by its format.
abbrev pub scan_lines : List (List Conversion) → List (List ℕ) → List (Option (List Read))
scan_lines [] ts = []
scan_lines (cs ∷ css) [] = none ∷ scan_lines css []
scan_lines (cs ∷ css) (t ∷ ts) = scan_line cs t ∷ scan_lines css ts

-- The lines that are printed, read by their formats.
abbrev pub logged :
    List (List Conversion) → Outcome (List (List ℕ)) → Outcome (List (Option (List Read)))
logged css m = m >>= λ ts. done (scan_lines css ts)

abbrev pub history_format : List Conversion
history_format = date_format (
    lit' (text " num_transactions ")
    ∷ signed'
    ∷ lit' (text " total_transferred ")
    ∷ signed'
    ∷ lit' (text " total_balance ")
    ∷ signed'
    ∷ lit' (10 ∷ [])
    ∷ [])

-- What `log_history` prints shows the time and the three totals: reading it by its format gives them
-- back, where the time and the totals are in the range of `int`.
pub scan_line-log_history :
    {tm : Tm} (n t b : ℤ)
    → IsTime tm
    → IsInt n
    → IsInt t
    → IsInt b
    → logged (history_format ∷ []) (log_history tm n t b)
      ≡ done (
          some (date_read tm (skipped ∷ int n ∷ skipped ∷ int t ∷ skipped ∷ int b ∷ skipped ∷ []))
          ∷ [])
unfolding log_history printf render
scan_line-log_history {tm} n t b time n_int t_int b_int =
    rw (stamped_lem (history_pieces n t b) time) (
      ap (λ (o : Option (List Read)). done (o ∷ []))
        (scan_line-printf
          (date (tm.tm_year +ℤ pos 1900) (tm.tm_mon +ℤ pos 1) tm (history_pieces n t b))
          (date-Fits (history_pieces n t b) time refl
            (n_int, refl, (t_int, refl, (b_int, refl, tt))))))

-- The first line of a request that is logged, with its mark.
abbrev pub request_format : List ℕ → List Conversion
request_format mark = date_format (
    lit' (text " client ")
    ∷ word'
    ∷ lit' mark
    ∷ unsigned'
    ∷ lit' (text " dest ")
    ∷ word'
    ∷ lit' (text " value ")
    ∷ unsigned'
    ∷ lit' (10 ∷ [])
    ∷ [])

abbrev pub request_read : Tm → List ℕ → List ℕ → ℕ → ℕ → List Read
request_read tm client dest req_id value = date_read tm (
    skipped
    ∷ word client
    ∷ skipped
    ∷ uint req_id
    ∷ skipped
    ∷ word dest
    ∷ skipped
    ∷ uint value
    ∷ skipped
    ∷ [])

module _ {tm : Tm} (client dest : List ℕ) (req_id value : ℕ) (n t b : ℤ) (time : IsTime tm)
    (client_word : IsWord client) (dest_word : IsWord dest) (id_u32 : req_id < 2 ^ 32)
    (value_u32 : value < 2 ^ 32) (n_int : IsInt n) (t_int : IsInt t) (b_int : IsInt b) where
  -- What `log_request` prints shows the time, the two clients, the number, the value and the totals
  -- after the transfer: reading its three lines by their formats gives them back, where the numbers
  -- are in the range of their C types and the addresses have no space.
  pub scan_lines-log_request :
      logged
        (request_format (text " id req ")
          ∷ (lit' (text "num transactions ") ∷ signed' ∷ lit' (10 ∷ []) ∷ [])
          ∷ (lit' (text "total transferred ")
              ∷ signed'
              ∷ lit' (text " total balance ")
              ∷ signed'
              ∷ lit' (10 ∷ [])
              ∷ [])
          ∷ [])
        (log_request tm client dest req_id value n t b)
      ≡ done (
          some (request_read tm client dest req_id value)
          ∷ some (skipped ∷ int n ∷ skipped ∷ [])
          ∷ some (skipped ∷ int t ∷ skipped ∷ int b ∷ skipped ∷ [])
          ∷ [])
  unfolding log_request printf render
  scan_lines-log_request =
      let pieces = request_pieces (text " id req ") client dest req_id value in
      let first = scan_line-printf (date (tm.tm_year +ℤ pos 1900) (tm.tm_mon +ℤ pos 1) tm pieces) (
        date-Fits pieces time refl
          (client_word, refl, (id_u32, refl, (dest_word, refl, (value_u32, refl, tt))))) in
      let second =
        scan_line-printf (lit (text "num transactions ") ∷ d n ∷ newline ∷ []) (n_int, refl, tt) in
      let third =
        scan_line-printf
          (lit (text "total transferred ")
            ∷ d t
            ∷ lit (text " total balance ")
            ∷ d b
            ∷ newline
            ∷ [])
          (t_int, refl, (b_int, refl, tt)) in
      rw (stamped_lem pieces time) (λ k. done (first k ∷ second k ∷ third k ∷ []))
