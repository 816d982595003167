-- ===== src/Client/Log/Reading.antt =====
-- The client's log can be read back.
use inf01151_trabalho.Common.{
  ℕ, ◌<◌, ◌^◌, ◌≡◌, refl, ap, pos, ◌+ℤ◌, List, [], ◌∷◌, done, ◌>>=◌, Option, some,
}
use inf01151_trabalho.Print.{
  Conversion, lit', unsigned', word', Read, skipped, uint, word, text, printf, render, scan_line,
}
use inf01151_trabalho.Print.Lines.{IsWord, scan_line-printf}
use inf01151_trabalho.Print.Clock.{Tm, IsTime, stamped_lem, date, date-Fits, date_format, date_read}
use inf01151_trabalho.Client.Log.{log_request, request_pieces}

abbrev pub request_format : List Conversion
request_format = date_format (
    lit' (text " server ")
    ∷ word'
    ∷ lit' (text " id req ")
    ∷ unsigned'
    ∷ lit' (text " dest ")
    ∷ word'
    ∷ lit' (text " value ")
    ∷ unsigned'
    ∷ lit' (text " new balance ")
    ∷ unsigned'
    ∷ lit' (10 ∷ [])
    ∷ [])

-- What the client's `log_request` prints shows the time, the server, the number of the request, its
-- destination and value and the new balance: reading it by its format gives them back, where the
-- numbers are in the range of their C types and the addresses have no space.
pub scan_line-log_request :
    {tm : Tm} (server dest : List ℕ) (req_id value balance : ℕ)
    → IsTime tm
    → IsWord server
    → IsWord dest
    → req_id < 2 ^ 32
    → value < 2 ^ 32
    → balance < 2 ^ 32
    → (log_request tm server dest req_id value balance >>= λ line.
        done (scan_line request_format line))
      ≡ done (
          some (
            date_read tm (
              skipped
              ∷ word server
              ∷ skipped
              ∷ uint req_id
              ∷ skipped
              ∷ word dest
              ∷ skipped
              ∷ uint value
              ∷ skipped
              ∷ uint balance
              ∷ skipped
              ∷ [])))
unfolding log_request printf render
scan_line-log_request {tm} server dest req_id value balance time server_word dest_word id_u32
      value_u32 balance_u32 =
    let pieces = request_pieces server dest req_id value balance in
    rw (stamped_lem pieces time) (
      ap (λ (o : Option (List Read)). done o)
        (scan_line-printf (date (tm.tm_year +ℤ pos 1900) (tm.tm_mon +ℤ pos 1) tm pieces) (
          date-Fits pieces time refl (
            server_word,
            refl,
            (id_u32, refl, (dest_word, refl, (value_u32, refl, (balance_u32, refl, tt)))),
          ))))
