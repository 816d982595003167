-- ===== src/Print/Clock.antt =====
-- The local time that every line of the two logs begins with. The clock's answer is an argument.
use inf01151_trabalho.Common.{
  ℕ, ◌≡◌, refl, ℤ, pos, negsuc, ◌+ℤ◌, ◌<ℤ◌, int_lt, int_max, add_int, List, ◌∷◌, Outcome, done,
  ◌>>=◌, arith,
}
use inf01151_trabalho.Print.{
  Piece, lit, d, d02, Conversion, lit', signed', Read, skipped, int, text, printf,
}
use inf01151_trabalho.Print.Numbers.{IsInt, Ends}
use inf01151_trabalho.Print.Lines.{Fits}

-- The fields of `struct tm` that are printed.
pub record Tm : Type 0 where
  pub tm_year : ℤ
  pub tm_mon : ℤ
  pub tm_mday : ℤ
  pub tm_hour : ℤ
  pub tm_min : ℤ
  pub tm_sec : ℤ

-- `"%d-%02d-%02d %02d:%02d:%02d"` before `line`.
abbrev pub date : ℤ → ℤ → Tm → List Piece → List Piece
date year month tm line =
    d year
    ∷ lit (text "-")
    ∷ d02 month
    ∷ lit (text "-")
    ∷ d02 tm.tm_mday
    ∷ lit (text " ")
    ∷ d02 tm.tm_hour
    ∷ lit (text ":")
    ∷ d02 tm.tm_min
    ∷ lit (text ":")
    ∷ d02 tm.tm_sec
    ∷ line

-- `local_time->tm_year + 1900` and `local_time->tm_mon + 1`.
unfoldable pub stamped : Tm → List Piece → Outcome (List Piece)
unfolding add_int
stamped tm line = do
  year ← add_int tm.tm_year 1900
  month ← add_int tm.tm_mon 1
  done (date year month tm line)

abbrev pub date_format : List Conversion → List Conversion
date_format line =
    signed'
    ∷ lit' (text "-")
    ∷ signed'
    ∷ lit' (text "-")
    ∷ signed'
    ∷ lit' (text " ")
    ∷ signed'
    ∷ lit' (text ":")
    ∷ signed'
    ∷ lit' (text ":")
    ∷ signed'
    ∷ line

-- The date that is printed.
abbrev pub date_read : Tm → List Read → List Read
date_read tm line =
    int (tm.tm_year +ℤ pos 1900)
    ∷ skipped
    ∷ int (tm.tm_mon +ℤ pos 1)
    ∷ skipped
    ∷ int tm.tm_mday
    ∷ skipped
    ∷ int tm.tm_hour
    ∷ skipped
    ∷ int tm.tm_min
    ∷ skipped
    ∷ int tm.tm_sec
    ∷ line

-- The fields are `int`s, and the two sums do not overflow.
pub record IsTime (tm : Tm) : Type 0 where
  pub year : IsInt tm.tm_year
  pub month : IsInt tm.tm_mon
  pub day : IsInt tm.tm_mday
  pub hour : IsInt tm.tm_hour
  pub minute : IsInt tm.tm_min
  pub second : IsInt tm.tm_sec
  pub year_room : ¬ (int_max <ℤ tm.tm_year +ℤ pos 1900)
  pub month_room : ¬ (int_max <ℤ tm.tm_mon +ℤ pos 1)

add_int-done : (z : ℤ) (k : ℕ) → ¬ (int_max <ℤ z +ℤ pos k) → add_int z k ≡ done (z +ℤ pos k)
unfolding add_int int_lt ◌+ℤ◌
add_int-done z k room = ground arith

IsInt-sum : (z : ℤ) (k : ℕ) → IsInt z → ¬ (int_max <ℤ z +ℤ pos k) → IsInt (z +ℤ pos k)
unfolding ◌+ℤ◌
IsInt-sum (pos n) k range room = (ground (arith, room), ground (arith, room))
IsInt-sum (negsuc n) k range room = (ground (arith, room, range.1), ground (arith, range.1))

pub stamped_lem :
    {tm : Tm} (line : List Piece)
    → IsTime tm
    → stamped tm line ≡ done (date (tm.tm_year +ℤ pos 1900) (tm.tm_mon +ℤ pos 1) tm line)
unfolding stamped
stamped_lem {tm} line h =
    rw (add_int-done tm.tm_year 1900 h.year_room, add_int-done tm.tm_mon 1 h.month_room) refl

pub date-Fits :
    {tm : Tm} (line : List Piece)
    → IsTime tm
    → Ends (printf line)
    → Fits line
    → Fits (date (tm.tm_year +ℤ pos 1900) (tm.tm_mon +ℤ pos 1) tm line)
unfolding printf inf01151_trabalho.Print.render
date-Fits {tm} line h ends fits = (
  IsInt-sum tm.tm_year 1900 h.year h.year_room,
  refl,
  (
    IsInt-sum tm.tm_mon 1 h.month h.month_room,
    refl,
    (h.day, refl, (h.hour, refl, (h.minute, refl, (h.second, ends, fits)))),
  ),
)
