-- ===== src/Print.antt =====
-- The C library's `printf`, as far as the logs of both programs use it, and a reader of what it
-- prints.
pub mod Numbers
pub mod Lines
pub mod Clock
use Prim.Native.Char.{code}
use Prim.Native.String.{String}
use inf01151_trabalho.Common.{
  ℕ, zero, suc, ◌+◌, ◌-◌, ◌*◌, ◌/◌, ◌%◌, ℤ, pos, negsuc, List, [], ◌∷◌, ◌++◌, Bool, true, false,
  ◌&&◌, Option, none, some, leb, ltb, ◌==◌, if◌then◌else◌,
}

-- The bytes of a literal.
abbrev pub text : String → List ℕ
text String.[] = []
text (String.◌∷◌ c s) = code c ∷ text s

-- The decimal digits of `n` before `out`, ten of them at most.
unfoldable pub digits : ℕ → ℕ → List ℕ → List ℕ
digits zero n out = out
digits (suc k) n out =
    let rest = digits k (n / 10) ((b'0' + n % 10) ∷ out) in if n == 0 then out else rest

unfoldable pub decimal : ℕ → List ℕ → List ℕ
decimal n out = if n == 0 then b'0' ∷ out else digits 10 n out

-- The conversions of a format string, each with its argument.
pub data Piece : Type 0 where
  lit : List ℕ → Piece
  d : ℤ → Piece
  d02 : ℤ → Piece
  u : ℕ → Piece
  s : List ℕ → Piece

unfoldable pub signed : ℤ → List ℕ → List ℕ
unfolding decimal
signed (pos n) out = decimal n out
signed (negsuc n) out = b'-' ∷ decimal (suc n) out

-- A minus sign counts for the width.
unfoldable pub padded : ℤ → List ℕ → List ℕ
unfolding signed
padded (pos n) out = if ltb n 10 then b'0' ∷ signed (pos n) out else signed (pos n) out
padded (negsuc n) out = signed (negsuc n) out

unfoldable pub render : Piece → List ℕ → List ℕ
unfolding decimal signed padded
render (lit t) out = t ++ out
render (d z) out = signed z out
render (d02 z) out = padded z out
render (u n) out = decimal n out
render (s t) out = t ++ out

unfoldable pub printf : List Piece → List ℕ
unfolding render
printf [] = []
printf (p ∷ ps) = render p (printf ps)

-- A format string without its arguments.
pub data Conversion : Type 0 where
  lit' : List ℕ → Conversion
  signed' unsigned' word' : Conversion

abbrev pub conversion : Piece → Conversion
conversion (lit t) = lit' t
conversion (d z) = signed'
conversion (d02 z) = signed'
conversion (u n) = unsigned'
conversion (s t) = word'

-- What a conversion reads.
pub data Read : Type 0 where
  skipped : Read
  int : ℤ → Read
  uint : ℕ → Read
  word : List ℕ → Read

abbrev pub argument : Piece → Read
argument (lit t) = skipped
argument (d z) = int z
argument (d02 z) = int z
argument (u n) = uint n
argument (s t) = word t

abbrev pub is_digit : ℕ → Bool
is_digit c = leb b'0' c && leb c b'9'

abbrev pub format : List Piece → List Conversion
format [] = []
format (p ∷ ps) = conversion p ∷ format ps

abbrev pub arguments : List Piece → List Read
arguments [] = []
arguments (p ∷ ps) = argument p ∷ arguments ps

-- Digits, up to the first byte that is none.
unfoldable pub read_digits : ℕ → List ℕ → ℕ × List ℕ
read_digits n [] = (n, [])
read_digits n (c ∷ rest) =
    let more = read_digits (n * 10 + (c - b'0')) rest in if is_digit c then more else (n, c ∷ rest)

abbrev pub negated : ℕ → ℤ
negated zero = pos 0
negated (suc n) = negsuc n

unfoldable pub read_signed : List ℕ → ℤ × List ℕ
unfolding read_digits
read_signed [] = (pos 0, [])
read_signed (c ∷ rest) =
    let (n, after) = read_digits 0 (c ∷ rest) in
    let (m, after') = read_digits 0 rest in
    if c == b'-' then (negated m, after') else (pos n, after)

-- Up to the first space.
unfoldable pub read_word : List ℕ → List ℕ × List ℕ
read_word [] = ([], [])
read_word (c ∷ rest) =
    let (t, after) = read_word rest in if c == b' ' then ([], c ∷ rest) else (c ∷ t, after)

-- Past a literal, and whether it is there.
unfoldable pub read_literal : List ℕ → List ℕ → Bool × List ℕ
read_literal [] out = (true, out)
read_literal (c ∷ t) [] = (false, [])
read_literal (c ∷ t) (c' ∷ out) =
    let rest = read_literal t out in if c == c' then rest else (false, c' ∷ out)

abbrev pub then_read : Read → Option (List Read) → Option (List Read)
then_read r none = none
then_read r (some rs) = some (r ∷ rs)

-- A line that is read by its format.
unfoldable pub scan_line : List Conversion → List ℕ → Option (List Read)
unfolding read_digits read_signed read_word read_literal
scan_line [] [] = some []
scan_line [] (c ∷ out) = none
scan_line (lit' t ∷ cs) out =
    let (there, rest) = read_literal t out in
    let rs = scan_line cs rest in if there then then_read skipped rs else none
scan_line (signed' ∷ cs) out =
    let (z, rest) = read_signed out in then_read (int z) (scan_line cs rest)
scan_line (unsigned' ∷ cs) out =
    let (n, rest) = read_digits 0 out in then_read (uint n) (scan_line cs rest)
scan_line (word' ∷ cs) out = let (t, rest) = read_word out in then_read (word t) (scan_line cs rest)
