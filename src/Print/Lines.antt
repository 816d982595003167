-- ===== src/Print/Lines.antt =====
-- A printed line is read back by its format.
use inf01151_trabalho.Common.{
  ℕ, ◌<◌, ◌^◌, ◌≡◌, refl, List, [], ◌∷◌, ◌++◌, All, arith, Bool, true, false, ◌==◌, some,
  if◌then◌else◌,
}
use inf01151_trabalho.Print.{
  Piece, lit, d, d02, u, s, signed, padded, decimal, printf, format, arguments, read_signed,
  read_digits, read_word, read_literal, scan_line,
}
use inf01151_trabalho.Print.Numbers.{
  Ends, IsInt, read_digits-decimal, read_signed-signed, read_signed-padded,
}

-- A word has no space, and one comes after it.
abbrev pub IsWord : List ℕ → Type 0
IsWord t = All (λ c. (c == b' ') ≡ false) t

abbrev pub AtSpace : List ℕ → Type 0
AtSpace [] = Unit {0}
AtSpace (c ∷ out) = c ≡ b' '

-- The arguments have their types' range, and what comes after one ends it.
abbrev pub Fits : List Piece → Type 0
Fits [] = Unit {0}
Fits (lit t ∷ ps) = Fits ps
Fits (d z ∷ ps) = IsInt z × Ends (printf ps) × Fits ps
Fits (d02 z ∷ ps) = IsInt z × Ends (printf ps) × Fits ps
Fits (u n ∷ ps) = (n < 2 ^ 32) × Ends (printf ps) × Fits ps
Fits (s t ∷ ps) = IsWord t × AtSpace (printf ps) × Fits ps

read_literal-append : (t out : List ℕ) → read_literal t (t ++ out) ≡ (true, out)
unfolding read_literal
read_literal-append [] out = refl
read_literal-append (c ∷ t) out =
    rw (inf01151_trabalho.Common.==_refl c) (read_literal-append t out)

read_word-append : (t out : List ℕ) → IsWord t → AtSpace out → read_word (t ++ out) ≡ (t, out)
unfolding read_word
read_word-append [] [] h at = refl
read_word-append [] (c ∷ out) h at = rw at refl
read_word-append (c ∷ t) out h at = rw (h.0, read_word-append t out h.1 at) refl

pub scan_line-printf :
    (ps : List Piece) → Fits ps → scan_line (format ps) (printf ps) ≡ some (arguments ps)
unfolding scan_line printf inf01151_trabalho.Print.render
scan_line-printf [] h = refl
scan_line-printf (lit t ∷ ps) h = rw (read_literal-append t (printf ps), scan_line-printf ps h) refl
scan_line-printf (d z ∷ ps) h =
    rw (read_signed-signed z (printf ps) h.0 h.1, scan_line-printf ps h.2) refl
scan_line-printf (d02 z ∷ ps) h =
    rw (read_signed-padded z (printf ps) h.0 h.1, scan_line-printf ps h.2) refl
scan_line-printf (u n ∷ ps) h =
    rw (read_digits-decimal n (printf ps) (omega (arith, h.0)) h.1, scan_line-printf ps h.2) refl
scan_line-printf (s t ∷ ps) h =
    rw (read_word-append t (printf ps) h.0 h.1, scan_line-printf ps h.2) refl
