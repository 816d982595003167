-- ===== src/Print/Numbers.antt =====
-- A printed number is read back.
use inf01151_trabalho.Common.{
  ℕ, zero, suc, ◌+◌, ◌*◌, ◌/◌, ◌%◌, ◌^◌, ◌<◌, ◌≤◌, ◌≡◌, refl, ◌∙◌, ap, ℤ, pos, negsuc, pos_part,
  neg_part, arith, List, [], ◌∷◌, true, false, Bool-cases, inl, inr, ltb, ◌==◌,
}
use inf01151_trabalho.Print.{
  digits, decimal, signed, padded, is_digit, read_digits, read_signed, negated,
}

-- 10 ^ k
abbrev pub bound : ℕ → ℕ
bound zero = 1
bound (suc k) = 10 * bound k

read_last :
    (n : ℕ) (out : List ℕ) → read_digits (n / 10) ((b'0' + n % 10) ∷ out) ≡ read_digits n out
unfolding read_digits
read_last n out = ground arith

pub read_digits-digits :
    (k n : ℕ) (out : List ℕ) → n < bound k → read_digits 0 (digits k n out) ≡ read_digits n out
unfolding digits
read_digits-digits zero n out h = ap (λ m. read_digits m out) (omega arith)
read_digits-digits (suc k) n out h = elim (Bool-cases (n == 0)) [
  | inl none_left ↦ rw none_left (ap (λ m. read_digits m out) (ground arith))
  | inr more ↦
      rw more
        (read_digits-digits k (n / 10) ((b'0' + n % 10) ∷ out) (omega arith) ∙ read_last n out)
]

-- The byte after a number is no digit.
abbrev pub Ends : List ℕ → Type 0
Ends [] = Unit {0}
Ends (c ∷ out) = is_digit c ≡ false

read_digits-ended : (n : ℕ) (out : List ℕ) → Ends out → read_digits n out ≡ (n, out)
unfolding read_digits
read_digits-ended n [] h = refl
read_digits-ended n (c ∷ out) h = rw h refl

pub read_digits-decimal :
    (n : ℕ) (out : List ℕ) → n < bound 10 → Ends out → read_digits 0 (decimal n out) ≡ (n, out)
unfolding decimal read_digits
read_digits-decimal n out h ends = elim (Bool-cases (n == 0)) [
  | inl is_zero ↦
      rw is_zero (ap (λ m. read_digits m out) (ground arith) ∙ read_digits-ended n out ends)
  | inr more ↦ rw more (read_digits-digits 10 n out h ∙ read_digits-ended n out ends)
]

-- A digit comes first.
pub record Starts (out : List ℕ) : Type 0 where
  pub first : ℕ
  pub rest : List ℕ
  pub is : out ≡ first ∷ rest
  pub digit : is_digit first ≡ true

digits-Starts : (k n : ℕ) (out : List ℕ) → Starts out → Starts (digits k n out)
unfolding digits
digits-Starts zero n out h = h
digits-Starts (suc k) n out h = elim (Bool-cases (n == 0)) [
  | inl none_left ↦ rw none_left h
  | inr more ↦ rw more (
      digits-Starts k (n / 10) ((b'0' + n % 10) ∷ out)
        (record { first = b'0' + n % 10; rest = out; is = refl; digit = ground arith }))
]

digits_some-Starts : (k n : ℕ) (out : List ℕ) → (n == 0) ≡ false → Starts (digits (suc k) n out)
unfolding digits
digits_some-Starts k n out more = rw more (
    digits-Starts k (n / 10) ((b'0' + n % 10) ∷ out)
      (record { first = b'0' + n % 10; rest = out; is = refl; digit = ground arith }))

pub decimal-Starts : (n : ℕ) (out : List ℕ) → Starts (decimal n out)
unfolding decimal
decimal-Starts n out = elim (Bool-cases (n == 0)) [
  | inl is_zero ↦ rw is_zero (record { first = b'0'; rest = out; is = refl; digit = refl })
  | inr more ↦ rw more (digits_some-Starts 9 n out more)
]

-- The numbers of an `int`.
abbrev pub IsInt : ℤ → Type 0
IsInt z = (pos_part z < 2 ^ 31) × (neg_part z ≤ 2 ^ 31)

no_minus : {out : List ℕ} (st : Starts out) → (st.first == b'-') ≡ false
no_minus st = ground (arith, st.digit)

read_signed-unsigned :
    (out : List ℕ)
    → Starts out
    → read_signed out ≡ (pos (read_digits 0 out).0, (read_digits 0 out).1)
unfolding read_signed
read_signed-unsigned out st = rw (st.is, no_minus st) refl

pub read_signed-signed :
    (z : ℤ) (out : List ℕ) → IsInt z → Ends out → read_signed (signed z out) ≡ (z, out)
unfolding signed read_signed
read_signed-signed (pos n) out range ends =
    read_signed-unsigned (decimal n out) (decimal-Starts n out)
    ∙ ap (λ (r : ℕ × List ℕ). (pos r.0, r.1))
        (read_digits-decimal n out (omega (arith, range.0)) ends)
read_signed-signed (negsuc n) out range ends =
    ap (λ (r : ℕ × List ℕ). (negated r.0, r.1))
      (read_digits-decimal (suc n) out (omega (arith, range.1)) ends)

-- A leading zero changes nothing.
read_signed-zero : (out : List ℕ) → Starts out → read_signed (b'0' ∷ out) ≡ read_signed out
unfolding read_signed read_digits
read_signed-zero out st = rw (st.is, no_minus st) refl

pub read_signed-padded :
    (z : ℤ) (out : List ℕ) → IsInt z → Ends out → read_signed (padded z out) ≡ (z, out)
unfolding padded
read_signed-padded (pos n) out range ends = elim (Bool-cases (ltb n 10)) [
  | inl short ↦ rw short (
      read_signed-zero (signed (pos n) out) (decimal-Starts n out)
      ∙ read_signed-signed (pos n) out range ends)
  | inr long ↦ rw long (read_signed-signed (pos n) out range ends)
]
read_signed-padded (negsuc n) out range ends = read_signed-signed (negsuc n) out range ends
