-- ===== src/Common/Fault.antt =====
-- What a piece of C does: it ends with a value, or it leaves what the C standard defines (an
-- access outside an array, a signed overflow).

use Prim.Native.Nat.{ℕ, ◌-◌, ◌^◌}
use mathlib.Core.Path.{◌≡◌, ap}
use mathlib.Core.Logic.{◌≢◌}
use inf01151_trabalho.Common.Int.{ℤ, pos, negsuc, ◌+ℤ◌, int_lt}
use inf01151_trabalho.Common.Tests.{if◌then◌else◌}

pub data Outcome {ℓ} (A : Type ℓ) : Type ℓ where
  done : A → Outcome A
  fault : Outcome A

infixl 5 ◌>>=◌ ◌>>◌
abbrev pub ◌>>=◌ {ℓ κ} : {A : Type ℓ} {B : Type κ} → Outcome A → (A → Outcome B) → Outcome B
done a >>= f = f a
fault >>= f = fault

abbrev pub ◌>>◌ {ℓ κ} : {A : Type ℓ} {B : Type κ} → Outcome A → Outcome B → Outcome B
m >> k = m >>= λ _. k

-- An `int` that is used as an array index.
abbrev pub index : ℤ → Outcome ℕ
index (pos n) = done n
index (negsuc n) = fault

abbrev pub int_max : ℤ
int_max = pos (2 ^ 31 - 1)

-- `a += k` on `int` for a constant `k` that is not negative: overflow is undefined.
unfoldable pub add_int : ℤ → ℕ → Outcome ℤ
unfolding int_lt ◌+ℤ◌
add_int a k = if int_lt int_max (a +ℤ pos k) then fault else done (a +ℤ pos k)

pub done≢fault {ℓ} : {A : Type ℓ} {a : A} → done a ≢ fault
done≢fault e = cc e

pub done-injective {ℓ} : {A : Type ℓ} {a b : A} → done a ≡ done b → a ≡ b
done-injective {a = a} e = ap (λ m. elim m [ done x ↦ x | fault ↦ a ]) e
