-- ===== src/Server/Ping/Shift.antt =====
-- The shift of the arrays in the ping monitor: what stands where after the entry at `j` is gone.
use inf01151_trabalho.Common.{
  ◌∙◌, ℕ, zero, suc, ◌+◌, ◌<◌, ◌≡◌, refl, List, [], ◌∷◌, ◌++◌, length, length-set, set, take, drop,
  done, arith, ap, sym, read, write-eq-set, read-drop,
}
use inf01151_trabalho.Server.Types.{Replica, Health}
use inf01151_trabalho.Server.Ping.{shift_from}

module _ {ℓ} {A : Type ℓ} where
  pub drop-set : (xs : List A) (i : ℕ) (v : A) → drop (suc i) (set xs i v) ≡ drop (suc i) xs
  drop-set [] i v = refl
  drop-set (x ∷ xs) zero v = refl
  drop-set (x ∷ xs) (suc i) v = drop-set xs i v

  -- A read in range parts the list.
  pub read-parts :
      (xs : List A) (i : ℕ)
      → i < length xs
      → (x : A) × (read xs i ≡ done x)
        × (drop i xs ≡ x ∷ drop (suc i) xs)
        × (take (suc i) xs ≡ take i xs ++ (x ∷ []))
  unfolding read
  read-parts [] i h = elim h [ ]
  read-parts (x ∷ xs) zero h = (x, refl, refl, refl)
  read-parts (x ∷ xs) (suc i) h =
      let (y, at, behind, next) = read-parts xs i (omega arith) in
      (y, at, behind, ap (λ r. x ∷ r) next)

  drop-set_past :
      (xs : List A) (i : ℕ) (v : A) → drop (suc (suc i)) (set xs i v) ≡ drop (suc (suc i)) xs
  drop-set_past [] i v = refl
  drop-set_past (x ∷ xs) zero v = refl
  drop-set_past (x ∷ xs) (suc i) v = drop-set_past xs i v

  take-set_same : (xs : List A) (i : ℕ) (v : A) → take i (set xs i v) ≡ take i xs
  take-set_same [] i v = refl
  take-set_same (x ∷ xs) zero v = refl
  take-set_same (x ∷ xs) (suc i) v = ap (λ r. x ∷ r) (take-set_same xs i v)

  drop-set_at :
      (xs : List A) (i : ℕ) (v : A)
      → i < length xs
      → drop i (set xs i v) ≡ v ∷ drop (suc i) (set xs i v)
  drop-set_at [] i v h = elim h [ ]
  drop-set_at (x ∷ xs) zero v h = refl
  drop-set_at (x ∷ xs) (suc i) v h = drop-set_at xs i v (omega arith)

  -- Lists that agree up to and with `j` agree before it and at it.
  agree_at :
      (j : ℕ) (xs ys : List A) (r : A)
      → take (suc j) xs ≡ take (suc j) ys
      → drop j ys ≡ r ∷ drop (suc j) ys
      → (take j xs ≡ take j ys) × (drop j xs ≡ r ∷ drop (suc j) xs)
  agree_at zero xs [] r e at = absurd cc
  agree_at (suc j) xs [] r e at = absurd cc
  agree_at zero [] (y ∷ ys) r e at = absurd cc
  agree_at zero (x ∷ xs) (y ∷ ys) r e at = (refl, cc)
  agree_at (suc j) [] (y ∷ ys) r e at = absurd cc
  agree_at (suc j) (x ∷ xs) (y ∷ ys) r e at =
      let tails : take (suc j) xs ≡ take (suc j) ys = cc in
      let (before, here) = agree_at j xs ys r tails at in (cc, here)

  -- A write at `j` of what stands behind it, before the rest is shifted.
  shifted :
      (xs ys : List A) (j n : ℕ) (r : A)
      → j < length xs
      → drop (suc j) xs ≡ r ∷ drop (suc (suc j)) xs
      → take (suc j) ys ≡ take (suc j) (set xs j r)
      → take n (drop (suc j) ys) ≡ take n (drop (suc (suc j)) (set xs j r))
      → (take j ys ≡ take j xs) × (take (suc n) (drop j ys) ≡ take (suc n) (drop (suc j) xs))
  shifted xs ys j n r lt behind before after =
      let (same, here) = agree_at j ys (set xs j r) r before (drop-set_at xs j r lt) in
      (
        same ∙ take-set_same xs j r,
        ap (take (suc n)) here
            ∙ ap (λ zs. r ∷ zs) (after ∙ ap (take n) (drop-set_past xs j r))
            ∙ sym (ap (take (suc n)) behind),
      )

-- The arrays after a shift: the entry at `j` is gone.
pub record Shifted (list : List Replica) (health : List Health) (j n : ℕ) : Type 0 where
  pub list' : List Replica
  pub health' : List Health
  pub returns : shift_from list health j n ≡ done (list', health')
  pub sizes : (length list' ≡ length list) × (length health' ≡ length health)
  pub list_before : take j list' ≡ take j list
  pub health_before : take j health' ≡ take j health
  pub list_after : take n (drop j list') ≡ take n (drop (suc j) list)
  pub health_after : take n (drop j health') ≡ take n (drop (suc j) health)

pub shift_from_lem :
    (list : List Replica) (health : List Health) (j n : ℕ)
    → j + n < length list
    → j + n < length health
    → Shifted list health j n
unfolding shift_from
shift_from_lem list health j zero h h' = record {
  list' = list;
  health' = health;
  returns = refl;
  sizes = (refl, refl);
  list_before = refl;
  health_before = refl;
  list_after = refl;
  health_after = refl;
}
shift_from_lem list health j (suc n) h h' =
    let (r, at_r, behind_r) = read-drop list (suc j) (omega arith) in
    let (x, at_x, behind_x) = read-drop health (suc j) (omega arith) in
    let rest =
      shift_from_lem (set list j r) (set health j x) (suc j) n (omega (arith, length-set list j r))
        (omega (arith, length-set health j x)) in
    let (before, after) =
      shifted list rest.list' j n r (omega arith) behind_r rest.list_before rest.list_after in
    let (before', after') =
      shifted health rest.health' j n x (omega arith) behind_x rest.health_before
        rest.health_after in
    record {
      list' = rest.list';
      health' = rest.health';
      returns =
          rw
            (at_r, write-eq-set list j r (omega arith), at_x, write-eq-set health j x (omega arith))
            rest.returns;
      sizes = (rest.sizes.0 ∙ length-set list j r, rest.sizes.1 ∙ length-set health j x);
      list_before = before;
      health_before = before';
      list_after = after;
      health_after = after';
    }
