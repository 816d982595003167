-- ===== src/Server/Ping/Scans.antt =====
-- The scan of the ping monitor: which servers are left.
use inf01151_trabalho.Common.{
  ◌∙◌, ℕ, zero, suc, ◌+◌, ◌-◌, ◌≤◌, ◌≡◌, refl, ℤ, pos, negsuc, Bool, true, false, not, ◌&&◌, ◌||◌,
  List, [], ◌∷◌, ◌++◌, length, length-set, set, take, drop, Outcome, done, arith, ap, ap₂, sym,
  write-eq-set, ltb, leb, ◌==◌, ◌⊎◌, ◌+ℤ◌, Bool-cases, inl, inr, int_eq, if◌then◌else◌,
}
use mathlib.Core.List.{append_assoc, append-nil}
use inf01151_trabalho.Server.Types.{Replica, Health, max_servers}
use inf01151_trabalho.Server.Ping.Shift.{read-parts, drop-set, shift_from_lem}
use inf01151_trabalho.Server.Ping.{
  Finding, Scan, scan_from, examine, on_finding, keep, remove, ping_timeout,
}

-- Another server, heard of before, is silent when its last ping is too old.
unfoldable pub silent : ℕ → ℤ → Replica → Health → Bool
silent now my_id r h =
    not (int_eq r.id my_id)
    && (not (h.last_ping_received == 0)
        && (ltb ping_timeout (now - h.last_ping_received) && h.is_alive))

-- The servers that are not silent, in the order of the list.
unfoldable pub remaining : ℕ → ℤ → List Replica → List Health → List Replica
remaining now my_id [] hs = []
remaining now my_id (r ∷ rs) [] = r ∷ rs
remaining now my_id (r ∷ rs) (h ∷ hs) =
    if silent now my_id r h then remaining now my_id rs hs else r ∷ remaining now my_id rs hs

-- Whether a server with the id `leader` is silent.
unfoldable pub lost : ℕ → ℤ → ℤ → List Replica → List Health → Bool
lost now my_id leader [] hs = false
lost now my_id leader (r ∷ rs) [] = false
lost now my_id leader (r ∷ rs) (h ∷ hs) =
    (silent now my_id r h && int_eq r.id leader) || lost now my_id leader rs hs

examine-cases :
    (now : ℕ) (my_id : ℤ) (r : Replica) (h : Health)
    → int_eq r.id my_id ≡ false
    → ((silent now my_id r h ≡ true) × (examine now h ≡ remove))
      ⊎ ((h' : Health) × (silent now my_id r h ≡ false) × (examine now h ≡ keep h'))
unfolding silent examine
examine-cases now my_id r h other = elim (Bool-cases (h.last_ping_received == 0)) [
  | inl unheard ↦ inr (
    record { last_ping_received = now; is_alive = true },
    rw (other, unheard) refl,
    rw unheard refl,
  )
  | inr heard ↦ elim (Bool-cases (ltb ping_timeout (now - h.last_ping_received) && h.is_alive)) [
    | inl old ↦ inl (rw (other, heard, old) refl, rw (heard, old) refl)
    | inr recent ↦
        elim (Bool-cases (leb (now - h.last_ping_received) ping_timeout && not h.is_alive)) [
          | inl back ↦ inr (
            record h { is_alive = true },
            rw (other, heard, recent) refl,
            rw (heard, recent, back) refl,
          )
          | inr same ↦ inr (h, rw (other, heard, recent) refl, rw (heard, recent, same) refl)
        ]
  ]
]

on_finding_remove :
    (f : Finding) (kept : Health → Outcome Scan) (removed : Outcome Scan)
    → f ≡ remove
    → on_finding f kept removed ≡ removed
on_finding_remove f kept removed e = ap (λ k. on_finding k kept removed) e

on_finding_keep :
    (f : Finding) (h : Health) (kept : Health → Outcome Scan) (removed : Outcome Scan)
    → f ≡ keep h
    → on_finding f kept removed ≡ kept h
on_finding_keep f h kept removed e = ap (λ k. on_finding k kept removed) e

-- A scan returns, with the servers that are left in front, their number, and whether the leader is
-- among those that are gone.
pub record Scanned (now : ℕ) (my_id leader : ℤ) (i n : ℕ) (c : Scan) : Type 0 where
  pub result : Scan
  pub kept : ℕ
  pub returns : scan_from now my_id leader i n c ≡ done result
  pub count : result.count ≡ pos kept
  pub list :
      take kept result.list
      ≡ take i c.list ++ remaining now my_id (take n (drop i c.list)) (take n (drop i c.health))
  pub failed : result.leader_failed ≡ (
      c.leader_failed || lost now my_id leader (take n (drop i c.list)) (take n (drop i c.health)))

-- The arrays and the count of a scan that stands at `i` with `n` rounds left.
pub record Standing (i n : ℕ) (c : Scan) : Type 0 where
  pub list_size : length c.list ≡ max_servers
  pub health_size : length c.health ≡ max_servers
  pub counted : c.count ≡ pos (i + n)
  pub few : i + n ≤ max_servers

-- A round that passes over the server at `i`, and may write its entry.
module _ (now : ℕ) (my_id leader : ℤ) (i n : ℕ) (c : Scan) (r : Replica) (x : Health)
    (behind_r : drop i c.list ≡ r ∷ drop (suc i) c.list)
    (behind_x : drop i c.health ≡ x ∷ drop (suc i) c.health) where
  passed :
      (health : List Health)
      → take (suc i) c.list ≡ take i c.list ++ (r ∷ [])
      → silent now my_id r x ≡ false
      → drop (suc i) health ≡ drop (suc i) c.health
      → scan_from now my_id leader i (suc n) c
        ≡ scan_from now my_id leader (suc i) n (record c { health = health })
      → Scanned now my_id leader (suc i) n (record c { health = health })
      → Scanned now my_id leader i (suc n) c
  unfolding remaining lost
  passed health next loud same e rest = record {
    result = rest.result;
    kept = rest.kept;
    returns = e ∙ rest.returns;
    count = rest.count;
    list =
        rw (behind_r, behind_x, loud)
          (rest.list
            ∙ ap₂ ◌++◌ next
                (ap (λ hs. remaining now my_id (take n (drop (suc i) c.list)) (take n hs)) same)
            ∙ append_assoc (take i c.list) (r ∷ []) _);
    failed =
        rw (behind_r, behind_x, loud)
          (rest.failed
            ∙ ap
                (λ hs.
                  c.leader_failed
                  || lost now my_id leader (take n (drop (suc i) c.list)) (take n hs))
                same);
  }

  -- A round that removes the server at `i`.
  removed :
      (c' : Scan)
      → silent now my_id r x ≡ true
      → take i c'.list ≡ take i c.list
      → take n (drop i c'.list) ≡ take n (drop (suc i) c.list)
      → take n (drop i c'.health) ≡ take n (drop (suc i) c.health)
      → c'.leader_failed ≡ (if int_eq r.id leader then true else c.leader_failed)
      → scan_from now my_id leader i (suc n) c ≡ scan_from now my_id leader i n c'
      → Scanned now my_id leader i n c'
      → Scanned now my_id leader i (suc n) c
  unfolding remaining lost
  removed c' gone before after_r after_x flag e rest = record {
    result = rest.result;
    kept = rest.kept;
    returns = e ∙ rest.returns;
    count = rest.count;
    list =
        rw (behind_r, behind_x, gone)
          (rest.list ∙ ap₂ ◌++◌ before (ap₂ (remaining now my_id) after_r after_x));
    failed =
        rw (behind_r, behind_x, gone)
          (rest.failed
            ∙ ap₂ ◌||◌ flag (ap₂ (lost now my_id leader) after_r after_x)
            ∙ flags (int_eq r.id leader) c.leader_failed _);
  }
    where
      flags : (b f l : Bool) → ((if b then true else f) || l) ≡ (f || (b || l))
      flags b f l = ground arith

lower_count : (m : ℕ) {c : ℤ} → c ≡ pos (suc m) → c +ℤ negsuc 0 ≡ pos m
unfolding ◌+ℤ◌
lower_count m e = ground arith

own_loud :
    (now : ℕ) (my_id : ℤ) (r : Replica) (h : Health)
    → int_eq r.id my_id ≡ true
    → silent now my_id r h ≡ false
unfolding silent
own_loud now my_id r h own = rw own refl

pub scan_from_lem :
    (now : ℕ) (my_id leader : ℤ) (i n : ℕ) (c : Scan)
    → Standing i n c
    → Scanned now my_id leader i n c
unfolding scan_from remaining lost
scan_from_lem now my_id leader i zero c h = record {
  result = c;
  kept = i + 0;
  returns = refl;
  count = h.counted;
  list = ap (λ k. take k c.list) (omega arith) ∙ sym (append-nil (take i c.list));
  failed = ground arith;
}
scan_from_lem now my_id leader i (suc n) c h =
    let (r, at_r, behind_r, next) = read-parts c.list i (omega (arith, h.list_size, h.few)) in
    let (x, at_x, behind_x, _) = read-parts c.health i (omega (arith, h.health_size, h.few)) in
    elim (Bool-cases (int_eq r.id my_id)) [
      | inl own ↦
          passed now my_id leader i n c r x behind_r behind_x c.health next
            (own_loud now my_id r x own) refl (rw (at_r, own) refl)
            (scan_from_lem now my_id leader (suc i) n c (moved c.health h.health_size))
      | inr other ↦ elim (examine-cases now my_id r x other) [
        | inr (x', loud, kept) ↦
            passed now my_id leader i n c r x behind_r behind_x (set c.health i x') next loud
              (drop-set c.health i x')
              (rw (at_r, other, at_x)
                (on_finding_keep _ x' _ _ kept
                  ∙ rw (write-eq-set c.health i x' (omega (arith, h.health_size, h.few))) refl))
              (scan_from_lem now my_id leader (suc i) n (record c { health = set c.health i x' })
                (moved (set c.health i x') (length-set c.health i x' ∙ h.health_size)))
        | inl (gone, found) ↦
            let dead : Health = record x { is_alive = false } in
            let down = length-set c.health i dead ∙ h.health_size in
            let shift =
              shift_from_lem c.list (set c.health i dead) i n (omega (arith, h.list_size, h.few))
                (omega (arith, down, h.few)) in
            let c' : Scan = record {
              list = shift.list';
              health = shift.health';
              count = c.count +ℤ negsuc 0;
              leader_failed = if int_eq r.id leader then true else c.leader_failed;
            } in
            removed now my_id leader i n c r x behind_r behind_x c' gone shift.list_before
              shift.list_after (shift.health_after ∙ ap (take n) (drop-set c.health i dead)) refl
              (rw (at_r, other, at_x)
                (on_finding_remove _ _ _ found
                  ∙ rw
                      (
                        write-eq-set c.health i dead (omega (arith, h.health_size, h.few)),
                        shift.returns,
                      )
                      refl))
              (scan_from_lem now my_id leader i n c' (record {
                list_size = shift.sizes.0 ∙ h.list_size;
                health_size = shift.sizes.1 ∙ down;
                counted = lower_count (i + n) (h.counted ∙ ap pos (omega arith));
                few = omega (arith, h.few);
              }))
      ]
    ]
  where
    moved :
        (health : List Health)
        → length health ≡ max_servers
        → Standing (suc i) n (record c { health = health })
    moved health size = record {
      list_size = h.list_size;
      health_size = size;
      counted = h.counted ∙ ap pos (omega arith);
      few = omega (arith, h.few);
    }
