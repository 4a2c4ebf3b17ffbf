-- ===== src/Balancer/Weighted/Period.antt =====
-- Whole periods of the smooth weighted round robin of internal/balancer/weighted.go.
use native.Mathlib.Nat.{suc-add, zero-add, add-suc, mul-le-mul_left}
use native.Mathlib.Decide.{dec_le}
use proxy_centauri.Prelude.{
  ℕ, zero, suc, ◌+◌, ◌*◌, ◌<◌, ◌≤◌, String, ◌≡◌, refl, ap, ◌∙◌, Bool, List, [], ◌∷◌, map, ◌⊎◌, inl,
  inr, Bool-cases, ◌==◌, arith, if◌then◌else◌, length, All, ℤ, pos, negsuc, pos_part, neg_part,
  eq_of_parts,
}
use proxy_centauri.Balancer.Weighted.{WeightedBackend, Weighted, raise, reduce, next, picks, after}
use proxy_centauri.Balancer.Weighted.Sums.{weights_of, credit, debt, everyone}
use proxy_centauri.Balancer.Weighted.Step.{
  IsOnTrack, IsBalanced, credit-next, weights_of-next, next-IsBalanced,
}

-- How many of the addresses `p` selects.
abbrev pub wins_of : (String → Bool) → List String → ℕ
wins_of p [] = 0
wins_of p (a ∷ xs) = (if p a then 1 else 0) + wins_of p xs

pub after-IsBalanced :
    (n total k : ℕ) (w : Weighted) → IsBalanced total k w → IsBalanced total (n + k) (after n w)
unfolding after
after-IsBalanced zero total k w v = rw zero-add v
after-IsBalanced (suc n) total k w v =
    rw (suc-add, ← add-suc)
      (after-IsBalanced n total (suc k) (next w).1 (next-IsBalanced total k w v))

-- The current weights of the entries that `p` selects, after `n` calls.
pub credit-after :
    (n total k : ℕ) (w : Weighted) (p : String → Bool)
    → IsBalanced total k w
    → credit p (after n w).backends + debt p w.backends + total * wins_of p (picks n w)
      ≡ debt p (after n w).backends + credit p w.backends + n * weights_of p w.backends
unfolding after picks
credit-after zero total k w p v = omega arith
credit-after (suc n) total k w p v = ground (
  arith,
  credit-after n total (suc k) (next w).1 p (next-IsBalanced total k w v),
  credit-next total k w v p,
  ap (λ (t : ℕ). n * t) (weights_of-next total k w v p),
)

-- A debt below `total` that is a multiple of `total` is none.
no_debt :
    (total wins weight owed : ℕ) → total * wins ≡ total * weight + owed → owed < total → owed ≡ 0
no_debt total wins weight owed e h = elim (dec_le wins weight) [
  | yes p ↦ omega (arith, mul-le-mul_left total p)
  | no p ↦ let q : suc weight ≤ wins = omega arith in omega (arith, mul-le-mul_left total q)
]

pub debt-period :
    (total : ℕ) (bs : List WeightedBackend) → All (IsOnTrack total total) bs → debt everyone bs ≡ 0
debt-period total [] h = refl
debt-period total (b ∷ bs) h =
    let (wins, e, d, n) = h.0 in
    elim (parts b.current_weight) [
      | inl p ↦ omega (
        arith,
        debt-period total bs h.1,
        no_debt total wins (pos_part b.weight) (neg_part b.current_weight) (omega arith) d,
      )
      | inr p ↦ omega (arith, debt-period total bs h.1)
    ]
  where
    parts : (a : ℤ) → (pos_part a ≡ 0) ⊎ (neg_part a ≡ 0)
    parts (pos n) = inr refl
    parts (negsuc n) = inl refl

-- An entry with its current weight back at 0.
abbrev pub at_rest : WeightedBackend → WeightedBackend
at_rest b = record b { current_weight = pos 0 }

rest-raise : (bs : List WeightedBackend) → map at_rest (map raise bs) ≡ map at_rest bs
unfolding raise
rest-raise [] = refl
rest-raise (b ∷ bs) = ap (◌∷◌ (at_rest b)) (rest-raise bs)

rest-reduce :
    (t : ℤ) (i : ℕ) (bs : List WeightedBackend) → map at_rest (reduce t i bs) ≡ map at_rest bs
unfolding reduce
rest-reduce t i [] = refl
rest-reduce t zero (b ∷ bs) = refl
rest-reduce t (suc i) (b ∷ bs) = ap (◌∷◌ (at_rest b)) (rest-reduce t i bs)

pub rest-next : (w : Weighted) → map at_rest (next w).1.backends ≡ map at_rest w.backends
unfolding next
rest-next w = elim (Bool-cases (length w.backends == 0)) [
  | inl e ↦ rw e
  | inr e ↦ rw e (rest-reduce w.total _ (map raise w.backends) ∙ rest-raise w.backends)
]

total-next : (w : Weighted) → (next w).1.total ≡ w.total
unfolding next
total-next w = ground arith

pub rest-after : (n : ℕ) (w : Weighted) → map at_rest (after n w).backends ≡ map at_rest w.backends
unfolding after
rest-after zero w = refl
rest-after (suc n) w = rest-after n (next w).1 ∙ rest-next w

pub total-after : (n : ℕ) (w : Weighted) → (after n w).total ≡ w.total
unfolding after
total-after zero w = refl
total-after (suc n) w = total-after n (next w).1 ∙ total-next w

-- Entries with no credit and no debt are at rest.
pub settled :
    (bs : List WeightedBackend)
    → credit everyone bs ≡ 0
    → debt everyone bs ≡ 0
    → map at_rest bs ≡ bs
settled [] c d = refl
settled (b ∷ bs) c d =
    let z : pos 0 ≡ b.current_weight = eq_of_parts (pos 0) b.current_weight (omega arith) in
    λ i. (record b { current_weight = z i }) ∷ settled bs (omega arith) (omega arith) i
