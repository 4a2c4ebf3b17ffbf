-- ===== src/Balancer/Weighted/Picked.antt =====
-- Step 2 of `Next` in internal/balancer/weighted.go finds an entry with a positive current weight.
use proxy_centauri.Prelude.{
  ℕ, suc, ◌+◌, ◌<◌, ◌≡◌, refl, List, [], ◌∷◌, ◌⊎◌, inl, inr, Bool-cases, arith, ℤ, pos_part, ltb_ℤ,
}
use proxy_centauri.Balancer.Weighted.{WeightedBackend, best_from, best_index}
use proxy_centauri.Balancer.Weighted.Sums.{credit, everyone, AtIndex}

abbrev pub IsCredited : WeightedBackend → Type 0
IsCredited b = 0 < pos_part b.current_weight

-- Where the loop ends: at the best so far, or at an entry of the rest.
abbrev Ends : ℕ → ℤ → ℕ → List WeightedBackend → ℕ → Type 0
Ends i best j bs r =
    ((r ≡ i) × (0 < pos_part best)) ⊎ ((k : ℕ) × (r ≡ j + k) × AtIndex IsCredited k bs)

Ends-better :
    (i : ℕ) (best : ℤ) (j : ℕ) (b : WeightedBackend) (bs : List WeightedBackend) (r : ℕ)
    → Ends j b.current_weight (suc j) bs r
    → Ends i best j (b ∷ bs) r
Ends-better i best j b bs r (inl (e, h)) = inr (0, omega arith, h)
Ends-better i best j b bs r (inr (k, e, h)) = inr (suc k, omega arith, h)

Ends-same :
    (i : ℕ) (best : ℤ) (j : ℕ) (b : WeightedBackend) (bs : List WeightedBackend) (r : ℕ)
    → Ends i best (suc j) bs r
    → Ends i best j (b ∷ bs) r
Ends-same i best j b bs r (inl h) = inl h
Ends-same i best j b bs r (inr (k, e, h)) = inr (suc k, omega arith, h)

best_from-Ends :
    (i : ℕ) (best : ℤ) (j : ℕ) (bs : List WeightedBackend)
    → 0 < pos_part best + credit everyone bs
    → Ends i best j bs (best_from i best j bs)
unfolding best_from
best_from-Ends i best j [] h = inl (refl, omega arith)
best_from-Ends i best j (b ∷ bs) h = elim (Bool-cases (ltb_ℤ best b.current_weight)) [
  | inl t ↦
      rw t
        (Ends-better i best j b bs _ (best_from-Ends j b.current_weight (suc j) bs (ground arith)))
  | inr f ↦ rw f (Ends-same i best j b bs _ (best_from-Ends i best (suc j) bs (ground arith)))
]

at_end :
    (b : WeightedBackend) (bs : List WeightedBackend) (r : ℕ)
    → Ends 0 b.current_weight 1 bs r
    → AtIndex IsCredited r (b ∷ bs)
at_end b bs r (inl (e, h)) = rw e h
at_end b bs r (inr (k, e, h)) = rw (let e' : r ≡ suc k = omega arith in e') h

pub best_index-IsCredited :
    (bs : List WeightedBackend) → 0 < credit everyone bs → AtIndex IsCredited (best_index bs) bs
unfolding best_index
best_index-IsCredited [] h = elim h [ ]
best_index-IsCredited (b ∷ bs) h = at_end b bs _ (best_from-Ends 0 b.current_weight 1 bs h)
