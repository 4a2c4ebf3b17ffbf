-- ===== src/Balancer/Weighted.antt =====
-- internal/balancer/weighted.go. The backends are pointers that only the balancer holds, so a list
-- of their values is the same; the winner is the index of its entry.
pub mod Sums
pub mod Picked
pub mod Step
pub mod Period
pub mod Fairness
pub mod Weights
use proxy_centauri.Prelude.{
  ℕ, zero, suc, ◌+◌, String, Bool, true, false, ◌&&◌, ◌||◌, Option, none, some, List, [], ◌∷◌, map,
  if◌then◌else◌, ltb, ◌==◌, length, get_or, Dict, lookup, insert, ℤ, pos, ltb_ℤ, add64, sub64,
}

pub record WeightedBackend : Type 0 where
  pub addr : String
  pub weight : ℤ
  pub current_weight : ℤ

pub record Weighted : Type 0 where
  pub backends : List WeightedBackend
  pub total : ℤ

-- The loop that `init` and `SetBackends` share, over the rule that gives entry `i` its weight.
unfoldable pub fill : (ℕ → String → ℤ) → ℕ → List String → ℤ → List WeightedBackend × ℤ
fill rule i [] total = ([], total)
fill rule i (addr ∷ addrs) total =
    let wt = rule i addr in
    let (backends, total') = fill rule (suc i) addrs (add64 total wt) in
    (record { addr = addr; weight = wt; current_weight = pos 0 } ∷ backends, total')

unfoldable pub has_positive : List ℤ → Bool
has_positive [] = false
has_positive (wt ∷ weights) = ltb_ℤ (pos 0) wt || has_positive weights

-- The weight that `init` gives to entry `i`.
unfoldable pub configured : List ℤ → ℕ → String → ℤ
unfolding has_positive
configured weights i addr =
    if has_positive weights && ltb i (length weights) && ltb_ℤ (pos 0) (get_or weights i (pos 0))
    then get_or weights i (pos 0)
    else pos 1

abbrev pub from_fill : List WeightedBackend × ℤ → Weighted
from_fill (backends, total) = record { backends = backends; total = total }

unfoldable pub new : List String → List ℤ → Weighted
unfolding fill configured
new addrs weights = from_fill (fill (configured weights) 0 addrs (pos 0))

-- Step 1 of `Next`.
unfoldable pub raise : WeightedBackend → WeightedBackend
raise b = record b { current_weight = add64 b.current_weight b.weight }

-- Step 2: the loop over `backends[1:]`, at index `j`, with the best so far at `i`.
unfoldable pub best_from : ℕ → ℤ → ℕ → List WeightedBackend → ℕ
best_from i best j [] = i
best_from i best j (b ∷ bs) =
    let better = ltb_ℤ best b.current_weight in
    best_from (if better then j else i) (if better then b.current_weight else best) (suc j) bs

unfoldable pub best_index : List WeightedBackend → ℕ
unfolding best_from
best_index [] = 0
best_index (b ∷ bs) = best_from 0 b.current_weight 1 bs

-- Step 3, at the winner's index.
unfoldable pub reduce : ℤ → ℕ → List WeightedBackend → List WeightedBackend
reduce total i [] = []
reduce total zero (b ∷ bs) = record b { current_weight = sub64 b.current_weight total } ∷ bs
reduce total (suc i) (b ∷ bs) = b ∷ reduce total i bs

unfoldable pub addr_at : ℕ → List WeightedBackend → String
addr_at i [] = ""
addr_at zero (b ∷ bs) = b.addr
addr_at (suc i) (b ∷ bs) = addr_at i bs

unfoldable pub next : Weighted → String × Weighted
unfolding raise best_index reduce addr_at
next w =
    let raised = map raise w.backends in
    let best = best_index raised in
    if length w.backends == 0
    then ("", w)
    else (addr_at best raised, record w { backends = reduce w.total best raised })

-- `existing[b.addr] = b.weight` for every backend: a later entry of an address wins.
unfoldable pub existing : List WeightedBackend → Dict ℤ → Dict ℤ
existing [] m = m
existing (b ∷ bs) m = existing bs (insert b.addr b.weight m)

-- The weight that `SetBackends` gives.
unfoldable pub preserved : Dict ℤ → ℕ → String → ℤ
preserved m i addr = elim (lookup addr m) [ none ↦ pos 1 | some prev ↦ prev ]

unfoldable pub set_backends : List String → Weighted → Weighted
unfolding fill existing preserved
set_backends addrs w = from_fill (fill (preserved (existing w.backends [])) 0 addrs (pos 0))

unfoldable pub len : Weighted → ℕ
len w = length w.backends

-- The addresses that `n` calls of `Next` in a row return, and the state after them.
unfoldable pub picks : ℕ → Weighted → List String
picks zero w = []
picks (suc n) w = let (a, w') = next w in a ∷ picks n w'

unfoldable pub after : ℕ → Weighted → Weighted
after zero w = w
after (suc n) w = after n (next w).1
