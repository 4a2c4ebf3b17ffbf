-- ===== src/Balancer/Weighted/Weights.antt =====
-- The weights that `NewWeighted` and `SetBackends` of internal/balancer/weighted.go give.
use proxy_centauri.Prelude.{
  ℕ, suc, ◌+◌, ◌*◌, ◌^◌, ◌<◌, String, eq_iff, ◌≡◌, refl, ap, ◌∙◌, false, List, [], ◌∷◌, inl, inr,
  some, Option-cases, Dict, lookup, insert, lookup-insert, lookup-insert_cases, arith,
  if◌then◌else◌, length, All, ℤ, pos, pos_part, neg_part, contains, add64,
}
use proxy_centauri.Balancer.Weighted.{
  WeightedBackend, Weighted, new, set_backends, fill, from_fill, configured, preserved, existing,
}
use proxy_centauri.Balancer.Weighted.Sums.{weights_of, everyone}
use proxy_centauri.Balancer.Weighted.Fairness.{IsFresh}

abbrev pub IsPositive : ℤ → Type 0
IsPositive a = (0 < pos_part a) × (neg_part a ≡ 0)

-- Every weight is positive.
abbrev pub HasWeights : List WeightedBackend → Type 0
HasWeights = All (λ b. IsPositive b.weight)

add64_pos :
    (t w : ℤ) (n : ℕ)
    → t ≡ pos n
    → IsPositive w
    → n + pos_part w < 2 ^ 63
    → add64 t w ≡ pos (n + pos_part w)
unfolding add64
add64_pos t w n e p h = ground arith

module _ (rule : ℕ → String → ℤ) (positive : (i : ℕ) (a : String) → IsPositive (rule i a)) where
  fill-HasWeights : (i : ℕ) (addrs : List String) (t : ℤ) → HasWeights (fill rule i addrs t).0
  unfolding fill
  fill-HasWeights i [] t = tt
  fill-HasWeights i (a ∷ addrs) t = (positive i a, fill-HasWeights (suc i) addrs _)

  fill-at_start :
      (i : ℕ) (addrs : List String) (t : ℤ)
      → All (λ b. (b.current_weight ≡ pos 0) × (neg_part b.weight ≡ 0)) (fill rule i addrs t).0
  unfolding fill
  fill-at_start i [] t = tt
  fill-at_start i (a ∷ addrs) t = ((refl, (positive i a).1), fill-at_start (suc i) addrs _)

  fill-total :
      (i : ℕ) (addrs : List String) (t : ℤ) (n : ℕ)
      → t ≡ pos n
      → n + weights_of everyone (fill rule i addrs t).0 < 2 ^ 63
      → (fill rule i addrs t).1 ≡ pos (n + weights_of everyone (fill rule i addrs t).0)
  unfolding fill
  fill-total i [] t n e h = ground arith
  fill-total i (a ∷ addrs) t n e h =
      fill-total (suc i) addrs _ (n + pos_part (rule i a))
        (add64_pos t (rule i a) n e (positive i a) (omega arith)) (omega arith)
      ∙ ap pos (omega arith)

  length-fill :
      (i : ℕ) (addrs : List String) (t : ℤ) → length (fill rule i addrs t).0 ≡ length addrs
  unfolding fill
  length-fill i [] t = refl
  length-fill i (a ∷ addrs) t = ap suc (length-fill (suc i) addrs _)

  some-fill :
      (i : ℕ) (addrs : List String) (t : ℤ)
      → 0 < length addrs
      → 0 < weights_of everyone (fill rule i addrs t).0
  unfolding fill
  some-fill i [] t h = elim h [ ]
  some-fill i (a ∷ addrs) t h = omega (arith, (positive i a).0)

  fill-IsFresh :
      (addrs : List String)
      → let w = from_fill (fill rule 0 addrs (pos 0)) in
        0 < length addrs → suc (length addrs) * weights_of everyone w.backends < 2 ^ 63 → IsFresh w
  fill-IsFresh addrs h r =
      let total = weights_of everyone (fill rule 0 addrs (pos 0)).0 in
      record {
        at_start = fill-at_start 0 addrs (pos 0);
        total_eq = fill-total 0 addrs (pos 0) 0 refl (omega arith) ∙ ap pos (omega arith);
        room = rw length-fill r;
        some_weight = some-fill 0 addrs (pos 0) h;
      }

configured-IsPositive :
    (weights : List ℤ) (i : ℕ) (a : String) → IsPositive (configured weights i a)
unfolding configured
configured-IsPositive weights i a = ground arith

preserved-IsPositive :
    (m : Dict ℤ) (i : ℕ) (a : String)
    → ((b : String) (x : ℤ) → lookup b m ≡ some x → IsPositive x)
    → IsPositive (preserved m i a)
unfolding preserved
preserved-IsPositive m i a h = elim (Option-cases (lookup a m)) [
  | inl e ↦ rw (e, preserved) (omega arith)
  | inr (x, e) ↦ rw (e, preserved) (h a x e)
]

existing-IsPositive :
    (bs : List WeightedBackend) (m : Dict ℤ) (a : String) (x : ℤ)
    → HasWeights bs
    → ((b : String) (y : ℤ) → lookup b m ≡ some y → IsPositive y)
    → lookup a (existing bs m) ≡ some x
    → IsPositive x
unfolding existing
existing-IsPositive [] m a x v h e = h a x e
existing-IsPositive (b ∷ bs) m a x v h e =
    existing-IsPositive bs (insert b.addr b.weight m) a x v.1
      (λ c y k. ground (arith, lookup-insert_cases b.addr c b.weight y m k, v.0, h c y)) e

preserved-IsPositive' :
    (w : Weighted)
    → HasWeights w.backends
    → (i : ℕ) (a : String) → IsPositive (preserved (existing w.backends []) i a)
unfolding lookup
preserved-IsPositive' w v i a =
    preserved-IsPositive _ i a (λ b x e. existing-IsPositive w.backends [] b x v (λ c y k. cc) e)

-- Whatever weights the configuration gives, a new balancer has positive weights only.
pub new-HasWeights :
    (addrs : List String) (weights : List ℤ) → HasWeights (new addrs weights).backends
unfolding new
new-HasWeights addrs weights =
    fill-HasWeights (configured weights) (configured-IsPositive weights) 0 addrs (pos 0)

pub new-IsFresh :
    (addrs : List String) (weights : List ℤ)
    → 0 < length addrs
    → suc (length addrs) * weights_of everyone (new addrs weights).backends < 2 ^ 63
    → IsFresh (new addrs weights)
unfolding new
new-IsFresh addrs weights h r =
    fill-IsFresh (configured weights) (configured-IsPositive weights) addrs h r

pub set_backends-HasWeights :
    (addrs : List String) (w : Weighted)
    → HasWeights w.backends
    → HasWeights (set_backends addrs w).backends
unfolding set_backends
set_backends-HasWeights addrs w v = fill-HasWeights _ (preserved-IsPositive' w v) 0 addrs (pos 0)

pub set_backends-IsFresh :
    (addrs : List String) (w : Weighted)
    → HasWeights w.backends
    → 0 < length addrs
    → suc (length addrs) * weights_of everyone (set_backends addrs w).backends < 2 ^ 63
    → IsFresh (set_backends addrs w)
unfolding set_backends
set_backends-IsFresh addrs w v h r = fill-IsFresh _ (preserved-IsPositive' w v) addrs h r

-- The weight that the balancer holds for an address, by its last entry; 1 where it has none.
abbrev pub held_weight : Weighted → String → ℤ
held_weight w a = preserved (existing w.backends []) 0 a

existing-fill :
    (d : Dict ℤ) (i : ℕ) (addrs : List String) (t : ℤ) (m : Dict ℤ) (a : String)
    → lookup a (existing (fill (preserved d) i addrs t).0 m)
      ≡ (if contains a addrs then some (preserved d 0 a) else lookup a m)
unfolding existing fill preserved
existing-fill d i [] t m a = refl
existing-fill d i (x ∷ addrs) t m a = ground (
  arith,
  existing-fill d (suc i) addrs (add64 t (preserved d i x)) (insert x (preserved d i x) m) a,
  lookup-insert x a (preserved d i x) m,
  eq_iff x a,
)

-- `SetBackends` keeps the weight of every address that stays in the list; all others have weight 1
-- from then on.
pub held_weight-set_backends :
    (addrs : List String) (w : Weighted) (a : String)
    → held_weight (set_backends addrs w) a ≡ (if contains a addrs then held_weight w a else pos 1)
unfolding set_backends preserved lookup
held_weight-set_backends addrs w a =
    ground (arith, existing-fill (existing w.backends []) 0 addrs (pos 0) [] a)

-- A backend that leaves the list has weight 1 after the next list, whatever its weight was.
pub held_weight-flap :
    (w : Weighted) (a : String) (down up : List String)
    → contains a down ≡ false
    → held_weight (set_backends up (set_backends down w)) a ≡ pos 1
held_weight-flap w a down up d =
    ground (
      arith,
      held_weight-set_backends up (set_backends down w) a,
      held_weight-set_backends down w a,
    )
