-- ===== src/Balancer/Weighted/Sums.antt =====
-- Sums over the entries of internal/balancer/weighted.go, of all of them or of one address, and
-- what the first and the last step of `Next` do to them.
use proxy_centauri.Prelude.{
  ℕ, zero, suc, ◌+◌, ◌^◌, ◌<◌, ◌≤◌, String, ◌≡◌, refl, Bool, true, List, [], ◌∷◌, map, arith, ◌⊎◌,
  if◌then◌else◌, length, All, ℤ, pos, pos_part, neg_part, add64, sub64,
}
use proxy_centauri.Balancer.Weighted.{WeightedBackend, raise, reduce, addr_at}

abbrev pub sum_by : (String → Bool) → (WeightedBackend → ℕ) → List WeightedBackend → ℕ
sum_by p f [] = 0
sum_by p f (b ∷ bs) = (if p b.addr then f b else 0) + sum_by p f bs

-- The weights, and the two parts of the current weights.
abbrev pub weights_of : (String → Bool) → List WeightedBackend → ℕ
weights_of p = sum_by p (λ b. pos_part b.weight)

abbrev pub credit : (String → Bool) → List WeightedBackend → ℕ
credit p = sum_by p (λ b. pos_part b.current_weight)

abbrev pub debt : (String → Bool) → List WeightedBackend → ℕ
debt p = sum_by p (λ b. neg_part b.current_weight)

abbrev pub everyone : String → Bool
everyone a = true

-- An entry with a weight that is not negative, whose next raise stays within the machine's range.
abbrev pub HasRoom : WeightedBackend → Type 0
HasRoom b =
    (neg_part b.weight ≡ 0)
    × (pos_part b.current_weight + pos_part b.weight < 2 ^ 63)
    × (neg_part b.current_weight < 2 ^ 63)

add64_parts :
    (a b : ℤ)
    → neg_part b ≡ 0
    → pos_part a + pos_part b < 2 ^ 63
    → neg_part a < 2 ^ 63
    → (pos_part (add64 a b) + neg_part a ≡ neg_part (add64 a b) + pos_part a + pos_part b)
      × (neg_part (add64 a b) ≤ neg_part a)
      × (pos_part (add64 a b) ≤ pos_part a + pos_part b)
unfolding add64
add64_parts a b n p q = ground arith

pub raise_parts :
    (b : WeightedBackend)
    → HasRoom b
    → (pos_part (raise b).current_weight + neg_part b.current_weight
        ≡ neg_part (raise b).current_weight + pos_part b.current_weight + pos_part b.weight)
      × (neg_part (raise b).current_weight ≤ neg_part b.current_weight)
      × (pos_part (raise b).current_weight ≤ pos_part b.current_weight + pos_part b.weight)
unfolding raise
raise_parts b h = add64_parts b.current_weight b.weight h.0 h.1 h.2

pub credit-raise :
    (p : String → Bool) (bs : List WeightedBackend)
    → All HasRoom bs
    → credit p (map raise bs) + debt p bs ≡ debt p (map raise bs) + credit p bs + weights_of p bs
unfolding raise
credit-raise p [] h = refl
credit-raise p (b ∷ bs) h = ground (arith, raise_parts b h.0, credit-raise p bs h.1)

pub weights_of-raise :
    (p : String → Bool) (bs : List WeightedBackend) → weights_of p (map raise bs) ≡ weights_of p bs
unfolding raise
weights_of-raise p [] = refl
weights_of-raise p (b ∷ bs) = omega (arith, weights_of-raise p bs)

pub length-raise : (bs : List WeightedBackend) → length (map raise bs) ≡ length bs
length-raise [] = refl
length-raise (b ∷ bs) = omega (arith, length-raise bs)

-- The entry at an index, if there is one, has a property.
abbrev pub AtIndex : (WeightedBackend → Type 0) → ℕ → List WeightedBackend → Type 0
AtIndex P i [] = ⊥
AtIndex P zero (b ∷ bs) = P b
AtIndex P (suc i) (b ∷ bs) = AtIndex P i bs

-- The winner's credit is positive and within the machine's range.
abbrev pub CanPay : WeightedBackend → Type 0
CanPay b = (0 < pos_part b.current_weight) × (pos_part b.current_weight < 2 ^ 63)

pub sub64_parts :
    (a : ℤ) (w : ℕ)
    → 0 < pos_part a
    → pos_part a < 2 ^ 63
    → w < 2 ^ 63
    → (pos_part (sub64 a (pos w)) + w ≡ neg_part (sub64 a (pos w)) + pos_part a)
      × (neg_part (sub64 a (pos w)) < w ⊎ (w ≡ 0))
      × (neg_part a ≡ 0)
unfolding sub64
sub64_parts a w p q r = ground arith

pub credit-reduce :
    (p : String → Bool) (w i : ℕ) (bs : List WeightedBackend)
    → w < 2 ^ 63
    → AtIndex CanPay i bs
    → credit p (reduce (pos w) i bs) + debt p bs + (if p (addr_at i bs) then w else 0)
      ≡ debt p (reduce (pos w) i bs) + credit p bs
unfolding reduce addr_at
credit-reduce p w i [] r h = elim h [ ]
credit-reduce p w zero (b ∷ bs) r h = ground (arith, sub64_parts b.current_weight w h.0 h.1 r)
credit-reduce p w (suc i) (b ∷ bs) r h = ground (arith, credit-reduce p w i bs r h)

pub weights_of-reduce :
    (p : String → Bool) (t : ℤ) (i : ℕ) (bs : List WeightedBackend)
    → weights_of p (reduce t i bs) ≡ weights_of p bs
unfolding reduce
weights_of-reduce p t i [] = refl
weights_of-reduce p t zero (b ∷ bs) = refl
weights_of-reduce p t (suc i) (b ∷ bs) = omega (arith, weights_of-reduce p t i bs)

pub length-reduce : (t : ℤ) (i : ℕ) (bs : List WeightedBackend) → length (reduce t i bs) ≡ length bs
unfolding reduce
length-reduce t i [] = refl
length-reduce t zero (b ∷ bs) = refl
length-reduce t (suc i) (b ∷ bs) = omega (arith, length-reduce t i bs)
