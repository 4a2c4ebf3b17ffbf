-- ===== src/Balancer/Weighted/Fairness.antt =====
-- The shares that internal/balancer/weighted.go gives to its backends.
use native.Mathlib.Nat.{suc-add, zero-add, zero-mul, add-zero, eq_of_mul-eq-mul_left}
use proxy_centauri.Prelude.{
  ℕ, zero, suc, ◌+◌, ◌*◌, ◌^◌, ◌<◌, ◌≤◌, String, ◌≡◌, refl, sym, ap, ◌∙◌, Bool, List, [], ◌∷◌, ◌++◌,
  map, inl, inr, Bool-cases, arith, length, All, pos, neg_part, str_eq, count, count-append, subst,
}
use proxy_centauri.Balancer.Weighted.{WeightedBackend, Weighted, next, picks, after}
use proxy_centauri.Balancer.Weighted.Sums.{weights_of, sum_by, credit, debt, everyone}
use proxy_centauri.Balancer.Weighted.Step.{IsOnTrack, IsBalanced}
use proxy_centauri.Balancer.Weighted.Period.{
  wins_of, after-IsBalanced, credit-after, debt-period, at_rest, rest-after, total-after, settled,
}

-- The sum of the weights of the entries of one address.
abbrev pub weight_of : String → List WeightedBackend → ℕ
weight_of a = weights_of (λ b. str_eq b a)

-- As `NewWeighted` and `SetBackends` leave a list with a positive weight: no weight is negative,
-- every current weight is 0, the total is the sum of the weights, and the machine's range holds the
-- sums.
pub record IsFresh (w : Weighted) : Type 0 where
  pub at_start : All (λ b. (b.current_weight ≡ pos 0) × (neg_part b.weight ≡ 0)) w.backends
  pub total_eq : w.total ≡ pos (weights_of everyone w.backends)
  pub room : suc (length w.backends) * weights_of everyone w.backends < 2 ^ 63
  pub some_weight : 0 < weights_of everyone w.backends

wins-eq-count : (a : String) (xs : List String) → wins_of (λ b. str_eq b a) xs ≡ count a xs
wins-eq-count a [] = refl
wins-eq-count a (x ∷ xs) = omega (arith, wins-eq-count a xs)

start-IsOnTrack :
    (total : ℕ) (bs : List WeightedBackend)
    → 0 < total
    → All (λ b. (b.current_weight ≡ pos 0) × (neg_part b.weight ≡ 0)) bs
    → All (IsOnTrack total 0) bs
start-IsOnTrack total [] h v = tt
start-IsOnTrack total (b ∷ bs) h v =
    ((0, ground arith, ground arith, v.0.1), start-IsOnTrack total bs h v.1)

start-sums :
    (p : String → Bool) (bs : List WeightedBackend)
    → All (λ b. (b.current_weight ≡ pos 0) × (neg_part b.weight ≡ 0)) bs
    → (credit p bs ≡ 0) × (debt p bs ≡ 0)
start-sums p [] v = (refl, refl)
start-sums p (b ∷ bs) v = ground (arith, start-sums p bs v.1)

module _ (w : Weighted) (v : IsFresh w) where
  abbrev total : ℕ
  total = weights_of everyone w.backends

  fresh-IsBalanced : IsBalanced total 0 w
  fresh-IsBalanced = record {
    on_track = start-IsOnTrack total w.backends v.some_weight v.at_start;
    even = ground (arith, start-sums everyone w.backends v.at_start);
    whole = refl;
    total_eq = v.total_eq;
    room = v.room;
    some_weight = v.some_weight;
  }

  end-IsBalanced : IsBalanced total total (after total w)
  end-IsBalanced =
      subst (λ (k : ℕ). IsBalanced total k (after total w)) (add-zero total)
        (after-IsBalanced total total 0 w fresh-IsBalanced)

  end_debt : debt everyone (after total w).backends ≡ 0
  end_debt = debt-period total (after total w).backends end-IsBalanced.on_track

  end_backends : (after total w).backends ≡ w.backends
  end_backends =
      sym (settled (after total w).backends (end-IsBalanced.even ∙ end_debt) end_debt)
      ∙ rest-after total w
      ∙ (let (c, d) = start-sums everyone w.backends v.at_start in settled w.backends c d)

  after_period : after total w ≡ w
  after_period = λ i. record { backends = end_backends i; total = total-after total w i }

  count-period : (a : String) → count a (picks total w) ≡ weight_of a w.backends
  count-period a = eq_of_mul-eq-mul_left total v.some_weight _ _ (
      ground (
        arith,
        wins-eq-count a (picks total w),
        credit-after total total 0 w (λ b. str_eq b a) fresh-IsBalanced,
        start-sums (λ b. str_eq b a) w.backends v.at_start,
        end_backends,
      ))

picks-add : (m n : ℕ) (w : Weighted) → picks (m + n) w ≡ picks m w ++ picks n (after m w)
unfolding picks after
picks-add zero n w = simp zero-add
picks-add (suc m) n w = rw suc-add (ap (◌∷◌ (next w).0) (picks-add m n (next w).1))

-- From a fresh state (all current weights 0, a positive total, no overflow), in any number of
-- periods of as many calls as the weights add up to, every address is returned exactly as often
-- per period as the weights of its entries add up to.
pub picks-weighted :
    (m : ℕ) (w : Weighted) (a : String)
    → IsFresh w
    → count a (picks (m * weights_of everyone w.backends) w) ≡ m * weight_of a w.backends
unfolding picks
picks-weighted zero w a v = rw (zero-mul, zero-mul)
picks-weighted (suc m) w a v =
    ap (λ (n : ℕ). count a (picks n w))
      (let e : suc m * total w v ≡ total w v + m * total w v = omega arith in e)
    ∙ ap (count a) (picks-add (total w v) (m * total w v) w)
    ∙ count-append a (picks (total w v) w) _
    ∙ rw (after_period w v) (omega (arith, count-period w v a, picks-weighted m w a v))

-- How many entries an address has.
abbrev pub entries_of : (String → Bool) → List WeightedBackend → ℕ
entries_of p = sum_by p (λ b. 1)

entries-rest :
    (p : String → Bool) (bs : List WeightedBackend)
    → entries_of p (map at_rest bs) ≡ entries_of p bs
entries-rest p [] = refl
entries-rest p (b ∷ bs) = omega (arith, entries-rest p bs)

debt-lt :
    (total k : ℕ) (p : String → Bool) (bs : List WeightedBackend)
    → All (IsOnTrack total k) bs
    → debt p bs + entries_of p bs ≤ entries_of p bs * total
debt-lt total k p [] h = omega arith
debt-lt total k p (b ∷ bs) h =
    let d = h.0.2 in
    elim (Bool-cases (p b.addr)) [
      | inl e ↦ rw e (omega (arith, debt-lt total k p bs h.1))
      | inr e ↦ rw e (omega (arith, debt-lt total k p bs h.1))
    ]

-- From a fresh state no address gets ahead of its share: after any number `n` of calls, its count
-- times the total exceeds `n` times its weight by less than the total for each of its entries.
pub picks_ahead :
    (n : ℕ) (w : Weighted) (a : String)
    → IsFresh w
    → let p : String → Bool = λ b. str_eq b a in
      weights_of everyone w.backends * count a (picks n w) + entries_of p w.backends
      ≤ n * weight_of a w.backends + entries_of p w.backends * weights_of everyone w.backends
picks_ahead n w a v =
    let p : String → Bool = λ b. str_eq b a in
    let t = total w v in
    let same : entries_of p (after n w).backends ≡ entries_of p w.backends =
      sym (entries-rest p (after n w).backends)
      ∙ ap (entries_of p) (rest-after n w)
      ∙ entries-rest p w.backends in
    omega (
      arith,
      same,
      ap (λ (m : ℕ). m * total w v) same,
      ap (λ (m : ℕ). total w v * m) (wins-eq-count a (picks n w)),
      start-sums p w.backends v.at_start,
      credit-after n (total w v) 0 w p (fresh-IsBalanced w v),
      debt-lt (total w v) (n + 0) p (after n w).backends
          (after-IsBalanced n (total w v) 0 w (fresh-IsBalanced w v)).on_track,
    )
