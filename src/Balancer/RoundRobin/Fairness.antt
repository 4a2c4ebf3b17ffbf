-- ===== src/Balancer/RoundRobin/Fairness.antt =====
-- The rotation of internal/balancer/roundrobin.go over whole rounds, below the counter's
-- wrap-around.
use native.Mathlib.Nat.{mod-eq_of_lt, zero-add, suc-add, zero-mul, suc-mul}
use mathlib.Core.Path.{ap₂}
use mathlib.Core.List.{append-nil}
use Prim.Native.Nat.{◌/◌}
use proxy_centauri.Prelude.{
  ℕ, zero, suc, ◌+◌, ◌-◌, ◌*◌, ◌%◌, ◌^◌, ◌≤◌, ◌<◌, String, ◌≡◌, refl, ap, ◌∙◌, List, [], ◌∷◌, ◌++◌,
  arith, length, get_or, take, drop, count, count-append,
}
use proxy_centauri.Balancer.RoundRobin.{RoundRobin, next, len, picks, after}

mod-of_parts : (q i l : ℕ) → i < l → (q * l + i) % l ≡ i
mod-of_parts q i l h = grind arith

-- The counter's value before the addition, as the code computes it.
before_add : (c : ℕ) → c < 2 ^ 64 → ((c + 1) % 2 ^ 64 + 2 ^ 64 - 1) % 2 ^ 64 ≡ c
before_add c h = omega arith

abbrev at : List String → ℕ → RoundRobin
at bs c = record { backends = bs; counter = c }

next_pick :
    (bs : List String) (c : ℕ)
    → 0 < length bs
    → c < 2 ^ 64
    → (next (at bs c)).0 ≡ get_or bs (c % length bs) ""
unfolding next
next_pick bs c p h = ground (arith, before_add c h)

next_state :
    (bs : List String) (c : ℕ) → 0 < length bs → c + 1 < 2 ^ 64 → (next (at bs c)).1 ≡ at bs (c + 1)
unfolding next
next_state bs c p h = ground (arith, mod-eq_of_lt h)

take-drop_step :
    (n i : ℕ) (bs : List String)
    → i < length bs
    → take (suc n) (drop i bs) ≡ get_or bs i "" ∷ take n (drop (suc i) bs)
take-drop_step n i [] h = elim h [ ]
take-drop_step n zero (b ∷ bs) h = refl
take-drop_step n (suc i) (b ∷ bs) h = take-drop_step n i bs (omega arith)

-- Inside a round the picks are the backends in their order.
picks-window :
    (n : ℕ) (bs : List String) (q i c : ℕ)
    → c ≡ q * length bs + i
    → i + n ≤ length bs
    → c + n ≤ 2 ^ 64
    → picks n (at bs c) ≡ take n (drop i bs)
unfolding picks
picks-window zero bs q i c e h b = refl
picks-window (suc zero) bs q i c e h b = rw (
  next_pick bs c (omega arith) (omega arith),
  e,
  mod-of_parts q i (length bs) (omega arith),
  take-drop_step 0 i bs (omega arith),
)
picks-window (suc (suc n)) bs q i c e h b = rw (
  next_pick bs c (omega arith) (omega arith),
  next_state bs c (omega arith) (omega arith),
  picks-window (suc n) bs q (suc i) (c + 1) (omega arith) (omega arith) (omega arith),
  e,
  mod-of_parts q i (length bs) (omega arith),
  take-drop_step (suc n) i bs (omega arith),
)

picks-add : (m n : ℕ) (r : RoundRobin) → picks (m + n) r ≡ picks m r ++ picks n (after m r)
unfolding picks after
picks-add zero n r = simp zero-add
picks-add (suc m) n r = rw suc-add (ap (◌∷◌ (next r).0) (picks-add m n (next r).1))

after-at :
    (n : ℕ) (bs : List String) (c : ℕ)
    → 0 < length bs
    → c + n < 2 ^ 64
    → after n (at bs c) ≡ at bs (c + n)
unfolding after
after-at zero bs c p h = ground arith
after-at (suc n) bs c p h =
    rw (next_state bs c p (omega arith), after-at n bs (c + 1) p (omega arith)) (ground arith)

count-drop-take :
    (a : String) (i : ℕ) (bs : List String) → count a (drop i bs) + count a (take i bs) ≡ count a bs
count-drop-take a zero bs = omega arith
count-drop-take a (suc i) [] = refl
count-drop-take a (suc i) (b ∷ bs) = omega (arith, count-drop-take a i bs)

take-all : (n : ℕ) (xs : List String) → length xs ≤ n → take n xs ≡ xs
take-all zero [] h = refl
take-all zero (x ∷ xs) h = elim h [ ]
take-all (suc n) [] h = refl
take-all (suc n) (x ∷ xs) h = ap (◌∷◌ x) (take-all n xs (omega arith))

length-drop-le : (i : ℕ) (xs : List String) → length (drop i xs) ≤ length xs - i
length-drop-le zero xs = omega arith
length-drop-le (suc i) [] = omega arith
length-drop-le (suc i) (x ∷ xs) = omega (arith, length-drop-le i xs)

-- A round that begins at slot `i` of the list runs to its end and goes on from its head.
picks-round :
    (bs : List String) (q i c : ℕ)
    → c ≡ q * length bs + i
    → i < length bs
    → c + length bs ≤ 2 ^ 64
    → picks (length bs) (at bs c) ≡ drop i bs ++ take i bs
picks-round bs q zero c e h b = rw (
  picks-window (length bs) bs q 0 c e (omega arith) b,
  take-all (length bs) bs (omega arith),
  append-nil,
)
picks-round bs q (suc i) c e h b =
    let n = length bs - suc i in
    let split : length bs ≡ n + suc i = omega arith in
    ap (λ (l : ℕ). picks l (at bs c)) split ∙ picks-add n (suc i) (at bs c) ∙ ap₂ ◌++◌ first second
  where
    first : picks (length bs - suc i) (at bs c) ≡ drop (suc i) bs
    first =
        picks-window _ bs q (suc i) c e (omega arith) (omega arith)
        ∙ take-all _ (drop (suc i) bs) (length-drop-le (suc i) bs)

    second : picks (suc i) (after (length bs - suc i) (at bs c)) ≡ take (suc i) bs
    second =
        rw (after-at (length bs - suc i) bs c (omega arith) (omega arith))
          (picks-window (suc i) bs (q + 1) 0 _ (grind arith) (omega arith) (omega arith))

count-round :
    (a : String) (bs : List String) (c : ℕ)
    → 0 < length bs
    → c + length bs ≤ 2 ^ 64
    → count a (picks (length bs) (at bs c)) ≡ count a bs
count-round a bs c p b =
    let i = c % length bs in
    rw
      (picks-round bs (c / length bs) (c % length bs) c (grind arith) (grind arith) b, count-append)
      (count-drop-take a (c % length bs) bs)

count-rounds :
    (m : ℕ) (a : String) (bs : List String) (c : ℕ)
    → 0 < length bs
    → c + m * length bs ≤ 2 ^ 64
    → count a (picks (m * length bs) (at bs c)) ≡ m * count a bs
unfolding picks
count-rounds zero a bs c p b = rw (zero-mul, zero-mul)
count-rounds (suc zero) a bs c p b =
    rw (suc-mul, zero-mul, zero-add) (count-round a bs c p (omega arith) ∙ omega arith)
count-rounds (suc (suc m)) a bs c p b =
    ap (λ (l : ℕ). count a (picks l (at bs c)))
      (let e : suc (suc m) * length bs ≡ length bs + suc m * length bs = omega arith in e)
    ∙ ap (count a) (picks-add (length bs) (suc m * length bs) (at bs c))
    ∙ count-append a (picks (length bs) (at bs c)) _
    ∙ rw (after-at (length bs) bs c p (omega arith)) (
        omega (
          arith,
          count-round a bs c p (omega arith),
          count-rounds (suc m) a bs (c + length bs) p (omega arith),
        ))

-- With a backend in the list, over `m` whole rounds that end before the counter wraps, every
-- address is returned exactly `m` times for each of its entries in the list, wherever in the list
-- the rounds begin.
pub picks_fair :
    (m : ℕ) (r : RoundRobin) (a : String)
    → 0 < len r
    → r.counter + m * len r ≤ 2 ^ 64
    → count a (picks (m * len r) r) ≡ m * count a r.backends
unfolding len
picks_fair m r a p b = count-rounds m a r.backends r.counter p b
