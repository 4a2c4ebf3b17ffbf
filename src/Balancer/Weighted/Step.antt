-- ===== src/Balancer/Weighted/Step.antt =====
-- The invariant of the smooth weighted round robin of internal/balancer/weighted.go.
use proxy_centauri.Prelude.{
  ℕ, zero, suc, ◌+◌, ◌*◌, ◌^◌, ◌<◌, ◌≤◌, String, ◌≡◌, ap, ◌∙◌, Bool, false, List, [], ◌∷◌, map,
  ◌==◌, arith, if◌then◌else◌, length, All, pos, pos_part, neg_part,
}
use proxy_centauri.Balancer.Weighted.{
  WeightedBackend, Weighted, raise, reduce, best_index, addr_at, next,
}
use proxy_centauri.Balancer.Weighted.Sums.{
  weights_of, credit, debt, everyone, AtIndex, HasRoom, CanPay, raise_parts, sub64_parts,
  credit-raise, credit-reduce, weights_of-raise, weights_of-reduce, length-raise, length-reduce,
}
use proxy_centauri.Balancer.Weighted.Picked.{IsCredited, best_index-IsCredited}

-- After `k` calls since the current weights were 0 an entry that has won `wins` of them stands at
-- k * weight - wins * total, and never as low as -total.
abbrev pub IsOnTrack : ℕ → ℕ → WeightedBackend → Type 0
IsOnTrack total k b =
    (wins : ℕ) × (pos_part b.current_weight + total * wins
      ≡ k * pos_part b.weight + neg_part b.current_weight)
    × (neg_part b.current_weight < total)
    × (neg_part b.weight ≡ 0)

-- The weights add up to `total`, the current weights to 0, and the machine's range has room.
pub record IsBalanced (total k : ℕ) (w : Weighted) : Type 0 where
  pub on_track : All (IsOnTrack total k) w.backends
  pub even : credit everyone w.backends ≡ debt everyone w.backends
  pub whole : weights_of everyone w.backends ≡ total
  pub total_eq : w.total ≡ pos total
  pub room : suc (length w.backends) * total < 2 ^ 63
  pub some_weight : 0 < total

module _ (total k : ℕ) where
  raise-IsOnTrack :
      (bs : List WeightedBackend)
      → All HasRoom bs
      → All (IsOnTrack total k) bs
      → All (IsOnTrack total (suc k)) (map raise bs)
  unfolding raise
  raise-IsOnTrack [] r h = tt
  raise-IsOnTrack (b ∷ bs) r h =
      let (wins, e, d, n) = h.0 in
      let (p, q, _) = raise_parts b r.0 in
      ((wins, omega arith, omega arith, n), raise-IsOnTrack bs r.1 h.1)

  reduce-IsOnTrack :
      (i : ℕ) (bs : List WeightedBackend)
      → total < 2 ^ 63
      → AtIndex CanPay i bs
      → All (IsOnTrack total k) bs
      → All (IsOnTrack total k) (reduce (pos total) i bs)
  unfolding reduce
  reduce-IsOnTrack i [] r c h = tt
  reduce-IsOnTrack zero (b ∷ bs) r c h =
      let (wins, e, d, n) = h.0 in
      let (p, q, m) = sub64_parts b.current_weight total c.0 c.1 r in
      ((wins + 1, omega arith, omega arith, n), h.1)
  reduce-IsOnTrack (suc i) (b ∷ bs) r c h = (h.0, reduce-IsOnTrack i bs r c h.1)

  debt-le :
      (bs : List WeightedBackend)
      → All (IsOnTrack total k) bs
      → debt everyone bs ≤ length bs * total
  debt-le [] h = omega arith
  debt-le (b ∷ bs) h = omega (arith, debt-le bs h.1, h.0.2)

  All-HasRoom :
      (bs : List WeightedBackend) (c v : ℕ)
      → credit everyone bs ≤ c
      → weights_of everyone bs ≤ v
      → c + v < 2 ^ 63
      → total < 2 ^ 63
      → All (IsOnTrack total k) bs
      → All HasRoom bs
  All-HasRoom [] c v p q r s h = tt
  All-HasRoom (b ∷ bs) c v p q r s h = (
    (h.0.3, omega arith, omega (arith, h.0.2)),
    All-HasRoom bs c v (omega arith) (omega arith) r s h.1,
  )

-- A credited entry of the raised list can pay.
CanPay-at :
    (i c : ℕ) (bs : List WeightedBackend)
    → credit everyone bs ≤ c
    → c < 2 ^ 63
    → AtIndex IsCredited i bs
    → AtIndex CanPay i bs
CanPay-at i c [] p q h = h
CanPay-at zero c (b ∷ bs) p q h = (h, omega arith)
CanPay-at (suc i) c (b ∷ bs) p q h = CanPay-at i c bs (omega arith) q h

module _ (total k : ℕ) (w : Weighted) (v : IsBalanced total k w) where
  abbrev raised : List WeightedBackend
  raised = map raise w.backends

  abbrev best : ℕ
  best = best_index raised

  has_room : All HasRoom w.backends
  has_room =
      All-HasRoom total k w.backends (length w.backends * total) total
        (omega (arith, v.even, debt-le total k w.backends v.on_track)) (omega (arith, v.whole))
        (omega (arith, v.room)) (omega (arith, v.room)) v.on_track

  credit-raised : credit everyone raised ≡ debt everyone raised + total
  credit-raised = omega (arith, credit-raise everyone w.backends has_room, v.even, v.whole)

  raised-IsOnTrack : All (IsOnTrack total (suc k)) raised
  raised-IsOnTrack = raise-IsOnTrack total k w.backends has_room v.on_track

  winner_pays : AtIndex CanPay best raised
  winner_pays =
      CanPay-at best (length w.backends * total + total) raised
        (omega (
          arith,
          debt-le total (suc k) raised raised-IsOnTrack,
          ap (λ (n : ℕ). n * total) (length-raise w.backends),
          credit-raised,
        ))
        (omega (arith, v.room))
        (best_index-IsCredited raised (omega (arith, credit-raised, v.some_weight)))

  not_empty :
      (bs : List WeightedBackend) → weights_of everyone bs ≡ total → (length bs == 0) ≡ false
  not_empty [] e = absurd (omega (arith, v.some_weight))
  not_empty (b ∷ bs) e = ground arith

  pub next_balanced :
      next w ≡ (addr_at best raised, record w { backends = reduce (pos total) best raised })
  unfolding next
  next_balanced = ground (arith, not_empty w.backends v.whole, v.total_eq)

  -- What a call does to the current weights of the entries that `p` selects.
  pub credit-next :
      (p : String → Bool)
      → credit p (next w).1.backends + debt p w.backends + (if p (next w).0 then total else 0)
        ≡ debt p (next w).1.backends + credit p w.backends + weights_of p w.backends
  credit-next p = rw next_balanced (
      omega (
        arith,
        credit-raise p w.backends has_room,
        credit-reduce p total best raised (let r : total < 2 ^ 63 = omega (arith, v.room) in r)
            winner_pays,
      ))

  pub weights_of-next :
      (p : String → Bool) → weights_of p (next w).1.backends ≡ weights_of p w.backends
  weights_of-next p =
      rw next_balanced
        (omega (arith, weights_of-reduce p (pos total) best raised, weights_of-raise p w.backends))

  length-next : length (next w).1.backends ≡ length w.backends
  length-next =
      rw next_balanced
        (omega (arith, length-reduce (pos total) best raised, length-raise w.backends))

  pub next-IsBalanced : IsBalanced total (suc k) (next w).1
  next-IsBalanced = record {
    on_track = rw next_balanced (
        reduce-IsOnTrack total (suc k) best raised (omega (arith, v.room)) winner_pays
          raised-IsOnTrack);
    even = omega (arith, credit-next everyone, v.even, v.whole);
    whole = weights_of-next everyone ∙ v.whole;
    total_eq = rw next_balanced v.total_eq;
    room = rw length-next v.room;
    some_weight = v.some_weight;
  }
