-- ===== src/Balancer/Interface.antt =====
-- What internal/balancer/balancer.go promises of every implementation.
use native.Mathlib.Nat.{mod-lt}
use proxy_centauri.Prelude.{
  ℕ, zero, suc, ◌+◌, ◌<◌, String, eq_iff, ◌≡◌, refl, sym, ap, ◌∙◌, true, List, [], ◌∷◌, ◌++◌, map,
  ◌⊎◌, inl, inr, Bool-cases, ◌==◌, arith, length, ℤ, pos, contains, contains-get_or, ltb_ℤ,
}
use proxy_centauri.Balancer.{
  Balancer, round_robin, least_conn, weighted, new_from_config, next, set_backends, len, addrs_of,
}
use proxy_centauri.Balancer.RoundRobin
use proxy_centauri.Balancer.RoundRobin.{RoundRobin}
use proxy_centauri.Balancer.LeastConn
use proxy_centauri.Balancer.LeastConn.{LeastConn}
use proxy_centauri.Balancer.LeastConn.Choice.{IsFirstMin, next-IsFirstMin}
use proxy_centauri.Balancer.Weighted
use proxy_centauri.Balancer.Weighted.{Weighted, WeightedBackend}

-- An empty balancer answers "" and does not change; any other answers one of its addresses.
abbrev pub Answers : Balancer → Type 0
Answers b =
    ((len b ≡ 0) × (next b ≡ ("", b))) ⊎ ((0 < len b) × (contains (next b).0 (addrs_of b) ≡ true))

round_robin-Answers : (r : RoundRobin) → Answers (round_robin r)
unfolding next len addrs_of RoundRobin.next RoundRobin.len
round_robin-Answers r = elim (Bool-cases (length r.backends == 0)) [
  | inl e ↦ inl (ground arith, rw e)
  | inr e ↦ inr (ground arith, rw e (contains-get_or r.backends _ "" (mod-lt _ (ground arith))))
]

contains-middle : (a : String) (xs ys : List String) → contains a (xs ++ a ∷ ys) ≡ true
contains-middle a [] ys = ground (arith, eq_iff a a)
contains-middle a (x ∷ xs) ys = ground (arith, contains-middle a xs ys)

next-in :
    (lc : LeastConn) (w : String) (xs : List String) → IsFirstMin lc w xs → contains w xs ≡ true
next-in lc w xs (before, rest, e, _, _) = rw e (contains-middle w before rest)

least_conn-Answers : (lc : LeastConn) → Answers (least_conn lc)
unfolding next len addrs_of LeastConn.len
least_conn-Answers lc = elim (Bool-cases (length lc.backends == 0)) [
  | inl e ↦ inl (
    ground arith,
    ap (λ (a : String). (a, least_conn lc)) (LeastConn.Choice.next-none lc (ground arith)),
  )
  | inr e ↦ inr (ground arith, next-in lc _ lc.backends (next-IsFirstMin lc (ground arith)))
]

best_from-lt :
    (i j : ℕ) (best : ℤ) (bs : List WeightedBackend)
    → i < j
    → Weighted.best_from i best j bs < j + length bs
unfolding Weighted.best_from
best_from-lt i j best [] h = omega arith
best_from-lt i j best (b ∷ bs) h = elim (Bool-cases (ltb_ℤ best b.current_weight)) [
  | inl e ↦ rw e (omega (arith, best_from-lt j (suc j) b.current_weight bs))
  | inr e ↦ rw e (omega (arith, best_from-lt i (suc j) best bs))
]

best_index-lt : (bs : List WeightedBackend) → 0 < length bs → Weighted.best_index bs < length bs
unfolding Weighted.best_index
best_index-lt [] h = elim h [ ]
best_index-lt (b ∷ bs) h = omega (arith, best_from-lt 0 1 b.current_weight bs)

addr_at-raise :
    (i : ℕ) (bs : List WeightedBackend)
    → i < length bs
    → contains (Weighted.addr_at i (map Weighted.raise bs)) (map (λ b. b.addr) bs) ≡ true
unfolding Weighted.addr_at Weighted.raise
addr_at-raise i [] h = elim h [ ]
addr_at-raise zero (b ∷ bs) h = ground (arith, eq_iff b.addr b.addr)
addr_at-raise (suc i) (b ∷ bs) h = ground (arith, addr_at-raise i bs)

length-raise : (bs : List WeightedBackend) → length (map Weighted.raise bs) ≡ length bs
length-raise [] = refl
length-raise (b ∷ bs) = ap suc (length-raise bs)

weighted-Answers : (w : Weighted) → Answers (weighted w)
unfolding next len addrs_of Weighted.len Weighted.next
weighted-Answers w = elim (Bool-cases (length w.backends == 0)) [
  | inl e ↦ inl (ground arith, rw e)
  | inr e ↦ inr (
    ground arith,
    rw e (
        addr_at-raise _ w.backends (
          rw length-raise at
            (best_index-lt (map Weighted.raise w.backends) (rw length-raise (ground arith))))),
  )
]

-- Whatever the algorithm: `Next` on an empty balancer returns "" and changes nothing, and on any
-- other it returns an address that the balancer holds.
pub next-Answers : (b : Balancer) → Answers b
next-Answers (round_robin r) = round_robin-Answers r
next-Answers (least_conn lc) = least_conn-Answers lc
next-Answers (weighted w) = weighted-Answers w

addrs-fill :
    (rule : ℕ → String → ℤ) (i : ℕ) (addrs : List String) (t : ℤ)
    → map (λ (b : WeightedBackend). b.addr) (Weighted.fill rule i addrs t).0 ≡ addrs
unfolding Weighted.fill
addrs-fill rule i [] t = refl
addrs-fill rule i (a ∷ addrs) t = ap (◌∷◌ a) (addrs-fill rule (suc i) addrs _)

-- `SetBackends` makes the balancer hold exactly the given list.
pub addrs_of-set_backends :
    (addrs : List String) (b : Balancer) → addrs_of (set_backends addrs b) ≡ addrs
unfolding set_backends addrs_of RoundRobin.set_backends LeastConn.set_backends Weighted.set_backends
addrs_of-set_backends addrs (round_robin r) = refl
addrs_of-set_backends addrs (least_conn lc) = refl
addrs_of-set_backends addrs (weighted w) = addrs-fill _ 0 addrs (pos 0)

length-addrs : (bs : List WeightedBackend) → length (map (λ b. b.addr) bs) ≡ length bs
length-addrs [] = refl
length-addrs (b ∷ bs) = ap suc (length-addrs bs)

-- `Len` counts the addresses that the balancer holds.
pub len-eq-length : (b : Balancer) → len b ≡ length (addrs_of b)
unfolding len addrs_of RoundRobin.len LeastConn.len Weighted.len
len-eq-length (round_robin r) = refl
len-eq-length (least_conn lc) = refl
len-eq-length (weighted w) = sym (length-addrs w.backends)

track-backends :
    (addrs : List String) (lc : LeastConn) → (LeastConn.track addrs lc).backends ≡ lc.backends
unfolding LeastConn.track
track-backends [] lc = refl
track-backends (a ∷ addrs) lc = track-backends addrs _

-- Whatever algorithm the configuration names, the new balancer holds the given addresses.
pub addrs_of-new :
    (addrs : List String) (weights : List ℤ) (algorithm : String)
    → addrs_of (new_from_config addrs weights algorithm) ≡ addrs
unfolding new_from_config addrs_of RoundRobin.new LeastConn.new Weighted.new
addrs_of-new addrs weights algorithm = ground (
  arith,
  track-backends addrs (record { backends = addrs; conns = []; cells = [] }),
  addrs-fill (Weighted.configured weights) 0 addrs (pos 0),
)

addrs-raise :
    (bs : List WeightedBackend) → map (λ b. b.addr) (map Weighted.raise bs) ≡ map (λ b. b.addr) bs
unfolding Weighted.raise
addrs-raise [] = refl
addrs-raise (b ∷ bs) = ap (◌∷◌ b.addr) (addrs-raise bs)

addrs-reduce :
    (t : ℤ) (i : ℕ) (bs : List WeightedBackend)
    → map (λ (b : WeightedBackend). b.addr) (Weighted.reduce t i bs) ≡ map (λ b. b.addr) bs
unfolding Weighted.reduce
addrs-reduce t i [] = refl
addrs-reduce t zero (b ∷ bs) = refl
addrs-reduce t (suc i) (b ∷ bs) = ap (◌∷◌ b.addr) (addrs-reduce t i bs)

-- `Next` changes none of the addresses.
pub addrs_of-next : (b : Balancer) → addrs_of (next b).1 ≡ addrs_of b
unfolding next addrs_of RoundRobin.next Weighted.next
addrs_of-next (round_robin r) = ground arith
addrs_of-next (least_conn lc) = refl
addrs_of-next (weighted w) = elim (Bool-cases (length w.backends == 0)) [
  | inl e ↦ rw e
  | inr e ↦ rw e (addrs-reduce w.total _ (map Weighted.raise w.backends) ∙ addrs-raise w.backends)
]
