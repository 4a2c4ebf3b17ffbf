-- ===== src/Balancer/RoundRobin.antt =====
-- internal/balancer/roundrobin.go. The lock makes each call one step; the counter is a uint64.
pub mod Fairness
use proxy_centauri.Prelude.{
  ℕ, zero, suc, ◌+◌, ◌-◌, ◌*◌, ◌%◌, ◌^◌, ◌≤◌, ◌<◌, String, eq_iff, ◌≡◌, refl, ap, sym, ◌≢◌, ◌∙◌,
  true, List, [], ◌∷◌, ◌++◌, arith, ◌==◌, if◌then◌else◌, length, get_or, take, drop, count,
  contains, length-append, count-append, contains-get_or,
}

pub record RoundRobin : Type 0 where
  pub backends : List String
  pub counter : ℕ

unfoldable pub new : List String → RoundRobin
new backends = record { backends = backends; counter = 0 }

-- `counter.Add(1) - 1` is the value before the addition; the index is always in range.
unfoldable pub next : RoundRobin → String × RoundRobin
next r =
    let c = (r.counter + 1) % 2 ^ 64 in
    let n = (c + 2 ^ 64 - 1) % 2 ^ 64 in
    if length r.backends == 0
    then ("", r)
    else (get_or r.backends (n % length r.backends) "", record r { counter = c })

unfoldable pub set_backends : List String → RoundRobin → RoundRobin
set_backends backends r = record r { backends = backends }

unfoldable pub len : RoundRobin → ℕ
len r = length r.backends

-- The addresses that `n` calls in a row return.
unfoldable pub picks : ℕ → RoundRobin → List String
picks zero r = []
picks (suc n) r = let (a, r') = next r in a ∷ picks n r'

-- The state after them.
unfoldable pub after : ℕ → RoundRobin → RoundRobin
after zero r = r
after (suc n) r = after n (next r).1
