-- ===== src/Balancer.antt =====
-- internal/balancer/balancer.go. The interface's implementations are the constructors of one type:
-- a call dispatches on it, as does a type assertion on `*LeastConn`.
pub mod RoundRobin
pub mod LeastConn
pub mod Weighted
pub mod Interface
use proxy_centauri.Prelude.{ℕ, String, List, map, if◌then◌else◌, str_eq, ℤ}

pub data Balancer : Type 0 where
  round_robin : RoundRobin.RoundRobin → Balancer
  least_conn : LeastConn.LeastConn → Balancer
  weighted : Weighted.Weighted → Balancer

-- `NewFromConfig`.
unfoldable pub new_from_config : List String → List ℤ → String → Balancer
new_from_config addrs weights algorithm =
    if str_eq algorithm "least_connections"
    then least_conn (LeastConn.new addrs)
    else if str_eq algorithm "weighted"
    then weighted (Weighted.new addrs weights)
    else round_robin (RoundRobin.new addrs)

abbrev on_round_robin : String × RoundRobin.RoundRobin → String × Balancer
on_round_robin (a, r) = (a, round_robin r)

abbrev on_weighted : String × Weighted.Weighted → String × Balancer
on_weighted (a, w) = (a, weighted w)

-- `Next() string`; a least-connections balancer is read only.
unfoldable pub next : Balancer → String × Balancer
next (round_robin r) = on_round_robin (RoundRobin.next r)
next (least_conn lc) = (LeastConn.next lc, least_conn lc)
next (weighted w) = on_weighted (Weighted.next w)

-- `SetBackends([]string)`.
unfoldable pub set_backends : List String → Balancer → Balancer
set_backends addrs (round_robin r) = round_robin (RoundRobin.set_backends addrs r)
set_backends addrs (least_conn lc) = least_conn (LeastConn.set_backends addrs lc)
set_backends addrs (weighted w) = weighted (Weighted.set_backends addrs w)

-- `Len() int`.
unfoldable pub len : Balancer → ℕ
len (round_robin r) = RoundRobin.len r
len (least_conn lc) = LeastConn.len lc
len (weighted w) = Weighted.len w

-- The addresses that the balancer holds.
unfoldable pub addrs_of : Balancer → List String
addrs_of (round_robin r) = r.backends
addrs_of (least_conn lc) = lc.backends
addrs_of (weighted w) = map (λ b. b.addr) w.backends
