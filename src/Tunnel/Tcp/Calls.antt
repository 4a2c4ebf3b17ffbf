-- ===== src/Tunnel/Tcp/Calls.antt =====
-- What the calls that internal/tunnel/tunnel.go makes of a least-connections balancer do to the
-- count of an address.
use proxy_centauri.Prelude.{
  ℕ, ◌+◌, ◌-◌, ◌^◌, ◌≤◌, ◌<◌, ◌≡◌, refl, ap, subst, ◌∙◌, String, true, some, List, arith,
  if◌then◌else◌, str_eq, contains, pos,
}
use proxy_centauri.Balancer
use proxy_centauri.Balancer.{Balancer, least_conn}
use proxy_centauri.Balancer.LeastConn
use proxy_centauri.Balancer.LeastConn.{LeastConn, count, Call}
use proxy_centauri.Balancer.LeastConn.OpenConns.{open_step, count-step_open}
use proxy_centauri.Balancer.LeastConn.Refinement.{Connections, step-IsValid, view-new}
use proxy_centauri.Balancer.LeastConn.Validity.{IsValid, new-IsValid}
use proxy_centauri.Proxy.Balance.{count_in}
use proxy_centauri.Tunnel.Tcp.{acquire, release}

-- A valid least-connections balancer that has the address in its list and counts `n` for it.
pub record Counts (a : String) (n : ℕ) (b : Balancer) : Type 0 where
  pub lc : LeastConn
  pub is_least_conn : b ≡ least_conn lc
  pub valid : IsValid lc
  pub listed : contains a lc.backends ≡ true
  pub counted : count lc a ≡ pos n

-- One call of the balancer.
step-Counts :
    (c : Call) (a : String) (n m : ℕ) (b b' : Balancer)
    → n < 2 ^ 63
    → open_step a n c ≡ some m
    → (v : Counts a n b) → b' ≡ least_conn (LeastConn.step c v.lc)
    → Counts a m b'
step-Counts c a n m b b' h o v e =
    let (listed, counted) = count-step_open c v.lc a n m v.valid h v.listed v.counted o in
    record {
      lc = LeastConn.step c v.lc;
      is_least_conn = e;
      valid = step-IsValid c v.lc v.valid;
      listed = listed;
      counted = counted;
    }

pub acquire-Counts :
    (addr a : String) (n : ℕ) (b : Balancer)
    → n + 1 < 2 ^ 63
    → Counts a n b
    → Counts a (n + (if str_eq addr a then 1 else 0)) (acquire addr b)
unfolding acquire LeastConn.step
acquire-Counts addr a n b h v =
    step-Counts (LeastConn.acquires addr) a n _ b _ (omega (arith, h)) (ground (arith, h)) v
      (ap (acquire addr) v.is_least_conn)

pub release-Counts :
    (addr a : String) (n : ℕ) (b : Balancer)
    → n < 2 ^ 63
    → (if str_eq addr a then 1 else 0) ≤ n
    → Counts a n b
    → Counts a (n - (if str_eq addr a then 1 else 0)) (release addr b)
unfolding release LeastConn.step
release-Counts addr a n b h k v =
    step-Counts (LeastConn.releases addr) a n _ b _ h (ground (arith, h, k)) v
      (ap (release addr) v.is_least_conn)

pub set_backends-Counts :
    (addrs : List String) (a : String) (n : ℕ) (b : Balancer)
    → n < 2 ^ 63
    → contains a addrs ≡ true
    → Counts a n b
    → Counts a n (Balancer.set_backends addrs b)
unfolding Balancer.set_backends LeastConn.step
set_backends-Counts addrs a n b h k v =
    step-Counts (LeastConn.sets_backends addrs) a n n b _ h (ground (arith, k)) v
      (ap (Balancer.set_backends addrs) v.is_least_conn)

pub next-Counts :
    (a : String) (n : ℕ) (b : Balancer) → Counts a n b → Counts a n (Balancer.next b).1
unfolding Balancer.next
next-Counts a n b v = record {
  lc = v.lc;
  is_least_conn = ap (λ (x : Balancer). (Balancer.next x).1) v.is_least_conn;
  valid = v.valid;
  listed = v.listed;
  counted = v.counted;
}

pub cast : (a : String) (n m : ℕ) (b : Balancer) → n ≡ m → Counts a n b → Counts a m b
cast a n m b e v = subst (λ k. Counts a k b) e v

pub counted_in : (a : String) (n : ℕ) (b : Balancer) → Counts a n b → count_in b a ≡ pos n
counted_in a n b v = ap (λ (x : Balancer). count_in x a) v.is_least_conn ∙ v.counted

pub new-Counts :
    (addrs : List String) (a : String)
    → contains a addrs ≡ true
    → Counts a 0 (least_conn (LeastConn.new addrs))
new-Counts addrs a l = record {
  lc = LeastConn.new addrs;
  is_least_conn = refl;
  valid = new-IsValid addrs;
  listed = ap (λ (s : Connections). contains a s.backends) (view-new addrs) ∙ l;
  counted = ap (λ (s : Connections). s.active a) (view-new addrs);
}
