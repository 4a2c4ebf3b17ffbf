-- ===== src/Reload/Kept.antt =====
-- A scan of cmd/centauri/main.go, and what calls on it and steps of its goroutine keep of it.
use Prim.Native.String.{String}
use proxy_centauri.Prelude.{◌≡◌, refl, ◌∙◌, List, [], ◌∷◌, arith}
use proxy_centauri.Health.{PulseScan, Network, set_all}
use proxy_centauri.Health.Steps.{Phase, waits, at_head, at_ping, Watch, step_from, step, on_scan}
use proxy_centauri.Health.Steps.Steady.{Steady, balancer-Steady, set_all-Steady, step-Steady}
use proxy_centauri.Balancer.{Balancer, round_robin, least_conn, weighted, next, addrs_of}
use proxy_centauri.Balancer.Interface.{addrs_of-next}
use proxy_centauri.Balancer.LeastConn
use proxy_centauri.Balancer.LeastConn.Refinement.{backends-add}
use proxy_centauri.Tunnel.Tcp.{acquire, release}
use proxy_centauri.Reload.{route, let_go}
use proxy_centauri.Health.Check.{Distinct}

-- The scan of a name watches the addresses, in step with its balancer but for a check that is under
-- way.
pub record IsScan (name : String) (addrs : List String) (w : Watch) : Type 0 where
  pub named : w.scan.name ≡ name
  pub watches : w.scan.all ≡ addrs
  pub steady : Steady w.scan w.phase

-- No check of the scan is under way.
abbrev pub IsResting : Watch → Type 0
IsResting w = w.phase ≡ waits

pub set_all-IsScan :
    (name : String) (old new : List String) (w : Watch)
    → Distinct new
    → IsResting w
    → IsScan name old w
    → IsScan name new (on_scan (set_all new) w)
set_all-IsScan name old new w d rests v =
    let steady = set_all-Steady new w d rests in
    record { named = unfold set_all in v.named; watches = unfold set_all in refl; steady = steady }

named-step :
    (net : Network) (phase : Phase) (ps : PulseScan) → (step_from net phase ps).scan.name ≡ ps.name
unfolding step_from
named-step net waits ps = refl
named-step net (at_head [] live changed) ps = refl
named-step net (at_head (a ∷ left) live changed) ps = refl
named-step net (at_ping a was left live changed) ps = refl

all-step :
    (net : Network) (phase : Phase) (ps : PulseScan) → (step_from net phase ps).scan.all ≡ ps.all
unfolding step_from
all-step net waits ps = refl
all-step net (at_head [] live changed) ps = refl
all-step net (at_head (a ∷ left) live changed) ps = refl
all-step net (at_ping a was left live changed) ps = refl

pub step-IsScan :
    (name : String) (addrs : List String) (net : Network) (w : Watch)
    → IsScan name addrs w
    → IsScan name addrs (step net w)
step-IsScan name addrs net w v =
    let steady = step-Steady net w v.steady in
    record {
      named = unfold step in named-step net w.phase w.scan ∙ v.named;
      watches = unfold step in all-step net w.phase w.scan ∙ v.watches;
      steady = steady;
    }

-- A change of the balancer that keeps its addresses.
balancer-IsScan :
    (name : String) (addrs : List String) (b : Balancer) (w : Watch)
    → addrs_of b ≡ addrs_of w.scan.balancer
    → IsScan name addrs w
    → IsScan name addrs (on_scan (λ ps. record ps { balancer = b }) w)
balancer-IsScan name addrs b w e v = record {
  named = v.named;
  watches = v.watches;
  steady = balancer-Steady b w.scan w.phase e v.steady;
}

addrs_of-acquire : (addr : String) (b : Balancer) → addrs_of (acquire addr b) ≡ addrs_of b
unfolding acquire addrs_of LeastConn.acquire
addrs_of-acquire addr (round_robin r) = refl
addrs_of-acquire addr (least_conn lc) = backends-add _ _ lc
addrs_of-acquire addr (weighted w) = refl

addrs_of-release : (addr : String) (b : Balancer) → addrs_of (release addr b) ≡ addrs_of b
unfolding release addrs_of LeastConn.release
addrs_of-release addr (round_robin r) = refl
addrs_of-release addr (least_conn lc) = backends-add _ _ lc
addrs_of-release addr (weighted w) = refl

pub route-IsScan :
    (name : String) (addrs : List String) (w : Watch)
    → IsScan name addrs w
    → IsScan name addrs (on_scan route w)
unfolding route
route-IsScan name addrs w v =
    let b = w.scan.balancer in
    balancer-IsScan name addrs _ w
      (ground (arith, addrs_of-next b, addrs_of-acquire (next b).0 (next b).1)) v

pub let_go-IsScan :
    (name : String) (addrs : List String) (addr : String) (w : Watch)
    → IsScan name addrs w
    → IsScan name addrs (on_scan (let_go addr) w)
unfolding let_go
let_go-IsScan name addrs addr w v =
    balancer-IsScan name addrs _ w (addrs_of-release addr w.scan.balancer) v
