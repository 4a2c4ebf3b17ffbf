-- ===== src/Tests/Balancers.antt =====
-- internal/balancer at concrete inputs.
use proxy_centauri.Prelude.{
  ◌↔◌, ◌+◌, ◌*◌, ◌≤◌, String, ◌≡◌, refl, List, [], ◌∷◌, arith, count, Bool, ℤ, pos, negsuc, add64,
  sub64, str_eq, lookup, insert,
}
use proxy_centauri.Balancer.RoundRobin
use proxy_centauri.Balancer.RoundRobin.Fairness.{picks_fair}
use proxy_centauri.Balancer.LeastConn
use proxy_centauri.Balancer.LeastConn.{acquires, releases, sets_backends}
use proxy_centauri.Balancer.LeastConn.Choice.{IsFirstMin, next_iff}
use proxy_centauri.Balancer.LeastConn.Validity.{new-IsValid}
use proxy_centauri.Balancer.LeastConn.Refinement.{view, spec_run, view-run}
use proxy_centauri.Balancer.LeastConn.OpenConns.{count-eq-open, count-flap}
use proxy_centauri.Balancer.LeastConn.Overlap.{count-overlap}
use proxy_centauri.Balancer.Weighted
use proxy_centauri.Balancer.Weighted.Sums.{weights_of, everyone}
use proxy_centauri.Balancer.Weighted.Fairness.{
  IsFresh, picks-weighted, picks_ahead, weight_of, entries_of,
}
use proxy_centauri.Balancer.Weighted.Weights.{new-IsFresh, held_weight, held_weight-flap}

abbrev three : List String
three = "a:1" ∷ "b:2" ∷ "c:3" ∷ []

abbrev turned : RoundRobin.RoundRobin
turned = record { backends = three; counter = 7 }

round_robin_run : RoundRobin.picks 4 turned ≡ "b:2" ∷ "c:3" ∷ "a:1" ∷ "b:2" ∷ []
unfolding RoundRobin.picks RoundRobin.next
round_robin_run = refl

picks_fair_example : count "a:1" (RoundRobin.picks (2 * RoundRobin.len turned) turned) ≡ 2 * 1
unfolding RoundRobin.len
picks_fair_example = picks_fair 2 turned "a:1" (omega arith) (omega arith)

abbrev shares : List ℤ
shares = pos 3 ∷ pos 2 ∷ pos 1 ∷ []

weighted_run :
    Weighted.picks 6 (Weighted.new three shares)
    ≡ "a:1" ∷ "b:2" ∷ "a:1" ∷ "c:3" ∷ "b:2" ∷ "a:1" ∷ []
unfolding Weighted.picks Weighted.next Weighted.new Weighted.fill Weighted.configured Weighted.raise
    Weighted.best_index Weighted.reduce Weighted.addr_at add64 sub64
weighted_run = refl

abbrev spread : Weighted.Weighted
spread = Weighted.new three shares

spread-IsFresh : IsFresh spread
unfolding Weighted.new Weighted.fill Weighted.configured
spread-IsFresh = new-IsFresh three shares (omega arith) (omega arith)

picks-weighted_example :
    count "b:2" (Weighted.picks (2 * weights_of everyone spread.backends) spread)
    ≡ 2 * weight_of "b:2" spread.backends
picks-weighted_example = picks-weighted 2 spread "b:2" spread-IsFresh

picks_ahead_example :
    let p : String → Bool = λ b. str_eq b "a:1" in
    weights_of everyone spread.backends * count "a:1" (Weighted.picks 4 spread)
      + entries_of p spread.backends
    ≤ 4 * weight_of "a:1" spread.backends
      + entries_of p spread.backends * weights_of everyone spread.backends
picks_ahead_example = picks_ahead 4 spread "a:1" spread-IsFresh

held_weight-flap_example :
    held_weight (Weighted.set_backends three (Weighted.set_backends ("b:2" ∷ []) spread)) "a:1"
    ≡ pos 1
held_weight-flap_example = held_weight-flap spread "a:1" ("b:2" ∷ []) three refl

abbrev idle : LeastConn.LeastConn
idle = LeastConn.new three

next_iff_example : (LeastConn.next idle ≡ "a:1") ↔ IsFirstMin idle "a:1" idle.backends
unfolding LeastConn.new LeastConn.len
next_iff_example = next_iff idle "a:1" (omega arith)

view-run_example :
    view (
      LeastConn.run
        (acquires "a:1" ∷ sets_backends ("a:1" ∷ []) ∷ releases "a:1" ∷ [])
        (LeastConn.new three))
    ≡ spec_run
        (acquires "a:1" ∷ sets_backends ("a:1" ∷ []) ∷ releases "a:1" ∷ [])
        (record { backends = three; active = λ b. pos 0 })
view-run_example =
    view-run three (acquires "a:1" ∷ sets_backends ("a:1" ∷ []) ∷ releases "a:1" ∷ [])

count-eq-open_example :
    LeastConn.count
      (LeastConn.run (acquires "a:1" ∷ acquires "b:2" ∷ acquires "a:1" ∷ releases "a:1" ∷ []) idle)
      "a:1"
    ≡ pos 1
unfolding LeastConn.new LeastConn.count lookup insert
count-eq-open_example =
    count-eq-open (acquires "a:1" ∷ acquires "b:2" ∷ acquires "a:1" ∷ releases "a:1" ∷ []) idle
      "a:1" 0 1 (new-IsValid three) (omega arith) refl refl refl

count-flap_example :
    LeastConn.count
      (LeastConn.run
        (acquires "a:1" ∷ sets_backends [] ∷ sets_backends three ∷ releases "a:1" ∷ [])
        idle)
      "a:1"
    ≡ negsuc 0
count-flap_example = count-flap idle "a:1" [] three (new-IsValid three) refl refl

count-overlap_example :
    LeastConn.count
      (LeastConn.add (lookup "a:1" idle.conns) (pos 1) (LeastConn.set_backends ("a:1" ∷ []) idle))
      "a:1"
    ≡ LeastConn.count
        (LeastConn.set_backends ("a:1" ∷ []) (LeastConn.add (lookup "a:1" idle.conns) (pos 1) idle))
        "a:1"
count-overlap_example = count-overlap ("a:1" ∷ []) idle (new-IsValid three) (pos 1) "a:1" "a:1"
