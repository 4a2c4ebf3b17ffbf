-- ===== src/Oracle/Flights/Calls.antt =====
-- How often the two goroutines of internal/oracle/oracle.go call Claude, when they overlap.
use proxy_centauri.Prelude.{ℕ, ◌+◌, ◌*◌, ◌≤◌, ◌≡◌, refl, subst, Bool, some, List, [], ◌∷◌, arith}
use proxy_centauri.Floats.{Float64}
use proxy_centauri.Config.{OracleConfig}
use proxy_centauri.Oracle.Engine.{Oracle}
use proxy_centauri.Oracle.Engine.Calls.{Fits, period}
use proxy_centauri.Oracle.Flights.{Flights, Move, move}
use proxy_centauri.Oracle.Flights.Steps.{asks, count_asks, time_of, Timed, end, grounded}
use proxy_centauri.Oracle.Flights.Paid.{Paid, move-Paid}

module _ (f : Float64) where
  module _ (cfg : OracleConfig f) (fits : Fits f cfg) (t : ℕ) where
    within : {a b c : ℕ} → a ≤ b → b ≤ c → a ≤ c
    within h k = omega (arith, h, k)

    run-Paid :
        (who : Bool) (ms : List (Move f)) (n clock : ℕ) (s : Flights f)
        → Timed f clock ms s
        → Paid f cfg fits t who n clock s
        → t + (n + count_asks f who ms s) * period f cfg ≤ end f clock ms s
    run-Paid who [] n clock s timed h =
        subst (λ k. t + k * period f cfg ≤ clock) (omega arith) (within h.paid h.spent_past)
    run-Paid who (m ∷ ms) n clock s (l, quiet, timed) h =
        let s' = move f m s in
        let rest =
          run-Paid who ms (n + asks f who s s') (time_of f clock m s) s' timed
            (move-Paid f cfg fits t who m n clock s l quiet h) in
        subst (λ k. t + k * period f cfg ≤ end f clock (m ∷ ms) s) (omega arith) rest

  -- Also where the loop and the flush overlap, each of the two asks Claude at most once per
  -- interval without breaches: from an answer at the time `t` on, with nothing in flight, in
  -- any order of their moves that agrees with the times, and where each call that ends has an
  -- answer, the calls of one goroutine times the interval fit between `t` and the end, if the
  -- interval is not negative and fits a 64-bit Duration.
  pub calls-overlap :
      (who : Bool) (ms : List (Move f)) (o : Oracle f) (t : ℕ)
      → Fits f o.cfg
      → o.last_call ≡ some t
      → Timed f t ms (grounded f o)
      → t + count_asks f who ms (grounded f o) * period f o.cfg ≤ end f t ms (grounded f o)
  calls-overlap who ms o t fits last timed =
      let start : Paid f o.cfg fits t who 0 t (grounded f o) = record {
        last = t;
        spent = t;
        same = refl;
        is_last = last;
        last_past = omega arith;
        paid = omega arith;
        spent_past = omega arith;
        waits = λ x. omega arith;
      } in
      subst (λ k. t + k * period f o.cfg ≤ end f t ms (grounded f o)) (omega arith)
        (run-Paid o.cfg fits t who ms 0 t (grounded f o) timed start)
