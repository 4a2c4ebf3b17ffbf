-- ===== src/Tests/Oracles.antt =====
-- internal/oracle at concrete inputs.
use proxy_centauri.Prelude.{
  ◌&&◌, ℕ, ◌+◌, ◌*◌, ◌^◌, ◌≤◌, ◌≡◌, refl, true, Option, none, some, List, [], ◌∷◌, map, false,
  arith, total, ℤ, pos, ltb_ℤ, not, bits64, of_bits64, wrap64, lookup, insert, String, str_eq,
  if◌then◌else◌,
}
use proxy_centauri.Oracle.Aggregator.{
  build_snapshot, prev_map, snapshot_one, positive, delta_req, delta_err, clamp,
}
use proxy_centauri.Floats.{Float64}
use proxy_centauri.Metrics.Collector.{MetricsSnapshot}
use proxy_centauri.Oracle.Aggregator.Rounds.{Rises, final, rates, rate, rises, rates-rises}
use proxy_centauri.Oracle.Engine.{
  OracleResponse, Oracle, World, call_claude, conclude, since, interval, breaches, should_call,
  snaps_of,
}
use proxy_centauri.Oracle.Flights
use proxy_centauri.Oracle.Flights.Steps.{count_asks, grounded}
use proxy_centauri.Oracle.Flights.Calls.{calls-overlap}

-- Whole numbers for the floats.
abbrev pub whole : Float64
whole = record {
  Float = ℤ;
  of_int = λ a. a;
  to_int = λ a. a;
  literal = λ n k. pos n;
  seconds = λ n. pos n;
  mul = λ a b. a;
  add = λ a b. a;
  div = λ a b. a;
  sub = λ a b. a;
  gt = λ a b. ltb_ℤ b a;
  le = λ a b. not (ltb_ℤ b a);
  eq = λ a b. not (ltb_ℤ b a) && not (ltb_ℤ a b);
}

abbrev shown : ℕ → MetricsSnapshot whole
shown n = record { gate = "web"; req_total = pos n; err_total = pos 0; p95_ms = pos 7 }

abbrev rounds : List (List (MetricsSnapshot whole) × ℤ)
rounds = (shown 4 ∷ [], pos 30) ∷ (shown 9 ∷ [], pos 30) ∷ []

rising : Rises whole "web" 0 rounds
rising = (
  4,
  shown 4,
  refl,
  refl,
  omega arith,
  omega arith,
  (9, shown 9, refl, refl, omega arith, omega arith, tt),
)

rates-rises_example :
    (rates whole "web" [] rounds ≡ map (rate whole) (rises whole "web" 0 rounds rising))
    × (total (λ (x : ℕ × ℤ). x.0) (rises whole "web" 0 rounds rising)
        ≡ final whole "web" 0 rounds rising)
rates-rises_example = rates-rises whole "web" rounds rising

abbrev pub calm_one : Oracle whole
calm_one = record {
  cfg = record {
    enabled = true;
    api_key = "key";
    model = "claude";
    interval_seconds = pos 300;
    threat_detection = true;
    scaling_advisor = true;
    error_rate_threshold = pos 0;
    p95_latency_threshold = pos 0;
  };
  last_snaps = [];
  last_call = some 0;
  store = record { request_stats = []; events = []; threat_signals = []; next_id = 1 };
}

abbrev fine : OracleResponse
fine = record { kind = "ok"; level = "low"; gate = "*"; summary = ""; reasoning = ""; action = "" }

abbrev at_second : ℕ → Option (List String) → World whole
at_second n message = record {
  now = n * 10 ^ 9;
  current = shown n ∷ [];
  message = message;
  unmarshal = λ text. if str_eq text "{}" then some fine else none;
  answered = n * 10 ^ 9 + 10 ^ 9;
  saves = true;
}

-- The flush begins an analysis while the loop waits for Claude, and is answered first: both asked
-- within one interval, and the older snapshots are the ones that are kept.
abbrev answered_at : ℕ → World whole → World whole
answered_at n w = record w { answered = n * 10 ^ 9 }

abbrev both : List (Flights.Move whole)
both =
    Flights.ticks (answered_at 325 (at_second 300 (some ("{}" ∷ []))))
    ∷ Flights.checks [] (answered_at 321 (at_second 320 (some ("{}" ∷ []))))
    ∷ Flights.finishes false
    ∷ Flights.finishes true
    ∷ []

calls-overlap_example :
    0 + count_asks whole false both (grounded whole calm_one) * (300 * 10 ^ 9)
    ≤ Flights.Steps.end whole 0 both (grounded whole calm_one)
unfolding call_claude Flights.move Flights.begin Flights.finish conclude should_call since interval
    wrap64 bits64 of_bits64 breaches snaps_of build_snapshot snapshot_one positive prev_map
    delta_req delta_err clamp lookup insert
calls-overlap_example =
    calls-overlap whole false both calm_one 0 (omega arith, omega arith) refl
      (
        omega arith,
        refl,
        (omega arith, refl, (omega arith, (fine, refl), (omega arith, (fine, refl), tt))),
      )

both_ask :
    (count_asks whole true both (grounded whole calm_one) ≡ 1)
    × (count_asks whole false both (grounded whole calm_one) ≡ 1)
unfolding call_claude Flights.move Flights.begin Flights.finish conclude should_call since interval
    wrap64 bits64 of_bits64 breaches snaps_of build_snapshot snapshot_one positive prev_map
    delta_req delta_err clamp lookup insert
both_ask = (refl, refl)

older_kept :
    map (λ s. s.raw_req_total) (Flights.run whole both (grounded whole calm_one)).oracle.last_snaps
    ≡ pos 300 ∷ []
unfolding Flights.run call_claude Flights.move Flights.begin Flights.finish conclude should_call
    since interval wrap64 bits64 of_bits64 breaches snaps_of build_snapshot snapshot_one positive
    prev_map delta_req delta_err clamp lookup insert
older_kept = refl
