-- ===== src/Tests/Signals.antt =====
-- internal/metrics/store.go, internal/metrics/collector.go and internal/oracle/signals.go at
-- concrete inputs.
use proxy_centauri.Prelude.{
  ℕ, ◌≡◌, refl, String, true, false, none, some, List, [], ◌∷◌, map, arith, take, ℤ, pos, negsuc,
  ltb_ℤ,
}
use proxy_centauri.Floats.{FloatLaws}
use proxy_centauri.Numbers.{parse_int, decimal}
use proxy_centauri.Metrics.Store
use proxy_centauri.Metrics.Store.{ThreatSignal, Statement, saves, resolves, logs, flushes}
use proxy_centauri.Metrics.Store.Rows.{dismiss}
use proxy_centauri.Metrics.Store.Active.{spec_run, list_signals-run}
use proxy_centauri.Metrics.Collector.{Metric, MetricFamily, Histogram, snapshots}
use proxy_centauri.Metrics.Collector.Totals.{spec_snapshot, snapshots-eq-map}
use proxy_centauri.Oracle.Engine.{World, should_call, snaps_of}
use proxy_centauri.Oracle.Engine.Thresholds.{HasNone, should_call-threshold}
use proxy_centauri.Oracle.Signals
use proxy_centauri.Oracle.Signals.{refuses, lists, no_content, status}
use proxy_centauri.Oracle.Signals.Requests.{resolve_path, empty, handle-resolve_path}
use proxy_centauri.Tests.Oracles.{whole, calm_one}

abbrev alarm : String → ThreatSignal
alarm gate = record {
  id = 0;
  ts = 0;
  gate = gate;
  kind = "threat";
  level = "high";
  summary = "";
  reasoning = "";
  action = "";
  resolved = false;
}

-- The second statement is refused, and the third dismisses a signal that is there.
abbrev statements : List (Statement ℕ)
statements =
    saves true 10 (alarm "web")
    ∷ saves false 11 (alarm "api")
    ∷ saves true 12 (alarm "api")
    ∷ resolves true (pos 1)
    ∷ saves true 13 (alarm "web")
    ∷ []

list_signals-run_example :
    Store.list_signals true 2 (Store.run statements Store.new)
    ≡ some (take 2 (spec_run statements (record { active = []; next_id = 1 })).active)
list_signals-run_example = list_signals-run statements 2

handle-resolve_path_example :
    let (r, s) = Signals.handle true "POST" (resolve_path 3) (Store.run statements Store.new) in
    (r ≡ no_content)
    × ((Signals.handle true "GET" "/oracle/signals" s).0
        ≡ lists (take 100 (dismiss (pos 3) (spec_run statements empty).active)))
handle-resolve_path_example = handle-resolve_path statements 3 (omega arith)

path_3 : resolve_path 3 ≡ "/oracle/signals/3/resolve"
unfolding resolve_path decimal
path_3 = refl

-- Not a number, and a number past the range of int64.
not_a_number : parse_int "x1" ≡ none
unfolding parse_int
not_a_number = refl

too_large : parse_int "9223372036854775808" ≡ none
unfolding parse_int
too_large = refl

negative_number : parse_int "-9223372036854775808" ≡ some (negsuc 9223372036854775807)
unfolding parse_int
negative_number = refl

abbrev no_buckets : Histogram whole
no_buckets = record { sample_count = 0; buckets = [] }

abbrev counter_of : String → String → ℤ → Metric whole
counter_of gate code n = record {
  labels = ("gate", gate) ∷ ("status_code", code) ∷ [];
  counter = n;
  histogram = no_buckets;
}

abbrev pub families : List (MetricFamily whole)
families =
    record {
      name = "centauri_errors_total";
      metrics = counter_of "web" "backend_error" (pos 0) ∷ [];
    }
    ∷ record {
      name = "centauri_requests_total";
      metrics =
          counter_of "web" "200" (pos 7)
          ∷ counter_of "api" "200" (pos 1)
          ∷ counter_of "web" "502" (pos 2)
          ∷ [];
    }
    ∷ []

snapshots-eq-map_example :
    snapshots whole (some families) ("web" ∷ []) ≡ map (spec_snapshot whole families) ("web" ∷ [])
snapshots-eq-map_example = snapshots-eq-map whole (some families) ("web" ∷ [])

gt_asym : (x y : ℤ) → ltb_ℤ y x ≡ true → ltb_ℤ x y ≡ false
gt_asym x y h = ground (arith, h)

whole_laws : FloatLaws whole
whole_laws = record { gt_asym = gt_asym; div-zero = λ n h. refl }

abbrev flushed : World whole
flushed = record {
  now = 5;
  current = snapshots whole (some families) ("web" ∷ []);
  message = none;
  unmarshal = λ text. none;
  answered = 6;
  saves = true;
}

should_call-threshold_example :
    let o = record calm_one { last_call = some 0 } in
    let snaps = snaps_of whole flushed o in
    (should_call whole 5 snaps o
      ≡ should_call whole 5 snaps
          (record o { cfg = record o.cfg { error_rate_threshold = pos 0 } }))
    × HasNone whole snaps
should_call-threshold_example =
    should_call-threshold whole whole_laws (some families) ("web" ∷ []) flushed calm_one refl
      ((λ e. (refl, tt)), ((λ e. cc), tt)) tt
