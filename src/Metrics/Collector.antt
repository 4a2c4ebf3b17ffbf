-- ===== src/Metrics/Collector.antt =====
-- internal/metrics/collector.go. What Prometheus gathers is a parameter: the families of metrics,
-- or `none` for an error.
pub mod Totals
use proxy_centauri.Prelude.{
  ℕ, String, Bool, true, false, Option, none, some, List, [], ◌∷◌, map, if◌then◌else◌, ◌==◌, str_eq,
  Dict, lookup, insert, ℤ, pos, add64,
}
use proxy_centauri.Floats.{Float64}

module _ (f : Float64) where
  open f use {Float, of_int, to_int, literal, mul, div, add, sub, le, eq}

  pub record MetricsSnapshot : Type 0 where
    pub gate : String
    pub req_total : ℤ
    pub err_total : ℤ
    pub p95_ms : Float

  -- What is read of the client model: a bucket of a histogram, a histogram, a metric, a family.
  pub record Bucket : Type 0 where
    pub upper_bound : Float
    pub cumulative_count : ℕ

  pub record Histogram : Type 0 where
    pub sample_count : ℕ
    pub buckets : List Bucket

  pub record Metric : Type 0 where
    pub labels : List (String × String)
    pub counter : Float
    pub histogram : Histogram

  pub record MetricFamily : Type 0 where
    pub name : String
    pub metrics : List Metric

  unfoldable pub label_value : List (String × String) → String → String
  label_value [] name = ""
  label_value ((n, value) ∷ labels) name = if str_eq n name then value else label_value labels name

  -- The loop of `histogramP95`, with the bound and the count of the bucket before.
  unfoldable pub interpolate : Float → Float → ℕ → List Bucket → Float
  interpolate target prev_bound prev_count [] = mul prev_bound (of_int (pos 1000))
  interpolate target prev_bound prev_count (b ∷ buckets) =
      let lower_count = of_int (pos prev_count) in
      let upper_count = of_int (pos b.cumulative_count) in
      let later = interpolate target b.upper_bound b.cumulative_count buckets in
      let share = mul (sub b.upper_bound prev_bound) (sub target lower_count) in
      if le target upper_count
      then if eq upper_count lower_count
        then mul b.upper_bound (of_int (pos 1000))
        else mul (add prev_bound (div share (sub upper_count lower_count))) (of_int (pos 1000))
      else later

  unfoldable pub histogram_p95 : Histogram → Float
  unfolding interpolate
  histogram_p95 h =
      if h.sample_count == 0
      then of_int (pos 0)
      else interpolate (mul (literal 95 2) (of_int (pos h.sample_count))) (of_int (pos 0)) 0
          h.buckets

  -- A missing key of a `map[string]int64` reads 0.
  abbrev pub or_zero : Option ℤ → ℤ
  or_zero none = pos 0
  or_zero (some n) = n

  -- `totals[gate] += int64(value)` for each metric of a family.
  unfoldable pub add_counts : List Metric → Dict ℤ → Dict ℤ
  unfolding label_value
  add_counts [] totals = totals
  add_counts (m ∷ metrics) totals =
      let gate = label_value m.labels "gate" in
      add_counts metrics
        (insert gate (add64 (or_zero (lookup gate totals)) (to_int m.counter)) totals)

  unfoldable pub set_histograms : List Metric → Dict Histogram → Dict Histogram
  unfolding label_value
  set_histograms [] histograms = histograms
  set_histograms (m ∷ metrics) histograms =
      set_histograms metrics (insert (label_value m.labels "gate") m.histogram histograms)

  pub record Maps : Type 0 where
    pub req_totals : Dict ℤ
    pub err_totals : Dict ℤ
    pub histograms : Dict Histogram

  -- The switch on the name of a family.
  unfoldable pub read_family : MetricFamily → Maps → Maps
  unfolding add_counts set_histograms
  read_family mf maps =
      if str_eq mf.name "centauri_requests_total"
      then record maps { req_totals = add_counts mf.metrics maps.req_totals }
      else if str_eq mf.name "centauri_errors_total"
      then record maps { err_totals = add_counts mf.metrics maps.err_totals }
      else if str_eq mf.name "centauri_request_duration_seconds"
      then record maps { histograms = set_histograms mf.metrics maps.histograms }
      else maps

  unfoldable pub read_families : List MetricFamily → Maps → Maps
  unfolding read_family
  read_families [] maps = maps
  read_families (mf ∷ mfs) maps = read_families mfs (read_family mf maps)

  abbrev pub p95_of : Option Histogram → Float
  p95_of none = of_int (pos 0)
  p95_of (some h) = histogram_p95 h

  unfoldable pub snapshot_of : Maps → String → MetricsSnapshot
  unfolding histogram_p95
  snapshot_of maps gate = record {
    gate = gate;
    req_total = or_zero (lookup gate maps.req_totals);
    err_total = or_zero (lookup gate maps.err_totals);
    p95_ms = p95_of (lookup gate maps.histograms);
  }

  unfoldable pub snapshots : Option (List MetricFamily) → List String → List MetricsSnapshot
  unfolding read_families snapshot_of
  snapshots none gate_names = []
  snapshots (some mfs) gate_names =
      let maps = read_families mfs (record { req_totals = []; err_totals = []; histograms = [] }) in
      map (snapshot_of maps) gate_names
