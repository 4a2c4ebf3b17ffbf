-- ===== src/Metrics/Collector/Totals.antt =====
-- What the one pass of internal/metrics/collector.go over the families finds for a gate.
use proxy_centauri.Prelude.{
  ◌≡◌, refl, ap, ◌∙◌, String, eq_iff, Option, none, some, List, [], ◌∷◌, map, arith, if◌then◌else◌,
  str_eq, Dict, lookup, insert, lookup-insert, ℤ, pos, add64,
}
use proxy_centauri.Floats.{Float64}
use proxy_centauri.Metrics.Collector.{
  MetricsSnapshot, Histogram, Metric, MetricFamily, Maps, label_value, p95_of, or_zero, add_counts,
  set_histograms, read_family, read_families, snapshot_of, snapshots,
}

module _ (f : Float64) where
  abbrev pub gate_of : Metric f → String
  gate_of m = label_value f m.labels "gate"

  -- The counters of a gate in a family, added up to `n`.
  abbrev pub sum_counts : String → List (Metric f) → ℤ → ℤ
  sum_counts gate [] n = n
  sum_counts gate (m ∷ metrics) n =
      sum_counts gate metrics (if str_eq (gate_of m) gate then add64 n (f.to_int m.counter) else n)

  -- The last histogram of a gate in a family.
  abbrev pub last_histogram : String → List (Metric f) → Option (Histogram f) → Option (Histogram f)
  last_histogram gate [] h = h
  last_histogram gate (m ∷ metrics) h =
      last_histogram gate metrics (if str_eq (gate_of m) gate then some m.histogram else h)

  -- The families of one name, one after the other.
  abbrev pub fold_named {ℓ} :
      {A : Type ℓ} → String → (List (Metric f) → A → A) → List (MetricFamily f) → A → A
  fold_named name step [] a = a
  fold_named name step (mf ∷ mfs) a =
      fold_named name step mfs (if str_eq mf.name name then step mf.metrics a else a)

  or_zero-add_counts :
      (gate : String) (metrics : List (Metric f)) (totals : Dict ℤ)
      → or_zero f (lookup gate (add_counts f metrics totals))
        ≡ sum_counts gate metrics (or_zero f (lookup gate totals))
  unfolding add_counts
  or_zero-add_counts gate [] totals = refl
  or_zero-add_counts gate (m ∷ metrics) totals =
      let old = or_zero f (lookup (gate_of m) totals) in
      or_zero-add_counts gate metrics (insert (gate_of m) (add64 old (f.to_int m.counter)) totals)
      ∙ ap (sum_counts gate metrics) (
          ground (
            arith,
            lookup-insert (gate_of m) gate (add64 old (f.to_int m.counter)) totals,
            eq_iff (gate_of m) gate,
          ))

  lookup-set_histograms :
      (gate : String) (metrics : List (Metric f)) (hs : Dict (Histogram f))
      → lookup gate (set_histograms f metrics hs) ≡ last_histogram gate metrics (lookup gate hs)
  unfolding set_histograms
  lookup-set_histograms gate [] hs = refl
  lookup-set_histograms gate (m ∷ metrics) hs =
      lookup-set_histograms gate metrics (insert (gate_of m) m.histogram hs)
      ∙ ap (last_histogram gate metrics) (lookup-insert (gate_of m) gate m.histogram hs)

  abbrev pub requests : String
  requests = "centauri_requests_total"

  abbrev pub errors : String
  errors = "centauri_errors_total"

  abbrev pub durations : String
  durations = "centauri_request_duration_seconds"

  -- What one family does to the three maps.
  maps-read_family :
      (mf : MetricFamily f) (maps : Maps f)
      → let after = read_family f mf maps in
        (after.req_totals ≡ (
          if str_eq mf.name requests
          then add_counts f mf.metrics maps.req_totals
          else maps.req_totals))
        × (after.err_totals ≡ (
            if str_eq mf.name errors
            then add_counts f mf.metrics maps.err_totals
            else maps.err_totals))
        × (after.histograms ≡ (
            if str_eq mf.name durations
            then set_histograms f mf.metrics maps.histograms
            else maps.histograms))
  unfolding read_family
  maps-read_family mf maps =
      let a = eq_iff mf.name requests in
      let b = eq_iff mf.name errors in
      let c = eq_iff mf.name durations in
      let ab = eq_iff requests errors in
      let ac = eq_iff requests durations in
      let bc = eq_iff errors durations in
      (ground arith, ground (arith, a, b, ab), ground (arith, a, b, c, ac, bc))

  module _ (gate : String) where
    req-read_families :
        (mfs : List (MetricFamily f)) (maps : Maps f)
        → or_zero f (lookup gate (read_families f mfs maps).req_totals)
          ≡ fold_named requests (sum_counts gate) mfs (or_zero f (lookup gate maps.req_totals))
    unfolding read_families
    req-read_families [] maps = refl
    req-read_families (mf ∷ mfs) maps =
        req-read_families mfs (read_family f mf maps)
        ∙ ap (fold_named requests (sum_counts gate) mfs) (
            ground (
              arith,
              (maps-read_family mf maps).0,
              or_zero-add_counts gate mf.metrics maps.req_totals,
            ))

    err-read_families :
        (mfs : List (MetricFamily f)) (maps : Maps f)
        → or_zero f (lookup gate (read_families f mfs maps).err_totals)
          ≡ fold_named errors (sum_counts gate) mfs (or_zero f (lookup gate maps.err_totals))
    unfolding read_families
    err-read_families [] maps = refl
    err-read_families (mf ∷ mfs) maps =
        err-read_families mfs (read_family f mf maps)
        ∙ ap (fold_named errors (sum_counts gate) mfs) (
            ground (
              arith,
              (maps-read_family mf maps).1,
              or_zero-add_counts gate mf.metrics maps.err_totals,
            ))

    histogram-read_families :
        (mfs : List (MetricFamily f)) (maps : Maps f)
        → lookup gate (read_families f mfs maps).histograms
          ≡ fold_named durations (last_histogram gate) mfs (lookup gate maps.histograms)
    unfolding read_families
    histogram-read_families [] maps = refl
    histogram-read_families (mf ∷ mfs) maps =
        histogram-read_families mfs (read_family f mf maps)
        ∙ ap (fold_named durations (last_histogram gate) mfs) (
            ground (
              arith,
              (maps-read_family mf maps).2,
              lookup-set_histograms gate mf.metrics maps.histograms,
            ))

  -- The snapshot of one gate, from the families alone.
  abbrev pub spec_snapshot : List (MetricFamily f) → String → MetricsSnapshot f
  spec_snapshot mfs gate = record {
    gate = gate;
    req_total = fold_named requests (sum_counts gate) mfs (pos 0);
    err_total = fold_named errors (sum_counts gate) mfs (pos 0);
    p95_ms = p95_of f (fold_named durations (last_histogram gate) mfs none);
  }

  abbrev start : Maps f
  start = record { req_totals = []; err_totals = []; histograms = [] }

  snapshot_of-spec :
      (mfs : List (MetricFamily f)) (gate : String)
      → snapshot_of f (read_families f mfs start) gate ≡ spec_snapshot mfs gate
  unfolding snapshot_of lookup
  snapshot_of-spec mfs gate = λ i. record {
    gate = gate;
    req_total = req-read_families gate mfs start i;
    err_total = err-read_families gate mfs start i;
    p95_ms = p95_of f (histogram-read_families gate mfs start i);
  }

  -- The one pass over the families with its three maps finds for every gate what a pass for that
  -- gate alone would: the counters with its label added up, of all status codes and all error
  -- types, and the latency of its last histogram; an error of the gatherer gives no snapshot.
  pub snapshots-eq-map :
      (gathered : Option (List (MetricFamily f))) (gates : List String)
      → snapshots f gathered gates ≡ elim gathered as (λ x. List (MetricsSnapshot f)) [
        | none ↦ []
        | some mfs ↦ map (spec_snapshot mfs) gates
      ]
  unfolding snapshots lookup
  snapshots-eq-map none gates = refl
  snapshots-eq-map (some mfs) gates = each gates
    where
      each :
          (gs : List String)
          → map (snapshot_of f (read_families f mfs start)) gs ≡ map (spec_snapshot mfs) gs
      each [] = refl
      each (g ∷ gs) = λ i. snapshot_of-spec mfs g i ∷ each gs i
