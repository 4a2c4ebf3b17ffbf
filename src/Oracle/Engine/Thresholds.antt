-- ===== src/Oracle/Engine/Thresholds.antt =====
-- What the error rate threshold of internal/oracle/oracle.go does, where nothing counts errors: no
-- code but the zero of `InitGate` touches `ErrorsTotal` of internal/metrics/collector.go.
use proxy_centauri.Prelude.{
  ◌≡◌, refl, ap, sym, subst, ◌∙◌, String, Bool, true, false, not, ◌||◌, Option, none, some, List,
  [], ◌∷◌, map, arith, if◌then◌else◌, str_eq, All, Dict, lookup, insert, lookup-insert, ℤ, pos,
  negsuc, add64, sub64, ltb_ℤ,
}
use proxy_centauri.Config.{OracleConfig}
use proxy_centauri.Floats.{Float64, FloatLaws}
use proxy_centauri.Metrics.Collector.{MetricsSnapshot, Metric, MetricFamily, snapshots}
use proxy_centauri.Metrics.Collector.Totals.{
  sum_counts, fold_named, errors, spec_snapshot, snapshots-eq-map,
}
use proxy_centauri.Oracle.Aggregator.{
  GateSnapshot, prev_map, clamp, delta_err, delta_req, snapshot_one, positive, build_snapshot,
}
use proxy_centauri.Oracle.Engine.{Oracle, World, breaches, interval, since, should_call, snaps_of}

module _ (f : Float64) where
  -- Every error counter that is gathered reads 0.
  abbrev pub CountsNothing : List (Metric f) → Type 0
  CountsNothing metrics = All (λ m. f.to_int m.counter ≡ pos 0) metrics

  abbrev pub NoErrors : List (MetricFamily f) → Type 0
  NoErrors mfs = All (λ mf. str_eq mf.name (errors f) ≡ true → CountsNothing mf.metrics) mfs

  abbrev pub HasNone : List (GateSnapshot f) → Type 0
  HasNone snaps = All (λ s. s.raw_err_total ≡ pos 0) snaps

  sum_counts-zero :
      (gate : String) (metrics : List (Metric f))
      → CountsNothing metrics
      → sum_counts f gate metrics (pos 0) ≡ pos 0
  unfolding add64
  sum_counts-zero gate [] h = refl
  sum_counts-zero gate (m ∷ metrics) h =
      ap (sum_counts f gate metrics) (ground (arith, h.0)) ∙ sum_counts-zero gate metrics h.1

  errors-zero :
      (gate : String) (mfs : List (MetricFamily f))
      → NoErrors mfs
      → fold_named f (errors f) (sum_counts f gate) mfs (pos 0) ≡ pos 0
  errors-zero gate [] h = refl
  errors-zero gate (mf ∷ mfs) h =
      ap (fold_named f (errors f) (sum_counts f gate) mfs) (one (str_eq mf.name (errors f)) h.0)
      ∙ errors-zero gate mfs h.1
    where
      one :
          (b : Bool)
          → (b ≡ true → CountsNothing mf.metrics)
          → (if b then sum_counts f gate mf.metrics (pos 0) else pos 0) ≡ pos 0
      one true k = sum_counts-zero gate mf.metrics (k refl)
      one false k = refl

  abbrev pub GathersNone : Option (List (MetricFamily f)) → Type 0
  GathersNone none = Unit
  GathersNone (some mfs) = NoErrors mfs

  abbrev Errorless : List (MetricsSnapshot f) → Type 0
  Errorless current = All (λ m. m.err_total ≡ pos 0) current

  -- Then no snapshot of the collector has errors.
  snapshots-Errorless :
      (gathered : Option (List (MetricFamily f))) (gates : List String)
      → GathersNone gathered
      → Errorless (snapshots f gathered gates)
  snapshots-Errorless none gates h = subst Errorless (sym (snapshots-eq-map f none gates)) tt
  snapshots-Errorless (some mfs) gates h =
      subst Errorless (sym (snapshots-eq-map f (some mfs) gates)) (each gates)
    where
      each : (gs : List String) → Errorless (map (spec_snapshot f mfs) gs)
      each [] = tt
      each (g ∷ gs) = (errors-zero g mfs h, each gs)

  abbrev RawZero : Option (GateSnapshot f) → Type 0
  RawZero none = Unit
  RawZero (some p) = p.raw_err_total ≡ pos 0

  RawZero-prev_map :
      (gate : String) (prev : List (GateSnapshot f)) (m : Dict (GateSnapshot f))
      → HasNone prev
      → RawZero (lookup gate m)
      → RawZero (lookup gate (prev_map f prev m))
  unfolding prev_map
  RawZero-prev_map gate [] m h k = k
  RawZero-prev_map gate (s ∷ prev) m h k = RawZero-prev_map gate prev (insert s.gate s m) h.1 (
      subst RawZero (sym (lookup-insert s.gate gate s m))
        (elim (str_eq s.gate gate) as (λ b. RawZero (if b then some s else lookup gate m)) [
          | true ↦ h.0
          | false ↦ k
        ]))

  module _ (laws : FloatLaws f) where
    abbrev zero_rate : f.Float
    zero_rate = f.of_int (pos 0)

    rate_of_none :
        (d e : ℤ)
        → e ≡ pos 0
        → (if ltb_ℤ (pos 0) d then f.div (f.of_int e) (f.of_int d) else zero_rate) ≡ zero_rate
    rate_of_none (pos n) e h = ground (arith, laws.div-zero n, h)
    rate_of_none (negsuc n) e h = ground (arith, h)

    delta_err-zero :
        (o : Option (GateSnapshot f)) (cur : MetricsSnapshot f)
        → cur.err_total ≡ pos 0
        → RawZero o
        → delta_err f o cur ≡ pos 0
    unfolding delta_err clamp sub64
    delta_err-zero none cur e k = e
    delta_err-zero (some p) cur e k = rw (e, k) refl

    rate-zero :
        (i : f.Float) (o : Option (GateSnapshot f)) (cur : MetricsSnapshot f)
        → cur.err_total ≡ pos 0
        → RawZero o
        → (snapshot_one f i o cur).error_rate ≡ zero_rate
    unfolding snapshot_one
    rate-zero i o cur e k =
        rate_of_none (delta_req f o cur) (delta_err f o cur) (delta_err-zero o cur e k)

    abbrev Flat : List (GateSnapshot f) → Type 0
    Flat snaps = All (λ s. (s.error_rate ≡ zero_rate) × (s.raw_err_total ≡ pos 0)) snaps

    build-Flat :
        (current : List (MetricsSnapshot f)) (prev : List (GateSnapshot f)) (i : f.Float)
        → Errorless current
        → HasNone prev
        → Flat (build_snapshot f current prev i)
    unfolding build_snapshot lookup
    build-Flat current prev i h k = each current h
      where
        each :
            (cur : List (MetricsSnapshot f))
            → Errorless cur
            → Flat (
                map (λ c. snapshot_one f (positive f i) (lookup c.gate (prev_map f prev [])) c) cur)
        each [] h = tt
        each (c ∷ cur) h =
            let o = lookup c.gate (prev_map f prev []) in
            (
              (rate-zero (positive f i) o c h.0 (RawZero-prev_map c.gate prev [] k tt), h.0),
              each cur h.1,
            )

    breaches-Flat :
        (cfg : OracleConfig f) (snaps : List (GateSnapshot f))
        → Flat snaps
        → breaches f cfg snaps ≡ breaches f (record cfg { error_rate_threshold = zero_rate }) snaps
    unfolding breaches
    breaches-Flat cfg [] h = refl
    breaches-Flat cfg (s ∷ snaps) h = ground (
      arith,
      laws.gt_asym cfg.error_rate_threshold zero_rate,
      laws.gt_asym zero_rate zero_rate,
      h.0.0,
      breaches-Flat cfg snaps h.1,
    )

    HasNone-Flat : (snaps : List (GateSnapshot f)) → Flat snaps → HasNone snaps
    HasNone-Flat [] h = tt
    HasNone-Flat (s ∷ snaps) h = (h.0.1, HasNone-Flat snaps h.1)

    -- While every error counter that is gathered reads 0, as it always does, since nothing adds to
    -- one, an analysis asks Claude just when it would with the error rate threshold switched off,
    -- whatever the threshold is, and its snapshots have no errors for the next one either.
    pub should_call-threshold :
        (gathered : Option (List (MetricFamily f))) (gates : List String) (w : World f)
        (o : Oracle f)
        → w.current ≡ snapshots f gathered gates
        → GathersNone gathered
        → HasNone o.last_snaps
        → let snaps = snaps_of f w o in
          let off = record o.cfg { error_rate_threshold = f.of_int (pos 0) } in
          (should_call f w.now snaps o ≡ should_call f w.now snaps (record o { cfg = off }))
          × HasNone snaps
    unfolding should_call snaps_of interval
    should_call-threshold gathered gates w o e h k =
        let none_there = subst Errorless (sym e) (snapshots-Errorless gathered gates h) in
        let flat = build-Flat w.current o.last_snaps _ none_there k in
        (
          ap (λ b. not (ltb_ℤ (pos (since o.last_call w.now)) (interval f o.cfg)) || b)
              (breaches-Flat o.cfg (snaps_of f w o) flat),
          HasNone-Flat _ flat,
        )
