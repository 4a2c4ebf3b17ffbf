-- ===== src/Oracle/Aggregator.antt =====
-- internal/oracle/aggregator.go. Counts are 64-bit integers; the arithmetic of float64 is a
-- parameter, since no theorem depends on how it rounds.
pub mod Rounds
use proxy_centauri.Prelude.{
  ℕ, String, Bool, Option, none, some, List, [], ◌∷◌, map, if◌then◌else◌, Dict, lookup, insert, ℤ,
  pos, ltb_ℤ, sub64,
}
use proxy_centauri.Floats.{Float64}
use proxy_centauri.Metrics.Collector.{MetricsSnapshot}

module _ (f : Float64) where
  open f use {Float, of_int, div, sub, le}

  pub record GateSnapshot : Type 0 where
    pub gate : String
    pub req_per_sec : Float
    pub error_rate : Float
    pub p95_ms : Float
    pub req_delta : Float
    pub err_delta : Float
    pub p95_delta : Float
    pub raw_req_total : ℤ
    pub raw_err_total : ℤ

  -- `prevMap[p.Gate] = p` for every previous snapshot.
  unfoldable pub prev_map : List GateSnapshot → Dict GateSnapshot → Dict GateSnapshot
  prev_map [] m = m
  prev_map (p ∷ prev) m = prev_map prev (insert p.gate p m)

  unfoldable pub clamp : ℤ → ℤ
  clamp d = if ltb_ℤ d (pos 0) then pos 0 else d

  -- `deltaReq` and `deltaErr`.
  unfoldable pub delta_req : Option GateSnapshot → MetricsSnapshot f → ℤ
  unfolding clamp
  delta_req none cur = cur.req_total
  delta_req (some p) cur = clamp (sub64 cur.req_total p.raw_req_total)

  unfoldable pub delta_err : Option GateSnapshot → MetricsSnapshot f → ℤ
  unfolding clamp
  delta_err none cur = cur.err_total
  delta_err (some p) cur = clamp (sub64 cur.err_total p.raw_err_total)

  -- The difference to the previous snapshot, 0 where there is none.
  abbrev change : Option GateSnapshot → (GateSnapshot → Float) → Float → Float
  change none field now = of_int (pos 0)
  change (some p) field now = sub now (field p)

  -- The body of the loop.
  unfoldable pub snapshot_one : Float → Option GateSnapshot → MetricsSnapshot f → GateSnapshot
  unfolding delta_req delta_err
  snapshot_one interval_secs p cur =
      let requests = delta_req p cur in
      let rate = div (of_int requests) interval_secs in
      let errors =
        if ltb_ℤ (pos 0) requests
        then div (of_int (delta_err p cur)) (of_int requests)
        else of_int (pos 0) in
      record {
        gate = cur.gate;
        req_per_sec = rate;
        error_rate = errors;
        p95_ms = cur.p95_ms;
        req_delta = change p (λ s. s.req_per_sec) rate;
        err_delta = change p (λ s. s.error_rate) errors;
        p95_delta = change p (λ s. s.p95_ms) cur.p95_ms;
        raw_req_total = cur.req_total;
        raw_err_total = cur.err_total;
      }

  -- The guard against a division by zero.
  unfoldable pub positive : Float → Float
  positive interval_secs =
      if le interval_secs (of_int (pos 0)) then of_int (pos 1) else interval_secs

  unfoldable pub build_snapshot :
      List (MetricsSnapshot f) → List GateSnapshot → Float → List GateSnapshot
  unfolding prev_map snapshot_one positive
  build_snapshot current prev interval_secs =
      let previous = prev_map prev [] in
      map (λ cur. snapshot_one (positive interval_secs) (lookup cur.gate previous) cur) current
