-- ===== src/Metrics/Middleware.antt =====
-- The middleware of internal/metrics/middleware.go over the metric vectors of
-- internal/metrics/collector.go. Prometheus is a parameter: vectors with a value for each list of
-- labels. The label `status_code` is kept as a number (the code writes it in decimal).
pub mod Gauge
use proxy_centauri.Prelude.{
  ℕ, String, ◌≡◌, ◌≢◌, Bool, true, false, List, [], ◌∷◌, if◌then◌else◌, ℤ, pos, negsuc, ◌+ℤ◌,
}
use proxy_centauri.Http.{
  WriterCall, ResponseWriter, serve, StatusWriter, status_writer, wrap, Outcome, returns, panics,
}

-- What the code uses of a `CounterVec` with labels gate and status code, and of a `GaugeVec` and a
-- `HistogramVec` (its count of observations) with the label gate; `Add` changes the value at its
-- labels alone.
pub record Prometheus : Type 1 where
  pub CounterVec : Type 0
  pub GaugeVec : Type 0
  pub counter_value : CounterVec → String → ℕ → ℤ
  pub gauge_value : GaugeVec → String → ℤ
  pub counter_add : String → ℕ → ℤ → CounterVec → CounterVec
  pub gauge_add : String → ℤ → GaugeVec → GaugeVec
  pub counter_add_self :
      (gate : String) (status : ℕ) (d : ℤ) (v : CounterVec)
      → counter_value (counter_add gate status d v) gate status ≡ counter_value v gate status +ℤ d
  pub counter_add_gate :
      (gate other : String) (status code : ℕ) (d : ℤ) (v : CounterVec)
      → gate ≢ other
      → counter_value (counter_add gate status d v) other code ≡ counter_value v other code
  pub counter_add_status :
      (gate other : String) (status code : ℕ) (d : ℤ) (v : CounterVec)
      → status ≢ code
      → counter_value (counter_add gate status d v) other code ≡ counter_value v other code
  pub gauge_add_self :
      (gate : String) (d : ℤ) (v : GaugeVec)
      → gauge_value (gauge_add gate d v) gate ≡ gauge_value v gate +ℤ d
  pub gauge_add_ne :
      (gate other : String) (d : ℤ) (v : GaugeVec)
      → gate ≢ other
      → gauge_value (gauge_add gate d v) other ≡ gauge_value v other

module _ (p : Prometheus) where
  open p use {CounterVec, GaugeVec, counter_add, gauge_add}

  pub record Metrics : Type 0 where
    pub req_total : CounterVec
    pub req_dur : GaugeVec
    pub active_conns : GaugeVec

  -- Before and after the call of the next handler.
  unfoldable pub enter : String → Metrics → Metrics
  enter gate m = record m { active_conns = gauge_add gate (pos 1) m.active_conns }

  unfoldable pub leave : String → ℕ → Metrics → Metrics
  leave gate status m = record m {
    req_dur = gauge_add gate (pos 1) m.req_dur;
    req_total = counter_add gate status (pos 1) m.req_total;
    active_conns = gauge_add gate (negsuc 0) m.active_conns;
  }

  -- `InitGate` of internal/metrics/collector.go. The vector of errors, which nothing else touches,
  -- is left out.
  unfoldable pub init_gate : String → Metrics → Metrics
  init_gate gate m = record {
    req_total = counter_add gate 200 (pos 0) m.req_total;
    req_dur = gauge_add gate (pos 1) m.req_dur;
    active_conns = gauge_add gate (pos 0) m.active_conns;
  }

  -- A panic of the next handler goes through the middleware, which defers nothing.
  unfoldable pub middleware :
      {S : Type 0}
      → ResponseWriter S
      → String
      → List WriterCall
      → Outcome
      → S × Metrics
      → S × Metrics
  unfolding enter leave
  middleware w gate calls outcome (s, m) =
      let m' = enter gate m in
      let sw = serve (status_writer w) calls (wrap s) in
      elim outcome [ returns ↦ (sw.inner, leave gate sw.status m') | panics ↦ (sw.inner, m') ]

  -- What concurrent requests of all gates, and the start of gates, do to the metrics, in the order
  -- in which it happens.
  pub data Moment : Type 0 where
    enters : String → Moment
    leaves : String → ℕ → Moment
    aborts : String → Moment
    inits : String → Moment

  unfoldable pub moment : Moment → Metrics → Metrics
  unfolding enter leave init_gate
  moment (enters gate) m = enter gate m
  moment (leaves gate status) m = leave gate status m
  moment (aborts gate) m = m
  moment (inits gate) m = init_gate gate m

  unfoldable pub history : List Moment → Metrics → Metrics
  history [] m = m
  history (x ∷ xs) m = history xs (moment x m)
