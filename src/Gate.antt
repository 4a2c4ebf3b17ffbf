-- ===== src/Gate.antt =====
-- An HTTP gate, as cmd/centauri/main.go puts it together: rate limiter, metrics, request log,
-- reverse proxy, from the outside to the inside. The middlewares are those of their own files, over
-- the handler that the next one is.
pub mod Reports
use proxy_centauri.Prelude.{ℕ, String, Bool, true, false, List, [], ◌∷◌, ◌++◌, if◌then◌else◌}
use proxy_centauri.Balancer.{Balancer}
use proxy_centauri.Http.{Request, ResponseWriter, status_writer, wrap, Outcome, returns, panics}
use proxy_centauri.Logger.{LogEntry, entry_of}
use proxy_centauri.Metrics.Middleware.{Prometheus, Metrics, enter, leave}
use proxy_centauri.Proxy.{Transport, bytes, http_error, serve_http}
use proxy_centauri.RateLimit.{Rate, FluxShield, extract_ip, admit}

module _ (rt : Rate) (p : Prometheus) (t : Transport) where
  -- What the handlers of a gate keep. `has_shield` and `has_metrics` are the tests of main.
  pub record Gate : Type 0 where
    pub name : String
    pub balancer : Balancer
    pub lines : List LogEntry
    pub has_metrics : Bool
    pub metrics : Metrics p
    pub has_shield : Bool
    pub shield : FluxShield rt

  -- The request log around the proxy.
  unfoldable pub logged :
      {S : Type 0} → ResponseWriter S → ℕ → ℕ → Request → Gate → S → Gate × S × Outcome
  unfolding serve_http entry_of
  logged w started ended r g s =
      let (b, sw, outcome) = serve_http t (status_writer w) r g.balancer (wrap s) in
      elim outcome [
        | returns ↦ (
          record g {
            balancer = b;
            lines = g.lines ++ entry_of g.name started ended r sw.status ∷ [];
          },
          sw.inner,
          returns,
        )
        | panics ↦ (record g { balancer = b }, sw.inner, panics)
      ]

  -- The metrics around that.
  unfoldable pub metered :
      {S : Type 0} → ResponseWriter S → ℕ → ℕ → Request → Gate → S → Gate × S × Outcome
  unfolding logged enter leave
  metered w started ended r g s =
      let entered = record g { metrics = enter p g.name g.metrics } in
      let (g', sw, outcome) = logged (status_writer w) started ended r entered (wrap s) in
      elim outcome [
        | returns ↦ (record g' { metrics = leave p g.name sw.status g'.metrics }, sw.inner, returns)
        | panics ↦ (g', sw.inner, panics)
      ]

  unfoldable pub measured :
      {S : Type 0} → ResponseWriter S → ℕ → ℕ → Request → Gate → S → Gate × S × Outcome
  unfolding metered logged
  measured w started ended r g s =
      if g.has_metrics then metered w started ended r g s else logged w started ended r g s

  -- The whole chain, at the time `now` of the rate limiter.
  unfoldable pub handle :
      {S : Type 0} → ResponseWriter S → ℕ → ℕ → ℕ → Request → Gate → S → Gate × S × Outcome
  unfolding measured admit extract_ip
  handle w now started ended r g s =
      let (allowed, shield) = admit rt now (extract_ip r) g.shield in
      if g.has_shield
      then if allowed
        then measured w started ended r (record g { shield = shield }) s
        else (record g { shield = shield }, http_error w "Too Many Requests" 429 s, returns)
      else measured w started ended r g s
