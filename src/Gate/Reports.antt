-- ===== src/Gate/Reports.antt =====
-- What an HTTP gate of cmd/centauri/main.go reports of a request.
use proxy_centauri.Prelude.{
  ℕ, ◌≡◌, refl, sym, ap, ◌∙◌, String, Bool, true, false, none, List, [], ◌∷◌, ◌++◌, arith,
  if◌then◌else◌, str_eq, All,
}
use proxy_centauri.Balancer.{Balancer}
use proxy_centauri.Gate.{Gate, logged, metered, measured, handle}
use proxy_centauri.Logger.{entry_of}
use proxy_centauri.Metrics.Middleware.{Prometheus, enter, leave}
use proxy_centauri.RateLimit.{Rate, admit, extract_ip}
use proxy_centauri.Http.{
  Request, ResponseWriter, WriterCall, writes_header, writes, serve, Wire, wire, sent, wrap,
  Outcome, returns, panics,
}
use proxy_centauri.Http.Recorder.{IsFinal, stack, Stack, serve-transparent}
use proxy_centauri.Proxy.{
  Transport, Reply, fails, responds, switches, bytes, http_error, error_handler, finish, serve_http,
  director, direct, release_tracked,
}
use proxy_centauri.Proxy.Answer.{IsFinalReply, reply_status, reply_from, chosen, sent-serve_http}

-- The calls that the proxy makes of its writer.
abbrev error_answer : Bool → List WriterCall
error_answer true = writes_header 503 ∷ writes (bytes "503 Service Unavailable\n") ∷ []
error_answer false = writes_header 502 ∷ writes (bytes "502 Bad Gateway\n") ∷ []

error_answer-IsFinal : (c : Bool) → All IsFinal (error_answer c)
error_answer-IsFinal true = (refl, (tt, tt))
error_answer-IsFinal false = (refl, (tt, tt))

abbrev error_calls : String → List WriterCall
error_calls tracking = error_answer (str_eq tracking "")

abbrev calls_of : String → Reply → List WriterCall
calls_of tracking fails = error_calls tracking
calls_of tracking (responds status body complete) = writes_header status ∷ writes body ∷ []
calls_of tracking switches = error_calls tracking

abbrev pub ending : Reply → Outcome
ending fails = returns
ending (responds status body complete) = if complete then returns else panics
ending switches = returns

serve-error :
    {S : Type 0} (w : ResponseWriter S) (tracking : String) (b : Balancer) (s : S)
    → (error_handler w tracking b s).1 ≡ serve w (error_calls tracking) s
unfolding error_handler serve
serve-error w tracking b s =
    elim (str_eq tracking "")
      as (λ c.
        (if c
          then http_error w "503 Service Unavailable" 503 s
          else http_error w "502 Bad Gateway" 502 s)
        ≡ serve w (error_answer c) s) [ true ↦ refl | false ↦ refl ]

serve-finish :
    {S : Type 0} (w : ResponseWriter S) (tracking : String) (reply : Reply) (b : Balancer) (s : S)
    → (finish w tracking reply b s).1 ≡ serve w (calls_of tracking reply) s
unfolding finish
serve-finish w tracking fails b s = serve-error w tracking b s
serve-finish w tracking (responds status body complete) b s = unfold serve in refl
serve-finish w tracking switches b s = serve-error w tracking (release_tracked tracking b) s

ending-finish :
    {S : Type 0} (w : ResponseWriter S) (tracking : String) (reply : Reply) (b : Balancer) (s : S)
    → (finish w tracking reply b s).2 ≡ ending reply
unfolding finish
ending-finish w tracking fails b s = refl
ending-finish w tracking (responds status body complete) b s = refl
ending-finish w tracking switches b s = refl

calls_of-IsFinal :
    (tracking : String) (reply : Reply) → IsFinalReply reply → All IsFinal (calls_of tracking reply)
calls_of-IsFinal tracking fails h = error_answer-IsFinal (str_eq tracking "")
calls_of-IsFinal tracking (responds status body complete) h = (h, (tt, tt))
calls_of-IsFinal tracking switches h = error_answer-IsFinal (str_eq tracking "")

module _ (rt : Rate) (p : Prometheus) (t : Transport) (r : Request) (w : Wire) where
  -- The status that a client of the proxy is to get.
  abbrev pub status_from : Balancer → ℕ
  status_from b = if str_eq (chosen b) "" then 503 else reply_status (reply_from t r b)

  -- Behind the recorders the proxy answers as it does without them, and they have its status.
  recorded :
      (b : Balancer)
      → w.status ≡ none
      → IsFinalReply (reply_from t r b)
      → let s = (serve_http t stack r b (wrap (wrap w))).1 in
        (sent s.inner.inner ≡ status_from b)
        × (s.status ≡ status_from b)
        × (s.inner.status ≡ status_from b)
  unfolding serve_http director
  recorded b h f =
      let tracking = (direct t (chosen b) r).tracking in
      let reply = reply_from t r b in
      let cs = calls_of tracking reply in
      let same = serve-finish stack tracking reply (director t r b).1 (wrap (wrap w)) in
      let plain = serve-finish wire tracking reply (director t r b).1 w in
      let status = ap sent (sym plain) ∙ sent-serve_http t r b w h f in
      let (v, outer, inner) = serve-transparent cs w h (calls_of-IsFinal tracking reply f) in
      (
        ap (λ (s : Stack). sent s.inner.inner) same ∙ ap sent v ∙ status,
        ap (λ (s : Stack). s.status) same ∙ outer ∙ status,
        ap (λ (s : Stack). s.inner.status) same ∙ inner ∙ status,
      )

  returned :
      (b : Balancer)
      → ending (reply_from t r b) ≡ returns
      → (serve_http t stack r b (wrap (wrap w))).2 ≡ returns
  unfolding serve_http director
  returned b e =
      ending-finish stack (direct t (chosen b) r).tracking (reply_from t r b) (director t r b).1
        (wrap (wrap w))
      ∙ e

  reports-metered :
      (started ended : ℕ) (g : Gate rt p t)
      → w.status ≡ none
      → IsFinalReply (reply_from t r g.balancer)
      → ending (reply_from t r g.balancer) ≡ returns
      → let (g', w', o) = metered rt p t wire started ended r g w in
        let status = status_from g.balancer in
        (sent w' ≡ status)
        × (g'.lines ≡ g.lines ++ entry_of g.name started ended r status ∷ [])
        × (g'.metrics ≡ leave p g.name status (enter p g.name g.metrics))
  unfolding metered logged
  reports-metered started ended g h f e =
      let (a, b, c) = recorded g.balancer h f in
      let o = returned g.balancer e in
      (ground (arith, a, b, c, o), ground (arith, a, b, c, o), ground (arith, a, b, c, o))

  abbrev pub admitted : ℕ → Gate rt p t → Bool
  admitted now g = if g.has_shield then (admit rt now (extract_ip r) g.shield).0 else true

  -- At a gate with metrics, on a response that is not begun, a request that the rate limiter turns
  -- down gets 429 and is neither logged nor counted. Any other gets the status that the proxy
  -- gives, 503 without a backend and 502 for a failed one included, and the log line and the
  -- metrics have that status, if the reply to it would be no failed copy and no informational
  -- status.
  pub handle-reports :
      (now started ended : ℕ) (g : Gate rt p t)
      → w.status ≡ none
      → g.has_metrics ≡ true
      → IsFinalReply (reply_from t r g.balancer)
      → ending (reply_from t r g.balancer) ≡ returns
      → let (g', w', o) = handle rt p t wire now started ended r g w in
        let status = status_from g.balancer in
        (sent w' ≡ (if admitted now g then status else 429))
        × (g'.lines ≡ (
            if admitted now g
            then g.lines ++ entry_of g.name started ended r status ∷ []
            else g.lines))
        × (g'.metrics ≡ (
            if admitted now g then leave p g.name status (enter p g.name g.metrics) else g.metrics))
  unfolding handle measured
  handle-reports now started ended g h m f e =
      let shield = (admit rt now (extract_ip r) g.shield).1 in
      let limited = record g { shield = shield } in
      let (a, b, c) = reports-metered started ended g h f e in
      let (a', b', c') = reports-metered started ended limited h f e in
      (ground (arith, a, a', h, m), ground (arith, b, b', m), ground (arith, c, c', m))
