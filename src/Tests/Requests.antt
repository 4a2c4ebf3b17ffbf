-- ===== src/Tests/Requests.antt =====
-- internal/metrics, internal/ratelimit and internal/proxy at concrete inputs.
use proxy_centauri.Prelude.{
  ℕ, ◌-◌, ◌≡◌, ◌≢◌, refl, String, eq_iff, true, ◌&&◌, Option, none, some, List, [], ◌∷◌, arith,
  if◌then◌else◌, ltb, str_eq, ◌==◌, ℤ, pos, negsuc, ◌+ℤ◌, add64, lookup, insert,
}
use proxy_centauri.Metrics.Middleware.{
  Prometheus, Metrics, Moment, enters, leaves, aborts, inits, history,
}
use proxy_centauri.Metrics.Middleware.Gauge.{entries, exits, exits_with, observed, metrics-history}
use proxy_centauri.RateLimit.{Rate, Turn, asks, cleans, admit, run}
use proxy_centauri.RateLimit
use proxy_centauri.RateLimit.Isolation.{admit-isolated, own_run}
use proxy_centauri.Proxy.{Transport, Reply, fails, responds, serve_http, direct}
use proxy_centauri.Proxy.Balance.{count_in, is_switch, reply_to, count-serve_http}
use proxy_centauri.Proxy.Answer.{sent-serve_http, reply_status, reply_from, chosen}
use proxy_centauri.Balancer
use proxy_centauri.Balancer.LeastConn
use proxy_centauri.Balancer.LeastConn.Validity.{new-IsValid}
use proxy_centauri.Http.{Request, Wire, wire, sent}

-- Vectors as functions from labels to values.
pub bump : (String → ℕ → ℤ) → String → ℕ → ℤ → String → ℕ → ℤ
bump v gate status d g s = if str_eq gate g && status == s then v g s +ℤ d else v g s

pub bump_self :
    (gate : String) (status : ℕ) (d : ℤ) (v : String → ℕ → ℤ)
    → bump v gate status d gate status ≡ v gate status +ℤ d
unfolding bump
bump_self gate status d v = ground (arith, eq_iff gate gate)

pub bump_gate :
    (gate other : String) (status code : ℕ) (d : ℤ) (v : String → ℕ → ℤ)
    → gate ≢ other
    → bump v gate status d other code ≡ v other code
unfolding bump
bump_gate gate other status code d v n = ground (arith, eq_iff gate other)

pub bump_status :
    (gate other : String) (status code : ℕ) (d : ℤ) (v : String → ℕ → ℤ)
    → status ≢ code
    → bump v gate status d other code ≡ v other code
unfolding bump
bump_status gate other status code d v n = ground arith

pub raise : (String → ℤ) → String → ℤ → String → ℤ
raise v gate d g = if str_eq gate g then v g +ℤ d else v g

pub raise_self : (gate : String) (d : ℤ) (v : String → ℤ) → raise v gate d gate ≡ v gate +ℤ d
unfolding raise
raise_self gate d v = ground (arith, eq_iff gate gate)

pub raise_ne :
    (gate other : String) (d : ℤ) (v : String → ℤ) → gate ≢ other → raise v gate d other ≡ v other
unfolding raise
raise_ne gate other d v n = ground (arith, eq_iff gate other)

abbrev pub plain_vectors : Prometheus
plain_vectors = record {
  CounterVec = String → ℕ → ℤ;
  GaugeVec = String → ℤ;
  counter_value = λ v gate status. v gate status;
  gauge_value = λ v gate. v gate;
  counter_add = λ gate status d v. bump v gate status d;
  gauge_add = λ gate d v. raise v gate d;
  counter_add_self = bump_self;
  counter_add_gate = bump_gate;
  counter_add_status = bump_status;
  gauge_add_self = raise_self;
  gauge_add_ne = raise_ne;
}

abbrev pub no_metrics : Metrics plain_vectors
no_metrics = record { req_total = λ g s. pos 0; req_dur = λ g. pos 0; active_conns = λ g. pos 0 }

abbrev traffic : List (Moment plain_vectors)
traffic =
    inits "web" ∷ enters "web" ∷ enters "api" ∷ leaves "web" 200 ∷ enters "web" ∷ aborts "web" ∷ []

metrics-history_example :
    ((history plain_vectors traffic no_metrics).active_conns "web"
        +ℤ pos (exits plain_vectors "web" traffic)
      ≡ pos 0 +ℤ pos (entries plain_vectors "web" traffic))
    × ((history plain_vectors traffic no_metrics).req_total "web" 200
        ≡ pos 0 +ℤ pos (exits_with plain_vectors "web" 200 traffic))
    × ((history plain_vectors traffic no_metrics).req_dur "web"
        ≡ pos 0 +ℤ pos (observed plain_vectors "web" traffic))
metrics-history_example = metrics-history plain_vectors traffic no_metrics "web" 200

-- A bucket that never fills up again.
abbrev pub drains : Rate
drains = record {
  Float = ℕ;
  Limiter = ℕ;
  new_limiter = λ rps burst. burst;
  allow = λ now left. (ltb 0 left, left - 1);
}

abbrev two_peers : List (Turn drains)
two_peers =
    asks 0 "10.0.0.1" ∷ asks 1 "10.0.0.2" ∷ asks 2 "10.0.0.1" ∷ cleans 63 ∷ asks 64 "10.0.0.2" ∷ []

admit-isolated_example :
    (admit drains 65 "10.0.0.1" (run drains two_peers (RateLimit.new drains 10 1))).0
    ≡ (drains.allow 65
        (own_run drains 1 "10.0.0.1" two_peers
          (record { bucket_now = 1; seen = none })).bucket_now).0
admit-isolated_example = admit-isolated drains 10 1 two_peers 65 "10.0.0.1"

-- A network where one backend answers, and one refuses.
unfoldable pub answers : Option String → Request → Reply
answers none r = fails
answers (some host) r = if str_eq host "a:1" then responds 404 [] true else fails

pub answers-none : (r : Request) → answers none r ≡ fails
unfolding answers
answers-none r = refl

pub answers_port_0 : (r : Request) → answers (some "127.0.0.1:0") r ≡ fails
unfolding answers
answers_port_0 r = refl

abbrev pub network : Transport
network = record {
  parse_host = λ addr. some addr;
  round_trip = answers;
  no_host_fails = answers-none;
  port_0_fails = answers_port_0;
}

abbrev pub get_root : Request
get_root = record { method = "GET"; path = "/"; forwarded_for = ""; remote_addr = "10.0.0.1:5123" }

abbrev pub unsent : Wire
unsent = record { informational = []; status = none; body = [] }

abbrev both : LeastConn.LeastConn
both = LeastConn.new ("a:1" ∷ "b:2" ∷ [])

count-serve_http_example :
    count_in (serve_http network wire get_root (Balancer.least_conn both) unsent).0 "a:1" ≡ (
      if is_switch (reply_to network get_root (Balancer.least_conn both))
        && str_eq (LeastConn.next both) "a:1"
      then add64 (LeastConn.count both "a:1") (negsuc 0)
      else LeastConn.count both "a:1")
unfolding LeastConn.new LeastConn.next LeastConn.count lookup insert
count-serve_http_example =
    count-serve_http wire both (new-IsValid ("a:1" ∷ "b:2" ∷ [])) unsent network get_root "a:1"
      (omega arith)

sent-serve_http_example :
    sent (serve_http network wire get_root (Balancer.least_conn both) unsent).1 ≡ (
      if str_eq (chosen (Balancer.least_conn both)) ""
      then 503
      else reply_status (reply_from network get_root (Balancer.least_conn both)))
unfolding LeastConn.new LeastConn.next LeastConn.count lookup insert answers Balancer.next direct
sent-serve_http_example =
    sent-serve_http network get_root (Balancer.least_conn both) unsent refl refl
