-- ===== src/Proxy.antt =====
-- internal/proxy/proxy.go over net/http/httputil's ReverseProxy, which calls the director, makes
-- the round trip, and calls `ModifyResponse` or `ErrorHandler` (both, where a protocol switch
-- fails).
pub mod Answer
pub mod Balance
use Prim.Native.Char.{code}
use Prim.Native.String.{String, ◌++◌ as concat}
use proxy_centauri.Prelude.{
  ℕ, ◌≡◌, Bool, true, false, Option, none, some, List, [], ◌∷◌, if◌then◌else◌, str_eq,
}
use proxy_centauri.Balancer
use proxy_centauri.Balancer.{Balancer, round_robin, least_conn, weighted}
use proxy_centauri.Balancer.LeastConn
use proxy_centauri.Http.{Request, ResponseWriter, Outcome, returns, panics}

-- What comes of a round trip: an error; a response with its status and body, copied in full or
-- not; or the status 101, which a writer that cannot be hijacked cannot serve.
pub data Reply : Type 0 where
  fails : Reply
  responds : ℕ → List ℕ → Bool → Reply
  switches : Reply

-- The host that `url.Parse("http://" + addr)` finds, and the transport; a request with no host in
-- its URL, and one to port 0, fails.
pub record Transport : Type 0 where
  pub parse_host : String → Option String
  pub round_trip : Option String → Request → Reply
  pub no_host_fails : (r : Request) → round_trip none r ≡ fails
  pub port_0_fails : (r : Request) → round_trip (some "127.0.0.1:0") r ≡ fails

-- `lc, ok := p.balancer.(*balancer.LeastConn)`, and the call if it is one.
unfoldable pub acquire : String → Balancer → Balancer
acquire addr (round_robin r) = round_robin r
acquire addr (least_conn lc) = least_conn (LeastConn.acquire addr lc)
acquire addr (weighted w) = weighted w

unfoldable pub release : String → Balancer → Balancer
release addr (round_robin r) = round_robin r
release addr (least_conn lc) = least_conn (LeastConn.release addr lc)
release addr (weighted w) = weighted w

-- What the director leaves: the tracked address, the host of the request's URL if it has one, and
-- the request with its header.
pub record Directed : Type 0 where
  pub tracking : String
  pub host : Option String
  pub request : Request

abbrev with_client : Request → Request
with_client r = if str_eq r.remote_addr "" then r else record r { forwarded_for = r.remote_addr }

unfoldable pub direct : Transport → String → Request → Directed
direct t addr r =
    if str_eq addr ""
    then record { tracking = addr; host = some "127.0.0.1:0"; request = r }
    else elim (t.parse_host addr) [
      | none ↦ record { tracking = addr; host = none; request = r }
      | some host ↦ record { tracking = addr; host = some host; request = with_client r }
    ]

unfoldable pub director : Transport → Request → Balancer → Directed × Balancer
unfolding direct acquire
director t r b =
    let (addr, b') = Balancer.next b in
    (direct t addr r, if str_eq addr "" then b' else acquire addr b')

-- The release of `ModifyResponse` and of `ErrorHandler`.
unfoldable pub release_tracked : String → Balancer → Balancer
unfolding release
release_tracked tracking b = if str_eq tracking "" then b else release tracking b

abbrev pub bytes : String → List ℕ
bytes String.[] = []
bytes (String.◌∷◌ c s) = code c ∷ bytes s

-- `http.Error`.
abbrev pub http_error : {S : Type 0} → ResponseWriter S → String → ℕ → S → S
http_error w message status s = w.write (bytes (concat message "\n")) (w.write_header status s)

unfoldable pub error_handler :
    {S : Type 0} → ResponseWriter S → String → Balancer → S → Balancer × S
unfolding release_tracked
error_handler w tracking b s = (
  release_tracked tracking b,
  if str_eq tracking ""
      then http_error w "503 Service Unavailable" 503 s
      else http_error w "502 Bad Gateway" 502 s,
)

-- The rest of `ServeHTTP`, after the round trip.
unfoldable pub finish :
    {S : Type 0} → ResponseWriter S → String → Reply → Balancer → S → Balancer × S × Outcome
unfolding error_handler
finish w tracking fails b s = let (b', s') = error_handler w tracking b s in (b', s', returns)
finish w tracking (responds status body complete) b s = (
  release_tracked tracking b,
  w.write body (w.write_header status s),
  if complete then returns else panics,
)
finish w tracking switches b s =
    let (b', s') = error_handler w tracking (release_tracked tracking b) s in (b', s', returns)

unfoldable pub serve_http :
    {S : Type 0} → Transport → ResponseWriter S → Request → Balancer → S → Balancer × S × Outcome
unfolding director finish
serve_http t w r b s =
    let (d, b') = director t r b in finish w d.tracking (t.round_trip d.host d.request) b' s
