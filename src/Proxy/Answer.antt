-- ===== src/Proxy/Answer.antt =====
-- The status that a client gets from internal/proxy/proxy.go.
use proxy_centauri.Prelude.{ℕ, ◌≡◌, ◌∙◌, String, true, false, none, arith, if◌then◌else◌, str_eq}
use proxy_centauri.Balancer
use proxy_centauri.Balancer.{Balancer}
use proxy_centauri.Http.{Request, Wire, wire, sent, is_informational}
use proxy_centauri.Proxy.{
  Transport, Reply, fails, responds, switches, direct, director, finish, serve_http,
}

-- The final status of a reply: a response's own, which is not informational, or 502.
abbrev pub reply_status : Reply → ℕ
reply_status fails = 502
reply_status (responds status body complete) = status
reply_status switches = 502

abbrev pub IsFinalReply : Reply → Type 0
IsFinalReply fails = Unit
IsFinalReply (responds status body complete) = is_informational status ≡ false
IsFinalReply switches = Unit

sent-finish :
    (tracking : String) (reply : Reply) (b : Balancer) (w : Wire)
    → w.status ≡ none
    → IsFinalReply reply
    → (str_eq tracking "" ≡ true → reply ≡ fails)
    → sent (finish wire tracking reply b w).1
      ≡ (if str_eq tracking "" then 503 else reply_status reply)
unfolding finish
sent-finish tracking fails b w h f k = ground arith
sent-finish tracking (responds status body complete) b w h f k = ground arith
sent-finish tracking switches b w h f k = ground arith

-- The address that the balancer chooses, and what the transport answers to the request.
abbrev pub chosen : Balancer → String
chosen b = (Balancer.next b).0

abbrev pub reply_from : Transport → Request → Balancer → Reply
reply_from t r b = let d = direct t (chosen b) r in t.round_trip d.host d.request

direct_tracking : (t : Transport) (addr : String) (r : Request) → (direct t addr r).tracking ≡ addr
unfolding direct
direct_tracking t addr r = ground arith

direct_sentinel :
    (t : Transport) (addr : String) (r : Request)
    → str_eq addr "" ≡ true
    → t.round_trip (direct t addr r).host (direct t addr r).request ≡ fails
unfolding direct
direct_sentinel t addr r e = rw e (t.port_0_fails r)

-- Whatever the algorithm, on a response that is not begun and for a reply whose status is not
-- informational, the client gets 503 just where the balancer chooses no address, 502 where the
-- round trip to the chosen backend fails or the backend switches protocols, and the backend's own
-- status else.
pub sent-serve_http :
    (t : Transport) (r : Request) (b : Balancer) (w : Wire)
    → w.status ≡ none
    → IsFinalReply (reply_from t r b)
    → sent (serve_http t wire r b w).1
      ≡ (if str_eq (chosen b) "" then 503 else reply_status (reply_from t r b))
unfolding serve_http director
sent-serve_http t r b w h f =
    sent-finish (direct t (chosen b) r).tracking (reply_from t r b) _ w h f
      (rw (direct_tracking t (chosen b) r) (direct_sentinel t (chosen b) r))
    ∙ rw (direct_tracking t (chosen b) r)
