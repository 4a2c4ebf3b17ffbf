-- ===== src/Tunnel/Tcp.antt =====
-- internal/tunnel/tunnel.go. The goroutines that `Listen` starts are connections in a list; each
-- move of one is a step between two of its calls. Which backends can be dialed, and when a copy
-- ends, is part of a move.

pub mod Calls
pub mod Counted
use proxy_centauri.Prelude.{
  ℕ, String, Bool, true, false, not, ◌&&◌, List, [], ◌∷◌, ◌++◌, if◌then◌else◌, str_eq, get_or, set,
}
use proxy_centauri.Balancer
use proxy_centauri.Balancer.{Balancer, round_robin, least_conn, weighted}
use proxy_centauri.Balancer.LeastConn

-- Where a `handle` stands: before `Next`, before `Acquire`, before `Dial`, with its copies from the
-- client and from the backend that run and the bytes that the backend and the client got, or at its
-- end.
pub data Conn : Type 0 where
  fresh : Conn
  chose : String → Conn
  held : String → Conn
  pipes : String → Bool → Bool → List ℕ → List ℕ → Conn
  over : Conn

pub record Tunnel : Type 0 where
  pub balancer : Balancer
  pub conns : List Conn

unfoldable pub new : Balancer → Tunnel
new lb = record { balancer = lb; conns = [] }

-- The `Acquire` of `handle`, and the `Release` that it defers, for a LeastConn balancer.
unfoldable pub acquire : String → Balancer → Balancer
acquire addr (round_robin r) = round_robin r
acquire addr (least_conn lc) = least_conn (LeastConn.acquire addr lc)
acquire addr (weighted w) = weighted w

unfoldable pub release : String → Balancer → Balancer
release addr (round_robin r) = round_robin r
release addr (least_conn lc) = least_conn (LeastConn.release addr lc)
release addr (weighted w) = weighted w

-- The next move of a `handle`, and what it does to the balancer. If both copies run, `up` says
-- whether the one from the client ends; after the last one the deferred calls run.
unfoldable pub handle_step : (String → Bool) → Bool → Conn → Balancer → Conn × Balancer
handle_step reaches up fresh b =
    let (addr, b') = Balancer.next b in (if str_eq addr "" then over else chose addr, b')
handle_step reaches up (chose addr) b = (held addr, acquire addr b)
handle_step reaches up (held addr) b =
    if reaches addr then (pipes addr true true [] [], b) else (over, release addr b)
handle_step reaches up (pipes addr up_runs down_runs backend_got client_got) b =
    if up_runs && down_runs
    then (pipes addr (not up) up backend_got client_got, b)
    else (over, release addr b)
handle_step reaches up over b = (over, b)

unfoldable pub advance : (String → Bool) → Bool → ℕ → Tunnel → Tunnel
advance reaches up i t =
    let (c, b) = handle_step reaches up (get_or t.conns i over) t.balancer in
    record { balancer = b; conns = set t.conns i c }

-- Bytes that a copy passes on: `up` from the client to the backend.
unfoldable pub carried : Bool → List ℕ → Conn → Conn
carried up bytes fresh = fresh
carried up bytes (chose addr) = chose addr
carried up bytes (held addr) = held addr
carried up bytes (pipes addr up_runs down_runs backend_got client_got) =
    pipes addr up_runs down_runs (if up && up_runs then backend_got ++ bytes else backend_got)
      (if not up && down_runs then client_got ++ bytes else client_got)
carried up bytes over = over

-- What can happen next: `Accept`, a move of a connection, bytes on one, or a reload or health check
-- of the balancer.
pub data Move : Type 0 where
  accepts : Move
  advances : (String → Bool) → Bool → ℕ → Move
  flows : Bool → List ℕ → ℕ → Move
  sets_backends : List String → Move

unfoldable pub move : Move → Tunnel → Tunnel
move accepts t = record t { conns = t.conns ++ fresh ∷ [] }
move (advances reaches up i) t = advance reaches up i t
move (flows up bytes i) t = record t {
  conns = set t.conns i (carried up bytes (get_or t.conns i over));
}
move (sets_backends addrs) t = record t { balancer = Balancer.set_backends addrs t.balancer }

unfoldable pub run : List Move → Tunnel → Tunnel
run [] t = t
run (m ∷ ms) t = run ms (move m t)
