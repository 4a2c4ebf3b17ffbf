-- ===== src/Tests/Tunnels.antt =====
-- internal/tunnel at concrete inputs.
use mathlib.Core.List.{Permᴰ}
use proxy_centauri.Prelude.{
  ◌&&◌, arith, some, ◌+◌, ◌++◌, ◌≤◌, ℕ, ◌≡◌, refl, String, Bool, true, false, pos, some, List, [],
  ◌∷◌, lookup, insert,
}
use proxy_centauri.Balancer
use proxy_centauri.Balancer.RoundRobin
use proxy_centauri.Balancer.LeastConn
use proxy_centauri.Proxy.Balance.{count_in}
use proxy_centauri.Tunnel.Tcp
use proxy_centauri.Tunnel.Tcp.Counted.{holding, count-run}
use proxy_centauri.Tunnel.Udp.{
  evict, UdpTunnel, Move, arrives, advances, evicts, replies, new_udp, run, move, at, dial,
  load_or_store, advance, forward, close, start_pump,
}
use proxy_centauri.Tunnel.Udp.Counting.{entries, waiting, opened}
use proxy_centauri.Tunnel.Udp.Holders.{run-IsTight}
use proxy_centauri.Tunnel.Udp.Written.{received, arrived}
use proxy_centauri.Tunnel.Udp.Replies.{answered, replied, apart-run}
use proxy_centauri.Tunnel.Udp.Order.{evict-idle}
use proxy_centauri.Tunnel.Udp.Visits.{survivor, ended, held, idle}
use proxy_centauri.Tunnel.Udp.Sticky.{session-run}

abbrev two : Balancer.Balancer
two = Balancer.round_robin (RoundRobin.new ("a:1" ∷ "b:2" ∷ []))

abbrev everywhere : String → Bool
everywhere addr = true

-- Two datagrams of one client race: both dial before either stores, and the second store finds the
-- session of the first.
abbrev race : List Move
race =
    arrives "10.0.0.9:4000" (1 ∷ [])
    ∷ arrives "10.0.0.9:4000" (2 ∷ [])
    ∷ advances everywhere 100 0
    ∷ advances everywhere 100 1
    ∷ advances everywhere 100 0
    ∷ advances everywhere 100 1
    ∷ []

abbrev raced : UdpTunnel
raced = run race (new_udp two)

abbrev later : List Move
later =
    advances everywhere 101 1 ∷ arrives "10.0.0.8:5000" (3 ∷ []) ∷ advances everywhere 102 2 ∷ []

run-IsTight_example : entries 1 raced.sessions + waiting 1 raced.workers ≡ opened 1 raced.made
run-IsTight_example = run-IsTight two race 1

session-run_example :
    (lookup "10.0.0.9:4000" (run later raced).sessions ≡ some 0)
    × ((at (run later raced).made 0).backend ≡ (at raced.made 0).backend)
    × ((at (run later raced).made 0).is_open ≡ true)
unfolding run move new_udp forward advance dial load_or_store lookup insert start_pump close
    Balancer.next RoundRobin.next RoundRobin.new
session-run_example = session-run "10.0.0.9:4000" 0 later raced tt (run-IsTight two race) refl

-- Two TCP connections over one backend: the second ends while the first still pipes, after a reload
-- that added another.
abbrev tcp_moves : List Tcp.Move
tcp_moves =
    Tcp.accepts
    ∷ Tcp.accepts
    ∷ Tcp.advances everywhere true 0
    ∷ Tcp.advances everywhere true 1
    ∷ Tcp.advances everywhere true 1
    ∷ Tcp.advances everywhere true 0
    ∷ Tcp.advances everywhere true 1
    ∷ Tcp.sets_backends ("b:2" ∷ "a:1" ∷ [])
    ∷ Tcp.flows true (7 ∷ []) 1
    ∷ Tcp.advances everywhere false 1
    ∷ Tcp.advances everywhere true 0
    ∷ Tcp.advances everywhere true 1
    ∷ []

abbrev tcp_start : Tcp.Tunnel
tcp_start = Tcp.new (Balancer.least_conn (LeastConn.new ("a:1" ∷ [])))

one_held : holding "a:1" (Tcp.run tcp_moves tcp_start).conns ≡ 1
unfolding Tcp.run Tcp.move Tcp.advance Tcp.handle_step Tcp.new Balancer.next LeastConn.new
    LeastConn.next LeastConn.count lookup insert Tcp.carried
one_held = refl

count-run_example :
    let t = Tcp.run tcp_moves tcp_start in count_in t.balancer "a:1" ≡ pos (holding "a:1" t.conns)
unfolding Tcp.run Tcp.move Tcp.advance Tcp.new
count-run_example = count-run ("a:1" ∷ []) tcp_moves "a:1" refl (refl, tt) (omega arith)

-- The backend of the first client answers once while its session is open.
abbrev answered_race : List Move
answered_race = race ++ replies 0 (9 ∷ []) ∷ advances everywhere 101 0 ∷ evicts 200 ∷ []

abbrev every : List ℕ → Bool
every data_ = true

apart-run_example :
    let t = run answered_race (new_udp two) in
    (received "10.0.0.9:4000" every t.made ≤ arrived "10.0.0.9:4000" every answered_race)
    × (answered "10.0.0.9:4000" every t.sent_back
        ≤ replied "10.0.0.9:4000" every t.made answered_race)
apart-run_example = apart-run "10.0.0.9:4000" every two answered_race

abbrev two_clients : List Move
two_clients =
    arrives "10.0.0.9:4000" (1 ∷ [])
    ∷ arrives "10.0.0.8:5000" (2 ∷ [])
    ∷ advances everywhere 100 0
    ∷ advances everywhere 100 0
    ∷ advances everywhere 110 1
    ∷ advances everywhere 110 1
    ∷ []

evict-idle_example :
    let t = run two_clients (new_udp two) in
    let s = evict 135 (record t { sessions = ("10.0.0.8:5000", 1) ∷ ("10.0.0.9:4000", 0) ∷ [] }) in
    (lookup "10.0.0.9:4000" s.sessions ≡ survivor 135 t.made (lookup "10.0.0.9:4000" t.sessions))
    × (at s.made 0 ≡ ended (held 0 t.sessions && idle 135 t.made 0) (at t.made 0))
unfolding run move new_udp forward advance dial load_or_store lookup insert start_pump close
    Balancer.next RoundRobin.next RoundRobin.new
evict-idle_example =
    evict-idle two two_clients 135 (("10.0.0.8:5000", 1) ∷ ("10.0.0.9:4000", 0) ∷ [])
      "10.0.0.9:4000" 0 (Permᴰ.swap refl refl)
