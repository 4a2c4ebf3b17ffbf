-- ===== src/Tests/Gates.antt =====
-- internal/health, internal/metrics and internal/logger at concrete inputs.
use proxy_centauri.Prelude.{
  ℕ, String, ◌≡◌, refl, true, false, List, [], ◌∷◌, ◌++◌, if◌then◌else◌, none, some, contains,
  lookup, insert, delete,
}
use proxy_centauri.Balancer
use proxy_centauri.Balancer.Interface.{addrs_of-new}
use proxy_centauri.Health
use proxy_centauri.Health.{Network, PulseScan}
use proxy_centauri.Health.Check.{answering}
use proxy_centauri.Health.Sync.{InSync, new-InSync}
use proxy_centauri.Health.Overlap.{check_around, overlap-stale}
use proxy_centauri.Health.Events.{flips, events-check}
use proxy_centauri.Http.{Wire, serve, wire, wrap, sent, writes_header, writes, WriterCall}
use proxy_centauri.Http.Recorder.{stack, serve-transparent, serve_informational}

abbrev pair : List String
pair = "a:1" ∷ "b:2" ∷ []

-- The second backend is down.
abbrev half_up : ℕ → Network
half_up i = record {
  http_get = λ url. none;
  dial_tcp = λ a. if contains a ("a:1" ∷ []) then true else false;
  dial_udp = λ a. true;
  write_udp = λ a. true;
  read_udp = λ a. false;
}

abbrev watched : PulseScan
watched = Health.new "db" pair "tcp" (Balancer.new_from_config pair [] "")

watched-InSync : InSync watched
watched-InSync =
    new-InSync "db" pair "tcp" (Balancer.new_from_config pair [] "") (refl, (refl, tt))
      (addrs_of-new pair [] "")

one_left : answering half_up "tcp" 0 pair ≡ "a:1" ∷ []
unfolding Health.ping
one_left = refl

events-check_example :
    (Health.check half_up (Health.set_event_func watched)).events
    ≡ watched.events ++ flips (Health.set_event_func watched) watched.healthy half_up 0 pair
unfolding Health.set_event_func Health.new
events-check_example = events-check (Health.set_event_func watched) half_up (refl, (refl, tt))

abbrev all_up : ℕ → Network
all_up i = record {
  http_get = λ url. some 200;
  dial_tcp = λ a. true;
  dial_udp = λ a. true;
  write_udp = λ a. true;
  read_udp = λ a. true;
}

overlap-stale_example :
    let ps' = check_around 2 half_up ("c:3" ∷ []) watched in
    (ps'.all ≡ "c:3" ∷ [])
    × (Balancer.addrs_of ps'.balancer ≡ answering half_up "tcp" 0 pair)
    × (Balancer.addrs_of (Health.check all_up ps').balancer ≡ answering half_up "tcp" 0 pair)
unfolding Health.new check_around Health.is_healthy Health.ping lookup insert delete
overlap-stale_example =
    overlap-stale 2 half_up all_up ("c:3" ∷ []) watched
      (record { gate = "db"; kind = "backend_down"; detail = "b:2" }) [] (refl, (refl, tt))
      (refl, tt) refl refl

abbrev quiet : Wire
quiet = record { informational = []; status = none; body = [] }

serve-transparent_example :
    let cs : List WriterCall = writes_header 404 ∷ writes (1 ∷ []) ∷ writes_header 500 ∷ [] in
    let s = serve stack cs (wrap (wrap quiet)) in
    let w' = serve wire cs quiet in
    (s.inner.inner ≡ w') × (s.status ≡ sent w') × (s.inner.status ≡ sent w')
serve-transparent_example =
    serve-transparent (writes_header 404 ∷ writes (1 ∷ []) ∷ writes_header 500 ∷ []) quiet refl
      (refl, (tt, (refl, tt)))

serve_informational_example :
    let s = serve stack (writes_header 103 ∷ writes_header 404 ∷ []) (wrap (wrap quiet)) in
    (s.status ≡ 103) × (s.inner.status ≡ 103) × (sent s.inner.inner ≡ 200)
serve_informational_example = serve_informational 103 (writes_header 404 ∷ []) quiet refl refl
