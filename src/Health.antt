-- ===== src/Health.antt =====
-- internal/health/pulsescan.go. The network is a parameter, read anew for each ping of a check.
pub mod Check
pub mod Sync
pub mod Overlap
pub mod Events
pub mod Steps
use Prim.Native.String.{◌++◌ as concat}
use proxy_centauri.Prelude.{
  ℕ, suc, ◌+◌, String, Bool, true, false, not, Option, none, some, List, [], ◌∷◌, ◌++◌,
  if◌then◌else◌, ltb, str_eq, contains, Dict, lookup, insert, delete,
}
use proxy_centauri.Balancer.{Balancer, set_backends}

-- What a ping can see: the status code of an HTTP GET of a URL, whether a TCP or UDP dial succeeds,
-- and whether the UDP write and read do, within their deadlines.
pub record Network : Type 0 where
  pub http_get : String → Option ℕ
  pub dial_tcp : String → Bool
  pub dial_udp : String → Bool
  pub write_udp : String → Bool
  pub read_udp : String → Bool

-- A call of the event callback.
pub record Event : Type 0 where
  pub gate : String
  pub kind : String
  pub detail : String

-- `events` are the callback's calls so far; `has_event_func` says whether there is a callback.
pub record PulseScan : Type 0 where
  pub name : String
  pub all : List String
  pub protocol : String
  pub healthy : Dict Bool
  pub balancer : Balancer
  pub has_event_func : Bool
  pub events : List Event

unfoldable pub mark_all : List String → Dict Bool → Dict Bool
mark_all [] m = m
mark_all (addr ∷ addrs) m = mark_all addrs (insert addr true m)

unfoldable pub new : String → List String → String → Balancer → PulseScan
unfolding mark_all
new name addresses protocol lb = record {
  name = name;
  all = addresses;
  protocol = protocol;
  healthy = mark_all addresses [];
  balancer = lb;
  has_event_func = false;
  events = [];
}

unfoldable pub set_event_func : PulseScan → PulseScan
set_event_func ps = record ps { has_event_func = true }

-- `Healthy`, on the map.
unfoldable pub is_healthy : Dict Bool → String → Bool
is_healthy m addr = elim (lookup addr m) [ none ↦ false | some v ↦ v ]

-- The loops of `SetAll`: forget what is gone, assume what is new to be healthy, collect what is
-- live.
unfoldable pub forget : List String → List String → Dict Bool → Dict Bool
forget [] addresses m = m
forget (a ∷ all) addresses m = forget all addresses (if contains a addresses then m else delete a m)

unfoldable pub assume : List String → Dict Bool → Dict Bool
assume [] m = m
assume (a ∷ addresses) m =
    assume addresses (elim (lookup a m) [ none ↦ insert a true m | some v ↦ m ])

unfoldable pub live_of : Dict Bool → List String → List String
live_of m [] = []
live_of m (a ∷ addresses) =
    let rest = live_of m addresses in if is_healthy m a then a ∷ rest else rest

unfoldable pub set_all : List String → PulseScan → PulseScan
unfolding forget assume live_of
set_all addresses ps =
    let healthy = assume addresses (forget ps.all addresses ps.healthy) in
    record ps {
      all = addresses;
      healthy = healthy;
      balancer = set_backends (live_of healthy addresses) ps.balancer;
    }

-- Any status below 500 is alive.
unfoldable pub ping_http : Network → String → Bool
ping_http net address = elim (net.http_get (concat "http://" (concat address "/"))) [
  | none ↦ false
  | some status_code ↦ ltb status_code 500
]

unfoldable pub ping_tcp : Network → String → Bool
ping_tcp net address = net.dial_tcp address

unfoldable pub ping_udp : Network → String → Bool
ping_udp net address =
    if net.dial_udp address
    then (if net.write_udp address then net.read_udp address else false)
    else false

unfoldable pub ping : Network → String → String → Bool
unfolding ping_http ping_tcp ping_udp
ping net protocol address =
    if str_eq protocol "tcp"
    then ping_tcp net address
    else if str_eq protocol "udp"
    then ping_udp net address
    else ping_http net address

-- The variables of the loop of `check`.
pub record Scan : Type 0 where
  pub healthy : Dict Bool
  pub live : List String
  pub changed : Bool
  pub events : List Event

abbrev pub report : Bool → List Event → Event → List Event
report has_event_func events e = if has_event_func then events ++ e ∷ [] else events

-- The body of the loop behind the ping: the address, whether it was healthy before the ping, and
-- whether it answered.
abbrev pub store_one : PulseScan → String → Bool → Bool → Scan → Scan
store_one ps addr was now s =
    let flipped = if was then not now else now in
    record {
      healthy = insert addr now s.healthy;
      live = if now then s.live ++ addr ∷ [] else s.live;
      changed = if flipped then true else s.changed;
      events =
          if flipped
          then report ps.has_event_func s.events (record {
            gate = ps.name;
            kind = if now then "backend_up" else "backend_down";
            detail = addr;
          })
          else s.events;
    }

unfoldable pub scan_one : PulseScan → String → Bool → Scan → Scan
scan_one ps addr now s = store_one ps addr (is_healthy s.healthy addr) now s

-- `nets i` is the network at the `i`-th ping.
unfoldable pub scan : PulseScan → (ℕ → Network) → ℕ → List String → Scan → Scan
scan ps nets i [] s = s
scan ps nets i (addr ∷ addrs) s =
    scan ps nets (suc i) addrs (scan_one ps addr (ping (nets i) ps.protocol addr) s)

unfoldable pub check : (ℕ → Network) → PulseScan → PulseScan
unfolding scan scan_one
check nets ps =
    let s =
      scan ps nets 0 ps.all
        (record { healthy = ps.healthy; live = []; changed = false; events = ps.events }) in
    record ps {
      healthy = s.healthy;
      events = s.events;
      balancer = if s.changed then set_backends s.live ps.balancer else ps.balancer;
    }
