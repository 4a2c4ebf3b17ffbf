-- ===== src/Reload.antt =====
-- How cmd/centauri/main.go starts the health checks of its gates and reloads them by name, with the
-- watcher of internal/config/watcher.go. A scan is a pointer into the list of all that were
-- started: a name that comes twice leaves the first scan running, out of the registry's reach. The
-- goroutine of each scan takes its steps between all other moves.
pub mod Scans
pub mod Kept
pub mod Names
pub mod Gates
pub mod Watched
pub mod Routes
use Prim.Native.String.{String}
use proxy_centauri.Prelude.{
  ℕ, zero, suc, ◌+◌, Bool, true, false, ◌||◌, Option, none, some, List, [], ◌∷◌, ◌++◌, map,
  if◌then◌else◌, str_eq, length, Dict, lookup, insert,
}
use proxy_centauri.Balancer.{new_from_config, next}
use proxy_centauri.Tunnel.Tcp.{acquire, release}
use proxy_centauri.Config.{StarSystem, JumpGate, Config, load}
use proxy_centauri.Floats.{Float64}
use proxy_centauri.Health
use proxy_centauri.Health.{PulseScan, Event, Network, set_event_func, set_all}
use proxy_centauri.Health.Steps.{Watch, waits, step, on_scan}

abbrev pub addrs_in : List StarSystem → List String
addrs_in star_systems = map (λ ss. ss.address) star_systems

-- `modify i g` is a call on the scan, or a step of its goroutine, that the pointer `i` is of.
unfoldable pub modify : ℕ → (Watch → Watch) → List Watch → List Watch
modify i g [] = []
modify zero g (x ∷ xs) = g x ∷ xs
modify (suc i) g (x ∷ xs) = x ∷ modify i g xs

-- `events` are the calls of LogEvent that reloads make.
pub record Running : Type 0 where
  pub scans : List Watch
  pub registry : Dict ℕ
  pub has_store : Bool
  pub events : List Event

-- What a handler of a gate does to the balancer that it shares with the scan: `Next`, with the
-- `Acquire` that a LeastConn gets for the address; and, later, the `Release`.
unfoldable pub route : PulseScan → PulseScan
route ps =
    let (addr, b) = next ps.balancer in
    record ps { balancer = if str_eq addr "" then b else acquire addr b }

unfoldable pub let_go : String → PulseScan → PulseScan
let_go addr ps = record ps { balancer = release addr ps.balancer }

module _ (f : Float64) where
  -- The balancer and the scan of a gate.
  unfoldable pub scan_for : Bool → JumpGate f → PulseScan
  scan_for has_store gate =
      let addrs = addrs_in gate.star_systems in
      let weights = map (λ ss. ss.weight) gate.star_systems in
      let lb = new_from_config addrs weights gate.orbital_router in
      let ps = Health.new gate.name addrs gate.protocol lb in
      if has_store then set_event_func ps else ps

  unfoldable pub open_gate : JumpGate f → Running → Running
  open_gate gate r = record r {
    scans = r.scans ++ (record { scan = scan_for r.has_store gate; phase = waits }) ∷ [];
    registry = insert gate.name (length r.scans) r.registry;
  }

  unfoldable pub open_gates : List (JumpGate f) → Running → Running
  open_gates [] r = r
  open_gates (gate ∷ gates) r = open_gates gates (open_gate gate r)

  -- The gates of a configuration; there is a store if metrics are enabled.
  unfoldable pub start : Config f → Running
  start cfg =
      open_gates cfg.jump_gates
        (record { scans = []; registry = []; has_store = cfg.metrics.enabled; events = [] })

  unfoldable pub reload_gate : JumpGate f → Running → Running
  reload_gate gate r = elim (lookup gate.name r.registry) [
    | none ↦ r
    | some i ↦ record r {
      scans = modify i (on_scan (set_all (addrs_in gate.star_systems))) r.scans;
    }
  ]

  unfoldable pub reload_gates : List (JumpGate f) → Running → Running
  reload_gates [] r = r
  reload_gates (gate ∷ gates) r = reload_gates gates (reload_gate gate r)

  -- The `onChange` of main.
  unfoldable pub on_change : Config f → Running → Running
  on_change cfg r =
      let e : Event = record { gate = "*"; kind = "config_reload"; detail = "centauri.yml" } in
      reload_gates cfg.jump_gates
        (record r { events = if r.has_store then r.events ++ e ∷ [] else r.events })

  -- An event of the watcher, with what ReadFile gives then; the next step of a scan's goroutine; or
  -- the begin and the end of a request to a gate, by its scan.
  pub data Move (Bytes : Type 0) : Type 0 where
    file_event : Bool → Bool → Option Bytes → Move Bytes
    checks : ℕ → Network → Move Bytes
    routes : ℕ → Move Bytes
    ends : ℕ → String → Move Bytes

  module _ {Bytes : Type 0} (unmarshal : Bytes → Option (Config f)) (env : String → String) where
    -- A round of the loop of `Watch`, on an event with its flags Write and Create.
    unfoldable pub on_event : Bool → Bool → Option Bytes → Running → Running
    on_event has_write has_create contents r =
        if has_write || has_create
        then elim (load f unmarshal env contents) [ none ↦ r | some cfg ↦ on_change cfg r ]
        else r

    unfoldable pub move : Move Bytes → Running → Running
    move (file_event has_write has_create contents) r = on_event has_write has_create contents r
    move (checks i net) r = record r { scans = modify i (step net) r.scans }
    move (routes i) r = record r { scans = modify i (on_scan route) r.scans }
    move (ends i addr) r = record r { scans = modify i (on_scan (let_go addr)) r.scans }

    unfoldable pub run : List (Move Bytes) → Running → Running
    run [] r = r
    run (m ∷ ms) r = run ms (move m r)
