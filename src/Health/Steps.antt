-- ===== src/Health/Steps.antt =====
-- The goroutine that `Start` of internal/health/pulsescan.go runs for a scan, step by step: it holds
-- no lock while it pings, so that other calls on the scan come between two of its steps.
pub mod Whole
pub mod Steady
use proxy_centauri.Prelude.{String, Bool, true, false, List, [], ◌∷◌, if◌then◌else◌}
use proxy_centauri.Balancer.{set_backends}
use proxy_centauri.Health.{PulseScan, Scan, Network, is_healthy, ping, store_one}

-- Where the goroutine is: it waits for a tick, or it is in `check`, at the head of its loop or at the
-- ping of an address that was healthy or not. In `check` it has the addresses that are left, those
-- that answered, and whether it saw a change.
pub data Phase : Type 0 where
  waits : Phase
  at_head : List String → List String → Bool → Phase
  at_ping : String → Bool → List String → List String → Bool → Phase

pub record Watch : Type 0 where
  pub scan : PulseScan
  pub phase : Phase

-- The end of `check`.
unfoldable pub finish : List String → Bool → PulseScan → PulseScan
finish live changed ps = record ps {
  balancer = if changed then set_backends live ps.balancer else ps.balancer;
}

-- The next step from a phase. The network is that of the ping, if the step is one.
unfoldable pub step_from : Network → Phase → PulseScan → Watch
unfolding finish
step_from net waits ps = record { scan = ps; phase = at_head ps.all [] false }
step_from net (at_head [] live changed) ps = record { scan = finish live changed ps; phase = waits }
step_from net (at_head (addr ∷ left) live changed) ps = record {
  scan = ps;
  phase = at_ping addr (is_healthy ps.healthy addr) left live changed;
}
step_from net (at_ping addr was left live changed) ps =
    let s =
      store_one ps addr was (ping net ps.protocol addr)
        (record { healthy = ps.healthy; live = live; changed = changed; events = ps.events }) in
    record {
      scan = record ps { healthy = s.healthy; events = s.events };
      phase = at_head left s.live s.changed;
    }

unfoldable pub step : Network → Watch → Watch
unfolding step_from
step net w = step_from net w.phase w.scan

-- A call of another goroutine on the scan.
abbrev pub on_scan : (PulseScan → PulseScan) → Watch → Watch
on_scan g w = record w { scan = g w.scan }
