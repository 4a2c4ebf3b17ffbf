-- ===== src/Health/Events.antt =====
-- The events that a check of internal/health/pulsescan.go reports.
use mathlib.Core.List.{append-nil, append_assoc}
use proxy_centauri.Prelude.{
  ℕ, suc, String, eq_iff, ◌≡◌, refl, sym, ◌∙◌, Bool, true, false, List, [], ◌∷◌, ◌++◌, arith,
  if◌then◌else◌, contains, Dict, insert,
}
use proxy_centauri.Health.{Network, PulseScan, Scan, Event, ping, is_healthy, scan, scan_one, check}
use proxy_centauri.Health.Check.{Distinct, is_healthy-insert}

-- One event for each address whose answer differs from its health, in the order of the list.
abbrev pub flips : PulseScan → Dict Bool → (ℕ → Network) → ℕ → List String → List Event
flips ps m nets i [] = []
flips ps m nets i (a ∷ addrs) =
    let rest = flips ps m nets (suc i) addrs in
    let now = ping (nets i) ps.protocol a in
    if is_healthy m a
    then (if now then rest else record { gate = ps.name; kind = "backend_down"; detail = a } ∷ rest)
    else (if now then record { gate = ps.name; kind = "backend_up"; detail = a } ∷ rest else rest)

module _ (ps : PulseScan) (nets : ℕ → Network) where
  pub flips-insert :
      (i : ℕ) (addrs : List String) (m : Dict Bool) (a : String) (v : Bool)
      → contains a addrs ≡ false
      → flips ps (insert a v m) nets i addrs ≡ flips ps m nets i addrs
  flips-insert i [] m a v h = refl
  flips-insert i (x ∷ addrs) m a v h =
      ground
        (arith, flips-insert (suc i) addrs m a v, is_healthy-insert a x v m, eq_iff a x, eq_iff x a)

  events-scan :
      (i : ℕ) (addrs : List String) (s : Scan)
      → Distinct addrs
      → ps.has_event_func ≡ true
      → (scan ps nets i addrs s).events ≡ s.events ++ flips ps s.healthy nets i addrs
  unfolding scan scan_one
  events-scan i [] s d h = sym (append-nil s.events)
  events-scan i (a ∷ addrs) s d h =
      let now = ping (nets i) ps.protocol a in
      let s' = scan_one ps a now s in
      let up : Event = record { gate = ps.name; kind = "backend_up"; detail = a } in
      let down : Event = record { gate = ps.name; kind = "backend_down"; detail = a } in
      ground (
        arith,
        events-scan (suc i) addrs s' d.1 h,
        flips-insert (suc i) addrs s.healthy a now d.0,
        append_assoc s.events (up ∷ []) (flips ps s.healthy nets (suc i) addrs),
        append_assoc s.events (down ∷ []) (flips ps s.healthy nets (suc i) addrs),
      )

  silent-scan :
      (i : ℕ) (addrs : List String) (s : Scan)
      → ps.has_event_func ≡ false
      → (scan ps nets i addrs s).events ≡ s.events
  unfolding scan scan_one
  silent-scan i [] s h = refl
  silent-scan i (a ∷ addrs) s h = silent-scan (suc i) addrs _ h ∙ ground arith

  -- With a callback, a check calls it once for each address whose answer differs from its health
  -- before, with "backend_up" or "backend_down", in the order of the list, if no address repeats.
  -- Without one it reports nothing.
  pub events-check :
      Distinct ps.all
      → (check nets ps).events
        ≡ (if ps.has_event_func then ps.events ++ flips ps ps.healthy nets 0 ps.all else ps.events)
  unfolding check
  events-check d =
      let s : Scan = record {
        healthy = ps.healthy;
        live = [];
        changed = false;
        events = ps.events;
      } in
      ground (arith, events-scan 0 ps.all s d, silent-scan 0 ps.all s)
