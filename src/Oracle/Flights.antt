-- ===== src/Oracle/Flights.antt =====
-- internal/oracle/oracle.go with its two goroutines: the loop of `Start`, and the flush of
-- cmd/centauri/main.go, which calls `Check`. Between what an `analyze` does before Claude is asked
-- and what it does with the answer the other one goes on.
pub mod Steps
pub mod Paid
pub mod Calls
use proxy_centauri.Prelude.{Bool, true, false, Option, none, some, List, [], ◌∷◌, if◌then◌else◌}
use proxy_centauri.Floats.{Float64}
use proxy_centauri.Oracle.Aggregator.{GateSnapshot}
use proxy_centauri.Oracle.Engine.{Oracle, World, call_claude, conclude, should_call, snaps_of}

module _ (f : Float64) where
  -- An `analyze` that waits for Claude.
  pub record Flight : Type 0 where
    pub world : World f
    pub snaps : List (GateSnapshot f)

  pub record Flights : Type 0 where
    pub oracle : Oracle f
    pub of_loop : Option Flight
    pub of_flush : Option Flight

  -- The goroutines are the loop, `true`, and the flush.
  abbrev pub in_flight : Bool → Flights → Option Flight
  in_flight true s = s.of_loop
  in_flight false s = s.of_flush

  abbrev pub put : Bool → Option Flight → Flights → Flights
  put true o s = record s { of_loop = o }
  put false o s = record s { of_flush = o }

  -- An `analyze` up to the call of Claude. A goroutine that waits for Claude begins no other.
  unfoldable pub begin : Bool → World f → Flights → Flights
  begin who w s = elim (in_flight who s) [
    | some flight ↦ s
    | none ↦
        let snaps = snaps_of f w s.oracle in
        if should_call f w.now snaps s.oracle
        then put who (some (record { world = w; snaps = snaps })) s
        else s
  ]

  -- The rest of it.
  unfoldable pub finish : Bool → Flights → Flights
  finish who s = elim (in_flight who s) [
    | none ↦ s
    | some flight ↦
        let w = flight.world in
        record (put who none s) { oracle = conclude f w flight.snaps (call_claude f w) s.oracle }
  ]

  pub data Move : Type 0 where
    ticks : World f → Move
    checks : List (GateSnapshot f) → World f → Move
    finishes : Bool → Move

  unfoldable pub move : Move → Flights → Flights
  move (ticks w) s = begin true w s
  move (checks snaps w) s = if should_call f w.now snaps s.oracle then begin false w s else s
  move (finishes who) s = finish who s

  unfoldable pub run : List Move → Flights → Flights
  run [] s = s
  run (m ∷ ms) s = run ms (move m s)
