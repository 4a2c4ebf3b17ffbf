-- ===== src/Oracle/Flights/Steps.antt =====
-- How often the two goroutines of internal/oracle/oracle.go call Claude, when they overlap: their steps.
use proxy_centauri.Prelude.{
  ℕ, ◌+◌, ◌≤◌, ◌≡◌, refl, Bool, true, false, Option, none, some, List, [], ◌∷◌, arith,
  if◌then◌else◌, Bool-cases, inl, inr,
}
use proxy_centauri.Floats.{Float64}
use proxy_centauri.Oracle.Engine.{
  OracleResponse, Oracle, World, analyze, call_claude, conclude, should_call, snaps_of, breaches,
}
use proxy_centauri.Oracle.Flights.{
  Flight, Flights, in_flight, put, begin, finish, Move, ticks, checks, finishes, move,
}

module _ (f : Float64) where
  -- The engine with nothing in flight.
  abbrev pub grounded : Oracle f → Flights f
  grounded o = record { oracle = o; of_loop = none; of_flush = none }

  abbrev pub is_some : Option (Flight f) → Bool
  is_some none = false
  is_some (some flight) = true

  abbrev pub flies : Bool → Flights f → Bool
  flies who s = is_some (in_flight f who s)

  -- Whether a goroutine asks Claude between two states.
  abbrev pub asks : Bool → Flights f → Flights f → ℕ
  asks who s s' = if flies who s then 0 else if flies who s' then 1 else 0

  -- The calls of a goroutine.
  abbrev pub count_asks : Bool → List (Move f) → Flights f → ℕ
  count_asks who [] s = 0
  count_asks who (m ∷ ms) s = asks who s (move f m s) + count_asks who ms (move f m s)

  abbrev pub landing : ℕ → Option (Flight f) → ℕ
  landing clock none = clock
  landing clock (some flight) = flight.world.answered

  abbrev pub IsReplied : Option (Flight f) → Type 0
  IsReplied none = Unit
  IsReplied (some flight) = (resp : OracleResponse) × (call_claude f flight.world ≡ some resp)

  -- When a move happens, at the time `clock` or later.
  abbrev pub time_of : ℕ → Move f → Flights f → ℕ
  time_of clock (ticks w) s = w.now
  time_of clock (checks snaps w) s = w.now
  time_of clock (finishes who) s = landing clock (in_flight f who s)

  -- No move has a threshold breached, and each call is answered.
  abbrev pub IsQuiet : Move f → Flights f → Type 0
  IsQuiet (ticks w) s = breaches f s.oracle.cfg (snaps_of f w s.oracle) ≡ false
  IsQuiet (checks snaps w) s = breaches f s.oracle.cfg (snaps_of f w s.oracle) ≡ false
  IsQuiet (finishes who) s = IsReplied (in_flight f who s)

  -- Moves in the order of their times, from `clock` on.
  abbrev pub Timed : ℕ → List (Move f) → Flights f → Type 0
  Timed clock [] s = Unit
  Timed clock (m ∷ ms) s =
      (clock ≤ time_of clock m s) × IsQuiet m s × Timed (time_of clock m s) ms (move f m s)

  abbrev pub end : ℕ → List (Move f) → Flights f → ℕ
  end clock [] s = clock
  end clock (m ∷ ms) s = end (time_of clock m s) ms (move f m s)

  pub begin-busy :
      (by : Bool) (flight : Flight f) (w : World f) (s : Flights f)
      → in_flight f by s ≡ some flight
      → begin f by w s ≡ s
  unfolding begin
  begin-busy by flight w s e = rw (begin, e) refl

  pub begin-idle :
      (by : Bool) (w : World f) (s : Flights f)
      → in_flight f by s ≡ none
      → should_call f w.now (snaps_of f w s.oracle) s.oracle ≡ false
      → begin f by w s ≡ s
  unfolding begin
  begin-idle by w s e idle = rw (begin, e, idle) refl

  pub begin-asks :
      (by : Bool) (w : World f) (s : Flights f)
      → in_flight f by s ≡ none
      → should_call f w.now (snaps_of f w s.oracle) s.oracle ≡ true
      → begin f by w s ≡ put f by (some (record { world = w; snaps = snaps_of f w s.oracle })) s
  unfolding begin snaps_of
  begin-asks by w s e asked = rw (begin, e, asked) refl

  pub finish-none : (by : Bool) (s : Flights f) → in_flight f by s ≡ none → finish f by s ≡ s
  unfolding finish
  finish-none by s e = rw (finish, e) refl

  abbrev pub landed : Bool → Flight f → Flights f → Flights f
  landed by flight s =
      let w = flight.world in
      record (put f by none s) { oracle = conclude f w flight.snaps (call_claude f w) s.oracle }

  pub finish-lands :
      (by : Bool) (flight : Flight f) (s : Flights f)
      → in_flight f by s ≡ some flight
      → finish f by s ≡ landed by flight s
  unfolding finish conclude
  finish-lands by flight s e = rw (finish, e) refl

  pub asks-lands :
      (who by : Bool) (flight : Flight f) (s : Flights f)
      → in_flight f by s ≡ some flight
      → asks who s (landed by flight s) ≡ 0
  asks-lands true true flight s e = rw (e) refl
  asks-lands false false flight s e = rw (e) refl
  asks-lands true false flight s e = ground arith
  asks-lands false true flight s e = ground arith

  -- An analysis that nothing comes between is that of the engine in one step.
  pub analyze-alone :
      (w : World f) (o : Oracle f)
      → finish f true (begin f true w (grounded o)) ≡ grounded (analyze f w o)
  unfolding finish begin analyze
  analyze-alone w o = elim (Bool-cases (should_call f w.now (snaps_of f w o) o)) [
    | inl asked ↦ rw (asked) refl
    | inr idle ↦ rw (idle) refl
  ]
