-- ===== src/Oracle/Flights/Paid.antt =====
-- The time that a goroutine of internal/oracle/oracle.go has for its calls of Claude.
use proxy_centauri.Prelude.{
  ℕ, ◌+◌, ◌-◌, ◌*◌, ◌≤◌, ◌≡◌, refl, sym, subst, ap, ◌∙◌, Bool, true, false, Option, none, some,
  arith, if◌then◌else◌, Bool-cases, Option-cases, inl, inr,
}
use proxy_centauri.Floats.{Float64}
use proxy_centauri.Config.{OracleConfig}
use proxy_centauri.Oracle.Engine.{
  OracleResponse, Oracle, World, call_claude, should_call, snaps_of, breaches,
}
use proxy_centauri.Oracle.Engine.Calls.{Fits, period, due, cfg-conclude, last-conclude}
use proxy_centauri.Oracle.Flights.{
  Flight, Flights, in_flight, put, begin, finish, Move, ticks, checks, finishes, move,
}
use proxy_centauri.Oracle.Flights.Steps.{
  is_some, flies, asks, landing, IsReplied, time_of, IsQuiet, begin-busy, begin-idle, begin-asks,
  finish-none, finish-lands, asks-lands,
}

module _ (f : Float64) where
  module _ (cfg : OracleConfig f) (fits : Fits f cfg) (t : ℕ) where
    -- After `n` calls: `spent` is the time that they account for.
    pub record Paid (who : Bool) (n clock : ℕ) (s : Flights f) : Type 0 where
      pub last : ℕ
      pub spent : ℕ
      pub same : s.oracle.cfg ≡ cfg
      pub is_last : s.oracle.last_call ≡ some last
      pub last_past : last ≤ clock
      pub paid : t + n * period f cfg ≤ spent
      pub spent_past : spent ≤ clock
      pub waits : flies f who s ≡ false → spent ≤ last

    later :
        (who : Bool) (n clock clock' : ℕ) (s : Flights f)
        → clock ≤ clock'
        → Paid who n clock s
        → Paid who n clock' s
    later who n clock clock' s l h = record {
      last = h.last;
      spent = h.spent;
      same = h.same;
      is_last = h.is_last;
      last_past = omega (arith, h.last_past, l);
      paid = h.paid;
      spent_past = omega (arith, h.spent_past, l);
      waits = h.waits;
    }

    asks-same : (who : Bool) (s : Flights f) → asks f who s s ≡ 0
    asks-same who s = ground arith

    -- A move that leaves the goroutine and the engine as they are.
    idle-Paid :
        (who : Bool) (n clock clock' a : ℕ) (s s' : Flights f)
        → clock ≤ clock'
        → a ≡ 0
        → s'.oracle ≡ s.oracle
        → flies f who s' ≡ flies f who s
        → Paid who n clock s
        → Paid who (n + a) clock' s'
    idle-Paid who n clock clock' a s s' l none_asked e e' h = record {
      last = h.last;
      spent = h.spent;
      same = ap (λ (o : Oracle f). o.cfg) e ∙ h.same;
      is_last = ap (λ (o : Oracle f). o.last_call) e ∙ h.is_last;
      last_past = omega (arith, h.last_past);
      paid = rw (none_asked) (subst (λ k. t + k * period f cfg ≤ h.spent) (omega arith) h.paid);
      spent_past = omega (arith, h.spent_past);
      waits = λ x. h.waits (sym e' ∙ x);
    }

    -- A call pays with the interval before it.
    pay :
        (n p last spent now : ℕ)
        → t + n * p ≤ spent
        → spent ≤ last
        → p ≤ now - last
        → last ≤ now
        → t + (n + 1) * p ≤ now
    pay n p last spent now h k l m = omega arith

    asked-Paid :
        (who : Bool) (w : World f) (n a : ℕ) (s s' : Flights f)
        → breaches f s.oracle.cfg (snaps_of f w s.oracle) ≡ false
        → flies f who s ≡ false
        → should_call f w.now (snaps_of f w s.oracle) s.oracle ≡ true
        → a ≡ 1
        → s'.oracle ≡ s.oracle
        → flies f who s' ≡ true
        → Paid who n w.now s
        → Paid who (n + a) w.now s'
    asked-Paid who w n a s s' quiet free asked one e waiting h =
        let o = s.oracle in
        let snaps = snaps_of f w o in
        let fits' = subst (Fits f) (sym h.same) fits in
        let long : period f cfg ≤ w.now - h.last =
          subst (λ c. period f c ≤ w.now - h.last) h.same
            (due f o h.last w.now snaps fits' h.is_last quiet asked) in
        record {
          last = h.last;
          spent = w.now;
          same = ap (λ (x : Oracle f). x.cfg) e ∙ h.same;
          is_last = ap (λ (x : Oracle f). x.last_call) e ∙ h.is_last;
          last_past = h.last_past;
          paid =
              rw (one)
                (pay n (period f cfg) h.last h.spent w.now h.paid (h.waits free) long h.last_past);
          spent_past = omega arith;
          waits = λ x. absurd (ground (arith, x, waiting));
        }

    begun-Paid :
        (who by : Bool) (w : World f) (n : ℕ) (s : Flights f)
        → breaches f s.oracle.cfg (snaps_of f w s.oracle) ≡ false
        → in_flight f by s ≡ none
        → should_call f w.now (snaps_of f w s.oracle) s.oracle ≡ true
        → Paid who n w.now s
        → let flight : Flight f = record { world = w; snaps = snaps_of f w s.oracle } in
          let s' = put f by (some flight) s in Paid who (n + asks f who s s') w.now s'
    begun-Paid true true w n s quiet e asked h =
        asked-Paid true w n _ s _ quiet (ap (is_some f) e) asked (rw (e) refl) refl refl h
    begun-Paid false false w n s quiet e asked h =
        asked-Paid false w n _ s _ quiet (ap (is_some f) e) asked (rw (e) refl) refl refl h
    begun-Paid true false w n s quiet e asked h =
        idle-Paid true n w.now w.now _ s _ (omega arith) (ground arith) refl refl h
    begun-Paid false true w n s quiet e asked h =
        idle-Paid false n w.now w.now _ s _ (omega arith) (ground arith) refl refl h

    begin-Paid :
        (who by : Bool) (w : World f) (n : ℕ) (s : Flights f)
        → breaches f s.oracle.cfg (snaps_of f w s.oracle) ≡ false
        → Paid who n w.now s
        → Paid who (n + asks f who s (begin f by w s)) w.now (begin f by w s)
    begin-Paid who by w n s quiet h =
        let stays =
          idle-Paid who n w.now w.now (asks f who s s) s s (omega arith) (asks-same who s) refl refl
            h in
        elim (Option-cases (in_flight f by s)) [
          | inr (flight, e) ↦
              subst (λ s'. Paid who (n + asks f who s s') w.now s')
                (sym (begin-busy f by flight w s e)) stays
          | inl e ↦ elim (Bool-cases (should_call f w.now (snaps_of f w s.oracle) s.oracle)) [
            | inl asked ↦
                subst (λ s'. Paid who (n + asks f who s s') w.now s')
                  (sym (begin-asks f by w s e asked)) (begun-Paid who by w n s quiet e asked h)
            | inr idle ↦
                subst (λ s'. Paid who (n + asks f who s s') w.now s')
                  (sym (begin-idle f by w s e idle)) stays
          ]
        ]

    -- An answer gives each goroutine that is not waiting the time back.
    landed-Paid :
        (who : Bool) (n clock clock' a : ℕ) (s s' : Flights f)
        → clock ≤ clock'
        → a ≡ 0
        → s'.oracle.cfg ≡ s.oracle.cfg
        → s'.oracle.last_call ≡ some clock'
        → Paid who n clock s
        → Paid who (n + a) clock' s'
    landed-Paid who n clock clock' a s s' l none_asked e e' h = record {
      last = clock';
      spent = h.spent;
      same = e ∙ h.same;
      is_last = e';
      last_past = omega arith;
      paid = rw (none_asked) (subst (λ k. t + k * period f cfg ≤ h.spent) (omega arith) h.paid);
      spent_past = omega (arith, h.spent_past, l);
      waits = λ x. omega (arith, h.spent_past, l);
    }

    finish-Paid :
        (who by : Bool) (flight : Flight f) (resp : OracleResponse) (n clock : ℕ) (s : Flights f)
        → in_flight f by s ≡ some flight
        → call_claude f flight.world ≡ some resp
        → clock ≤ flight.world.answered
        → Paid who n clock s
        → Paid who (n + asks f who s (finish f by s)) flight.world.answered (finish f by s)
    finish-Paid who by flight resp n clock s e reply l h =
        let w = flight.world in
        let answer = call_claude f w in
        subst (λ s'. Paid who (n + asks f who s s') w.answered s')
          (sym (finish-lands f by flight s e))
          (landed-Paid who n clock w.answered _ s _ l (asks-lands f who by flight s e)
            (cfg-conclude f w flight.snaps answer s.oracle)
            (last-conclude f w flight.snaps answer s.oracle resp reply) h)

    finishes-Paid :
        (who by : Bool) (o : Option (Flight f)) (n clock : ℕ) (s : Flights f)
        → in_flight f by s ≡ o
        → clock ≤ landing f clock o
        → IsReplied f o
        → Paid who n clock s
        → Paid who (n + asks f who s (finish f by s)) (landing f clock o) (finish f by s)
    finishes-Paid who by none n clock s e l replied h =
        subst (λ s'. Paid who (n + asks f who s s') clock s') (sym (finish-none f by s e))
          (idle-Paid who n clock clock _ s s (omega arith) (asks-same who s) refl refl h)
    finishes-Paid who by (some flight) n clock s e l (resp, reply) h =
        finish-Paid who by flight resp n clock s e reply l h

    pub move-Paid :
        (who : Bool) (m : Move f) (n clock : ℕ) (s : Flights f)
        → clock ≤ time_of f clock m s
        → IsQuiet f m s
        → Paid who n clock s
        → Paid who (n + asks f who s (move f m s)) (time_of f clock m s) (move f m s)
    unfolding move
    move-Paid who (ticks w) n clock s l quiet h =
        begin-Paid who true w n s quiet (later who n clock w.now s l h)
    move-Paid who (checks snaps w) n clock s l quiet h =
        let h' = later who n clock w.now s l h in
        elim (should_call f w.now snaps s.oracle)
          as (λ b.
            let s' = if b then begin f false w s else s in
            Paid who (n + asks f who s s') w.now s') [
              | true ↦ begin-Paid who false w n s quiet h'
              | false ↦
                  idle-Paid who n w.now w.now _ s s (omega arith) (asks-same who s) refl refl h'
            ]
    move-Paid who (finishes by) n clock s l quiet h =
        finishes-Paid who by (in_flight f by s) n clock s refl l quiet h
