-- ===== src/Health/Overlap.antt =====
-- A reload in the middle of a check of internal/health/pulsescan.go: `SetAll` of main's watcher
-- runs while the loop of `check` is at a ping.
use proxy_centauri.Prelude.{
  ℕ, zero, suc, ◌+◌, String, ◌≡◌, refl, ap, ◌∙◌, Bool, true, false, List, [], ◌∷◌, ◌++◌, inl, inr,
  Bool-cases, arith, take, drop, length, if◌then◌else◌, contains, ◌||◌,
}
use proxy_centauri.Balancer.{set_backends, addrs_of}
use proxy_centauri.Balancer.Interface.{addrs_of-set_backends}
use proxy_centauri.Health.{Network, PulseScan, Scan, Event, ping, check, set_all, scan, scan_one}
use proxy_centauri.Health.Events.{flips, flips-insert}
use proxy_centauri.Health.Check.{Distinct, answering, live-scan, changed-scan}

abbrev start : PulseScan → Scan
start ps = record { healthy = ps.healthy; live = []; changed = false; events = ps.events }

-- The loop over the first `k` addresses of the list that it began with; `SetAll`; the loop over the
-- others, then the end of `check`. `live` and `changed` are the check's own.
unfoldable pub check_around : ℕ → (ℕ → Network) → List String → PulseScan → PulseScan
unfolding scan scan_one set_all
check_around k nets addresses ps =
    let s = scan ps nets 0 (take k ps.all) (start ps) in
    let ps' = set_all addresses (record ps { healthy = s.healthy; events = s.events }) in
    let s' =
      scan ps' nets (length (take k ps.all)) (drop k ps.all) (record s { healthy = ps'.healthy }) in
    record ps' {
      healthy = s'.healthy;
      events = s'.events;
      balancer = if s'.changed then set_backends s'.live ps'.balancer else ps'.balancer;
    }

moved_in : (i n : ℕ) → i + suc n ≡ suc i + n
moved_in i n = omega arith

abbrev some_flip : List Event → Bool
some_flip [] = false
some_flip (e ∷ es) = true

answering-take :
    (nets : ℕ → Network) (protocol : String) (k i : ℕ) (addrs : List String)
    → answering nets protocol i (take k addrs)
        ++ answering nets protocol (i + length (take k addrs)) (drop k addrs)
      ≡ answering nets protocol i addrs
answering-take nets protocol zero i addrs = ap (λ j. answering nets protocol j addrs) (omega arith)
answering-take nets protocol (suc k) i [] = refl
answering-take nets protocol (suc k) i (a ∷ addrs) =
    let rest = answering-take nets protocol k (suc i) addrs in
    rw (moved_in i (length (take k addrs))) (elim (Bool-cases (ping (nets i) protocol a)) [
      | inl e ↦ rw e (ap (λ l. a ∷ l) rest)
      | inr e ↦ rw e rest
    ])

plus_zero : (n : ℕ) → n ≡ 0 + n
plus_zero n = omega arith

answering-halves :
    (nets : ℕ → Network) (protocol : String) (k : ℕ) (addrs : List String)
    → answering nets protocol 0 (take k addrs)
        ++ answering nets protocol (length (take k addrs)) (drop k addrs)
      ≡ answering nets protocol 0 addrs
answering-halves nets protocol k addrs =
    ap (λ j. answering nets protocol 0 (take k addrs) ++ answering nets protocol j (drop k addrs))
      (plus_zero (length (take k addrs)))
    ∙ answering-take nets protocol k 0 addrs

contains-take :
    (k : ℕ) (a : String) (addrs : List String)
    → contains a addrs ≡ false
    → contains a (take k addrs) ≡ false
contains-take zero a addrs h = refl
contains-take (suc k) a [] h = refl
contains-take (suc k) a (x ∷ addrs) h = ground (arith, contains-take k a addrs)

Distinct-take : (k : ℕ) (addrs : List String) → Distinct addrs → Distinct (take k addrs)
Distinct-take zero addrs d = tt
Distinct-take (suc k) [] d = tt
Distinct-take (suc k) (a ∷ addrs) d = (contains-take k a addrs d.0, Distinct-take k addrs d.1)

module _ (ps : PulseScan) (nets : ℕ → Network) where
  -- The loop sees a change just if an answer differs from the health before it.
  changed-flips :
      (i : ℕ) (addrs : List String) (s : Scan)
      → Distinct addrs
      → (scan ps nets i addrs s).changed
        ≡ (s.changed || some_flip (flips ps s.healthy nets i addrs))
  unfolding scan scan_one
  changed-flips i [] s d = ground arith
  changed-flips i (a ∷ addrs) s d =
      let now = ping (nets i) ps.protocol a in
      ground (
        arith,
        changed-flips (suc i) addrs (scan_one ps a now s) d.1,
        flips-insert ps nets (suc i) addrs s.healthy a now d.0,
      )

-- A check that finds every address as it is held leaves the balancer.
check-quiet :
    (nets : ℕ → Network) (ps : PulseScan)
    → Distinct ps.all
    → flips ps ps.healthy nets 0 ps.all ≡ []
    → (check nets ps).balancer ≡ ps.balancer
unfolding check
check-quiet nets ps d h = rw (changed-flips ps nets 0 ps.all (start ps) d, h) refl

-- After a check that saw a change before the reload, the balancer has the old list's addresses that
-- answered.
balanced :
    (k : ℕ) (nets : ℕ → Network) (addresses : List String) (ps : PulseScan) (e : Event)
    (es : List Event)
    → Distinct ps.all
    → flips ps ps.healthy nets 0 (take k ps.all) ≡ e ∷ es
    → addrs_of (check_around k nets addresses ps).balancer ≡ answering nets ps.protocol 0 ps.all
unfolding check_around
balanced k nets addresses ps e es d h =
    let front = take k ps.all in
    let s = scan ps nets 0 front (start ps) in
    let ps' = set_all addresses (record ps { healthy = s.healthy; events = s.events }) in
    let s0 = record s { healthy = ps'.healthy } in
    let seen : s.changed ≡ true =
      changed-flips ps nets 0 front (start ps) (Distinct-take k ps.all d) ∙ rw h refl in
    rw (changed-scan ps' nets (length front) (drop k ps.all) s0 seen) (
      addrs_of-set_backends _ _
      ∙ live-scan ps' nets (length front) (drop k ps.all) s0
      ∙ ap (λ l. l ++ answering nets ps.protocol (length front) (drop k ps.all))
          (live-scan ps nets 0 front (start ps))
      ∙ answering-halves nets ps.protocol k ps.all)

-- A reload in the middle of a check, after a ping whose answer was a change. The scan watches the
-- addresses of the reload, but its balancer gets those of the old list that answered; and a later
-- check that finds each address as the scan holds it does not mend that. No list has an address
-- twice.
pub overlap-stale :
    (k : ℕ) (nets later : ℕ → Network) (addresses : List String) (ps : PulseScan) (e : Event)
    (es : List Event)
    → Distinct ps.all
    → Distinct addresses
    → flips ps ps.healthy nets 0 (take k ps.all) ≡ e ∷ es
    → (let ps' = check_around k nets addresses ps in flips ps' ps'.healthy later 0 addresses ≡ [])
    → let ps' = check_around k nets addresses ps in
      (ps'.all ≡ addresses)
      × (addrs_of ps'.balancer ≡ answering nets ps.protocol 0 ps.all)
      × (addrs_of (check later ps').balancer ≡ answering nets ps.protocol 0 ps.all)
unfolding check_around
overlap-stale k nets later addresses ps e es d n h q = (
  refl,
  balanced k nets addresses ps e es d h,
  ap addrs_of (check-quiet later (check_around k nets addresses ps) n q)
      ∙ balanced k nets addresses ps e es d h,
)
