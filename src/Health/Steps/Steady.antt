-- ===== src/Health/Steps/Steady.antt =====
-- What the balancer of a scan of internal/health/pulsescan.go holds while its goroutine pings.
use mathlib.Core.List.{append-nil, append_assoc}
use proxy_centauri.Prelude.{
  ◌≡◌, refl, sym, ap, subst, ◌∙◌, eq_iff, String, Bool, true, false, List, [], ◌∷◌, ◌++◌, ◌⊎◌, inl,
  inr, Bool-cases, arith, contains, Dict, insert, not, if◌then◌else◌,
}
use proxy_centauri.Balancer.{Balancer, addrs_of}
use proxy_centauri.Balancer.Interface.{addrs_of-set_backends}
use proxy_centauri.Health.{PulseScan, Network, is_healthy, live_of, set_all, ping}
use proxy_centauri.Health.Check.{Distinct, is_healthy-insert, live_of-insert}
use proxy_centauri.Health.Sync.{InSync, set_all-InSync, contains-live_of}
use proxy_centauri.Health.Steps.{Phase, waits, at_head, at_ping, Watch, finish, step_from, step}

-- What a check has behind it: the addresses before those that are left, and which are healthy.
abbrev Part : PulseScan → List String → List String → Type 0
Part ps left live =
    (done : List String) × (ps.all ≡ done ++ left) × (live_of ps.healthy done ≡ live)

-- Without a change the balancer still has what is healthy.
abbrev Told : PulseScan → Bool → Type 0
Told ps changed = (changed ≡ true) ⊎ (addrs_of ps.balancer ≡ live_of ps.healthy ps.all)

abbrev Tells : PulseScan → Phase → Type 0
Tells ps waits = addrs_of ps.balancer ≡ live_of ps.healthy ps.all
Tells ps (at_head left live changed) = Part ps left live × Told ps changed
Tells ps (at_ping addr was left live changed) =
    Part ps (addr ∷ left) live × Told ps changed × (is_healthy ps.healthy addr ≡ was)

-- The watched addresses are distinct, the balancer holds none but them, and exactly the healthy ones
-- while no check is under way that saw a change.
pub record Steady (ps : PulseScan) (phase : Phase) : Type 0 where
  pub distinct : Distinct ps.all
  pub within : (a : String) → contains a (addrs_of ps.balancer) ≡ true → contains a ps.all ≡ true
  pub tells : Tells ps phase

live_of-append :
    (m : Dict Bool) (xs ys : List String) → live_of m (xs ++ ys) ≡ live_of m xs ++ live_of m ys
unfolding live_of
live_of-append m [] ys = refl
live_of-append m (x ∷ xs) ys = ground (arith, live_of-append m xs ys)

contains-append :
    (a : String) (xs ys : List String)
    → contains a (xs ++ ys) ≡ false
    → (contains a xs ≡ false) × (contains a ys ≡ false)
contains-append a [] ys h = (refl, h)
contains-append a (x ∷ xs) ys h = ground (arith, h, contains-append a xs ys)

Distinct-middle :
    (done : List String) (a : String) (left : List String)
    → Distinct (done ++ a ∷ left)
    → contains a done ≡ false
Distinct-middle [] a left d = refl
Distinct-middle (x ∷ done) a left d = ground (
  arith,
  contains-append x done (a ∷ left) d.0,
  Distinct-middle done a left d.1,
  eq_iff a x,
  eq_iff x a,
)

-- To store for an address what is held for it changes nothing.
live_of-same :
    (a : String) (v : Bool) (m : Dict Bool) (addrs : List String)
    → is_healthy m a ≡ v
    → live_of (insert a v m) addrs ≡ live_of m addrs
unfolding live_of
live_of-same a v m [] h = refl
live_of-same a v m (x ∷ addrs) h =
    ground (arith, live_of-same a v m addrs h, is_healthy-insert a x v m, h, eq_iff a x)

-- A change of the balancer that keeps its addresses.
pub balancer-Steady :
    (b : Balancer) (ps : PulseScan) (phase : Phase)
    → addrs_of b ≡ addrs_of ps.balancer
    → Steady ps phase
    → Steady (record ps { balancer = b }) phase
balancer-Steady b ps phase e v = record {
  distinct = v.distinct;
  within = λ a h. v.within a (ap (contains a) (sym e) ∙ h);
  tells = go phase v.tells;
}
  where
    told : (changed : Bool) → Told ps changed → Told (record ps { balancer = b }) changed
    told changed (inl c) = inl c
    told changed (inr h) = inr (e ∙ h)

    go : (phase : Phase) → Tells ps phase → Tells (record ps { balancer = b }) phase
    go waits h = e ∙ h
    go (at_head left live changed) (part, t) = (part, told changed t)
    go (at_ping addr was left live changed) (part, t, h) = (part, told changed t, h)

pub InSync-Steady : (ps : PulseScan) → InSync ps → Steady ps waits
InSync-Steady ps v = record {
  distinct = v.distinct;
  within = λ a h. (contains-live_of ps.healthy ps.all a (ap (contains a) (sym v.balanced) ∙ h)).1;
  tells = v.balanced;
}

-- At the end of a check the balancer has what is healthy, whether it saw a change or not.
finish-InSync :
    (live : List String) (changed : Bool) (ps : PulseScan)
    → Distinct ps.all
    → Part ps [] live
    → Told ps changed
    → InSync (finish live changed ps)
unfolding finish
finish-InSync live changed ps d (done, e, h) t =
    let all : live_of ps.healthy ps.all ≡ live =
      ap (live_of ps.healthy) (e ∙ append-nil done) ∙ h in
    record {
      distinct = d;
      balanced = ground (arith, all, t, addrs_of-set_backends live ps.balancer);
    }

-- The answer of an address that is not among those behind it.
ping-Part :
    (ps : PulseScan) (a : String) (now : Bool) (left live : List String)
    → Distinct ps.all
    → Part ps (a ∷ left) live
    → Part
        (record ps { healthy = insert a now ps.healthy })
        left
        (if now then live ++ a ∷ [] else live)
ping-Part ps a now left live d (done, e, h) =
    let apart = Distinct-middle done a left (subst Distinct e d) in
    let m = insert a now ps.healthy in
    let one : live_of m (a ∷ []) ≡ (if now then a ∷ [] else []) =
      unfold live_of in ground (arith, is_healthy-insert a a now ps.healthy, eq_iff a a) in
    let behind : live_of m (done ++ a ∷ []) ≡ live ++ (if now then a ∷ [] else []) =
      live_of-append m done (a ∷ [])
      ∙ ap (λ l. l ++ live_of m (a ∷ [])) (live_of-insert a now ps.healthy done apart ∙ h)
      ∙ ap (λ l. live ++ l) one in
    let shown : live ++ (if now then a ∷ [] else []) ≡ (if now then live ++ a ∷ [] else live) =
      elim now as (λ b. live ++ (if b then a ∷ [] else []) ≡ (if b then live ++ a ∷ [] else live)) [
        | true ↦ refl
        | false ↦ append-nil live
      ] in
    (done ++ a ∷ [], e ∙ sym (append_assoc done (a ∷ []) left), behind ∙ shown)

ping-Told :
    (ps : PulseScan) (a : String) (was now changed : Bool)
    → Told ps changed
    → is_healthy ps.healthy a ≡ was
    → Told
        (record ps { healthy = insert a now ps.healthy })
        (if (if was then not now else now) then true else changed)
ping-Told ps a was now changed t h = elim (Bool-cases (if was then not now else now)) [
  | inl e ↦ inl (rw e refl)
  | inr e ↦ rw e (ground (arith, t, live_of-same a now ps.healthy ps.all (ground (arith, h, e))))
]

step_from-Steady :
    (net : Network) (phase : Phase) (ps : PulseScan)
    → Steady ps phase
    → let w = step_from net phase ps in Steady w.scan w.phase
unfolding step_from live_of
step_from-Steady net waits ps v = record {
  distinct = v.distinct;
  within = v.within;
  tells = (([], refl, refl), inr v.tells);
}
step_from-Steady net (at_head [] live changed) ps v =
    InSync-Steady (finish live changed ps)
      (finish-InSync live changed ps v.distinct v.tells.0 v.tells.1)
step_from-Steady net (at_head (a ∷ left) live changed) ps v = record {
  distinct = v.distinct;
  within = v.within;
  tells = (v.tells.0, v.tells.1, refl);
}
step_from-Steady net (at_ping a was left live changed) ps v =
    let now = ping net ps.protocol a in
    let (part, t, h) = v.tells in
    record {
      distinct = v.distinct;
      within = v.within;
      tells = (ping-Part ps a now left live v.distinct part, ping-Told ps a was now changed t h);
    }

pub step-Steady :
    (net : Network) (w : Watch)
    → Steady w.scan w.phase
    → Steady (step net w).scan (step net w).phase
unfolding step
step-Steady net w v = step_from-Steady net w.phase w.scan v

-- A reload that finds no check under way.
pub set_all-Steady :
    (addresses : List String) (w : Watch)
    → Distinct addresses
    → w.phase ≡ waits
    → Steady (set_all addresses w.scan) w.phase
set_all-Steady addresses w d e =
    subst (Steady (set_all addresses w.scan)) (sym e)
      (InSync-Steady (set_all addresses w.scan) (set_all-InSync addresses w.scan d))
