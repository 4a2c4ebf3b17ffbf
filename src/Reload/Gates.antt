-- ===== src/Reload/Gates.antt =====
-- Starting the gates of a configuration of cmd/centauri/main.go, and reloading them, by name.
use Prim.Native.String.{String}
use proxy_centauri.Prelude.{
  ℕ, ◌≡◌, refl, sym, ap, subst, ◌∙◌, eq_iff, Bool, true, false, Option, none, some, List, [], ◌∷◌,
  map, if◌then◌else◌, str_eq, All, ◌⊎◌, inl, inr, Bool-cases, Option-cases, length, lookup,
  lookup-insert,
}
use proxy_centauri.Balancer.Interface.{addrs_of-new}
use proxy_centauri.Config.{JumpGate}
use proxy_centauri.Floats.{Float64}
use proxy_centauri.Health
use proxy_centauri.Health.{PulseScan, set_event_func, set_all}
use proxy_centauri.Health.Steps.{Watch, waits, on_scan}
use proxy_centauri.Health.Steps.Steady.{InSync-Steady}
use proxy_centauri.Health.Check.{Distinct}
use proxy_centauri.Health.Sync.{new-InSync}
use proxy_centauri.Reload.{
  addrs_in, modify, Running, scan_for, open_gate, open_gates, reload_gate, reload_gates,
}
use proxy_centauri.Reload.Scans.{get-modify_hit, get-modify_miss, get-added, get-All, All-modify}
use proxy_centauri.Reload.Kept.{IsScan, IsResting, set_all-IsScan}
use proxy_centauri.Reload.Names.{
  Follows, Agrees, grow-Follows, newest, kept, newest-if, kept-if, kept-none, apart, same_index,
  is_same, none_ne-some,
}

module _ (f : Float64) where
  abbrev pub AllDistinct : List (JumpGate f) → Type 0
  AllDistinct gates = All (λ g. Distinct (addrs_in g.star_systems)) gates

  -- The addresses of the last gate of a name.
  unfoldable pub last_named : String → List (JumpGate f) → Option (List String)
  last_named name [] = none
  last_named name (g ∷ gates) =
      newest (last_named name gates)
        (if str_eq g.name name then some (addrs_in g.star_systems) else none)

  -- A configuration moves a name that is watched to its own addresses, if it has some for it.
  abbrev pub moved : String → List (JumpGate f) → Option (List String) → Option (List String)
  moved name gates o = kept (last_named name gates) o

  abbrev opened : Bool → JumpGate f → Watch
  opened has_store g = record { scan = scan_for f has_store g; phase = waits }

  opened-IsScan :
      (has_store : Bool) (g : JumpGate f)
      → Distinct (addrs_in g.star_systems)
      → IsScan g.name (addrs_in g.star_systems) (opened has_store g)
  unfolding scan_for set_event_func Health.new
  opened-IsScan has_store g d =
      let addrs = addrs_in g.star_systems in
      let weights = map (λ ss. ss.weight) g.star_systems in
      let v =
        new-InSync g.name addrs g.protocol _ d (addrs_of-new addrs weights g.orbital_router) in
      elim has_store as (λ b. IsScan g.name addrs (opened b g)) [
        | true ↦ record {
          named = refl;
          watches = refl;
          steady =
              InSync-Steady (scan_for f true g)
                (record { distinct = v.distinct; balanced = v.balanced });
        }
        | false ↦ record {
          named = refl;
          watches = refl;
          steady = InSync-Steady (scan_for f false g) v;
        }
      ]

  open_gate-Follows :
      (g : JumpGate f) (name : String) (o : Option (List String)) (r : Running)
      → Distinct (addrs_in g.star_systems)
      → Follows name o r
      → Follows name
          (if str_eq g.name name then some (addrs_in g.star_systems) else o)
          (open_gate f g r)
  open_gate-Follows g name o r d v = elim (Bool-cases (str_eq g.name name)) [
    | inl same ↦ rw same (
        unfold open_gate in
        (
          length r.scans,
          opened r.has_store g,
          lookup-insert g.name name (length r.scans) r.registry ∙ rw same refl,
          get-added r.scans (opened r.has_store g),
          subst (λ n. IsScan n (addrs_in g.star_systems) (opened r.has_store g))
              ((eq_iff g.name name).0 same) (opened-IsScan r.has_store g d),
        ))
    | inr other ↦ rw other (
        unfold open_gate in
        grow-Follows name o r (opened r.has_store g) _
          (lookup-insert g.name name (length r.scans) r.registry ∙ rw other refl) v)
  ]

  -- Opening gates gives each name the addresses of its last gate.
  pub open_gates-Agrees :
      (gates : List (JumpGate f)) (expected : String → Option (List String)) (r : Running)
      → AllDistinct gates
      → Agrees expected r
      → Agrees (λ n. newest (last_named n gates) (expected n)) (open_gates f gates r)
  unfolding open_gates last_named
  open_gates-Agrees [] expected r d v name = v name
  open_gates-Agrees (g ∷ gates) expected r d v name =
      subst (λ o. Follows name o (open_gates f gates (open_gate f g r)))
        (newest-if (last_named name gates) (str_eq g.name name) (addrs_in g.star_systems)
          (expected name))
        (open_gates-Agrees gates _ (open_gate f g r) d.1
          (λ n. open_gate-Follows g n (expected n) r d.0 (v n)) name)

  reload_missing :
      (g : JumpGate f) (r : Running) → lookup g.name r.registry ≡ none → reload_gate f g r ≡ r
  unfolding reload_gate
  reload_missing g r e = rw (reload_gate, e) refl

  reload_found :
      (g : JumpGate f) (r : Running) (i : ℕ)
      → lookup g.name r.registry ≡ some i
      → reload_gate f g r
        ≡ record r { scans = modify i (on_scan (set_all (addrs_in g.star_systems))) r.scans }
  unfolding reload_gate
  reload_found g r i e = rw (reload_gate, e) refl

  -- A gate that is not registered has nothing to move.
  kept-missing :
      (g : JumpGate f) (name : String) (o : Option (List String)) (r : Running)
      → lookup g.name r.registry ≡ none
      → Follows name o r
      → Follows name
          (kept (if str_eq g.name name then some (addrs_in g.star_systems) else none) o)
          r
  kept-missing g name none r e v = v
  kept-missing g name (some addrs) r e (i, ps, l, h, w) = elim (Bool-cases (str_eq g.name name)) [
    | inl same ↦
        absurd
          (none_ne-some i (sym e ∙ ap (λ n. lookup n r.registry) ((eq_iff g.name name).0 same) ∙ l))
    | inr other ↦ rw other (i, ps, l, h, w)
  ]

  -- One that is registered moves its own scan and no other.
  kept-found :
      (g : JumpGate f) (name : String) (expected : String → Option (List String))
      (o : Option (List String)) (r : Running) (i : ℕ)
      → Distinct (addrs_in g.star_systems)
      → All IsResting r.scans
      → lookup g.name r.registry ≡ some i
      → Follows g.name (expected g.name) r
      → Follows name o r
      → Follows name
          (kept (if str_eq g.name name then some (addrs_in g.star_systems) else none) o)
          (record r { scans = modify i (on_scan (set_all (addrs_in g.star_systems))) r.scans })
  kept-found g name expected none r i d rests e u v = v
  kept-found g name expected (some addrs) r i d rests e u (j, ps, l, h, w) =
      elim (Bool-cases (str_eq g.name name)) [
        | inl same ↦ rw same (
          j,
          on_scan (set_all (addrs_in g.star_systems)) ps,
          l,
          get-modify_hit i j (on_scan (set_all (addrs_in g.star_systems))) r.scans ps
              (is_same i j (
                same_index i j
                  (sym e ∙ ap (λ n. lookup n r.registry) ((eq_iff g.name name).0 same) ∙ l)))
              h,
          set_all-IsScan name addrs (addrs_in g.star_systems) ps d
              (get-All IsResting j ps r.scans rests h) w,
        )
        | inr other ↦ rw other (
          j,
          ps,
          l,
          get-modify_miss i j (on_scan (set_all (addrs_in g.star_systems))) r.scans ps
              (apart g.name name (expected g.name) (some addrs) r i j other u (j, ps, l, h, w) e l)
              h,
          w,
        )
      ]

  reload_gate-Follows :
      (g : JumpGate f) (name : String) (expected : String → Option (List String)) (r : Running)
      → Distinct (addrs_in g.star_systems)
      → All IsResting r.scans
      → Agrees expected r
      → Follows name
          (kept
            (if str_eq g.name name then some (addrs_in g.star_systems) else none)
            (expected name))
          (reload_gate f g r)
  reload_gate-Follows g name expected r d rests v = elim (Option-cases (lookup g.name r.registry)) [
    | inl e ↦
        subst (Follows name _) (sym (reload_missing g r e))
          (kept-missing g name (expected name) r e (v name))
    | inr (i, e) ↦
        subst (Follows name _) (sym (reload_found g r i e))
          (kept-found g name expected (expected name) r i d rests e (v g.name) (v name))
  ]

  reload_gate-IsResting :
      (g : JumpGate f) (r : Running)
      → All IsResting r.scans
      → All IsResting (reload_gate f g r).scans
  reload_gate-IsResting g r rests = elim (Option-cases (lookup g.name r.registry)) [
    | inl e ↦ subst (λ x. All IsResting x.scans) (sym (reload_missing g r e)) rests
    | inr (i, e) ↦
        subst (λ (x : Running). All IsResting x.scans) (sym (reload_found g r i e))
          (All-modify IsResting (on_scan (set_all (addrs_in g.star_systems))) i r.scans (λ x h. h)
            rests)
  ]

  -- A reload of any gates, where no check is under way if there is one to reload.
  pub reload_gates-Agrees :
      (gates : List (JumpGate f)) (expected : String → Option (List String)) (r : Running)
      → AllDistinct gates
      → (gates ≡ []) ⊎ All IsResting r.scans
      → Agrees expected r
      → Agrees (λ n. moved n gates (expected n)) (reload_gates f gates r)
  unfolding reload_gates last_named
  reload_gates-Agrees [] expected r d quiet v name =
      subst (λ o. Follows name o r) (sym (kept-none (expected name))) (v name)
  reload_gates-Agrees (g ∷ gates) expected r d (inl e) v name = absurd cc
  reload_gates-Agrees (g ∷ gates) expected r d (inr rests) v name =
      subst (λ o. Follows name o (reload_gates f gates (reload_gate f g r)))
        (kept-if (last_named name gates) (str_eq g.name name) (addrs_in g.star_systems)
          (expected name))
        (reload_gates-Agrees gates _ (reload_gate f g r) d.1 (inr (reload_gate-IsResting g r rests))
          (λ n. reload_gate-Follows g n expected r d.0 rests v) name)
