-- ===== src/Reload/Watched.antt =====
-- What each gate of cmd/centauri/main.go watches after events of the watcher and checks.
use Prim.Native.String.{String}
use proxy_centauri.Prelude.{
  ◌≡◌, refl, sym, ap, subst, ◌∙◌, Bool, true, false, ◌||◌, Option, none, some, List, [], ◌∷◌, ◌++◌,
  if◌then◌else◌, str_eq, lookup, All, ◌⊎◌,
}
use proxy_centauri.Config.{JumpGate, Config, load}
use proxy_centauri.Floats.{Float64}
use proxy_centauri.Health.{Event}
use proxy_centauri.Health.Steps.{step, on_scan}
use proxy_centauri.Reload.{
  addrs_in, modify, Running, start, on_change, Move, file_event, checks, routes, ends, route,
  let_go, on_event, move, run,
}
use proxy_centauri.Reload.Kept.{IsResting, step-IsScan, route-IsScan, let_go-IsScan}
use proxy_centauri.Reload.Names.{Follows, Agrees, modify-Follows, newest, kept, kept-none}
use proxy_centauri.Reload.Gates.{
  AllDistinct, last_named, moved, open_gates-Agrees, reload_gates-Agrees,
}

-- LogEvent changes no scan.
events-Follows :
    (name : String) (o : Option (List String)) (r : Running) (events : List Event)
    → Follows name o r
    → Follows name o (record r { events = events })
events-Follows name none r events v = v
events-Follows name (some addrs) r events v = v

kept-newest :
    (later before o : Option (List String))
    → kept (newest later before) o ≡ kept later (kept before o)
kept-newest later before none = refl
kept-newest none none (some x) = refl
kept-newest none (some y) (some x) = refl
kept-newest (some z) none (some x) = refl
kept-newest (some z) (some y) (some x) = refl

newest-none : (o : Option (List String)) → newest o none ≡ o
newest-none none = refl
newest-none (some x) = refl

newest_assoc : (a b c : Option (List String)) → newest a (newest b c) ≡ newest (newest a b) c
newest_assoc none b c = refl
newest_assoc (some x) b c = refl

module _ (f : Float64) where
  last_named-append :
      (name : String) (xs ys : List (JumpGate f))
      → last_named f name (xs ++ ys) ≡ newest (last_named f name ys) (last_named f name xs)
  unfolding last_named
  last_named-append name [] ys = sym (newest-none (last_named f name ys))
  last_named-append name (x ∷ xs) ys =
      ap (λ o. newest o (if str_eq x.name name then some (addrs_in x.star_systems) else none))
        (last_named-append name xs ys)
      ∙ sym (newest_assoc (last_named f name ys) (last_named f name xs) _)

  AllDistinct-append :
      (xs ys : List (JumpGate f)) → AllDistinct f (xs ++ ys) → AllDistinct f xs × AllDistinct f ys
  AllDistinct-append [] ys h = (tt, h)
  AllDistinct-append (x ∷ xs) ys h = let (l, r) = AllDistinct-append xs ys h.1 in ((h.0, l), r)

  module _ {Bytes : Type 0} (unmarshal : Bytes → Option (Config f)) (env : String → String) where
    -- The gates of the configuration that an event loads, if it does.
    abbrev loaded_gates : Bool → Bool → Option Bytes → List (JumpGate f)
    loaded_gates has_write has_create contents =
        if has_write || has_create
        then elim (load f unmarshal env contents) [ none ↦ [] | some cfg ↦ cfg.jump_gates ]
        else []

    -- The gates of all configurations that are loaded, in their order.
    unfoldable pub all_loaded : List (Move f Bytes) → List (JumpGate f)
    all_loaded [] = []
    all_loaded (file_event has_write has_create contents ∷ ms) =
        loaded_gates has_write has_create contents ++ all_loaded ms
    all_loaded (checks i net ∷ ms) = all_loaded ms
    all_loaded (routes i ∷ ms) = all_loaded ms
    all_loaded (ends i addr ∷ ms) = all_loaded ms

    -- Every file with gates is loaded while no check is under way.
    abbrev pub Quiet : List (Move f Bytes) → Running → Type 0
    Quiet [] r = Unit
    Quiet (file_event has_write has_create contents ∷ ms) r =
        ((loaded_gates has_write has_create contents ≡ []) ⊎ All IsResting r.scans)
        × Quiet ms (move f unmarshal env (file_event has_write has_create contents) r)
    Quiet (checks i net ∷ ms) r = Quiet ms (move f unmarshal env (checks i net) r)
    Quiet (routes i ∷ ms) r = Quiet ms (move f unmarshal env (routes i) r)
    Quiet (ends i addr ∷ ms) r = Quiet ms (move f unmarshal env (ends i addr) r)

    on_change-Agrees :
        (cfg : Config f) (expected : String → Option (List String)) (r : Running)
        → AllDistinct f cfg.jump_gates
        → (cfg.jump_gates ≡ []) ⊎ All IsResting r.scans
        → Agrees expected r
        → Agrees (λ n. moved f n cfg.jump_gates (expected n)) (on_change f cfg r)
    unfolding on_change
    on_change-Agrees cfg expected r d quiet v =
        reload_gates-Agrees f cfg.jump_gates expected _ d quiet
          (λ n. events-Follows n (expected n) r _ (v n))

    on_event-Agrees :
        (w c : Bool) (contents : Option Bytes) (expected : String → Option (List String))
        (r : Running)
        → AllDistinct f (loaded_gates w c contents)
        → (loaded_gates w c contents ≡ []) ⊎ All IsResting r.scans
        → Agrees expected r
        → Agrees
            (λ n. moved f n (loaded_gates w c contents) (expected n))
            (on_event f unmarshal env w c contents r)
    unfolding on_event
    on_event-Agrees w c contents expected r d quiet v =
        go (w || c) (load f unmarshal env contents) d quiet
      where
        go :
            (b : Bool) (o : Option (Config f))
            → AllDistinct f (if b then elim o [ none ↦ [] | some cfg ↦ cfg.jump_gates ] else [])
            → ((if b then elim o [ none ↦ [] | some cfg ↦ cfg.jump_gates ] else []) ≡ [])
              ⊎ All IsResting r.scans
            → Agrees
                (λ n.
                  moved f n
                    (if b then elim o [ none ↦ [] | some cfg ↦ cfg.jump_gates ] else [])
                    (expected n))
                (if b then elim o [ none ↦ r | some cfg ↦ on_change f cfg r ] else r)
        go false o k q n =
            unfold last_named in subst (λ x. Follows n x r) (sym (kept-none (expected n))) (v n)
        go true none k q n =
            unfold last_named in subst (λ x. Follows n x r) (sym (kept-none (expected n))) (v n)
        go true (some cfg) k q n = on_change-Agrees cfg expected r k q v n

    run-Agrees :
        (ms : List (Move f Bytes)) (expected : String → Option (List String)) (r : Running)
        → AllDistinct f (all_loaded ms)
        → Quiet ms r
        → Agrees expected r
        → Agrees (λ n. moved f n (all_loaded ms) (expected n)) (run f unmarshal env ms r)
    unfolding run move all_loaded last_named
    run-Agrees [] expected r d quiet v n =
        subst (λ x. Follows n x r) (sym (kept-none (expected n))) (v n)
    run-Agrees (file_event w c contents ∷ ms) expected r d quiet v n =
        let (now, later) = AllDistinct-append (loaded_gates w c contents) (all_loaded ms) d in
        subst (λ x. Follows n x (run f unmarshal env ms (on_event f unmarshal env w c contents r)))
          (sym (
            ap (λ o. kept o (expected n))
              (last_named-append n (loaded_gates w c contents) (all_loaded ms))
            ∙ kept-newest _ _ (expected n)))
          (run-Agrees ms _ (on_event f unmarshal env w c contents r) later quiet.1
            (on_event-Agrees w c contents expected r now quiet.0 v) n)
    run-Agrees (checks i net ∷ ms) expected r d quiet v n =
        run-Agrees ms expected (record r { scans = modify i (step net) r.scans }) d quiet
          (λ m.
            modify-Follows i (step net) m (expected m) r (λ addrs w. step-IsScan m addrs net w)
              (v m))
          n
    run-Agrees (routes i ∷ ms) expected r d quiet v n =
        run-Agrees ms expected (record r { scans = modify i (on_scan route) r.scans }) d quiet
          (λ m.
            modify-Follows i (on_scan route) m (expected m) r (λ addrs ps. route-IsScan m addrs ps)
              (v m))
          n
    run-Agrees (ends i addr ∷ ms) expected r d quiet v n =
        run-Agrees ms expected (record r { scans = modify i (on_scan (let_go addr)) r.scans }) d
          quiet
          (λ m.
            modify-Follows i (on_scan (let_go addr)) m (expected m) r
              (λ addrs ps. let_go-IsScan m addrs addr ps) (v m))
          n

    -- Started with a configuration, after any events of the watcher, loads that fail, requests, and
    -- single steps of the checks, a ping's begin and its answer included, in any order, where no
    -- gate lists an address twice and no file with gates is loaded while a check is under way: the
    -- registry has no scan for a name that the start did not have, whatever was loaded since, and
    -- one for any other. This scan watches the addresses that the last gate of its name has, in the
    -- configurations that were loaded since, or else at the start, and its balancer holds none but
    -- those; while no check of it is under way that has seen a change, exactly those that the scan
    -- has for healthy.
    pub Follows-run :
        (cfg : Config f) (ms : List (Move f Bytes)) (name : String)
        → AllDistinct f cfg.jump_gates
        → AllDistinct f (all_loaded ms)
        → Quiet ms (start f cfg)
        → Follows name
            (kept (last_named f name (all_loaded ms)) (last_named f name cfg.jump_gates))
            (run f unmarshal env ms (start f cfg))
    unfolding start lookup
    Follows-run cfg ms name d k quiet =
        run-Agrees ms (λ n. last_named f n cfg.jump_gates) (start f cfg) k quiet started name
      where
        started : Agrees (λ n. last_named f n cfg.jump_gates) (start f cfg)
        started n =
            subst (λ o. Follows n o (start f cfg)) (newest-none (last_named f n cfg.jump_gates))
              (open_gates-Agrees f cfg.jump_gates (λ m. none) _ d (λ m. refl) n)
