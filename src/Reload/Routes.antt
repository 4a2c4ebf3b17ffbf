-- ===== src/Reload/Routes.antt =====
-- Where the gates of cmd/centauri/main.go send a request.
use Prim.Native.String.{String}
use proxy_centauri.Prelude.{
  Bool, true, false, inl, inr, arith, ℕ, ◌≡◌, subst, Option, none, some, List, [], ◌⊎◌, contains,
  lookup,
}
use proxy_centauri.Balancer.{next}
use proxy_centauri.Config.{Config}
use proxy_centauri.Floats.{Float64}
use proxy_centauri.Balancer.{addrs_of}
use proxy_centauri.Balancer.Interface.{next-Answers}
use proxy_centauri.Health.{PulseScan, is_healthy, live_of}
use proxy_centauri.Health.Steps.{Phase, waits, at_head, at_ping, Watch}
use proxy_centauri.Health.Steps.Steady.{Steady}
use proxy_centauri.Health.Sync.{next-healthy}
use proxy_centauri.Reload.{Move, Running, run, start}
use proxy_centauri.Reload.Scans.{get_elem?}
use proxy_centauri.Reload.Names.{Follows, kept}
use proxy_centauri.Reload.Gates.{AllDistinct, last_named}
use proxy_centauri.Reload.Watched.{all_loaded, Quiet, Follows-run}

-- Whether a check is under way that has seen a change, and has not told the balancer yet.
abbrev pub sees_change : Phase → Bool
sees_change waits = false
sees_change (at_head left live changed) = changed
sees_change (at_ping addr was left live changed) = changed

-- What the next request of a scan gets, if it watches `addrs`: none that is live, and "", or one of
-- them that is healthy; or, while a check has seen a change, none or one of them.
abbrev pub Routed : List String → Watch → Type 0
Routed addrs w =
    let ps = w.scan in
    let a = (next ps.balancer).0 in
    ((a ≡ "") × (live_of ps.healthy addrs ≡ []))
    ⊎ (((is_healthy ps.healthy a ≡ true) × (contains a addrs ≡ true))
        ⊎ ((sees_change w.phase ≡ true) × ((a ≡ "") ⊎ (contains a addrs ≡ true))))

-- The same of the scan that the registry has for a name.
abbrev pub RoutedBy : String → Option (List String) → Running → Type 0
RoutedBy name none r = lookup name r.registry ≡ none
RoutedBy name (some addrs) r =
    (i : ℕ) × (w : Watch) × (lookup name r.registry ≡ some i)
    × (get_elem? r.scans i ≡ some w)
    × Routed addrs w

-- The balancer has what is healthy, or a check has seen a change.
told-or-sees :
    (ps : PulseScan) (phase : Phase)
    → Steady ps phase
    → (addrs_of ps.balancer ≡ live_of ps.healthy ps.all) ⊎ (sees_change phase ≡ true)
told-or-sees ps waits v = inl v.tells
told-or-sees ps (at_head left live changed) v = ground (arith, v.tells.1)
told-or-sees ps (at_ping addr was left live changed) v = ground (arith, v.tells.1)

some-within :
    (ps : PulseScan) (phase : Phase)
    → Steady ps phase
    → let a = (next ps.balancer).0 in (a ≡ "") ⊎ (contains a ps.all ≡ true)
some-within ps phase v = ground (arith, next-Answers ps.balancer, v.within (next ps.balancer).0)

Steady-Routed : (w : Watch) → Steady w.scan w.phase → Routed w.scan.all w
Steady-Routed w v = elim (told-or-sees w.scan w.phase v) [
  | inl told ↦ elim (next-healthy w.scan (record { distinct = v.distinct; balanced = told })) [
    | inl none_live ↦ inl none_live
    | inr live ↦ inr (inl live)
  ]
  | inr sees ↦ inr (inr (sees, some-within w.scan w.phase v))
]

Follows-RoutedBy :
    (name : String) (o : Option (List String)) (r : Running) → Follows name o r → RoutedBy name o r
Follows-RoutedBy name none r v = v
Follows-RoutedBy name (some addrs) r (i, w, e, h, v) =
    (i, w, e, h, subst (λ l. Routed l w) v.watches (Steady-Routed w v.steady))

pub routed-run :
    (f : Float64) {Bytes : Type 0} (unmarshal : Bytes → Option (Config f)) (env : String → String)
    (cfg : Config f) (ms : List (Move f Bytes)) (name : String)
    → AllDistinct f cfg.jump_gates
    → AllDistinct f (all_loaded f unmarshal env ms)
    → Quiet f unmarshal env ms (start f cfg)
    → RoutedBy name
        (kept
          (last_named f name (all_loaded f unmarshal env ms))
          (last_named f name cfg.jump_gates))
        (run f unmarshal env ms (start f cfg))
routed-run f unmarshal env cfg ms name d k quiet =
    Follows-RoutedBy name _ _ (Follows-run f unmarshal env cfg ms name d k quiet)
