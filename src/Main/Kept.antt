-- ===== src/Main/Kept.antt =====
-- What the moves of cmd/centauri/main.go leave as it is in the store.
use proxy_centauri.Prelude.{
  ℕ, suc, ◌≡◌, refl, ◌/◌, ◌^◌, ◌&&◌, sym, Option-cases, Bool-cases, inl, inr, ◌⊎◌, subst, String,
  Bool, true, false, Option, none, some, List, [], ◌∷◌, arith, if◌then◌else◌, str_eq, ℤ,
}
use proxy_centauri.Floats.{Float64}
use proxy_centauri.Health.{Event}
use proxy_centauri.Metrics.Collector.{MetricFamily}
use proxy_centauri.Metrics.Store.{ThreatSignal, Store, save_signal, resolve_signal, log_event}
use proxy_centauri.Numbers.{parse_int}
use proxy_centauri.Http.Text.{has, before, behind}
use proxy_centauri.Oracle.Aggregator.{GateSnapshot}
use proxy_centauri.Oracle.Engine.{
  OracleResponse, Oracle, World, call_claude, conclude, snaps_of, signal_of, should_call, analyze,
  check,
}
use proxy_centauri.Oracle.Signals.{handle, resolve_handler, strip_prefix}
use proxy_centauri.Reload.{Running}
use proxy_centauri.Main.{Main, consult, log_all, oracle_tick, serve, rerun, seen, emitted}

module _ (f : Float64) where
  -- A request to the signals leaves the store, or it was to resolve one.
  resolve-cases :
      (taken : Bool) (method trimmed : String) (s : Store f.Float)
      → ((resolve_handler taken method trimmed s).1 ≡ s)
        ⊎ ((id : ℤ) × ((resolve_handler taken method trimmed s).1 ≡ (resolve_signal taken id s).1))
  unfolding resolve_handler
  resolve-cases taken method trimmed s = elim (Option-cases (parse_int (before 47 trimmed))) [
    | inl e ↦ inl (ground (arith, e))
    | inr (id, e) ↦ elim (Bool-cases (str_eq method "POST")) [
      | inl posts ↦ elim (Bool-cases (has 47 trimmed && str_eq (behind 47 trimmed) "resolve")) [
        | inl ends ↦ inr (id, ground (arith, e, posts, ends))
        | inr ends ↦ inl (ground (arith, e, posts, ends))
      ]
      | inr posts ↦ inl (ground (arith, e, posts))
    ]
  ]

  handle-cases :
      (taken : Bool) (method path : String) (s : Store f.Float)
      → ((handle taken method path s).1 ≡ s)
        ⊎ ((id : ℤ) × ((handle taken method path s).1 ≡ (resolve_signal taken id s).1))
  unfolding handle
  handle-cases taken method path s = elim (Option-cases (strip_prefix "/oracle/signals/" path)) [
    | inl e ↦ inl (ground (arith, e))
    | inr (trimmed, e) ↦ elim (resolve-cases taken method trimmed s) [
      | inl r ↦ inl (rw (handle, e) r)
      | inr r ↦ inr (rw (handle, e) r)
    ]
  ]

  -- A property of the tables that no statement but a flush breaks.
  pub record Kept (P : Store f.Float → Type 0) : Type 0 where
    pub save :
        (taken : Bool) (now : ℕ) (sig : ThreatSignal) (s : Store f.Float)
        → P s
        → P (save_signal taken now sig s).1
    pub resolve :
        (taken : Bool) (id : ℤ) (s : Store f.Float) → P s → P (resolve_signal taken id s).1
    pub log :
        (taken : Bool) (now : ℕ) (gate kind detail : String) (s : Store f.Float)
        → P s
        → P (log_event taken now gate kind detail s).1

  -- A property of the store, which is there.
  abbrev pub Holds : (Store f.Float → Type 0) → Main f → Type 0
  Holds P m = (s : Store f.Float) × ((m.store ≡ some s) × P s)

  module _ (P : Store f.Float → Type 0) (k : Kept P) where
    conclude-P :
        (w : World f) (snaps : List (GateSnapshot f)) (r : Option OracleResponse) (o : Oracle f)
        → P o.store
        → P (conclude f w snaps r o).store
    unfolding conclude
    conclude-P w snaps none o h = h
    conclude-P w snaps (some resp) o h =
        elim (str_eq resp.kind "ok")
          as (λ b. P (
            if b
            then o.store
            else (save_signal w.saves (w.answered / 10 ^ 9) (signal_of f resp) o.store).1)) [
              | true ↦ h
              | false ↦ k.save w.saves (w.answered / 10 ^ 9) (signal_of f resp) o.store h
            ]

    pub analyze-P : (w : World f) (o : Oracle f) → P o.store → P (analyze f w o).store
    unfolding analyze
    analyze-P w o h =
        let snaps = snaps_of f w o in
        elim (should_call f w.now snaps o)
          as (λ b. P (if b then conclude f w snaps (call_claude f w) o else o).store) [
            | true ↦ conclude-P w snaps (call_claude f w) o h
            | false ↦ h
          ]

    pub check-P :
        (snaps : List (GateSnapshot f)) (w : World f) (o : Oracle f)
        → P o.store
        → P (check f snaps w o).store
    unfolding check
    check-P snaps w o h =
        elim (should_call f w.now snaps o) as (λ b. P (if b then analyze f w o else o).store) [
          | true ↦ analyze-P w o h
          | false ↦ h
        ]

    pub consult-P :
        (call : Oracle f → Oracle f) (s : Store f.Float) (o : Option (Oracle f))
        → ((o' : Oracle f) → P o'.store → P (call o').store)
        → P s
        → P (consult f call s o).1
    unfolding consult
    consult-P call s none keeps h = h
    consult-P call s (some o) keeps h = keeps (record o { store = s }) h

    log_all-P :
        (takes : ℕ → Bool) (i now : ℕ) (es : List Event) (s : Store f.Float)
        → P s
        → P (log_all f takes i now es s)
    unfolding log_all
    log_all-P takes i now [] s h = h
    log_all-P takes i now (e ∷ es) s h =
        log_all-P takes (suc i) now es _ (k.log (takes i) now e.gate e.kind e.detail s h)

    handle-P :
        (taken : Bool) (method path : String) (s : Store f.Float)
        → P s
        → P (handle taken method path s).1
    handle-P taken method path s h = elim (handle-cases taken method path s) [
      | inl e ↦ subst P (sym e) h
      | inr (id, e) ↦ subst P (sym e) (k.resolve taken id s h)
    ]

    pub oracle_tick-Holds :
        (gathered : Option (List (MetricFamily f))) (w : World f) (m : Main f)
        → Holds P m
        → Holds P (oracle_tick f gathered w m)
    unfolding oracle_tick
    oracle_tick-Holds gathered w m (s, (e, h)) = (
      _,
      (
        rw (e) refl,
        consult-P (analyze f (seen f gathered w m)) s m.oracle (analyze-P (seen f gathered w m)) h,
      ),
    )

    pub serve-Holds :
        (taken : Bool) (method path : String) (m : Main f)
        → Holds P m
        → Holds P (serve f taken method path m).1
    unfolding serve
    serve-Holds taken method path m (s, (e, h)) = elim (Bool-cases (str_eq path "/metrics")) [
      | inl metrics ↦ (s, (ground (arith, e, metrics), h))
      | inr other ↦ elim (Option-cases m.oracle) [
        | inl off ↦ (s, (ground (arith, e, other, off), h))
        | inr (o, on) ↦ (
          (handle taken method path s).1,
          (ground (arith, e, other, on), handle-P taken method path s h),
        )
      ]
    ]

    pub rerun-Holds :
        (takes : ℕ → Bool) (now : ℕ) (r : Running) (m : Main f)
        → Holds P m
        → Holds P (rerun f takes now r m)
    unfolding rerun
    rerun-Holds takes now r m (s, (e, h)) =
        (_, (rw (e) refl, log_all-P takes 0 now (emitted m.running r) s h))
