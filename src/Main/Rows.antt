-- ===== src/Main/Rows.antt =====
-- The rows of request_stats that the flush of cmd/centauri/main.go writes.
use proxy_centauri.Prelude.{
  ℕ, suc, ◌≡◌, refl, ap, sym, ◌∙◌, Option-cases, inl, inr, String, Bool, true, false, Option, none,
  some, List, [], ◌∷◌, ◌++◌, map, arith, if◌then◌else◌, ℤ, pos,
}
use mathlib.Core.List.{append-nil, append_assoc}
use proxy_centauri.Floats.{Float64}
use proxy_centauri.Metrics.Collector.{MetricsSnapshot, snapshots}
use proxy_centauri.Metrics.Collector.Totals.{spec_snapshot, snapshots-eq-map}
use proxy_centauri.Metrics.Store.{
  ThreatSignal, Store, StatRow, save_signal, resolve_signal, log_event, flush,
}
use proxy_centauri.Oracle.Aggregator.{build_snapshot}
use proxy_centauri.Oracle.Engine.{check}
use proxy_centauri.Main.{
  Main, Flush, Move, flushes, oracle_ticks, requests, runs, consult, flush_all, flush_tick, seen,
}
use proxy_centauri.Main.Kept.{Kept, Holds, consult-P, check-P}

module _ (f : Float64) where
  -- The rows of a flush that SQLite takes, in the order of the gates.
  abbrev pub written : (ℕ → Bool) → ℕ → ℕ → List (MetricsSnapshot f) → List (StatRow f.Float)
  written takes i now [] = []
  written takes i now (snap ∷ snaps) =
      let rest = written takes (suc i) now snaps in
      let row : StatRow f.Float = record {
        ts = now;
        gate = snap.gate;
        req_total = snap.req_total;
        err_total = snap.err_total;
        p95_ms = snap.p95_ms;
      } in
      if takes i then row ∷ rest else rest

  abbrev pub flushed : List String → Flush f → List (StatRow f.Float)
  flushed names x = elim x.for_rows [
    | none ↦ []
    | some mfs ↦ written x.takes 0 x.now (map (spec_snapshot f mfs) names)
  ]

  module _ {Bytes : Type 0} where
    abbrev pub rows_of : List String → Move f Bytes → List (StatRow f.Float)
    rows_of names (flushes x) = flushed names x
    rows_of names (oracle_ticks gathered w) = []
    rows_of names (requests taken method path) = []
    rows_of names (runs x takes now) = []

    abbrev pub all_rows : List String → List (Move f Bytes) → List (StatRow f.Float)
    all_rows names [] = []
    all_rows names (x ∷ xs) = rows_of names x ++ all_rows names xs

  -- The rows of the table, where there is a store.
  abbrev pub table : Option (Store f.Float) → Option (List (StatRow f.Float))
  table none = none
  table (some s) = some s.request_stats

  module _ (rows : List (StatRow f.Float)) where
    abbrev pub Has : Store f.Float → Type 0
    Has s = s.request_stats ≡ rows

    save-Has :
        (taken : Bool) (now : ℕ) (sig : ThreatSignal) (s : Store f.Float)
        → Has s
        → Has (save_signal taken now sig s).1
    unfolding save_signal
    save-Has true now sig s h = h
    save-Has false now sig s h = h

    resolve-Has :
        (taken : Bool) (id : ℤ) (s : Store f.Float) → Has s → Has (resolve_signal taken id s).1
    unfolding resolve_signal
    resolve-Has true id s h = h
    resolve-Has false id s h = h

    log-Has :
        (taken : Bool) (now : ℕ) (gate kind detail : String) (s : Store f.Float)
        → Has s
        → Has (log_event taken now gate kind detail s).1
    unfolding log_event
    log-Has true now gate kind detail s h = h
    log-Has false now gate kind detail s h = h

    pub Has-Kept : Kept f Has
    Has-Kept = record { save = save-Has; resolve = resolve-Has; log = log-Has }

  written-one :
      (takes : Bool) (now : ℕ) (snap : MetricsSnapshot f) (s : Store f.Float)
      → (flush takes now snap.gate snap.req_total snap.err_total snap.p95_ms s).1.request_stats
        ≡ s.request_stats ++ written (λ i. takes) 0 now (snap ∷ [])
  unfolding flush
  written-one true now snap s = refl
  written-one false now snap s = sym (append-nil s.request_stats)

  stats-flush_all :
      (takes : ℕ → Bool) (i now : ℕ) (snaps : List (MetricsSnapshot f)) (s : Store f.Float)
      → (flush_all f takes i now snaps s).request_stats
        ≡ s.request_stats ++ written takes i now snaps
  unfolding flush_all
  stats-flush_all takes i now [] s = sym (append-nil s.request_stats)
  stats-flush_all takes i now (snap ∷ snaps) s =
      let s' = (flush (takes i) now snap.gate snap.req_total snap.err_total snap.p95_ms s).1 in
      let rest = written takes (suc i) now snaps in
      let one = written (λ j. takes i) 0 now (snap ∷ []) in
      stats-flush_all takes (suc i) now snaps s'
      ∙ ap (λ rows. rows ++ rest) (written-one (takes i) now snap s)
      ∙ append_assoc s.request_stats one rest
      ∙ ap (λ rows. s.request_stats ++ rows) (ground arith)

  pub Has-same :
      {rows rows' : List (StatRow f.Float)}
      → rows ≡ rows'
      → (m : Main f) → Holds f (Has rows) m
      → Holds f (Has rows') m
  Has-same e m (s, (there, h)) = (s, (there, h ∙ e))

  pub table-Has :
      {rows : List (StatRow f.Float)} (m : Main f)
      → Holds f (Has rows) m
      → table m.store ≡ some rows
  table-Has m (s, (there, h)) = ap table there ∙ ap some h

  written-snapshots :
      (names : List String) (x : Flush f)
      → written x.takes 0 x.now (snapshots f x.for_rows names) ≡ flushed names x
  written-snapshots names x = elim (Option-cases x.for_rows) [
    | inl e ↦ rw (snapshots-eq-map, e) refl
    | inr (mfs, e) ↦ rw (snapshots-eq-map, e) refl
  ]

  pub flush_tick-Has :
      (x : Flush f) (rows : List (StatRow f.Float)) (m : Main f)
      → Holds f (Has rows) m
      → Holds f (Has (rows ++ flushed m.gate_names x)) (flush_tick f x m)
  unfolding flush_tick
  flush_tick-Has x rows m (s, (e, h)) =
      let after = rows ++ flushed m.gate_names x in
      let snaps = build_snapshot f (snapshots f x.for_check m.gate_names) [] (f.of_int (pos 30)) in
      let w = seen f x.for_analyze x.world m in
      let s' = flush_all f x.takes 0 x.now (snapshots f x.for_rows m.gate_names) s in
      let h' : Has after s' =
        stats-flush_all x.takes 0 x.now (snapshots f x.for_rows m.gate_names) s
        ∙ ap (λ r. s.request_stats ++ r) (written-snapshots m.gate_names x)
        ∙ ap (λ r. r ++ flushed m.gate_names x) h in
      (
        (consult f (check f snaps w) s' m.oracle).1,
        (
          rw (e) refl,
          consult-P f (Has after) (Has-Kept after) (check f snaps w) s' m.oracle
              (check-P f (Has after) (Has-Kept after) snaps w) h',
        ),
      )
