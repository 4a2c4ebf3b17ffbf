-- ===== src/Main.antt =====
-- cmd/centauri/main.go as a whole: the store, the oracle and the gates, the 30-second flush, the
-- metrics endpoint and the reload, each a move. The store is one that the oracle shares: a move of the
-- oracle gets it and gives it back. Opening the database file does not fail, and gives what earlier
-- runs left in it.
pub mod Kept
pub mod Alerts
pub mod Rows
pub mod Stats
pub mod Setup
use proxy_centauri.Prelude.{
  ℕ, suc, ◌+◌, String, Bool, true, false, Option, none, some, List, [], ◌∷◌, ◌++◌, map,
  if◌then◌else◌, str_eq, length, drop, ℤ, pos,
}
use proxy_centauri.Config.{Config, load}
use proxy_centauri.Floats.{Float64}
use proxy_centauri.Health.{Event}
use proxy_centauri.Health.Steps.{Watch}
use proxy_centauri.Metrics.Collector.{MetricsSnapshot, MetricFamily, snapshots}
use proxy_centauri.Metrics.Store
use proxy_centauri.Metrics.Store.{Store, flush, log_event}
use proxy_centauri.Oracle.Aggregator.{build_snapshot}
use proxy_centauri.Oracle.Engine
use proxy_centauri.Oracle.Engine.{Oracle, World, analyze, check}
use proxy_centauri.Oracle.Signals.{Response, refuses, handle}
use proxy_centauri.Wizard.{wizard, not_marshalled, not_written, written}
use proxy_centauri.Reload
use proxy_centauri.Reload.{Running}

-- What the metrics endpoint answers: the metrics, which Prometheus writes, or the signals.
pub data Answer : Type 0 where
  exposes : Answer
  answers : Response → Answer

-- The events that a move of the gates reported.
abbrev pub news : List Event → List Event → List Event
news old now = drop (length old) now

unfoldable pub scans_news : List Watch → List Watch → List Event
scans_news [] after = []
scans_news (p ∷ ps) [] = []
scans_news (p ∷ ps) (q ∷ qs) = news p.scan.events q.scan.events ++ scans_news ps qs

unfoldable pub emitted : Running → Running → List Event
emitted r r' = news r.events r'.events ++ scans_news r.scans r'.scans

unfoldable pub is_init : List String → Bool
is_init [] = false
is_init (arg ∷ args) = str_eq arg "init"

module _ (f : Float64) where
  -- `store` is nil without metrics, and `oracle` without a key or where it is switched off.
  pub record Main : Type 0 where
    pub store : Option (Store f.Float)
    pub oracle : Option (Oracle f)
    pub gate_names : List String
    pub running : Running

  -- `disk` is what data/metrics.db holds, `Store.new` where there is no such file yet.
  unfoldable pub boot : Store f.Float → Config f → Main
  boot disk cfg = record {
    store = if cfg.metrics.enabled then some disk else none;
    oracle = if cfg.metrics.enabled then Engine.new f cfg.oracle disk else none;
    gate_names = map (λ g. g.name) cfg.jump_gates;
    running = Reload.start f cfg;
  }

  -- The loop of a flush, where `takes i` says whether SQLite takes the `i`-th row.
  unfoldable pub flush_all :
      (ℕ → Bool) → ℕ → ℕ → List (MetricsSnapshot f) → Store f.Float → Store f.Float
  flush_all takes i now [] s = s
  flush_all takes i now (snap ∷ snaps) s =
      flush_all takes (suc i) now snaps
        (flush (takes i) now snap.gate snap.req_total snap.err_total snap.p95_ms s).1

  -- The calls of the event function of main and of its reload.
  unfoldable pub log_all : (ℕ → Bool) → ℕ → ℕ → List Event → Store f.Float → Store f.Float
  log_all takes i now [] s = s
  log_all takes i now (e ∷ es) s =
      log_all takes (suc i) now es (log_event (takes i) now e.gate e.kind e.detail s).1

  -- A call of the oracle, which may be nil, over the store `s`.
  unfoldable pub consult :
      (Oracle f → Oracle f) → Store f.Float → Option (Oracle f) → Option (Oracle f) × Store f.Float
  consult call s none = (none, s)
  consult call s (some o) = let o' = call (record o { store = s }) in (some o', o'.store)

  -- The oracle and the store of a main program, after one of its calls.
  abbrev pub with_call : Main → Option (Oracle f) × Store f.Float → Main
  with_call m (o, s) = record m { oracle = o; store = some s }

  -- The world of an `analyze`, with the metrics that it reads.
  abbrev pub seen : Option (List (MetricFamily f)) → World f → Main → World f
  seen gathered w m = record w { current = snapshots f gathered m.gate_names }

  -- A tick of the flush: what is gathered for the rows, for `Check` and for an `analyze` behind it.
  pub record Flush : Type 0 where
    pub now : ℕ
    pub takes : ℕ → Bool
    pub for_rows : Option (List (MetricFamily f))
    pub for_check : Option (List (MetricFamily f))
    pub for_analyze : Option (List (MetricFamily f))
    pub world : World f

  unfoldable pub flush_tick : Flush → Main → Main
  flush_tick x m = elim m.store [
    | none ↦ m
    | some s ↦
        let snaps =
          build_snapshot f (snapshots f x.for_check m.gate_names) [] (f.of_int (pos 30)) in
        let written = flush_all x.takes 0 x.now (snapshots f x.for_rows m.gate_names) s in
        with_call m (consult (check f snaps (seen x.for_analyze x.world m)) written m.oracle)
  ]

  -- A tick of the oracle's own loop.
  unfoldable pub oracle_tick : Option (List (MetricFamily f)) → World f → Main → Main
  oracle_tick gathered w m = elim m.store [
    | none ↦ m
    | some s ↦ with_call m (consult (analyze f (seen gathered w m)) s m.oracle)
  ]

  -- A request to the metrics port; `none` without metrics, where nothing listens.
  unfoldable pub serve : Bool → String → String → Main → Option Answer × Main
  serve taken method path m = elim m.store [
    | none ↦ (none, m)
    | some s ↦ if str_eq path "/metrics" then (some exposes, m) else elim m.oracle [
      | none ↦ (some (answers (refuses 404)), m)
      | some o ↦
          let (r, s') = handle taken method path s in
          (some (answers r), record m { store = some s' })
    ]
  ]

  -- The gates after a move, and the events that it reported in the store.
  unfoldable pub rerun : (ℕ → Bool) → ℕ → Running → Main → Main
  rerun takes now r' m =
      let m' = record m { running = r' } in
      elim m.store [
        | none ↦ m'
        | some s ↦ record m' { store = some (log_all takes 0 now (emitted m.running r') s) }
      ]

  pub data Move (Bytes : Type 0) : Type 0 where
    flushes : Flush → Move Bytes
    oracle_ticks : Option (List (MetricFamily f)) → World f → Move Bytes
    requests : Bool → String → String → Move Bytes
    runs : Reload.Move f Bytes → (ℕ → Bool) → ℕ → Move Bytes

  module _ {Bytes : Type 0} (unmarshal : Bytes → Option (Config f)) (env : String → String) where
    unfoldable pub move : Move Bytes → Main → Main
    move (flushes x) m = flush_tick x m
    move (oracle_ticks gathered w) m = oracle_tick gathered w m
    move (requests taken method path) m = (serve taken method path m).1
    move (runs x takes now) m = rerun takes now (Reload.move f unmarshal env x m.running) m

    unfoldable pub run : List (Move Bytes) → Main → Main
    run [] m = m
    run (x ∷ xs) m = run xs (move x m)

  -- What a start of the program comes to: it exits, with success or not, or it goes on.
  pub data Process : Type 0 where
    exits : Bool → Process
    continues : Main → Process

  -- A start with its arguments, what is typed, the file centauri.yml and the database: the process,
  -- and the file after it. A write that fails leaves the file.
  unfoldable pub invoke :
      {Bytes : Type 0}
      → (String → Float64.Float f)
      → (Config f → Option Bytes)
      → (Bytes → Option (Config f))
      → (String → String)
      → Bool
      → ℕ
      → List String
      → String
      → Option Bytes
      → Store f.Float
      → Option (Process × Option Bytes)
  invoke parse_float marshal unmarshal env can_write fuel args reader file disk =
      if is_init args
      then elim (wizard f parse_float marshal can_write fuel reader) [
        | none ↦ none
        | some result ↦ elim result [
          | not_marshalled ↦ some (exits false, file)
          | not_written ↦ some (exits false, file)
          | written bytes ↦ some (exits true, some bytes)
        ]
      ]
      else elim (load f unmarshal env file) [
        | none ↦ some (exits false, file)
        | some cfg ↦ some (continues (boot disk cfg), file)
      ]
