-- ===== src/Main/Alerts.antt =====
-- From what Claude answers in internal/oracle/oracle.go to what internal/oracle/signals.go lists,
-- in the program of cmd/centauri/main.go.
use proxy_centauri.Prelude.{
  ℕ, suc, ◌≡◌, ◌≢◌, ◌<◌, ◌/◌, ◌^◌, refl, ap, ◌∙◌, String, Bool, true, false, Option, some, List, [],
  ◌∷◌, arith, take, All, eq_iff, pos, str_eq,
}
use proxy_centauri.Config.{Config}
use proxy_centauri.Floats.{Float64}
use proxy_centauri.Metrics.Collector.{MetricsSnapshot, MetricFamily, snapshots}
use proxy_centauri.Metrics.Store
use proxy_centauri.Metrics.Store.{
  ThreatSignal, Store, Statement, saves, resolves, flushes, logs, save_signal, apply, list_signals,
  unresolved,
}
use proxy_centauri.Metrics.Store.Active.{
  Board, IsValid, board, apply-IsValid, board-apply, list-board,
}
use proxy_centauri.Metrics.Store.Rows.{All-rev, All-unresolved}
use proxy_centauri.Oracle.Aggregator.{build_snapshot}
use proxy_centauri.Oracle.Engine.{
  OracleResponse, Oracle, World, call_claude, conclude, snaps_of, signal_of, should_call, analyze,
  check,
}
use proxy_centauri.Oracle.Signals.{lists, handle, list_handler, strip_prefix}
use proxy_centauri.Reload
use proxy_centauri.Main.{
  Main, Flush, Move, flushes, oracle_ticks, requests, runs, boot, flush_all, flush_tick, move, run,
  seen, consult, oracle_tick, serve, rerun, answers,
}
use proxy_centauri.Main.Kept.{
  Kept, Holds, consult-P, check-P, oracle_tick-Holds, serve-Holds, rerun-Holds,
}

module _ (f : Float64) where
  IsValid-Kept : Kept f IsValid
  unfolding apply
  IsValid-Kept = record {
    save = λ taken now sig s v. apply-IsValid (saves taken now sig) s v;
    resolve = λ taken id s v. apply-IsValid (resolves taken id) s v;
    log = λ taken now gate kind detail s v. apply-IsValid (logs taken now gate kind detail) s v;
  }

  flush_all-IsValid :
      (takes : ℕ → Bool) (i now : ℕ) (snaps : List (MetricsSnapshot f)) (s : Store f.Float)
      → IsValid s
      → IsValid (flush_all f takes i now snaps s)
  unfolding flush_all apply
  flush_all-IsValid takes i now [] s v = v
  flush_all-IsValid takes i now (snap ∷ snaps) s v = flush_all-IsValid takes (suc i) now snaps _ (
      apply-IsValid
        (Store.flushes (takes i) now snap.gate snap.req_total snap.err_total snap.p95_ms) s v)

  flush_tick-IsValid :
      (x : Flush f) (m : Main f) → Holds f IsValid m → Holds f IsValid (flush_tick f x m)
  unfolding flush_tick
  flush_tick-IsValid x m (s, (e, v)) =
      let snaps = build_snapshot f (snapshots f x.for_check m.gate_names) [] (f.of_int (pos 30)) in
      let w = seen f x.for_analyze x.world m in
      let rows = snapshots f x.for_rows m.gate_names in
      let s' = flush_all f x.takes 0 x.now rows s in
      (
        (consult f (check f snaps w) s' m.oracle).1,
        (
          rw (e) refl,
          consult-P f IsValid IsValid-Kept (check f snaps w) s' m.oracle
              (check-P f IsValid IsValid-Kept snaps w) (flush_all-IsValid x.takes 0 x.now rows s v),
        ),
      )

  module _ {Bytes : Type 0} (unmarshal : Bytes → Option (Config f)) (env : String → String) where
    run-IsValid :
        (xs : List (Move f Bytes)) (m : Main f)
        → Holds f IsValid m
        → Holds f IsValid (run f unmarshal env xs m)
    unfolding run move
    run-IsValid [] m h = h
    run-IsValid (flushes x ∷ xs) m h = run-IsValid xs (flush_tick f x m) (flush_tick-IsValid x m h)
    run-IsValid (oracle_ticks gathered w ∷ xs) m h =
        run-IsValid xs (oracle_tick f gathered w m)
          (oracle_tick-Holds f IsValid IsValid-Kept gathered w m h)
    run-IsValid (requests taken method path ∷ xs) m h =
        run-IsValid xs (serve f taken method path m).1
          (serve-Holds f IsValid IsValid-Kept taken method path m h)
    run-IsValid (runs x takes now ∷ xs) m h =
        let r = Reload.move f unmarshal env x m.running in
        run-IsValid xs (rerun f takes now r m) (rerun-Holds f IsValid IsValid-Kept takes now r m h)

    new-IsValid : IsValid {Float = f.Float} Store.new
    unfolding Store.new
    new-IsValid = record { ascending = tt; below = tt }

    left-IsValid :
        (ys : List (Statement f.Float)) (s : Store f.Float) → IsValid s → IsValid (Store.run ys s)
    unfolding Store.run
    left-IsValid [] s v = v
    left-IsValid (y ∷ ys) s v = left-IsValid ys (apply y s) (apply-IsValid y s v)

    boot-IsValid :
        (disk : Store f.Float) (cfg : Config f)
        → cfg.metrics.enabled ≡ true
        → IsValid disk
        → Holds f IsValid (boot f disk cfg)
    unfolding boot
    boot-IsValid disk cfg on v = (disk, (rw (on) refl, v))

  -- A GET of the signals, where there are a store and an oracle.
  serve-get :
      (m : Main f) (s : Store f.Float) (o : Oracle f)
      → m.store ≡ some s
      → m.oracle ≡ some o
      → IsValid s
      → (serve f true "GET" "/oracle/signals" m).0
        ≡ some (answers (lists (take 100 (board s).active)))
  unfolding serve handle strip_prefix list_handler
  serve-get m s o there on v = ground (arith, there, on, list-board 100 s v)

  -- A due analysis whose answer is no "ok" saves it.
  analyze-saves :
      (w : World f) (o : Oracle f) (resp : OracleResponse)
      → should_call f w.now (snaps_of f w o) o ≡ true
      → call_claude f w ≡ some resp
      → resp.kind ≢ "ok"
      → w.saves ≡ true
      → analyze f w o ≡ record o {
        last_call = some w.answered;
        last_snaps = snaps_of f w o;
        store = (save_signal true (w.answered / 10 ^ 9) (signal_of f resp) o.store).1;
      }
  unfolding analyze conclude
  analyze-saves w o resp due answer bad saved =
      let e : str_eq resp.kind "ok" ≡ false = ground (arith, bad, eq_iff resp.kind "ok") in
      rw (due, answer, e, saved) refl

  tick-saves :
      (gathered : Option (List (MetricFamily f))) (w : World f) (m : Main f) (s : Store f.Float)
      (o : Oracle f) (resp : OracleResponse)
      → m.store ≡ some s
      → m.oracle ≡ some o
      → should_call f w.now (snaps_of f (seen f gathered w m) o) o ≡ true
      → call_claude f w ≡ some resp
      → resp.kind ≢ "ok"
      → w.saves ≡ true
      → let seen_now = seen f gathered w m in
        let s' = (save_signal true (w.answered / 10 ^ 9) (signal_of f resp) s).1 in
        let o' : Oracle f = record o {
          last_call = some w.answered;
          last_snaps = snaps_of f seen_now o;
          store = s';
        } in
        oracle_tick f gathered w m ≡ record m { oracle = some o'; store = some s' }
  unfolding oracle_tick consult call_claude snaps_of should_call
  tick-saves gathered w m s o resp there on due answer bad saved =
      let e =
        analyze-saves (seen f gathered w m) (record o { store = s }) resp due answer bad saved in
      rw (there, on, e) refl

  -- Whatever statements earlier runs left in the database, and whatever the program did since it
  -- started on it with a configuration that has metrics: an analysis
  -- of the oracle's loop that is due, to which Claude answers with a kind that is not "ok" and
  -- whose signal SQLite takes, puts this answer on top of what a GET of the signals lists, with
  -- the time and with an id above those of all active signals, and nothing else of the list changes,
  -- but that it ends after 100 signals, if SQLite takes both reads.
  pub alerts-get :
      {Bytes : Type 0} (unmarshal : Bytes → Option (Config f)) (env : String → String)
      (ys : List (Statement f.Float)) (cfg : Config f) (xs : List (Move f Bytes))
      (gathered : Option (List (MetricFamily f))) (w : World f) (o : Oracle f)
      (resp : OracleResponse)
      → cfg.metrics.enabled ≡ true
      → let m = run f unmarshal env xs (boot f (Store.run ys Store.new) cfg) in
        m.oracle ≡ some o
        → should_call f w.now (snaps_of f (seen f gathered w m) o) o ≡ true
        → call_claude f w ≡ some resp
        → resp.kind ≢ "ok"
        → w.saves ≡ true
        → let m = run f unmarshal env xs (boot f (Store.run ys Store.new) cfg) in
          (b : Board) × (((serve f true "GET" "/oracle/signals" m).0
              ≡ some (answers (lists (take 100 b.active))))
            × (((serve f true "GET" "/oracle/signals" (oracle_tick f gathered w m)).0
                  ≡ some (
                      answers (
                        lists (
                          take 100 (
                            record (signal_of f resp) { id = b.next_id; ts = w.answered / 10 ^ 9 }
                            ∷ b.active)))))
                × All (λ sig. sig.id < b.next_id) b.active))
  unfolding signal_of apply
  alerts-get unmarshal env ys cfg xs gathered w o resp enabled on due answer bad saved =
      let m = run f unmarshal env xs (boot f (Store.run ys Store.new) cfg) in
      let (s, (there, v)) = run-IsValid unmarshal env xs (boot f (Store.run ys Store.new) cfg) (
        boot-IsValid unmarshal env (Store.run ys Store.new) cfg enabled
          (left-IsValid unmarshal env ys Store.new (new-IsValid unmarshal env))) in
      let now = w.answered / 10 ^ 9 in
      let put : Statement f.Float = saves true now (signal_of f resp) in
      let s' = (save_signal true now (signal_of f resp) s).1 in
      let o' : Oracle f = record o {
        last_call = some w.answered;
        last_snaps = snaps_of f (seen f gathered w m) o;
        store = s';
      } in
      let ticked = tick-saves gathered w m s o resp there on due answer bad saved in
      (
        board s,
        (
          serve-get m s o there on v,
          (
            ap (λ m'. (serve f true "GET" "/oracle/signals" m').0) ticked
                ∙ serve-get (record m { store = some s'; oracle = some o' }) s' o' refl refl
                    (apply-IsValid put s v)
                ∙ ap (λ (b : Board). some (answers (lists (take 100 b.active))))
                    (board-apply put s),
            All-rev _ (unresolved s.threat_signals) (All-unresolved _ s.threat_signals v.below),
          ),
        ),
      )
