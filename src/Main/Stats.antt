-- ===== src/Main/Stats.antt =====
-- The rows of request_stats that the flush of cmd/centauri/main.go writes, whatever else happens.
use proxy_centauri.Prelude.{
  ◌≡◌, refl, ap, sym, ◌∙◌, Bool-cases, inl, inr, String, Bool, true, false, Option, none, some,
  List, [], ◌∷◌, ◌++◌, map, arith, if◌then◌else◌,
}
use mathlib.Core.List.{append-nil, append_assoc}
use proxy_centauri.Config.{Config}
use proxy_centauri.Floats.{Float64}
use proxy_centauri.Metrics.Store.{Store, StatRow}
use proxy_centauri.Reload
use proxy_centauri.Main.{
  Main, Move, flushes, oracle_ticks, requests, runs, boot, flush_tick, move, run, oracle_tick,
  serve, rerun,
}
use proxy_centauri.Main.Rows.{
  table, Has, Has-Kept, Has-same, table-Has, flush_tick-Has, rows_of, all_rows,
}
use proxy_centauri.Main.Kept.{Holds, oracle_tick-Holds, serve-Holds, rerun-Holds}

module _ (f : Float64) where
  module _ {Bytes : Type 0} (unmarshal : Bytes → Option (Config f)) (env : String → String) where
    names-move :
        (x : Move f Bytes) (m : Main f) → (move f unmarshal env x m).gate_names ≡ m.gate_names
    unfolding move flush_tick oracle_tick serve rerun
    names-move (flushes x) m = ground arith
    names-move (oracle_ticks gathered w) m = ground arith
    names-move (requests taken method path) m = ground arith
    names-move (runs x takes now) m = ground arith

    move-Has :
        (x : Move f Bytes) (rows : List (StatRow f.Float)) (m : Main f)
        → Holds f (Has f rows) m
        → Holds f (Has f (rows ++ rows_of f m.gate_names x)) (move f unmarshal env x m)
    unfolding move
    move-Has (flushes x) rows m h = flush_tick-Has f x rows m h
    move-Has (oracle_ticks gathered w) rows m h =
        Has-same f (sym (append-nil rows)) (oracle_tick f gathered w m)
          (oracle_tick-Holds f (Has f rows) (Has-Kept f rows) gathered w m h)
    move-Has (requests taken method path) rows m h =
        Has-same f (sym (append-nil rows)) (serve f taken method path m).1
          (serve-Holds f (Has f rows) (Has-Kept f rows) taken method path m h)
    move-Has (runs x takes now) rows m h =
        Has-same f (sym (append-nil rows))
          (rerun f takes now (Reload.move f unmarshal env x m.running) m)
          (rerun-Holds f (Has f rows) (Has-Kept f rows) takes now
            (Reload.move f unmarshal env x m.running) m h)

    run-Has :
        (xs : List (Move f Bytes)) (rows : List (StatRow f.Float)) (m : Main f)
        → Holds f (Has f rows) m
        → Holds f (Has f (rows ++ all_rows f m.gate_names xs)) (run f unmarshal env xs m)
    unfolding run
    run-Has [] rows m h = Has-same f (sym (append-nil rows)) m h
    run-Has (x ∷ xs) rows m h =
        let m' = move f unmarshal env x m in
        let now = rows_of f m.gate_names x in
        Has-same f
          (append_assoc rows now (all_rows f m'.gate_names xs)
            ∙ ap (λ names. rows ++ (now ++ all_rows f names xs)) (names-move x m))
          (run f unmarshal env xs m') (run-Has xs (rows ++ now) m' (move-Has x rows m h))

    none-move :
        (x : Move f Bytes) (m : Main f) → m.store ≡ none → (move f unmarshal env x m).store ≡ none
    unfolding move flush_tick oracle_tick serve rerun
    none-move (flushes x) m e = ground (arith, e)
    none-move (oracle_ticks gathered w) m e = ground (arith, e)
    none-move (requests taken method path) m e = ground (arith, e)
    none-move (runs x takes now) m e = ground (arith, e)

    none-run :
        (xs : List (Move f Bytes)) (m : Main f)
        → m.store ≡ none
        → (run f unmarshal env xs m).store ≡ none
    unfolding run
    none-run [] m e = e
    none-run (x ∷ xs) m e = none-run xs (move f unmarshal env x m) (none-move x m e)

    boot-names :
        (disk : Store f.Float) (cfg : Config f)
        → (boot f disk cfg).gate_names ≡ map (λ g. g.name) cfg.jump_gates
    unfolding boot
    boot-names disk cfg = refl

    boot-Has :
        (disk : Store f.Float) (cfg : Config f)
        → cfg.metrics.enabled ≡ true
        → Holds f (Has f disk.request_stats) (boot f disk cfg)
    unfolding boot
    boot-Has disk cfg on = (disk, (rw (on) refl, refl))

    boot-none :
        (disk : Store f.Float) (cfg : Config f)
        → cfg.metrics.enabled ≡ false
        → (boot f disk cfg).store ≡ none
    unfolding boot
    boot-none disk cfg off = rw (off) refl

    -- Whatever the program does after it started with a configuration, on a database that may have
    -- rows of earlier runs: with metrics, the table of the request statistics has those rows, and
    -- after them one for each gate of that configuration and each tick of the flush, but for the rows that SQLite refuses, in the order of the ticks and of the gates,
    -- with the totals of that gate that were gathered for the tick. A tick without an answer from the
    -- gatherer writes none, and no other move touches the table. Without metrics there is none.
    pub stats-run :
        (disk : Store f.Float) (cfg : Config f) (xs : List (Move f Bytes))
        → table f (run f unmarshal env xs (boot f disk cfg)).store ≡ (
            if cfg.metrics.enabled
            then some (disk.request_stats ++ all_rows f (map (λ g. g.name) cfg.jump_gates) xs)
            else none)
    stats-run disk cfg xs =
        let names = map (λ g. g.name) cfg.jump_gates in
        let end = run f unmarshal env xs (boot f disk cfg) in
        let shown : Bool → Option (List (StatRow f.Float)) =
          (λ b. if b then some (disk.request_stats ++ all_rows f names xs) else none) in
        elim (Bool-cases cfg.metrics.enabled) [
          | inl on ↦
              table-Has f end
                (run-Has xs disk.request_stats (boot f disk cfg) (boot-Has disk cfg on))
              ∙ ap (λ n. some (disk.request_stats ++ all_rows f n xs)) (boot-names disk cfg)
              ∙ ap shown (sym on)
          | inr off ↦
              ap (table f) (none-run xs (boot f disk cfg) (boot-none disk cfg off))
              ∙ ap shown (sym off)
        ]
