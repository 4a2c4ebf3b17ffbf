-- ===== src/Main/Setup.antt =====
-- From the answers that are typed into the wizard to where requests go, through both starts of
-- cmd/centauri/main.go.
use proxy_centauri.Prelude.{
  ℕ, ◌<◌, ◌≡◌, refl, ap, sym, subst, ◌∙◌, String, Bool, true, Option, some, List, [], ◌∷◌, map,
  arith, length, eq_iff,
}
use proxy_centauri.Config.{Config, load}
use proxy_centauri.Config.Env.{expand_env}
use proxy_centauri.Floats.{Float64}
use proxy_centauri.Metrics.Store.{Store}
use proxy_centauri.Reload
use proxy_centauri.Reload.{addrs_in}
use proxy_centauri.Reload.Names.{kept}
use proxy_centauri.Reload.Gates.{AllDistinct, last_named}
use proxy_centauri.Reload.Watched.{all_loaded, Quiet}
use proxy_centauri.Reload.Routes.{RoutedBy, routed-run}
use proxy_centauri.Wizard.{wizard, written}
use proxy_centauri.Wizard.Script.{Answers, type_all, star}
use proxy_centauri.Wizard.Typed.{config_of, IsTyped, load-wizard}
use proxy_centauri.Main.{
  Main, Move, flushes, oracle_ticks, requests, runs, boot, move, run, flush_tick, oracle_tick,
  serve, rerun, exits, continues, invoke, is_init,
}

addrs_in-star : (xs : List String) → addrs_in (map star xs) ≡ xs
addrs_in-star [] = refl
addrs_in-star (x ∷ xs) = ap (λ l. x ∷ l) (addrs_in-star xs)

module _ (f : Float64) {Bytes : Type 0} where
  -- What happens to the gates.
  abbrev pub runs_of : List (Move f Bytes) → List (Reload.Move f Bytes)
  runs_of [] = []
  runs_of (flushes x ∷ xs) = runs_of xs
  runs_of (oracle_ticks gathered w ∷ xs) = runs_of xs
  runs_of (requests taken method path ∷ xs) = runs_of xs
  runs_of (runs x takes now ∷ xs) = x ∷ runs_of xs

  module _ (unmarshal : Bytes → Option (Config f)) (env : String → String) where
    -- The gates go on as if they were alone.
    running-run :
        (xs : List (Move f Bytes)) (m : Main f)
        → (run f unmarshal env xs m).running ≡ Reload.run f unmarshal env (runs_of xs) m.running
    unfolding run move Reload.run
    running-run [] m = refl
    running-run (flushes x ∷ xs) m =
        running-run xs (flush_tick f x m)
        ∙ ap (Reload.run f unmarshal env (runs_of xs)) (unfold flush_tick in ground arith)
    running-run (oracle_ticks gathered w ∷ xs) m =
        running-run xs (oracle_tick f gathered w m)
        ∙ ap (Reload.run f unmarshal env (runs_of xs)) (unfold oracle_tick in ground arith)
    running-run (requests taken method path ∷ xs) m =
        running-run xs (serve f taken method path m).1
        ∙ ap (Reload.run f unmarshal env (runs_of xs)) (unfold serve in ground arith)
    running-run (runs x takes now ∷ xs) m =
        running-run xs (rerun f takes now (Reload.move f unmarshal env x m.running) m)
        ∙ ap (Reload.run f unmarshal env (runs_of xs)) (unfold rerun in ground arith)

    running-boot :
        (disk : Store f.Float) (cfg : Config f) → (boot f disk cfg).running ≡ Reload.start f cfg
    unfolding boot
    running-boot disk cfg = refl

    module _ (parse_float : String → Float64.Float f) (marshal : Config f → Option Bytes) where
      invoke-init :
          (fuel : ℕ) (typed : String) (bytes : Bytes) (file : Option Bytes) (disk : Store f.Float)
          → wizard f parse_float marshal true fuel typed ≡ some (written bytes)
          → invoke f parse_float marshal unmarshal env true fuel ("init" ∷ []) typed file disk
            ≡ some (exits true, some bytes)
      unfolding invoke is_init
      invoke-init fuel typed bytes file disk e = rw (e) refl

      invoke-load :
          (can_write : Bool) (fuel : ℕ) (typed : String) (file : Option Bytes)
          (disk : Store f.Float) (cfg : Config f)
          → load f unmarshal env file ≡ some cfg
          → invoke f parse_float marshal unmarshal env can_write fuel [] typed file disk
            ≡ some (continues (boot f disk cfg), file)
      unfolding invoke is_init
      invoke-load can_write fuel typed file disk cfg e = rw (e) refl

      last_typed :
          (a : Answers)
          → last_named f a.name (config_of f parse_float (expand_env env) a).jump_gates
            ≡ some (a.backend ∷ a.more)
      unfolding last_named
      last_typed a = ground (arith, eq_iff a.name a.name, addrs_in-star a.more)

      -- `centauri init` with answers that are typed line by line, and then `centauri`, on any
      -- database: if YAML turns the configuration into bytes and the bytes back into it, the file
      -- can be written, and there is fuel for more rounds than there are further backends, the first
      -- exits with success and the second goes on with what the answers describe. From then on,
      -- whatever the program does, step by step in its checks, where no gate lists an address
      -- twice, in the answers or in a file that is loaded, and no file with gates is loaded while
      -- a check is under way: the next request of the gate goes to a backend that was typed, or, if a
      -- file with a gate of its name was loaded since, that the last such gate has, and that the scan
      -- has for healthy; or it gets none, and then none of those is healthy. While a check of the
      -- scan is under way that has seen a change, it goes to one of those all the same, or gets
      -- none, but its health may be that before.
      pub setup-run :
          (disk : Store f.Float) (bytes : Bytes) (fuel : ℕ) (a : Answers) (file : Option Bytes)
          (xs : List (Move f Bytes))
          → ((c : Config f) (b : Bytes) → marshal c ≡ some b → unmarshal b ≡ some c)
          → marshal (config_of f parse_float (λ k. k) a) ≡ some bytes
          → IsTyped f parse_float a
          → length a.more < fuel
          → AllDistinct f (config_of f parse_float (expand_env env) a).jump_gates
          → AllDistinct f (all_loaded f unmarshal env (runs_of xs))
          → Quiet f unmarshal env
              (runs_of xs)
              (Reload.start f (config_of f parse_float (expand_env env) a))
          → let m = boot f disk (config_of f parse_float (expand_env env) a) in
            (invoke f parse_float marshal unmarshal env true fuel
                ("init" ∷ [])
                (type_all a)
                file
                disk
              ≡ some (exits true, some bytes))
            × (invoke f parse_float marshal unmarshal env true fuel [] "" (some bytes) disk
                ≡ some (continues m, some bytes))
            × RoutedBy a.name
                (kept
                  (last_named f a.name (all_loaded f unmarshal env (runs_of xs)))
                  (some (a.backend ∷ a.more)))
                (run f unmarshal env xs m).running
      setup-run disk bytes fuel a file xs yaml e typed enough d d' quiet =
          let cfg = config_of f parse_float (expand_env env) a in
          let loaded = all_loaded f unmarshal env (runs_of xs) in
          let (w, l) =
            load-wizard f parse_float marshal unmarshal env bytes fuel a yaml e typed enough in
          let routed = routed-run f unmarshal env cfg (runs_of xs) a.name d d' quiet in
          (
            invoke-init fuel (type_all a) bytes file disk w,
            invoke-load true fuel "" (some bytes) disk cfg l,
            subst
                (λ o.
                  RoutedBy a.name (kept (last_named f a.name loaded) o)
                    (run f unmarshal env xs (boot f disk cfg)).running)
                (last_typed a)
                (subst
                  (λ r.
                    RoutedBy a.name
                      (kept (last_named f a.name loaded) (last_named f a.name cfg.jump_gates)) r)
                  (sym (
                    running-run xs (boot f disk cfg)
                    ∙ ap (Reload.run f unmarshal env (runs_of xs)) (running-boot disk cfg)))
                  routed),
          )
