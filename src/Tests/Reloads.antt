-- ===== src/Tests/Reloads.antt =====
-- cmd/centauri/main.go and internal/config/watcher.go at concrete inputs: two gates, one of them
-- reloaded.
use Prim.Native.String.{String}
use proxy_centauri.Prelude.{
  ◌≡◌, refl, true, false, Option, none, some, List, [], ◌∷◌, inl, inr, pos, map, contains,
}
use proxy_centauri.Config.{StarSystem, JumpGate, Config, load}
use proxy_centauri.Health
use proxy_centauri.Health.{Network, set_event_func}
use proxy_centauri.Health.Steps.{step, step_from}
use proxy_centauri.Reload.{
  Move, file_event, checks, routes, ends, start, open_gates, open_gate, scan_for, modify, move, run,
}
use proxy_centauri.Reload.Names.{Follows, kept}
use proxy_centauri.Reload.Gates.{last_named}
use proxy_centauri.Reload.Watched.{all_loaded, Quiet, Follows-run}
use proxy_centauri.Tests.Oracles.{whole}

abbrev star : String → StarSystem
star a = record { address = a; weight = pos 1 }

abbrev pub gate_of : String → List String → JumpGate whole
gate_of name addrs = record {
  name = name;
  listen = ":80";
  protocol = "tcp";
  orbital_router = "least_connections";
  tls = record { mode = ""; domain = ""; cert_file = ""; key_file = "" };
  flux_shield = record { requests_per_second = pos 0; burst = pos 0 };
  star_systems = map star addrs;
}

abbrev config_of : List (JumpGate whole) → Config whole
config_of gates = record {
  mission_control = record { port = pos 8080; secret = "" };
  jump_gates = gates;
  metrics = record { enabled = true; port = pos 9090 };
  oracle = record {
    enabled = false;
    api_key = "";
    model = "";
    interval_seconds = pos 0;
    threat_detection = false;
    scaling_advisor = false;
    error_rate_threshold = pos 0;
    p95_latency_threshold = pos 0;
  };
}

-- A file that is read as itself, but for a broken one.
abbrev pub parse : Option (Config whole) → Option (Config whole)
parse c = c

abbrev pub first : Config whole
first = config_of (gate_of "web" ("a:1" ∷ "b:2" ∷ []) ∷ gate_of "db" ("d:4" ∷ []) ∷ [])

abbrev second : Config whole
second = config_of (gate_of "web" ("b:2" ∷ "c:3" ∷ []) ∷ gate_of "new" ("n:5" ∷ []) ∷ [])

abbrev pub only_b : Network
only_b = record {
  http_get = λ url. none;
  dial_tcp = λ a. contains a ("b:2" ∷ []);
  dial_udp = λ a. false;
  write_udp = λ a. false;
  read_udp = λ a. false;
}

-- A check, with requests at its first ping and behind it; a reload, a file that is broken, and the
-- first steps of another check.
abbrev moves : List (Move whole (Option (Config whole)))
moves =
    checks 0 only_b
    ∷ checks 0 only_b
    ∷ routes 0
    ∷ checks 0 only_b
    ∷ routes 0
    ∷ checks 0 only_b
    ∷ checks 0 only_b
    ∷ checks 0 only_b
    ∷ file_event true false (some (some second))
    ∷ file_event true false (some none)
    ∷ routes 0
    ∷ ends 0 "b:2"
    ∷ file_event false false (some (some first))
    ∷ checks 0 only_b
    ∷ checks 0 only_b
    ∷ []

abbrev pub no_env : String → String
no_env name = ""

moves-Quiet : Quiet whole parse no_env moves (start whole first)
unfolding load start open_gates open_gate scan_for set_event_func Health.new move modify step
    step_from
moves-Quiet = (inr (refl, (refl, tt)), (inl refl, (inl refl, tt)))

Follows-run_example :
    Follows "web"
      (kept
        (last_named whole "web" (all_loaded whole parse no_env moves))
        (last_named whole "web" first.jump_gates))
      (run whole parse no_env moves (start whole first))
unfolding all_loaded load
Follows-run_example =
    Follows-run whole parse no_env first moves "web" ((refl, (refl, tt)), ((refl, tt), tt))
      ((refl, (refl, tt)), ((refl, tt), tt)) moves-Quiet

what_web_watches :
    kept
      (last_named whole "web" (all_loaded whole parse no_env moves))
      (last_named whole "web" first.jump_gates)
    ≡ some ("b:2" ∷ "c:3" ∷ [])
unfolding all_loaded load last_named
what_web_watches = refl
