-- ===== src/Tests/Programs.antt =====
-- cmd/centauri/main.go as a whole at concrete inputs: flushes, analyses, requests and health checks.
use proxy_centauri.Prelude.{
  ◌+◌, arith, ltb, count, String, if◌then◌else◌, false, ◌≡◌, ◌*◌, ◌^◌, ◌/◌, ◌<◌, ◌==◌, refl, true,
  Option, none, some, List, [], ◌∷◌, ◌++◌, map, pos, take, All, wrap64, bits64, of_bits64,
}
use mathlib.Core.List.Permᴰ
use proxy_centauri.Launch.{System, launch, jobs, idle}
use proxy_centauri.Launch.Reports.{served, known_gates, reports-jobs}
use proxy_centauri.Launch.Sockets.{Exclusive, asking, any_listens, asked-jobs}
use proxy_centauri.Config.{JumpGate, Config}
use proxy_centauri.Metrics.Store
use proxy_centauri.Metrics.Store.Active.{Board}
use proxy_centauri.Oracle.Engine
use proxy_centauri.Oracle.Engine.{
  OracleResponse, Oracle, World, call_claude, since, interval, breaches, should_call, snaps_of,
  signal_of,
}
use proxy_centauri.Oracle.Signals.{lists}
use proxy_centauri.Reload
use proxy_centauri.Main.{
  Move, flushes, oracle_ticks, requests, runs, boot, run, move, serve, oracle_tick, answers, rerun,
}
use proxy_centauri.Main.Rows.{all_rows, table}
use proxy_centauri.Main.Stats.{stats-run}
use proxy_centauri.Main.Alerts.{alerts-get}
use proxy_centauri.Tests.Oracles.{whole}
use proxy_centauri.Tests.Reloads.{gate_of, first, parse, no_env, only_b}
use proxy_centauri.Tests.Signals.{families}

abbrev advised : Config whole
advised = record first {
  oracle = record first.oracle { enabled = true; api_key = "key"; model = "claude" };
}

abbrev alarming : OracleResponse
alarming = record {
  kind = "threat";
  level = "high";
  gate = "web";
  summary = "";
  reasoning = "";
  action = "";
}

abbrev alarmed : World whole
alarmed = record {
  now = 400 * 10 ^ 9;
  current = [];
  message = some ("{}" ∷ []);
  unmarshal = λ text. some alarming;
  answered = 402 * 10 ^ 9;
  saves = true;
}

-- What an earlier run left in the database.
abbrev earlier : List (Store.Statement whole.Float)
earlier =
    Store.flushes true 10 "web" (pos 5) (pos 1) (pos 7)
    ∷ Store.saves true 12 (signal_of whole alarming)
    ∷ []

-- A row is refused, a backend is found down, and the second flush finds the gatherer in error.
abbrev day : List (Move whole (Option (Config whole)))
day =
    flushes (record {
      now = 30;
      takes = λ i. i == 0;
      for_rows = some families;
      for_check = some families;
      for_analyze = none;
      world = record alarmed { message = none };
    })
    ∷ runs (Reload.checks 0 only_b) (λ i. true) 35
    ∷ runs (Reload.checks 0 only_b) (λ i. true) 35
    ∷ runs (Reload.checks 0 only_b) (λ i. true) 35
    ∷ oracle_ticks (some families) alarmed
    ∷ flushes (record {
      now = 60;
      takes = λ i. true;
      for_rows = none;
      for_check = some families;
      for_analyze = some families;
      world = alarmed;
    })
    ∷ requests true "POST" "/oracle/signals/1/resolve"
    ∷ []

stats-run_example :
    table whole
      (run whole parse no_env day (boot whole (Store.run earlier Store.new) advised)).store
    ≡ some (
        (Store.run earlier Store.new).request_stats
        ++ all_rows whole (map (λ g. g.name) advised.jump_gates) day)
stats-run_example = stats-run whole parse no_env (Store.run earlier Store.new) advised day

-- The database of the earlier run has a row.
one_row : map (λ r. r.gate) (Store.run earlier Store.new).request_stats ≡ "web" ∷ []
unfolding Store.run Store.new Store.apply Store.flush Store.save_signal
one_row = refl

abbrev morning : List (Move whole (Option (Config whole)))
morning =
    requests true "POST" "/oracle/signals/1/resolve" ∷ runs (Reload.routes 0) (λ i. true) 35 ∷ []

abbrev advisor : Oracle whole
advisor = record {
  cfg = record advised.oracle { interval_seconds = pos 300 };
  last_snaps = [];
  last_call = none;
  store = Store.run earlier Store.new;
}

alerts-get_example :
    let m = run whole parse no_env morning (boot whole (Store.run earlier Store.new) advised) in
    (b : Board) × (((serve whole true "GET" "/oracle/signals" m).0
        ≡ some (answers (lists (take 100 b.active))))
      × (((serve whole true "GET" "/oracle/signals" (oracle_tick whole (some families) alarmed m)).0
            ≡ some (
                answers (
                  lists (
                    take 100 (
                      record (signal_of whole alarming) {
                        id = b.next_id;
                        ts = 402 * 10 ^ 9 / 10 ^ 9;
                      }
                      ∷ b.active)))))
          × All (λ sig. sig.id < b.next_id) b.active))
unfolding run move boot Engine.new Engine.with_defaults serve rerun call_claude should_call since
    interval wrap64 bits64 of_bits64 breaches snaps_of
alerts-get_example =
    alerts-get whole parse no_env earlier advised morning (some families) alarmed advisor alarming
      refl refl refl refl (λ e. cc) refl

abbrev tls_gate : String → String → String → String → JumpGate whole
tls_gate name listen protocol mode = record (gate_of name []) {
  listen = listen;
  protocol = protocol;
  tls = record { mode = mode; domain = name; cert_file = "c"; key_file = "k" };
}

-- Two gates with certificates from Let's Encrypt, one on the port of the challenges, and one whose protocol is unknown.
abbrev fleet : List (JumpGate whole)
fleet =
    tls_gate "web" ":443" "http" "auto"
    ∷ tls_gate "api" ":8443" "http" "auto"
    ∷ tls_gate "redirect" ":80" "http" ""
    ∷ tls_gate "dns" ":53" "UDP" ""
    ∷ []

abbrev linux : System
linux = record { free = λ u a bound. ltb (asking u a bound) 1; loads = λ cert key. true }

reports-jobs_example :
    let h = launch linux (jobs whole fleet) idle in
    served "redirect" h.bound + count "redirect" h.failed ≡ known_gates whole "redirect" fleet
reports-jobs_example =
    reports-jobs whole linux "redirect" fleet (jobs whole fleet) (Permᴰ.refl (jobs whole fleet))

linux_on_80 : Exclusive false ":80" linux
linux_on_80 = record {
  refuses = λ bound h. ground (arith, h);
  grants = λ bound h. ground (arith, h);
  has_all = λ cert key. refl;
}

asked-jobs_example :
    asking false ":80" (launch linux (jobs whole fleet) idle).bound
    ≡ (if any_listens whole false ":80" fleet then 1 else 0)
asked-jobs_example =
    asked-jobs linux false ":80" linux_on_80 whole fleet (jobs whole fleet)
      (Permᴰ.refl (jobs whole fleet))

-- Three servers are to listen on ":80". In the order of the file the gate among them comes last.
three_on_80 : asking false ":80" (jobs whole fleet) ≡ 3
unfolding jobs
three_on_80 = refl

redirect_fails : (launch linux (jobs whole fleet) idle).failed ≡ "redirect" ∷ []
unfolding launch jobs idle
redirect_fails = refl
