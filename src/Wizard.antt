-- ===== src/Wizard.antt =====
-- cmd/centauri/wizard.go. What is typed is the text that the reader has left; the prompts that are
-- printed are left out. ParseFloat, with its error ignored, and YAML's Marshal are parameters;
-- whether the file can be written is an argument.

pub mod Lines
pub mod Loop
pub mod Script
pub mod Typed
use Prim.Native.String.{String}
use proxy_centauri.Prelude.{
  ℕ, zero, suc, Bool, true, false, not, ◌||◌, Option, none, some, List, [], ◌∷◌, if◌then◌else◌,
  str_eq, ℤ, pos, negsuc, ltb_ℤ,
}
use proxy_centauri.Config.{StarSystem, TlsConfig, FluxShieldConfig, JumpGate, OracleConfig, Config}
use proxy_centauri.Floats.{Float64}
use proxy_centauri.Http.Text.{before, behind, trim_space}
use proxy_centauri.Numbers.Atoi.{atoi}

-- An answer, and what is left to read. At the end of the input the line is empty.
unfoldable pub prompt : String → String → String × String
prompt default_val reader =
    let line = trim_space (before b'\n' reader) in
    (if str_eq line "" then default_val else line, behind b'\n' reader)

-- `strings.EqualFold(s, "y")`.
abbrev pub is_yes : String → Bool
is_yes s = str_eq s "y" || str_eq s "Y"

abbrev pub and_then :
    StarSystem → Option (List StarSystem × String) → Option (List StarSystem × String)
and_then x none = none
and_then x (some (xs, reader)) = some (x ∷ xs, reader)

-- The loop over backends, `none` out of fuel.
unfoldable pub ask_backends : ℕ → String → Option (List StarSystem × String)
ask_backends zero reader = none
ask_backends (suc fuel) reader =
    let (addr, reader1) = prompt "localhost:3000" reader in
    let (more, reader2) = prompt "n" reader1 in
    let rest = ask_backends fuel reader2 in
    let star : StarSystem = record { address = addr; weight = pos 1 } in
    if not (is_yes (trim_space more)) then some (star ∷ [], reader2) else and_then star rest

-- A number that is not above 0 is replaced.
abbrev pub or_else : ℤ → ℤ → ℤ
or_else n default_val = if ltb_ℤ (pos 0) n then n else default_val

unfoldable pub ask_tls : String → TlsConfig × String
ask_tls reader =
    let off : TlsConfig = record { mode = ""; domain = ""; cert_file = ""; key_file = "" } in
    let (enable, reader1) = prompt "n" reader in
    let (mode, reader2) = prompt "auto" reader1 in
    let (first, reader3) = prompt (if str_eq mode "auto" then "" else "cert.pem") reader2 in
    let (second, reader4) = prompt "key.pem" reader3 in
    if not (is_yes enable)
    then (off, reader1)
    else if str_eq mode "auto"
    then (record off { mode = mode; domain = first }, reader3)
    else if str_eq mode "manual"
    then (record off { mode = mode; cert_file = first; key_file = second }, reader4)
    else (record off { mode = mode }, reader2)

module _ (f : Float64) where
  abbrev pub zero_float : f.Float
  zero_float = f.of_int (pos 0)

  -- The configuration that is built.
  abbrev pub config_with : JumpGate f → OracleConfig f → Config f
  config_with gate oracle = record {
    mission_control = record { port = pos 8080; secret = "change-me" };
    jump_gates = gate ∷ [];
    metrics = record { enabled = true; port = pos 9090 };
    oracle = oracle;
  }

module _ (f : Float64) (parse_float : String → f.Float) where
  unfoldable pub ask_shield : String → FluxShieldConfig f × String
  ask_shield reader =
      let (enable, reader1) = prompt "n" reader in
      let (rps_str, reader2) = prompt "100" reader1 in
      let (burst_str, reader3) = prompt "20" reader2 in
      let rps = parse_float rps_str in
      if not (is_yes enable)
      then (record { requests_per_second = zero_float f; burst = pos 0 }, reader1)
      else (
        record {
          requests_per_second = if f.le rps (zero_float f) then f.of_int (pos 100) else rps;
          burst = or_else (atoi burst_str) (pos 20);
        },
        reader3,
      )

  unfoldable pub ask_oracle : String → OracleConfig f × String
  ask_oracle reader =
      let (enable, reader1) = prompt "n" reader in
      let (api_key, reader2) = prompt "${ORACLE_API_KEY}" reader1 in
      let (interval_str, reader3) = prompt "300" reader2 in
      if not (is_yes enable)
      then (
        record {
          enabled = false;
          api_key = "";
          model = "";
          interval_seconds = pos 0;
          threat_detection = false;
          scaling_advisor = false;
          error_rate_threshold = zero_float f;
          p95_latency_threshold = zero_float f;
        },
        reader1,
      )
      else (
        record {
          enabled = true;
          api_key = if str_eq api_key "" then "${ORACLE_API_KEY}" else api_key;
          model = "claude-haiku-4-5-20251001";
          interval_seconds = or_else (atoi interval_str) (pos 300);
          threat_detection = true;
          scaling_advisor = true;
          error_rate_threshold = f.literal 5 2;
          p95_latency_threshold = f.of_int (pos 500);
        },
        reader3,
      )

  unfoldable pub ask_rest :
      String → String → String → Option (List StarSystem × String) → Option (Config f)
  ask_rest name listen protocol none = none
  ask_rest name listen protocol (some (star_systems, reader)) =
      let (lb_algo, reader1) = prompt "round_robin" reader in
      let (flux_shield, reader2) = ask_shield reader1 in
      let (tls, reader3) = ask_tls reader2 in
      let (oracle, reader4) = ask_oracle reader3 in
      some (
        config_with f
          (record {
            name = name;
            listen = listen;
            protocol = protocol;
            orbital_router = lb_algo;
            tls = tls;
            flux_shield = flux_shield;
            star_systems = star_systems;
          })
          oracle)

  unfoldable pub ask : ℕ → String → Option (Config f)
  ask fuel reader =
      let (name, reader1) = prompt "web-app" reader in
      let (listen, reader2) = prompt ":8080" reader1 in
      let (protocol, reader3) = prompt "http" reader2 in
      ask_rest name listen protocol (ask_backends fuel reader3)

-- What becomes of the file.
pub data Outcome (Bytes : Type 0) : Type 0 where
  not_marshalled : Outcome Bytes
  not_written : Outcome Bytes
  written : Bytes → Outcome Bytes

unfoldable pub wizard :
    (f : Float64) (parse_float : String → f.Float) {Bytes : Type 0}
    → (Config f → Option Bytes)
    → Bool
    → ℕ
    → String
    → Option (Outcome Bytes)
wizard f parse_float marshal can_write fuel reader = elim (ask f parse_float fuel reader) [
  | none ↦ none
  | some cfg ↦ elim (marshal cfg) [
    | none ↦ some not_marshalled
    | some bytes ↦ some (if can_write then written bytes else not_written)
  ]
]
