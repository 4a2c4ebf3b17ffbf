-- ===== src/Wizard/Typed.antt =====
-- The configuration that comes of answers typed into the wizard of cmd/centauri/wizard.go.
use Prim.Native.String.{String}
use proxy_centauri.Prelude.{
  ℕ, ◌<◌, ◌≡◌, refl, ap, true, false, Option, none, some, ◌∷◌, arith, length, All, map, pos,
}
use proxy_centauri.Config.{FluxShieldConfig, OracleConfig, Config, load}
use proxy_centauri.Config.Env.{expand_env}
use proxy_centauri.Floats.{Float64}
use proxy_centauri.Numbers.{decimal}
use proxy_centauri.Wizard.{
  ask_shield, ask_oracle, ask_rest, ask, config_with, zero_float, wizard, written,
}
use proxy_centauri.Wizard.Lines.{IsAnswer, type_line, prompt-type_line, decimal-IsAnswer}
use proxy_centauri.Wizard.Script.{
  Answers, type_pair, type_all, star, tls_of, Pair-IsAnswer, Tls-IsAnswer, no, yes,
  ask_backends-type, ask_tls-type, or_else-decimal,
}

module _ (f : Float64) (parse_float : String → f.Float) where
  abbrev pub shield_of : Option (String × ℕ) → FluxShieldConfig f
  shield_of none = record { requests_per_second = zero_float f; burst = pos 0 }
  shield_of (some (rps, burst)) = record {
    requests_per_second = parse_float rps;
    burst = pos burst;
  }

  abbrev pub IsRate : Option (String × ℕ) → Type 0
  IsRate none = Unit
  IsRate (some (rps, burst)) = f.le (parse_float rps) (zero_float f) ≡ false

  ask_shield-type :
      (o : Option (String × ℕ)) (s : String)
      → Pair-IsAnswer o
      → IsRate o
      → ask_shield f parse_float (type_pair o s) ≡ (shield_of o, s)
  unfolding ask_shield type_pair
  ask_shield-type none s v r = rw (prompt-type_line "n" "n" s no) refl
  ask_shield-type (some (rps, burst)) s v r =
      rw
        (
          prompt-type_line "n" "y" (type_line rps (type_line (decimal burst "") s)) yes,
          prompt-type_line "100" rps (type_line (decimal burst "") s) v.0,
          prompt-type_line "20" (decimal burst "") s (decimal-IsAnswer burst),
          r,
          or_else-decimal burst (pos 20) v.1 v.2,
        )
        refl

  -- The oracle's part, its key as `key` gives it.
  abbrev pub oracle_of : (String → String) → Option (String × ℕ) → OracleConfig f
  oracle_of key none = record {
    enabled = false;
    api_key = "";
    model = "";
    interval_seconds = pos 0;
    threat_detection = false;
    scaling_advisor = false;
    error_rate_threshold = zero_float f;
    p95_latency_threshold = zero_float f;
  }
  oracle_of key (some (api_key, seconds)) = record {
    enabled = true;
    api_key = key api_key;
    model = "claude-haiku-4-5-20251001";
    interval_seconds = pos seconds;
    threat_detection = true;
    scaling_advisor = true;
    error_rate_threshold = f.literal 5 2;
    p95_latency_threshold = f.of_int (pos 500);
  }

  ask_oracle-type :
      (o : Option (String × ℕ)) (s : String)
      → Pair-IsAnswer o
      → ask_oracle f parse_float (type_pair o s) ≡ (oracle_of (λ k. k) o, s)
  unfolding ask_oracle type_pair
  ask_oracle-type none s v = rw (prompt-type_line "n" "n" s no) refl
  ask_oracle-type (some (api_key, seconds)) s v =
      rw
        (
          prompt-type_line "n" "y" (type_line api_key (type_line (decimal seconds "") s)) yes,
          prompt-type_line "${ORACLE_API_KEY}" api_key (type_line (decimal seconds "") s) v.0,
          prompt-type_line "300" (decimal seconds "") s (decimal-IsAnswer seconds),
          v.0.given,
          or_else-decimal seconds (pos 300) v.1 v.2,
        )
        refl

  -- The configuration that the answers describe.
  abbrev pub config_of : (String → String) → Answers → Config f
  config_of key a =
      config_with f
        (record {
          name = a.name;
          listen = a.listen;
          protocol = a.protocol;
          orbital_router = a.lb_algo;
          tls = tls_of a.tls;
          flux_shield = shield_of a.rate;
          star_systems = map star (a.backend ∷ a.more);
        })
        (oracle_of key a.oracle)

  -- Every text is one line, trimmed and not empty; the rate and the whole numbers are above 0 and
  -- in range.
  pub record IsTyped (a : Answers) : Type 0 where
    pub name : IsAnswer a.name
    pub listen : IsAnswer a.listen
    pub protocol : IsAnswer a.protocol
    pub backend : IsAnswer a.backend
    pub more : All IsAnswer a.more
    pub lb_algo : IsAnswer a.lb_algo
    pub rate : Pair-IsAnswer a.rate
    pub positive : IsRate a.rate
    pub tls : Tls-IsAnswer a.tls
    pub oracle : Pair-IsAnswer a.oracle

  ask-type_all :
      (fuel : ℕ) (a : Answers)
      → IsTyped a
      → length a.more < fuel
      → ask f parse_float fuel (type_all a) ≡ some (config_of (λ k. k) a)
  unfolding ask ask_rest type_all
  ask-type_all fuel a v h =
      rw
        (
          prompt-type_line "web-app" a.name _ v.name,
          prompt-type_line ":8080" a.listen _ v.listen,
          prompt-type_line "http" a.protocol _ v.protocol,
          ask_backends-type a.backend a.more fuel _ v.backend v.more h,
          prompt-type_line "round_robin" a.lb_algo _ v.lb_algo,
          ask_shield-type a.rate _ v.rate v.positive,
          ask_tls-type a.tls _ v.tls,
          ask_oracle-type a.oracle "" v.oracle,
        )
        refl

  wizard-written :
      {Bytes : Type 0} (marshal : Config f → Option Bytes) (bytes : Bytes) (fuel : ℕ)
      (reader : String) (cfg : Config f)
      → ask f parse_float fuel reader ≡ some cfg
      → marshal cfg ≡ some bytes
      → wizard f parse_float marshal true fuel reader ≡ some (written bytes)
  unfolding wizard
  wizard-written marshal bytes fuel reader cfg e k = ground (arith, e, k)

  expanded :
      (env : String → String) (o : Option (String × ℕ))
      → record (oracle_of (λ k. k) o) { api_key = expand_env env (oracle_of (λ k. k) o).api_key }
        ≡ oracle_of (expand_env env) o
  unfolding expand_env
  expanded env none = refl
  expanded env (some (api_key, seconds)) = refl

  load-config_of :
      {Bytes : Type 0} (unmarshal : Bytes → Option (Config f)) (env : String → String)
      (bytes : Bytes) (a : Answers)
      → unmarshal bytes ≡ some (config_of (λ k. k) a)
      → load f unmarshal env (some bytes) ≡ some (config_of (expand_env env) a)
  unfolding load
  load-config_of unmarshal env bytes a e =
      rw (load, e)
        (ap (λ (o : OracleConfig f). some (record (config_of (λ k. k) a) { oracle = o }))
          (expanded env a.oracle))

  -- Answers that are typed line by line, with fuel for more rounds than there are further backends,
  -- end in a file that holds the configuration they describe: if YAML turns that into bytes and the
  -- bytes back into it, and the file can be written, then it holds the bytes, and `Load` makes of
  -- them what the answers say, with the variables in the API key replaced by their values.
  pub load-wizard :
      {Bytes : Type 0} (marshal : Config f → Option Bytes) (unmarshal : Bytes → Option (Config f))
      (env : String → String) (bytes : Bytes) (fuel : ℕ) (a : Answers)
      → ((c : Config f) (b : Bytes) → marshal c ≡ some b → unmarshal b ≡ some c)
      → marshal (config_of (λ k. k) a) ≡ some bytes
      → IsTyped a
      → length a.more < fuel
      → (wizard f parse_float marshal true fuel (type_all a) ≡ some (written bytes))
        × (load f unmarshal env (some bytes) ≡ some (config_of (expand_env env) a))
  load-wizard marshal unmarshal env bytes fuel a yaml e v h = (
    wizard-written marshal bytes fuel (type_all a) _ (ask-type_all fuel a v h) e,
    load-config_of unmarshal env bytes a (yaml _ bytes e),
  )
