-- ===== src/Config.antt =====
-- internal/config/config.go. YAML is a parameter: what Unmarshal makes of the bytes of a file, or
-- its error.
pub mod Env
use proxy_centauri.Prelude.{String, Bool, Option, none, some, List, ℤ}
use proxy_centauri.Floats.{Float64}

pub record MissionControlConfig : Type 0 where
  pub port : ℤ
  pub secret : String

pub record StarSystem : Type 0 where
  pub address : String
  pub weight : ℤ

pub record TlsConfig : Type 0 where
  pub mode : String
  pub domain : String
  pub cert_file : String
  pub key_file : String

pub record MetricsConfig : Type 0 where
  pub enabled : Bool
  pub port : ℤ

module _ (f : Float64) where
  pub record FluxShieldConfig : Type 0 where
    pub requests_per_second : f.Float
    pub burst : ℤ

  pub record JumpGate : Type 0 where
    pub name : String
    pub listen : String
    pub protocol : String
    pub orbital_router : String
    pub tls : TlsConfig
    pub flux_shield : FluxShieldConfig
    pub star_systems : List StarSystem

  pub record OracleConfig : Type 0 where
    pub enabled : Bool
    pub api_key : String
    pub model : String
    pub interval_seconds : ℤ
    pub threat_detection : Bool
    pub scaling_advisor : Bool
    pub error_rate_threshold : f.Float
    pub p95_latency_threshold : f.Float

  pub record Config : Type 0 where
    pub mission_control : MissionControlConfig
    pub jump_gates : List JumpGate
    pub metrics : MetricsConfig
    pub oracle : OracleConfig

  -- `Load` of what ReadFile gives, with the variables of the environment.
  unfoldable pub load :
      {Bytes : Type 0} → (Bytes → Option Config) → (String → String) → Option Bytes → Option Config
  load unmarshal env none = none
  load unmarshal env (some bytes) = elim (unmarshal bytes) [
    | none ↦ none
    | some cfg ↦ some (record cfg {
      oracle = record cfg.oracle { api_key = Env.expand_env env cfg.oracle.api_key };
    })
  ]
