-- ===== src/Oracle/Engine.antt =====
-- internal/oracle/oracle.go. Times and durations are in nanoseconds; Claude, the metrics and
-- whether the store takes a signal are what the world of each call says of them.
pub mod Calls
pub mod Thresholds
use proxy_centauri.Prelude.{
  ℕ, ◌+◌, ◌-◌, ◌*◌, ◌/◌, ◌^◌, String, Bool, true, false, ◌&&◌, ◌||◌, not, Option, none, some, List,
  [], ◌∷◌, ◌++◌, if◌then◌else◌, ltb, ◌==◌, str_eq, ℤ, pos, negsuc, ltb_ℤ, wrap64,
}
use proxy_centauri.Oracle.Aggregator.{GateSnapshot, build_snapshot}
use proxy_centauri.Config.{OracleConfig}
use proxy_centauri.Floats.{Float64}
use proxy_centauri.Metrics.Collector.{MetricsSnapshot}
use proxy_centauri.Metrics.Store.{ThreatSignal, Store, save_signal}

pub record OracleResponse : Type 0 where
  pub kind : String
  pub level : String
  pub gate : String
  pub summary : String
  pub reasoning : String
  pub action : String

-- `time.Since`, which stops at the largest Duration; `none` is the zero time, long ago.
unfoldable pub since : Option ℕ → ℕ → ℕ
since none now = 2 ^ 63 - 1
since (some t) now = if ltb (2 ^ 63 - 1) (now - t) then 2 ^ 63 - 1 else now - t

abbrev pub is_zero : ℤ → Bool
is_zero (pos n) = n == 0
is_zero (negsuc n) = false

-- Seconds as nanoseconds.
abbrev pub seconds_of : ℤ → ℤ
seconds_of (pos n) = pos (n * 10 ^ 9)
seconds_of (negsuc n) = negsuc ((n + 1) * 10 ^ 9 - 1)

module _ (f : Float64) where
  open f use {Float, of_int, seconds, gt}

  pub record Oracle : Type 0 where
    pub cfg : OracleConfig f
    pub last_snaps : List (GateSnapshot f)
    pub last_call : Option ℕ
    pub store : Store f.Float

  unfoldable pub with_defaults : OracleConfig f → OracleConfig f
  with_defaults cfg = record cfg {
    model = if str_eq cfg.model "" then "claude-haiku-4-5-20251001" else cfg.model;
    interval_seconds = if is_zero cfg.interval_seconds then pos 300 else cfg.interval_seconds;
  }

  unfoldable pub new : OracleConfig f → Store f.Float → Option Oracle
  unfolding with_defaults
  new cfg store =
      if not cfg.enabled || str_eq cfg.api_key ""
      then none
      else some
          (record { cfg = with_defaults cfg; last_snaps = []; last_call = none; store = store })

  -- `time.Duration(o.cfg.IntervalSeconds)*time.Second`, in 64 bits.
  unfoldable pub interval : OracleConfig f → ℤ
  interval cfg = wrap64 (seconds_of cfg.interval_seconds)

  unfoldable pub breaches : OracleConfig f → List (GateSnapshot f) → Bool
  breaches cfg [] = false
  breaches cfg (s ∷ snaps) =
      gt cfg.error_rate_threshold (of_int (pos 0)) && gt s.error_rate cfg.error_rate_threshold
      || gt cfg.p95_latency_threshold (of_int (pos 0)) && gt s.p95_ms cfg.p95_latency_threshold
      || breaches cfg snaps

  unfoldable pub should_call : ℕ → List (GateSnapshot f) → Oracle → Bool
  unfolding since interval breaches
  should_call now snaps o =
      not (ltb_ℤ (pos (since o.last_call now)) (interval o.cfg)) || breaches o.cfg snaps

  -- What the world is to one `analyze`: the time when it begins, the metrics, the texts of the
  -- message from Claude or an error, how JSON reads a text, when `callClaude` returns, and whether
  -- the store takes a signal.
  pub record World : Type 0 where
    pub now : ℕ
    pub current : List (MetricsSnapshot f)
    pub message : Option (List String)
    pub unmarshal : String → Option OracleResponse
    pub answered : ℕ
    pub saves : Bool

  -- `callClaude`, `none` for an error: of the API, of an empty message, of a text that is no JSON.
  unfoldable pub call_claude : World → Option OracleResponse
  call_claude w = elim w.message [
    | none ↦ none
    | some content ↦ elim content [ [] ↦ none | text ∷ texts ↦ w.unmarshal text ]
  ]

  -- The snapshots of `analyze`.
  unfoldable pub snaps_of : World → Oracle → List (GateSnapshot f)
  unfolding since build_snapshot
  snaps_of w o =
      let ns = since o.last_call w.now in
      build_snapshot f w.current o.last_snaps
        (if ns == 0 then of_int o.cfg.interval_seconds else seconds ns)

  unfoldable pub signal_of : OracleResponse → ThreatSignal
  signal_of resp = record {
    id = 0;
    ts = 0;
    gate = resp.gate;
    kind = resp.kind;
    level = resp.level;
    summary = resp.summary;
    reasoning = resp.reasoning;
    action = resp.action;
    resolved = false;
  }

  -- The rest of `analyze`, after `callClaude`.
  unfoldable pub conclude : World → List (GateSnapshot f) → Option OracleResponse → Oracle → Oracle
  unfolding signal_of save_signal
  conclude w snaps none o = o
  conclude w snaps (some resp) o = record o {
    last_call = some w.answered;
    last_snaps = snaps;
    store =
        if str_eq resp.kind "ok"
        then o.store
        else (save_signal w.saves (w.answered / 10 ^ 9) (signal_of resp) o.store).1;
  }

  unfoldable pub analyze : World → Oracle → Oracle
  unfolding snaps_of should_call conclude
  analyze w o =
      let snaps = snaps_of w o in
      if should_call w.now snaps o then conclude w snaps (call_claude w) o else o

  -- `Check`, called with snapshots of its own.
  unfoldable pub check : List (GateSnapshot f) → World → Oracle → Oracle
  unfolding should_call analyze
  check snaps w o = if should_call w.now snaps o then analyze w o else o
