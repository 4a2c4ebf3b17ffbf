-- ===== src/Metrics/Store.antt =====
-- internal/metrics/store.go. The SQL statements as what they say of the tables: a table is its rows
-- in the order of their insertion, and `next_id` is what AUTOINCREMENT gives to the next signal.
-- Whether SQLite takes a statement is an argument; one that fails leaves the tables as they are.
-- Times are Unix seconds.
pub mod Rows
pub mod Active
use proxy_centauri.Prelude.{
  ℕ, zero, suc, ◌+◌, String, Bool, true, false, not, Option, none, some, List, [], ◌∷◌, ◌++◌,
  if◌then◌else◌, ltb, ◌==◌, take, ℤ, pos, negsuc,
}

pub record ThreatSignal : Type 0 where
  pub id : ℕ
  pub ts : ℕ
  pub gate : String
  pub kind : String
  pub level : String
  pub summary : String
  pub reasoning : String
  pub action : String
  pub resolved : Bool

-- The rows of request_stats, over the type of the latency, and of events.
pub record StatRow (Float : Type 0) : Type 0 where
  pub ts : ℕ
  pub gate : String
  pub req_total : ℤ
  pub err_total : ℤ
  pub p95_ms : Float

pub record EventRow : Type 0 where
  pub ts : ℕ
  pub gate : String
  pub kind : String
  pub detail : String

pub record Store (Float : Type 0) : Type 0 where
  pub request_stats : List (StatRow Float)
  pub events : List EventRow
  pub threat_signals : List ThreatSignal
  pub next_id : ℕ

-- The tables that `Init` creates in a new database.
unfoldable pub new : {Float : Type 0} → Store Float
new = record { request_stats = []; events = []; threat_signals = []; next_id = 1 }

-- `Exec`: whether there was no error, and the tables after it.
abbrev exec : {Float : Type 0} → Bool → Store Float → Store Float → Bool × Store Float
exec taken after s = (taken, if taken then after else s)

-- The INSERT of `SaveSignal` gives `sig` an id of its own and the time, and `resolved` its default.
unfoldable pub save_signal :
    {Float : Type 0} → Bool → ℕ → ThreatSignal → Store Float → Bool × Store Float
save_signal taken now sig s =
    let row = record sig { id = s.next_id; ts = now; resolved = false } in
    exec taken (record s { threat_signals = s.threat_signals ++ row ∷ []; next_id = s.next_id + 1 })
      s

-- WHERE resolved = 0
unfoldable pub unresolved : List ThreatSignal → List ThreatSignal
unresolved [] = []
unresolved (row ∷ rows) = let rest = unresolved rows in if row.resolved then rest else row ∷ rest

-- ORDER BY id DESC
unfoldable pub insert_desc : ThreatSignal → List ThreatSignal → List ThreatSignal
insert_desc sig [] = sig ∷ []
insert_desc sig (row ∷ rows) =
    let later = insert_desc sig rows in if ltb sig.id row.id then row ∷ later else sig ∷ row ∷ rows

unfoldable pub order_desc : List ThreatSignal → List ThreatSignal
unfolding insert_desc
order_desc [] = []
order_desc (row ∷ rows) = insert_desc row (order_desc rows)

-- `ListSignals`, `none` for an error.
unfoldable pub list_signals : {Float : Type 0} → Bool → ℕ → Store Float → Option (List ThreatSignal)
unfolding unresolved order_desc
list_signals taken limit s =
    if taken then some (take limit (order_desc (unresolved s.threat_signals))) else none

-- WHERE id = ?
abbrev pub has_id : ℤ → ℕ → Bool
has_id (pos n) row = n == row
has_id (negsuc n) row = false

unfoldable pub mark_resolved : ℤ → List ThreatSignal → List ThreatSignal
mark_resolved id [] = []
mark_resolved id (row ∷ rows) =
    (if has_id id row.id then record row { resolved = true } else row) ∷ mark_resolved id rows

unfoldable pub resolve_signal : {Float : Type 0} → Bool → ℤ → Store Float → Bool × Store Float
unfolding mark_resolved
resolve_signal taken id s =
    exec taken (record s { threat_signals = mark_resolved id s.threat_signals }) s

-- `Flush`, of a snapshot's fields.
unfoldable pub flush :
    {Float : Type 0} → Bool → ℕ → String → ℤ → ℤ → Float → Store Float → Bool × Store Float
flush {Float} taken now gate req_total err_total p95_ms s =
    let row : StatRow Float = record {
      ts = now;
      gate = gate;
      req_total = req_total;
      err_total = err_total;
      p95_ms = p95_ms;
    } in
    exec taken (record s { request_stats = s.request_stats ++ row ∷ [] }) s

unfoldable pub log_event :
    {Float : Type 0} → Bool → ℕ → String → String → String → Store Float → Bool × Store Float
log_event taken now gate kind detail s =
    exec taken
      (record s {
        events = s.events ++ record { ts = now; gate = gate; kind = kind; detail = detail } ∷ [];
      })
      s

-- A statement that changes the tables, and whether SQLite takes it.
pub data Statement (Float : Type 0) : Type 0 where
  saves : Bool → ℕ → ThreatSignal → Statement Float
  resolves : Bool → ℤ → Statement Float
  flushes : Bool → ℕ → String → ℤ → ℤ → Float → Statement Float
  logs : Bool → ℕ → String → String → String → Statement Float

unfoldable pub apply : {Float : Type 0} → Statement Float → Store Float → Store Float
unfolding save_signal resolve_signal flush log_event
apply (saves taken now sig) s = (save_signal taken now sig s).1
apply (resolves taken id) s = (resolve_signal taken id s).1
apply (flushes taken now gate req err p95) s = (flush taken now gate req err p95 s).1
apply (logs taken now gate kind detail) s = (log_event taken now gate kind detail s).1

unfoldable pub run : {Float : Type 0} → List (Statement Float) → Store Float → Store Float
unfolding apply
run [] s = s
run (x ∷ xs) s = run xs (apply x s)
