-- ===== src/Oracle/Signals.antt =====
-- internal/oracle/signals.go. The redirect of `http.ServeMux` for a path with empty or dotted
-- segments comes before the handlers and is left out. Whether SQLite takes the statement of a
-- request is an argument.
pub mod Requests
use Prim.Native.Char.{code}
use proxy_centauri.Prelude.{
  ℕ, String, Bool, true, false, ◌&&◌, not, Option, none, some, List, [], ◌∷◌, if◌then◌else◌, ◌==◌,
  str_eq,
}
use proxy_centauri.Http.Text.{has, before, behind}
use proxy_centauri.Numbers.{parse_int}
use proxy_centauri.Metrics.Store.{ThreatSignal, Store, list_signals, resolve_signal}

-- `http.Error` and `http.NotFound` with a status, the JSON array of signals, or 204 and no body.
pub data Response : Type 0 where
  refuses : ℕ → Response
  lists : List ThreatSignal → Response
  no_content : Response

abbrev pub status : Response → ℕ
status (refuses code) = code
status (lists signals) = 200
status no_content = 204

-- What follows a prefix of a text.
unfoldable pub strip_prefix : String → String → Option String
strip_prefix String.[] s = some s
strip_prefix (String.◌∷◌ c p) String.[] = none
strip_prefix (String.◌∷◌ c p) (String.◌∷◌ d s) =
    let rest = strip_prefix p s in if code c == code d then rest else none

-- The handler of the exact path.
unfoldable pub list_handler : {Float : Type 0} → Bool → String → Store Float → Response
unfolding list_signals
list_handler taken method s =
    if not (str_eq method "GET")
    then refuses 405
    else elim (list_signals taken 100 s) [ none ↦ refuses 500 | some signals ↦ lists signals ]

-- The handler of the subtree, on the path behind the prefix: `parts` is it split at its first
-- slash.
unfoldable pub resolve_handler :
    {Float : Type 0} → Bool → String → String → Store Float → Response × Store Float
unfolding resolve_signal
resolve_handler taken method trimmed s =
    if not (str_eq method "POST")
    then (refuses 405, s)
    else if not (has 47 trimmed && str_eq (behind 47 trimmed) "resolve")
    then (refuses 404, s)
    else elim (parse_int (before 47 trimmed)) [
      | none ↦ (refuses 400, s)
      | some id ↦
          let (done, s') = resolve_signal taken id s in
          if done then (no_content, s') else (refuses 500, s')
    ]

-- `SignalsHandler`: the more specific pattern is tried first.
unfoldable pub handle :
    {Float : Type 0} → Bool → String → String → Store Float → Response × Store Float
unfolding strip_prefix list_handler resolve_handler
handle taken method path s = elim (strip_prefix "/oracle/signals/" path) [
  | some trimmed ↦ resolve_handler taken method trimmed s
  | none ↦ (if str_eq path "/oracle/signals" then list_handler taken method s else refuses 404, s)
]
