-- ===== src/Logger.antt =====
-- internal/logger/stellar.go. A line of the log is its entry; the time of an entry is the number
-- that the code formats, and the latency is in milliseconds.
pub mod ClientIp
use proxy_centauri.Prelude.{
  ℕ, ◌-◌, String, Option, none, some, List, [], ◌∷◌, ◌++◌, if◌then◌else◌, str_eq,
}
use proxy_centauri.Http.{
  Request, ResponseWriter, WriterCall, serve, status_writer, wrap, Outcome, returns, panics,
}
use proxy_centauri.Http.Text.{has, before, before_last, trim_space}

pub record LogEntry : Type 0 where
  pub time : ℕ
  pub gate : String
  pub method : String
  pub path : String
  pub status : ℕ
  pub latency_ms : ℕ
  pub client_ip : String

-- `RemoteAddr` up to its last colon.
unfoldable pub without_port : String → String
unfolding before_last
without_port addr = elim (before_last 58 addr) [ none ↦ addr | some host ↦ host ]

unfoldable pub client_ip : Request → String
unfolding has before trim_space without_port
client_ip r =
    if str_eq r.forwarded_for ""
    then without_port r.remote_addr
    else if has 44 r.forwarded_for
    then trim_space (before 44 r.forwarded_for)
    else trim_space r.forwarded_for

unfoldable pub entry_of : String → ℕ → ℕ → Request → ℕ → LogEntry
unfolding client_ip
entry_of gate started ended r status = record {
  time = ended;
  gate = gate;
  method = r.method;
  path = r.path;
  status = status;
  latency_ms = ended - started;
  client_ip = client_ip r;
}

-- A panic of the next handler goes through the middleware, which defers nothing.
unfoldable pub middleware :
    {S : Type 0}
    → ResponseWriter S
    → String
    → ℕ
    → ℕ
    → Request
    → List WriterCall
    → Outcome
    → S × List LogEntry
    → S × List LogEntry
unfolding entry_of
middleware w gate started ended r calls outcome (s, lines) =
    let sw = serve (status_writer w) calls (wrap s) in
    elim outcome [
      | returns ↦ (sw.inner, lines ++ entry_of gate started ended r sw.status ∷ [])
      | panics ↦ (sw.inner, lines)
    ]
