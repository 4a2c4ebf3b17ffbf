-- ===== src/Http.antt =====
-- What the gates' handlers use of net/http: a response on the wire, the calls that a handler makes
-- on its `http.ResponseWriter`, and the status recorder that internal/metrics/middleware.go and
-- internal/logger/stellar.go wrap round it (each file has its own copy of that type).
pub mod Recorder
pub mod Text
use proxy_centauri.Prelude.{
  ℕ, String, Bool, true, false, not, ◌&&◌, ◌||◌, Option, none, some, List, [], ◌∷◌, ◌++◌,
  if◌then◌else◌, leb, ◌==◌,
}

-- A call of a handler on its writer; status codes are those that net/http takes, 100 to 999.
pub data WriterCall : Type 0 where
  writes_header : ℕ → WriterCall
  writes : List ℕ → WriterCall

-- `http.ResponseWriter` over a state.
pub record ResponseWriter (S : Type 0) : Type 0 where
  pub write_header : ℕ → S → S
  pub write : List ℕ → S → S

abbrev pub call : {S : Type 0} → ResponseWriter S → WriterCall → S → S
call w (writes_header code) s = w.write_header code s
call w (writes b) s = w.write b s

unfoldable pub serve : {S : Type 0} → ResponseWriter S → List WriterCall → S → S
serve w [] s = s
serve w (c ∷ cs) s = serve w cs (call w c s)

-- The server's own response: the informational headers sent, the final status, and the body.
pub record Wire : Type 0 where
  pub informational : List ℕ
  pub status : Option ℕ
  pub body : List ℕ

-- 1xx but for 101 Switching Protocols: a header that net/http sends ahead of the final one.
abbrev pub is_informational : ℕ → Bool
is_informational code = leb 100 code && leb code 199 && not (code == 101)

-- A second final header is superfluous and ignored.
abbrev pub wire_header : Option ℕ → ℕ → Wire → Wire
wire_header none code w =
    if is_informational code
    then record w { informational = w.informational ++ code ∷ [] }
    else record w { status = some code }
wire_header (some s) code w = w

-- A write sends the header 200 if none is sent.
abbrev pub wire_write : Option ℕ → List ℕ → Wire → Wire
wire_write none b w = record w { status = some 200; body = w.body ++ b }
wire_write (some s) b w = record w { body = w.body ++ b }

abbrev pub wire : ResponseWriter Wire
wire = record {
  write_header = λ code w. wire_header w.status code w;
  write = λ b w. wire_write w.status b w;
}

-- The status that the client gets: 200 if the handler returns without a header.
abbrev pub sent : Wire → ℕ
sent w = elim w.status [ none ↦ 200 | some code ↦ code ]

-- `statusWriter`, over the writer that it embeds.
pub record StatusWriter (S : Type 0) : Type 0 where
  pub inner : S
  pub status : ℕ
  pub wrote : Bool

unfoldable pub sw_write_header :
    {S : Type 0} → ResponseWriter S → ℕ → StatusWriter S → StatusWriter S
sw_write_header w code sw =
    if not sw.wrote
    then record sw { inner = w.write_header code sw.inner; status = code; wrote = true }
    else sw

unfoldable pub sw_write : {S : Type 0} → ResponseWriter S → List ℕ → StatusWriter S → StatusWriter S
sw_write w b sw =
    let sw' = if not sw.wrote then record sw { status = 200; wrote = true } else sw in
    record sw' { inner = w.write b sw'.inner }

unfoldable pub status_writer : {S : Type 0} → ResponseWriter S → ResponseWriter (StatusWriter S)
unfolding sw_write_header sw_write
status_writer w = record { write_header = sw_write_header w; write = sw_write w }

-- `&statusWriter{ResponseWriter: w, status: http.StatusOK}`
abbrev pub wrap : {S : Type 0} → S → StatusWriter S
wrap s = record { inner = s; status = 200; wrote = false }

-- What the handlers read of a request.
pub record Request : Type 0 where
  pub method : String
  pub path : String
  -- The header X-Forwarded-For, "" where there is none.
  pub forwarded_for : String
  pub remote_addr : String

-- How a handler ends: it returns, or it panics (as the reverse proxy does to abort a response).
pub data Outcome : Type 0 where
  returns panics : Outcome
