-- ===== src/Launch.antt =====
-- The servers that cmd/centauri/main.go starts for its gates, with internal/tls/stellar.go. Each is
-- started by a goroutine of its own: a job in a list, and a start does the jobs in any order. What
-- the system says to a bind, and whether the files of a certificate can be loaded, are parameters.
pub mod Reports
pub mod Sockets
use proxy_centauri.Prelude.{
  Option, some, none, String, Bool, true, false, List, [], ◌∷◌, ◌++◌, if◌then◌else◌, str_eq,
}
use proxy_centauri.Config.{TlsConfig, JumpGate}
use proxy_centauri.Floats.{Float64}

-- How a gate serves: TLS with certificates for a domain, or with files, HTTP, and the tunnels.
pub data Front : Type 0 where
  auto_tls : String → Front
  manual_tls : String → String → Front
  plain_http : Front
  tcp_tunnel : Front
  udp_tunnel : Front

-- A gate by its name, or the challenges of the manager whose whitelist is the domain.
pub data Service : Type 0 where
  gates : String → Front → Service
  challenges : String → Service

pub record Job : Type 0 where
  pub over_udp : Bool
  pub address : String
  pub service : Service

-- The listener that `AutoCert` starts.
unfoldable pub auto_cert : String → Job
auto_cert domain = record { over_udp = false; address = ":80"; service = challenges domain }

-- `ManualCert`, the pair or its error, which main does not call: it gives the files to the server.
unfoldable pub manual_cert : (String → String → Bool) → String → String → Option (String × String)
manual_cert loads cert_file key_file =
    if loads cert_file key_file then some (cert_file, key_file) else none

-- The switch on the mode of TLS.
unfoldable pub http_jobs : String → String → TlsConfig → List Job
unfolding auto_cert
http_jobs name listen tls =
    let on : Front → Job =
      (λ front. record { over_udp = false; address = listen; service = gates name front }) in
    if str_eq tls.mode "auto"
    then auto_cert tls.domain ∷ on (auto_tls tls.domain) ∷ []
    else if str_eq tls.mode "manual"
    then on (manual_tls tls.cert_file tls.key_file) ∷ []
    else on plain_http ∷ []

-- The three tests of the protocol.
unfoldable pub gate_jobs : (f : Float64) → JumpGate f → List Job
unfolding http_jobs
gate_jobs f gate =
    let tunnel : Bool → Front → Job = (λ over_udp front. record {
      over_udp = over_udp;
      address = gate.listen;
      service = gates gate.name front;
    }) in
    (if str_eq gate.protocol "http" then http_jobs gate.name gate.listen gate.tls else [])
    ++ (if str_eq gate.protocol "tcp" then tunnel false tcp_tunnel ∷ [] else [])
    ++ (if str_eq gate.protocol "udp" then tunnel true udp_tunnel ∷ [] else [])

-- The loop over the gates.
unfoldable pub jobs : (f : Float64) → List (JumpGate f) → List Job
unfolding gate_jobs
jobs f [] = []
jobs f (gate ∷ rest) = gate_jobs f gate ++ jobs f rest

-- `free` says whether a bind succeeds beside what is bound, `loads` whether a pair of files does.
pub record System : Type 0 where
  pub free : Bool → String → List Job → Bool
  pub loads : String → String → Bool

-- What serves, and the gates whose failure was logged.
pub record Host : Type 0 where
  pub bound : List Job
  pub failed : List String

unfoldable pub idle : Host
idle = record { bound = []; failed = [] }

-- The end of a server's goroutine: that of a gate logs the error, that of the challenges does not.
unfoldable pub fail : Service → Host → Host
fail (gates name front) h = record h { failed = h.failed ++ name ∷ [] }
fail (challenges domain) h = h

unfoldable pub has_files : (String → String → Bool) → Service → Bool
has_files loads (gates name (auto_tls domain)) = true
has_files loads (gates name (manual_tls cert key)) = loads cert key
has_files loads (gates name plain_http) = true
has_files loads (gates name tcp_tunnel) = true
has_files loads (gates name udp_tunnel) = true
has_files loads (challenges domain) = true

module _ (sys : System) where
  unfoldable pub start : Job → Host → Host
  unfolding fail has_files
  start job h =
      if sys.free job.over_udp job.address h.bound
      then if has_files sys.loads job.service
        then record h { bound = job ∷ h.bound }
        else fail job.service h
      else fail job.service h

  unfoldable pub launch : List Job → Host → Host
  unfolding start
  launch [] h = h
  launch (job ∷ rest) h = launch rest (start job h)
