-- ===== src/Launch/Sockets.antt =====
-- Who gets an address for which several servers of cmd/centauri/main.go ask.
use mathlib.Core.List.{Permᴰ}
use proxy_centauri.Prelude.{
  ℕ, ◌+◌, ◌≡◌, ◌≤◌, refl, ap, ◌∙◌, String, Bool, true, false, ◌&&◌, ◌||◌, not, List, [], ◌∷◌, arith,
  if◌then◌else◌, str_eq, eq_iff, total, total-Permᴰ, total-append, ltb,
}
use proxy_centauri.Config.{JumpGate}
use proxy_centauri.Floats.{Float64}
use proxy_centauri.Launch.{
  Job, System, Host, Service, gates, challenges, auto_tls, manual_tls, plain_http, tcp_tunnel,
  udp_tunnel, jobs, gate_jobs, http_jobs, auto_cert, idle, fail, start, launch, has_files,
}

abbrev pub is_udp : Bool → Bool → Bool
is_udp a b = if a then b else not b

module _ (over_udp : Bool) (address : String) where
  abbrev asks : Job → ℕ
  asks job = if is_udp over_udp job.over_udp && str_eq job.address address then 1 else 0

  -- The servers of a list that are for the address.
  abbrev pub asking : List Job → ℕ
  asking list = total asks list

  -- A system that gives the address to one server at a time, and to the first that asks, with the
  -- files of every certificate in their place.
  pub record Exclusive (sys : System) : Type 0 where
    pub refuses : (bound : List Job) → sys.free over_udp address bound ≡ true → asking bound ≡ 0
    pub grants : (bound : List Job) → asking bound ≡ 0 → sys.free over_udp address bound ≡ true
    pub has_all : (cert key : String) → sys.loads cert key ≡ true

-- Whether a gate is to listen on an address.
abbrev listens : (f : Float64) → Bool → String → JumpGate f → Bool
listens f true address gate = str_eq gate.protocol "udp" && str_eq gate.listen address
listens f false address gate =
    ((str_eq gate.protocol "http" || str_eq gate.protocol "tcp") && str_eq gate.listen address)
    || (str_eq gate.protocol "http" && str_eq gate.tls.mode "auto" && str_eq ":80" address)

abbrev pub any_listens : (f : Float64) → Bool → String → List (JumpGate f) → Bool
any_listens f over_udp address [] = false
any_listens f over_udp address (gate ∷ list) =
    listens f over_udp address gate || any_listens f over_udp address list

asked-gate :
    (f : Float64) (over_udp : Bool) (address : String) (gate : JumpGate f)
    → ltb (asking over_udp address (gate_jobs f gate)) 1 ≡ not (listens f over_udp address gate)
unfolding gate_jobs http_jobs auto_cert
asked-gate f true address gate =
    ground
      (arith, eq_iff gate.protocol "http", eq_iff gate.protocol "tcp", eq_iff gate.protocol "udp")
asked-gate f false address gate =
    ground
      (arith, eq_iff gate.protocol "http", eq_iff gate.protocol "tcp", eq_iff gate.protocol "udp")

none_either :
    (m n : ℕ) (b c : Bool) → ltb m 1 ≡ not b → ltb n 1 ≡ not c → ltb (m + n) 1 ≡ not (b || c)
none_either m n b c h k = ground (arith, h, k)

asked-any :
    (f : Float64) (over_udp : Bool) (address : String) (list : List (JumpGate f))
    → ltb (asking over_udp address (jobs f list)) 1 ≡ not (any_listens f over_udp address list)
unfolding jobs
asked-any f over_udp address [] = refl
asked-any f over_udp address (gate ∷ list) =
    ap (λ n. ltb n 1) (total-append (asks over_udp address) (gate_jobs f gate) (jobs f list))
    ∙ none_either (asking over_udp address (gate_jobs f gate))
        (asking over_udp address (jobs f list)) (listens f over_udp address gate)
        (any_listens f over_udp address list) (asked-gate f over_udp address gate)
        (asked-any f over_udp address list)

module _ (sys : System) where
  bound-fail : (s : Service) (h : Host) → (fail s h).bound ≡ h.bound
  unfolding fail
  bound-fail (gates name front) h = refl
  bound-fail (challenges domain) h = refl

  has_files-all :
      (s : Service)
      → ((cert key : String) → sys.loads cert key ≡ true)
      → has_files sys.loads s ≡ true
  unfolding has_files
  has_files-all (gates name (auto_tls domain)) all = refl
  has_files-all (gates name (manual_tls cert key)) all = all cert key
  has_files-all (gates name plain_http) all = refl
  has_files-all (gates name tcp_tunnel) all = refl
  has_files-all (gates name udp_tunnel) all = refl
  has_files-all (challenges domain) all = refl

  bound-start :
      (job : Job) (h : Host)
      → (start sys job h).bound ≡ (
          if sys.free job.over_udp job.address h.bound && has_files sys.loads job.service
          then job ∷ h.bound
          else h.bound)
  bound-start job h = unfold start in ground (arith, bound-fail job.service h)

  module _ (over_udp : Bool) (address : String) (law : Exclusive over_udp address sys) where
    abbrev at_most_one : ℕ → ℕ
    at_most_one n = if ltb n 1 then 0 else 1

    abbrev asked : List Job → ℕ
    asked list = asking over_udp address list

    free-same :
        (job : Job) (bound : List Job)
        → asks over_udp address job ≡ 1
        → sys.free job.over_udp job.address bound ≡ sys.free over_udp address bound
    free-same job bound e =
        let u : job.over_udp ≡ over_udp = ground (arith, e) in
        let a : job.address ≡ address = ground (arith, e, eq_iff job.address address) in
        ap (λ x. sys.free x job.address bound) u ∙ ap (λ x. sys.free over_udp x bound) a

    asked-start :
        (job : Job) (h : Host)
        → asked h.bound ≤ 1
        → asked (start sys job h).bound ≡ at_most_one (asked h.bound + asked (job ∷ []))
    asked-start job h l =
        ap asked (bound-start job h)
        ∙ ground (
          arith,
          l,
          free-same job h.bound,
          law.refuses h.bound,
          law.grants h.bound,
          has_files-all job.service law.has_all,
        )

    asked-launch :
        (list : List Job) (h : Host)
        → asked h.bound ≤ 1
        → asked (launch sys list h).bound ≡ at_most_one (asked h.bound + asked list)
    unfolding launch
    asked-launch [] h l = ground (arith, l)
    asked-launch (job ∷ list) h l =
        ground (arith, l, asked-start job h l, asked-launch list (start sys job h))

    -- In whatever order the servers of the gates start: on a system that gives an address to one
    -- server at a time, and to the first that asks, and where the files of all certificates can be
    -- loaded, exactly one server has the address at the end if some gate is to listen there, and
    -- else none. A gate listens on its own address, over UDP with that protocol and over TCP with
    -- http or tcp, and in HTTP with certificates from Let's Encrypt on :80 too.
    pub asked-jobs :
        (f : Float64) (list : List (JumpGate f)) (order : List Job)
        → Permᴰ order (jobs f list)
        → asking over_udp address (launch sys order idle).bound
          ≡ (if any_listens f over_udp address list then 1 else 0)
    unfolding idle
    asked-jobs f list order p =
        asked-launch order idle (omega arith)
        ∙ ground (arith, total-Permᴰ (asks over_udp address) p, asked-any f over_udp address list)
