-- ===== src/Launch/Reports.antt =====
-- Which gates of cmd/centauri/main.go serve, and which are said not to.
use mathlib.Core.List.{Permᴰ}
use proxy_centauri.Prelude.{
  total-Permᴰ, ℕ, ◌+◌, ◌≡◌, refl, String, Bool, ◌||◌, ◌&&◌, List, [], ◌∷◌, arith, if◌then◌else◌,
  str_eq, eq_iff, count, count-append, total, total-append,
}
use proxy_centauri.Config.{JumpGate}
use proxy_centauri.Floats.{Float64}
use proxy_centauri.Launch.{
  Service, Job, System, Host, gates, challenges, auto_cert, http_jobs, gate_jobs, jobs, idle, fail,
  start, launch,
}

-- The jobs that serve a gate of the name.
abbrev serves : String → Service → ℕ
serves name (gates this front) = if str_eq this name then 1 else 0
serves name (challenges domain) = 0

abbrev pub served : String → List Job → ℕ
served name done = total (λ job. serves name job.service) done

-- The gates of the name that have a protocol that main knows.
abbrev known : String → Bool
known protocol = str_eq protocol "http" || str_eq protocol "tcp" || str_eq protocol "udp"

module _ (f : Float64) where
  abbrev pub known_gates : String → List (JumpGate f) → ℕ
  known_gates name gates_of =
      total (λ g. if known g.protocol && str_eq g.name name then 1 else 0) gates_of

  served-gate_jobs :
      (name : String) (g : JumpGate f)
      → served name (gate_jobs f g) ≡ (if known g.protocol && str_eq g.name name then 1 else 0)
  unfolding gate_jobs http_jobs auto_cert
  served-gate_jobs name g = ground (
    arith,
    eq_iff g.protocol "http",
    eq_iff g.protocol "tcp",
    eq_iff g.protocol "udp",
    eq_iff "http" "tcp",
    eq_iff "http" "udp",
    eq_iff "tcp" "udp",
  )

  served-jobs :
      (name : String) (list : List (JumpGate f)) → served name (jobs f list) ≡ known_gates name list
  unfolding jobs
  served-jobs name [] = refl
  served-jobs name (g ∷ list) = omega (
    arith,
    total-append (λ (job : Job). serves name job.service) (gate_jobs f g) (jobs f list),
    served-gate_jobs name g,
    served-jobs name list,
  )

  module _ (sys : System) (name : String) where
    reports-fail :
        (s : Service) (h : Host)
        → served name (fail s h).bound + count name (fail s h).failed
          ≡ served name h.bound + count name h.failed + serves name s
    unfolding fail
    reports-fail (gates this front) h = omega (arith, count-append name h.failed (this ∷ []))
    reports-fail (challenges domain) h = omega arith

    reports-start :
        (job : Job) (h : Host)
        → let h' = start sys job h in
          served name h'.bound + count name h'.failed
          ≡ served name h.bound + count name h.failed + serves name job.service
    reports-start job h = unfold start in ground (arith, reports-fail job.service h)

    reports-launch :
        (list : List Job) (h : Host)
        → let h' = launch sys list h in
          served name h'.bound + count name h'.failed
          ≡ served name h.bound + count name h.failed + served name list
    unfolding launch
    reports-launch [] h = omega arith
    reports-launch (job ∷ list) h =
        omega (arith, reports-start job h, reports-launch list (start sys job h))

    -- In whatever order the servers of the gates start, and whatever the system says to their binds
    -- and of their files: the gates of a name that serve at the end and those whose failure was
    -- logged are together as many as the gates of that name with the protocol "http", "tcp" or "udp".
    pub reports-jobs :
        (list : List (JumpGate f)) (order : List Job)
        → Permᴰ order (jobs f list)
        → let h = launch sys order idle in
          served name h.bound + count name h.failed ≡ known_gates name list
    unfolding idle
    reports-jobs list order p = omega (
      arith,
      reports-launch order idle,
      total-Permᴰ (λ (job : Job). serves name job.service) p,
      served-jobs name list,
    )
