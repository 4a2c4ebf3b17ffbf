-- ===== src/RateLimit.antt =====
-- internal/ratelimit/fluxshield.go. The token bucket is golang.org/x/time/rate, a parameter. A
-- peer's entry holds a pointer to its limiter: an index into `limiters`, which grows with each new
-- one.
pub mod Peers
pub mod Asked
pub mod Isolation
use proxy_centauri.Prelude.{
  ℕ, ◌+◌, ◌-◌, ◌*◌, ◌≡◌, ◌≢◌, String, Bool, true, false, Option, none, some, List, [], ◌∷◌, ◌++◌,
  if◌then◌else◌, ltb, str_eq, length, get_or, set, Dict, lookup, insert, delete,
}
use proxy_centauri.Http.{
  Request, Wire, wire, wire_header, wire_write, ResponseWriter, WriterCall, serve,
}
use proxy_centauri.Http.Text.{before, trim_space, split_host_port}

-- `rate.Limiter`: a limiter for a rate and a burst, and whether it allows a call at a moment.
pub record Rate : Type 1 where
  pub Float : Type 0
  pub Limiter : Type 0
  pub new_limiter : Float → ℕ → Limiter
  pub allow : ℕ → Limiter → Bool × Limiter

-- `extractIP`. The leftmost address of X-Forwarded-For, if that is not blank.
unfoldable pub peer_ip : Request → String
unfolding split_host_port
peer_ip r = elim (split_host_port r.remote_addr) [ none ↦ r.remote_addr | some ip ↦ ip ]

unfoldable pub extract_ip : Request → String
unfolding peer_ip before trim_space
extract_ip r =
    if str_eq r.forwarded_for ""
    then peer_ip r
    else let ip = trim_space (before b',' r.forwarded_for) in if str_eq ip "" then peer_ip r else ip

pub record Entry : Type 0 where
  pub limiter : ℕ
  pub last_seen : ℕ

module _ (rt : Rate) where
  open rt use {Float, Limiter, new_limiter, allow}

  pub record FluxShield : Type 0 where
    pub rps : Float
    pub burst : ℕ
    pub peers : Dict Entry
    pub limiters : List Limiter

  unfoldable pub new : Float → ℕ → FluxShield
  new rps burst = record { rps = rps; burst = burst; peers = []; limiters = [] }

  -- `limiter(ip)` at the time `now`, with what the map has: the pointer, and the new state.
  unfoldable pub touch : ℕ → String → Option Entry → FluxShield → ℕ × FluxShield
  touch now ip (some e) fs =
      let seen = record e { last_seen = now } in
      (e.limiter, record fs { peers = insert ip seen fs.peers })
  touch now ip none fs =
      let seen : Entry = record { limiter = length fs.limiters; last_seen = now } in
      (
        length fs.limiters,
        record fs {
          peers = insert ip seen fs.peers;
          limiters = fs.limiters ++ new_limiter fs.rps fs.burst ∷ [];
        },
      )

  unfoldable pub limiter : ℕ → String → FluxShield → ℕ × FluxShield
  unfolding touch
  limiter now ip fs = touch now ip (lookup ip fs.peers) fs

  -- `Allow()` through a pointer, which is always in range.
  unfoldable pub allow_at : ℕ → ℕ → FluxShield → Bool × FluxShield
  allow_at now ptr fs =
      let (allowed, l) = allow now (get_or fs.limiters ptr (new_limiter fs.rps fs.burst)) in
      (allowed, record fs { limiters = set fs.limiters ptr l })

  -- One round of `cleanup`, at the time `now` in seconds: the entries last seen before the cutoff
  -- go.
  unfoldable pub evict : ℕ → Dict Entry → Dict Entry
  evict now [] = []
  evict now ((ip, e) ∷ m) =
      let rest = evict now m in if ltb (e.last_seen + 60) now then rest else (ip, e) ∷ rest

  unfoldable pub cleanup : ℕ → FluxShield → FluxShield
  unfolding evict
  cleanup now fs = record fs { peers = evict now fs.peers }

  -- `fs.limiter(ip).Allow()`.
  unfoldable pub admit : ℕ → String → FluxShield → Bool × FluxShield
  unfolding limiter allow_at
  admit now ip fs = let (ptr, fs') = limiter now ip fs in allow_at now ptr fs'

  -- The handler of `Middleware`: 429 Too Many Requests, or the next handler.
  unfoldable pub middleware :
      {S : Type 0}
      → ResponseWriter S
      → List ℕ
      → (S → S)
      → ℕ
      → Request
      → S
      → FluxShield
      → S × FluxShield
  unfolding extract_ip admit
  middleware w message next now r s fs =
      let (allowed, fs') = admit now (extract_ip r) fs in
      if allowed then (next s, fs') else (w.write message (w.write_header 429 s), fs')

  -- A request of a peer at a time, or a round of the cleanup at a time.
  pub data Turn : Type 0 where
    asks : ℕ → String → Turn
    cleans : ℕ → Turn

  unfoldable pub turn : Turn → FluxShield → FluxShield
  unfolding admit cleanup
  turn (asks now ip) fs = (admit now ip fs).1
  turn (cleans now) fs = cleanup now fs

  unfoldable pub run : List Turn → FluxShield → FluxShield
  run [] fs = fs
  run (t ∷ ts) fs = run ts (turn t fs)
