-- ===== src/RateLimit/Asked.antt =====
-- What one request does to the buckets of internal/ratelimit/fluxshield.go.
use proxy_centauri.Prelude.{
  ℕ, ◌≡◌, refl, ap, String, Bool, Option, none, some, arith, if◌then◌else◌, str_eq, get_or, set,
  lookup, length-set, get_or-set_self, get_or-set_ne,
}
use proxy_centauri.RateLimit.{Rate, FluxShield, Entry, allow_at}
use proxy_centauri.RateLimit.Peers.{
  IsValid, fresh, bucket, bucket_at, found, pointer, lookup-found, get_or-pointer, limiter-kept,
  pointer_apart, fresh-found, found-IsValid,
}

-- When an address was seen last, if it has an entry.
abbrev pub seen_at : Option Entry → Option ℕ
seen_at none = none
seen_at (some e) = some e.last_seen

module _ (rt : Rate) where
  module _ (now : ℕ) (ip : String) (fs : FluxShield rt) (v : IsValid rt fs) where
    -- The state after `Allow()` through the pointer of the address.
    abbrev pub asked : Option Entry → Bool × FluxShield rt
    asked o = allow_at rt now (pointer rt now ip fs v o) (found rt now ip fs v o)

    abbrev pub taken : Option Entry → Bool × rt.Limiter
    taken o = rt.allow now (bucket_at rt fs o)

    pointed :
        (o : Option Entry)
        → lookup ip fs.peers ≡ o
        → get_or
            (found rt now ip fs v o).limiters
            (pointer rt now ip fs v o)
            (fresh rt (found rt now ip fs v o))
          ≡ bucket_at rt fs o
    pointed o k = rw (fresh-found rt now ip fs v o) ((get_or-pointer rt now ip fs v o k).1)

    pub allowed-asked : (o : Option Entry) → lookup ip fs.peers ≡ o → (asked o).0 ≡ (taken o).0
    unfolding allow_at
    allowed-asked o k = ap (λ (l : rt.Limiter). (rt.allow now l).0) (pointed o k)

    pub limiters-asked :
        (o : Option Entry)
        → lookup ip fs.peers ≡ o
        → (asked o).1.limiters
          ≡ set (found rt now ip fs v o).limiters (pointer rt now ip fs v o) (taken o).1
    unfolding allow_at
    limiters-asked o k =
        ap
          (λ (l : rt.Limiter).
            set (found rt now ip fs v o).limiters (pointer rt now ip fs v o) (rt.allow now l).1)
          (pointed o k)

    pub peers-asked : (o : Option Entry) → (asked o).1.peers ≡ (found rt now ip fs v o).peers
    unfolding allow_at
    peers-asked o = refl

    pub fresh-asked : (o : Option Entry) → fresh rt (asked o).1 ≡ fresh rt fs
    unfolding allow_at
    fresh-asked o = fresh-found rt now ip fs v o

    -- The buckets after a request: the one of its address has been drawn on, no other changes.
    pub bucket-asked :
        (o p : Option Entry) (j : String)
        → lookup ip fs.peers ≡ o
        → lookup j fs.peers ≡ p
        → bucket rt (asked o).1 j ≡ (if str_eq ip j then (taken o).1 else bucket_at rt fs p)
    bucket-asked o none j k h = ground (
      arith,
      peers-asked o,
      fresh-asked o,
      lookup-found rt now ip fs v o j,
      limiters-asked o k,
      get_or-pointer rt now ip fs v o k,
      get_or-set_self (found rt now ip fs v o).limiters (pointer rt now ip fs v o) (taken o).1
          (fresh rt (asked o).1),
    )
    bucket-asked o (some e) j k h = ground (
      arith,
      peers-asked o,
      fresh-asked o,
      lookup-found rt now ip fs v o j,
      limiters-asked o k,
      get_or-pointer rt now ip fs v o k,
      get_or-set_self (found rt now ip fs v o).limiters (pointer rt now ip fs v o) (taken o).1
          (fresh rt (asked o).1),
      get_or-set_ne (found rt now ip fs v o).limiters (pointer rt now ip fs v o) e.limiter
          (taken o).1 (fresh rt (asked o).1),
      pointer_apart rt now ip fs v o j e k,
      limiter-kept rt now ip fs v o e.limiter,
      v.in_range j e h,
    )

    pub seen-asked :
        (o : Option Entry) (j : String)
        → seen_at (lookup j (asked o).1.peers)
          ≡ (if str_eq ip j then some now else seen_at (lookup j fs.peers))
    seen-asked o j = rw (peers-asked o) (ground (arith, lookup-found rt now ip fs v o j))

    pub asked-IsValid : (o : Option Entry) → lookup ip fs.peers ≡ o → IsValid rt (asked o).1
    unfolding allow_at
    asked-IsValid o k =
        let w = found-IsValid rt now ip fs v o k in
        record {
          in_range = λ a e h. rw length-set (w.in_range a e h);
          apart = w.apart;
          keys = w.keys;
        }
