-- ===== src/RateLimit/Peers.antt =====
-- The shield of internal/ratelimit/fluxshield.go as a bucket for each address.
use proxy_centauri.Prelude.{
  ℕ, ◌+◌, ◌<◌, ◌≡◌, ◌≢◌, refl, String, eq_iff, false, Option, none, some, [], ◌∷◌, arith,
  if◌then◌else◌, ltb, str_eq, length, get_or, Dict, lookup, insert, lookup-insert, length-append,
  get_or-append_left, get_or-append_last,
}
use proxy_centauri.RateLimit.{Rate, FluxShield, Entry, touch, evict}

-- No key stands in the map twice.
abbrev pub Keys-Distinct : Dict Entry → Type 0
Keys-Distinct [] = Unit
Keys-Distinct ((ip, e) ∷ m) = (lookup ip m ≡ none) × Keys-Distinct m

insert-Distinct :
    (ip : String) (e : Entry) (m : Dict Entry) → Keys-Distinct m → Keys-Distinct (insert ip e m)
unfolding insert
insert-Distinct ip e [] d = (lookup-none ip, tt)
  where
    lookup-none : (ip : String) → lookup ip (let m : Dict Entry = [] in m) ≡ none
    lookup-none ip = unfold lookup in refl
insert-Distinct ip e ((ip', e') ∷ m) d =
    ground (
      arith,
      insert-Distinct ip e m d.1,
      lookup-insert ip ip' e m,
      eq_iff ip ip',
      eq_iff ip' ip,
      d.0,
    )

-- An entry stays if it was seen within the last 60 seconds.
abbrev pub fresh_at : ℕ → Option Entry → Option Entry
fresh_at now none = none
fresh_at now (some e) = if ltb (e.last_seen + 60) now then none else some e

module _ (rt : Rate) where
  evict-none :
      (now : ℕ) (m : Dict Entry) (ip : String)
      → lookup ip m ≡ none
      → lookup ip (evict rt now m) ≡ none
  unfolding evict lookup
  evict-none now [] ip h = refl
  evict-none now ((ip', e) ∷ m) ip h = ground (arith, evict-none now m ip)

  pub lookup-evict :
      (now : ℕ) (m : Dict Entry) (ip : String)
      → Keys-Distinct m
      → lookup ip (evict rt now m) ≡ fresh_at now (lookup ip m)
  unfolding evict lookup
  lookup-evict now [] ip d = refl
  lookup-evict now ((ip', e) ∷ m) ip d =
      ground (arith, lookup-evict now m ip d.1, evict-none now m ip, eq_iff ip' ip, d.0)

  pub evict-Distinct : (now : ℕ) (m : Dict Entry) → Keys-Distinct m → Keys-Distinct (evict rt now m)
  unfolding evict
  evict-Distinct now [] d = tt
  evict-Distinct now ((ip, e) ∷ m) d =
      ground (arith, evict-Distinct now m d.1, evict-none now m ip d.0)

  -- Pointers name limiters, no two addresses share one, and no address has two entries.
  pub record IsValid (fs : FluxShield rt) : Type 0 where
    pub in_range :
        (a : String) (e : Entry) → lookup a fs.peers ≡ some e → e.limiter < length fs.limiters
    pub apart :
        (a b : String) (e f : Entry)
        → lookup a fs.peers ≡ some e
        → lookup b fs.peers ≡ some f
        → e.limiter ≡ f.limiter
        → a ≡ b
    pub keys : Keys-Distinct fs.peers

  -- The bucket that a request of an address draws on: its limiter, or a new one.
  abbrev pub fresh : FluxShield rt → rt.Limiter
  fresh fs = rt.new_limiter fs.rps fs.burst

  abbrev pub bucket_at : FluxShield rt → Option Entry → rt.Limiter
  bucket_at fs none = fresh fs
  bucket_at fs (some e) = get_or fs.limiters e.limiter (fresh fs)

  abbrev pub bucket : FluxShield rt → String → rt.Limiter
  bucket fs ip = bucket_at fs (lookup ip fs.peers)

  module _ (now : ℕ) (ip : String) (fs : FluxShield rt) (v : IsValid fs) where
    abbrev pub found : Option Entry → FluxShield rt
    found o = (touch rt now ip o fs).1

    abbrev pub pointer : Option Entry → ℕ
    pointer o = (touch rt now ip o fs).0

    -- After the lookup the address has an entry with the pointer, seen now; no other changes.
    pub lookup-found :
        (o : Option Entry) (j : String)
        → lookup j (found o).peers ≡ (
            if str_eq ip j
            then some (record { limiter = pointer o; last_seen = now })
            else lookup j fs.peers)
    unfolding touch
    lookup-found none j =
        lookup-insert ip j (record { limiter = length fs.limiters; last_seen = now }) fs.peers
    lookup-found (some x) j = lookup-insert ip j (record x { last_seen = now }) fs.peers

    -- The pointer's limiter is the bucket that the address had.
    pub get_or-pointer :
        (o : Option Entry)
        → lookup ip fs.peers ≡ o
        → (pointer o < length (found o).limiters)
          × (get_or (found o).limiters (pointer o) (fresh fs) ≡ bucket_at fs o)
    unfolding touch
    get_or-pointer none e = (
      omega (arith, length-append fs.limiters (fresh fs ∷ [])),
      get_or-append_last fs.limiters (fresh fs) (fresh fs),
    )
    get_or-pointer (some x) e = (v.in_range ip x e, refl)

    -- The limiters that are there stay where they are.
    pub limiter-kept :
        (o : Option Entry) (p : ℕ)
        → p < length fs.limiters
        → (get_or (found o).limiters p (fresh fs) ≡ get_or fs.limiters p (fresh fs))
          × (p < length (found o).limiters)
    unfolding touch
    limiter-kept none p h = (
      get_or-append_left fs.limiters (fresh fs ∷ []) p (fresh fs) h,
      omega (arith, length-append fs.limiters (fresh fs ∷ [])),
    )
    limiter-kept (some x) p h = (refl, h)

    pub pointer_apart :
        (o : Option Entry) (j : String) (e : Entry)
        → lookup ip fs.peers ≡ o
        → str_eq ip j ≡ false
        → lookup j fs.peers ≡ some e
        → e.limiter ≢ pointer o
    unfolding touch
    pointer_apart none j e k n h q = absurd (omega (arith, v.in_range j e h))
    pointer_apart (some x) j e k n h q = absurd (ground (arith, v.apart ip j x e k h, eq_iff ip j))

    found-Distinct : (o : Option Entry) → Keys-Distinct (found o).peers
    unfolding touch
    found-Distinct none = insert-Distinct ip _ fs.peers v.keys
    found-Distinct (some x) = insert-Distinct ip _ fs.peers v.keys

    pub fresh-found : (o : Option Entry) → fresh (found o) ≡ fresh fs
    unfolding touch
    fresh-found none = refl
    fresh-found (some x) = refl

    pub found-IsValid : (o : Option Entry) → lookup ip fs.peers ≡ o → IsValid (found o)
    found-IsValid o k = record {
      in_range = λ a e h.
          ground
            (arith, lookup-found o a, get_or-pointer o k, v.in_range a e, limiter-kept o e.limiter);
      apart = λ a b e f h j q. ground (
        arith,
        lookup-found o a,
        lookup-found o b,
        eq_iff ip a,
        eq_iff ip b,
        v.apart a b e f,
        pointer_apart o a e k,
        pointer_apart o b f k,
      );
      keys = found-Distinct o;
    }
