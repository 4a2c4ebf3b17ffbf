-- ===== src/RateLimit/Isolation.antt =====
-- Each address has a bucket of its own in internal/ratelimit/fluxshield.go.
use proxy_centauri.Prelude.{
  ℕ, ◌+◌, ◌≡◌, refl, ap, ◌∙◌, inl, inr, String, eq_iff, Bool, false, Option, none, some, Bool-cases,
  List, [], ◌∷◌, arith, if◌then◌else◌, ltb, str_eq, lookup,
}
use proxy_centauri.RateLimit.{
  Rate, FluxShield, Entry, admit, cleanup, Turn, asks, cleans, turn, run, new,
}
use proxy_centauri.RateLimit.Peers.{IsValid, fresh, bucket, lookup-evict, evict-Distinct}
use proxy_centauri.RateLimit.Asked.{
  seen_at, allowed-asked, fresh-asked, bucket-asked, seen-asked, asked-IsValid,
}

module _ (rt : Rate) where
  -- What the shield holds of one address, and what a turn does to it: a request of another address
  -- does nothing.
  pub record Account : Type 0 where
    pub bucket_now : rt.Limiter
    pub seen : Option ℕ

  abbrev pub account : FluxShield rt → String → Account
  account fs ip = record { bucket_now = bucket rt fs ip; seen = seen_at (lookup ip fs.peers) }

  abbrev pub idle_at : ℕ → Option ℕ → Bool
  idle_at now none = false
  idle_at now (some t) = ltb (t + 60) now

  abbrev pub own_turn : rt.Limiter → String → Turn rt → Account → Account
  own_turn new ip (asks now j) a =
      if str_eq j ip
      then record { bucket_now = (rt.allow now a.bucket_now).1; seen = some now }
      else a
  own_turn new ip (cleans now) a =
      if idle_at now a.seen then record { bucket_now = new; seen = none } else a

  abbrev pub own_run : rt.Limiter → String → List (Turn rt) → Account → Account
  own_run new ip [] a = a
  own_run new ip (t ∷ ts) a = own_run new ip ts (own_turn new ip t a)

  account-path : (a b : Account) → a.bucket_now ≡ b.bucket_now → a.seen ≡ b.seen → a ≡ b
  account-path a b p q = λ i. record { bucket_now = p i; seen = q i }

  account-asks :
      (now : ℕ) (j ip : String) (fs : FluxShield rt)
      → IsValid rt fs
      → account (admit rt now j fs).1 ip ≡ own_turn (fresh rt fs) ip (asks now j) (account fs ip)
  unfolding admit
  account-asks now j ip fs v = elim (Bool-cases (str_eq j ip)) [
    | inl e ↦
        account-path _ _ (bucket-asked rt now j fs v _ _ ip refl refl ∙ rw (e, (eq_iff j ip).0 e))
          (seen-asked rt now j fs v _ ip ∙ rw e)
    | inr e ↦
        account-path _ _ (bucket-asked rt now j fs v _ _ ip refl refl ∙ rw e)
          (seen-asked rt now j fs v _ ip ∙ rw e)
  ]

  cleanup-IsValid : (now : ℕ) (fs : FluxShield rt) → IsValid rt fs → IsValid rt (cleanup rt now fs)
  unfolding cleanup
  cleanup-IsValid now fs v = record {
    in_range = λ a e h. ground (arith, lookup-evict rt now fs.peers a v.keys, v.in_range a e);
    apart = λ a b e f h k q. ground (
      arith,
      lookup-evict rt now fs.peers a v.keys,
      lookup-evict rt now fs.peers b v.keys,
      v.apart a b e f,
    );
    keys = evict-Distinct rt now fs.peers v.keys;
  }

  account-cleans :
      (now : ℕ) (ip : String) (fs : FluxShield rt) (o : Option Entry)
      → IsValid rt fs
      → lookup ip fs.peers ≡ o
      → account (cleanup rt now fs) ip ≡ own_turn (fresh rt fs) ip (cleans now) (account fs ip)
  unfolding cleanup
  account-cleans now ip fs none v k = ground (arith, lookup-evict rt now fs.peers ip v.keys)
  account-cleans now ip fs (some e) v k = ground (arith, lookup-evict rt now fs.peers ip v.keys)

  turn-IsValid : (t : Turn rt) (fs : FluxShield rt) → IsValid rt fs → IsValid rt (turn rt t fs)
  unfolding turn
  turn-IsValid (asks now ip) fs v = asked-IsValid rt now ip fs v _ refl
  turn-IsValid (cleans now) fs v = cleanup-IsValid now fs v

  account-turn :
      (t : Turn rt) (ip : String) (fs : FluxShield rt)
      → IsValid rt fs
      → account (turn rt t fs) ip ≡ own_turn (fresh rt fs) ip t (account fs ip)
  unfolding turn
  account-turn (asks now j) ip fs v = account-asks now j ip fs v
  account-turn (cleans now) ip fs v = account-cleans now ip fs _ v refl

  fresh-turn :
      (t : Turn rt) (fs : FluxShield rt) → IsValid rt fs → fresh rt (turn rt t fs) ≡ fresh rt fs
  unfolding turn admit cleanup
  fresh-turn (asks now ip) fs v = fresh-asked rt now ip fs v (lookup ip fs.peers)
  fresh-turn (cleans now) fs v = refl

  account-run :
      (ts : List (Turn rt)) (ip : String) (fs : FluxShield rt)
      → IsValid rt fs
      → account (run rt ts fs) ip ≡ own_run (fresh rt fs) ip ts (account fs ip)
  unfolding run
  account-run [] ip fs v = refl
  account-run (t ∷ ts) ip fs v =
      account-run ts ip (turn rt t fs) (turn-IsValid t fs v)
      ∙ ap (λ (f : rt.Limiter). own_run f ip ts (account (turn rt t fs) ip)) (fresh-turn t fs v)
      ∙ ap (own_run (fresh rt fs) ip ts) (account-turn t ip fs v)

  run-IsValid :
      (ts : List (Turn rt)) (fs : FluxShield rt) → IsValid rt fs → IsValid rt (run rt ts fs)
  unfolding run
  run-IsValid [] fs v = v
  run-IsValid (t ∷ ts) fs v = run-IsValid ts (turn rt t fs) (turn-IsValid t fs v)

  new-IsValid : (rps : rt.Float) (burst : ℕ) → IsValid rt (new rt rps burst)
  unfolding new lookup
  new-IsValid rps burst = record { in_range = λ a e h. cc; apart = λ a b e f h k q. cc; keys = tt }

  -- Whether a new shield admits a request, after any requests and cleanups, is what one limiter
  -- that the requests of that address alone have drawn on says: it is not shared with any other
  -- address, and it is replaced by a new one just when a cleanup finds the address unseen for over
  -- 60 seconds.
  pub admit-isolated :
      (rps : rt.Float) (burst : ℕ) (ts : List (Turn rt)) (now : ℕ) (ip : String)
      → let new_bucket = rt.new_limiter rps burst in
        (admit rt now ip (run rt ts (new rt rps burst))).0
        ≡ (rt.allow now
            (own_run new_bucket ip ts
              (record { bucket_now = new_bucket; seen = none })).bucket_now).0
  unfolding admit new lookup
  admit-isolated rps burst ts now ip =
      let fs = new rt rps burst in
      let v = new-IsValid rps burst in
      allowed-asked rt now ip (run rt ts fs) (run-IsValid ts fs v) (lookup ip (run rt ts fs).peers)
        refl
      ∙ ap (λ (a : Account). (rt.allow now a.bucket_now).0) (account-run ts ip fs v)
