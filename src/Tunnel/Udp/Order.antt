-- ===== src/Tunnel/Udp/Order.antt =====
-- The order of `sync.Map.Range`, which internal/tunnel/udp.go does not know.
use mathlib.Core.List.{Permᴰ}
use mathlib.Core.List.Permᴰ
use mathlib.Core.List.Permᴰ.{nil, cons, swap, trans}
use proxy_centauri.Prelude.{
  ℕ, get_or, insert, eq_iff, Bool-cases, inl, inr, none, ◌≤◌, ◌≡◌, Option, some, str_eq, lookup,
  total-Permᴰ, refl, sym, subst, ap, ◌∙◌, String, Bool, false, List, [], ◌∷◌, arith, if◌then◌else◌,
  Dict, ltb, ◌==◌, ◌&&◌,
}
use proxy_centauri.Balancer.{Balancer}
use proxy_centauri.Tunnel.Udp.{
  UdpTunnel, Worker, at, dials, stores, sends, ends, Move, arrives, advances, evicts, replies, dial,
  load_or_store, advance, forward, evict, pump, move, run, new_udp,
}
use proxy_centauri.Tunnel.Udp.Visits.{
  idle, named, held, survivor, ended, named-range, lookup-range, at-range,
}

-- No client has two.
abbrev pub Unique : Dict ℕ → Type 0
Unique m = (key : String) → named key m ≤ 1

rest-Unique : (e : String × ℕ) (m : Dict ℕ) → Unique (e ∷ m) → Unique m
rest-Unique e m u key = omega (arith, u key)

Unique-Permᴰ : {m m' : Dict ℕ} → Permᴰ m m' → Unique m → Unique m'
Unique-Permᴰ p u key =
    subst (λ n. n ≤ 1) (total-Permᴰ (λ (e : String × ℕ). if str_eq e.0 key then 1 else 0) p) (u key)

lookup-swap :
    (key : String) (d e : String × ℕ) (m : Dict ℕ)
    → Unique (d ∷ e ∷ m)
    → lookup key (d ∷ e ∷ m) ≡ lookup key (e ∷ d ∷ m)
unfolding lookup
lookup-swap key d e m u = ground (arith, u key)

lookup-rest :
    (key : String) (a : String × ℕ) (l l' : Dict ℕ)
    → lookup key l ≡ lookup key l'
    → lookup key (a ∷ l) ≡ lookup key (a ∷ l')
unfolding lookup
lookup-rest key a l l' e = ap (λ o. if str_eq a.0 key then some a.1 else o) e

lookup-Permᴰ : (key : String) {m m' : Dict ℕ} → Permᴰ m m' → Unique m → lookup key m ≡ lookup key m'
lookup-Permᴰ key nil u = refl
lookup-Permᴰ key (cons {a = a} {l₁ = l} {l₂ = l'} e p) u =
    subst (λ b. lookup key (a ∷ l) ≡ lookup key (b ∷ l')) e
      (lookup-rest key a l l' (lookup-Permᴰ key p (rest-Unique a l u)))
lookup-Permᴰ key (swap {a = a} {b = b} {b' = b'} {l = l} e d) u =
    subst (λ x. lookup key (a ∷ b ∷ l) ≡ lookup key (x ∷ b' ∷ l)) d
      (subst (λ x. lookup key (a ∷ b ∷ l) ≡ lookup key (b ∷ x ∷ l)) e (lookup-swap key a b l u))
lookup-Permᴰ key (trans p q) u = lookup-Permᴰ key p u ∙ lookup-Permᴰ key q (Unique-Permᴰ p u)

named-insert :
    (key other : String) (p : ℕ) (m : Dict ℕ)
    → (str_eq key other ≡ false → named other (insert key p m) ≡ named other m)
      × (named key m ≤ 1 → named key (insert key p m) ≡ 1)
unfolding insert
named-insert key other p [] = (λ h. ground (arith, h), λ h. ground (arith, eq_iff key key))
named-insert key other p ((this, q) ∷ m) =
    let (ne, same) = named-insert key other p m in
    (
      λ h. ground (arith, h, ne h, eq_iff this key),
      λ h. ground (arith, h, same, eq_iff this key, eq_iff key key),
    )

insert-Unique : (key : String) (p : ℕ) (m : Dict ℕ) → Unique m → Unique (insert key p m)
insert-Unique key p m u other = elim (Bool-cases (str_eq key other)) [
  | inl e ↦
      let same = (eq_iff key other).0 e in
      subst (λ k. named k (insert key p m) ≤ 1) same
        (omega (arith, (named-insert key other p m).1 (u key)))
  | inr e ↦ omega (arith, (named-insert key other p m).0 e, u other)
]

load_or_store-Unique :
    (i : ℕ) (key : String) (p : ℕ) (data_ : List ℕ) (o : Option ℕ) (t : UdpTunnel)
    → Unique t.sessions
    → Unique (load_or_store i key p data_ o t).sessions
unfolding load_or_store
load_or_store-Unique i key p data_ (some actual) t u = u
load_or_store-Unique i key p data_ none t u = insert-Unique key p t.sessions u

sessions-dial :
    (reaches : String → Bool) (now i : ℕ) (key : String) (data_ : List ℕ) (t : UdpTunnel)
    → (dial reaches now i key data_ t).sessions ≡ t.sessions
unfolding dial
sessions-dial reaches now i key data_ t = ground arith

advance-Unique :
    (reaches : String → Bool) (now i : ℕ) (w : Worker) (t : UdpTunnel)
    → Unique t.sessions
    → Unique (advance reaches now i w t).sessions
unfolding advance
advance-Unique reaches now i (dials key data_) t u =
    subst Unique (sym (sessions-dial reaches now i key data_ t)) u
advance-Unique reaches now i (stores key p data_) t u =
    load_or_store-Unique i key p data_ (lookup key t.sessions) t u
advance-Unique reaches now i (sends p data_) t u = u
advance-Unique reaches now i ends t u = u

sessions-pump : (p : ℕ) (reply : List ℕ) (t : UdpTunnel) → (pump p reply t).sessions ≡ t.sessions
unfolding pump
sessions-pump p reply t = ground arith

move-Unique : (m : Move) (t : UdpTunnel) → Unique t.sessions → Unique (move m t).sessions
unfolding move forward evict
move-Unique (arrives key data_) t u = u
move-Unique (advances reaches now i) t u =
    advance-Unique reaches now i (get_or t.workers i ends) t u
move-Unique (evicts now) t u = λ key. omega (arith, named-range now key t.sessions t.made, u key)
move-Unique (replies p reply) t u = subst Unique (sym (sessions-pump p reply t)) u

run-Unique : (ms : List Move) (t : UdpTunnel) → Unique t.sessions → Unique (run ms t).sessions
unfolding run
run-Unique [] t u = u
run-Unique (m ∷ ms) t u = run-Unique ms (move m t) (move-Unique m t u)

held-Permᴰ : (p : ℕ) {m m' : Dict ℕ} → Permᴰ m m' → held p m ≡ held p m'
held-Permᴰ p same = ap (ltb 0) (total-Permᴰ (λ (e : String × ℕ). if e.1 == p then 1 else 0) same)

-- After any moves from a new tunnel, and whatever order `Range` visits the sessions in: an eviction
-- takes from each client the session that was last used more than 30 seconds before, leaves it one
-- that was used since, and gives it none if it had none; and it closes the connections of the
-- sessions that it takes, and touches no other connection.
pub evict-idle :
    (lb : Balancer) (ms : List Move) (now : ℕ) (order : Dict ℕ) (key : String) (p : ℕ)
    → Permᴰ order (run ms (new_udp lb)).sessions
    → let t = run ms (new_udp lb) in
      let s = evict now (record t { sessions = order }) in
      (lookup key s.sessions ≡ survivor now t.made (lookup key t.sessions))
      × (at s.made p ≡ ended (held p t.sessions && idle now t.made p) (at t.made p))
unfolding evict new_udp
evict-idle lb ms now order key p same =
    let t = run ms (new_udp lb) in
    let u = Unique-Permᴰ (Permᴰ.symm same) (run-Unique ms (new_udp lb) (λ k. omega arith)) in
    (
      lookup-range now key order t.made (u key)
          ∙ ap (survivor now t.made) (lookup-Permᴰ key same u),
      at-range now order t.made p
          ∙ ap (λ b. ended (b && idle now t.made p) (at t.made p)) (held-Permᴰ p same),
    )
