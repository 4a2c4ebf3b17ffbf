-- ===== src/Tunnel/Udp/Visits.antt =====
-- What the visit of the sessions in internal/tunnel/udp.go does to an entry and to a connection.
use proxy_centauri.Prelude.{
  ℕ, zero, suc, ◌+◌, ◌≡◌, ◌≤◌, refl, sym, ap, ◌∙◌, String, Bool, true, false, ◌&&◌, ◌||◌, ◌==◌,
  Option, none, some, List, [], ◌∷◌, arith, if◌then◌else◌, str_eq, ltb, Dict, lookup, total,
}
use proxy_centauri.Tunnel.Udp.{UdpSession, at, close, range}

-- A session that was last used more than 30 seconds ago.
abbrev pub idle : ℕ → List UdpSession → ℕ → Bool
idle now made p = ltb ((at made p).last_seen + 30) now

abbrev pub shut : Bool → ℕ → List UdpSession → List UdpSession
shut b p made = if b then close p made else made

-- How often a client has an entry.
abbrev pub named : String → Dict ℕ → ℕ
named key m = total (λ (e : String × ℕ). if str_eq e.0 key then 1 else 0) m

-- Whether some client has the session.
abbrev pub held : ℕ → Dict ℕ → Bool
held p m = ltb 0 (total (λ (e : String × ℕ). if e.1 == p then 1 else 0) m)

-- The session of a client that stays.
abbrev pub survivor : ℕ → List UdpSession → Option ℕ → Option ℕ
survivor now made none = none
survivor now made (some p) = if idle now made p then none else some p

abbrev pub ended : Bool → UdpSession → UdpSession
ended b s = if b then record s { is_open = false } else s

seen-ended : (b : Bool) (s : UdpSession) → (ended b s).last_seen ≡ s.last_seen
seen-ended true s = refl
seen-ended false s = refl

zero_suc : (p : ℕ) → false ≡ (0 == suc p)
zero_suc p = ground arith

suc_zero : (q : ℕ) → false ≡ (suc q == 0)
suc_zero q = ground arith

same_suc : (q p : ℕ) → (q == p) ≡ (suc q == suc p)
same_suc q p = ground arith

at-close :
    (q : ℕ) (made : List UdpSession) (p : ℕ) → at (close q made) p ≡ ended (q == p) (at made p)
unfolding close
at-close q [] p = ground arith
at-close zero (x ∷ made) zero = refl
at-close zero (x ∷ made) (suc p) = ap (λ b. ended b (at made p)) (zero_suc p)
at-close (suc q) (x ∷ made) zero = ap (λ b. ended b x) (suc_zero q)
at-close (suc q) (x ∷ made) (suc p) =
    at-close q made p ∙ ap (λ b. ended b (at made p)) (same_suc q p)

at-shut :
    (b : Bool) (q : ℕ) (made : List UdpSession) (p : ℕ)
    → at (shut b q made) p ≡ ended (b && (q == p)) (at made p)
at-shut true q made p = at-close q made p
at-shut false q made p = refl

idle-shut :
    (now : ℕ) (b : Bool) (q : ℕ) (made : List UdpSession) (p : ℕ)
    → idle now (shut b q made) p ≡ idle now made p
idle-shut now b q made p =
    ap (λ t. ltb (t + 30) now)
      (ap (λ s. s.last_seen) (at-shut b q made p) ∙ seen-ended (b && (q == p)) (at made p))

-- An entry is kept if its session is not idle.
abbrev pub keep : Bool → String × ℕ → Dict ℕ → Dict ℕ
keep b e kept = if b then kept else e ∷ kept

twice_over : (j : Bool) (s : UdpSession) → ended j (ended (j && true) s) ≡ ended j s
twice_over true s = refl
twice_over false s = refl

once_only : (j : Bool) (s : UdpSession) → ended (j && true) s ≡ ended j s
once_only true s = refl
once_only false s = refl

module _ (now : ℕ) where
  range-cons :
      (e : String × ℕ) (m : Dict ℕ) (made : List UdpSession)
      → range now (e ∷ m) made ≡ (
          let i = idle now made e.1 in let r = range now m (shut i e.1 made) in (keep i e r.0, r.1))
  unfolding range
  range-cons e m made = refl

  ended_twice :
      (i j e h : Bool) (s : UdpSession)
      → (e ≡ true → i ≡ j)
      → ended (h && j) (ended (i && e) s) ≡ ended ((e || h) && j) s
  ended_twice i j true true s k = rw (k refl) (twice_over j s)
  ended_twice i j true false s k = rw (k refl) (once_only j s)
  ended_twice true j false h s k = refl
  ended_twice false j false h s k = refl

  held-cons : (p q : ℕ) (key : String) (m : Dict ℕ) → held p ((key, q) ∷ m) ≡ ((q == p) || held p m)
  held-cons p q key m = ground arith

  same-idle :
      (made : List UdpSession) (q p : ℕ) → (q == p) ≡ true → idle now made q ≡ idle now made p
  same-idle made q p e = ap (idle now made) (ground (arith, e))

  -- A connection is closed just if some client has it and it is idle.
  pub at-range :
      (m : Dict ℕ) (made : List UdpSession) (p : ℕ)
      → at (range now m made).1 p ≡ ended (held p m && idle now made p) (at made p)
  unfolding range
  at-range [] made p = refl
  at-range ((key, q) ∷ m) made p =
      let i = idle now made q in
      ap (λ r. at r.1 p) (range-cons (key, q) m made)
      ∙ at-range m (shut i q made) p
      ∙ ap (λ b. ended (held p m && b) (at (shut i q made) p)) (idle-shut now i q made p)
      ∙ ap (ended (held p m && idle now made p)) (at-shut i q made p)
      ∙ ended_twice i (idle now made p) (q == p) (held p m) (at made p) (same-idle made q p)
      ∙ ap (λ b. ended (b && idle now made p) (at made p)) (sym (held-cons p q key m))

  pub named-range :
      (key : String) (m : Dict ℕ) (made : List UdpSession)
      → named key (range now m made).0 ≤ named key m
  unfolding range
  named-range key [] made = omega arith
  named-range key ((this, p) ∷ m) made =
      elim (idle now made p)
        as (λ i.
          let r = range now m (shut i p made) in
          named key (keep i (this, p) r.0) ≤ named key ((this, p) ∷ m)) [
            | true ↦ omega (arith, named-range key m (close p made))
            | false ↦ omega (arith, named-range key m made)
          ]

  lookup_unnamed : (key : String) (m : Dict ℕ) → named key m ≡ 0 → lookup key m ≡ none
  unfolding lookup
  lookup_unnamed key [] h = refl
  lookup_unnamed key ((this, p) ∷ m) h = ground (arith, h, lookup_unnamed key m)

  lookup-keep :
      (key this : String) (i : Bool) (q : ℕ) (kept : Dict ℕ)
      → lookup key (keep i (this, q) kept)
        ≡ (if i then lookup key kept else if str_eq this key then some q else lookup key kept)
  unfolding lookup
  lookup-keep key this true q kept = refl
  lookup-keep key this false q kept = refl

  survivor-shut :
      (i : Bool) (q : ℕ) (made : List UdpSession) (o : Option ℕ)
      → survivor now (shut i q made) o ≡ survivor now made o
  survivor-shut i q made none = refl
  survivor-shut i q made (some p) = ap (λ b. if b then none else some p) (idle-shut now i q made p)

  survivor-if :
      (made : List UdpSession) (same : Bool) (q : ℕ) (o : Option ℕ)
      → (if same then (if idle now made q then none else some q) else survivor now made o)
        ≡ survivor now made (if same then some q else o)
  survivor-if made true q o = refl
  survivor-if made false q o = refl

  pick :
      (i same : Bool) (q : ℕ) (l o : Option ℕ)
      → (same ≡ true → l ≡ none)
      → (same ≡ false → l ≡ o)
      → (if i then l else if same then some q else l)
        ≡ (if same then (if i then none else some q) else o)
  pick true true q l o h k = h refl
  pick false true q l o h k = refl
  pick true false q l o h k = k refl
  pick false false q l o h k = k refl

  -- A client keeps its session just if it is not idle.
  pub lookup-range :
      (key : String) (m : Dict ℕ) (made : List UdpSession)
      → named key m ≤ 1
      → lookup key (range now m made).0 ≡ survivor now made (lookup key m)
  unfolding range lookup
  lookup-range key [] made u = refl
  lookup-range key ((this, q) ∷ m) made u =
      let i = idle now made q in
      let kept = (range now m (shut i q made)).0 in
      ap (λ r. lookup key r.0) (range-cons (this, q) m made)
      ∙ lookup-keep key this i q kept
      ∙ pick i (str_eq this key) q (lookup key kept) (survivor now made (lookup key m))
          (λ same.
            lookup_unnamed key kept (ground (arith, same, u, named-range key m (shut i q made))))
          (λ other.
            lookup-range key m (shut i q made) (omega (arith, u))
            ∙ survivor-shut i q made (lookup key m))
      ∙ survivor-if made (str_eq this key) q (lookup key m)
