-- ===== src/Tunnel/Udp/Owned.antt =====
-- Whose connection each pointer of internal/tunnel/udp.go leads to.
use proxy_centauri.Prelude.{
  ℕ, zero, suc, ◌<◌, ◌+◌, ◌≡◌, ◌∙◌, subst, refl, String, eq_iff, true, false, some, List, [], ◌∷◌,
  ◌++◌, arith, if◌then◌else◌, ltb, length, get_or, set, Dict, lookup, insert, All, str_eq,
  Bool-cases, inl, inr,
}
use proxy_centauri.Tunnel.Udp.{
  UdpSession, UdpTunnel, Worker, dials, stores, sends, ends, at, close, start_pump, send, range,
}

-- A session that was made for the client.
abbrev pub Owns : List UdpSession → String → ℕ → Type 0
Owns made key p = (p < length made) × ((at made p).client ≡ key)

abbrev pub IsAimed : List UdpSession → Worker → Type 0
IsAimed made (dials key data_) = Unit
IsAimed made (stores key p data_) = Owns made key p
IsAimed made (sends p data_) = p < length made
IsAimed made ends = Unit

-- The entries of the map, and the workers, lead to the sessions of their clients.
pub record IsOwned (t : UdpTunnel) : Type 0 where
  pub entries : All (λ (e : String × ℕ). Owns t.made e.0 e.1) t.sessions
  pub workers : All (IsAimed t.made) t.workers

-- More sessions, and none for another client than before.
abbrev pub Grows : List UdpSession → List UdpSession → Type 0
Grows made made' =
    (p : ℕ) → p < length made → (p < length made') × ((at made' p).client ≡ (at made p).client)

module _ (made made' : List UdpSession) (g : Grows made made') where
  Grows-Owns : (key : String) (p : ℕ) → Owns made key p → Owns made' key p
  Grows-Owns key p (l, e) = ((g p l).0, (g p l).1 ∙ e)

  pub entries-Grows :
      (m : Dict ℕ)
      → All (λ (e : String × ℕ). Owns made e.0 e.1) m
      → All (λ (e : String × ℕ). Owns made' e.0 e.1) m
  entries-Grows [] h = tt
  entries-Grows ((key, p) ∷ m) (h, hs) = (Grows-Owns key p h, entries-Grows m hs)

  IsAimed-Grows : (w : Worker) → IsAimed made w → IsAimed made' w
  IsAimed-Grows (dials key data_) h = tt
  IsAimed-Grows (stores key p data_) h = Grows-Owns key p h
  IsAimed-Grows (sends p data_) h = (g p h).0
  IsAimed-Grows ends h = tt

  pub workers-Grows : (ws : List Worker) → All (IsAimed made) ws → All (IsAimed made') ws
  workers-Grows [] h = tt
  workers-Grows (w ∷ ws) (h, hs) = (IsAimed-Grows w h, workers-Grows ws hs)

pub Grows-set :
    (made : List UdpSession) (q : ℕ) (s : UdpSession)
    → s.client ≡ (at made q).client
    → Grows made (set made q s)
Grows-set [] q s e p l = elim l [ ]
Grows-set (x ∷ made) zero s e zero l = (omega arith, e)
Grows-set (x ∷ made) zero s e (suc p) l = (omega (arith, l), refl)
Grows-set (x ∷ made) (suc q) s e zero l = (omega arith, refl)
Grows-set (x ∷ made) (suc q) s e (suc p) l =
    let (l', e') = Grows-set made q s e p (omega (arith, l)) in (omega (arith, l'), e')

pub Grows-new : (made : List UdpSession) (s : UdpSession) → Grows made (made ++ s ∷ [])
Grows-new [] s p l = elim l [ ]
Grows-new (x ∷ made) s zero l = (omega arith, refl)
Grows-new (x ∷ made) s (suc p) l =
    let (l', e') = Grows-new made s p (omega (arith, l)) in (omega (arith, l'), e')

pub Owns-new :
    (made : List UdpSession) (s : UdpSession) → Owns (made ++ s ∷ []) s.client (length made)
Owns-new [] s = (omega arith, refl)
Owns-new (x ∷ made) s = let (l, e) = Owns-new made s in (omega (arith, l), e)

pub Owns-lookup :
    (made : List UdpSession) (key : String) (p : ℕ) (m : Dict ℕ)
    → All (λ (e : String × ℕ). Owns made e.0 e.1) m
    → lookup key m ≡ some p
    → Owns made key p
unfolding lookup
Owns-lookup made key p [] h e = ground (arith, e)
Owns-lookup made key p ((this, q) ∷ m) (h, hs) e = elim (Bool-cases (str_eq this key)) [
  | inl same ↦
      let q_is : q ≡ p = ground (arith, e, same) in
      let key_is : this ≡ key = ground (arith, same, eq_iff this key) in
      subst (λ k. Owns made k p) key_is (subst (λ r. Owns made this r) q_is h)
  | inr other ↦ Owns-lookup made key p m hs (ground (arith, e, other))
]

pub entries-insert :
    (made : List UdpSession) (key : String) (p : ℕ) (m : Dict ℕ)
    → Owns made key p
    → All (λ (e : String × ℕ). Owns made e.0 e.1) m
    → All (λ (e : String × ℕ). Owns made e.0 e.1) (insert key p m)
unfolding insert
entries-insert made key p [] h hs = (h, tt)
entries-insert made key p ((this, q) ∷ m) h (k, ks) =
    elim (str_eq this key)
      as (λ b.
        All (λ (e : String × ℕ). Owns made e.0 e.1)
          (if b then (key, p) ∷ m else (this, q) ∷ insert key p m)) [
            | true ↦ (h, ks)
            | false ↦ (k, entries-insert made key p m h ks)
          ]

pub workers-set :
    (made : List UdpSession) (ws : List Worker) (i : ℕ) (w : Worker)
    → IsAimed made w
    → All (IsAimed made) ws
    → All (IsAimed made) (set ws i w)
workers-set made [] i w h hs = tt
workers-set made (x ∷ ws) zero w h (k, ks) = (h, ks)
workers-set made (x ∷ ws) (suc i) w h (k, ks) = (k, workers-set made ws i w h ks)

pub workers-new :
    (made : List UdpSession) (ws : List Worker) (w : Worker)
    → IsAimed made w
    → All (IsAimed made) ws
    → All (IsAimed made) (ws ++ w ∷ [])
workers-new made [] w h hs = (h, tt)
workers-new made (x ∷ ws) w h (k, ks) = (k, workers-new made ws w h ks)

pub IsAimed-get_or :
    (made : List UdpSession) (ws : List Worker) (i : ℕ)
    → All (IsAimed made) ws
    → IsAimed made (get_or ws i ends)
IsAimed-get_or made [] i hs = tt
IsAimed-get_or made (x ∷ ws) zero (h, hs) = h
IsAimed-get_or made (x ∷ ws) (suc i) (h, hs) = IsAimed-get_or made ws i hs

pub Grows-close : (p : ℕ) (made : List UdpSession) → Grows made (close p made)
unfolding close
Grows-close p made = Grows-set made p (record (at made p) { is_open = false }) refl

pub Grows-start_pump : (p : ℕ) (made : List UdpSession) → Grows made (start_pump p made)
unfolding start_pump
Grows-start_pump p made = Grows-set made p (record (at made p) { has_pump = true }) refl

pub Grows-send :
    (now p : ℕ) (data_ : List ℕ) (made : List UdpSession) → Grows made (send now p data_ made)
unfolding send
Grows-send now p data_ made = Grows-set made p _ refl

pub Grows-range : (now : ℕ) (m : Dict ℕ) (made : List UdpSession) → Grows made (range now m made).1
unfolding range
Grows-range now [] made p l = (l, refl)
Grows-range now ((key, q) ∷ m) made p l =
    elim (ltb ((at made q).last_seen + 30) now)
      as (λ b.
        let after = (range now m (if b then close q made else made)).1 in
        (p < length after) × ((at after p).client ≡ (at made p).client)) [
          | true ↦
              let (l', e') = Grows-close q made p l in
              let (l'', e'') = Grows-range now m (close q made) p l' in (l'', e'' ∙ e')
          | false ↦ Grows-range now m made p l
        ]

-- What `Range` keeps, it had.
pub entries-range :
    (P : String × ℕ → Type 0) (now : ℕ) (m : Dict ℕ) (made : List UdpSession)
    → All P m
    → All P (range now m made).0
unfolding range
entries-range P now [] made h = tt
entries-range P now ((key, q) ∷ m) made (h, hs) =
    elim (ltb ((at made q).last_seen + 30) now)
      as (λ b.
        let kept = (range now m (if b then close q made else made)).0 in
        All P (if b then kept else (key, q) ∷ kept)) [
          | true ↦ entries-range P now m (close q made) hs
          | false ↦ (h, entries-range P now m made hs)
        ]
