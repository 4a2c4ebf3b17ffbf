-- ===== src/Tunnel/Udp/Counting.antt =====
-- The pointers and connections of internal/tunnel/udp.go, counted.
use proxy_centauri.Prelude.{
  ℕ, zero, suc, ◌+◌, ◌≤◌, ◌<◌, ◌≡◌, refl, String, true, false, ◌&&◌, none, List, [], ◌∷◌, ◌++◌,
  arith, if◌then◌else◌, ltb, ◌==◌, ◌⊎◌, inl, inr, length, get_or, set, Dict, lookup, insert,
}
use proxy_centauri.Tunnel.Udp.{
  UdpSession, Worker, dials, stores, sends, ends, at, close, start_pump, send, range,
}

-- How often the map points to session `p`.
abbrev pub entries : ℕ → Dict ℕ → ℕ
entries p [] = 0
entries p ((key, q) ∷ m) = (if p == q then 1 else 0) + entries p m

-- Whether a worker is about to store session `p`.
abbrev pub waits : ℕ → Worker → ℕ
waits p (dials key data_) = 0
waits p (stores key q data_) = if p == q then 1 else 0
waits p (sends q data_) = 0
waits p ends = 0

abbrev pub waiting : ℕ → List Worker → ℕ
waiting p [] = 0
waiting p (w ∷ ws) = waits p w + waiting p ws

abbrev pub opened : ℕ → List UdpSession → ℕ
opened p made = if (at made p).is_open then 1 else 0

pub opened-set :
    (p : ℕ) (made : List UdpSession) (q : ℕ) (s : UdpSession)
    → opened p (set made q s)
      ≡ (if p == q && ltb q (length made) then (if s.is_open then 1 else 0) else opened p made)
opened-set p [] q s = ground arith
opened-set zero (x ∷ made) zero s = ground arith
opened-set (suc p) (x ∷ made) zero s = ground arith
opened-set zero (x ∷ made) (suc q) s = ground arith
opened-set (suc p) (x ∷ made) (suc q) s = ground (arith, opened-set p made q s)

pub opened-past : (p : ℕ) (made : List UdpSession) → length made ≤ p → opened p made ≡ 0
opened-past p [] h = refl
opened-past zero (x ∷ made) h = elim h [ ]
opened-past (suc p) (x ∷ made) h = opened-past p made (omega arith)

pub opened-new :
    (p : ℕ) (made : List UdpSession) (s : UdpSession)
    → s.is_open ≡ true
    → opened p (made ++ s ∷ []) ≡ (if p == length made then 1 else opened p made)
opened-new zero [] s h = ground (arith, h)
opened-new (suc p) [] s h = ground arith
opened-new zero (x ∷ made) s h = ground arith
opened-new (suc p) (x ∷ made) s h = ground (arith, opened-new p made s h)

-- A write that leaves the connection as it is.
pub opened-same :
    (p : ℕ) (made : List UdpSession) (q : ℕ) (s : UdpSession)
    → s.is_open ≡ (at made q).is_open
    → opened p (set made q s) ≡ opened p made
opened-same p [] q s h = refl
opened-same zero (x ∷ made) zero s h = ground (arith, h)
opened-same (suc p) (x ∷ made) zero s h = refl
opened-same zero (x ∷ made) (suc q) s h = refl
opened-same (suc p) (x ∷ made) (suc q) s h = opened-same p made q s h

pub opened-close :
    (p q : ℕ) (made : List UdpSession)
    → opened p (close q made) ≡ (if p == q then 0 else opened p made)
unfolding close
opened-close p q made =
    let s = at made q in
    ground (arith, opened-set p made q (record s { is_open = false }), opened-past p made)

pub opened-start_pump :
    (p q : ℕ) (made : List UdpSession) → opened p (start_pump q made) ≡ opened p made
unfolding start_pump
opened-start_pump p q made =
    let s = at made q in opened-same p made q (record s { has_pump = true }) refl

pub opened-send :
    (p now q : ℕ) (data_ : List ℕ) (made : List UdpSession)
    → opened p (send now q data_ made) ≡ opened p made
unfolding send
opened-send p now q data_ made = opened-same p made q _ refl

pub entries-insert :
    (p : ℕ) (key : String) (q : ℕ) (m : Dict ℕ)
    → lookup key m ≡ none
    → entries p (insert key q m) ≡ (if p == q then 1 else 0) + entries p m
unfolding lookup insert
entries-insert p key q [] h = refl
entries-insert p key q ((key', q') ∷ m) h = ground (arith, entries-insert p key q m)

pub in_range : (ws : List Worker) (i : ℕ) → (get_or ws i ends ≡ ends) ⊎ (i < length ws)
in_range [] i = inl refl
in_range (w ∷ ws) zero = inr (omega arith)
in_range (w ∷ ws) (suc i) = elim (in_range ws i) [ inl e ↦ inl e | inr l ↦ inr (omega arith) ]

pub waiting-set :
    (p : ℕ) (ws : List Worker) (i : ℕ) (w : Worker)
    → i < length ws
    → waiting p (set ws i w) + waits p (get_or ws i ends) ≡ waiting p ws + waits p w
waiting-set p [] i w h = elim h [ ]
waiting-set p (x ∷ ws) zero w h = omega arith
waiting-set p (x ∷ ws) (suc i) w h = omega (arith, waiting-set p ws i w (omega arith))

pub waiting-new :
    (p : ℕ) (ws : List Worker) (w : Worker) → waiting p (ws ++ w ∷ []) ≡ waiting p ws + waits p w
waiting-new p [] w = omega arith
waiting-new p (x ∷ ws) w = omega (arith, waiting-new p ws w)

-- The loop of `evict` closes exactly the sessions whose entries it deletes, if the map points to
-- open sessions, once each.
pub entries-range :
    (p now : ℕ) (m : Dict ℕ) (made : List UdpSession)
    → entries p m ≤ opened p made
    → let r = range now m made in entries p r.0 + opened p made ≡ entries p m + opened p r.1
unfolding range
entries-range p now [] made h = refl
entries-range p now ((key, q) ∷ m) made h = ground (
  arith,
  entries-range p now m made,
  entries-range p now m (close q made),
  opened-close p q made,
  h,
)
