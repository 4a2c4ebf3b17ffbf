-- ===== src/Tunnel/Udp/Written.antt =====
-- Which datagrams internal/tunnel/udp.go writes to which connections: the measures.
use proxy_centauri.Prelude.{
  ℕ, ◌+◌, ◌≤◌, ◌<◌, ◌≡◌, refl, ◌∙◌, String, Bool, true, false, if◌then◌else◌, List, [], ◌∷◌, ◌++◌,
  arith, length, All, str_eq, total, total-set, total-set_same, total-append, Dict, ltb,
}
use proxy_centauri.Tunnel.Udp.{
  UdpSession, UdpTunnel, Worker, dials, stores, sends, ends, Move, arrives, advances, evicts,
  replies, at, close, start_pump, send, range, no_session,
}
use proxy_centauri.Tunnel.Udp.Owned.{IsAimed, Grows}

-- The datagrams of a client that some test picks out.
module _ (key : String) (picks : List ℕ → Bool) where
  abbrev pub pick : List ℕ → ℕ
  pick data_ = if picks data_ then 1 else 0

  -- Those that were written to a connection that was made for the client.
  abbrev pub got : UdpSession → ℕ
  got s = if str_eq s.client key then total pick s.received else 0

  abbrev pub received : List UdpSession → ℕ
  received made = total got made

  -- Those that arrived from the client.
  abbrev pub arrival : Move → ℕ
  arrival (arrives from data_) = if str_eq from key then pick data_ else 0
  arrival (advances reaches now i) = 0
  arrival (evicts now) = 0
  arrival (replies p reply) = 0

  abbrev pub arrived : List Move → ℕ
  arrived ms = total arrival ms

  -- Those that a worker has in its hands.
  abbrev pub holds : List UdpSession → Worker → ℕ
  holds made (dials from data_) = if str_eq from key then pick data_ else 0
  holds made (stores from p data_) = if str_eq from key then pick data_ else 0
  holds made (sends p data_) = if str_eq (at made p).client key then pick data_ else 0
  holds made ends = 0

  pub holds-Grows :
      (made made' : List UdpSession) (w : Worker)
      → Grows made made'
      → IsAimed made w
      → holds made' w ≡ holds made w
  holds-Grows made made' (dials from data_) g h = refl
  holds-Grows made made' (stores from p data_) g h = refl
  holds-Grows made made' (sends p data_) g h = rw ((g p h).1) refl
  holds-Grows made made' ends g h = refl

  pub total-Grows :
      (made made' : List UdpSession) (ws : List Worker)
      → Grows made made'
      → All (IsAimed made) ws
      → total (holds made') ws ≡ total (holds made) ws
  total-Grows made made' [] g h = refl
  total-Grows made made' (w ∷ ws) g (h, hs) =
      omega (arith, holds-Grows made made' w g h, total-Grows made made' ws g hs)

  abbrev pub weight : UdpTunnel → ℕ
  weight t = received t.made + total (holds t.made) t.workers

  pub received-close : (p : ℕ) (made : List UdpSession) → received (close p made) ≡ received made
  unfolding close
  received-close p made =
      total-set_same got made p (record (at made p) { is_open = false }) no_session refl

  pub received-start_pump :
      (p : ℕ) (made : List UdpSession) → received (start_pump p made) ≡ received made
  unfolding start_pump
  received-start_pump p made =
      total-set_same got made p (record (at made p) { has_pump = true }) no_session refl

  pub received-range :
      (now : ℕ) (m : Dict ℕ) (made : List UdpSession)
      → received (range now m made).1 ≡ received made
  unfolding range
  received-range now [] made = refl
  received-range now ((from, q) ∷ m) made =
      elim (ltb ((at made q).last_seen + 30) now)
        as (λ b. received (range now m (if b then close q made else made)).1 ≡ received made) [
          | true ↦ received-range now m (close q made) ∙ received-close q made
          | false ↦ received-range now m made
        ]

  -- The write takes the datagram from the worker.
  pub received-send :
      (now p : ℕ) (data_ : List ℕ) (made : List UdpSession)
      → p < length made
      → received (send now p data_ made) ≤ received made + holds made (sends p data_)
  unfolding send
  received-send now p data_ made l =
      let s = at made p in
      let s' : UdpSession = record s {
        last_seen = now;
        received = if s.is_open then s.received ++ data_ ∷ [] else s.received;
      } in
      ground
        (arith, total-set got made p s' no_session l, total-append pick s.received (data_ ∷ []))
