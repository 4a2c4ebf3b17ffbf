-- ===== src/Tunnel/Udp/Replies.antt =====
-- Which replies internal/tunnel/udp.go sends to which client.
use proxy_centauri.Prelude.{
  ℕ, ◌+◌, ◌≤◌, ◌<◌, ◌≡◌, refl, ap, ◌∙◌, String, Bool, true, false, ◌&&◌, if◌then◌else◌, Option,
  none, some, List, [], ◌∷◌, arith, length, get_or, lookup, str_eq, total, total-append, Bool-cases,
  inl, inr,
}
use proxy_centauri.Balancer
use proxy_centauri.Balancer.{Balancer}
use proxy_centauri.Tunnel.Udp.{
  UdpSession, UdpTunnel, Worker, dials, stores, sends, ends, Move, arrives, advances, evicts,
  replies, at, dial, load_or_store, advance, forward, evict, pump, move, run, new_udp,
}
use proxy_centauri.Tunnel.Udp.Counting.{opened-past}
use proxy_centauri.Tunnel.Udp.Owned.{
  Grows, Grows-new, Grows-close, Grows-start_pump, Grows-send, Grows-range,
}
use proxy_centauri.Tunnel.Udp.Written.{pick, received, arrived}
use proxy_centauri.Tunnel.Udp.Delivery.{weight-run}

dial-Grows :
    (reaches : String → Bool) (now i : ℕ) (key : String) (data_ : List ℕ) (t : UdpTunnel)
    → Grows t.made (dial reaches now i key data_ t).made
unfolding dial
dial-Grows reaches now i key data_ t p l = ground (
  arith,
  Grows-new t.made
      (record {
        client = key;
        backend = (Balancer.next t.balancer).0;
        is_open = true;
        received = [];
        last_seen = now;
        has_pump = false;
      })
      p l,
  l,
)

load_or_store-Grows :
    (i : ℕ) (key : String) (p : ℕ) (data_ : List ℕ) (o : Option ℕ) (t : UdpTunnel)
    → Grows t.made (load_or_store i key p data_ o t).made
unfolding load_or_store
load_or_store-Grows i key p data_ (some actual) t = Grows-close p t.made
load_or_store-Grows i key p data_ none t = Grows-start_pump p t.made

advance-Grows :
    (reaches : String → Bool) (now i : ℕ) (w : Worker) (t : UdpTunnel)
    → Grows t.made (advance reaches now i w t).made
unfolding advance
advance-Grows reaches now i (dials key data_) t = dial-Grows reaches now i key data_ t
advance-Grows reaches now i (stores key p data_) t =
    load_or_store-Grows i key p data_ (lookup key t.sessions) t
advance-Grows reaches now i (sends p data_) t = Grows-send now p data_ t.made
advance-Grows reaches now i ends t = λ p l. (l, refl)

move-Grows : (m : Move) (t : UdpTunnel) → Grows t.made (move m t).made
unfolding move forward evict pump
move-Grows (arrives key data_) t = λ p l. (l, refl)
move-Grows (advances reaches now i) t = advance-Grows reaches now i (get_or t.workers i ends) t
move-Grows (evicts now) t = Grows-range now t.sessions t.made
move-Grows (replies q reply) t = λ p l. ground (arith, l)

run-Grows : (ms : List Move) (t : UdpTunnel) → Grows t.made (run ms t).made
unfolding run
run-Grows [] t = λ p l. (l, refl)
run-Grows (m ∷ ms) t = λ p l.
    let (l', e) = move-Grows m t p l in
    let (l'', e') = run-Grows ms (move m t) p l' in (l'', e' ∙ e)

module _ (key : String) (picks : List ℕ → Bool) where
  -- The replies that were sent to the client.
  abbrev pub answered : List (String × List ℕ) → ℕ
  answered sent = total (λ r. if str_eq r.0 key then pick key picks r.1 else 0) sent

  -- Those that the backends sent on the connections that were made for the client.
  abbrev reply_to : List UdpSession → Move → ℕ
  reply_to made (arrives from data_) = 0
  reply_to made (advances reaches now i) = 0
  reply_to made (evicts now) = 0
  reply_to made (replies p reply) =
      if str_eq (at made p).client key then pick key picks reply else 0

  abbrev pub replied : List UdpSession → List Move → ℕ
  replied made ms = total (reply_to made) ms

  sent-advance :
      (reaches : String → Bool) (now i : ℕ) (w : Worker) (t : UdpTunnel)
      → (advance reaches now i w t).sent_back ≡ t.sent_back
  unfolding advance
  sent-advance reaches now i (dials from data_) t = unfold dial in ground arith
  sent-advance reaches now i (stores from p data_) t =
      unfold load_or_store in
      elim (lookup from t.sessions)
        as (λ o. (load_or_store i from p data_ o t).sent_back ≡ t.sent_back) [
          | none ↦ refl
          | some actual ↦ refl
        ]
  sent-advance reaches now i (sends p data_) t = refl
  sent-advance reaches now i ends t = refl

  answered-pump :
      (p : ℕ) (reply : List ℕ) (t : UdpTunnel) (made : List UdpSession)
      → Grows t.made made
      → answered (pump p reply t).sent_back ≤ answered t.sent_back + reply_to made (replies p reply)
  unfolding pump
  answered-pump p reply t made g =
      let s = at t.made p in
      elim (Bool-cases (s.is_open && s.has_pump)) [
        | inl on ↦
            let l : p < length t.made = ground (arith, on, opened-past p t.made) in
            rw (on) (
              omega (
                arith,
                total-append
                    (λ (r : String × List ℕ). if str_eq r.0 key then pick key picks r.1 else 0)
                    t.sent_back ((s.client, reply) ∷ []),
                ap (λ c. if str_eq c key then pick key picks reply else 0) (g p l).1,
              ))
        | inr off ↦ rw (off) (omega arith)
      ]

  answered-move :
      (m : Move) (t : UdpTunnel) (made : List UdpSession)
      → Grows t.made made
      → answered (move m t).sent_back ≤ answered t.sent_back + reply_to made m
  unfolding move forward evict pump
  answered-move (arrives from data_) t made g = omega arith
  answered-move (advances reaches now i) t made g =
      rw (sent-advance reaches now i (get_or t.workers i ends) t) (omega arith)
  answered-move (evicts now) t made g = omega arith
  answered-move (replies p reply) t made g = answered-pump p reply t made g

  answered-run :
      (ms : List Move) (t : UdpTunnel)
      → answered (run ms t).sent_back ≤ answered t.sent_back + replied (run ms t).made ms
  unfolding run
  answered-run [] t = omega arith
  answered-run (m ∷ ms) t =
      let made = (run ms (move m t)).made in
      omega (
        arith,
        answered-run ms (move m t),
        answered-move m t made (λ p l.
            let (l', e) = move-Grows m t p l in
            let (l'', e') = run-Grows ms (move m t) p l' in (l'', e' ∙ e)),
      )

  -- From a new tunnel, whatever arrives, however the goroutines interleave and whenever the idle
  -- sessions are evicted, and whatever a test picks out among the datagrams: at most as many of
  -- these were written to the connections that were made for a client as arrived from it, and at
  -- most as many were sent to it as the backends sent on those connections. So no datagram goes
  -- through the session of another client, and none goes out more often than it came in.
  pub apart-run :
      (lb : Balancer) (ms : List Move)
      → let t = run ms (new_udp lb) in
        (received key picks t.made ≤ arrived key picks ms)
        × (answered t.sent_back ≤ replied t.made ms)
  unfolding new_udp
  apart-run lb ms = (
    omega (arith, weight-run key picks ms (new_udp lb) (record { entries = tt; workers = tt })),
    omega (arith, answered-run ms (new_udp lb)),
  )
