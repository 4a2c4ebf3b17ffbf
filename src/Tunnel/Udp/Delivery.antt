-- ===== src/Tunnel/Udp/Delivery.antt =====
-- Which datagrams internal/tunnel/udp.go writes to which connections.
use proxy_centauri.Prelude.{
  ℕ, ◌+◌, ◌≤◌, ◌<◌, ◌≡◌, refl, sym, subst, ap, String, Bool, true, false, ◌&&◌, if◌then◌else◌,
  Option, none, some, List, [], ◌∷◌, ◌++◌, arith, length, get_or, set, lookup, total, total-set,
  total-append, inl, inr,
}
use proxy_centauri.Balancer
use proxy_centauri.Balancer.{Balancer}
use proxy_centauri.Tunnel.Udp.{
  UdpSession, UdpTunnel, Worker, dials, stores, sends, ends, Move, arrives, advances, evicts,
  replies, at, close, start_pump, send, dial, load_or_store, advance, first, forward, range, evict,
  pump, move, run,
}
use proxy_centauri.Tunnel.Udp.Counting.{in_range}
use proxy_centauri.Tunnel.Udp.Owned.{
  IsOwned, IsAimed, Owns, Grows-new, Owns-lookup, IsAimed-get_or, Grows-close, Grows-start_pump,
  Grows-send, Grows-range,
}
use proxy_centauri.Tunnel.Udp.Written.{
  got, arrival, holds, weight, received, arrived, holds-Grows, total-Grows, received-close,
  received-start_pump, received-range, received-send,
}
use proxy_centauri.Tunnel.Udp.Aimed.{move-IsOwned}

module _ (key : String) (picks : List ℕ → Bool) where
  -- No move of a worker makes the measure greater.
  weight-dial :
      (reaches : String → Bool) (now i : ℕ) (from : String) (data_ : List ℕ) (t : UdpTunnel)
      → get_or t.workers i ends ≡ dials from data_
      → i < length t.workers
      → IsOwned t
      → weight key picks (dial reaches now i from data_ t) ≤ weight key picks t
  unfolding dial
  weight-dial reaches now i from data_ t e l h =
      let s : UdpSession = record {
        client = from;
        backend = (Balancer.next t.balancer).0;
        is_open = true;
        received = [];
        last_seen = now;
        has_pump = false;
      } in
      let made = t.made ++ s ∷ [] in
      ground (
        arith,
        total-set (holds key picks t.made) t.workers i ends ends l,
        total-set (holds key picks made) t.workers i (stores from (length t.made) data_) ends l,
        total-Grows key picks t.made made t.workers (Grows-new t.made s) h.workers,
        total-append (got key picks) t.made (s ∷ []),
        e,
      )

  weight-load_or_store :
      (i : ℕ) (from : String) (p : ℕ) (data_ : List ℕ) (o : Option ℕ) (t : UdpTunnel)
      → get_or t.workers i ends ≡ stores from p data_
      → i < length t.workers
      → lookup from t.sessions ≡ o
      → Owns t.made from p
      → IsOwned t
      → weight key picks (load_or_store i from p data_ o t) ≤ weight key picks t
  unfolding load_or_store
  weight-load_or_store i from p data_ (some actual) t e l k own h =
      let after = close p t.made in
      let g = Grows-close p t.made in
      let (la, ca) = Owns-lookup t.made from actual t.sessions h.entries k in
      ground (
        arith,
        total-set (holds key picks after) t.workers i (sends actual data_) ends l,
        total-Grows key picks t.made after t.workers g h.workers,
        received-close key picks p t.made,
        (g actual la).1,
        ca,
        e,
      )
  weight-load_or_store i from p data_ none t e l k own h =
      let after = start_pump p t.made in
      let g = Grows-start_pump p t.made in
      ground (
        arith,
        total-set (holds key picks after) t.workers i (sends p data_) ends l,
        total-Grows key picks t.made after t.workers g h.workers,
        received-start_pump key picks p t.made,
        (g p own.0).1,
        own.1,
        e,
      )

  weight-sends :
      (now i p : ℕ) (data_ : List ℕ) (t : UdpTunnel)
      → get_or t.workers i ends ≡ sends p data_
      → i < length t.workers
      → p < length t.made
      → IsOwned t
      → received key picks (send now p data_ t.made)
          + total (holds key picks (send now p data_ t.made)) (set t.workers i ends)
        ≤ weight key picks t
  weight-sends now i p data_ t e l a h =
      let after = send now p data_ t.made in
      let g = Grows-send now p data_ t.made in
      omega (
        arith,
        total-set (holds key picks after) t.workers i ends ends l,
        total-Grows key picks t.made after t.workers g h.workers,
        received-send key picks now p data_ t.made a,
        holds-Grows key picks t.made after (sends p data_) g a,
        ap (holds key picks after) e,
      )

  weight-advance :
      (reaches : String → Bool) (now i : ℕ) (w : Worker) (t : UdpTunnel)
      → get_or t.workers i ends ≡ w
      → i < length t.workers
      → IsAimed t.made w
      → IsOwned t
      → weight key picks (advance reaches now i w t) ≤ weight key picks t
  unfolding advance
  weight-advance reaches now i (dials from data_) t e l a h =
      weight-dial reaches now i from data_ t e l h
  weight-advance reaches now i (stores from p data_) t e l a h =
      weight-load_or_store i from p data_ (lookup from t.sessions) t e l refl a h
  weight-advance reaches now i (sends p data_) t e l a h = weight-sends now i p data_ t e l a h
  weight-advance reaches now i ends t e l a h = omega arith

  weight-idle :
      (reaches : String → Bool) (now i : ℕ) (w : Worker) (t : UdpTunnel)
      → w ≡ ends
      → weight key picks (advance reaches now i w t) ≤ weight key picks t
  unfolding advance
  weight-idle reaches now i w t e =
      subst (λ v. weight key picks (advance reaches now i v t) ≤ weight key picks t) (sym e)
        (omega arith)

  weight-pump :
      (p : ℕ) (reply : List ℕ) (t : UdpTunnel)
      → weight key picks (pump p reply t) ≡ weight key picks t
  unfolding pump
  weight-pump p reply t =
      let s = at t.made p in
      elim (s.is_open && s.has_pump)
        as (λ b.
          weight key picks
            (if b then record t { sent_back = t.sent_back ++ (s.client, reply) ∷ [] } else t)
          ≡ weight key picks t) [ true ↦ refl | false ↦ refl ]

  weight-first :
      (from : String) (data_ : List ℕ) (o : Option ℕ) (t : UdpTunnel)
      → lookup from t.sessions ≡ o
      → IsOwned t
      → holds key picks t.made (first from data_ o) ≡ arrival key picks (arrives from data_)
  weight-first from data_ none t e h = refl
  weight-first from data_ (some p) t e h =
      rw ((Owns-lookup t.made from p t.sessions h.entries e).1) refl

  weight-move :
      (m : Move) (t : UdpTunnel)
      → IsOwned t
      → weight key picks (move m t) ≤ weight key picks t + arrival key picks m
  unfolding move forward evict
  weight-move (arrives from data_) t h = omega (
    arith,
    total-append (holds key picks t.made) t.workers
        (first from data_ (lookup from t.sessions) ∷ []),
    weight-first from data_ (lookup from t.sessions) t refl h,
  )
  weight-move (advances reaches now i) t h = elim (in_range t.workers i) [
    | inl e ↦ omega (arith, weight-idle reaches now i (get_or t.workers i ends) t e)
    | inr l ↦ omega (
      arith,
      weight-advance reaches now i (get_or t.workers i ends) t refl l
          (IsAimed-get_or t.made t.workers i h.workers) h,
    )
  ]
  weight-move (evicts now) t h = omega (
    arith,
    total-Grows key picks t.made (range now t.sessions t.made).1 t.workers
        (Grows-range now t.sessions t.made) h.workers,
    received-range key picks now t.sessions t.made,
  )
  weight-move (replies p reply) t h = omega (arith, weight-pump p reply t)

  pub weight-run :
      (ms : List Move) (t : UdpTunnel)
      → IsOwned t
      → received key picks (run ms t).made ≤ weight key picks t + arrived key picks ms
  unfolding run
  weight-run [] t h = omega arith
  weight-run (m ∷ ms) t h =
      omega (arith, weight-run ms (move m t) (move-IsOwned m t h), weight-move m t h)
