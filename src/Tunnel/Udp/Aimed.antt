-- ===== src/Tunnel/Udp/Aimed.antt =====
-- The moves of internal/tunnel/udp.go, which leave every pointer on a session of its client.
use proxy_centauri.Prelude.{
  ℕ, ◌≡◌, refl, String, Bool, true, false, if◌then◌else◌, ◌&&◌, Option, none, some, List, [], ◌∷◌,
  ◌++◌, length, get_or, set, lookup, str_eq,
}
use proxy_centauri.Balancer
use proxy_centauri.Tunnel.Udp.{
  UdpSession, UdpTunnel, Worker, dials, stores, sends, ends, Move, arrives, advances, evicts,
  replies, at, close, start_pump, send, dial, load_or_store, advance, first, forward, range, evict,
  pump, move,
}
use proxy_centauri.Tunnel.Udp.Owned.{
  IsOwned, IsAimed, Owns, entries-Grows, workers-Grows, Grows-new, Owns-new, Owns-lookup,
  entries-insert, workers-set, workers-new, IsAimed-get_or, Grows-close, Grows-start_pump,
  Grows-send, Grows-range, entries-range,
}

dial-IsOwned :
    (reaches : String → Bool) (now i : ℕ) (key : String) (data_ : List ℕ) (t : UdpTunnel)
    → IsOwned t
    → IsOwned (dial reaches now i key data_ t)
unfolding dial
dial-IsOwned reaches now i key data_ t h =
    let addr = (Balancer.next t.balancer).0 in
    let s : UdpSession = record {
      client = key;
      backend = addr;
      is_open = true;
      received = [];
      last_seen = now;
      has_pump = false;
    } in
    let g = Grows-new t.made s in
    let made = t.made ++ s ∷ [] in
    let asked = record t { balancer = (Balancer.next t.balancer).1 } in
    let gone = record asked { workers = set t.workers i ends } in
    let new_one : UdpTunnel = record asked {
      made = made;
      workers = set t.workers i (stores key (length t.made) data_);
    } in
    let given_up : IsOwned gone = record {
      entries = h.entries;
      workers = workers-set t.made t.workers i ends tt h.workers;
    } in
    elim (str_eq addr "")
      as (λ b. IsOwned (if b then gone else if reaches addr then new_one else gone)) [
        | true ↦ given_up
        | false ↦ elim (reaches addr) as (λ b. IsOwned (if b then new_one else gone)) [
          | true ↦ record {
            entries = entries-Grows t.made made g t.sessions h.entries;
            workers =
                workers-set made t.workers i _ (Owns-new t.made s)
                  (workers-Grows t.made made g t.workers h.workers);
          }
          | false ↦ given_up
        ]
      ]

load_or_store-IsOwned :
    (i : ℕ) (key : String) (p : ℕ) (data_ : List ℕ) (o : Option ℕ) (t : UdpTunnel)
    → lookup key t.sessions ≡ o
    → Owns t.made key p
    → IsOwned t
    → IsOwned (load_or_store i key p data_ o t)
unfolding load_or_store
load_or_store-IsOwned i key p data_ (some actual) t e own h =
    let g = Grows-close p t.made in
    let after = close p t.made in
    record {
      entries = entries-Grows t.made after g t.sessions h.entries;
      workers =
          workers-set after t.workers i (sends actual data_)
            (g actual (Owns-lookup t.made key actual t.sessions h.entries e).0).0
            (workers-Grows t.made after g t.workers h.workers);
    }
load_or_store-IsOwned i key p data_ none t e own h =
    let g = Grows-start_pump p t.made in
    let after = start_pump p t.made in
    record {
      entries =
          entries-Grows t.made after g _ (entries-insert t.made key p t.sessions own h.entries);
      workers =
          workers-set after t.workers i (sends p data_) (g p own.0).0
            (workers-Grows t.made after g t.workers h.workers);
    }

advance-IsOwned :
    (reaches : String → Bool) (now i : ℕ) (w : Worker) (t : UdpTunnel)
    → IsAimed t.made w
    → IsOwned t
    → IsOwned (advance reaches now i w t)
unfolding advance
advance-IsOwned reaches now i (dials key data_) t a h = dial-IsOwned reaches now i key data_ t h
advance-IsOwned reaches now i (stores key p data_) t a h =
    load_or_store-IsOwned i key p data_ (lookup key t.sessions) t refl a h
advance-IsOwned reaches now i (sends p data_) t a h =
    let after = send now p data_ t.made in
    let g = Grows-send now p data_ t.made in
    record {
      entries = entries-Grows t.made after g t.sessions h.entries;
      workers =
          workers-set after t.workers i ends tt (workers-Grows t.made after g t.workers h.workers);
    }
advance-IsOwned reaches now i ends t a h = h

pub first-IsAimed :
    (key : String) (data_ : List ℕ) (o : Option ℕ) (t : UdpTunnel)
    → lookup key t.sessions ≡ o
    → IsOwned t
    → IsAimed t.made (first key data_ o)
first-IsAimed key data_ none t e h = tt
first-IsAimed key data_ (some p) t e h = (Owns-lookup t.made key p t.sessions h.entries e).0

pub move-IsOwned : (m : Move) (t : UdpTunnel) → IsOwned t → IsOwned (move m t)
unfolding move forward evict
move-IsOwned (arrives key data_) t h = record {
  entries = h.entries;
  workers =
      workers-new t.made t.workers _ (first-IsAimed key data_ (lookup key t.sessions) t refl h)
        h.workers;
}
move-IsOwned (advances reaches now i) t h =
    advance-IsOwned reaches now i (get_or t.workers i ends) t
      (IsAimed-get_or t.made t.workers i h.workers) h
move-IsOwned (evicts now) t h =
    let after = (range now t.sessions t.made).1 in
    let g = Grows-range now t.sessions t.made in
    record {
      entries =
          entries-Grows t.made after g _
            (entries-range (λ e. Owns t.made e.0 e.1) now t.sessions t.made h.entries);
      workers = workers-Grows t.made after g t.workers h.workers;
    }
move-IsOwned (replies p reply) t h =
    let s = at t.made p in
    unfold pump in
    elim (s.is_open && s.has_pump)
      as (λ b.
        IsOwned (if b then record t { sent_back = t.sent_back ++ (s.client, reply) ∷ [] } else t)) [
          | true ↦ record { entries = h.entries; workers = h.workers }
          | false ↦ h
        ]
