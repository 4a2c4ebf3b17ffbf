-- ===== src/Tunnel/Udp/Sticky.antt =====
-- Which backend a client's datagrams go to, internal/tunnel/udp.go.
use proxy_centauri.Prelude.{
  ℕ, zero, suc, ◌<◌, ◌≡◌, refl, ◌∙◌, String, eq_iff, Bool, true, false, Option, none, some, List,
  [], ◌∷◌, ◌++◌, arith, length, get_or, set, Dict, lookup, lookup-insert,
}
use proxy_centauri.Balancer
use proxy_centauri.Tunnel.Udp.{
  UdpSession, UdpTunnel, Worker, dials, stores, sends, ends, Move, arrives, advances, evicts,
  replies, at, close, start_pump, send, dial, load_or_store, advance, forward, pump, move, run,
}
use proxy_centauri.Tunnel.Udp.Counting.{entries, opened-past}
use proxy_centauri.Tunnel.Udp.Holders.{IsTight, holds-move}

abbrev pub Quiet : List Move → Type 0
Quiet [] = Unit
Quiet (arrives key data_ ∷ ms) = Quiet ms
Quiet (advances reaches now i ∷ ms) = Quiet ms
Quiet (evicts now ∷ ms) = ⊥
Quiet (replies p reply ∷ ms) = Quiet ms

backend-set :
    (p : ℕ) (made : List UdpSession) (q : ℕ) (s : UdpSession)
    → s.backend ≡ (at made q).backend
    → (at (set made q s) p).backend ≡ (at made p).backend
backend-set p [] q s h = refl
backend-set zero (x ∷ made) zero s h = h
backend-set (suc p) (x ∷ made) zero s h = refl
backend-set zero (x ∷ made) (suc q) s h = refl
backend-set (suc p) (x ∷ made) (suc q) s h = backend-set p made q s h

backend-new :
    (p : ℕ) (made : List UdpSession) (s : UdpSession)
    → p < length made
    → (at (made ++ s ∷ []) p).backend ≡ (at made p).backend
backend-new p [] s h = elim h [ ]
backend-new zero (x ∷ made) s h = refl
backend-new (suc p) (x ∷ made) s h = backend-new p made s (omega arith)

entries-lookup : (key : String) (p : ℕ) (m : Dict ℕ) → lookup key m ≡ some p → 0 < entries p m
unfolding lookup
entries-lookup key p [] h = ground arith
entries-lookup key p ((key', q) ∷ m) h = ground (arith, entries-lookup key p m)

-- A session in the map is open, and so was made.
open-lookup :
    (key : String) (p : ℕ) (t : UdpTunnel)
    → IsTight t
    → lookup key t.sessions ≡ some p
    → ((at t.made p).is_open ≡ true) × (p < length t.made)
open-lookup key p t h k =
    ground (arith, h p, entries-lookup key p t.sessions k, opened-past p t.made)

module _ (key : String) (p : ℕ) where
  abbrev pub Served : String → UdpTunnel → Type 0
  Served backend t = (lookup key t.sessions ≡ some p) × ((at t.made p).backend ≡ backend)

  dial-Served :
      (backend : String) (reaches : String → Bool) (now i : ℕ) (from : String) (data_ : List ℕ)
      (t : UdpTunnel)
      → p < length t.made
      → Served backend t
      → Served backend (dial reaches now i from data_ t)
  unfolding dial
  dial-Served backend reaches now i from data_ t l h =
      let new_one : UdpSession = record {
        client = from;
        backend = (Balancer.next t.balancer).0;
        is_open = true;
        received = [];
        last_seen = now;
        has_pump = false;
      } in
      (ground (arith, h.0), ground (arith, h.1, backend-new p t.made new_one l))

  pump-Served :
      (backend : String) (q : ℕ) (reply : List ℕ) (t : UdpTunnel)
      → Served backend t
      → Served backend (pump q reply t)
  unfolding pump
  pump-Served backend q reply t h = (ground (arith, h.0), ground (arith, h.1))

  load_or_store-Served :
      (backend : String) (i : ℕ) (from : String) (q : ℕ) (data_ : List ℕ) (o : Option ℕ)
      (t : UdpTunnel)
      → lookup from t.sessions ≡ o
      → Served backend t
      → Served backend (load_or_store i from q data_ o t)
  unfolding load_or_store close start_pump
  load_or_store-Served backend i from q data_ (some actual) t k h =
      (h.0, backend-set p t.made q _ refl ∙ h.1)
  load_or_store-Served backend i from q data_ none t k h = (
    ground (arith, lookup-insert from key q t.sessions, eq_iff from key, h.0, k),
    backend-set p t.made q _ refl ∙ h.1,
  )

  advance-Served :
      (backend : String) (reaches : String → Bool) (now i : ℕ) (w : Worker) (t : UdpTunnel)
      → p < length t.made
      → Served backend t
      → Served backend (advance reaches now i w t)
  unfolding advance send
  advance-Served backend reaches now i (dials from data_) t l h =
      dial-Served backend reaches now i from data_ t l h
  advance-Served backend reaches now i (stores from q data_) t l h =
      load_or_store-Served backend i from q data_ (lookup from t.sessions) t refl h
  advance-Served backend reaches now i (sends q data_) t l h =
      (h.0, backend-set p t.made q _ refl ∙ h.1)
  advance-Served backend reaches now i ends t l h = h

  run-Served :
      (backend : String) (ms : List Move) (t : UdpTunnel)
      → Quiet ms
      → IsTight t
      → Served backend t
      → Served backend (run ms t) × IsTight (run ms t)
  unfolding run move forward pump
  run-Served backend [] t q h s = (s, h)
  run-Served backend (arrives from data_ ∷ ms) t q h s =
      run-Served backend ms (move (arrives from data_) t) q (holds-move (arrives from data_) t h) s
  run-Served backend (advances reaches now i ∷ ms) t q h s =
      run-Served backend ms (move (advances reaches now i) t) q
        (holds-move (advances reaches now i) t h)
        (advance-Served backend reaches now i (get_or t.workers i ends) t
          (open-lookup key p t h s.0).1 s)
  run-Served backend (evicts now ∷ ms) t q h s = absurd q
  run-Served backend (replies from reply ∷ ms) t q h s =
      run-Served backend ms (move (replies from reply) t) q (holds-move (replies from reply) t h)
        (pump-Served backend from reply t s)

-- From a state in which every open connection has exactly one holder, a client that has a session
-- keeps it as long as no eviction runs: the same connection to the same backend, which stays open,
-- whatever the goroutines of this and of other clients do.
pub session-run :
    (key : String) (p : ℕ) (ms : List Move) (t : UdpTunnel)
    → Quiet ms
    → IsTight t
    → lookup key t.sessions ≡ some p
    → (lookup key (run ms t).sessions ≡ some p)
      × ((at (run ms t).made p).backend ≡ (at t.made p).backend)
      × ((at (run ms t).made p).is_open ≡ true)
session-run key p ms t q h k =
    let (s, h') = run-Served key p (at t.made p).backend ms t q h (k, refl) in
    (s.0, s.1, (open-lookup key p (run ms t) h' s.0).0)
