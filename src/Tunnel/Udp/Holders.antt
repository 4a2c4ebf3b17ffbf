-- ===== src/Tunnel/Udp/Holders.antt =====
-- Who holds the connections of internal/tunnel/udp.go.
use proxy_centauri.Prelude.{
  ℕ, ◌+◌, ◌<◌, ◌≡◌, refl, sym, subst, ◌∙◌, String, Bool, true, false, Option, none, some, List, [],
  ◌∷◌, arith, inl, inr, length, get_or, lookup,
}
use proxy_centauri.Balancer
use proxy_centauri.Balancer.{Balancer}
use proxy_centauri.Tunnel.Udp.{
  UdpSession, UdpTunnel, Worker, dials, stores, sends, ends, Move, arrives, advances, evicts,
  replies, dial, load_or_store, advance, first, forward, evict, pump, move, run, new_udp,
}
use proxy_centauri.Tunnel.Udp.Counting.{
  entries, waits, waiting, opened, opened-past, opened-new, opened-close, opened-start_pump,
  opened-send, entries-insert, in_range, waiting-set, waiting-new, entries-range,
}

-- An open connection has exactly one holder, the map or a worker that is about to store it; a
-- closed one has none.
abbrev pub IsTight : UdpTunnel → Type 0
IsTight t = (p : ℕ) → entries p t.sessions + waiting p t.workers ≡ opened p t.made

holds-dial :
    (reaches : String → Bool) (now i : ℕ) (key : String) (data_ : List ℕ) (t : UdpTunnel)
    → get_or t.workers i ends ≡ dials key data_
    → i < length t.workers
    → IsTight t
    → IsTight (dial reaches now i key data_ t)
unfolding dial
holds-dial reaches now i key data_ t e l h p =
    let new_one : UdpSession = record {
      client = key;
      backend = (Balancer.next t.balancer).0;
      is_open = true;
      received = [];
      last_seen = now;
      has_pump = false;
    } in
    ground (
      arith,
      waiting-set p t.workers i ends l,
      waiting-set p t.workers i (stores key (length t.made) data_) l,
      opened-new p t.made new_one refl,
      opened-past p t.made,
      h p,
      e,
    )

holds-load_or_store :
    (i : ℕ) (key : String) (q : ℕ) (data_ : List ℕ) (t : UdpTunnel) (o : Option ℕ)
    → get_or t.workers i ends ≡ stores key q data_
    → i < length t.workers
    → lookup key t.sessions ≡ o
    → IsTight t
    → IsTight (load_or_store i key q data_ o t)
unfolding load_or_store
holds-load_or_store i key q data_ t (some actual) e l k h p =
    ground
      (arith, waiting-set p t.workers i (sends actual data_) l, opened-close p q t.made, h p, e)
holds-load_or_store i key q data_ t none e l k h p = ground (
  arith,
  waiting-set p t.workers i (sends q data_) l,
  opened-start_pump p q t.made,
  entries-insert p key q t.sessions k,
  h p,
  e,
)

holds-next :
    (reaches : String → Bool) (now i : ℕ) (w : Worker) (t : UdpTunnel)
    → get_or t.workers i ends ≡ w
    → i < length t.workers
    → IsTight t
    → IsTight (advance reaches now i w t)
unfolding advance
holds-next reaches now i (dials key data_) t e l h = holds-dial reaches now i key data_ t e l h
holds-next reaches now i (stores key p data_) t e l h =
    holds-load_or_store i key p data_ t (lookup key t.sessions) e l refl h
holds-next reaches now i (sends p data_) t e l h = λ p'.
    ground (arith, waiting-set p' t.workers i ends l, opened-send p' now p data_ t.made, h p', e)
holds-next reaches now i ends t e l h = h

holds-advance :
    (reaches : String → Bool) (now i : ℕ) (w : Worker) (t : UdpTunnel)
    → get_or t.workers i ends ≡ w
    → IsTight t
    → IsTight (advance reaches now i w t)
unfolding advance
holds-advance reaches now i w t e h = elim (in_range t.workers i) [
  | inl none_there ↦ subst (λ x. IsTight (advance reaches now i x t)) (sym none_there ∙ e) h
  | inr l ↦ holds-next reaches now i w t e l h
]

waits-first :
    (p : ℕ) (key : String) (data_ : List ℕ) (o : Option ℕ) → waits p (first key data_ o) ≡ 0
waits-first p key data_ none = refl
waits-first p key data_ (some q) = refl

pub holds-move : (m : Move) (t : UdpTunnel) → IsTight t → IsTight (move m t)
unfolding move forward evict pump
holds-move (arrives key data_) t h = λ p. omega (
  arith,
  waiting-new p t.workers (first key data_ (lookup key t.sessions)),
  waits-first p key data_ (lookup key t.sessions),
  h p,
)
holds-move (advances reaches now i) t h =
    holds-advance reaches now i (get_or t.workers i ends) t refl h
holds-move (evicts now) t h = λ p. ground (arith, entries-range p now t.sessions t.made, h p)
holds-move (replies q reply) t h = λ p. ground (arith, h p)

pub holds-run : (ms : List Move) (t : UdpTunnel) → IsTight t → IsTight (run ms t)
unfolding run
holds-run [] t h = h
holds-run (m ∷ ms) t h = holds-run ms (move m t) (holds-move m t h)

-- From a new tunnel, whatever arrives, however the goroutines interleave and whenever the idle
-- sessions are evicted, every open connection to a backend has exactly one holder, the session map
-- or a goroutine that is about to store it, and no closed connection has one: a race of two
-- datagrams leaks none.
pub run-IsTight : (lb : Balancer) (ms : List Move) → IsTight (run ms (new_udp lb))
unfolding new_udp
run-IsTight lb ms = holds-run ms (new_udp lb) (λ p. refl)
