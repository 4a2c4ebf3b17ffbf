-- ===== src/Tunnel/Udp.antt =====
-- internal/tunnel/udp.go. The goroutines that `Listen` starts are workers in a list; each move of a
-- worker is one step between two reads or writes of what they share. A session is a pointer into
-- the list of all sessions made, each of which owns the connection that was dialed for it.
pub mod Counting
pub mod Holders
pub mod Sticky
pub mod Owned
pub mod Aimed
pub mod Written
pub mod Delivery
pub mod Replies
pub mod Visits
pub mod Order
use proxy_centauri.Prelude.{
  ℕ, ◌+◌, String, Bool, true, false, ◌&&◌, Option, none, some, List, [], ◌∷◌, ◌++◌, if◌then◌else◌,
  ltb, str_eq, length, get_or, set, Dict, lookup, insert,
}
use proxy_centauri.Balancer
use proxy_centauri.Balancer.{Balancer}

-- A session: the client it was made for, its connection (backend, open or closed, the datagrams
-- written to it), and whether its pump was started.
pub record UdpSession : Type 0 where
  pub client : String
  pub backend : String
  pub is_open : Bool
  pub received : List (List ℕ)
  pub last_seen : ℕ
  pub has_pump : Bool

-- Where a goroutine of `forward` stands: before it asks the balancer, before `LoadOrStore` with the
-- session it made, before it writes to its session, or at its end.
pub data Worker : Type 0 where
  dials : String → List ℕ → Worker
  stores : String → ℕ → List ℕ → Worker
  sends : ℕ → List ℕ → Worker
  ends : Worker

-- `sent_back` is what the clients get.
pub record UdpTunnel : Type 0 where
  pub balancer : Balancer
  pub sessions : Dict ℕ
  pub made : List UdpSession
  pub workers : List Worker
  pub sent_back : List (String × List ℕ)

unfoldable pub new_udp : Balancer → UdpTunnel
new_udp lb = record { balancer = lb; sessions = []; made = []; workers = []; sent_back = [] }

-- What no pointer reads.
abbrev pub no_session : UdpSession
no_session = record {
  client = "";
  backend = "";
  is_open = false;
  received = [];
  last_seen = 0;
  has_pump = false;
}

abbrev pub at : List UdpSession → ℕ → UdpSession
at made p = get_or made p no_session

-- `Close` of a session's connection.
unfoldable pub close : ℕ → List UdpSession → List UdpSession
close p made = let s = at made p in set made p (record s { is_open = false })

unfoldable pub start_pump : ℕ → List UdpSession → List UdpSession
start_pump p made = let s = at made p in set made p (record s { has_pump = true })

-- `lastSeen = now`, and a `Write` that a closed connection refuses.
unfoldable pub send : ℕ → ℕ → List ℕ → List UdpSession → List UdpSession
send now p data_ made =
    let s = at made p in
    set made p (record s {
      last_seen = now;
      received = if s.is_open then s.received ++ data_ ∷ [] else s.received;
    })

-- `Next` and `Dial`, where `reaches` says which backends can be dialed.
unfoldable pub dial : (String → Bool) → ℕ → ℕ → String → List ℕ → UdpTunnel → UdpTunnel
dial reaches now i key data_ t =
    let (addr, b) = Balancer.next t.balancer in
    let asked = record t { balancer = b } in
    if str_eq addr ""
    then record asked { workers = set t.workers i ends }
    else if reaches addr
    then record asked {
      made =
          t.made
          ++ record {
            client = key;
            backend = addr;
            is_open = true;
            received = [];
            last_seen = now;
            has_pump = false;
          }
            ∷ [];
      workers = set t.workers i (stores key (length t.made) data_);
    }
    else record asked { workers = set t.workers i ends }

-- `LoadOrStore`, with what the map has: the loser of a race closes its own connection.
unfoldable pub load_or_store : ℕ → String → ℕ → List ℕ → Option ℕ → UdpTunnel → UdpTunnel
unfolding close start_pump
load_or_store i key p data_ (some actual) t = record t {
  made = close p t.made;
  workers = set t.workers i (sends actual data_);
}
load_or_store i key p data_ none t = record t {
  sessions = insert key p t.sessions;
  made = start_pump p t.made;
  workers = set t.workers i (sends p data_);
}

-- The next move of worker `i`.
unfoldable pub advance : (String → Bool) → ℕ → ℕ → Worker → UdpTunnel → UdpTunnel
unfolding dial load_or_store send
advance reaches now i (dials key data_) t = dial reaches now i key data_ t
advance reaches now i (stores key p data_) t = load_or_store i key p data_ (lookup key t.sessions) t
advance reaches now i (sends p data_) t = record t {
  made = send now p data_ t.made;
  workers = set t.workers i ends;
}
advance reaches now i ends t = t

-- A new worker, with what its `Load` found.
abbrev pub first : String → List ℕ → Option ℕ → Worker
first key data_ none = dials key data_
first key data_ (some p) = sends p data_

unfoldable pub forward : String → List ℕ → UdpTunnel → UdpTunnel
forward key data_ t = record t {
  workers = t.workers ++ first key data_ (lookup key t.sessions) ∷ [];
}

-- The `Range` of `evict` at the time `now` in seconds: the idle sessions are closed and deleted.
unfoldable pub range : ℕ → Dict ℕ → List UdpSession → Dict ℕ × List UdpSession
range now [] made = ([], made)
range now ((key, p) ∷ rest) made =
    let idle = ltb ((at made p).last_seen + 30) now in
    let (kept, made') = range now rest (if idle then close p made else made) in
    (if idle then kept else (key, p) ∷ kept, made')

unfoldable pub evict : ℕ → UdpTunnel → UdpTunnel
unfolding range
evict now t =
    let (kept, made) = range now t.sessions t.made in record t { sessions = kept; made = made }

-- A reply of the backend of session `p`, which the pump passes on while the connection is open.
unfoldable pub pump : ℕ → List ℕ → UdpTunnel → UdpTunnel
pump p reply t =
    let s = at t.made p in
    if s.is_open && s.has_pump
    then record t { sent_back = t.sent_back ++ (s.client, reply) ∷ [] }
    else t

-- What can happen next.
pub data Move : Type 0 where
  arrives : String → List ℕ → Move
  advances : (String → Bool) → ℕ → ℕ → Move
  evicts : ℕ → Move
  replies : ℕ → List ℕ → Move

unfoldable pub move : Move → UdpTunnel → UdpTunnel
unfolding forward advance evict pump
move (arrives key data_) t = forward key data_ t
move (advances reaches now i) t = advance reaches now i (get_or t.workers i ends) t
move (evicts now) t = evict now t
move (replies p reply) t = pump p reply t

unfoldable pub run : List Move → UdpTunnel → UdpTunnel
unfolding move
run [] t = t
run (m ∷ ms) t = run ms (move m t)
