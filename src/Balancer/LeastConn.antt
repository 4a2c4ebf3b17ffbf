-- ===== src/Balancer/LeastConn.antt =====
-- internal/balancer/leastconn.go. The map holds pointers to atomic counters: a pointer is an index
-- into `cells`, which grows by one cell at each `new(atomic.Int64)` and loses none.
pub mod Counts
pub mod Validity
pub mod Choice
pub mod Refinement
pub mod Overlap
pub mod OpenConns
use proxy_centauri.Prelude.{
  ℕ, String, Bool, true, false, Option, none, some, List, [], ◌∷◌, ◌++◌, if◌then◌else◌, length,
  get_or, set, Dict, lookup, insert, ℤ, pos, negsuc, ltb_ℤ, add64,
}

pub record LeastConn : Type 0 where
  pub backends : List String
  pub conns : Dict ℕ
  pub cells : List ℤ

-- The loop of `NewLeastConn`: a counter of its own for every address.
unfoldable pub track : List String → LeastConn → LeastConn
track [] lc = lc
track (addr ∷ addrs) lc =
    track addrs
      (record lc { conns = insert addr (length lc.cells) lc.conns; cells = lc.cells ++ pos 0 ∷ [] })

unfoldable pub new : List String → LeastConn
unfolding track
new addrs = track addrs (record { backends = addrs; conns = []; cells = [] })

-- What a pointer of the map reads; 0 where the map has none.
abbrev pub load : List ℤ → Option ℕ → ℤ
load cells none = pos 0
load cells (some p) = get_or cells p (pos 0)

-- Whether the map has a pointer.
abbrev pub is_some : Option ℕ → Bool
is_some none = false
is_some (some p) = true

unfoldable pub count : LeastConn → String → ℤ
count lc addr = load lc.cells (lookup addr lc.conns)

-- The loop of `Next` over `backends[1:]`.
unfoldable pub scan : LeastConn → String → ℤ → List String → String
scan lc best best_count [] = best
scan lc best best_count (addr ∷ addrs) =
    let c = count lc addr in
    let better = ltb_ℤ c best_count in
    scan lc (if better then addr else best) (if better then c else best_count) addrs

unfoldable pub choose : LeastConn → List String → String
choose lc [] = ""
choose lc (best ∷ rest) = scan lc best (count lc best) rest

unfoldable pub next : LeastConn → String
unfolding choose scan
next lc = choose lc lc.backends

-- `c.Add(d)` through a pointer that was read from the map, or no pointer.
unfoldable pub add : Option ℕ → ℤ → LeastConn → LeastConn
add none d lc = lc
add (some p) d lc = record lc { cells = set lc.cells p (add64 (get_or lc.cells p (pos 0)) d) }

unfoldable pub acquire : String → LeastConn → LeastConn
unfolding add
acquire addr lc = add (lookup addr lc.conns) (pos 1) lc

unfoldable pub release : String → LeastConn → LeastConn
unfolding add
release addr lc = add (lookup addr lc.conns) (negsuc 0) lc

-- The loop of `SetBackends`: the old map's pointer where it has one, a new counter where not.
unfoldable pub carry : Dict ℕ → List String → Dict ℕ → List ℤ → Dict ℕ × List ℤ
carry old [] conns cells = (conns, cells)
carry old (addr ∷ addrs) conns cells = elim (lookup addr old) [
  | some existing ↦ carry old addrs (insert addr existing conns) cells
  | none ↦ carry old addrs (insert addr (length cells) conns) (cells ++ pos 0 ∷ [])
]

unfoldable pub set_backends : List String → LeastConn → LeastConn
unfolding carry
set_backends addrs lc =
    let (conns, cells) = carry lc.conns addrs [] lc.cells in
    record { backends = addrs; conns = conns; cells = cells }

unfoldable pub len : LeastConn → ℕ
len lc = length lc.backends

-- A call of the balancer that changes its state.
pub data Call : Type 0 where
  acquires releases : String → Call
  sets_backends : List String → Call

unfoldable pub step : Call → LeastConn → LeastConn
unfolding acquire release set_backends
step (acquires addr) lc = acquire addr lc
step (releases addr) lc = release addr lc
step (sets_backends addrs) lc = set_backends addrs lc

unfoldable pub run : List Call → LeastConn → LeastConn
run [] lc = lc
run (c ∷ cs) lc = run cs (step c lc)
