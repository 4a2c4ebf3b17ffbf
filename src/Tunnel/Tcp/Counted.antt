-- ===== src/Tunnel/Tcp/Counted.antt =====
-- The counts of a least-connections balancer against the connections of internal/tunnel/tunnel.go.
use proxy_centauri.Prelude.{
  ℕ, ◌+◌, ◌^◌, ◌≤◌, ◌<◌, ◌≡◌, refl, sym, ap, String, Bool, true, ◌&&◌, List, [], ◌∷◌, inl, inr,
  Bool-cases, arith, if◌then◌else◌, str_eq, length, get_or, set, length-set, length-append,
  get_or-past, total, total-set, total-set_same, total-append, total-bound, contains, pos,
}
use proxy_centauri.Balancer.{Balancer, least_conn}
use proxy_centauri.Balancer.LeastConn
use proxy_centauri.Balancer.LeastConn.{LeastConn, count, Call}
use proxy_centauri.Proxy.Balance.{count_in}
use proxy_centauri.Tunnel.Tcp.Calls.{
  Counts, cast, acquire-Counts, release-Counts, set_backends-Counts, next-Counts, counted_in,
  new-Counts,
}
use proxy_centauri.Tunnel.Tcp.{
  Conn, fresh, chose, held, pipes, over, Tunnel, new, release, handle_step, advance, carried, Move,
  accepts, advances, flows, sets_backends, move, run,
}

-- Whether a connection counts for an address: from its `Acquire` to its end.
abbrev pub holds : String → Conn → ℕ
holds a fresh = 0
holds a (chose addr) = 0
holds a (held addr) = if str_eq addr a then 1 else 0
holds a (pipes addr up_runs down_runs backend_got client_got) = if str_eq addr a then 1 else 0
holds a over = 0

abbrev pub holding : String → List Conn → ℕ
holding a conns = total (holds a) conns

length-move : (m : Move) (t : Tunnel) → length t.conns ≤ length (move m t).conns
unfolding move advance
length-move accepts t = omega (arith, length-append t.conns (fresh ∷ []))
length-move (advances reaches up i) t =
    omega
      (arith, length-set t.conns i (handle_step reaches up (get_or t.conns i over) t.balancer).0)
length-move (flows up bytes i) t =
    omega (arith, length-set t.conns i (carried up bytes (get_or t.conns i over)))
length-move (sets_backends addrs) t = omega arith

released :
    (addr a : String) (m : ℕ) (b : Balancer)
    → m + 1 < 2 ^ 63
    → Counts a (m + (if str_eq addr a then 1 else 0)) b
    → Counts a (m + 0) (release addr b)
released addr a m b h v = cast a _ _ _ (ground arith) (
    release-Counts addr a (m + (if str_eq addr a then 1 else 0)) b (ground (arith, h))
      (ground arith) v)

-- A move of one connection, where `m` others hold the address.
handle_step-Counts :
    (reaches : String → Bool) (up : Bool) (c : Conn) (a : String) (m : ℕ) (b : Balancer)
    → m + 1 < 2 ^ 63
    → Counts a (m + holds a c) b
    → let (c', b') = handle_step reaches up c b in Counts a (m + holds a c') b'
unfolding handle_step
handle_step-Counts reaches up fresh a m b h v = cast a _ _ _ (ground arith) (next-Counts a _ b v)
handle_step-Counts reaches up (chose addr) a m b h v =
    cast a _ _ _ (omega arith) (acquire-Counts addr a (m + 0) b (omega (arith, h)) v)
handle_step-Counts reaches up (held addr) a m b h v = elim (Bool-cases (reaches addr)) [
  | inl e ↦ rw e v
  | inr e ↦ rw e (released addr a m b h v)
]
handle_step-Counts reaches up (pipes addr up_runs down_runs backend_got client_got) a m b h v =
    elim (Bool-cases (up_runs && down_runs)) [
      | inl e ↦ rw e v
      | inr e ↦ rw e (released addr a m b h v)
    ]
handle_step-Counts reaches up over a m b h v = v

holds-bound : (a : String) (c : Conn) → holds a c ≤ 1
holds-bound a fresh = omega arith
holds-bound a (chose addr) = omega arith
holds-bound a (held addr) = ground arith
holds-bound a (pipes addr up_runs down_runs backend_got client_got) = ground arith
holds-bound a over = omega arith

-- One connection that changes, among the others.
advance-Counts :
    (reaches : String → Bool) (up : Bool) (i : ℕ) (a : String) (t : Tunnel)
    → length t.conns + 1 < 2 ^ 63
    → Counts a (holding a t.conns) t.balancer
    → let t' = advance reaches up i t in Counts a (holding a t'.conns) t'.balancer
unfolding advance
advance-Counts reaches up i a t h v = elim (get_or-past t.conns i over) [
  | inl e ↦ rw e (
      unfold handle_step in
      cast a _ _ _ (sym (total-set_same (holds a) t.conns i over over (ap (holds a) (sym e)))) v)
  | inr l ↦
      let c = get_or t.conns i over in
      let c' = (handle_step reaches up c t.balancer).0 in
      let m = holding a (set t.conns i over) in
      cast a _ _ _
        (omega (
          arith,
          total-set (holds a) t.conns i over over l,
          total-set (holds a) t.conns i c' over l,
        ))
        (handle_step-Counts reaches up c a m t.balancer
          (omega (
            arith,
            h,
            total-bound (holds a) (set t.conns i over) (holds-bound a),
            length-set t.conns i over,
          ))
          (cast a _ _ _ (omega (arith, total-set (holds a) t.conns i over over l)) v))
]

holds-carried :
    (a : String) (up : Bool) (bytes : List ℕ) (c : Conn) → holds a (carried up bytes c) ≡ holds a c
unfolding carried
holds-carried a up bytes fresh = refl
holds-carried a up bytes (chose addr) = refl
holds-carried a up bytes (held addr) = refl
holds-carried a up bytes (pipes addr up_runs down_runs backend_got client_got) = refl
holds-carried a up bytes over = refl

-- Every list that is set has the address.
abbrev pub Keeps : String → List Move → Type 0
Keeps a [] = Unit
Keeps a (accepts ∷ ms) = Keeps a ms
Keeps a (advances reaches up i ∷ ms) = Keeps a ms
Keeps a (flows up bytes i ∷ ms) = Keeps a ms
Keeps a (sets_backends addrs ∷ ms) = (contains a addrs ≡ true) × Keeps a ms

length-run : (ms : List Move) (t : Tunnel) → length t.conns ≤ length (run ms t).conns
unfolding run
length-run [] t = omega arith
length-run (m ∷ ms) t = omega (arith, length-run ms (move m t), length-move m t)

holding-bound : (a : String) (conns : List Conn) → holding a conns ≤ length conns
holding-bound a conns = total-bound (holds a) conns (holds-bound a)

run-Counts :
    (ms : List Move) (a : String) (t : Tunnel)
    → Keeps a ms
    → length (run ms t).conns + 1 < 2 ^ 63
    → Counts a (holding a t.conns) t.balancer
    → Counts a (holding a (run ms t).conns) (run ms t).balancer
unfolding run move
run-Counts [] a t k h v = v
run-Counts (accepts ∷ ms) a t k h v =
    run-Counts ms a _ k h
      (cast a _ _ _ (omega (arith, total-append (holds a) t.conns (fresh ∷ []))) v)
run-Counts (advances reaches up i ∷ ms) a t k h v = run-Counts ms a (advance reaches up i t) k h (
    advance-Counts reaches up i a t (omega (arith, h, length-run (advances reaches up i ∷ ms) t)) v)
run-Counts (flows up bytes i ∷ ms) a t k h v = run-Counts ms a _ k h (
    cast a _ _ _
      (sym (
        total-set_same (holds a) t.conns i _ over
          (holds-carried a up bytes (get_or t.conns i over))))
      v)
run-Counts (sets_backends addrs ∷ ms) a t k h v = run-Counts ms a _ k.1 h (
    set_backends-Counts addrs a _ t.balancer
      (omega (arith, h, holding-bound a t.conns, length-run (sets_backends addrs ∷ ms) t)) k.0 v)

-- On a new least-connections balancer, however the connections interleave with each other, with
-- reloads and with health checks: the count of an address that every list has is the number of
-- connections that acquired it and have not ended, as long as fewer than 2^63 - 1 were accepted.
pub count-run :
    (addrs : List String) (ms : List Move) (a : String)
    → contains a addrs ≡ true
    → Keeps a ms
    → length (run ms (new (least_conn (LeastConn.new addrs)))).conns + 1 < 2 ^ 63
    → let t = run ms (new (least_conn (LeastConn.new addrs))) in
      count_in t.balancer a ≡ pos (holding a t.conns)
unfolding new
count-run addrs ms a l k h =
    counted_in a _ _
      (run-Counts ms a (new (least_conn (LeastConn.new addrs))) k h (new-Counts addrs a l))
