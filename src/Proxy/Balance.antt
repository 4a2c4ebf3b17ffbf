-- ===== src/Proxy/Balance.antt =====
-- What a request leaves of the counts of a least-connections balancer, internal/proxy/proxy.go.
use proxy_centauri.Prelude.{
  ◌≡◌, refl, ap, ◌∙◌, String, eq_iff, Bool, true, false, ◌&&◌, [], ◌∷◌, arith, if◌then◌else◌,
  str_eq, contains, Bool-cases, inl, inr, ℤ, pos, negsuc, add64, InInt64,
}
use proxy_centauri.Balancer
use proxy_centauri.Balancer.{Balancer, round_robin, least_conn, weighted}
use proxy_centauri.Balancer.LeastConn
use proxy_centauri.Balancer.Interface.{next-Answers}
use proxy_centauri.Balancer.LeastConn.{LeastConn, acquires, releases, count, run}
use proxy_centauri.Balancer.LeastConn.Validity.{IsValid}
use proxy_centauri.Balancer.LeastConn.Refinement.{Connections, view-run_valid}
use proxy_centauri.Http.{Request, ResponseWriter}
use proxy_centauri.Proxy.{
  Transport, Reply, fails, responds, switches, direct, director, finish, serve_http, acquire,
}

add64_cancel : (a : ℤ) → InInt64 a → add64 (add64 a (pos 1)) (negsuc 0) ≡ a
unfolding add64
add64_cancel a h = ground arith

-- The counts of a least-connections balancer.
abbrev pub count_in : Balancer → String → ℤ
count_in (round_robin r) a = pos 0
count_in (least_conn lc) a = count lc a
count_in (weighted w) a = pos 0

abbrev pub is_switch : Reply → Bool
is_switch fails = false
is_switch (responds status body complete) = false
is_switch switches = true

-- What the transport answers to the request.
abbrev pub reply_to : Transport → Request → Balancer → Reply
reply_to t r b = let (d, b') = director t r b in t.round_trip d.host d.request

module _ (lc : LeastConn) (v : IsValid lc) (addr : String) (h : InInt64 (count lc addr)) where
  pub back_again :
      (a : String) → count (LeastConn.release addr (LeastConn.acquire addr lc)) a ≡ count lc a
  unfolding run LeastConn.step
  back_again a =
      ap (λ (c : Connections). c.active a)
        (view-run_valid (acquires addr ∷ releases addr ∷ []) lc v)
      ∙ ground (arith, eq_iff addr a, eq_iff addr addr, add64_cancel (count lc addr) h)

  released_twice :
      (a : String)
      → contains addr lc.backends ≡ true
      → count (LeastConn.release addr (LeastConn.release addr (LeastConn.acquire addr lc))) a
        ≡ (if str_eq addr a then add64 (count lc a) (negsuc 0) else count lc a)
  unfolding run LeastConn.step
  released_twice a k =
      ap (λ (c : Connections). c.active a)
        (view-run_valid (acquires addr ∷ releases addr ∷ releases addr ∷ []) lc v)
      ∙ ground (arith, eq_iff addr a, eq_iff addr addr, add64_cancel (count lc addr) h)

  count-finish :
      {S : Type 0} (w : ResponseWriter S) (reply : Reply) (s : S) (a : String)
      → str_eq addr "" ≡ false
      → contains addr lc.backends ≡ true
      → count_in (finish w addr reply (acquire addr (least_conn lc)) s).0 a
        ≡ (if is_switch reply && str_eq addr a then add64 (count lc a) (negsuc 0) else count lc a)
  unfolding finish acquire
  count-finish w fails s a n k = rw n (back_again a)
  count-finish w (responds status body complete) s a n k = rw n (back_again a)
  count-finish w switches s a n k = rw n (released_twice a k)

tracking-direct : (t : Transport) (addr : String) (r : Request) → (direct t addr r).tracking ≡ addr
unfolding direct
tracking-direct t addr r = ground arith

direct_none :
    (t : Transport) (addr : String) (r : Request)
    → str_eq addr "" ≡ true
    → t.round_trip (direct t addr r).host (direct t addr r).request ≡ fails
unfolding direct
direct_none t addr r e = rw e (t.port_0_fails r)

module _ {S : Type 0} (w : ResponseWriter S) (lc : LeastConn) (v : IsValid lc) (s : S) where
  abbrev chosen : String
  chosen = LeastConn.next lc

  chosen-in : str_eq chosen "" ≡ false → contains chosen lc.backends ≡ true
  unfolding Balancer.next Balancer.addrs_of
  chosen-in e = ground (arith, next-Answers (least_conn lc), eq_iff chosen "")

  count-answered :
      (a tracking : String) (reply : Reply)
      → InInt64 (count lc chosen)
      → tracking ≡ chosen
      → (str_eq chosen "" ≡ true → reply ≡ fails)
      → count_in
          (finish w tracking reply
            (if str_eq chosen "" then least_conn lc else acquire chosen (least_conn lc))
            s).0
          a
        ≡ (if is_switch reply && str_eq chosen a then add64 (count lc a) (negsuc 0) else count lc a)
  unfolding finish
  count-answered a tracking reply h q k = elim (Bool-cases (str_eq chosen "")) [
    | inl e ↦ rw (q, k e, e) refl
    | inr e ↦ rw (q, e) (count-finish lc v chosen h w reply s a e (chosen-in e))
  ]

  -- On a valid least-connections balancer whose count of the chosen backend fits 64 bits, a request
  -- leaves the count of every address as it found it, whether it was answered, failed or found no
  -- backend; only one to which the backend answered 101 Switching Protocols leaves the count of its
  -- backend one too low, since it is released twice.
  pub count-serve_http :
      (t : Transport) (r : Request) (a : String)
      → InInt64 (count lc chosen)
      → count_in (serve_http t w r (least_conn lc) s).0 a ≡ (
          if is_switch (reply_to t r (least_conn lc)) && str_eq chosen a
          then add64 (count lc a) (negsuc 0)
          else count lc a)
  unfolding serve_http director Balancer.next
  count-serve_http t r a h =
      count-answered a (direct t chosen r).tracking _ h (tracking-direct t chosen r)
        (direct_none t chosen r)
