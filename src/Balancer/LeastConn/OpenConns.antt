-- ===== src/Balancer/LeastConn/OpenConns.antt =====
-- The counts of internal/balancer/leastconn.go against the connections that are open.
use proxy_centauri.Prelude.{
  ℕ, ◌+◌, ◌-◌, ◌^◌, ◌<◌, String, eq_iff, ◌≡◌, ap, inl, inr, true, false, ◌∙◌, Option, none, some,
  Option-cases, List, [], ◌∷◌, arith, if◌then◌else◌, ltb, ◌==◌, pos, negsuc, add64, str_eq,
  contains,
}
use proxy_centauri.Balancer.LeastConn.{
  LeastConn, count, step, run, Call, acquires, releases, sets_backends,
}
use proxy_centauri.Balancer.LeastConn.Validity.{IsValid}
use proxy_centauri.Balancer.LeastConn.Refinement.{
  Connections, view, spec_step, spec_run, view-step, view-run_valid,
}

-- How many connections to `a` are open after a call, where `n` are before it: none where `a`
-- leaves the list, where a connection that is not open is released, or past the int64 range.
abbrev pub open_step : String → ℕ → Call → Option ℕ
open_step a n (acquires b) =
    if str_eq b a then (if ltb (n + 1) (2 ^ 63) then some (n + 1) else none) else some n
open_step a n (releases b) = if str_eq b a then (if n == 0 then none else some (n - 1)) else some n
open_step a n (sets_backends bs) = if contains a bs then some n else none

abbrev pub open_after : String → ℕ → List Call → Option ℕ
open_after a n [] = some n
open_after a n (c ∷ cs) = elim (open_step a n c) [ none ↦ none | some m ↦ open_after a m cs ]

add64_up : (n : ℕ) → n + 1 < 2 ^ 63 → add64 (pos n) (pos 1) ≡ pos (n + 1)
unfolding add64
add64_up n h = ground arith

add64_down : (n : ℕ) → n < 2 ^ 63 → 0 < n → add64 (pos n) (negsuc 0) ≡ pos (n - 1)
unfolding add64
add64_down n h p = ground arith

-- One call moves the count and the number of open connections alike, and keeps `a` in the list.
spec_step-open :
    (a : String) (n m : ℕ) (c : Call) (s : Connections)
    → n < 2 ^ 63
    → contains a s.backends ≡ true
    → s.active a ≡ pos n
    → open_step a n c ≡ some m
    → (m < 2 ^ 63)
      × (contains a (spec_step c s).backends ≡ true)
      × ((spec_step c s).active a ≡ pos m)
spec_step-open a n m (acquires b) s l k e o = ground (arith, eq_iff b a, add64_up n)
spec_step-open a n m (releases b) s l k e o = ground (arith, eq_iff b a, add64_down n)
spec_step-open a n m (sets_backends bs) s l k e o = ground arith

-- The same of the balancer with its pointers.
pub count-step_open :
    (c : Call) (lc : LeastConn) (a : String) (n m : ℕ)
    → IsValid lc
    → n < 2 ^ 63
    → contains a lc.backends ≡ true
    → count lc a ≡ pos n
    → open_step a n c ≡ some m
    → (contains a (step c lc).backends ≡ true) × (count (step c lc) a ≡ pos m)
count-step_open c lc a n m v l k e o =
    let (bound, listed, counted) = spec_step-open a n m c (view lc) l k e o in
    (
      ap (λ (s : Connections). contains a s.backends) (view-step c lc v) ∙ listed,
      ap (λ (s : Connections). s.active a) (view-step c lc v) ∙ counted,
    )

spec_run-open :
    (cs : List Call) (a : String) (n m : ℕ) (s : Connections)
    → n < 2 ^ 63
    → contains a s.backends ≡ true
    → s.active a ≡ pos n
    → open_after a n cs ≡ some m
    → (spec_run cs s).active a ≡ pos m
spec_run-open [] a n m s l k e o = ground arith
spec_run-open (c ∷ cs) a n m s l k e o = elim (Option-cases (open_step a n c)) [
  | inl none_left ↦ cc (let f : open_after a n (c ∷ cs) ≡ none = rw (none_left, open_after) in f)
  | inr (n', some_left) ↦
      let (l', k', e') = spec_step-open a n n' c s l k e some_left in
      spec_run-open cs a n' m (spec_step c s) l' k' e' (rw (some_left, open_after) at o)
]

-- While an address stays in every list that is set, and each release follows an acquire, the count
-- of the address on a valid balancer is the number of its connections that are open, which is
-- below 2^63.
pub count-eq-open :
    (cs : List Call) (lc : LeastConn) (a : String) (n m : ℕ)
    → IsValid lc
    → n < 2 ^ 63
    → contains a lc.backends ≡ true
    → count lc a ≡ pos n
    → open_after a n cs ≡ some m
    → count (run cs lc) a ≡ pos m
count-eq-open cs lc a n m v l k e o =
    ap (λ (s : Connections). s.active a) (view-run_valid cs lc v)
    ∙ spec_run-open cs a n m (view lc) l k e o

-- On a valid balancer, an address that left the list and came back while a connection to it was
-- open has a new counter, which the release of that connection takes to -1, whatever the count was
-- before.
pub count-flap :
    (lc : LeastConn) (a : String) (down up : List String)
    → IsValid lc
    → contains a down ≡ false
    → contains a up ≡ true
    → count (run (acquires a ∷ sets_backends down ∷ sets_backends up ∷ releases a ∷ []) lc) a
      ≡ negsuc 0
unfolding add64
count-flap lc a down up v d u =
    ap (λ (s : Connections). s.active a) (view-run_valid _ lc v) ∙ ground (arith, eq_iff a a)
