-- ===== src/Balancer/LeastConn/Refinement.antt =====
-- internal/balancer/leastconn.go as a list of backends and a count for each address, with no map
-- and no pointers.
use proxy_centauri.Prelude.{
  ℕ, String, eq_iff, ◌≡◌, refl, ap, ◌&&◌, ◌∙◌, Option, none, some, List, [], ◌∷◌, arith,
  if◌then◌else◌, ℤ, pos, negsuc, add64, str_eq, contains, lookup, get_or, get_or-set_self,
  get_or-set_ne,
}
use proxy_centauri.Balancer.LeastConn.{
  LeastConn, count, add, acquire, release, set_backends, new, step, run, Call, acquires, releases,
  sets_backends,
}
use proxy_centauri.Balancer.LeastConn.Counts.{count-set_backends}
use proxy_centauri.Balancer.LeastConn.Validity.{
  IsValid, set_backends-IsValid, add-IsValid, new-IsValid, new-set_backends,
}

pub record Connections : Type 0 where
  pub backends : List String
  pub active : String → ℤ

-- `d` more connections at an address that is in the list.
abbrev pub shift : String → ℤ → Connections → Connections
shift addr d s = record s {
  active = λ b.
      if str_eq addr b && contains addr s.backends then add64 (s.active addr) d else s.active b;
}

abbrev pub spec_step : Call → Connections → Connections
spec_step (acquires addr) s = shift addr (pos 1) s
spec_step (releases addr) s = shift addr (negsuc 0) s
spec_step (sets_backends addrs) s = record {
  backends = addrs;
  active = λ b. if contains b addrs then s.active b else pos 0;
}

abbrev pub spec_run : List Call → Connections → Connections
spec_run [] s = s
spec_run (c ∷ cs) s = spec_run cs (spec_step c s)

abbrev pub view : LeastConn → Connections
view lc = record { backends = lc.backends; active = count lc }

pub count-add :
    (lc : LeastConn) (a b : String) (d : ℤ) (o o' : Option ℕ)
    → lookup a lc.conns ≡ o
    → lookup b lc.conns ≡ o'
    → IsValid lc
    → count (add (lookup a lc.conns) d lc) b
      ≡ (if str_eq a b && contains a lc.backends then add64 (count lc a) d else count lc b)
unfolding count add
count-add lc a b d none o' e f v = ground (arith, v.tracked a)
count-add lc a b d (some p) none e f v = ground (arith, v.tracked a, eq_iff a b)
count-add lc a b d (some p) (some q) e f v = ground (
  arith,
  v.tracked a,
  eq_iff a b,
  v.owns.apart a b p,
  v.owns.in_range a p,
  get_or-set_self lc.cells p (add64 (get_or lc.cells p (pos 0)) d) (pos 0),
  get_or-set_ne lc.cells p q (add64 (get_or lc.cells p (pos 0)) d) (pos 0),
)

pub step-IsValid : (c : Call) (lc : LeastConn) → IsValid lc → IsValid (step c lc)
unfolding step acquire release
step-IsValid (acquires addr) lc v = add-IsValid _ _ lc v
step-IsValid (releases addr) lc v = add-IsValid _ _ lc v
step-IsValid (sets_backends addrs) lc v = set_backends-IsValid addrs lc v.owns

-- After any calls on a new balancer the map has a counter for exactly the backends, every pointer
-- names a cell, and no two addresses share one.
pub run-IsValid : (cs : List Call) (lc : LeastConn) → IsValid lc → IsValid (run cs lc)
unfolding run
run-IsValid [] lc v = v
run-IsValid (c ∷ cs) lc v = run-IsValid cs (step c lc) (step-IsValid c lc v)

pub backends-add : (o : Option ℕ) (d : ℤ) (lc : LeastConn) → (add o d lc).backends ≡ lc.backends
unfolding add
backends-add none d lc = refl
backends-add (some p) d lc = refl

backends-set_backends :
    (addrs : List String) (lc : LeastConn) → (set_backends addrs lc).backends ≡ addrs
unfolding set_backends
backends-set_backends addrs lc = refl

view-path :
    (s t : Connections) → s.backends ≡ t.backends → ((b : String) → s.active b ≡ t.active b) → s ≡ t
view-path s t p h = λ i. record { backends = p i; active = λ b. h b i }

view-add :
    (a : String) (d : ℤ) (lc : LeastConn)
    → IsValid lc
    → view (add (lookup a lc.conns) d lc) ≡ shift a d (view lc)
view-add a d lc v =
    view-path _ _ (backends-add (lookup a lc.conns) d lc) (λ b. count-add lc a b d _ _ refl refl v)

pub view-step : (c : Call) (lc : LeastConn) → IsValid lc → view (step c lc) ≡ spec_step c (view lc)
unfolding step acquire release
view-step (acquires addr) lc v = view-add addr (pos 1) lc v
view-step (releases addr) lc v = view-add addr (negsuc 0) lc v
view-step (sets_backends addrs) lc v =
    view-path _ _ (backends-set_backends addrs lc) (count-set_backends addrs lc)

pub view-run_valid :
    (cs : List Call) (lc : LeastConn) → IsValid lc → view (run cs lc) ≡ spec_run cs (view lc)
unfolding run
view-run_valid [] lc v = refl
view-run_valid (c ∷ cs) lc v =
    view-run_valid cs (step c lc) (step-IsValid c lc v) ∙ ap (spec_run cs) (view-step c lc v)

count-none :
    (addrs : List String) (b : String)
    → count (record { backends = addrs; conns = []; cells = [] }) b ≡ pos 0
unfolding count lookup
count-none addrs b = refl

pub view-new :
    (addrs : List String) → view (new addrs) ≡ record { backends = addrs; active = λ b. pos 0 }
view-new addrs = rw new-set_backends (
    view-path _ _ (backends-set_backends addrs _) λ b. ground (
      arith,
      count-set_backends addrs (record { backends = addrs; conns = []; cells = [] }) b,
      count-none addrs b,
    ))

-- Whatever calls are made on a new balancer, its backends and the counts that `Next` reads are
-- those of the specification, which has a function from addresses to counts and no pointers: an
-- `Acquire` or `Release` moves the count of its address alone and only while that is in the list,
-- and `SetBackends` keeps the counts of the addresses in the new list and sets the rest to 0.
pub view-run :
    (addrs : List String) (cs : List Call)
    → view (run cs (new addrs)) ≡ spec_run cs (record { backends = addrs; active = λ b. pos 0 })
view-run addrs cs =
    view-run_valid cs (new addrs) (new-IsValid addrs) ∙ ap (spec_run cs) (view-new addrs)
