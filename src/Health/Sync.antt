-- ===== src/Health/Sync.antt =====
-- The balancer of a scan of internal/health/pulsescan.go holds exactly the healthy addresses.
use proxy_centauri.Prelude.{
  String, eq_iff, ◌≡◌, refl, sym, ◌∙◌, Bool, true, ◌||◌, List, [], ◌∷◌, ◌⊎◌, arith, contains, Dict,
  insert,
}
use proxy_centauri.Balancer.{Balancer, next, addrs_of}
use proxy_centauri.Balancer.Interface.{next-Answers, addrs_of-set_backends, len-eq-length}
use proxy_centauri.Health.{PulseScan, new, set_all, is_healthy, live_of, mark_all}
use proxy_centauri.Health.Check.{Distinct, is_healthy-insert}

-- The watched addresses are distinct, and the balancer holds the healthy ones in their order.
pub record InSync (ps : PulseScan) : Type 0 where
  pub distinct : Distinct ps.all
  pub balanced : addrs_of ps.balancer ≡ live_of ps.healthy ps.all

is_healthy-mark_all :
    (addrs : List String) (m : Dict Bool) (a : String)
    → is_healthy (mark_all addrs m) a ≡ (contains a addrs || is_healthy m a)
unfolding mark_all
is_healthy-mark_all [] m a = refl
is_healthy-mark_all (x ∷ addrs) m a =
    ground (arith, is_healthy-mark_all addrs (insert x true m) a, is_healthy-insert x a true m)

live_of-all :
    (m : Dict Bool) (addrs : List String)
    → ((a : String) → contains a addrs ≡ true → is_healthy m a ≡ true)
    → live_of m addrs ≡ addrs
unfolding live_of
live_of-all m [] h = refl
live_of-all m (a ∷ addrs) h =
    ground (arith, h a, eq_iff a a, live_of-all m addrs (λ b k. h b (ground arith)))

-- A new scan over a balancer that was built from its addresses is in step with it.
pub new-InSync :
    (name : String) (addresses : List String) (protocol : String) (lb : Balancer)
    → Distinct addresses
    → addrs_of lb ≡ addresses
    → InSync (new name addresses protocol lb)
unfolding new
new-InSync name addresses protocol lb d e = record {
  distinct = d;
  balanced =
      e
      ∙ sym (
          live_of-all (mark_all addresses []) addresses
            λ a h. ground (arith, is_healthy-mark_all addresses [] a));
}

pub set_all-InSync :
    (addresses : List String) (ps : PulseScan) → Distinct addresses → InSync (set_all addresses ps)
unfolding set_all
set_all-InSync addresses ps d = record {
  distinct = d;
  balanced = addrs_of-set_backends _ ps.balancer;
}

pub contains-live_of :
    (m : Dict Bool) (addrs : List String) (a : String)
    → contains a (live_of m addrs) ≡ true
    → (is_healthy m a ≡ true) × (contains a addrs ≡ true)
unfolding live_of
contains-live_of m [] a h = cc
contains-live_of m (x ∷ addrs) a h = ground (arith, contains-live_of m addrs a, eq_iff x a)

-- A gate in step answers with a watched address that is healthy, or with "" if none is.
pub next-healthy :
    (ps : PulseScan)
    → InSync ps
    → let a = (next ps.balancer).0 in
      ((a ≡ "") × (live_of ps.healthy ps.all ≡ []))
      ⊎ ((is_healthy ps.healthy a ≡ true) × (contains a ps.all ≡ true))
next-healthy ps v = ground (
  arith,
  next-Answers ps.balancer,
  len-eq-length ps.balancer,
  v.balanced,
  contains-live_of ps.healthy ps.all (next ps.balancer).0,
)
