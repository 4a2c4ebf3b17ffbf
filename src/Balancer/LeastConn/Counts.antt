-- ===== src/Balancer/LeastConn/Counts.antt =====
-- What the operations of internal/balancer/leastconn.go do to the counts that `Next` compares.
use proxy_centauri.Prelude.{
  ℕ, zero, suc, String, eq_iff, ◌≡◌, refl, inl, inr, ◌||◌, ◌∙◌, Option, none, some, Option-cases,
  List, [], ◌∷◌, ◌++◌, arith, if◌then◌else◌, length, ℤ, pos, contains, Dict, lookup, insert,
  lookup-insert, get_or,
}
use proxy_centauri.Balancer.LeastConn.{LeastConn, is_some, load, count, carry, set_backends}

-- A new cell reads like no cell.
get_or-fresh :
    (cells : List ℤ) (p : ℕ) → get_or (cells ++ pos 0 ∷ []) p (pos 0) ≡ get_or cells p (pos 0)
get_or-fresh [] zero = refl
get_or-fresh [] (suc p) = refl
get_or-fresh (x ∷ cells) zero = refl
get_or-fresh (x ∷ cells) (suc p) = get_or-fresh cells p

get_or-past : (cells : List ℤ) → get_or cells (length cells) (pos 0) ≡ pos 0
get_or-past [] = refl
get_or-past (x ∷ cells) = get_or-past cells

load-fresh : (cells : List ℤ) (o : Option ℕ) → load (cells ++ pos 0 ∷ []) o ≡ load cells o
load-fresh cells none = refl
load-fresh cells (some p) = get_or-fresh cells p

load-carry :
    (old : Dict ℕ) (addrs : List String) (conns : Dict ℕ) (cells : List ℤ) (a : String)
    → let r = carry old addrs conns cells in
      load r.1 (lookup a r.0)
      ≡ (if contains a addrs then load cells (lookup a old) else load cells (lookup a conns))
unfolding carry
load-carry old [] conns cells a = refl
load-carry old (x ∷ addrs) conns cells a = elim (Option-cases (lookup x old)) [
  | inl e ↦
      rw (e, carry)
        (ground (
          arith,
          load-carry old addrs (insert x (length cells) conns) (cells ++ pos 0 ∷ []) a,
          lookup-insert x a (length cells) conns,
          eq_iff x a,
          load-fresh cells (lookup a old),
          load-fresh cells (lookup a conns),
          get_or-past cells,
          get_or-fresh cells (length cells),
        ))
  | inr (p, e) ↦
      rw (e, carry)
        (ground (
          arith,
          load-carry old addrs (insert x p conns) cells a,
          lookup-insert x a p conns,
          eq_iff x a,
        ))
]

-- `SetBackends` keeps the count of every address that stays in the list, a new address starts at
-- 0, and an address that is not in the new list counts 0.
pub count-set_backends :
    (addrs : List String) (lc : LeastConn) (a : String)
    → count (set_backends addrs lc) a ≡ (if contains a addrs then count lc a else pos 0)
unfolding count set_backends lookup
count-set_backends addrs lc a = load-carry lc.conns addrs [] lc.cells a

pub lookup-carry :
    (old : Dict ℕ) (addrs : List String) (conns : Dict ℕ) (cells : List ℤ) (a : String)
    → is_some (lookup a (carry old addrs conns cells).0)
      ≡ (contains a addrs || is_some (lookup a conns))
unfolding carry
lookup-carry old [] conns cells a = refl
lookup-carry old (x ∷ addrs) conns cells a = elim (Option-cases (lookup x old)) [
  | inl e ↦
      rw (e, carry)
        (ground (
          arith,
          lookup-carry old addrs (insert x (length cells) conns) (cells ++ pos 0 ∷ []) a,
          lookup-insert x a (length cells) conns,
          eq_iff x a,
        ))
  | inr (p, e) ↦
      rw (e, carry)
        (ground (
          arith,
          lookup-carry old addrs (insert x p conns) cells a,
          lookup-insert x a p conns,
          eq_iff x a,
        ))
]

-- A pointer of the old map stays the pointer of its address.
pub lookup-carry_kept :
    (old : Dict ℕ) (addrs : List String) (conns : Dict ℕ) (cells : List ℤ) (a : String) (p : ℕ)
    → lookup a old ≡ some p
    → lookup a (carry old addrs conns cells).0
      ≡ (if contains a addrs then some p else lookup a conns)
unfolding carry
lookup-carry_kept old [] conns cells a p h = refl
lookup-carry_kept old (x ∷ addrs) conns cells a p h = elim (Option-cases (lookup x old)) [
  | inl e ↦
      rw (e, carry)
        (ground (
          arith,
          lookup-carry_kept old addrs (insert x (length cells) conns) (cells ++ pos 0 ∷ []) a p h,
          lookup-insert x a (length cells) conns,
          eq_iff x a,
        ))
  | inr (q, e) ↦
      rw (e, carry)
        (ground (
          arith,
          lookup-carry_kept old addrs (insert x q conns) cells a p h,
          lookup-insert x a q conns,
          eq_iff x a,
        ))
]

-- The loop writes to no cell that is there.
pub get_or-carry :
    (old : Dict ℕ) (addrs : List String) (conns : Dict ℕ) (cells : List ℤ) (p : ℕ)
    → get_or (carry old addrs conns cells).1 p (pos 0) ≡ get_or cells p (pos 0)
unfolding carry
get_or-carry old [] conns cells p = refl
get_or-carry old (x ∷ addrs) conns cells p = elim (Option-cases (lookup x old)) [
  | inl e ↦ rw (e, carry) (get_or-carry old addrs _ (cells ++ pos 0 ∷ []) p ∙ get_or-fresh cells p)
  | inr (q, e) ↦ rw (e, carry) (get_or-carry old addrs _ cells p)
]
