-- ===== src/Balancer/LeastConn/Overlap.antt =====
-- `Acquire` and `Release` of internal/balancer/leastconn.go release the lock between the read of
-- the map and the addition, so a `SetBackends` can come in between.
use proxy_centauri.Prelude.{
  ℕ, String, eq_iff, ◌≡◌, refl, ap, ◌&&◌, ◌∙◌, sym, Option, none, some, List, [], arith,
  if◌then◌else◌, length, ℤ, pos, add64, str_eq, contains, lookup, get_or, get_or-set_self,
  get_or-set_ne,
}
use proxy_centauri.Balancer.LeastConn.{LeastConn, count, add, set_backends}
use proxy_centauri.Balancer.LeastConn.Counts.{count-set_backends, lookup-carry_kept, get_or-carry}
use proxy_centauri.Balancer.LeastConn.Validity.{IsValid, Carried, carry-Carried, empty-Owns}
use proxy_centauri.Balancer.LeastConn.Refinement.{count-add}

module _ (addrs : List String) (lc : LeastConn) (v : IsValid lc) where
  carried : Carried lc.conns (set_backends addrs lc).conns (length (set_backends addrs lc).cells)
  unfolding set_backends
  carried =
      carry-Carried lc.conns addrs [] lc.cells
        (record { kept = v.owns; built = empty-Owns [] _; across = empty-Owns lc.conns _ })

  lookup_kept :
      (a : String) (p : ℕ)
      → lookup a lc.conns ≡ some p
      → lookup a (set_backends addrs lc).conns ≡ (if contains a addrs then some p else none)
  unfolding set_backends lookup
  lookup_kept a p e = lookup-carry_kept lc.conns addrs [] lc.cells a p e

  cell_kept : (p : ℕ) → get_or (set_backends addrs lc).cells p (pos 0) ≡ get_or lc.cells p (pos 0)
  unfolding set_backends
  cell_kept p = get_or-carry lc.conns addrs [] lc.cells p

  count-add_stale :
      (d : ℤ) (a b : String) (o o' : Option ℕ)
      → lookup a lc.conns ≡ o
      → lookup b (set_backends addrs lc).conns ≡ o'
      → count (add o d (set_backends addrs lc)) b ≡ (
          if contains b addrs
          then (if str_eq a b && contains a lc.backends then add64 (count lc a) d else count lc b)
          else pos 0)
  unfolding count add
  count-add_stale d a b none o' e f = ground (arith, v.tracked a, count-set_backends addrs lc b)
  count-add_stale d a b (some p) none e f =
      ground (arith, v.tracked a, eq_iff a b, count-set_backends addrs lc b, lookup_kept a p e)
  count-add_stale d a b (some p) (some q) e f =
      let w : ℤ = add64 (get_or (set_backends addrs lc).cells p (pos 0)) d in
      ground (
        arith,
        v.tracked a,
        eq_iff a b,
        count-set_backends addrs lc b,
        lookup_kept a p e,
        cell_kept p,
        carried.across.apart a b p e,
        carried.kept.in_range a p e,
        get_or-set_self (set_backends addrs lc).cells p w (pos 0),
        get_or-set_ne (set_backends addrs lc).cells p q w (pos 0),
      )

  -- On a valid balancer, an `Acquire` (or `Release`) whose addition comes after a `SetBackends`
  -- that began after its read of the map leaves the same counts as one that was over before.
  pub count-overlap :
      (d : ℤ) (a b : String)
      → count (add (lookup a lc.conns) d (set_backends addrs lc)) b
        ≡ count (set_backends addrs (add (lookup a lc.conns) d lc)) b
  count-overlap d a b =
      count-add_stale d a b _ _ refl refl
      ∙ sym (
          count-set_backends addrs (add (lookup a lc.conns) d lc) b
          ∙ ap (λ (c : ℤ). if contains b addrs then c else pos 0)
              (count-add lc a b d _ _ refl refl v))
