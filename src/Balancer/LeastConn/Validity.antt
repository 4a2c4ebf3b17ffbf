-- ===== src/Balancer/LeastConn/Validity.antt =====
-- The invariant of internal/balancer/leastconn.go: who points to which counter.
use proxy_centauri.Prelude.{
  ℕ, ◌+◌, ◌<◌, String, ◌≡◌, refl, inl, inr, Option, none, some, Option-cases, List, [], ◌∷◌, ◌++◌,
  arith, length, ℤ, pos, contains, Dict, lookup, insert, lookup-insert_cases, length-append,
  length-set,
}
use proxy_centauri.Balancer.LeastConn.{LeastConn, is_some, add, carry, set_backends, track, new}
use proxy_centauri.Balancer.LeastConn.Counts.{lookup-carry}

-- Every pointer of a map names a cell, and no two addresses share one, in one map or across two.
pub record Owns (old conns : Dict ℕ) (size : ℕ) : Type 0 where
  pub in_range : (a : String) (p : ℕ) → lookup a conns ≡ some p → p < size
  pub apart : (a b : String) (p : ℕ) → lookup a old ≡ some p → lookup b conns ≡ some p → a ≡ b

-- The map has a counter for exactly the backends, each address its own.
pub record IsValid (lc : LeastConn) : Type 0 where
  pub tracked : (a : String) → is_some (lookup a lc.conns) ≡ contains a lc.backends
  pub owns : Owns lc.conns lc.conns (length lc.cells)

-- What the loop of `SetBackends` keeps, for the old map and the one that it builds.
pub record Carried (old conns : Dict ℕ) (size : ℕ) : Type 0 where
  pub kept : Owns old old size
  pub built : Owns conns conns size
  pub across : Owns old conns size

module _ (old conns : Dict ℕ) (size : ℕ) (x : String) where
  insert-old :
      (p : ℕ) → lookup x old ≡ some p → Carried old conns size → Carried old (insert x p conns) size
  insert-old p e v = record {
    kept = v.kept;
    built = record {
      in_range = λ a q h.
          ground (
            arith,
            lookup-insert_cases x a p q conns h,
            v.kept.in_range x p e,
            v.built.in_range a q,
          );
      apart = λ a b q h k. ground (
        arith,
        lookup-insert_cases x a p q conns h,
        lookup-insert_cases x b p q conns k,
        v.built.apart a b q,
        v.across.apart x b q,
        v.across.apart x a q,
      );
    };
    across = record {
      in_range = λ a q h.
          ground (
            arith,
            lookup-insert_cases x a p q conns h,
            v.kept.in_range x p e,
            v.built.in_range a q,
          );
      apart = λ a b q h k. ground (
        arith,
        lookup-insert_cases x b p q conns k,
        v.kept.apart a x q h,
        v.across.apart a b q h,
      );
    };
  }

  insert-fresh : Carried old conns size → Carried old (insert x size conns) (size + 1)
  insert-fresh v = record {
    kept = record {
      in_range = λ a q h. ground (arith, v.kept.in_range a q h);
      apart = v.kept.apart;
    };
    built = record {
      in_range =
          λ a q h. ground (arith, lookup-insert_cases x a size q conns h, v.built.in_range a q);
      apart = λ a b q h k. ground (
        arith,
        lookup-insert_cases x a size q conns h,
        lookup-insert_cases x b size q conns k,
        v.built.in_range a q,
        v.built.in_range b q,
        v.built.apart a b q,
      );
    };
    across = record {
      in_range =
          λ a q h. ground (arith, lookup-insert_cases x a size q conns h, v.built.in_range a q);
      apart = λ a b q h k. ground (
        arith,
        lookup-insert_cases x b size q conns k,
        v.kept.in_range a q h,
        v.across.apart a b q h,
      );
    };
  }

length-fresh : (cells : List ℤ) → length (cells ++ pos 0 ∷ []) ≡ length cells + 1
length-fresh cells = length-append cells (pos 0 ∷ [])

pub carry-Carried :
    (old : Dict ℕ) (addrs : List String) (conns : Dict ℕ) (cells : List ℤ)
    → Carried old conns (length cells)
    → let r = carry old addrs conns cells in Carried old r.0 (length r.1)
unfolding carry
carry-Carried old [] conns cells v = v
carry-Carried old (x ∷ addrs) conns cells v = elim (Option-cases (lookup x old)) [
  | inl e ↦
      rw (e, carry)
        (carry-Carried old addrs _ _ (rw (length-fresh cells) (insert-fresh old conns _ x v)))
  | inr (p, e) ↦ rw (e, carry) (carry-Carried old addrs _ _ (insert-old old conns _ x p e v))
]

-- The empty map has no pointer.
pub empty-Owns : (old : Dict ℕ) (size : ℕ) → Owns old [] size
unfolding lookup
empty-Owns old size = record { in_range = λ a p h. cc; apart = λ a b p h k. cc }

pub set_backends-IsValid :
    (addrs : List String) (lc : LeastConn)
    → Owns lc.conns lc.conns (length lc.cells)
    → IsValid (set_backends addrs lc)
unfolding set_backends lookup
set_backends-IsValid addrs lc v = record {
  tracked = λ a. ground (arith, lookup-carry lc.conns addrs [] lc.cells a);
  owns =
      (carry-Carried lc.conns addrs [] lc.cells
        (record { kept = v; built = empty-Owns [] _; across = empty-Owns lc.conns _ })).built;
}

pub add-IsValid : (o : Option ℕ) (d : ℤ) (lc : LeastConn) → IsValid lc → IsValid (add o d lc)
unfolding add
add-IsValid none d lc v = v
add-IsValid (some p) d lc v = record {
  tracked = v.tracked;
  owns = rw (length-set lc.cells p _) v.owns;
}

track-carry :
    (addrs : List String) (lc : LeastConn)
    → let r = carry [] addrs lc.conns lc.cells in
      track addrs lc ≡ record { backends = lc.backends; conns = r.0; cells = r.1 }
unfolding track carry lookup
track-carry [] lc = refl
track-carry (x ∷ addrs) lc = track-carry addrs _

pub new-set_backends :
    (addrs : List String)
    → new addrs ≡ set_backends addrs (record { backends = addrs; conns = []; cells = [] })
unfolding new set_backends
new-set_backends addrs = track-carry addrs _

pub new-IsValid : (addrs : List String) → IsValid (new addrs)
new-IsValid addrs = rw new-set_backends (set_backends-IsValid addrs _ (empty-Owns [] 0))
