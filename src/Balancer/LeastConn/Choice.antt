-- ===== src/Balancer/LeastConn/Choice.antt =====
-- The choice of `Next` in internal/balancer/leastconn.go.
use proxy_centauri.Prelude.{
  ◌<◌, String, ◌≡◌, refl, ap, sym, subst, ◌∙◌, ◌↔◌, inl, inr, Bool-cases, List, [], ◌∷◌, ◌++◌,
  arith, length, All, ltb_ℤ, ◌<ℤ◌, ◌≤ℤ◌,
}
use proxy_centauri.Balancer.LeastConn.{LeastConn, next, choose, count, scan, len}

-- `w` is the first of the smallest counts in `xs`.
abbrev pub IsFirstMin : LeastConn → String → List String → Type 0
IsFirstMin lc w xs =
    (before : List String) × (rest : List String) × (xs ≡ before ++ w ∷ rest)
    × All (λ b. count lc w <ℤ count lc b) before
    × All (λ b. count lc w ≤ℤ count lc b) rest

All-le_trans :
    (lc : LeastConn) (u w : String) (xs : List String)
    → count lc u ≤ℤ count lc w
    → All (λ b. count lc w ≤ℤ count lc b) xs
    → All (λ b. count lc u ≤ℤ count lc b) xs
All-le_trans lc u w [] h a = tt
All-le_trans lc u w (x ∷ xs) h a = (omega arith, All-le_trans lc u w xs h a.1)

-- The smallest of `x ∷ xs` is the smallest of `best ∷ x ∷ xs` where `x` is below `best`.
better_first :
    (lc : LeastConn) (w best x : String) (xs : List String)
    → count lc x <ℤ count lc best
    → IsFirstMin lc w (x ∷ xs)
    → IsFirstMin lc w (best ∷ x ∷ xs)
better_first lc w best x xs h ([], rest, e, b, r) =
    let same : x ≡ w = cc in (best ∷ [], rest, ap (◌∷◌ best) e, (rw same at h, tt), r)
better_first lc w best x xs h (y ∷ before, rest, e, b, r) =
    let same : y ≡ x = ground arith in
    let below : count lc w <ℤ count lc x = rw same at b.0 in
    (best ∷ y ∷ before, rest, ap (◌∷◌ best) e, (omega arith, b), r)

-- It is that of `best ∷ xs` where `x` is not.
best_first :
    (lc : LeastConn) (w best x : String) (xs : List String)
    → count lc best ≤ℤ count lc x
    → IsFirstMin lc w (best ∷ xs)
    → IsFirstMin lc w (best ∷ x ∷ xs)
best_first lc w best x xs h ([], rest, e, b, r) =
    let same : best ≡ w = cc in ([], x ∷ rest, cc, tt, (rw same at h, r))
best_first lc w best x xs h (y ∷ before, rest, e, b, r) =
    let same : y ≡ best = ground arith in
    let below : count lc w <ℤ count lc best = rw same at b.0 in
    (y ∷ x ∷ before, rest, ground arith, (b.0, (omega arith, b.1)), r)

scan-IsFirstMin :
    (lc : LeastConn) (best : String) (xs : List String)
    → IsFirstMin lc (scan lc best (count lc best) xs) (best ∷ xs)
unfolding scan
scan-IsFirstMin lc best [] = ([], [], refl, tt, tt)
scan-IsFirstMin lc best (x ∷ xs) = elim (Bool-cases (ltb_ℤ (count lc x) (count lc best))) [
  | inl t ↦ rw t (better_first lc _ best x xs (ground arith) (scan-IsFirstMin lc x xs))
  | inr f ↦ rw f (best_first lc _ best x xs (ground arith) (scan-IsFirstMin lc best xs))
]

choose-IsFirstMin :
    (lc : LeastConn) (xs : List String) → 0 < length xs → IsFirstMin lc (choose lc xs) xs
unfolding choose
choose-IsFirstMin lc [] h = elim h [ ]
choose-IsFirstMin lc (x ∷ xs) h = scan-IsFirstMin lc x xs

pub next-IsFirstMin : (lc : LeastConn) → 0 < len lc → IsFirstMin lc (next lc) lc.backends
unfolding next len
next-IsFirstMin lc h = choose-IsFirstMin lc lc.backends h

All-middle :
    (P : String → Type 0) (before rest : List String) (w : String)
    → All P (before ++ w ∷ rest)
    → P w
All-middle P [] rest w h = h.0
All-middle P (x ∷ before) rest w h = All-middle P before rest w h.1

-- There is one text at most that is first among the smallest.
one_first :
    (lc : LeastConn) (w w' : String) (before rest before' rest' : List String)
    → before ++ w ∷ rest ≡ before' ++ w' ∷ rest'
    → All (λ b. count lc w <ℤ count lc b) before
    → All (λ b. count lc w ≤ℤ count lc b) rest
    → All (λ b. count lc w' <ℤ count lc b) before'
    → All (λ b. count lc w' ≤ℤ count lc b) rest'
    → w ≡ w'
one_first lc w w' [] rest [] rest' e b r b' r' = ground (arith, e)
one_first lc w w' [] rest (y ∷ before') rest' e b r b' r' =
    let head : w ≡ y = ground (arith, e) in
    let tail : rest ≡ before' ++ w' ∷ rest' = ground (arith, e) in
    let low : count lc w ≤ℤ count lc w' =
      All-middle (λ x. count lc w ≤ℤ count lc x) before' rest' w' (rw tail at r) in
    let high : count lc w' <ℤ count lc w = subst (λ x. count lc w' <ℤ count lc x) (sym head) b'.0 in
    absurd (omega (arith, low, high))
one_first lc w w' (x ∷ before) rest [] rest' e b r b' r' =
    let head : x ≡ w' = ground (arith, e) in
    let tail : before ++ w ∷ rest ≡ rest' = ground (arith, e) in
    let low : count lc w' ≤ℤ count lc w =
      All-middle (λ y. count lc w' ≤ℤ count lc y) before rest w (rw (sym tail) at r') in
    let high : count lc w <ℤ count lc w' = subst (λ y. count lc w <ℤ count lc y) head b.0 in
    absurd (omega (arith, low, high))
one_first lc w w' (x ∷ before) rest (y ∷ before') rest' e b r b' r' =
    one_first lc w w' before rest before' rest' (ground (arith, e)) b.1 r b'.1 r'

-- With a backend in the list, `Next` returns an address just if it is the first of those with the
-- smallest count: each one before it has strictly more connections, and each one after it has at
-- least as many.
pub next_iff :
    (lc : LeastConn) (w : String) → 0 < len lc → (next lc ≡ w) ↔ IsFirstMin lc w lc.backends
next_iff lc w h =
    let (before, rest, e, b, r) = next-IsFirstMin lc h in
    (
      λ same. subst (λ x. IsFirstMin lc x lc.backends) same (next-IsFirstMin lc h),
      λ (before', rest', e', b', r').
          one_first lc (next lc) w before rest before' rest' (sym e ∙ e') b r b' r',
    )

pub next-none : (lc : LeastConn) → length lc.backends ≡ 0 → next lc ≡ ""
unfolding next
next-none lc h = choose-none lc.backends h
  where
    choose-none : (xs : List String) → length xs ≡ 0 → choose lc xs ≡ ""
    choose-none [] h = refl
    choose-none (x ∷ xs) h = absurd (omega (arith, h))
