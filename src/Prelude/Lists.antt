-- ===== src/Prelude/Lists.antt =====
-- Lists measured and indexed by native numbers, under the library's names, and lists of texts.
use Prim.Native.Nat.{ℕ, zero, suc, ◌+◌, ◌≤◌, ◌<◌}
use Prim.Native.String.{String}
use text.Mathlib.TextEquality.{eq_iff}
use mathlib.Core.Path.{◌≡◌, refl, ap, ◌∙◌}
use mathlib.Core.Logic.{◌≢◌, ◌⊎◌, inl, inr}
use mathlib.Core.Bool.{Bool, true, false, ◌||◌}
use mathlib.Core.List.{List, [], ◌∷◌, ◌++◌, Permᴰ}
use mathlib.Core.List.Permᴰ.{nil, cons, swap, trans}
use native.Mathlib.Omega.{arith}
use proxy_centauri.Prelude.Tests.{str_eq, if◌then◌else◌}

module _ {ℓ} {A : Type ℓ} where
  abbrev pub length : List A → ℕ
  length [] = 0
  length (x ∷ xs) = suc (length xs)

  abbrev pub get_or : List A → ℕ → A → A
  get_or [] i d = d
  get_or (x ∷ xs) zero d = x
  get_or (x ∷ xs) (suc i) d = get_or xs i d

  -- A write out of bounds changes nothing.
  abbrev pub set : List A → ℕ → A → List A
  set [] i v = []
  set (x ∷ xs) zero v = v ∷ xs
  set (x ∷ xs) (suc i) v = x ∷ set xs i v

  abbrev pub take : ℕ → List A → List A
  take zero xs = []
  take (suc n) [] = []
  take (suc n) (x ∷ xs) = x ∷ take n xs

  abbrev pub drop : ℕ → List A → List A
  drop zero xs = xs
  drop (suc n) [] = []
  drop (suc n) (x ∷ xs) = drop n xs

  abbrev pub All {κ} : (A → Type κ) → List A → Type κ
  All P [] = Unit
  All P (x ∷ xs) = P x × All P xs

module _ {ℓ} {A : Type ℓ} where
  pub length-append : (xs ys : List A) → length (xs ++ ys) ≡ length xs + length ys
  length-append [] ys = omega arith
  length-append (x ∷ xs) ys = omega (arith, length-append xs ys)

  pub length-set : (xs : List A) (i : ℕ) (v : A) → length (set xs i v) ≡ length xs
  length-set [] i v = refl
  length-set (x ∷ xs) zero v = refl
  length-set (x ∷ xs) (suc i) v = ap suc (length-set xs i v)

  pub get_or-set_self :
      (xs : List A) (i : ℕ) (v d : A) → i < length xs → get_or (set xs i v) i d ≡ v
  get_or-set_self [] i v d h = elim h [ ]
  get_or-set_self (x ∷ xs) zero v d h = refl
  get_or-set_self (x ∷ xs) (suc i) v d h = get_or-set_self xs i v d (omega arith)

  pub get_or-set_ne :
      (xs : List A) (i j : ℕ) (v d : A) → i ≢ j → get_or (set xs i v) j d ≡ get_or xs j d
  get_or-set_ne [] i j v d h = refl
  get_or-set_ne (x ∷ xs) zero zero v d h = absurd (h refl)
  get_or-set_ne (x ∷ xs) zero (suc j) v d h = refl
  get_or-set_ne (x ∷ xs) (suc i) zero v d h = refl
  get_or-set_ne (x ∷ xs) (suc i) (suc j) v d h = get_or-set_ne xs i j v d (λ e. h (ap suc e))

  pub get_or-append_left :
      (xs ys : List A) (i : ℕ) (d : A) → i < length xs → get_or (xs ++ ys) i d ≡ get_or xs i d
  get_or-append_left [] ys i d h = elim h [ ]
  get_or-append_left (x ∷ xs) ys zero d h = refl
  get_or-append_left (x ∷ xs) ys (suc i) d h = get_or-append_left xs ys i d (omega arith)

  pub get_or-append_last : (xs : List A) (v d : A) → get_or (xs ++ v ∷ []) (length xs) d ≡ v
  get_or-append_last [] v d = refl
  get_or-append_last (x ∷ xs) v d = get_or-append_last xs v d

-- How often a text stands in a list, and whether it does.
abbrev pub count : String → List String → ℕ
count a [] = 0
count a (x ∷ xs) = (if str_eq x a then 1 else 0) + count a xs

abbrev pub contains : String → List String → Bool
contains a [] = false
contains a (x ∷ xs) = str_eq x a || contains a xs

pub count-append :
    (who : String) (front back : List String)
    → count who (front ++ back) ≡ count who front + count who back
count-append who [] back = omega arith
count-append who (one ∷ front) back = omega (arith, count-append who front back)

pub contains-get_or :
    (xs : List String) (i : ℕ) (d : String) → i < length xs → contains (get_or xs i d) xs ≡ true
contains-get_or [] i d h = elim h [ ]
contains-get_or (x ∷ xs) zero d h = ground (arith, eq_iff x x)
contains-get_or (x ∷ xs) (suc i) d h = ground (arith, contains-get_or xs i d)

-- A measure added up over a list.
module _ {ℓ} {A : Type ℓ} (f : A → ℕ) where
  abbrev pub total : List A → ℕ
  total [] = 0
  total (x ∷ xs) = f x + total xs

  pub total-set :
      (xs : List A) (i : ℕ) (x d : A)
      → i < length xs
      → total (set xs i x) + f (get_or xs i d) ≡ total xs + f x
  total-set [] i x d h = elim h [ ]
  total-set (y ∷ xs) zero x d h = omega arith
  total-set (y ∷ xs) (suc i) x d h = omega (arith, total-set xs i x d (omega arith))

  -- A write of the same measure.
  pub total-set_same :
      (xs : List A) (i : ℕ) (x d : A) → f x ≡ f (get_or xs i d) → total (set xs i x) ≡ total xs
  total-set_same [] i x d h = refl
  total-set_same (y ∷ xs) zero x d h = omega (arith, h)
  total-set_same (y ∷ xs) (suc i) x d h = omega (arith, total-set_same xs i x d h)

  pub total-append : (xs ys : List A) → total (xs ++ ys) ≡ total xs + total ys
  total-append [] ys = omega arith
  total-append (x ∷ xs) ys = omega (arith, total-append xs ys)

  pub total-bound : (xs : List A) → ((x : A) → f x ≤ 1) → total xs ≤ length xs
  total-bound [] h = omega arith
  total-bound (x ∷ xs) h = omega (arith, h x, total-bound xs h)

module _ {ℓ} {A : Type ℓ} where
  pub get_or-past : (xs : List A) (i : ℕ) (d : A) → (get_or xs i d ≡ d) ⊎ (i < length xs)
  get_or-past [] i d = inl refl
  get_or-past (x ∷ xs) zero d = inr (omega arith)
  get_or-past (x ∷ xs) (suc i) d = elim (get_or-past xs i d) [
    | inl e ↦ inl e
    | inr h ↦ inr (omega arith)
  ]

pub total-Permᴰ {ℓ} :
    {A : Type ℓ} (f : A → ℕ) {xs ys : List A} → Permᴰ xs ys → total f xs ≡ total f ys
total-Permᴰ f nil = refl
total-Permᴰ f (cons e p) = omega (arith, ap f e, total-Permᴰ f p)
total-Permᴰ f (swap e d) = omega (arith, ap f e, ap f d)
total-Permᴰ f (trans p q) = total-Permᴰ f p ∙ total-Permᴰ f q
