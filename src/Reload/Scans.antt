-- ===== src/Reload/Scans.antt =====
-- The list of scans that cmd/centauri/main.go starts: reading one, changing one, adding one.
use proxy_centauri.Prelude.{
  ℕ, zero, suc, ◌≡◌, refl, ◌∙◌, subst, true, false, Option, none, some, List, [], ◌∷◌, ◌++◌,
  if◌then◌else◌, ◌==◌, length, arith, All,
}
use proxy_centauri.Health.Steps.{Watch}
use proxy_centauri.Reload.{modify}

abbrev pub get_elem? : List Watch → ℕ → Option Watch
get_elem? [] i = none
get_elem? (x ∷ xs) zero = some x
get_elem? (x ∷ xs) (suc i) = get_elem? xs i

abbrev pub on_some : (Watch → Watch) → Option Watch → Option Watch
on_some g none = none
on_some g (some x) = some (g x)

pub get-modify :
    (i j : ℕ) (g : Watch → Watch) (xs : List Watch)
    → get_elem? (modify i g xs) j ≡ (if i == j then on_some g (get_elem? xs j) else get_elem? xs j)
unfolding modify
get-modify i j g [] = ground arith
get-modify zero zero g (x ∷ xs) = refl
get-modify zero (suc j) g (x ∷ xs) = ground arith
get-modify (suc i) zero g (x ∷ xs) = ground arith
get-modify (suc i) (suc j) g (x ∷ xs) = ground (arith, get-modify i j g xs)

pub length-modify :
    (i : ℕ) (g : Watch → Watch) (xs : List Watch) → length (modify i g xs) ≡ length xs
unfolding modify
length-modify i g [] = refl
length-modify zero g (x ∷ xs) = refl
length-modify (suc i) g (x ∷ xs) = omega (arith, length-modify i g xs)

pub get-added : (xs : List Watch) (x : Watch) → get_elem? (xs ++ x ∷ []) (length xs) ≡ some x
get-added [] x = refl
get-added (y ∷ xs) x = get-added xs x

pub get-kept :
    (xs : List Watch) (x y : Watch) (i : ℕ)
    → get_elem? xs i ≡ some y
    → get_elem? (xs ++ x ∷ []) i ≡ some y
get-kept [] x y i h = cc
get-kept (z ∷ xs) x y zero h = h
get-kept (z ∷ xs) x y (suc i) h = get-kept xs x y i h

pub get-modify_hit :
    (i j : ℕ) (g : Watch → Watch) (xs : List Watch) (x : Watch)
    → (i == j) ≡ true
    → get_elem? xs j ≡ some x
    → get_elem? (modify i g xs) j ≡ some (g x)
get-modify_hit i j g xs x same h = get-modify i j g xs ∙ rw (same, h) refl

pub get-modify_miss :
    (i j : ℕ) (g : Watch → Watch) (xs : List Watch) (x : Watch)
    → (i == j) ≡ false
    → get_elem? xs j ≡ some x
    → get_elem? (modify i g xs) j ≡ some x
get-modify_miss i j g xs x other h = get-modify i j g xs ∙ rw (other, h) refl

same_some : (y x : Watch) → ◌≡◌ {A = Option Watch} (some y) (some x) → y ≡ x
same_some y x e = cc

-- What holds of all scans holds of one.
pub get-All :
    (P : Watch → Type 0) (i : ℕ) (x : Watch) (xs : List Watch)
    → All P xs
    → get_elem? xs i ≡ some x
    → P x
get-All P i x [] h e = absurd cc
get-All P zero x (y ∷ xs) h e = subst P (same_some y x e) h.0
get-All P (suc i) x (y ∷ xs) h e = get-All P i x xs h.1 e

pub All-modify :
    (P : Watch → Type 0) (g : Watch → Watch) (i : ℕ) (xs : List Watch)
    → ((x : Watch) → P x → P (g x))
    → All P xs
    → All P (modify i g xs)
unfolding modify
All-modify P g i [] k h = h
All-modify P g zero (x ∷ xs) k h = (k x h.0, h.1)
All-modify P g (suc i) (x ∷ xs) k h = (h.0, All-modify P g i xs k h.1)
