-- ===== src/Reload/Names.antt =====
-- The scan that the registry of cmd/centauri/main.go has for a name.
use Prim.Native.String.{String}
use proxy_centauri.Prelude.{
  ℕ, ◌≡◌, refl, sym, ap, Dict, ◌∙◌, eq_iff, Bool, true, false, Option, none, some, List, [], ◌∷◌,
  ◌++◌, if◌then◌else◌, ◌==◌, str_eq, arith, inl, inr, Bool-cases, lookup,
}
use proxy_centauri.Health.Steps.{Watch}
use proxy_centauri.Reload.{modify, Running}
use proxy_centauri.Reload.Kept.{IsScan}
use proxy_centauri.Reload.Scans.{get_elem?, get-modify_hit, get-modify_miss, get-kept}

-- The registry has a scan of the name that watches the addresses; or it has none for the name.
abbrev pub Follows : String → Option (List String) → Running → Type 0
Follows name none r = lookup name r.registry ≡ none
Follows name (some addrs) r =
    (i : ℕ) × (w : Watch) × (lookup name r.registry ≡ some i)
    × (get_elem? r.scans i ≡ some w)
    × IsScan name addrs w

-- Every name has what a function says.
abbrev pub Agrees : (String → Option (List String)) → Running → Type 0
Agrees expected r = (name : String) → Follows name (expected name) r

-- A call on the scan at `i` that keeps to what its name is to watch keeps all others.
pub modify-Follows :
    (i : ℕ) (g : Watch → Watch) (name : String) (o : Option (List String)) (r : Running)
    → ((addrs : List String) (w : Watch) → IsScan name addrs w → IsScan name addrs (g w))
    → Follows name o r
    → Follows name o (record r { scans = modify i g r.scans })
modify-Follows i g name none r k v = v
modify-Follows i g name (some addrs) r k (j, w, e, h, v) = elim (Bool-cases (i == j)) [
  | inl same ↦ (j, g w, e, get-modify_hit i j g r.scans w same h, k addrs w v)
  | inr other ↦ (j, w, e, get-modify_miss i j g r.scans w other h, v)
]

pub grow-Follows :
    (name : String) (o : Option (List String)) (r : Running) (x : Watch) (registry : Dict ℕ)
    → lookup name registry ≡ lookup name r.registry
    → Follows name o r
    → Follows name o (record r { scans = r.scans ++ x ∷ []; registry = registry })
grow-Follows name none r x registry e v = e ∙ v
grow-Follows name (some addrs) r x registry e (i, ps, l, h, w) =
    (i, ps, e ∙ l, get-kept r.scans x ps i h, w)

-- What a name watches after one list of addresses for it, which may not be there, and a later one.
abbrev pub newest : Option (List String) → Option (List String) → Option (List String)
newest none now = now
newest (some addrs) now = some addrs

abbrev pub kept : Option (List String) → Option (List String) → Option (List String)
kept later none = none
kept later (some addrs) = newest later (some addrs)

pub newest-if :
    (later : Option (List String)) (b : Bool) (addrs : List String) (o : Option (List String))
    → newest later (if b then some addrs else o)
      ≡ newest (newest later (if b then some addrs else none)) o
newest-if none true addrs o = refl
newest-if none false addrs o = refl
newest-if (some x) b addrs o = refl

pub kept-none : (o : Option (List String)) → kept none o ≡ o
kept-none none = refl
kept-none (some addrs) = refl

pub kept-if :
    (later : Option (List String)) (b : Bool) (addrs : List String) (o : Option (List String))
    → kept later (kept (if b then some addrs else none) o)
      ≡ kept (newest later (if b then some addrs else none)) o
kept-if later b addrs none = refl
kept-if none true addrs (some x) = refl
kept-if none false addrs (some x) = refl
kept-if (some y) true addrs (some x) = refl
kept-if (some y) false addrs (some x) = refl

pub same_index : (i j : ℕ) → ◌≡◌ {A = Option ℕ} (some i) (some j) → i ≡ j
same_index i j h = cc

true_ne-false : true ≡ false → ⊥
true_ne-false h = cc

pub none_ne-some : (i : ℕ) → ◌≡◌ {A = Option ℕ} none (some i) → ⊥
none_ne-some i h = cc

-- The scan that the registry has for a name is of that name.
name_at :
    (name : String) (o : Option (List String)) (r : Running) (i : ℕ)
    → Follows name o r
    → lookup name r.registry ≡ some i
    → (w : Watch) × (get_elem? r.scans i ≡ some w) × (w.scan.name ≡ name)
name_at name none r i v e = absurd cc
name_at name (some addrs) r i (j, ps, l, h, w) e =
    (ps, ap (get_elem? r.scans) (same_index i j (sym e ∙ l)) ∙ h, w.named)

same_name :
    (a b : String) (o p : Option (List String)) (r : Running) (i : ℕ)
    → Follows a o r
    → Follows b p r
    → lookup a r.registry ≡ some i
    → lookup b r.registry ≡ some i
    → a ≡ b
same_name a b o p r i v w e k =
    let (ps, h, x) = name_at a o r i v e in let (qs, l, y) = name_at b p r i w k in cc

pub is_same : (i j : ℕ) → i ≡ j → (i == j) ≡ true
is_same i j h = ground (arith, h)

-- Two names have different scans.
pub apart :
    (a b : String) (o p : Option (List String)) (r : Running) (i j : ℕ)
    → str_eq a b ≡ false
    → Follows a o r
    → Follows b p r
    → lookup a r.registry ≡ some i
    → lookup b r.registry ≡ some j
    → (i == j) ≡ false
apart a b o p r i j other v w e l = elim (Bool-cases (i == j)) [
  | inl same ↦ absurd (
      true_ne-false (
        sym ((eq_iff a b).1 (same_name a b o p r j v w (e ∙ ap some (ground (arith, same))) l))
        ∙ other))
  | inr differ ↦ differ
]
