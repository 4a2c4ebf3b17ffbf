-- ===== src/Prelude/Maps.antt =====
-- Go's `map[string]V` as an association list. The program reads, writes and deletes single keys,
-- and where it ranges over a map the order of the entries does not matter.
use Prim.Native.String.{String}
use text.Mathlib.TextEquality.{eq_iff}
use mathlib.Core.Path.{◌≡◌, refl}
use mathlib.Core.Logic.{◌⊎◌}
use mathlib.Core.Option.{Option, none, some}
use mathlib.Core.List.{List, [], ◌∷◌}
use native.Mathlib.Omega.{arith}
use proxy_centauri.Prelude.Tests.{str_eq, if◌then◌else◌}

abbrev pub Dict {ℓ} : Type ℓ → Type ℓ
Dict V = List (String × V)

module _ {ℓ} {V : Type ℓ} where
  -- delete(m, k)
  unfoldable pub delete : String → Dict V → Dict V
  delete key [] = []
  delete key ((this, val) ∷ dict) =
      let others = delete key dict in if str_eq this key then others else (this, val) ∷ others

  -- m[k] = v
  unfoldable pub insert : String → V → Dict V → Dict V
  insert key new [] = (key, new) ∷ []
  insert key new ((this, val) ∷ dict) =
      if str_eq this key then (key, new) ∷ dict else (this, val) ∷ insert key new dict

  -- v, ok := m[k]
  unfoldable pub lookup : String → Dict V → Option V
  lookup key [] = none
  lookup key ((this, val) ∷ dict) = if str_eq this key then some val else lookup key dict

  pub lookup-delete :
      (gone key : String) (dict : Dict V)
      → lookup key (delete gone dict) ≡ (if str_eq gone key then none else lookup key dict)
  unfolding lookup delete
  lookup-delete gone key [] = ground arith
  lookup-delete gone key ((this, val) ∷ dict) =
      ground
        (arith, lookup-delete gone key dict, eq_iff this gone, eq_iff this key, eq_iff gone key)

  pub lookup-insert :
      (set key : String) (val : V) (dict : Dict V)
      → lookup key (insert set val dict) ≡ (if str_eq set key then some val else lookup key dict)
  unfolding lookup insert
  lookup-insert set key val [] = refl
  lookup-insert set key val ((this, old) ∷ dict) =
      ground
        (arith, lookup-insert set key val dict, eq_iff this set, eq_iff this key, eq_iff set key)

  -- Where a key's value in an extended map comes from.
  pub lookup-insert_cases :
      (k j : String) (v w : V) (m : Dict V)
      → lookup j (insert k v m) ≡ some w
      → ((k ≡ j) × (v ≡ w)) ⊎ (lookup j m ≡ some w)
  lookup-insert_cases k j v w m h = ground (arith, lookup-insert k j v m, eq_iff k j)
