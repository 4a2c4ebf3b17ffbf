-- ===== src/Wizard/Loop.antt =====
-- The loop over backends of cmd/centauri/wizard.go ends.
use Prim.Native.String.{String}
use proxy_centauri.Prelude.{
  ℕ, zero, suc, ◌≤◌, ◌<◌, ◌≡◌, refl, ap, Bool, true, false, not, some, List, [], ◌∷◌, arith,
  if◌then◌else◌, length, All, pos,
}
use proxy_centauri.Config.{StarSystem, JumpGate, Config}
use proxy_centauri.Config.Env.{size}
use proxy_centauri.Floats.{Float64}
use proxy_centauri.Http.Text.{before, behind, trim_space}
use proxy_centauri.Wizard.{prompt, is_yes, ask_backends, and_then, ask_rest, ask}
use proxy_centauri.Wizard.Lines.{behind-size, behind_less}

-- At least one backend, at most one more than the bound, all of weight 1.
pub record IsAsked (bound : ℕ) (stars : List StarSystem) : Type 0 where
  pub given : 0 < length stars
  pub bounded : length stars ≤ suc bound
  pub weights : All (λ s. s.weight ≡ pos 1) stars

abbrev Ends : ℕ → String → Type 0
Ends fuel reader =
    (stars : List StarSystem) × (left : String) × (ask_backends fuel reader ≡ some (stars, left))
    × IsAsked (size reader) stars

-- At the end of the input the loop is left.
more-empty : (reader : String) → is_yes (trim_space (prompt "n" reader).0) ≡ true → 0 < size reader
unfolding prompt trim_space before behind size
more-empty String.[] h = cc
more-empty (String.◌∷◌ c s) h = omega arith

-- An answer that goes on has left less to read.
read_less :
    (reader : String)
    → let reader1 = (prompt "localhost:3000" reader).1 in
      is_yes (trim_space (prompt "n" reader1).0) ≡ true → size (prompt "n" reader1).1 < size reader
read_less reader h =
    let reader1 = (prompt "localhost:3000" reader).1 in
    unfold prompt in
    omega (
      arith,
      behind_less (behind b'\n' reader) (more-empty (behind b'\n' reader) h),
      behind-size reader,
    )

ask_backends-Ends : (fuel : ℕ) (reader : String) → size reader < fuel → Ends fuel reader
unfolding ask_backends
ask_backends-Ends zero reader h = elim h [ ]
ask_backends-Ends (suc fuel) reader h =
    let (addr, reader1) = prompt "localhost:3000" reader in
    let (more, reader2) = prompt "n" reader1 in
    go (record { address = addr; weight = pos 1 }) reader2 refl (is_yes (trim_space more))
      (read_less reader) (λ less. ask_backends-Ends fuel reader2 (omega (arith, h, less)))
  where
    go :
        (star : StarSystem) (reader2 : String)
        → star.weight ≡ pos 1
        → (b : Bool) → (b ≡ true → size reader2 < size reader)
        → (size reader2 < size reader → Ends fuel reader2)
        → (stars : List StarSystem) × (left : String) × ((if not b
              then some (star ∷ [], reader2)
              else and_then star (ask_backends fuel reader2))
            ≡ some (stars, left))
          × IsAsked (size reader) stars
    go star reader2 w false k ends = (
      star ∷ [],
      reader2,
      refl,
      record { given = omega arith; bounded = omega arith; weights = (w, tt) },
    )
    go star reader2 w true k ends =
        let (stars, left, e, v) = ends (k refl) in
        (
          star ∷ stars,
          left,
          ap (and_then star) e,
          record {
            given = omega arith;
            bounded = omega (arith, v.bounded, k refl);
            weights = (w, v.weights);
          },
        )

module _ (f : Float64) (parse_float : String → f.Float) where
  -- Whatever is typed, also nothing, with fuel for more rounds than there are characters to read
  -- the wizard comes to a configuration. It has one gate, of at least one backend and at most one
  -- more than there are characters, and each backend has weight 1.
  pub ask-ends :
      (fuel : ℕ) (reader : String)
      → size reader < fuel
      → (cfg : Config f) × (gate : JumpGate f) × (ask f parse_float fuel reader ≡ some cfg)
        × (cfg.jump_gates ≡ gate ∷ [])
        × IsAsked (size reader) gate.star_systems
  unfolding ask ask_rest
  ask-ends fuel reader h =
      let reader1 = (prompt "web-app" reader).1 in
      let reader2 = (prompt ":8080" reader1).1 in
      let reader3 = (prompt "http" reader2).1 in
      let shorter : size reader3 ≤ size reader =
        unfold prompt in
        omega (arith, behind-size reader, behind-size reader1, behind-size reader2) in
      let (stars, left, e, v) = ask_backends-Ends fuel reader3 (omega (arith, h, shorter)) in
      (
        _,
        _,
        ap (ask_rest f parse_float _ _ _) e,
        refl,
        record {
          given = v.given;
          bounded = omega (arith, v.bounded, shorter);
          weights = v.weights;
        },
      )
