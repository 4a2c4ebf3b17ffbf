-- ===== src/Wizard/Lines.antt =====
-- Lines typed into the wizard of cmd/centauri/wizard.go, and how a prompt reads them.
use Prim.Native.Char.{code}
use Prim.Native.String.{String}
use proxy_centauri.Prelude.{
  ℕ, zero, suc, ◌/◌, ◌%◌, ◌≤◌, ◌<◌, ◌≡◌, refl, ◌∙◌, eq_iff, false, Bool-cases, inl, inr, arith,
  str_eq, ap,
}
use proxy_centauri.Config.Env.{size}
use proxy_centauri.Http.Text.{has, before, behind, is_space, trim_left, trim_right, trim_space}
use proxy_centauri.Numbers.{digit, code-digit, digits, decimal, FirstDigit, digits-FirstDigit}
use proxy_centauri.Wizard.{prompt}

-- A line that is typed and ended.
unfoldable pub type_line : String → String → String
type_line String.[] s = String.◌∷◌ "\n" s
type_line (String.◌∷◌ c a) s = String.◌∷◌ c (type_line a s)

-- A text that is an answer: one line, with no space around it, and not empty.
pub record IsAnswer (a : String) : Type 0 where
  pub one_line : has b'\n' a ≡ false
  pub trimmed : trim_space a ≡ a
  pub given : str_eq a "" ≡ false

before-type_line : (a s : String) → has b'\n' a ≡ false → before b'\n' (type_line a s) ≡ a
unfolding type_line before has
before-type_line String.[] s h = refl
before-type_line (String.◌∷◌ c a) s h = ground (arith, before-type_line a s, h)

behind-type_line : (a s : String) → has b'\n' a ≡ false → behind b'\n' (type_line a s) ≡ s
unfolding type_line behind has
behind-type_line String.[] s h = refl
behind-type_line (String.◌∷◌ c a) s h = ground (arith, behind-type_line a s, h)

-- A prompt takes the line that was typed for it.
pub prompt-type_line : (d a s : String) → IsAnswer a → prompt d (type_line a s) ≡ (a, s)
unfolding prompt
prompt-type_line d a s v =
    rw (before-type_line a s v.one_line, behind-type_line a s v.one_line, v.trimmed, v.given) refl

-- A prompt leaves less to read, if it read anything.
pub behind-size : (reader : String) → size (behind b'\n' reader) ≤ size reader
unfolding behind size
behind-size String.[] = omega arith
behind-size (String.◌∷◌ c s) = ground (arith, behind-size s)

pub behind_less : (reader : String) → 0 < size reader → size (behind b'\n' reader) < size reader
unfolding behind size
behind_less String.[] h = elim h [ ]
behind_less (String.◌∷◌ c s) h = ground (arith, behind-size s)

abbrev NoSpace : String → Type 0
NoSpace String.[] = Unit
NoSpace (String.◌∷◌ c s) = (is_space (code c) ≡ false) × NoSpace s

trim_right-NoSpace : (s : String) → NoSpace s → trim_right s ≡ s
unfolding trim_right
trim_right-NoSpace String.[] h = refl
trim_right-NoSpace (String.◌∷◌ c s) h = ground (arith, h.0, trim_right-NoSpace s h.1)

trim_left-NoSpace : (s : String) → NoSpace s → trim_left s ≡ s
unfolding trim_left
trim_left-NoSpace String.[] h = refl
trim_left-NoSpace (String.◌∷◌ c s) h = ground (arith, h.0)

trim_space-NoSpace : (s : String) → NoSpace s → trim_space s ≡ s
unfolding trim_space
trim_space-NoSpace s h = ap trim_right (trim_left-NoSpace s h) ∙ trim_right-NoSpace s h

has-NoSpace : (s : String) → NoSpace s → has b'\n' s ≡ false
unfolding has is_space
has-NoSpace String.[] h = refl
has-NoSpace (String.◌∷◌ c s) h = ground (arith, h.0, has-NoSpace s h.1)

digit-NoSpace : (d : ℕ) → d < 10 → is_space (code (digit d)) ≡ false
unfolding is_space
digit-NoSpace d h = ground (arith, code-digit d h)

digits-NoSpace : (fuel n : ℕ) (s : String) → NoSpace s → NoSpace (digits fuel n s)
unfolding digits
digits-NoSpace zero n s h = h
digits-NoSpace (suc fuel) n s h = ground (
  arith,
  digit-NoSpace n,
  digit-NoSpace (n % 10),
  digits-NoSpace fuel (n / 10) (String.◌∷◌ (digit (n % 10)) s),
  h,
)

zero_ne-suc : (n : ℕ) → suc n ≡ 0 → ⊥
zero_ne-suc n h = omega (arith, h)

given-FirstDigit : (s : String) → FirstDigit s → str_eq s "" ≡ false
unfolding size
given-FirstDigit String.[] h = absurd h
given-FirstDigit (String.◌∷◌ c s) h = elim (Bool-cases (str_eq (String.◌∷◌ c s) "")) [
  | inl same ↦ absurd (zero_ne-suc (size s) (ap size ((eq_iff (String.◌∷◌ c s) "").0 same)))
  | inr other ↦ other
]

-- The digits of a number are an answer.
pub decimal-IsAnswer : (n : ℕ) → IsAnswer (decimal n "")
unfolding decimal
decimal-IsAnswer n = record {
  one_line = has-NoSpace _ (digits-NoSpace (suc n) n "" tt);
  trimmed = trim_space-NoSpace _ (digits-NoSpace (suc n) n "" tt);
  given = given-FirstDigit _ (digits-FirstDigit (suc n) n "" (omega arith));
}
