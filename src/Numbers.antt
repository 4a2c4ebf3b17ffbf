-- ===== src/Numbers.antt =====
-- Numbers as text: `strconv.ParseInt(s, 10, 64)`, and the decimal digits that encoding/json writes.
pub mod Atoi
use Prim.Native.Char.{Char, code}
use Prim.Native.String.{String}
use proxy_centauri.Prelude.{
  ℕ, zero, suc, ◌+◌, ◌-◌, ◌*◌, ◌/◌, ◌%◌, ◌^◌, ◌<◌, ◌≡◌, refl, ◌∙◌, Bool, true, ◌&&◌, Option, none,
  some, arith, inl, inr, Bool-cases, ltb→lt, if◌then◌else◌, leb, ltb, ◌==◌, ℤ, pos, negsuc,
}
use proxy_centauri.Http.Text.{before, behind, has}

abbrev pub is_digit : ℕ → Bool
is_digit c = leb 48 c && leb c 57

-- The value of a text of digits behind the value `n` of those before it.
unfoldable pub parse_digits : ℕ → String → Option ℕ
parse_digits n String.[] = some n
parse_digits n (String.◌∷◌ c s) =
    let rest = parse_digits (n * 10 + (code c - 48)) s in if is_digit (code c) then rest else none

abbrev pub minus : ℕ → ℤ
minus zero = pos 0
minus (suc n) = negsuc n

-- The range of int64.
abbrev pub positive : Option ℕ → Option ℤ
positive none = none
positive (some n) = if ltb n (2 ^ 63) then some (pos n) else none

abbrev pub negative : Option ℕ → Option ℤ
negative none = none
negative (some n) = if leb n (2 ^ 63) then some (minus n) else none

unfoldable pub parse_unsigned : String → Option ℕ
unfolding parse_digits
parse_unsigned String.[] = none
parse_unsigned (String.◌∷◌ c s) = parse_digits 0 (String.◌∷◌ c s)

unfoldable pub parse_int : String → Option ℤ
unfolding parse_unsigned
parse_int String.[] = none
parse_int (String.◌∷◌ c s) =
    if code c == 43
    then positive (parse_unsigned s)
    else if code c == 45
    then negative (parse_unsigned s)
    else positive (parse_unsigned (String.◌∷◌ c s))

unfoldable pub digit : ℕ → Char
digit zero = "0"
digit (suc zero) = "1"
digit (suc (suc zero)) = "2"
digit (suc (suc (suc zero))) = "3"
digit (suc (suc (suc (suc zero)))) = "4"
digit (suc (suc (suc (suc (suc zero))))) = "5"
digit (suc (suc (suc (suc (suc (suc zero)))))) = "6"
digit (suc (suc (suc (suc (suc (suc (suc zero))))))) = "7"
digit (suc (suc (suc (suc (suc (suc (suc (suc zero)))))))) = "8"
digit (suc (suc (suc (suc (suc (suc (suc (suc (suc n))))))))) = "9"

pub code-digit : (n : ℕ) → n < 10 → code (digit n) ≡ 48 + n
unfolding digit
code-digit zero h = omega arith
code-digit (suc zero) h = omega arith
code-digit (suc (suc zero)) h = omega arith
code-digit (suc (suc (suc zero))) h = omega arith
code-digit (suc (suc (suc (suc zero)))) h = omega arith
code-digit (suc (suc (suc (suc (suc zero))))) h = omega arith
code-digit (suc (suc (suc (suc (suc (suc zero)))))) h = omega arith
code-digit (suc (suc (suc (suc (suc (suc (suc zero))))))) h = omega arith
code-digit (suc (suc (suc (suc (suc (suc (suc (suc zero)))))))) h = omega arith
code-digit (suc (suc (suc (suc (suc (suc (suc (suc (suc n))))))))) h = omega arith

-- The digits of `n` in front of a text, with fuel.
unfoldable pub digits : ℕ → ℕ → String → String
digits zero n s = s
digits (suc fuel) n s =
    let more = digits fuel (n / 10) (String.◌∷◌ (digit (n % 10)) s) in
    if ltb n 10 then String.◌∷◌ (digit n) s else more

unfoldable pub decimal : ℕ → String → String
unfolding digits digit
decimal n s = digits (suc n) n s

parse-digit :
    (d n : ℕ) (s : String)
    → d < 10
    → parse_digits n (String.◌∷◌ (digit d) s) ≡ parse_digits (n * 10 + d) s
unfolding parse_digits
parse-digit d n s h = ground (arith, code-digit d h)

parse-digits :
    (fuel n : ℕ) (s : String) → n < fuel → parse_digits 0 (digits fuel n s) ≡ parse_digits n s
unfolding digits
parse-digits zero n s h = elim h [ ]
parse-digits (suc fuel) n s h = ground (
  arith,
  parse-digit n 0 s,
  parse-digit (n % 10) (n / 10) s,
  parse-digits fuel (n / 10) (String.◌∷◌ (digit (n % 10)) s),
)

abbrev pub FirstDigit : String → Type 0
FirstDigit String.[] = ⊥
FirstDigit (String.◌∷◌ c s) = is_digit (code c) ≡ true

digit-FirstDigit : (d : ℕ) → d < 10 → is_digit (code (digit d)) ≡ true
digit-FirstDigit d h = ground (arith, code-digit d h)

pub digits-FirstDigit : (fuel n : ℕ) (s : String) → n < fuel → FirstDigit (digits fuel n s)
unfolding digits
digits-FirstDigit zero n s h = elim h [ ]
digits-FirstDigit (suc fuel) n s h = elim (Bool-cases (ltb n 10)) [
  | inl small ↦ rw small (digit-FirstDigit n (ltb→lt n 10 small))
  | inr large ↦
      rw large
        (digits-FirstDigit fuel (n / 10) (String.◌∷◌ (digit (n % 10)) s) (ground (arith, large)))
]

parse_int-unsigned : (s : String) → FirstDigit s → parse_int s ≡ positive (parse_digits 0 s)
unfolding parse_int
parse_int-unsigned String.[] h = absurd h
parse_int-unsigned (String.◌∷◌ c s) h = ground (arith, h)

-- What `ParseInt` makes of the digits of a number: the number, if it is in the range of int64.
pub parse_int-decimal : (n : ℕ) → n < 2 ^ 63 → parse_int (decimal n "") ≡ some (pos n)
unfolding decimal
parse_int-decimal n h =
    parse_int-unsigned (digits (suc n) n "") (digits-FirstDigit (suc n) n "" (omega arith))
    ∙ rw (parse-digits (suc n) n "" (omega arith)) (unfold parse_digits in ground (arith, h))

before-digit :
    (d : ℕ) (s : String)
    → d < 10
    → before 47 (String.◌∷◌ (digit d) s) ≡ String.◌∷◌ (digit d) (before 47 s)
unfolding before
before-digit d s h = ground (arith, code-digit d h)

-- The digits up to a slash.
before-digits :
    (fuel n : ℕ) (s : String) → before 47 (digits fuel n s) ≡ digits fuel n (before 47 s)
unfolding digits
before-digits zero n s = refl
before-digits (suc fuel) n s = ground (
  arith,
  before-digit n s,
  before-digit (n % 10) s,
  before-digits fuel (n / 10) (String.◌∷◌ (digit (n % 10)) s),
)

behind-digit : (d : ℕ) (s : String) → d < 10 → behind 47 (String.◌∷◌ (digit d) s) ≡ behind 47 s
unfolding behind
behind-digit d s h = ground (arith, code-digit d h)

behind-digits : (fuel n : ℕ) (s : String) → behind 47 (digits fuel n s) ≡ behind 47 s
unfolding digits
behind-digits zero n s = refl
behind-digits (suc fuel) n s = ground (
  arith,
  behind-digit n s,
  behind-digit (n % 10) s,
  behind-digits fuel (n / 10) (String.◌∷◌ (digit (n % 10)) s),
)

has-digit : (d : ℕ) (s : String) → has 47 s ≡ true → has 47 (String.◌∷◌ (digit d) s) ≡ true
unfolding has
has-digit d s h = ground (arith, h)

has-digits : (fuel n : ℕ) (s : String) → has 47 s ≡ true → has 47 (digits fuel n s) ≡ true
unfolding digits
has-digits zero n s h = h
has-digits (suc fuel) n s h = ground (
  arith,
  has-digit n s h,
  has-digits fuel (n / 10) (String.◌∷◌ (digit (n % 10)) s) (has-digit (n % 10) s h),
)

-- The digits of a number in front of a slash, split there.
pub split-decimal :
    (n : ℕ) (s : String)
    → has 47 s ≡ true
    → (has 47 (decimal n s) ≡ true)
      × (before 47 (decimal n s) ≡ decimal n (before 47 s))
      × (behind 47 (decimal n s) ≡ behind 47 s)
unfolding decimal
split-decimal n s h =
    (has-digits (suc n) n s h, before-digits (suc n) n s, behind-digits (suc n) n s)
