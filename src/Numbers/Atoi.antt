-- ===== src/Numbers/Atoi.antt =====
-- `strconv.Atoi` with its error ignored: 0 for a text that is no number, the nearest int for one
-- out of range.
use Prim.Native.Char.{code}
use Prim.Native.String.{String}
use proxy_centauri.Prelude.{
  ℕ, zero, suc, ◌+◌, ◌-◌, ◌*◌, ◌/◌, ◌%◌, ◌^◌, ◌<◌, ◌≡◌, refl, ◌∙◌, Option, none, some, arith,
  if◌then◌else◌, leb, ltb, ◌==◌, ℤ, pos, negsuc,
}
use proxy_centauri.Numbers.{
  is_digit, minus, digit, code-digit, digits, decimal, FirstDigit, digits-FirstDigit,
}

-- `ParseUint`, which stops at the first digit that is too much and gives the largest uint64.
unfoldable pub scan : ℕ → String → Option ℕ
scan n String.[] = some n
scan n (String.◌∷◌ c s) =
    let n' = n * 10 + (code c - 48) in
    let rest = scan n' s in
    if is_digit (code c) then if ltb n' (2 ^ 64) then rest else some (2 ^ 64 - 1) else none

unfoldable pub scan_unsigned : String → Option ℕ
unfolding scan
scan_unsigned String.[] = none
scan_unsigned (String.◌∷◌ c s) = scan 0 (String.◌∷◌ c s)

abbrev positive : Option ℕ → ℤ
positive none = pos 0
positive (some n) = if ltb n (2 ^ 63) then pos n else pos (2 ^ 63 - 1)

abbrev negative : Option ℕ → ℤ
negative none = pos 0
negative (some n) = if leb n (2 ^ 63) then minus n else negsuc (2 ^ 63 - 1)

unfoldable pub atoi : String → ℤ
unfolding scan_unsigned
atoi String.[] = pos 0
atoi (String.◌∷◌ c s) =
    if code c == 43
    then positive (scan_unsigned s)
    else if code c == 45
    then negative (scan_unsigned s)
    else positive (scan_unsigned (String.◌∷◌ c s))

scan-digit :
    (d n : ℕ) (s : String)
    → d < 10
    → n * 10 + d < 2 ^ 64
    → scan n (String.◌∷◌ (digit d) s) ≡ scan (n * 10 + d) s
unfolding scan
scan-digit d n s h k = ground (arith, code-digit d h)

scan-digits :
    (fuel n : ℕ) (s : String) → n < fuel → n < 2 ^ 64 → scan 0 (digits fuel n s) ≡ scan n s
unfolding digits
scan-digits zero n s h k = elim h [ ]
scan-digits (suc fuel) n s h k = ground (
  arith,
  scan-digit n 0 s,
  scan-digit (n % 10) (n / 10) s,
  scan-digits fuel (n / 10) (String.◌∷◌ (digit (n % 10)) s),
)

atoi-unsigned : (s : String) → FirstDigit s → atoi s ≡ positive (scan 0 s)
unfolding atoi
atoi-unsigned String.[] h = absurd h
atoi-unsigned (String.◌∷◌ c s) h = ground (arith, h)

-- What `Atoi` makes of the digits of a number in the range of int.
pub atoi-decimal : (n : ℕ) → n < 2 ^ 63 → atoi (decimal n "") ≡ pos n
unfolding decimal
atoi-decimal n h =
    atoi-unsigned (digits (suc n) n "") (digits-FirstDigit (suc n) n "" (omega arith))
    ∙ rw (scan-digits (suc n) n "" (omega arith) (omega arith)) (unfold scan in ground (arith, h))

too_large : atoi "-99999999999999999999x" ≡ negsuc 9223372036854775807
unfolding atoi
too_large = refl
