-- ===== src/Http/Text.antt =====
-- The parts of Go's `strings` and `net` that the gates use on header values and addresses, on texts
-- of code points.
use Prim.Native.Char.{code}
use Prim.Native.String.{String, ◌++◌}
use proxy_centauri.Prelude.{
  ℕ, ◌≡◌, refl, Bool, false, ◌&&◌, ◌||◌, Option, none, some, if◌then◌else◌, leb, ◌==◌, str_eq,
}

unfoldable pub has : ℕ → String → Bool
has c String.[] = false
has c (String.◌∷◌ x s) = code x == c || has c s

-- The text before the first `c`, or the whole text, and the text behind it.
unfoldable pub before : ℕ → String → String
before c String.[] = String.[]
before c (String.◌∷◌ x s) = if code x == c then String.[] else String.◌∷◌ x (before c s)

unfoldable pub behind : ℕ → String → String
behind c String.[] = String.[]
behind c (String.◌∷◌ x s) = if code x == c then s else behind c s

-- The text before the last `c`, if there is one.
unfoldable pub before_last : ℕ → String → Option String
before_last c String.[] = none
before_last c (String.◌∷◌ x s) = elim (before_last c s) [
  | some t ↦ some (String.◌∷◌ x t)
  | none ↦ if code x == c then some String.[] else none
]

-- `unicode.IsSpace`.
unfoldable pub is_space : ℕ → Bool
is_space c =
    leb 9 c && leb c 13
    || c == 0x20
    || c == 0x85
    || c == 0xa0
    || c == 0x1680
    || leb 0x2000 c && leb c 0x200a
    || c == 0x2028
    || c == 0x2029
    || c == 0x202f
    || c == 0x205f
    || c == 0x3000

unfoldable pub trim_left : String → String
unfolding is_space
trim_left String.[] = String.[]
trim_left (String.◌∷◌ x s) = if is_space (code x) then trim_left s else String.◌∷◌ x s

unfoldable pub trim_right : String → String
unfolding is_space
trim_right String.[] = String.[]
trim_right (String.◌∷◌ x s) =
    let t = trim_right s in if str_eq t "" && is_space (code x) then String.[] else String.◌∷◌ x t

-- `strings.TrimSpace`.
unfoldable pub trim_space : String → String
unfolding trim_left trim_right
trim_space s = trim_right (trim_left s)

abbrev pub first_is : ℕ → String → Bool
first_is c String.[] = false
first_is c (String.◌∷◌ x s) = code x == c

abbrev pub tail_of : String → String
tail_of String.[] = String.[]
tail_of (String.◌∷◌ x s) = s

-- The host of `net.SplitHostPort`, or its error; `front` is the text before the last colon.
unfoldable pub split_bracketed : String → String → Option String
split_bracketed rest front =
    let h = before b']' rest in
    if has b']' rest && str_eq front ("[" ++ (h ++ "]"))
    then (if has b'[' rest || has b']' (behind b']' rest) then none else some h)
    else none

unfoldable pub split_plain : String → String → Option String
split_plain hostport front =
    if has b':' front || has b'[' hostport || has b']' hostport then none else some front

unfoldable pub split_host_port : String → Option String
unfolding split_bracketed split_plain has before behind before_last
split_host_port hostport = elim (before_last b':' hostport) [
  | none ↦ none
  | some front ↦
      if first_is b'[' hostport
      then split_bracketed (tail_of hostport) front
      else split_plain hostport front
]

v4 : split_host_port "10.0.0.1:5123" ≡ some "10.0.0.1"
unfolding split_host_port
v4 = refl

v6 : split_host_port "[::1]:5123" ≡ some "::1"
unfolding split_host_port
v6 = refl

no_port : split_host_port "10.0.0.1" ≡ none
unfolding split_host_port
no_port = refl

trimmed : trim_space "  10.0.0.1 " ≡ "10.0.0.1"
unfolding trim_space
trimmed = refl
