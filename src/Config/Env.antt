-- ===== src/Config/Env.antt =====
-- `os.ExpandEnv`, which internal/config/config.go calls on the API key: `$name` and `${name}`.
use Prim.Native.Char.{code}
use Prim.Native.String.{String, ◌++◌}
use proxy_centauri.Prelude.{
  ℕ, zero, suc, ◌≡◌, refl, Bool, ◌&&◌, ◌||◌, if◌then◌else◌, leb, ◌==◌, str_eq,
}
use proxy_centauri.Http.Text.{has, before}

-- `len`, in characters, as all lengths here.
unfoldable pub size : String → ℕ
size String.[] = 0
size (String.◌∷◌ c s) = suc (size s)

-- A one-character name: `*`, `#`, `$`, `@`, `!`, `?`, `-` or a digit.
unfoldable pub is_special : ℕ → Bool
is_special c =
    c == b'*'
    || c == b'#'
    || c == b'$'
    || c == b'@'
    || c == b'!'
    || c == b'?'
    || c == b'-'
    || leb 48 c && leb c 57

unfoldable pub is_alpha_num : ℕ → Bool
is_alpha_num c = c == b'_' || leb 48 c && leb c 57 || leb 97 c && leb c 122 || leb 65 c && leb c 90

unfoldable pub letters : String → String
unfolding is_alpha_num
letters String.[] = ""
letters (String.◌∷◌ c s) = if is_alpha_num (code c) then String.◌∷◌ c (letters s) else ""

-- The name in braces, the text being behind the left one, and how much it takes with both braces; a
-- name that is not closed takes the left brace only.
unfoldable pub braced : String → String × ℕ
unfolding size
braced s = if has b'}' s then (before b'}' s, suc (suc (size (before b'}' s)))) else ("", 1)

-- `getShellName`: the name that follows a `$`, and how much of the text it takes.
unfoldable pub shell_name : String → String × ℕ
unfolding is_special letters braced size
shell_name String.[] = ("", 0)
shell_name (String.◌∷◌ c s) =
    if code c == b'{'
    then braced s
    else if is_special (code c)
    then (String.◌∷◌ c "", 1)
    else (letters (String.◌∷◌ c s), size (letters (String.◌∷◌ c s)))

-- `Expand`, with what is left of a name to skip. A `$` with no name is kept, but not before a
-- brace.
unfoldable pub expand : (String → String) → ℕ → String → String
unfolding shell_name
expand env n String.[] = ""
expand env (suc n) (String.◌∷◌ c s) = expand env n s
expand env zero (String.◌∷◌ c s) =
    let (name, taken) = shell_name s in
    let rest = expand env taken s in
    if code c == b'$'
    then if str_eq name ""
      then (if taken == 0 then String.◌∷◌ c rest else rest)
      else env name ++ rest
    else String.◌∷◌ c (expand env zero s)

unfoldable pub expand_env : (String → String) → String → String
unfolding expand
expand_env env s = expand env 0 s

abbrev variables : String → String
variables name = if str_eq name "ORACLE_API_KEY" then "sk-1" else ""

in_braces : expand_env variables "${ORACLE_API_KEY}" ≡ "sk-1"
unfolding expand_env has before
in_braces = refl

between : expand_env variables "a$ORACLE_API_KEY-$ $" ≡ "ask-1-$ $"
unfolding expand_env has before
between = refl

unclosed : expand_env variables "a${b" ≡ "ab"
unfolding expand_env has before
unclosed = refl
