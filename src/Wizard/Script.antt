-- ===== src/Wizard/Script.antt =====
-- Answers as lines typed into the wizard of cmd/centauri/wizard.go, and how the loop and the TLS
-- part read them.
use Prim.Native.String.{String}
use proxy_centauri.Prelude.{
  ℕ, zero, suc, ◌^◌, ◌<◌, ◌≡◌, refl, Option, none, some, List, [], ◌∷◌, arith, length, All, map, ℤ,
  pos,
}
use proxy_centauri.Config.{StarSystem, TlsConfig}
use proxy_centauri.Http.Text.{has, trim_space}
use proxy_centauri.Numbers.{decimal}
use proxy_centauri.Numbers.Atoi.{atoi, atoi-decimal}
use proxy_centauri.Wizard.{or_else, ask_backends, ask_tls}
use proxy_centauri.Wizard.Lines.{IsAnswer, type_line, prompt-type_line}

pub data Tls : Type 0 where
  no_tls : Tls
  auto : String → Tls
  manual : String → String → Tls

-- What a user decides: rates as the text that is typed, whole numbers as numbers.
pub record Answers : Type 0 where
  pub name : String
  pub listen : String
  pub protocol : String
  pub backend : String
  pub more : List String
  pub lb_algo : String
  pub rate : Option (String × ℕ)
  pub tls : Tls
  pub oracle : Option (String × ℕ)

-- The lines that say so.
unfoldable pub type_backends : String → List String → String → String
type_backends a [] s = type_line a (type_line "n" s)
type_backends a (b ∷ bs) s = type_line a (type_line "y" (type_backends b bs s))

unfoldable pub type_pair : Option (String × ℕ) → String → String
type_pair none s = type_line "n" s
type_pair (some (a, n)) s = type_line "y" (type_line a (type_line (decimal n "") s))

unfoldable pub type_tls : Tls → String → String
type_tls no_tls s = type_line "n" s
type_tls (auto domain) s = type_line "y" (type_line "auto" (type_line domain s))
type_tls (manual cert key) s = type_line "y" (type_line "manual" (type_line cert (type_line key s)))

unfoldable pub type_all : Answers → String
type_all a = type_line a.name (
    type_line a.listen (
      type_line a.protocol (
        type_backends a.backend a.more
          (type_line a.lb_algo (type_pair a.rate (type_tls a.tls (type_pair a.oracle "")))))))

abbrev pub star : String → StarSystem
star a = record { address = a; weight = pos 1 }

abbrev pub tls_of : Tls → TlsConfig
tls_of no_tls = record { mode = ""; domain = ""; cert_file = ""; key_file = "" }
tls_of (auto domain) = record { mode = "auto"; domain = domain; cert_file = ""; key_file = "" }
tls_of (manual cert key) = record { mode = "manual"; domain = ""; cert_file = cert; key_file = key }

abbrev pub Pair-IsAnswer : Option (String × ℕ) → Type 0
Pair-IsAnswer none = Unit
Pair-IsAnswer (some (a, n)) = IsAnswer a × (0 < n) × (n < 2 ^ 63)

abbrev pub Tls-IsAnswer : Tls → Type 0
Tls-IsAnswer no_tls = Unit
Tls-IsAnswer (auto domain) = IsAnswer domain
Tls-IsAnswer (manual cert key) = IsAnswer cert × IsAnswer key

pub no : IsAnswer "n"
no = record { one_line = unfold has in refl; trimmed = unfold trim_space in refl; given = refl }

pub yes : IsAnswer "y"
yes = record { one_line = unfold has in refl; trimmed = unfold trim_space in refl; given = refl }

auto-IsAnswer : IsAnswer "auto"
auto-IsAnswer = record {
  one_line = unfold has in refl;
  trimmed = unfold trim_space in refl;
  given = refl;
}

manual-IsAnswer : IsAnswer "manual"
manual-IsAnswer = record {
  one_line = unfold has in refl;
  trimmed = unfold trim_space in refl;
  given = refl;
}

pub ask_backends-type :
    (a : String) (bs : List String) (fuel : ℕ) (s : String)
    → IsAnswer a
    → All IsAnswer bs
    → length bs < fuel
    → ask_backends fuel (type_backends a bs s) ≡ some (map star (a ∷ bs), s)
unfolding ask_backends type_backends
ask_backends-type a bs zero s v vs h = elim h [ ]
ask_backends-type a [] (suc fuel) s v vs h =
    rw (prompt-type_line "localhost:3000" a _ v, prompt-type_line "n" "n" s no)
      (unfold trim_space in refl)
ask_backends-type a (b ∷ bs) (suc fuel) s v vs h =
    rw
      (
        prompt-type_line "localhost:3000" a _ v,
        prompt-type_line "n" "y" (type_backends b bs s) yes,
        ask_backends-type b bs fuel s vs.0 vs.1 (omega (arith, h)),
      )
      (unfold trim_space in refl)

pub ask_tls-type : (t : Tls) (s : String) → Tls-IsAnswer t → ask_tls (type_tls t s) ≡ (tls_of t, s)
unfolding ask_tls type_tls
ask_tls-type no_tls s v = rw (prompt-type_line "n" "n" s no) refl
ask_tls-type (auto domain) s v =
    rw
      (
        prompt-type_line "n" "y" (type_line "auto" (type_line domain s)) yes,
        prompt-type_line "auto" "auto" (type_line domain s) auto-IsAnswer,
        prompt-type_line "" domain s v,
      )
      refl
ask_tls-type (manual cert key) s v =
    rw
      (
        prompt-type_line "n" "y" (type_line "manual" (type_line cert (type_line key s))) yes,
        prompt-type_line "auto" "manual" (type_line cert (type_line key s)) manual-IsAnswer,
        prompt-type_line "cert.pem" cert (type_line key s) v.0,
        prompt-type_line "key.pem" key s v.1,
      )
      refl

-- A whole number above 0 is read back.
pub or_else-decimal : (n : ℕ) (d : ℤ) → 0 < n → n < 2 ^ 63 → or_else (atoi (decimal n "")) d ≡ pos n
or_else-decimal n d h k = rw (atoi-decimal n k) (ground (arith, h))
