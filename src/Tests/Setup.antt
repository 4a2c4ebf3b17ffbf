-- ===== src/Tests/Setup.antt =====
-- cmd/centauri/wizard.go and internal/config at concrete inputs.
use Prim.Native.String.{String}
use proxy_centauri.Main
use proxy_centauri.Main.Setup.{runs_of, setup-run}
use proxy_centauri.Metrics.Store
use proxy_centauri.Reload
use proxy_centauri.Reload.Names.{kept}
use proxy_centauri.Reload.Gates.{last_named}
use proxy_centauri.Reload.Watched.{all_loaded}
use proxy_centauri.Reload.Routes.{RoutedBy}
use proxy_centauri.Tests.Reloads.{only_b}
use proxy_centauri.Prelude.{
  List, none, ◌≡◌, refl, sym, true, false, Option, some, [], ◌∷◌, arith, ℤ, pos, str_eq,
  if◌then◌else◌,
}
use proxy_centauri.Config.{JumpGate, Config, load}
use proxy_centauri.Config.Env.{expand_env, size}
use proxy_centauri.Http.Text.{has, trim_space}
use proxy_centauri.Numbers.{decimal}
use proxy_centauri.Wizard.{ask}
use proxy_centauri.Wizard.Lines.{IsAnswer, type_line}
use proxy_centauri.Wizard.Loop.{IsAsked, ask-ends}
use proxy_centauri.Wizard.Script.{Answers, manual, type_all, type_backends, type_pair, type_tls}
use proxy_centauri.Wizard.Typed.{config_of, IsTyped}
use proxy_centauri.Tests.Oracles.{whole}

-- A reader of numbers that knows one text.
abbrev parse_one : String → ℤ
parse_one s = if str_eq s "2.5" then pos 2 else pos 0

abbrev answers : Answers
answers = record {
  name = "web";
  listen = ":80";
  protocol = "http";
  backend = "a:1";
  more = "b:2" ∷ [];
  lb_algo = "weighted";
  rate = some ("2.5", 40);
  tls = manual "c.pem" "k.pem";
  oracle = some ("${KEY}", 60);
}

typed :
    type_all answers
    ≡ "web\n:80\nhttp\na:1\ny\nb:2\nn\nweighted\ny\n2.5\n40\ny\nmanual\nc.pem\nk.pem\ny\n${KEY}\n60\n"
unfolding type_all type_backends type_pair type_tls type_line decimal
typed = refl

text-IsAnswer :
    (a : String) → has 10 a ≡ false → trim_space a ≡ a → str_eq a "" ≡ false → IsAnswer a
text-IsAnswer a h t g = record { one_line = h; trimmed = t; given = g }

answers-IsTyped : IsTyped whole parse_one answers
unfolding has trim_space
answers-IsTyped = record {
  name = text-IsAnswer "web" refl refl refl;
  listen = text-IsAnswer ":80" refl refl refl;
  protocol = text-IsAnswer "http" refl refl refl;
  backend = text-IsAnswer "a:1" refl refl refl;
  more = (text-IsAnswer "b:2" refl refl refl, tt);
  lb_algo = text-IsAnswer "weighted" refl refl refl;
  rate = (text-IsAnswer "2.5" refl refl refl, omega arith, omega arith);
  positive = refl;
  tls = (text-IsAnswer "c.pem" refl refl refl, text-IsAnswer "k.pem" refl refl refl);
  oracle = (text-IsAnswer "${KEY}" refl refl refl, omega arith, omega arith);
}

abbrev variables : String → String
variables name = if str_eq name "KEY" then "sk-1" else ""

abbrev as_bytes : Config whole → Option (Config whole)
as_bytes c = some c

ask-ends_example :
    (cfg : Config whole) × (gate : JumpGate whole) × (ask whole parse_one 9 "x\n\n\ny\n" ≡ some cfg)
    × (cfg.jump_gates ≡ gate ∷ [])
    × IsAsked (size "x\n\n\ny\n") gate.star_systems
ask-ends_example = ask-ends whole parse_one 9 "x\n\n\ny\n" (unfold size in omega arith)

-- A check after the start, up to the answer of the first backend, which is down.
abbrev checked : List (Main.Move whole (Config whole))
checked =
    Main.runs (Reload.checks 0 only_b) (λ i. true) 35
    ∷ Main.runs (Reload.checks 0 only_b) (λ i. true) 35
    ∷ Main.runs (Reload.checks 0 only_b) (λ i. true) 35
    ∷ []

setup-run_example :
    let key = λ (k : String). k in
    let file = config_of whole parse_one key answers in
    let m = Main.boot whole Store.new (config_of whole parse_one (expand_env variables) answers) in
    (Main.invoke whole parse_one as_bytes as_bytes variables true 2
        ("init" ∷ [])
        (type_all answers)
        none
        Store.new
      ≡ some (Main.exits true, some file))
    × (Main.invoke whole parse_one as_bytes as_bytes variables true 2 [] "" (some file) Store.new
        ≡ some (Main.continues m, some file))
    × RoutedBy "web"
        (kept
          (last_named whole "web" (all_loaded whole as_bytes variables (runs_of whole checked)))
          (some ("a:1" ∷ "b:2" ∷ [])))
        (Main.run whole as_bytes variables checked m).running
unfolding all_loaded load
setup-run_example =
    setup-run whole as_bytes variables parse_one as_bytes Store.new
      (config_of whole parse_one (λ k. k) answers) 2 answers none checked (λ c b e. sym e) refl
      answers-IsTyped (omega arith) ((refl, (refl, tt)), tt) tt tt
