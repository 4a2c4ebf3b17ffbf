-- ===== src/Floats.antt =====
-- What internal/metrics and internal/oracle use of Go's float64: conversions, literals, arithmetic,
-- tests.
use proxy_centauri.Prelude.{ℕ, ◌<◌, ◌≡◌, Bool, true, false, ℤ, pos}

-- `literal n k` is n / 10^k, `seconds` a duration in nanoseconds as seconds, `to_int` the
-- conversion to int64.
pub record Float64 : Type 1 where
  pub Float : Type 0
  pub of_int : ℤ → Float
  pub to_int : Float → ℤ
  pub literal : ℕ → ℕ → Float
  pub seconds : ℕ → Float
  pub mul : Float → Float → Float
  pub div : Float → Float → Float
  pub add : Float → Float → Float
  pub sub : Float → Float → Float
  pub gt : Float → Float → Bool
  pub le : Float → Float → Bool
  pub eq : Float → Float → Bool

-- Laws of IEEE 754: a test `>` holds one way round at most, and 0 / n is 0.
pub record FloatLaws (f : Float64) : Type 0 where
  pub gt_asym : (x y : f.Float) → f.gt x y ≡ true → f.gt y x ≡ false
  pub div-zero : (n : ℕ) → 0 < n → f.div (f.of_int (pos 0)) (f.of_int (pos n)) ≡ f.of_int (pos 0)
