-- ===== src/Oracle/Engine/Calls.antt =====
-- When internal/oracle/oracle.go calls Claude again, and what an answer leaves.
use proxy_centauri.Prelude.{
  ℕ, ◌-◌, ◌*◌, ◌^◌, ◌≤◌, ◌<◌, ◌≡◌, refl, true, false, Option, none, some, List, arith, ℤ, pos,
  negsuc, pos_part, ◌≤ℤ◌, wrap64, bits64, of_bits64,
}
use proxy_centauri.Oracle.Aggregator.{GateSnapshot}
use proxy_centauri.Config.{OracleConfig}
use proxy_centauri.Floats.{Float64}
use proxy_centauri.Oracle.Engine.{
  OracleResponse, Oracle, World, conclude, since, interval, breaches, should_call, seconds_of,
}

module _ (f : Float64) where
  abbrev pub period : OracleConfig f → ℕ
  period cfg = pos_part cfg.interval_seconds * 10 ^ 9

  -- The interval is not negative, and fits a 64-bit Duration.
  abbrev pub Fits : OracleConfig f → Type 0
  Fits cfg = (pos 0 ≤ℤ cfg.interval_seconds) × (period cfg < 2 ^ 63)

  exact :
      (n : ℤ)
      → pos 0 ≤ℤ n
      → pos_part n * 10 ^ 9 < 2 ^ 63
      → wrap64 (seconds_of n) ≡ pos (pos_part n * 10 ^ 9)
  unfolding wrap64 bits64 of_bits64
  exact (pos n) h k = ground (arith, k)
  exact (negsuc n) h k = absurd (omega (arith, h))

  interval_exact : (cfg : OracleConfig f) → Fits cfg → interval f cfg ≡ pos (period cfg)
  unfolding interval wrap64 bits64 of_bits64
  interval_exact cfg h = exact cfg.interval_seconds h.0 h.1

  since_le : (last : Option ℕ) (t now : ℕ) → last ≡ some t → since last now ≤ now - t
  unfolding since
  since_le none t now h = ground (arith, h)
  since_le (some t') t now h = ground (arith, h)

  pub due :
      (o : Oracle f) (t now : ℕ) (snaps : List (GateSnapshot f))
      → Fits o.cfg
      → o.last_call ≡ some t
      → breaches f o.cfg snaps ≡ false
      → should_call f now snaps o ≡ true
      → period o.cfg ≤ now - t
  unfolding should_call
  due o t now snaps small last quiet h =
      ground (arith, since_le o.last_call t now last, interval_exact o.cfg small, quiet, h)

  pub cfg-conclude :
      (w : World f) (snaps : List (GateSnapshot f)) (reply : Option OracleResponse) (o : Oracle f)
      → (conclude f w snaps reply o).cfg ≡ o.cfg
  unfolding conclude
  cfg-conclude w snaps none o = refl
  cfg-conclude w snaps (some resp) o = refl

  pub last-conclude :
      (w : World f) (snaps : List (GateSnapshot f)) (reply : Option OracleResponse) (o : Oracle f)
      (resp : OracleResponse)
      → reply ≡ some resp
      → (conclude f w snaps reply o).last_call ≡ some w.answered
  unfolding conclude
  last-conclude w snaps none o resp h = ground (arith, h)
  last-conclude w snaps (some resp') o resp h = refl
