-- ===== src/Logger/ClientIp.antt =====
-- The address that internal/logger/stellar.go logs and the one that
-- internal/ratelimit/fluxshield.go limits.
use proxy_centauri.Prelude.{ℕ, ◌≡◌, refl, String, false, arith, str_eq}
use proxy_centauri.Http.{Request}
use proxy_centauri.Http.Text.{has, before, trim_space}
use proxy_centauri.RateLimit.{extract_ip}
use proxy_centauri.Logger.{client_ip}

before-all : (c : ℕ) (s : String) → has c s ≡ false → before c s ≡ s
unfolding has before
before-all c String.[] h = refl
before-all c (String.◌∷◌ x s) h = ground (arith, before-all c s, h)

-- For a request with an X-Forwarded-For header whose first address is not blank, the log names the
-- address that the rate limiter counts the request for.
pub client_ip-eq-extract_ip :
    (r : Request)
    → str_eq r.forwarded_for "" ≡ false
    → str_eq (trim_space (before 44 r.forwarded_for)) "" ≡ false
    → client_ip r ≡ extract_ip r
unfolding client_ip extract_ip
client_ip-eq-extract_ip r h k = ground (arith, h, k, before-all 44 r.forwarded_for)
