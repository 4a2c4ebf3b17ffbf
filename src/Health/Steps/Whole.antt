-- ===== src/Health/Steps/Whole.antt =====
-- The steps of a check of internal/health/pulsescan.go that nothing disturbs.
use proxy_centauri.Prelude.{ℕ, suc, String, List, [], ◌∷◌}
use proxy_centauri.Health.{Network}
use proxy_centauri.Health.Steps.{Watch, step}

-- The begin of a round and its ping, once for each address of a list.
abbrev pub rounds : (ℕ → Network) → ℕ → List String → Watch → Watch
rounds nets i [] w = w
rounds nets i (addr ∷ addrs) w = rounds nets (suc i) addrs (step (nets i) (step (nets i) w))
