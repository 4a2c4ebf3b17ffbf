-- ===== src/Health/Check.antt =====
-- The loops of internal/health/pulsescan.go against filters.
use proxy_centauri.Prelude.{
  ℕ, suc, String, eq_iff, ◌≡◌, refl, sym, ◌∙◌, Bool, true, false, List, [], ◌∷◌, ◌++◌, Bool-cases,
  inl, inr, arith, if◌then◌else◌, str_eq, contains, Dict, insert, lookup-insert,
}
use mathlib.Core.List.{append-nil, append_assoc}
use proxy_centauri.Health.{Network, PulseScan, Scan, ping, is_healthy, live_of, scan, scan_one}

-- No address stands in the list twice.
abbrev pub Distinct : List String → Type 0
Distinct [] = Unit
Distinct (a ∷ addrs) = (contains a addrs ≡ false) × Distinct addrs

-- The addresses that answer their pings, in order.
abbrev pub answering : (ℕ → Network) → String → ℕ → List String → List String
answering nets protocol i [] = []
answering nets protocol i (a ∷ addrs) =
    let rest = answering nets protocol (suc i) addrs in
    if ping (nets i) protocol a then a ∷ rest else rest

pub is_healthy-insert :
    (k j : String) (v : Bool) (m : Dict Bool)
    → is_healthy (insert k v m) j ≡ (if str_eq k j then v else is_healthy m j)
unfolding is_healthy
is_healthy-insert k j v m = ground (arith, lookup-insert k j v m)

-- A store for an address that is not in a list does not show in the list.
pub live_of-insert :
    (a : String) (v : Bool) (m : Dict Bool) (addrs : List String)
    → contains a addrs ≡ false
    → live_of (insert a v m) addrs ≡ live_of m addrs
unfolding live_of
live_of-insert a v m [] h = refl
live_of-insert a v m (x ∷ addrs) h =
    ground (arith, live_of-insert a v m addrs, is_healthy-insert a x v m, eq_iff a x, eq_iff x a)

module _ (ps : PulseScan) (nets : ℕ → Network) where
  pub live-scan :
      (i : ℕ) (addrs : List String) (s : Scan)
      → (scan ps nets i addrs s).live ≡ s.live ++ answering nets ps.protocol i addrs
  unfolding scan scan_one
  live-scan i [] s = sym (append-nil s.live)
  live-scan i (a ∷ addrs) s = elim (Bool-cases (ping (nets i) ps.protocol a)) [
    | inl e ↦ live-scan (suc i) addrs _ ∙ rw e (append_assoc s.live (a ∷ []) _)
    | inr e ↦ live-scan (suc i) addrs _ ∙ rw e
  ]

  pub scan-other :
      (i : ℕ) (addrs : List String) (s : Scan) (a : String)
      → contains a addrs ≡ false
      → is_healthy (scan ps nets i addrs s).healthy a ≡ is_healthy s.healthy a
  unfolding scan scan_one
  scan-other i [] s a h = refl
  scan-other i (x ∷ addrs) s a h =
      scan-other (suc i) addrs _ a (ground arith)
      ∙ ground (arith, is_healthy-insert x a (ping (nets i) ps.protocol x) s.healthy, eq_iff x a)

  -- After the loop the health map agrees with the answers.
  pub live_of-scan :
      (i : ℕ) (addrs : List String) (s : Scan)
      → Distinct addrs
      → live_of (scan ps nets i addrs s).healthy addrs ≡ answering nets ps.protocol i addrs
  unfolding scan scan_one live_of
  live_of-scan i [] s d = refl
  live_of-scan i (a ∷ addrs) s d =
      let now = ping (nets i) ps.protocol a in
      let s' = scan_one ps a now s in
      ground (
        arith,
        live_of-scan (suc i) addrs s' d.1,
        scan-other (suc i) addrs s' a d.0,
        is_healthy-insert a a now s.healthy,
        eq_iff a a,
      )

  pub changed-scan :
      (i : ℕ) (addrs : List String) (s : Scan)
      → s.changed ≡ true
      → (scan ps nets i addrs s).changed ≡ true
  unfolding scan scan_one
  changed-scan i [] s h = h
  changed-scan i (a ∷ addrs) s h = changed-scan (suc i) addrs _ (ground arith)

  -- Without a change the map agreed with the answers before the loop.
  pub unchanged-scan :
      (i : ℕ) (addrs : List String) (s : Scan)
      → Distinct addrs
      → (scan ps nets i addrs s).changed ≡ false
      → live_of s.healthy addrs ≡ answering nets ps.protocol i addrs
  unfolding scan scan_one live_of
  unchanged-scan i [] s d h = refl
  unchanged-scan i (a ∷ addrs) s d h =
      let now = ping (nets i) ps.protocol a in
      let s' = scan_one ps a now s in
      ground (
        arith,
        unchanged-scan (suc i) addrs s' d.1,
        changed-scan (suc i) addrs s',
        live_of-insert a now s.healthy addrs d.0,
      )
