-- ===== src/Oracle/Aggregator/Rounds.antt =====
-- What internal/oracle/aggregator.go counts over rounds of snapshots.
use proxy_centauri.Prelude.{
  ℕ, ◌-◌, ◌^◌, ◌≤◌, ◌<◌, ◌≡◌, refl, String, Option, none, some, List, [], ◌∷◌, map, ◌⊎◌, inl, inr,
  ap, sym, subst, ◌∙◌, sub64_exact, InInt64, ◌-ℤ◌, arith, if◌then◌else◌, str_eq, Dict, lookup,
  insert, lookup-insert, eq_iff, Bool-cases, total, ◌+◌, ℤ, pos, sub64,
}
use proxy_centauri.Oracle.Aggregator.{
  GateSnapshot, prev_map, clamp, delta_req, snapshot_one, positive, build_snapshot,
}
use proxy_centauri.Floats.{Float64}
use proxy_centauri.Metrics.Collector.{MetricsSnapshot}

module _ (f : Float64) where
  -- The last snapshot of a gate in a round.
  abbrev pub find : String → List (MetricsSnapshot f) → Option (MetricsSnapshot f)
  find g [] = none
  find g (m ∷ ms) = elim (find g ms) [
    | some later ↦ some later
    | none ↦ if str_eq m.gate g then some m else none
  ]

  -- The snapshot of the last metrics of a gate, where there are some.
  abbrev read :
      Float64.Float f
      → Option (GateSnapshot f)
      → Option (GateSnapshot f)
      → Option (MetricsSnapshot f)
      → Option (GateSnapshot f)
  read i p before none = before
  read i p before (some m) = some (snapshot_one f i p m)

  read-later :
      (g : String) (i : Float64.Float f) (look : String → Option (GateSnapshot f))
      (m : MetricsSnapshot f) (acc : Dict (GateSnapshot f)) (o : Option (MetricsSnapshot f))
      → read i (look g) (lookup g (insert m.gate (snapshot_one f i (look m.gate) m) acc)) o
        ≡ read i
            (look g)
            (lookup g acc)
            (elim o [ some later ↦ some later | none ↦ if str_eq m.gate g then some m else none ])
  read-later g i look m acc (some later) = refl
  read-later g i look m acc none =
      lookup-insert m.gate g (snapshot_one f i (look m.gate) m) acc
      ∙ elim (Bool-cases (str_eq m.gate g)) [
        | inl e ↦ rw e (ap (λ a. some (snapshot_one f i (look a) m)) ((eq_iff m.gate g).0 e))
        | inr e ↦ rw e refl
      ]

  lookup-prev_map :
      (g : String) (i : Float64.Float f) (look : String → Option (GateSnapshot f))
      (cur : List (MetricsSnapshot f)) (acc : Dict (GateSnapshot f))
      → lookup g (prev_map f (map (λ m. snapshot_one f i (look m.gate) m) cur) acc)
        ≡ read i (look g) (lookup g acc) (find g cur)
  unfolding prev_map snapshot_one
  lookup-prev_map g i look [] acc = refl
  lookup-prev_map g i look (m ∷ cur) acc =
      lookup-prev_map g i look cur (insert m.gate (snapshot_one f i (look m.gate) m) acc)
      ∙ read-later g i look m acc (find g cur)

  raw-snapshot_one :
      (i : Float64.Float f) (p : Option (GateSnapshot f)) (m : MetricsSnapshot f)
      → (snapshot_one f i p m).raw_req_total ≡ m.req_total
  unfolding snapshot_one
  raw-snapshot_one i p m = refl

  rate-snapshot_one :
      (i : Float64.Float f) (p : Option (GateSnapshot f)) (m : MetricsSnapshot f)
      → (snapshot_one f i p m).req_per_sec ≡ f.div (f.of_int (delta_req f p m)) i
  unfolding snapshot_one
  rate-snapshot_one i p m = refl

  -- Every round has the gate, and its total never falls.
  abbrev pub Rises : String → ℕ → List (List (MetricsSnapshot f) × Float64.Float f) → Type 0
  Rises g low [] = Unit
  Rises g low ((cur, i) ∷ rounds) =
      (n : ℕ) × (m : MetricsSnapshot f) × (find g cur ≡ some m)
      × (m.req_total ≡ pos n)
      × (low ≤ n)
      × (n < 2 ^ 63)
      × Rises g n rounds

  -- The total of the last round.
  abbrev pub final :
      (g : String) (low : ℕ) (rounds : List (List (MetricsSnapshot f) × Float64.Float f))
      → Rises g low rounds
      → ℕ
  final g low [] r = low
  final g low ((cur, i) ∷ rounds) (n, m, e, t, le, lt, rest) = final g n rounds rest

  -- By how much the total rises from round to round, with the seconds of each.
  abbrev pub rises :
      (g : String) (low : ℕ) (rounds : List (List (MetricsSnapshot f) × Float64.Float f))
      → Rises g low rounds
      → List (ℕ × Float64.Float f)
  rises g low [] r = []
  rises g low ((cur, i) ∷ rounds) (n, m, e, t, le, lt, rest) = (n - low, i) ∷ rises g n rounds rest

  -- The rates of a gate that the snapshots of the rounds have, each built on the round before.
  abbrev pub rates :
      String
      → List (GateSnapshot f)
      → List (List (MetricsSnapshot f) × Float64.Float f)
      → List (Float64.Float f)
  rates g prev [] = []
  rates g prev ((cur, i) ∷ rounds) =
      let snaps = build_snapshot f cur prev i in
      let rest = rates g snaps rounds in
      elim (lookup g (prev_map f snaps [])) [ none ↦ rest | some s ↦ s.req_per_sec ∷ rest ]

  -- A rise of `n` requests as a rate.
  abbrev pub rate : ℕ × Float64.Float f → Float64.Float f
  rate (n, i) = f.div (f.of_int (pos n)) (positive f i)

  abbrev raw : Option (GateSnapshot f) → Option ℤ
  raw none = none
  raw (some p) = some p.raw_req_total

  IsLast : Option (GateSnapshot f) → ℕ → Type 0
  IsLast o low = (raw o ≡ some (pos low)) ⊎ ((raw o ≡ none) × (low ≡ 0))

  sub64_rise : (low n : ℕ) → low ≤ n → n < 2 ^ 63 → sub64 (pos n) (pos low) ≡ pos (n - low)
  sub64_rise low n le lt =
      let whole : pos n -ℤ pos low ≡ pos (n - low) = unfold ◌-ℤ◌ in ground arith in
      sub64_exact (pos n) (pos low) (subst InInt64 (sym whole) (omega arith, omega arith)) ∙ whole

  delta-rise :
      (o : Option (GateSnapshot f)) (m : MetricsSnapshot f) (low n : ℕ)
      → IsLast o low
      → m.req_total ≡ pos n
      → low ≤ n
      → n < 2 ^ 63
      → delta_req f o m ≡ pos (n - low)
  unfolding IsLast delta_req clamp
  delta-rise none m low n l t le lt = ground (arith, t)
  delta-rise (some p) m low n l t le lt = ground (arith, t, sub64_rise low n le lt, l)

  -- The snapshot of a round that has the gate.
  kept_snapshot :
      (g : String) (prev : List (GateSnapshot f)) (cur : List (MetricsSnapshot f))
      (i : Float64.Float f) (m : MetricsSnapshot f)
      → find g cur ≡ some m
      → lookup g (prev_map f (build_snapshot f cur prev i) [])
        ≡ some (snapshot_one f (positive f i) (lookup g (prev_map f prev [])) m)
  unfolding build_snapshot
  kept_snapshot g prev cur i m e =
      lookup-prev_map g (positive f i) (λ a. lookup a (prev_map f prev [])) cur [] ∙ rw e refl

  rates-from :
      (g : String) (prev : List (GateSnapshot f)) (low : ℕ)
      (rounds : List (List (MetricsSnapshot f) × Float64.Float f)) (r : Rises g low rounds)
      → IsLast (lookup g (prev_map f prev [])) low
      → rates g prev rounds ≡ map rate (rises g low rounds r)
  unfolding IsLast
  rates-from g prev low [] r l = refl
  rates-from g prev low ((cur, i) ∷ rounds) (n, m, e, t, le, lt, rest) l =
      let next = build_snapshot f cur prev i in
      let o = lookup g (prev_map f prev []) in
      let kept = kept_snapshot g prev cur i m e in
      let later =
        rates-from g next n rounds rest
          (inl (ap raw kept ∙ ap some (raw-snapshot_one (positive f i) o m ∙ t))) in
      ap
        (λ (x : Option (GateSnapshot f)). elim x [
          | none ↦ rates g next rounds
          | some s ↦ s.req_per_sec ∷ rates g next rounds
        ])
        kept
      ∙ ap (λ x. x ∷ rates g next rounds)
          (rate-snapshot_one (positive f i) o m
            ∙ ap (λ d. f.div (f.of_int d) (positive f i)) (delta-rise o m low n l t le lt))
      ∙ ap (λ l. rate (n - low, i) ∷ l) later

  sum_rises :
      (g : String) (low : ℕ) (rounds : List (List (MetricsSnapshot f) × Float64.Float f))
      (r : Rises g low rounds)
      → low + total (λ (x : ℕ × Float64.Float f). x.0) (rises g low rounds r) ≡ final g low rounds r
  sum_rises g low [] r = omega arith
  sum_rises g low ((cur, i) ∷ rounds) (n, m, e, t, le, lt, rest) =
      omega (arith, le, sum_rises g n rounds rest)

  -- Rounds from a first one without previous snapshots, each built on what the round before built,
  -- of a gate whose total is in each, never falls and stays below 2^63: the rate that each round's
  -- snapshot of the gate shows is the rise of the total since the round before over that round's
  -- seconds, of which at most 0 count as 1; and the rises add up to the last total, so that each
  -- request is in the rate of exactly one round.
  pub rates-rises :
      (g : String) (rounds : List (List (MetricsSnapshot f) × Float64.Float f))
      (r : Rises g 0 rounds)
      → (rates g [] rounds ≡ map rate (rises g 0 rounds r))
        × (total (λ (x : ℕ × Float64.Float f). x.0) (rises g 0 rounds r) ≡ final g 0 rounds r)
  unfolding IsLast prev_map lookup
  rates-rises g rounds r =
      (rates-from g [] 0 rounds r (inr (refl, refl)), omega (arith, sum_rises g 0 rounds r))
