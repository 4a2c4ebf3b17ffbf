-- ===== src/Metrics/Middleware/Gauge.antt =====
-- The gauge of active connections and the counter of requests of internal/metrics/middleware.go.
use proxy_centauri.Prelude.{
  ℕ, ◌+◌, String, eq_iff, ◌≡◌, refl, ap, ◌∙◌, Bool, true, false, ◌&&◌, List, [], ◌∷◌, arith,
  if◌then◌else◌, ◌==◌, str_eq, Bool-cases, inl, inr, ℤ, pos, negsuc, ◌+ℤ◌, pos_part, neg_part,
  int_laws,
}
use proxy_centauri.Metrics.Middleware.{
  Prometheus, Metrics, Moment, enters, leaves, aborts, inits, moment, history,
}

-- A request more on the one side is one more on the other.
one_more :
    (b : Bool) (h v v' : ℤ) (x e : ℕ)
    → h +ℤ pos x ≡ v' +ℤ pos e
    → v' ≡ (if b then v +ℤ pos 1 else v)
    → h +ℤ pos x ≡ v +ℤ pos ((if b then 1 else 0) + e)
one_more true h v v' x e p q = p ∙ rw q (omega int_laws)
one_more false h v v' x e p q = p ∙ rw q (ap (λ (n : ℕ). v +ℤ pos n) (omega arith))

one_less :
    (b : Bool) (h v v' : ℤ) (x e : ℕ)
    → h +ℤ pos x ≡ v' +ℤ pos e
    → v' ≡ (if b then v +ℤ negsuc 0 else v)
    → h +ℤ pos ((if b then 1 else 0) + x) ≡ v +ℤ pos e
one_less true h v v' x e p q =
    let r : h +ℤ pos x ≡ v +ℤ negsuc 0 +ℤ pos e = p ∙ rw q in
    omega (int_laws, ap pos_part r, ap neg_part r)
one_less false h v v' x e p q = ap (λ (n : ℕ). h +ℤ pos n) (omega arith) ∙ p ∙ rw q

counted_more :
    (b : Bool) (h v v' : ℤ) (e : ℕ)
    → h ≡ v' +ℤ pos e
    → v' ≡ (if b then v +ℤ pos 1 else v)
    → h ≡ v +ℤ pos ((if b then 1 else 0) + e)
counted_more true h v v' e p q = p ∙ rw q (omega int_laws)
counted_more false h v v' e p q = p ∙ rw q (ap (λ (n : ℕ). v +ℤ pos n) (omega arith))

plus_none : (v : ℤ) → v ≡ v +ℤ pos 0
plus_none v = omega int_laws

add_zero : (b : Bool) (v v' : ℤ) → v' ≡ (if b then v +ℤ pos 0 else v) → v' ≡ v
unfolding ◌+ℤ◌
add_zero b v v' h = ground (arith, h)

-- How many requests of a gate have entered and not left, counted from `n`; those that a panic
-- ended are among them.
module _ (p : Prometheus) where
  open p use {counter_value, gauge_value}

  abbrev pub entries : String → List (Moment p) → ℕ
  entries gate [] = 0
  entries gate (enters g ∷ xs) = (if str_eq g gate then 1 else 0) + entries gate xs
  entries gate (leaves g status ∷ xs) = entries gate xs
  entries gate (aborts g ∷ xs) = entries gate xs
  entries gate (inits g ∷ xs) = entries gate xs

  abbrev pub exits : String → List (Moment p) → ℕ
  exits gate [] = 0
  exits gate (enters g ∷ xs) = exits gate xs
  exits gate (leaves g status ∷ xs) = (if str_eq g gate then 1 else 0) + exits gate xs
  exits gate (aborts g ∷ xs) = exits gate xs
  exits gate (inits g ∷ xs) = exits gate xs

  abbrev pub exits_with : String → ℕ → List (Moment p) → ℕ
  exits_with gate code [] = 0
  exits_with gate code (enters g ∷ xs) = exits_with gate code xs
  exits_with gate code (leaves g status ∷ xs) =
      (if str_eq g gate && status == code then 1 else 0) + exits_with gate code xs
  exits_with gate code (aborts g ∷ xs) = exits_with gate code xs
  exits_with gate code (inits g ∷ xs) = exits_with gate code xs

  -- The requests of a gate that left, and its starts.
  abbrev pub observed : String → List (Moment p) → ℕ
  observed gate [] = 0
  observed gate (enters g ∷ xs) = observed gate xs
  observed gate (leaves g status ∷ xs) = (if str_eq g gate then 1 else 0) + observed gate xs
  observed gate (aborts g ∷ xs) = observed gate xs
  observed gate (inits g ∷ xs) = (if str_eq g gate then 1 else 0) + observed gate xs

  gauge-add :
      (g gate : String) (d : ℤ) (v : p.GaugeVec)
      → gauge_value (p.gauge_add g d v) gate
        ≡ (if str_eq g gate then gauge_value v gate +ℤ d else gauge_value v gate)
  gauge-add g gate d v = elim (Bool-cases (str_eq g gate)) [
    | inl e ↦ rw (e, (eq_iff g gate).0 e) (p.gauge_add_self gate d v)
    | inr e ↦ rw e (p.gauge_add_ne g gate d v (ground (arith, eq_iff g gate)))
  ]

  counter-add :
      (g gate : String) (s c : ℕ) (d : ℤ) (v : p.CounterVec)
      → counter_value (p.counter_add g s d v) gate c
        ≡ (if str_eq g gate && s == c then counter_value v gate c +ℤ d else counter_value v gate c)
  counter-add g gate s c d v = ground (
    arith,
    eq_iff g gate,
    p.counter_add_self gate c d v,
    p.counter_add_gate g gate s c d v,
    p.counter_add_status g gate s c d v,
  )

  gauge-history :
      (xs : List (Moment p)) (m : Metrics p) (gate : String)
      → gauge_value (history p xs m).active_conns gate +ℤ pos (exits gate xs)
        ≡ gauge_value m.active_conns gate +ℤ pos (entries gate xs)
  unfolding history moment
  gauge-history [] m gate = refl
  gauge-history (enters g ∷ xs) m gate =
      one_more (str_eq g gate) _ _ _ _ _ (gauge-history xs (moment p (enters g) m) gate)
        (gauge-add g gate (pos 1) m.active_conns)
  gauge-history (leaves g status ∷ xs) m gate =
      one_less (str_eq g gate) _ _ _ _ _ (gauge-history xs (moment p (leaves g status) m) gate)
        (gauge-add g gate (negsuc 0) m.active_conns)
  gauge-history (aborts g ∷ xs) m gate = gauge-history xs m gate
  gauge-history (inits g ∷ xs) m gate =
      gauge-history xs (moment p (inits g) m) gate
      ∙ ap (λ v. v +ℤ pos (entries gate xs))
          (add_zero (str_eq g gate) _ _ (gauge-add g gate (pos 0) m.active_conns))

  requests-history :
      (xs : List (Moment p)) (m : Metrics p) (gate : String) (code : ℕ)
      → counter_value (history p xs m).req_total gate code
        ≡ counter_value m.req_total gate code +ℤ pos (exits_with gate code xs)
  unfolding history moment
  requests-history [] m gate code = plus_none _
  requests-history (enters g ∷ xs) m gate code =
      requests-history xs (moment p (enters g) m) gate code
  requests-history (leaves g status ∷ xs) m gate code =
      counted_more (str_eq g gate && status == code) _ _ _ _
        (requests-history xs (moment p (leaves g status) m) gate code)
        (counter-add g gate status code (pos 1) m.req_total)
  requests-history (aborts g ∷ xs) m gate code = requests-history xs m gate code
  requests-history (inits g ∷ xs) m gate code =
      requests-history xs (moment p (inits g) m) gate code
      ∙ ap (λ v. v +ℤ pos (exits_with gate code xs))
          (add_zero (str_eq g gate && 200 == code) _ _
            (counter-add g gate 200 code (pos 0) m.req_total))

  durations-history :
      (xs : List (Moment p)) (m : Metrics p) (gate : String)
      → gauge_value (history p xs m).req_dur gate
        ≡ gauge_value m.req_dur gate +ℤ pos (observed gate xs)
  unfolding history moment
  durations-history [] m gate = plus_none _
  durations-history (enters g ∷ xs) m gate = durations-history xs (moment p (enters g) m) gate
  durations-history (leaves g status ∷ xs) m gate =
      counted_more (str_eq g gate) _ _ _ _
        (durations-history xs (moment p (leaves g status) m) gate)
        (gauge-add g gate (pos 1) m.req_dur)
  durations-history (aborts g ∷ xs) m gate = durations-history xs m gate
  durations-history (inits g ∷ xs) m gate =
      counted_more (str_eq g gate) _ _ _ _ (durations-history xs (moment p (inits g) m) gate)
        (gauge-add g gate (pos 1) m.req_dur)

  -- After any history of concurrent requests, panics included, the active connections of a gate
  -- are those before it and the requests that entered less those that left: a request that a panic
  -- ended stays counted for ever. The requests of a gate counted under a status code are those before
  -- and the ones that left with that code, each once; a request that a panic ended is not counted,
  -- and a start of the gate counts none. The durations of a gate that were observed are those
  -- before, one for each request that left, and one for each start of the gate, when there was no
  -- request.
  pub metrics-history :
      (xs : List (Moment p)) (m : Metrics p) (gate : String) (code : ℕ)
      → (gauge_value (history p xs m).active_conns gate +ℤ pos (exits gate xs)
          ≡ gauge_value m.active_conns gate +ℤ pos (entries gate xs))
        × (counter_value (history p xs m).req_total gate code
            ≡ counter_value m.req_total gate code +ℤ pos (exits_with gate code xs))
        × (gauge_value (history p xs m).req_dur gate
            ≡ gauge_value m.req_dur gate +ℤ pos (observed gate xs))
  metrics-history xs m gate code =
      (gauge-history xs m gate, requests-history xs m gate code, durations-history xs m gate)
