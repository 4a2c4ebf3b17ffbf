-- ===== src/Metrics/Store/Rows.antt =====
-- The rows of the signals that internal/metrics/store.go keeps, in the order of their ids.
use proxy_centauri.Prelude.{
  ℕ, ◌≤◌, ◌<◌, ◌≡◌, refl, ap, ◌∙◌, true, false, List, [], ◌∷◌, ◌++◌, All, arith, if◌then◌else◌, ℤ,
}
use mathlib.Core.List.{append-nil}
use proxy_centauri.Metrics.Store.{
  ThreatSignal, unresolved, insert_desc, order_desc, has_id, mark_resolved,
}

abbrev pub dismiss : ℤ → List ThreatSignal → List ThreatSignal
dismiss id [] = []
dismiss id (sig ∷ sigs) =
    let rest = dismiss id sigs in if has_id id sig.id then rest else sig ∷ rest

-- Rows in the order of their ids.
abbrev pub IsAscending : List ThreatSignal → Type 0
IsAscending [] = Unit
IsAscending (row ∷ rows) = All (λ later. row.id < later.id) rows × IsAscending rows

abbrev pub rev : List ThreatSignal → List ThreatSignal
rev [] = []
rev (row ∷ rows) = rev rows ++ row ∷ []

module _ (P : ThreatSignal → Type 0) where
  pub All-append : (xs ys : List ThreatSignal) → All P xs → All P ys → All P (xs ++ ys)
  All-append [] ys h k = k
  All-append (x ∷ xs) ys h k = (h.0, All-append xs ys h.1 k)

  pub All-rev : (xs : List ThreatSignal) → All P xs → All P (rev xs)
  All-rev [] h = tt
  All-rev (x ∷ xs) h = All-append (rev xs) (x ∷ []) (All-rev xs h.1) (h.0, tt)

  pub All-unresolved : (xs : List ThreatSignal) → All P xs → All P (unresolved xs)
  unfolding unresolved
  All-unresolved [] h = tt
  All-unresolved (x ∷ xs) h =
      elim x.resolved as (λ b. All P (if b then unresolved xs else x ∷ unresolved xs)) [
        | true ↦ All-unresolved xs h.1
        | false ↦ (h.0, All-unresolved xs h.1)
      ]

insert-low :
    (x : ThreatSignal) (ys : List ThreatSignal)
    → All (λ later. x.id < later.id) ys
    → insert_desc x ys ≡ ys ++ x ∷ []
unfolding insert_desc
insert-low x [] h = refl
insert-low x (y ∷ ys) h = ground (arith, h.0, insert-low x ys h.1)

-- ORDER BY id DESC turns the rows round.
pub order-rev : (rows : List ThreatSignal) → IsAscending rows → order_desc rows ≡ rev rows
unfolding order_desc
order-rev [] h = refl
order-rev (x ∷ rows) h =
    ap (insert_desc x) (order-rev rows h.1) ∙ insert-low x (rev rows) (All-rev _ rows h.0)

pub unresolved-IsAscending :
    (rows : List ThreatSignal) → IsAscending rows → IsAscending (unresolved rows)
unfolding unresolved
unresolved-IsAscending [] h = tt
unresolved-IsAscending (x ∷ rows) h =
    elim x.resolved as (λ b. IsAscending (if b then unresolved rows else x ∷ unresolved rows)) [
      | true ↦ unresolved-IsAscending rows h.1
      | false ↦ (All-unresolved _ rows h.0, unresolved-IsAscending rows h.1)
    ]

pub append-IsAscending :
    (rows : List ThreatSignal) (row : ThreatSignal)
    → IsAscending rows
    → All (λ old. old.id < row.id) rows
    → IsAscending (rows ++ row ∷ [])
append-IsAscending [] row h k = (tt, tt)
append-IsAscending (x ∷ rows) row h k =
    (All-append _ rows (row ∷ []) h.0 (k.0, tt), append-IsAscending rows row h.1 k.1)

pub unresolved-append :
    (xs ys : List ThreatSignal) → unresolved (xs ++ ys) ≡ unresolved xs ++ unresolved ys
unfolding unresolved
unresolved-append [] ys = refl
unresolved-append (x ∷ xs) ys = ground (arith, unresolved-append xs ys)

pub rev-append_last : (xs : List ThreatSignal) (y : ThreatSignal) → rev (xs ++ y ∷ []) ≡ y ∷ rev xs
rev-append_last [] y = refl
rev-append_last (x ∷ xs) y = ap (λ l. l ++ x ∷ []) (rev-append_last xs y)

dismiss-append :
    (id : ℤ) (xs ys : List ThreatSignal) → dismiss id (xs ++ ys) ≡ dismiss id xs ++ dismiss id ys
dismiss-append id [] ys = refl
dismiss-append id (x ∷ xs) ys = ground (arith, dismiss-append id xs ys)

pub rev-dismiss : (id : ℤ) (xs : List ThreatSignal) → rev (dismiss id xs) ≡ dismiss id (rev xs)
rev-dismiss id [] = refl
rev-dismiss id (x ∷ xs) = ground (
  arith,
  rev-dismiss id xs,
  dismiss-append id (rev xs) (x ∷ []),
  append-nil (dismiss id (rev xs)),
)

pub unresolved-mark :
    (id : ℤ) (rows : List ThreatSignal)
    → unresolved (mark_resolved id rows) ≡ dismiss id (unresolved rows)
unfolding unresolved mark_resolved
unresolved-mark id [] = refl
unresolved-mark id (x ∷ rows) = ground (arith, unresolved-mark id rows)

module _ (P : ℕ → Type 0) where
  pub All-mark :
      (id : ℤ) (rows : List ThreatSignal)
      → All (λ row. P row.id) rows
      → All (λ row. P row.id) (mark_resolved id rows)
  unfolding mark_resolved
  All-mark id [] h = tt
  All-mark id (x ∷ rows) h = (
    elim (has_id id x.id) as (λ b. P (if b then record x { resolved = true } else x).id) [
      | true ↦ h.0
      | false ↦ h.0
    ],
    All-mark id rows h.1,
  )

pub mark-IsAscending :
    (id : ℤ) (rows : List ThreatSignal) → IsAscending rows → IsAscending (mark_resolved id rows)
unfolding mark_resolved
mark-IsAscending id [] h = tt
mark-IsAscending id (x ∷ rows) h =
    let later = All-mark (λ n. x.id < n) id rows h.0 in
    (
      elim (has_id id x.id)
          as (λ b.
            All (λ row. (if b then record x { resolved = true } else x).id < row.id)
              (mark_resolved id rows)) [ true ↦ later | false ↦ later ],
      mark-IsAscending id rows h.1,
    )

pub All-weaken :
    (n m : ℕ) (rows : List ThreatSignal)
    → n ≤ m
    → All (λ row. row.id < n) rows
    → All (λ row. row.id < m) rows
All-weaken n m [] h k = tt
All-weaken n m (x ∷ rows) h k = (omega arith, All-weaken n m rows h k.1)
