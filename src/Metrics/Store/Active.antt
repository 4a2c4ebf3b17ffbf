-- ===== src/Metrics/Store/Active.antt =====
-- The signals that internal/metrics/store.go lists, as a stack.
use proxy_centauri.Prelude.{
  ℕ, ◌+◌, ◌<◌, ◌≡◌, refl, ap, ◌∙◌, true, false, some, List, [], ◌∷◌, All, arith, if◌then◌else◌,
  take, ℤ,
}
use proxy_centauri.Metrics.Store.{
  ThreatSignal, Store, Statement, saves, resolves, flushes, logs, save_signal, resolve_signal,
  flush, log_event, unresolved, list_signals, apply, run, new,
}
use proxy_centauri.Metrics.Store.Rows.{
  dismiss, IsAscending, rev, All-append, order-rev, unresolved-IsAscending, append-IsAscending,
  unresolved-append, rev-append_last, rev-dismiss, unresolved-mark, All-mark, mark-IsAscending,
  All-weaken,
}

-- The active signals, the newest first, and the id of the next one.
pub record Board : Type 0 where
  pub active : List ThreatSignal
  pub next_id : ℕ

-- A signal that is saved goes on top, one that is resolved is taken out, wherever it stands.
abbrev pub spec_apply : {Float : Type 0} → Statement Float → Board → Board
spec_apply (saves taken now sig) b =
    if taken
    then record {
      active = record sig { id = b.next_id; ts = now; resolved = false } ∷ b.active;
      next_id = b.next_id + 1;
    }
    else b
spec_apply (resolves taken id) b = if taken then record b { active = dismiss id b.active } else b
spec_apply (flushes taken now gate req err p95) b = b
spec_apply (logs taken now gate kind detail) b = b

abbrev pub spec_run : {Float : Type 0} → List (Statement Float) → Board → Board
spec_run [] b = b
spec_run (x ∷ xs) b = spec_run xs (spec_apply x b)

module _ {Float : Type 0} where
  pub record IsValid (s : Store Float) : Type 0 where
    pub ascending : IsAscending s.threat_signals
    pub below : All (λ row. row.id < s.next_id) s.threat_signals

  abbrev pub board : Store Float → Board
  board s = record { active = rev (unresolved s.threat_signals); next_id = s.next_id }

  save-IsValid :
      (now : ℕ) (sig : ThreatSignal) (s : Store Float)
      → IsValid s
      → IsValid (save_signal true now sig s).1
  unfolding save_signal
  save-IsValid now sig s v =
      let row = record sig { id = s.next_id; ts = now; resolved = false } in
      record {
        ascending = append-IsAscending s.threat_signals row v.ascending v.below;
        below =
            All-append _ s.threat_signals (row ∷ [])
              (All-weaken s.next_id (s.next_id + 1) s.threat_signals (omega arith) v.below)
              (omega arith, tt);
      }

  resolve-IsValid : (id : ℤ) (s : Store Float) → IsValid s → IsValid (resolve_signal true id s).1
  unfolding resolve_signal
  resolve-IsValid id s v = record {
    ascending = mark-IsAscending id s.threat_signals v.ascending;
    below = All-mark (λ n. n < s.next_id) id s.threat_signals v.below;
  }

  pub apply-IsValid : (x : Statement Float) (s : Store Float) → IsValid s → IsValid (apply x s)
  unfolding apply
  apply-IsValid (saves true now sig) s v = save-IsValid now sig s v
  apply-IsValid (saves false now sig) s v = unfold save_signal in v
  apply-IsValid (resolves true id) s v = resolve-IsValid id s v
  apply-IsValid (resolves false id) s v = unfold resolve_signal in v
  apply-IsValid (flushes true now gate req err p95) s v =
      unfold flush in record { ascending = v.ascending; below = v.below }
  apply-IsValid (flushes false now gate req err p95) s v = unfold flush in v
  apply-IsValid (logs true now gate kind detail) s v =
      unfold log_event in record { ascending = v.ascending; below = v.below }
  apply-IsValid (logs false now gate kind detail) s v = unfold log_event in v

  pub board-apply :
      (x : Statement Float) (s : Store Float) → board (apply x s) ≡ spec_apply x (board s)
  unfolding apply unresolved
  board-apply (saves true now sig) s =
      let row = record sig { id = s.next_id; ts = now; resolved = false } in
      unfold save_signal in
      ap
        (λ (l : List ThreatSignal).
          let b : Board = record { active = l; next_id = s.next_id + 1 } in b)
        (ap rev (unresolved-append s.threat_signals (row ∷ []))
          ∙ rev-append_last (unresolved s.threat_signals) row)
  board-apply (saves false now sig) s = unfold save_signal in refl
  board-apply (resolves true id) s =
      unfold resolve_signal in
      ap
        (λ (l : List ThreatSignal). let b : Board = record { active = l; next_id = s.next_id } in b)
        (ap rev (unresolved-mark id s.threat_signals)
          ∙ rev-dismiss id (unresolved s.threat_signals))
  board-apply (resolves false id) s = unfold resolve_signal in refl
  board-apply (flushes true now gate req err p95) s = unfold flush in refl
  board-apply (flushes false now gate req err p95) s = unfold flush in refl
  board-apply (logs true now gate kind detail) s = unfold log_event in refl
  board-apply (logs false now gate kind detail) s = unfold log_event in refl

  pub list-board :
      (limit : ℕ) (s : Store Float)
      → IsValid s
      → list_signals true limit s ≡ some (take limit (board s).active)
  unfolding list_signals
  list-board limit s v =
      ap (λ l. some (take limit l))
        (order-rev (unresolved s.threat_signals)
          (unresolved-IsAscending s.threat_signals v.ascending))

  list-from :
      (xs : List (Statement Float)) (limit : ℕ) (s : Store Float)
      → IsValid s
      → list_signals true limit (run xs s) ≡ some (take limit (spec_run xs (board s)).active)
  unfolding run
  list-from [] limit s v = list-board limit s v
  list-from (x ∷ xs) limit s v =
      list-from xs limit (apply x s) (apply-IsValid x s v)
      ∙ ap (λ b. some (take limit (spec_run xs b).active)) (board-apply x s)

  -- Whatever statements SQLite takes and refuses on a new database, `ListSignals` gives the top of
  -- a stack: a signal that was saved is on top, with an id of its own and its time, until it is
  -- resolved, which takes out it alone, and nothing else changes the stack.
  pub list_signals-run :
      (xs : List (Statement Float)) (limit : ℕ)
      → list_signals true limit (run xs new)
        ≡ some (take limit (spec_run xs (record { active = []; next_id = 1 })).active)
  unfolding new unresolved
  list_signals-run xs limit = list-from xs limit new (record { ascending = tt; below = tt })
