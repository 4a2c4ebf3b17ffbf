-- ===== src/Oracle/Signals/Requests.antt =====
-- What requests to internal/oracle/signals.go do to the signals.
use proxy_centauri.Prelude.{
  ℕ, ◌^◌, ◌<◌, ◌≡◌, ◌≢◌, refl, ap, sym, ◌∙◌, String, Bool, true, some, List, [], ◌∷◌, ◌++◌, arith,
  take, ℤ, pos,
}
use proxy_centauri.Http.Text.{has, before, behind}
use proxy_centauri.Numbers.{parse_int, decimal, parse_int-decimal, split-decimal}
use proxy_centauri.Metrics.Store.{
  ThreatSignal, Store, Statement, resolves, new, run, apply, resolve_signal, list_signals,
}
use proxy_centauri.Metrics.Store.Rows.{dismiss}
use proxy_centauri.Metrics.Store.Active.{spec_run, spec_apply, Board, list_signals-run}
use proxy_centauri.Oracle.Signals.{
  Response, lists, no_content, status, strip_prefix, resolve_handler, handle,
}

abbrev onto : String → String → String
onto String.[] t = t
onto (String.◌∷◌ c s) t = String.◌∷◌ c (onto s t)

-- The path that dismisses a signal.
unfoldable pub resolve_path : ℕ → String
resolve_path id = onto "/oracle/signals/" (decimal id "/resolve")

strip-onto : (p s : String) → strip_prefix p (onto p s) ≡ some s
unfolding strip_prefix
strip-onto String.[] s = refl
strip-onto (String.◌∷◌ c p) s = ground (arith, strip-onto p s)

resolve-decimal :
    {Float : Type 0} (id : ℕ) (s : Store Float)
    → id < 2 ^ 63
    → resolve_handler true "POST" (decimal id "/resolve") s
      ≡ (no_content, (resolve_signal true (pos id) s).1)
unfolding resolve_handler has before behind
resolve-decimal id s h =
    let (a, b, c) = split-decimal id "/resolve" refl in
    let number : parse_int (before 47 (decimal id "/resolve")) ≡ some (pos id) =
      ap parse_int b ∙ parse_int-decimal id h in
    rw (a, c, number) refl

run-append :
    {Float : Type 0} (xs ys : List (Statement Float)) (s : Store Float)
    → run (xs ++ ys) s ≡ run ys (run xs s)
unfolding run
run-append [] ys s = refl
run-append (x ∷ xs) ys s = run-append xs ys (apply x s)

spec_run-append :
    {Float : Type 0} (xs ys : List (Statement Float)) (b : Board)
    → spec_run (xs ++ ys) b ≡ spec_run ys (spec_run xs b)
spec_run-append [] ys b = refl
spec_run-append (x ∷ xs) ys b = spec_run-append xs ys (spec_apply x b)

handle-post :
    {Float : Type 0} (id : ℕ) (s : Store Float)
    → id < 2 ^ 63
    → handle true "POST" (resolve_path id) s ≡ (no_content, (resolve_signal true (pos id) s).1)
unfolding handle resolve_path
handle-post id s h = resolve-decimal id s h

handle-get :
    {Float : Type 0} (s : Store Float) (signals : List ThreatSignal)
    → list_signals true 100 s ≡ some signals
    → (handle true "GET" "/oracle/signals" s).0 ≡ lists signals
unfolding handle
handle-get s signals e = ground (arith, e)

abbrev pub empty : Board
empty = record { active = []; next_id = 1 }

listed :
    {Float : Type 0} (xs : List (Statement Float)) (id : ℤ)
    → list_signals true 100 (resolve_signal true id (run xs new)).1
      ≡ some (take 100 (dismiss id (spec_run xs empty).active))
unfolding run apply
listed xs id =
    let more = xs ++ resolves true id ∷ [] in
    ap (list_signals true 100) (sym (run-append xs (resolves true id ∷ []) new))
    ∙ list_signals-run more 100
    ∙ ap (λ (b : Board). some (take 100 b.active))
        (spec_run-append xs (resolves true id ∷ []) empty)

-- After any statements on a new database, a POST to the path that has the digits of an id below
-- 2^63, with a database that takes its statement, is answered 204, and a GET after it lists the
-- newest 100 of the signals that were active but for the one with that id.
pub handle-resolve_path :
    {Float : Type 0} (xs : List (Statement Float)) (id : ℕ)
    → id < 2 ^ 63
    → let (r, s) = handle true "POST" (resolve_path id) (run xs new) in
      (r ≡ no_content)
      × ((handle true "GET" "/oracle/signals" s).0
          ≡ lists (take 100 (dismiss (pos id) (spec_run xs empty).active)))
handle-resolve_path {Float} xs id h =
    let s = run xs (new {Float = Float}) in
    let done = handle-post id s h in
    (
      ap (λ (x : Response × Store Float). x.0) done,
      ap (λ (x : Response × Store Float). (handle true "GET" "/oracle/signals" x.1).0) done
          ∙ handle-get (resolve_signal true (pos id) s).1 _ (listed xs (pos id)),
    )

-- A request that is answered anything but 204, of whatever method and path, leaves the store as it
-- was.
pub handle-unchanged :
    {Float : Type 0} (taken : Bool) (method path : String) (s : Store Float)
    → status (handle taken method path s).0 ≢ 204
    → (handle taken method path s).1 ≡ s
unfolding handle
handle-unchanged taken method path s h = ground (arith, h)
