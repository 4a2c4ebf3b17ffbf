-- ===== src/Http/Recorder.antt =====
-- The status that the recorders of internal/metrics/middleware.go and internal/logger/stellar.go
-- report, against the status that the client gets.
use proxy_centauri.Prelude.{
  ℕ, ◌≡◌, refl, Bool, true, false, none, some, List, [], ◌∷◌, All, arith, ◌⊎◌, inl,
}
use proxy_centauri.Http.{
  WriterCall, writes_header, writes, ResponseWriter, call, serve, Wire, wire, is_informational,
  sent, StatusWriter, status_writer, wrap,
}

abbrev pub IsFinal : WriterCall → Type 0
IsFinal (writes_header code) = is_informational code ≡ false
IsFinal (writes b) = Unit

-- A recorder agrees with the wire: it has seen a header or a write just if the wire has its status,
-- and its status is the one that the client gets.
abbrev Agrees : Bool → ℕ → Wire → Type 0
Agrees wrote status w =
    ((wrote ≡ false) × (status ≡ 200) × (w.status ≡ none))
    ⊎ ((wrote ≡ true) × (w.status ≡ some status))

-- The recorders of a gate: the metrics' one round the server's writer, the logger's round that.
abbrev pub Stack : Type 0
Stack = StatusWriter (StatusWriter Wire)

abbrev pub stack : ResponseWriter Stack
stack = status_writer (status_writer wire)

record IsTrue (s : Stack) (w : Wire) : Type 0 where
  same_wire : s.inner.inner ≡ w
  outer : Agrees s.wrote s.status w
  middle : Agrees s.inner.wrote s.inner.status w

call-IsTrue :
    (c : WriterCall) (s : Stack) (w : Wire)
    → IsFinal c
    → IsTrue s w
    → IsTrue (call stack c s) (call wire c w)
unfolding status_writer
call-IsTrue (writes_header code) s w f v = record {
  same_wire = ground arith;
  outer = ground arith;
  middle = ground arith;
}
call-IsTrue (writes b) s w f v = record {
  same_wire = ground arith;
  outer = ground arith;
  middle = ground arith;
}

serve-IsTrue :
    (cs : List WriterCall) (s : Stack) (w : Wire)
    → All IsFinal cs
    → IsTrue s w
    → IsTrue (serve stack cs s) (serve wire cs w)
unfolding serve
serve-IsTrue [] s w f v = v
serve-IsTrue (c ∷ cs) s w f v = serve-IsTrue cs _ _ f.1 (call-IsTrue c s w f.0 v)

Agrees-sent : (wrote : Bool) (status : ℕ) (w : Wire) → Agrees wrote status w → status ≡ sent w
Agrees-sent wrote status w v = ground arith

-- Behind both recorders, on a response that is not begun, a handler that sends no informational
-- header has the effect on the wire that it has without them, and both recorders report the status
-- that the client gets, the implicit 200 of a handler that only writes, or does nothing, included.
pub serve-transparent :
    (cs : List WriterCall) (w : Wire)
    → w.status ≡ none
    → All IsFinal cs
    → let s = serve stack cs (wrap (wrap w)) in
      let w' = serve wire cs w in
      (s.inner.inner ≡ w') × (s.status ≡ sent w') × (s.inner.status ≡ sent w')
serve-transparent cs w h f =
    let v =
      serve-IsTrue cs (wrap (wrap w)) w f
        (record { same_wire = refl; outer = inl (refl, refl, h); middle = inl (refl, refl, h) }) in
    (
      v.same_wire,
      Agrees-sent _ _ (serve wire cs w) v.outer,
      Agrees-sent _ _ (serve wire cs w) v.middle,
    )

stuck :
    (cs : List WriterCall) (s : Stack)
    → s.wrote ≡ true
    → s.inner.wrote ≡ true
    → ((serve stack cs s).status ≡ s.status) × ((serve stack cs s).inner.status ≡ s.inner.status)
unfolding serve status_writer
stuck [] s h k = (refl, refl)
stuck (writes_header code ∷ cs) s h k = ground (arith, stuck cs (call stack (writes_header code) s))
stuck (writes b ∷ cs) s h k = ground (arith, stuck cs (call stack (writes b) s))

no_final :
    (cs : List WriterCall) (s : Stack)
    → s.wrote ≡ true
    → s.inner.wrote ≡ true
    → (s.inner.inner.status ≡ none) ⊎ (s.inner.inner.status ≡ some 200)
    → sent (serve stack cs s).inner.inner ≡ 200
unfolding serve status_writer
no_final [] s h k e = ground arith
no_final (writes_header code ∷ cs) s h k e =
    no_final cs _ (ground arith) (ground arith) (ground arith)
no_final (writes b ∷ cs) s h k e = no_final cs _ (ground arith) (ground arith) (ground arith)

-- On a response that is not begun, where the first header of a handler is informational, as one
-- that a backend sends and the reverse proxy passes on, the recorders report it as the status and
-- drop the final header: whatever the handler does after it, the client gets 200.
pub serve_informational :
    (code : ℕ) (cs : List WriterCall) (w : Wire)
    → w.status ≡ none
    → is_informational code ≡ true
    → let s = serve stack (writes_header code ∷ cs) (wrap (wrap w)) in
      (s.status ≡ code) × (s.inner.status ≡ code) × (sent s.inner.inner ≡ 200)
unfolding serve status_writer
serve_informational code cs w h i =
    let s = call stack (writes_header code) (wrap (wrap w)) in
    let (p, q) = stuck cs s refl refl in (p, q, no_final cs s refl refl (ground arith))
