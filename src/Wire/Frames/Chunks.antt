-- ===== src/Wire/Frames/Chunks.antt =====
-- The frame loop does not depend on where TCP cuts the stream.
use postgres_mapepire_proxy.Prelude.{
  ℕ, zero, suc, ◌+◌, ◌<◌, ◌≤◌, ◌≡◌, refl, sym, ap, ◌∙◌, List, [], ◌∷◌, ◌++◌, ◌⊎◌, inl, inr, arith,
  length, append_assoc, append-nil, subst,
}
use postgres_mapepire_proxy.Prelude.Results.{Result, ok, err, ◌>>=◌}
use postgres_mapepire_proxy.Wire.Words.{Bytes, WireError}
use postgres_mapepire_proxy.Wire.Frames.{
  FrontendMessage, throws, waits, takes, next_frame, consume_loop, finish_consume,
  consume_frontend_messages,
}
use postgres_mapepire_proxy.Wire.Frames.Steps.{next_frame-Fits, next_frame-Extends, Head-cases}

-- A frame taken is not longer than the limit, and shortens the buffer by five bytes or more.
pub takes_fits :
    (max : ℕ) (rest : Bytes) {full : ℕ} {m : FrontendMessage} {tail : Bytes}
    → next_frame max rest ≡ takes full m tail
    → (5 ≤ full) × (full ≤ max) × (length tail + full ≡ length rest)
takes_fits max rest e = rw e at (next_frame-Fits max rest)

pub waits_fits :
    (max : ℕ) (rest : Bytes) → next_frame max rest ≡ waits → (length rest < 5) ⊎ (length rest < max)
waits_fits max rest e = rw e at (next_frame-Fits max rest)

module _ (f max offset : ℕ) (rest : Bytes) (ms : List FrontendMessage) where
  pub consume_loop-throws :
      {e : WireError}
      → next_frame max rest ≡ throws e
      → consume_loop (suc f) max offset rest ms ≡ err e
  unfolding consume_loop
  consume_loop-throws r = rw (r, consume_loop)

  pub consume_loop-waits :
      next_frame max rest ≡ waits → consume_loop (suc f) max offset rest ms ≡ ok (ms, offset, rest)
  unfolding consume_loop
  consume_loop-waits r = rw (r, consume_loop)

  pub consume_loop-takes :
      {full : ℕ} {m : FrontendMessage} {tail : Bytes}
      → next_frame max rest ≡ takes full m tail
      → consume_loop (suc f) max offset rest ms
        ≡ consume_loop f max (offset + full) tail (ms ++ m ∷ [])
  unfolding consume_loop
  consume_loop-takes r = rw (r, consume_loop)

-- More rounds than there are bytes make no difference.
pub consume_loop_fuel :
    (f g max offset : ℕ) (rest : Bytes) (ms : List FrontendMessage)
    → length rest < f
    → length rest < g
    → consume_loop f max offset rest ms ≡ consume_loop g max offset rest ms
consume_loop_fuel zero g max offset rest ms h k = absurd (omega arith)
consume_loop_fuel (suc f) zero max offset rest ms h k = absurd (omega arith)
consume_loop_fuel (suc f) (suc g) max offset rest ms h k = elim (Head-cases (next_frame max rest)) [
  | inl (e, r) ↦
      consume_loop-throws f max offset rest ms r ∙ sym (consume_loop-throws g max offset rest ms r)
  | inr (inl r) ↦
      consume_loop-waits f max offset rest ms r ∙ sym (consume_loop-waits g max offset rest ms r)
  | inr (inr (full, m, tail, r)) ↦
      let fits = takes_fits max rest r in
      consume_loop-takes f max offset rest ms r
      ∙ consume_loop_fuel f g max (offset + full) tail (ms ++ m ∷ []) (omega arith) (omega arith)
      ∙ sym (consume_loop-takes g max offset rest ms r)
]

-- The messages of a run, without its offset.
abbrev pub outcome :
    Result WireError (List FrontendMessage × ℕ × Bytes)
    → Result WireError (List FrontendMessage × Bytes)
outcome (err e) = err e
outcome (ok (ms, offset, rest)) = ok (ms, rest)

abbrev pub prepend :
    List FrontendMessage
    → Result WireError (List FrontendMessage × Bytes)
    → Result WireError (List FrontendMessage × Bytes)
prepend ms (err e) = err e
prepend ms (ok (ns, rest)) = ok (ms ++ ns, rest)

-- The accumulator and the offset are carried along only.
pub consume_loop_acc :
    (f max offset : ℕ) (rest : Bytes) (ms : List FrontendMessage) (offset' : ℕ)
    (ns : List FrontendMessage)
    → outcome (consume_loop f max offset rest (ms ++ ns))
      ≡ prepend ms (outcome (consume_loop f max offset' rest ns))
unfolding consume_loop
consume_loop_acc zero max offset rest ms offset' ns = refl
consume_loop_acc (suc f) max offset rest ms offset' ns = elim (Head-cases (next_frame max rest)) [
  | inl (e, r) ↦ cc (
    consume_loop-throws f max offset rest (ms ++ ns) r,
    consume_loop-throws f max offset' rest ns r,
  )
  | inr (inl r) ↦
      rw
        (
          consume_loop-waits f max offset rest (ms ++ ns) r,
          consume_loop-waits f max offset' rest ns r,
        )
        refl
  | inr (inr (full, m, tail, r)) ↦
      rw
        (
          consume_loop-takes f max offset rest (ms ++ ns) r,
          consume_loop-takes f max offset' rest ns r,
        )
        (rw append_assoc
          (consume_loop_acc f max (offset + full) tail ms (offset' + full) (ns ++ m ∷ [])))
]

-- The offset counts the bytes taken, and the run ends where no whole frame is left.
pub consume_loop_ends :
    (f max offset : ℕ) (rest : Bytes) (ms : List FrontendMessage) {ns : List FrontendMessage}
    {stop : ℕ} {left : Bytes}
    → length rest < f
    → consume_loop f max offset rest ms ≡ ok (ns, stop, left)
    → (stop + length left ≡ offset + length rest) × (next_frame max left ≡ waits)
consume_loop_ends zero max offset rest ms h e = absurd (omega arith)
consume_loop_ends (suc f) max offset rest ms h e = elim (Head-cases (next_frame max rest)) [
  | inl (x, r) ↦ cc (consume_loop-throws f max offset rest ms r)
  | inr (inl r) ↦ ground (arith, consume_loop-waits f max offset rest ms r)
  | inr (inr (full, m, tail, r)) ↦
      let fits = takes_fits max rest r in
      let (sum, stops) =
        consume_loop_ends f max (offset + full) tail (ms ++ m ∷ []) (omega arith)
          (sym (consume_loop-takes f max offset rest ms r) ∙ e) in
      (omega arith, stops)
]

-- With a limit of five bytes or more the test behind the loop never fires.
pub consume-eq :
    (max : ℕ) (buffer : Bytes)
    → 5 ≤ max
    → consume_frontend_messages max buffer
      ≡ outcome (consume_loop (suc (length buffer)) max 0 buffer [])
unfolding consume_frontend_messages
consume-eq max buffer h = go (consume_loop (suc (length buffer)) max 0 buffer []) refl
  where
    go :
        (r : Result WireError (List FrontendMessage × ℕ × Bytes))
        → consume_loop (suc (length buffer)) max 0 buffer [] ≡ r
        → (r >>= finish_consume max buffer) ≡ outcome r
    go (err e) p = refl
    go (ok (ms, offset, rest)) p =
        let (sum, stops) =
          consume_loop_ends (suc (length buffer)) max 0 buffer [] (omega arith) p in
        let small = waits_fits max rest stops in ground arith

prepend-nil : (r : Result WireError (List FrontendMessage × Bytes)) → prepend [] r ≡ r
prepend-nil (ok (ms, rest)) = refl
prepend-nil (err e) = refl

outcome-acc :
    (f max offset : ℕ) (rest : Bytes) (ms : List FrontendMessage)
    → outcome (consume_loop f max offset rest ms)
      ≡ prepend ms (outcome (consume_loop f max 0 rest []))
outcome-acc f max offset rest ms =
    subst
      (λ ks.
        outcome (consume_loop f max offset rest ks)
        ≡ prepend ms (outcome (consume_loop f max 0 rest [])))
      (append-nil ms) (consume_loop_acc f max offset rest ms 0 [])

-- A run over more bytes goes on where the run over the first ones stopped.
consume_loop-append :
    (f g k max offset : ℕ) (rest more : Bytes) (ms : List FrontendMessage)
    {ns : List FrontendMessage} {stop : ℕ} {left : Bytes}
    → length rest < f
    → length (rest ++ more) < g
    → length (left ++ more) < k
    → consume_loop f max offset rest ms ≡ ok (ns, stop, left)
    → consume_loop g max offset (rest ++ more) ms ≡ consume_loop k max stop (left ++ more) ns
consume_loop-append zero g k max offset rest more ms h h' h'' e = absurd (omega arith)
consume_loop-append (suc f) zero k max offset rest more ms h h' h'' e = absurd (omega arith)
consume_loop-append (suc f) (suc g) k max offset rest more ms {ns} {stop} {left} h h' h'' e =
    elim (Head-cases (next_frame max rest)) [
      | inl (x, r) ↦ cc (consume_loop-throws f max offset rest ms r)
      | inr (inl r) ↦
          let same = sym (consume_loop-waits f max offset rest ms r) ∙ e in
          let es : offset ≡ stop = ground arith in
          let el : rest ≡ left = cc in
          let en : ms ≡ ns = cc in
          rw (← es, ← en)
            (subst
              (λ l.
                consume_loop (suc g) max offset (rest ++ more) ms
                ≡ consume_loop k max offset (l ++ more) ms)
              el
              (consume_loop_fuel (suc g) k max offset (rest ++ more) ms h'
                (subst (λ l. length (l ++ more) < k) (sym el) h'')))
      | inr (inr (full, m, tail, r)) ↦
          let fits = takes_fits max rest r in
          let r' : next_frame max (rest ++ more) ≡ takes full m (tail ++ more) =
            rw r at (next_frame-Extends max rest more) in
          let fits' = takes_fits max (rest ++ more) r' in
          consume_loop-takes g max offset (rest ++ more) ms r'
          ∙ consume_loop-append f g k max (offset + full) tail more (ms ++ m ∷ []) (omega arith)
              (omega arith) h'' (sym (consume_loop-takes f max offset rest ms r) ∙ e)
    ]

pub outcome-eq-ok :
    (r : Result WireError (List FrontendMessage × ℕ × Bytes)) {ms : List FrontendMessage}
    {left : Bytes}
    → outcome r ≡ ok (ms, left)
    → (stop : ℕ) × (r ≡ ok (ms, stop, left))
outcome-eq-ok (err e) h = cc
outcome-eq-ok (ok (ms, stop, left)) h = (stop, ground arith)

-- What arrives in two chunks is consumed as if it arrived in one: whatever whole frames stand in
-- the first chunk, then the frames of what was left over followed by the second chunk, with the
-- same error if there is one. The limit is five bytes or more.
pub consume_chunks :
    (max : ℕ) (first second : Bytes) (ms : List FrontendMessage) (left : Bytes)
    → 5 ≤ max
    → consume_frontend_messages max first ≡ ok (ms, left)
    → consume_frontend_messages max (first ++ second)
      ≡ prepend ms (consume_frontend_messages max (left ++ second))
consume_chunks max first second ms left h e =
    let (stop, run) = outcome-eq-ok _ (sym (consume-eq max first h) ∙ e) in
    consume-eq max (first ++ second) h
    ∙ ap outcome (
        consume_loop-append (suc (length first)) (suc (length (first ++ second)))
          (suc (length (left ++ second))) max 0 first second [] (omega arith) (omega arith)
          (omega arith) run)
    ∙ outcome-acc (suc (length (left ++ second))) max stop (left ++ second) ms
    ∙ ap (prepend ms) (sym (consume-eq max (left ++ second) h))
