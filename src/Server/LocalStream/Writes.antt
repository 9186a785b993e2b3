-- ===== src/Server/LocalStream/Writes.antt =====
-- What reaches the other side of a writer that may write short or fail.
use ptymux.Server.LocalStream.{
  StreamError, Result, ok, err, WriteOutcome, wrote, failed, Sink, write_all, after_header,
  write_local_stream_frame, frame_bytes, check_length, control_not_empty,
}
use ptymux.Prelude.{
  ℕ, ◌≤◌, ◌<◌, ◌≡◌, refl, sym, ap, ◌∙◌, subst, ◌≢◌, false, Option, none, some, List, [], ◌∷◌, ◌++◌,
  append_assoc, arith, ◌==◌, length, take, drop, take-append-drop, length-drop, Bytes, if-intro,
}

-- The bytes are the first of the text, and all of it exactly when the result is ok.
pub record IsPrefixOf (s : Bytes) (k : Sink) : Type 0 where
  pub cut : (rest : Bytes) × (k.written ++ rest ≡ s)
  pub whole : k.result ≡ some (ok tt) → k.written ≡ s

write_all-IsPrefixOf : (outs : List WriteOutcome) (s : Bytes) → IsPrefixOf s (write_all outs s)
unfolding write_all
write_all-IsPrefixOf outs [] = record { cut = ([], refl); whole = λ _. refl }
write_all-IsPrefixOf [] (b ∷ s) = record { cut = (b ∷ s, refl); whole = λ e. cc }
write_all-IsPrefixOf (failed n ∷ outs) (b ∷ s) = record {
  cut = (drop n (b ∷ s), take-append-drop n (b ∷ s));
  whole = λ e. cc;
}
write_all-IsPrefixOf (wrote n ∷ outs) (b ∷ s) =
    let ih : IsPrefixOf (drop n (b ∷ s)) (write_all outs (drop n (b ∷ s))) =
      write_all-IsPrefixOf outs (drop n (b ∷ s)) in
    if-intro (IsPrefixOf (b ∷ s)) (n == 0) (λ _. record { cut = (b ∷ s, refl); whole = λ e. cc })
      (λ _. record {
        cut = (
          ih.cut.0,
          append_assoc (take n (b ∷ s)) _ _
              ∙ ap (◌++◌ (take n (b ∷ s))) ih.cut.1
              ∙ take-append-drop n (b ∷ s),
        );
        whole = λ e. ap (◌++◌ (take n (b ∷ s))) (ih.whole e) ∙ take-append-drop n (b ∷ s);
      })

stopped :
    (h : Sink) (s t : Bytes) → IsPrefixOf s h → h.result ≢ some (ok tt) → IsPrefixOf (s ++ t) h
stopped h s t v no_result = record {
  cut = (v.cut.0 ++ t, sym (append_assoc h.written v.cut.0 t) ∙ ap (λ x. x ++ t) v.cut.1);
  whole = λ e. absurd (no_result e);
}

after_header-IsPrefixOf :
    (h : Sink) (s t : Bytes) (r : Option (Result (Unit {0})))
    → h.result ≡ r
    → IsPrefixOf s h
    → IsPrefixOf (s ++ t) (after_header h t)
unfolding after_header
after_header-IsPrefixOf h s t none e v = rw (e, after_header) (stopped h s t v (λ k. cc))
after_header-IsPrefixOf h s t (some (err x)) e v = rw (e, after_header) (stopped h s t v (λ k. cc))
after_header-IsPrefixOf h s t (some (ok tt)) e v =
    let p : IsPrefixOf t (write_all h.next t) = write_all-IsPrefixOf h.next t in
    rw (e, after_header)
      (record {
        cut = (
          p.cut.0,
          append_assoc h.written _ _ ∙ ap (◌++◌ h.written) p.cut.1 ∙ ap (λ x. x ++ t) (v.whole e),
        );
        whole = λ k. ap (◌++◌ h.written) (p.whole k) ∙ ap (λ x. x ++ t) (v.whole e);
      })

frame-ok :
    (outs : List WriteOutcome) (ty : ℕ) (payload : Bytes)
    → check_length control_not_empty ty (length payload) ≡ ok tt
    → write_local_stream_frame outs ty payload
      ≡ after_header
          (write_all outs (take 10 (frame_bytes ty payload)))
          (drop 10 (frame_bytes ty payload))
unfolding write_local_stream_frame
frame-ok outs ty payload h = rw (h, write_local_stream_frame) refl

-- Whatever the writer does: a frame that the rules allow reaches it as a prefix of the bytes of
-- the frame, and as all of them if the call returns without error; a frame that the rules refuse
-- makes no call of the writer, writes nothing and returns their error.
pub write_local_stream_frame-IsPrefixOf :
    (outs : List WriteOutcome) (ty : ℕ) (payload : Bytes)
    → (check_length control_not_empty ty (length payload) ≡ ok tt
        → IsPrefixOf (frame_bytes ty payload) (write_local_stream_frame outs ty payload))
      × ((e : StreamError)
          → check_length control_not_empty ty (length payload) ≡ err e
          → write_local_stream_frame outs ty payload
            ≡ record { written = []; next = outs; result = some (err e) })
unfolding write_local_stream_frame
write_local_stream_frame-IsPrefixOf outs ty payload = (
  λ h.
      subst (λ k. IsPrefixOf (frame_bytes ty payload) k) (sym (frame-ok outs ty payload h))
        (subst
          (λ x. IsPrefixOf x (
            after_header (write_all outs (take 10 (frame_bytes ty payload)))
              (drop 10 (frame_bytes ty payload))))
          (take-append-drop 10 (frame_bytes ty payload))
          (after_header-IsPrefixOf (write_all outs (take 10 (frame_bytes ty payload)))
            (take 10 (frame_bytes ty payload)) (drop 10 (frame_bytes ty payload)) _ refl
            (write_all-IsPrefixOf outs (take 10 (frame_bytes ty payload))))),
  λ e h. rw (h, write_local_stream_frame) refl,
)

-- A writer that takes a byte at least in each call.
abbrev pub Progresses : List WriteOutcome → Type 0
Progresses [] = Unit {0}
Progresses (failed n ∷ outs) = ⊥
Progresses (wrote n ∷ outs) = (0 < n) × Progresses outs

-- `writeAll` returns without error, with the whole text written, if the writer makes progress in
-- each of its next calls and there are as many of these as the text has bytes.
pub write_all-Progresses :
    (outs : List WriteOutcome) (s : Bytes)
    → Progresses outs
    → length s ≤ length outs
    → ((write_all outs s).result ≡ some (ok tt)) × ((write_all outs s).written ≡ s)
unfolding write_all
write_all-Progresses outs [] p h = (refl, refl)
write_all-Progresses [] (b ∷ s) p h = absurd (omega arith)
write_all-Progresses (failed n ∷ outs) (b ∷ s) p h = absurd p
write_all-Progresses (wrote n ∷ outs) (b ∷ s) p h =
    let ih =
      write_all-Progresses outs (drop n (b ∷ s)) p.1 (omega (arith, length-drop n (b ∷ s), p.0)) in
    let more : (n == 0) ≡ false = ground (arith, p.0) in
    rw more (ih.0, ap (◌++◌ (take n (b ∷ s))) ih.1 ∙ take-append-drop n (b ∷ s))
