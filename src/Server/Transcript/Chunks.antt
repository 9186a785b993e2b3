-- ===== src/Server/Transcript/Chunks.antt =====
-- `Write` takes runs of text in one piece. It does what a scan byte by byte does, so it makes no
-- difference how the output of a shell is cut into chunks.
use ptymux.Server.Transcript.Style.{sequence}
use ptymux.Server.Transcript.Style.Size.{length-sequence}
use ptymux.Server.Transcript.{
  AnsiScanState, AnsiTranscript, scan_text, max_transcript_bytes, put_pending, put_prefix,
  ensure_pending_start, append_pending, write_text_byte, scan_byte, text_run, write_round,
  write_loop, write, is_scan_text,
}
use ptymux.Server.Transcript.Bounds.{
  write-IsValid, IsValid, ensure_pending_start-start, append_pending-IsValid, put_pending-start,
  write_round-IsValid,
}
use ptymux.Prelude.{
  ℕ, zero, suc, ◌+◌, ◌≤◌, ◌≡◌, refl, sym, ap, ◌∙◌, inl, inr, Bool, true, false, ◌&&◌, ◌||◌, [], ◌∷◌,
  ◌++◌, append_assoc, arith, leb, if◌then◌else◌, leb→le, Bool-cases, length, length-append, All,
  Bytes, if-intro,
}

put_prefix-drop :
    (t : AnsiTranscript) (p : Bytes)
    → t.pending_drop ≡ false
    → length t.pending + length p ≤ max_transcript_bytes
    → (put_prefix t p).pending_drop ≡ false
unfolding put_prefix put_pending
put_prefix-drop t [] h k = h
put_prefix-drop t (b ∷ p) h k = ground arith

ensure_pending_start-drop :
    (t : AnsiTranscript)
    → IsValid t
    → t.pending_drop ≡ false
    → (ensure_pending_start t).pending_drop ≡ false
unfolding ensure_pending_start
ensure_pending_start-drop t v h =
    if-intro (λ (x : AnsiTranscript). x.pending_drop ≡ false) (t.pending_start || t.pending_drop)
      (λ _. h)
      (λ e.
        put_prefix-drop (record t { pending_start = true }) (sequence t.style) h
          (ground (arith, length-sequence t.style, v.started)))

-- A line that has been started and not dropped takes two pieces as it takes them together.
put_pending-append :
    (t : AnsiTranscript) (xs ys : Bytes)
    → t.pending_drop ≡ false
    → put_pending t (xs ++ ys) ≡ (
        if (put_pending t xs).pending_drop
        then put_pending t xs
        else put_pending (put_pending t xs) ys)
unfolding put_pending
put_pending-append t xs ys h =
    ground (arith, length-append xs ys, length-append t.pending xs, append_assoc t.pending xs ys)

append_started :
    (t : AnsiTranscript) (b : ℕ) (s : Bytes)
    → t.pending_start ≡ true
    → append_pending t (b ∷ s) ≡ (if t.pending_drop then t else put_pending t (b ∷ s))
unfolding append_pending
append_started t b s h = ground arith

-- the transcript with its line started
abbrev opened : AnsiTranscript → AnsiTranscript
opened t = if t.pending_start then t else ensure_pending_start t

append_kept :
    (t : AnsiTranscript) (b : ℕ) (s : Bytes)
    → t.pending_drop ≡ false
    → append_pending t (b ∷ s) ≡ put_pending (opened t) (b ∷ s)
unfolding append_pending
append_kept t b s h = rw h refl

append_dropped : (t : AnsiTranscript) (s : Bytes) → t.pending_drop ≡ true → append_pending t s ≡ t
unfolding append_pending
append_dropped t [] h = refl
append_dropped t (b ∷ s) h = rw h refl

append_pending-cons :
    (t : AnsiTranscript) (b c : ℕ) (s : Bytes)
    → IsValid t
    → append_pending t (b ∷ c ∷ s) ≡ append_pending (append_pending t (b ∷ [])) (c ∷ s)
append_pending-cons t b c s v = elim (Bool-cases t.pending_drop) [
  | inl dropped ↦
      append_dropped t (b ∷ c ∷ s) dropped
      ∙ sym (
          ap (λ x. append_pending x (c ∷ s)) (append_dropped t (b ∷ []) dropped)
          ∙ append_dropped t (c ∷ s) dropped)
  | inr kept ↦
      let start : (opened t).pending_start ≡ true =
        if-intro (λ (x : AnsiTranscript). x.pending_start ≡ true) t.pending_start (λ e. e)
          (λ _. ensure_pending_start-start t kept) in
      let keeps : (opened t).pending_drop ≡ false =
        if-intro (λ (x : AnsiTranscript). x.pending_drop ≡ false) t.pending_start (λ _. kept)
          (λ _. ensure_pending_start-drop t v kept) in
      append_kept t b (c ∷ s) kept
      ∙ put_pending-append (opened t) (b ∷ []) (c ∷ s) keeps
      ∙ sym (
          append_started (put_pending (opened t) (b ∷ [])) c s
            (put_pending-start (opened t) (b ∷ []) ∙ start))
      ∙ sym (ap (λ x. append_pending x (c ∷ s)) (append_kept t b [] kept))
]

-- What appending leaves alone.
pub record SameMode (t u : AnsiTranscript) : Type 0 where
  pub state : t.state ≡ u.state
  pub alt_screen : t.alt_screen ≡ u.alt_screen
  pub lines : t.lines ≡ u.lines

put_pending-SameMode : (t : AnsiTranscript) (s : Bytes) → SameMode (put_pending t s) t
unfolding put_pending
put_pending-SameMode t s = ground arith

put_prefix-SameMode : (t : AnsiTranscript) (s : Bytes) → SameMode (put_prefix t s) t
unfolding put_prefix
put_prefix-SameMode t [] = record { state = refl; alt_screen = refl; lines = refl }
put_prefix-SameMode t (b ∷ s) = ground (arith, put_pending-SameMode t (b ∷ s))

pub ensure_pending_start-SameMode : (t : AnsiTranscript) → SameMode (ensure_pending_start t) t
unfolding ensure_pending_start
ensure_pending_start-SameMode t =
    ground (arith, put_prefix-SameMode (record t { pending_start = true }) (sequence t.style))

pub append_pending-SameMode : (t : AnsiTranscript) (s : Bytes) → SameMode (append_pending t s) t
unfolding append_pending
append_pending-SameMode t [] = record { state = refl; alt_screen = refl; lines = refl }
append_pending-SameMode t (b ∷ s) =
    ground (arith, put_pending-SameMode (opened t) (b ∷ s), ensure_pending_start-SameMode t)

-- The specification: one byte after the other.
unfoldable pub scan : AnsiTranscript → Bytes → AnsiTranscript
scan t [] = t
scan t (b ∷ s) = scan (scan_byte t.state t b) s

pub scan-append : (t : AnsiTranscript) (s u : Bytes) → scan t (s ++ u) ≡ scan (scan t s) u
unfolding scan
scan-append t [] u = refl
scan-append t (b ∷ s) u = scan-append (scan_byte t.state t b) s u

abbrev IsText : ℕ → Type 0
IsText b = 0x20 ≤ b

write_text_byte-text :
    (t : AnsiTranscript) (b : ℕ)
    → IsText b
    → write_text_byte t b ≡ (if t.alt_screen then t else append_pending t (b ∷ []))
unfolding write_text_byte
write_text_byte-text t b h = ground arith

scan_text_byte :
    (t : AnsiTranscript) (b : ℕ)
    → t.state ≡ scan_text
    → IsText b
    → scan_byte t.state t b ≡ (if t.alt_screen then t else append_pending t (b ∷ []))
unfolding scan_byte
scan_text_byte t b e h = ap (λ st. scan_byte st t b) e ∙ write_text_byte-text t b h

-- The alternate screen is not recorded.
scan_run_alt :
    (t : AnsiTranscript) (run : Bytes)
    → t.state ≡ scan_text
    → t.alt_screen ≡ true
    → All IsText run
    → scan t run ≡ t
unfolding scan
scan_run_alt t [] e alt h = refl
scan_run_alt t (b ∷ run) e alt h =
    ap (λ x. scan x run)
      (scan_text_byte t b e h.0 ∙ ap (λ (c : Bool). if c then t else append_pending t (b ∷ [])) alt)
    ∙ scan_run_alt t run e alt h.1

-- A run of text in one piece.
scan_run :
    (t : AnsiTranscript) (b : ℕ) (run : Bytes)
    → t.state ≡ scan_text
    → t.alt_screen ≡ false
    → IsValid t
    → All IsText (b ∷ run)
    → scan t (b ∷ run) ≡ append_pending t (b ∷ run)
unfolding scan
scan_run t b [] e main v h =
    scan_text_byte t b e h.0 ∙ ap (λ (c : Bool). if c then t else append_pending t (b ∷ [])) main
scan_run t b (c ∷ run) e main v h =
    let same : SameMode (append_pending t (b ∷ [])) t = append_pending-SameMode t (b ∷ []) in
    ap (λ x. scan x (c ∷ run))
      (scan_text_byte t b e h.0
        ∙ ap (λ (m : Bool). if m then t else append_pending t (b ∷ [])) main)
    ∙ scan_run (append_pending t (b ∷ [])) c run (same.state ∙ e) (same.alt_screen ∙ main)
        (append_pending-IsValid t (b ∷ []) v) h.1
    ∙ sym (append_pending-cons t b c run v)

-- The cut of `Write` into a run and the bytes behind it.
abbrev Cut : Bytes → Bytes × Bytes → Type 0
Cut s (run, rest) = (s ≡ run ++ rest) × All IsText run × (length rest ≤ length s)

text_run-Cut : (s : Bytes) → Cut s (text_run s)
unfolding text_run
text_run-Cut [] = (refl, tt, omega arith)
text_run-Cut (b ∷ s) =
    let c : Cut s (text_run s) = text_run-Cut s in
    if-intro (Cut (b ∷ s)) (leb 0x20 b)
      (λ e. (ap (◌∷◌ b) c.0, (leb→le 0x20 b e, c.1), omega (arith, c.2)))
      (λ _. (refl, tt, omega arith))

is_scan_text_sound : (s : AnsiScanState) → is_scan_text s ≡ true → s ≡ scan_text
unfolding is_scan_text
is_scan_text_sound s h = ground arith

scan_any_run :
    (t : AnsiTranscript) (b : ℕ) (run : Bytes)
    → t.state ≡ scan_text
    → IsValid t
    → All IsText (b ∷ run)
    → scan t (b ∷ run) ≡ (if t.alt_screen then t else append_pending t (b ∷ run))
scan_any_run t b run e v h = elim (Bool-cases t.alt_screen) [
  | inl alt ↦
      scan_run_alt t (b ∷ run) e alt h
      ∙ sym (ap (λ (m : Bool). if m then t else append_pending t (b ∷ run)) alt)
  | inr main ↦
      scan_run t b run e main v h
      ∙ sym (ap (λ (m : Bool). if m then t else append_pending t (b ∷ run)) main)
]

-- A round is a scan of the bytes that it takes, one at least.
abbrev Scans : AnsiTranscript → ℕ → Bytes → AnsiTranscript × Bytes → Type 0
Scans t b s (u, rest) = (scan t (b ∷ s) ≡ scan u rest) × (length rest ≤ length s)

write_round-Scans :
    (t : AnsiTranscript) (b : ℕ) (s : Bytes) → IsValid t → Scans t b s (write_round t b s)
unfolding write_round
write_round-Scans t b s v =
    let c : Cut s (text_run s) = text_run-Cut s in
    let run = (text_run s).0 in
    if-intro (Scans t b s) (is_scan_text t.state && leb 0x20 b)
      (λ e.
        let here : t.state ≡ scan_text = is_scan_text_sound t.state (ground arith) in
        (
          ap (λ x. scan t (b ∷ x)) c.0
              ∙ scan-append t (b ∷ run) (text_run s).1
              ∙ ap (λ x. scan x (text_run s).1)
                  (scan_any_run t b run here v (leb→le 0x20 b (ground arith), c.1)),
          c.2,
        ))
      (λ _. (unfold scan in refl, omega arith))

write_loop-eq-scan :
    (f : ℕ) (t : AnsiTranscript) (s : Bytes)
    → IsValid t
    → length s ≤ f
    → write_loop f t s ≡ scan t s
unfolding write_loop
write_loop-eq-scan zero t [] v h = unfold scan in refl
write_loop-eq-scan zero t (b ∷ s) v h = absurd (omega arith)
write_loop-eq-scan (suc f) t [] v h = unfold scan in refl
write_loop-eq-scan (suc f) t (b ∷ s) v h =
    let r : Scans t b s (write_round t b s) = write_round-Scans t b s v in
    write_loop-eq-scan f _ _ (write_round-IsValid t b s v) (omega (arith, r.1)) ∙ sym r.0

-- On a valid transcript `Write` is the scan of its bytes one by one: batching changes nothing, and
-- the loop reads the whole chunk.
pub write-eq-scan : (t : AnsiTranscript) (s : Bytes) → IsValid t → write t s ≡ scan t s
unfolding write
write-eq-scan t s v = write_loop-eq-scan (length s) t s v (omega arith)

-- Two chunks leave a valid transcript as one chunk of both does, wherever the cut falls: inside a
-- line, an escape sequence or a run of text.
pub write-append :
    (t : AnsiTranscript) (s u : Bytes) → IsValid t → write t (s ++ u) ≡ write (write t s) u
write-append t s u v =
    write-eq-scan t (s ++ u) v
    ∙ scan-append t s u
    ∙ ap (λ x. scan x u) (sym (write-eq-scan t s v))
    ∙ sym (write-eq-scan (write t s) u (write-IsValid t s v))
