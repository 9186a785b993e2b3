-- ===== src/Server/LocalStream/Stream.antt =====
-- A stream of data frames carries the data.
use mathlib.Core.List.{flatten}
use ptymux.Server.LocalStream.{
  Result, ok, err, ◌>>=◌, WriteOutcome, Sink, StreamWrite, frame_data, frame_bytes, check_length,
  control_not_empty, max_local_stream_data_bytes, read_local_stream_frame, stream_chunks,
  write_chunks, stream_write, and_then, write_local_stream_frame,
}
use ptymux.Server.LocalStream.Decode.{read_local_stream_frame-frame_bytes}
use ptymux.Server.LocalStream.Writes.{write_local_stream_frame-IsPrefixOf}
use ptymux.Prelude.{
  ℕ, zero, suc, ◌+◌, ◌≤◌, ◌<◌, ◌≡◌, refl, sym, ap, ◌∙◌, Option, none, some, List, [], ◌∷◌, ◌++◌,
  append_assoc, arith, ltb, if◌then◌else◌, length, take, drop, length-append, take-append-drop,
  length-take, length-drop, All, Bytes,
}

-- A chunk makes a data frame that the rules allow.
abbrev pub IsChunk : Bytes → Type 0
IsChunk c = (0 < length c) × (length c ≤ max_local_stream_data_bytes)

IsChunk-ok : (c : Bytes) → IsChunk c → check_length control_not_empty frame_data (length c) ≡ ok tt
unfolding check_length
IsChunk-ok c h = ground arith

take-IsChunk : (n : ℕ) (s : Bytes) → 0 < n → n ≤ length s → n ≤ 65536 → IsChunk (take n s)
take-IsChunk n s p h k = (omega (arith, length-take n s, p, h), omega (arith, length-take n s, k))

stream_chunks-IsChunk : (f : ℕ) (s : Bytes) → All IsChunk (stream_chunks f s)
unfolding stream_chunks
stream_chunks-IsChunk zero s = tt
stream_chunks-IsChunk (suc f) [] = tt
stream_chunks-IsChunk (suc f) (b ∷ s) =
    let n =
      if ltb max_local_stream_data_bytes (length (b ∷ s))
      then max_local_stream_data_bytes
      else length (b ∷ s) in
    (
      take-IsChunk n (b ∷ s) (ground arith) (ground arith) (ground arith),
      stream_chunks-IsChunk f (drop n (b ∷ s)),
    )

flatten-stream_chunks : (f : ℕ) (s : Bytes) → length s ≤ f → flatten (stream_chunks f s) ≡ s
unfolding stream_chunks flatten
flatten-stream_chunks zero [] h = refl
flatten-stream_chunks zero (b ∷ s) h = absurd (omega arith)
flatten-stream_chunks (suc f) [] h = refl
flatten-stream_chunks (suc f) (b ∷ s) h =
    let n =
      if ltb max_local_stream_data_bytes (length (b ∷ s))
      then max_local_stream_data_bytes
      else length (b ∷ s) in
    let pos : 0 < n = ground arith in
    ap (◌++◌ (take n (b ∷ s)))
      (flatten-stream_chunks f (drop n (b ∷ s)) (omega (arith, length-drop n (b ∷ s))))
    ∙ take-append-drop n (b ∷ s)

-- The bytes of one data frame for each chunk.
frames : List Bytes → Bytes
frames [] = []
frames (c ∷ cs) = frame_bytes frame_data c ++ frames cs

-- A client that reads so many frames and puts their payloads together, and what is left to read.
pub read_frames : ℕ → Bytes → Result (Bytes × Bytes)
read_frames zero s = ok ([], s)
read_frames (suc n) s = read_local_stream_frame s >>= λ (ty, payload, rest).
    read_frames n rest >>= λ (more, left). ok (payload ++ more, left)

read_frames-frames :
    (cs : List Bytes) (rest : Bytes)
    → All IsChunk cs
    → read_frames (length cs) (frames cs ++ rest) ≡ ok (flatten cs, rest)
unfolding read_frames frames flatten
read_frames-frames [] rest h = refl
read_frames-frames (c ∷ cs) rest h = rw (append_assoc (frame_bytes frame_data c) (frames cs) rest) (
    rw (read_local_stream_frame-frame_bytes frame_data c (frames cs ++ rest) (IsChunk-ok c h.0))
      (rw (read_frames-frames cs rest h.1) refl))

total : List Bytes → ℕ
total [] = 0
total (c ∷ cs) = length c + total cs

total-flatten : (cs : List Bytes) → total cs ≡ length (flatten cs)
unfolding total flatten
total-flatten [] = refl
total-flatten (c ∷ cs) = omega (arith, total-flatten cs, length-append c (flatten cs))

and_then-ok :
    (w : Bytes) (next : List WriteOutcome) (r : Option (Result (Unit {0}))) (n : ℕ)
    (rest : StreamWrite)
    → let s : Sink = record { written = w; next = next; result = r } in
      (and_then s n rest).sink.result ≡ some (ok tt)
      → (r ≡ some (ok tt))
        × (and_then s n rest ≡ record {
          count = n + rest.count;
          sink = record rest.sink { written = w ++ rest.sink.written };
        })
unfolding and_then
and_then-ok w next none n rest h = absurd cc
and_then-ok w next (some (err x)) n rest h = absurd cc
and_then-ok w next (some (ok tt)) n rest h = (refl, refl)

-- What a successful run wrote, and its count.
AllWritten : StreamWrite → List Bytes → Type 0
AllWritten w cs = (w.sink.written ≡ frames cs) × (w.count ≡ total cs)

write_chunks-ok :
    (outs : List WriteOutcome) (cs : List Bytes)
    → All IsChunk cs
    → (write_chunks outs cs).sink.result ≡ some (ok tt)
    → AllWritten (write_chunks outs cs) cs
unfolding write_chunks frames total AllWritten
write_chunks-ok outs [] h e = (refl, refl)
write_chunks-ok outs (c ∷ cs) h e =
    let s = write_local_stream_frame outs frame_data c in
    let rest = write_chunks s.next cs in
    let both = and_then-ok s.written s.next s.result (length c) rest e in
    let ih : AllWritten rest cs =
      write_chunks-ok s.next cs h.1 (sym (ap (λ w. w.sink.result) both.1) ∙ e) in
    let first : s.written ≡ frame_bytes frame_data c =
      ((write_local_stream_frame-IsPrefixOf outs frame_data c).0 (IsChunk-ok c h.0)).whole both.0 in
    (
      ap (λ w. w.sink.written) both.1
          ∙ ap (λ x. x ++ rest.sink.written) first
          ∙ ap (λ x. frame_bytes frame_data c ++ x) ih.0,
      ap (λ w. w.count) both.1 ∙ ap (λ x. length c + x) ih.1,
    )

-- If `Write` returns without error, whatever the writer did, then the count is that of the input,
-- and a client that reads one frame for each chunk gets the input, followed by what the
-- connection carries next.
pub stream_write-read_frames :
    (outs : List WriteOutcome) (input rest : Bytes)
    → (stream_write outs input).sink.result ≡ some (ok tt)
    → ((stream_write outs input).count ≡ length input)
      × (read_frames
            (length (stream_chunks (length input) input))
            ((stream_write outs input).sink.written ++ rest)
          ≡ ok (input, rest))
unfolding stream_write AllWritten
stream_write-read_frames outs input rest h =
    let cs = stream_chunks (length input) input in
    let chunks : All IsChunk cs = stream_chunks-IsChunk (length input) input in
    let all : AllWritten (write_chunks outs cs) cs = write_chunks-ok outs cs chunks h in
    let whole : flatten cs ≡ input = flatten-stream_chunks (length input) input (omega arith) in
    (
      all.1 ∙ total-flatten cs ∙ ap length whole,
      ap (λ s. read_frames (length cs) (s ++ rest)) all.0
          ∙ read_frames-frames cs rest chunks
          ∙ ap (λ s. ok (s, rest)) whole,
    )
