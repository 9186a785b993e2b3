-- ===== src/Server/LocalStream/Decode.antt =====
-- Reading a frame back.
use ptymux.Server.LocalStream.{
  ok, ◌>>=◌, StreamError, control_not_empty, invalid_control, check_length, frame_bytes, put_uint32,
  uint32, read_full, read_header, read_payload, read_local_stream_frame,
}
use ptymux.Prelude.{
  ℕ, ◌/◌, ◌%◌, ◌≤◌, ◌<◌, ◌≡◌, refl, sym, ap, ◌∙◌, true, ◌∷◌, ◌++◌, append_assoc, arith, leb, length,
  length-append, take-length-append, drop-length-append, Bytes, codes, bytes_eq,
}

uint32-put_uint32 :
    (n : ℕ)
    → n < 4294967296
    → uint32 (n / 16777216 % 256) (n / 65536 % 256) (n / 256 % 256) (n % 256) ≡ n
unfolding uint32
uint32-put_uint32 n h = omega arith

-- Both directions accept the same lengths.
check_length-ok :
    (e e' : StreamError) (ty n : ℕ) → check_length e ty n ≡ ok tt → check_length e' ty n ≡ ok tt
unfolding check_length
check_length-ok e e' ty n h = ground arith

check_length-bound : (e : StreamError) (ty n : ℕ) → check_length e ty n ≡ ok tt → n ≤ 65536
unfolding check_length
check_length-bound e ty n h = ground arith

pub read_full-append : (h s : Bytes) → read_full (length h) (h ++ s) ≡ ok (h, s)
unfolding read_full
read_full-append h s =
    let enough : leb (length h) (length (h ++ s)) ≡ true = ground (arith, length-append h s) in
    rw enough (ap ok (λ i. (take-length-append h s i, drop-length-append h s i)))

-- the ten bytes of a header
abbrev header : ℕ → ℕ → Bytes
header ty n = codes "PTMX" ++ (1 ∷ ty ∷ put_uint32 n)

read_header-header :
    (ty n : ℕ) (s : Bytes)
    → n < 4294967296
    → check_length invalid_control ty n ≡ ok tt
    → read_header (header ty n) s ≡ read_payload ty n s
unfolding read_header put_uint32 bytes_eq
read_header-header ty n s h c = rw (uint32-put_uint32 n h) (rw c refl)

length-header : (ty n : ℕ) → length (header ty n) ≡ 10
unfolding put_uint32
length-header ty n = refl

frame_bytes-header : (ty : ℕ) (p : Bytes) → frame_bytes ty p ≡ header ty (length p) ++ p
unfolding frame_bytes put_uint32
frame_bytes-header ty p = refl

-- A frame whose type and length the rules allow is read back, and the reader then stands behind
-- it, at whatever bytes follow.
pub read_local_stream_frame-frame_bytes :
    (ty : ℕ) (payload rest : Bytes)
    → check_length control_not_empty ty (length payload) ≡ ok tt
    → read_local_stream_frame (frame_bytes ty payload ++ rest) ≡ ok (ty, payload, rest)
unfolding read_local_stream_frame
read_local_stream_frame-frame_bytes ty payload rest h =
    let n = length payload in
    let fits : n ≤ 65536 = check_length-bound control_not_empty ty n h in
    ap (λ x. read_full 10 x >>= λ (c, r). read_header c r)
      (ap (λ x. x ++ rest) (frame_bytes-header ty payload)
        ∙ append_assoc (header ty n) payload rest)
    ∙ ap (λ x. x >>= λ (c, r). read_header c r)
        (ap (λ k. read_full k (header ty n ++ (payload ++ rest))) (sym (length-header ty n))
          ∙ read_full-append (header ty n) (payload ++ rest))
    ∙ read_header-header ty n (payload ++ rest) (omega arith)
        (check_length-ok control_not_empty invalid_control ty n h)
    ∙ (unfold read_payload in
        ap (λ x. x >>= λ (p, r). ok (ty, p, r)) (read_full-append payload rest))
