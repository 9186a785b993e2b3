-- ===== src/Server/LocalStream.antt =====
-- internal/server/local_stream.go: the frames in which a daemon streams output to a local client.
-- A reader is the list of bytes that it still gives before EOF. A writer is the list of what its
-- next calls of Write do; in a frame type and in a header, bytes are numbers.
mod Examples
pub mod Decode
pub mod Writes
pub mod Stream
use ptymux.Prelude.{
  ℕ, zero, suc, ◌+◌, ◌-◌, ◌*◌, ◌/◌, ◌%◌, ◌^◌, ◌≤◌, ◌<◌, min, ◌≡◌, refl, sym, ap, ◌∙◌, subst, ◌≢◌,
  ◌↔◌, ◌⊎◌, inl, inr, Bool, true, false, not, ◌&&◌, ◌||◌, Option, none, some, List, [], ◌∷◌, ◌++◌,
  map, append_assoc, append-nil, arith, ltb, leb, ◌==◌, if◌then◌else◌, ltb→lt, lt→ltb, leb→le,
  ==_iff, tests, Bool-cases, Option-cases, length, set, take, drop, length-append, length-set,
  take-append-drop, length-take, length-drop, take-of-length-le, take-length-append,
  drop-length-append, All, All-append, All-take, All-drop, Bytes, codes, bytes_eq, bytes_eq_refl,
  bytes_eq_iff, if-intro, take-append-of-le, drop-append-of-le,
}

abbrev pub max_local_stream_data_bytes : ℕ
max_local_stream_data_bytes = 65536

abbrev pub max_local_stream_error_bytes : ℕ
max_local_stream_error_bytes = 4096

abbrev pub frame_started : ℕ
frame_started = 1

abbrev pub frame_data : ℕ
frame_data = 2

abbrev pub frame_error : ℕ
frame_error = 3

abbrev pub frame_end : ℕ
frame_end = 4

pub data StreamError : Type 0 where
  unknown_type control_not_empty too_long bad_magic bad_version invalid_control : StreamError
  eof unexpected_eof write_failed short_write : StreamError

-- A value of the source and a nil error, or an error.
pub data Result (V : Type 0) : Type 0 where
  err : StreamError → Result V
  ok : V → Result V

infixl 5 ◌>>◌ ◌>>=◌
abbrev pub ◌>>=◌ : {V W : Type 0} → Result V → (V → Result W) → Result W
first >>= next = elim first [ err why ↦ err why | ok v ↦ next v ]

-- the same for a call that returns an error only
abbrev pub ◌>>◌ : {W : Type 0} → Result (Unit {0}) → Result W → Result W
check >> next = elim check [ err why ↦ err why | ok done ↦ next ]

-- The longest payload, and whether the frame is a control frame.
pub local_stream_frame_rules : ℕ → Result (ℕ × Bool)
local_stream_frame_rules frame_type =
    if frame_type == frame_started || frame_type == frame_end
    then ok (0, true)
    else if frame_type == frame_data
    then ok (max_local_stream_data_bytes, false)
    else if frame_type == frame_error
    then ok (max_local_stream_error_bytes, false)
    else err unknown_type

-- The checks of both directions; `empty` is the error of a control frame with a payload.
within_rules : StreamError → ℕ → ℕ × Bool → Result (Unit {0})
within_rules empty n (max_payload, control) =
    if control && not (n == 0)
    then err empty
    else if ltb 0 max_payload && ltb max_payload n
    then err too_long
    else ok tt

pub check_length : StreamError → ℕ → ℕ → Result (Unit {0})
unfolding local_stream_frame_rules within_rules
check_length empty frame_type n = do
  rules ← local_stream_frame_rules frame_type
  within_rules empty n rules

-- binary.BigEndian.PutUint32 and Uint32
pub put_uint32 : ℕ → Bytes
put_uint32 n = (n / 16777216 % 256) ∷ (n / 65536 % 256) ∷ (n / 256 % 256) ∷ (n % 256) ∷ []

pub uint32 : ℕ → ℕ → ℕ → ℕ → ℕ
uint32 a b c d = a * 16777216 + b * 65536 + c * 256 + d

abbrev pub local_stream_magic : Bytes
local_stream_magic = codes "PTMX"

abbrev pub local_stream_version : ℕ
local_stream_version = 1

-- What `WriteLocalStreamFrame` hands to `writeAll`: the header and the payload.
pub frame_bytes : ℕ → Bytes → Bytes
unfolding put_uint32
frame_bytes frame_type payload =
    local_stream_magic
    ++ (local_stream_version ∷ frame_type ∷ (put_uint32 (length payload) ++ payload))

pub data WriteOutcome : Type 0 where
  wrote : ℕ → WriteOutcome
  failed : ℕ → WriteOutcome

-- What has been written, what the writer will do next, and the result; `none` where `Write` has
-- not returned.
pub record Sink : Type 0 where
  pub written : Bytes
  pub next : List WriteOutcome
  pub result : Option (Result (Unit {0}))

abbrev stop : List WriteOutcome → Option (Result (Unit {0})) → Sink
stop next result = record { written = []; next = next; result = result }

-- A `Write` takes at most what it is given, by the contract of io.Writer; it may take bytes and fail.
pub write_all : List WriteOutcome → Bytes → Sink
write_all outs [] = stop outs (some (ok tt))
write_all [] (b ∷ s) = stop [] none
write_all (failed n ∷ outs) (b ∷ s) = record {
  written = take n (b ∷ s);
  next = outs;
  result = some (err write_failed);
}
write_all (wrote n ∷ outs) (b ∷ s) =
    let rest = write_all outs (drop n (b ∷ s)) in
    if n == 0
    then stop outs (some (err short_write))
    else record rest { written = take n (b ∷ s) ++ rest.written }

-- `writeAll(header)` and then, if that went well, `writeAll(payload)`
pub after_header : Sink → Bytes → Sink
unfolding write_all
after_header h payload = elim h.result [
  | none ↦ h
  | some (err e) ↦ h
  | some (ok u) ↦ let p = write_all h.next payload in record p { written = h.written ++ p.written }
]

pub write_local_stream_frame : List WriteOutcome → ℕ → Bytes → Sink
unfolding check_length after_header
write_local_stream_frame outs frame_type payload =
    elim (check_length control_not_empty frame_type (length payload)) [
      | err e ↦ stop outs (some (err e))
      | ok u ↦
          after_header (write_all outs (take 10 (frame_bytes frame_type payload)))
            (drop 10 (frame_bytes frame_type payload))
    ]

-- io.ReadFull of `n` bytes: the bytes and the rest
pub read_full : ℕ → Bytes → Result (Bytes × Bytes)
read_full n s =
    if leb n (length s)
    then ok (take n s, drop n s)
    else if length s == 0
    then err eof
    else err unexpected_eof

pub read_payload : ℕ → ℕ → Bytes → Result (ℕ × Bytes × Bytes)
unfolding read_full
read_payload frame_type n s = do (payload, rest) ← read_full n s; ok (frame_type, payload, rest)

-- the header of 10 bytes
pub read_header : Bytes → Bytes → Result (ℕ × Bytes × Bytes)
unfolding check_length uint32 read_payload
read_header (m ∷ n ∷ o ∷ p ∷ version ∷ frame_type ∷ a ∷ b ∷ c ∷ d ∷ []) s =
    if not (bytes_eq (m ∷ n ∷ o ∷ p ∷ []) local_stream_magic)
    then err bad_magic
    else if not (version == local_stream_version)
    then err bad_version
    else do
      check_length invalid_control frame_type (uint32 a b c d)
      read_payload frame_type (uint32 a b c d) s
read_header _ s = err unexpected_eof

-- The type, the payload and what the reader still gives.
pub read_local_stream_frame : Bytes → Result (ℕ × Bytes × Bytes)
unfolding read_full read_header
read_local_stream_frame s = do (header, rest) ← read_full 10 s; read_header header rest

-- The payloads that `LocalStreamWriter.Write` cuts the data into.
pub stream_chunks : ℕ → Bytes → List Bytes
stream_chunks zero s = []
stream_chunks (suc f) [] = []
stream_chunks (suc f) (b ∷ s) =
    let size =
      if ltb max_local_stream_data_bytes (length (b ∷ s))
      then max_local_stream_data_bytes
      else length (b ∷ s) in
    take size (b ∷ s) ∷ stream_chunks f (drop size (b ∷ s))

-- The count that `Write` returns, and what it wrote.
pub record StreamWrite : Type 0 where
  pub count : ℕ
  pub sink : Sink

-- What follows counts only if the frame was written.
pub and_then : Sink → ℕ → StreamWrite → StreamWrite
and_then s n rest = elim s.result [
  | none ↦ record { count = 0; sink = s }
  | some (err e) ↦ record { count = 0; sink = s }
  | some (ok u) ↦ record {
    count = n + rest.count;
    sink = record rest.sink { written = s.written ++ rest.sink.written };
  }
]

-- `LocalStreamWriter.Write`: one frame for each chunk, up to the first failure.
pub write_chunks : List WriteOutcome → List Bytes → StreamWrite
unfolding and_then
write_chunks outs [] = record { count = 0; sink = stop outs (some (ok tt)) }
write_chunks outs (c ∷ cs) =
    let s = write_local_stream_frame outs frame_data c in
    let rest = write_chunks s.next cs in and_then s (length c) rest

pub stream_write : List WriteOutcome → Bytes → StreamWrite
unfolding write_chunks stream_chunks
stream_write outs input = write_chunks outs (stream_chunks (length input) input)
