-- ===== src/Server/LocalStream/Examples.antt =====
-- The theorems on frames at concrete inputs.
use ptymux.Server.LocalStream.{
  ok, err, WriteOutcome, wrote, failed, StreamError, frame_data, frame_bytes, check_length,
  control_not_empty, read_local_stream_frame, write_all, write_local_stream_frame, stream_chunks,
  stream_write,
}
use ptymux.Server.LocalStream.Decode.{read_local_stream_frame-frame_bytes}
use ptymux.Server.LocalStream.Writes.{
  IsPrefixOf, write_local_stream_frame-IsPrefixOf, write_all-Progresses,
}
use ptymux.Server.LocalStream.Stream.{read_frames, stream_write-read_frames}
use ptymux.Prelude.{◌≡◌, refl, some, List, [], ◌∷◌, ◌++◌, arith, length, codes}

hi-allowed : check_length control_not_empty frame_data 2 ≡ ok tt
unfolding check_length
hi-allowed = refl

read_local_stream_frame-frame_bytes_example :
    read_local_stream_frame (frame_bytes frame_data (codes "hi") ++ codes "PTMX")
    ≡ ok (frame_data, codes "hi", codes "PTMX")
read_local_stream_frame-frame_bytes_example =
    read_local_stream_frame-frame_bytes frame_data (codes "hi") (codes "PTMX") hi-allowed

-- a writer that takes 7 bytes and then 4, and then takes one and fails
abbrev faulty : List WriteOutcome
faulty = wrote 7 ∷ wrote 4 ∷ failed 1 ∷ []

write_local_stream_frame-IsPrefixOf_example :
    (check_length control_not_empty frame_data 2 ≡ ok tt
      → IsPrefixOf
          (frame_bytes frame_data (codes "hi"))
          (write_local_stream_frame faulty frame_data (codes "hi")))
    × ((e : StreamError)
        → check_length control_not_empty frame_data 2 ≡ err e
        → write_local_stream_frame faulty frame_data (codes "hi")
          ≡ record { written = []; next = faulty; result = some (err e) })
write_local_stream_frame-IsPrefixOf_example =
    write_local_stream_frame-IsPrefixOf faulty frame_data (codes "hi")

-- a writer that takes one byte and then the others
abbrev slow : List WriteOutcome
slow = wrote 1 ∷ wrote 20 ∷ wrote 20 ∷ []

write_all-Progresses_example :
    ((write_all slow (codes "abc")).result ≡ some (ok tt))
    × ((write_all slow (codes "abc")).written ≡ codes "abc")
write_all-Progresses_example =
    write_all-Progresses slow (codes "abc") (omega arith, (omega arith, (omega arith, tt)))
      (omega arith)

slow-ok : (stream_write slow (codes "abc")).sink.result ≡ some (ok tt)
unfolding stream_write write_local_stream_frame frame_bytes
slow-ok = refl

stream_write-read_frames_example :
    ((stream_write slow (codes "abc")).count ≡ 3)
    × (read_frames
          (length (stream_chunks 3 (codes "abc")))
          ((stream_write slow (codes "abc")).sink.written ++ codes "PTMX")
        ≡ ok (codes "abc", codes "PTMX"))
stream_write-read_frames_example =
    stream_write-read_frames slow (codes "abc") (codes "PTMX") slow-ok
