-- ===== src/Server/Collector.antt =====
-- internal/server/tab.go: how the output of one command is collected from the terminal's output,
-- the byte-level helpers of that file, and the texts that it sends to the shell.
mod Examples
pub mod Window
use ptymux.Std.Strings.{index, has_prefix}
use ptymux.Std.Strings.Trim.{trim_space}
use ptymux.Std.Strconv.{ℤ, pos, atoi}
use ptymux.Std.Utf8.{decode_rune, full_rune}
use ptymux.Prelude.{
  ℕ, zero, suc, ◌+◌, ◌-◌, ◌*◌, ◌/◌, ◌%◌, ◌^◌, ◌≤◌, ◌<◌, min, ◌≡◌, refl, sym, ap, ◌∙◌, subst, ◌≢◌,
  ◌↔◌, ◌⊎◌, inl, inr, Bool, true, false, not, ◌&&◌, ◌||◌, Option, none, some, List, [], ◌∷◌, ◌++◌,
  map, append_assoc, append-nil, arith, ltb, leb, ◌==◌, if◌then◌else◌, ltb→lt, lt→ltb, leb→le,
  ==_iff, tests, Bool-cases, Option-cases, length, set, take, drop, length-append, length-set,
  take-append-drop, length-take, length-drop, take-of-length-le, take-length-append,
  drop-length-append, All, All-append, All-take, All-drop, Bytes, codes, bytes_eq, bytes_eq_refl,
  bytes_eq_iff, if-intro, take-append-of-le, drop-append-of-le,
}

abbrev pub max_run_status_bytes : ℕ
max_run_status_bytes = 32

pub record RunCollector : Type 0 where
  pub marker : Bytes
  pub pending : Bytes
  pub status : Bytes
  pub output : Bytes
  pub limit : ℕ
  pub found : Bool
  pub complete : Bool
  pub truncated : Bool
  pub exit_code : ℤ

abbrev pub new_run_collector : Bytes → ℕ → RunCollector
new_run_collector marker limit = record {
  marker = marker;
  pending = [];
  status = [];
  output = [];
  limit = limit;
  found = false;
  complete = false;
  truncated = false;
  exit_code = pos 0;
}

-- The new output, and whether bytes were left out.
unfoldable pub append_bounded : Bytes → Bytes → ℕ → Bytes × Bool
append_bounded output chunk limit =
    let remaining = limit - length output in
    if leb limit (length output)
    then (output, ltb 0 (length chunk))
    else if ltb remaining (length chunk)
    then (output ++ take remaining chunk, true)
    else (output ++ chunk, false)

unfoldable pub append_output : RunCollector → Bytes → RunCollector
unfolding append_bounded
append_output c chunk =
    let (output, cut) = append_bounded c.output chunk c.limit in
    record c { output = output; truncated = if cut then true else c.truncated }

-- bytes.IndexAny(s, "\r\n")
unfoldable pub index_line_end : Bytes → Option ℕ
index_line_end [] = none
index_line_end (c ∷ s) =
    if c == b'\r' || c == b'\n'
    then some 0
    else elim (index_line_end s) [ none ↦ none | some i ↦ some (suc i) ]

-- The collector, and whether the call returns the error of an invalid status.
abbrev pub Consumed : Type 0
Consumed = RunCollector × Bool

-- A line ending of two bytes is skipped as one.
unfoldable pub after_line_end : Bytes → Bytes
after_line_end (c ∷ d ∷ s) = if c == b'\r' && d == b'\n' then s else d ∷ s
after_line_end (c ∷ []) = []
after_line_end [] = []

pub finish_status : RunCollector → Bytes → Bytes → Consumed
unfolding append_output after_line_end trim_space
finish_status c line rest = elim (atoi (trim_space line)) [
  | none ↦ (c, true)
  | some code ↦ (
    record (append_output (record c { exit_code = code; complete = true }) (after_line_end rest)) {
      status = [];
    },
    false,
  )
]

pub consume_status : RunCollector → Bytes → Consumed
unfolding index_line_end finish_status
consume_status c chunk =
    let status = c.status ++ chunk in
    let next = record c { status = status } in
    elim (index_line_end status) [
      | none ↦ (next, ltb max_run_status_bytes (length status))
      | some i ↦ finish_status next (take i status) (drop i status)
    ]

-- The part of `pending` in which a marker cannot start any more goes to the output.
pub flush_pending : RunCollector → RunCollector
unfolding append_output
flush_pending c =
    let keep = length c.marker - 1 in
    let flush = length c.pending - keep in
    if ltb keep (length c.pending)
    then record (append_output c (take flush c.pending)) { pending = drop flush c.pending }
    else c

pub find_marker : RunCollector → Consumed
unfolding append_output consume_status flush_pending index
find_marker c = elim (index c.pending c.marker) [
  | none ↦ (flush_pending c, false)
  | some start ↦
      consume_status
        (record (append_output c (take start c.pending)) { pending = []; found = true })
        (drop (start + length c.marker) c.pending)
]

pub consume : RunCollector → Bytes → Consumed
unfolding append_output consume_status find_marker
consume c chunk =
    if c.complete
    then (append_output c chunk, false)
    else if c.found
    then consume_status c chunk
    else find_marker (record c { pending = c.pending ++ chunk })

-- The prefix of whole runes, with the rounds that are left.
unfoldable pub complete_prefix : ℕ → Bytes → ℕ
unfolding decode_rune full_rune
complete_prefix zero s = 0
complete_prefix (suc f) [] = 0
complete_prefix (suc f) (b ∷ s) =
    let size = (decode_rune (b ∷ s)).1 in
    let more = complete_prefix f (drop (size - 1) s) in
    if size == 1 && not (full_rune (b ∷ s)) then 0 else size + more

unfoldable pub complete_utf8_prefix : Bytes → ℕ
unfolding complete_prefix
complete_utf8_prefix s = complete_prefix (length s) s

-- What the writer behind a `skipPrefixWriter` is given: `none` where it is not called.
pub record SkipPrefix : Type 0 where
  pub prefix : Bytes
  pub pending : Bytes
  pub done : Bool

pub skip_write : SkipPrefix → Bytes → SkipPrefix × Option Bytes
unfolding has_prefix
skip_write w p =
    let pending = w.pending ++ p in
    if w.done || length w.prefix == 0
    then (w, some p)
    else if has_prefix w.prefix pending
    then (
      if bytes_eq pending w.prefix
          then record w { done = true; pending = [] }
          else record w { pending = pending },
      none,
    )
    else (
      record w { done = true; pending = [] },
      some (if has_prefix pending w.prefix then drop (length w.prefix) pending else pending),
    )
