-- ===== src/Std/Strings/Trim.antt =====
-- strings.TrimSpace, rune by rune.
use ptymux.Std.Utf8.{decode_rune}
use ptymux.Std.Strings.Fields.{is_space}
use ptymux.Prelude.{ℕ, zero, suc, ◌-◌, [], ◌∷◌, ◌++◌, if◌then◌else◌, length, take, drop, Bytes}

trim_left_space : ℕ → Bytes → Bytes
unfolding decode_rune is_space
trim_left_space zero s = []
trim_left_space (suc f) [] = []
trim_left_space (suc f) (b ∷ s) =
    let (r, size) = decode_rune (b ∷ s) in
    let rest = trim_left_space f (drop (size - 1) s) in if is_space r then rest else b ∷ s

-- Go decodes from the end here: it meets the same runes, as a rune starts at each byte that is no
-- continuation byte.
trim_right_space : ℕ → Bytes → Bytes
unfolding decode_rune is_space
trim_right_space zero s = []
trim_right_space (suc f) [] = []
trim_right_space (suc f) (b ∷ s) =
    let (r, size) = decode_rune (b ∷ s) in
    let kept = b ∷ take (size - 1) s in
    elim (trim_right_space f (drop (size - 1) s)) [
      | [] ↦ if is_space r then [] else kept
      | x ∷ rest ↦ kept ++ x ∷ rest
    ]

unfoldable pub trim_space : Bytes → Bytes
unfolding trim_left_space trim_right_space
trim_space s = let left = trim_left_space (length s) s in trim_right_space (length left) left
