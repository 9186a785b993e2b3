-- ===== src/Server/Marker.antt =====
-- internal/server/tab.go: the lines that ptymux itself writes into a shell, which no reader sees.
use ptymux.Std.Strings.{contains}
use ptymux.Prelude.{Bool, ◌||◌, Bytes, codes}

unfoldable pub is_internal_marker_line : Bytes → Bool
unfolding contains
is_internal_marker_line line =
    contains line (codes "__ptymux_status=$?")
    || contains line (codes "__ptymux_token_a=")
    || contains line (codes "__ptymux_token_b=")
    || contains line (codes "$__ptymux_token_a")
    || contains line (codes "$__ptymux_token_b")
    || contains line (codes "$__ptymux_status")
    || contains line (codes "__PTYMUX_DONE_")
