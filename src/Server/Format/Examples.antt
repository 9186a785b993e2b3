-- ===== src/Server/Format/Examples.antt =====
-- The theorem on formatting at a concrete input.
use ptymux.Server.Format.{format_command_transcript, is_prompt_like}
use ptymux.Server.Format.Prompt.{format_command_transcript-join}
use ptymux.Std.Strings.{join}
use ptymux.Std.Strings.SplitJoin.{Lacks}
use ptymux.Prelude.{◌≡◌, List, [], ◌∷◌, ◌++◌, All, Bytes, codes, bytes_eq}

abbrev listing_lines : List Bytes
listing_lines = codes "ls" ∷ codes "a b" ∷ codes "$ " ∷ []

listing-Lacks : All (Lacks b'\n') listing_lines
listing-Lacks = (
  ((λ e. cc), ((λ e. cc), tt)),
  (((λ e. cc), ((λ e. cc), ((λ e. cc), tt))), (((λ e. cc), ((λ e. cc), tt)), tt)),
)

-- The prompt stands behind the output and is put before the echo.
format_command_transcript-join_example :
    format_command_transcript (join (codes "\n") listing_lines) (codes "ls") []
    ≡ codes "$ " ++ join (codes "\n") listing_lines
unfolding is_prompt_like bytes_eq
format_command_transcript-join_example =
    format_command_transcript-join (codes "ls") (codes "$ ") (codes "ls") [] (codes "a b" ∷ [])
      listing-Lacks
