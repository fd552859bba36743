-- ===== src/Server/Comments.antt =====
-- server/opencode.go: `stripLineComment` and `stripJSONC`. A text is the list of its bytes.
use llm_bridge.Base.{ℕ, Bool, true, false, not, ◌&&◌, List, [], ◌∷◌, ◌++◌, ◌==◌, if◌then◌else◌}

abbrev pub Bytes : Type 0
Bytes = List ℕ

abbrev pub starts_with_slash : Bytes → Bool
starts_with_slash [] = false
starts_with_slash (c ∷ cs) = c == b'/'

-- The two variables of the loop.
pub record Scan : Type 0 where
  pub in_string : Bool
  pub escape : Bool

abbrev pub scan_start : Scan
scan_start = record { in_string = false; escape = false }

-- One round of the loop, where it does not return.
unfoldable pub scan_next : ℕ → Scan → Scan
scan_next ch s =
    if s.escape
    then record s { escape = false }
    else if (ch == 92) && s.in_string
    then record s { escape = true }
    else if ch == b'"'
    then record s { in_string = not s.in_string }
    else s

-- Whether the loop returns at this character.
unfoldable pub opens_comment : ℕ → Bytes → Scan → Bool
opens_comment ch rest s =
    not s.escape && (not s.in_string && ((ch == b'/') && starts_with_slash rest))

-- The loop, from a position on.
unfoldable pub strip_from : Scan → Bytes → Bytes
strip_from s [] = []
strip_from s (ch ∷ rest) =
    let kept = strip_from (scan_next ch s) rest in if opens_comment ch rest s then [] else ch ∷ kept

unfoldable pub strip_line_comment : Bytes → Bytes
unfolding strip_from
strip_line_comment line = strip_from scan_start line

abbrev pub add_to_line : ℕ → List Bytes → List Bytes
add_to_line c [] = (c ∷ []) ∷ []
add_to_line c (line ∷ lines) = (c ∷ line) ∷ lines

-- `strings.Split(data, "\n")`: never empty.
unfoldable pub split_lines : Bytes → List Bytes
split_lines [] = [] ∷ []
split_lines (c ∷ cs) =
    let lines = split_lines cs in if c == 10 then [] ∷ lines else add_to_line c lines

-- Each line and the end of it, as the loop writes them.
unfoldable pub write_lines : List Bytes → Bytes
unfolding strip_line_comment
write_lines [] = []
write_lines (line ∷ lines) = strip_line_comment line ++ 10 ∷ write_lines lines

abbrev pub drop_char : ℕ → ℕ → Bytes → Bytes
drop_char c d [] = if c == d then [] else c ∷ []
drop_char c d (e ∷ es) = c ∷ e ∷ es

-- `strings.TrimRight` of one character.
unfoldable pub trim_right : ℕ → Bytes → Bytes
trim_right d [] = []
trim_right d (c ∷ cs) = drop_char c d (trim_right d cs)

unfoldable pub strip_jsonc : Bytes → Bytes
unfolding write_lines split_lines
strip_jsonc text = trim_right 10 (write_lines (split_lines text))
