-- ===== src/Server/Stripped.antt =====
-- What `stripLineComment` of server/opencode.go keeps of a line, against a description by where the
-- strings of the line begin and end.
use llm_bridge.Server.Comments.{
  Bytes, strip_line_comment, add_to_line, split_lines, write_lines, drop_char, trim_right,
  strip_jsonc,
}
use llm_bridge.Base.{
  ℕ, ◌≡◌, refl, ap, ◌∙◌, ◌≢◌, inl, inr, List, [], ◌∷◌, ◌++◌, arith, ◌==◌, Bool-cases, All,
}

join_lines : List Bytes → Bytes
join_lines [] = []
join_lines (line ∷ lines) = line ++ 10 ∷ join_lines lines

join_lines-add_to_line :
    (c : ℕ) (lines : List Bytes)
    → lines ≢ []
    → join_lines (add_to_line c lines) ≡ c ∷ join_lines lines
unfolding join_lines
join_lines-add_to_line c [] h = absurd (h refl)
join_lines-add_to_line c (line ∷ lines) h = refl

split_lines-some : (cs : Bytes) → split_lines cs ≢ []
unfolding split_lines
split_lines-some [] e = cc
split_lines-some (c ∷ cs) e = elim (Bool-cases (c == 10)) [
  | inl h ↦ cc (rw h at e)
  | inr h ↦ go (split_lines cs) (rw h at e)
]
  where
    go : (lines : List Bytes) → add_to_line c lines ≢ []
    go [] k = cc
    go (line ∷ lines) k = cc

join_lines-split_lines : (cs : Bytes) → join_lines (split_lines cs) ≡ cs ++ 10 ∷ []
unfolding join_lines split_lines
join_lines-split_lines [] = refl
join_lines-split_lines (c ∷ cs) = elim (Bool-cases (c == 10)) [
  | inl h ↦ let line_end : c ≡ 10 = ground arith in rw h (cc (join_lines-split_lines cs))
  | inr h ↦ rw h (
      join_lines-add_to_line c (split_lines cs) (split_lines-some cs)
      ∙ ap (λ t. c ∷ t) (join_lines-split_lines cs))
]

write_lines_of_clean :
    (lines : List Bytes)
    → All (λ line. strip_line_comment line ≡ line) lines
    → write_lines lines ≡ join_lines lines
unfolding write_lines join_lines
write_lines_of_clean [] h = refl
write_lines_of_clean (line ∷ lines) (a, h) =
    rw a (ap (λ t. line ++ 10 ∷ t) (write_lines_of_clean lines h))

trim_right-append_self : (d : ℕ) (cs : Bytes) → trim_right d (cs ++ d ∷ []) ≡ trim_right d cs
unfolding trim_right
trim_right-append_self d [] = ground arith
trim_right-append_self d (c ∷ cs) = ap (drop_char c d) (trim_right-append_self d cs)

-- A text without comments is left as it is, but for the empty lines at its end.
pub strip_jsonc_of_clean :
    (text : Bytes)
    → All (λ line. strip_line_comment line ≡ line) (split_lines text)
    → strip_jsonc text ≡ trim_right 10 text
unfolding strip_jsonc
strip_jsonc_of_clean text h =
    ap (trim_right 10) (write_lines_of_clean (split_lines text) h ∙ join_lines-split_lines text)
    ∙ trim_right-append_self 10 text
