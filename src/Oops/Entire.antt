-- ===== src/Oops/Entire.antt =====
-- What an oops message is, and that `klog_process_oops_msgs` finds it again in its own lines.
use mathlib.Core.List.{append_assoc, append-nil}
use telemetrics_client.Base.{
  ◌+◌, ◌≤◌, ◌≡◌, refl, sym, ap, ◌∙◌, true, false, List, [], ◌∷◌, ◌++◌, some, ltb, ◌==◌, length,
  length-append, arith,
}
use telemetrics_client.Base.Bytes.{Bytes, Lacks, c_string_all}
use telemetrics_client.Base.Run.{done}
use telemetrics_client.Oops.{OopsLogMsg, push_line, max_lines}
use telemetrics_client.Oops.Patterns.{OopsPattern, oops_patterns_arr, Regexec, find_pattern}
use telemetrics_client.Oops.Scanner.{
  push_front, cut_lines, store_lines, handle_entire_oops, klog_contents, klog_process_oops_msgs,
  entire_from, store_oops,
}

-- Lines: C strings without a newline.
abbrev pub AreTexts : List Bytes → Type 0
AreTexts [] = Unit
AreTexts (line ∷ lines) = (Lacks b'\n' line × Lacks 0 line) × AreTexts lines

-- 1 to 100 lines, and the pattern is the first that matches the first line.
pub record IsOops (regexec : Regexec) (msg : OopsLogMsg) : Type 0 where
  pub start : Bytes
  pub others : List Bytes
  pub matched : OopsPattern
  pub lines : msg.lines ≡ start ∷ others
  pub found : find_pattern regexec oops_patterns_arr start ≡ some matched
  pub pattern : msg.pattern ≡ some matched
  pub bounded : length msg.lines ≤ max_lines
  pub texts : AreTexts msg.lines

cut_lines-newline :
    (line rest : Bytes)
    → Lacks b'\n' line
    → cut_lines (line ++ (b'\n' ∷ rest)) ≡ (line ∷ (cut_lines rest).0, (cut_lines rest).1)
unfolding cut_lines push_front
cut_lines-newline [] rest h = refl
cut_lines-newline (c ∷ line) rest h =
    let other : (c == b'\n') ≡ false = ground (arith, h.0) in
    rw (other, cut_lines-newline line rest h.1) refl

cut_lines-klog_contents :
    (lines : List Bytes) → AreTexts lines → cut_lines (klog_contents lines) ≡ (lines, [])
unfolding klog_contents
cut_lines-klog_contents [] h = unfold cut_lines in refl
cut_lines-klog_contents (line ∷ lines) h =
    rw
      (
        c_string_all line h.0.1,
        cut_lines-newline line (klog_contents lines) h.0.0,
        cut_lines-klog_contents lines h.1,
      )
      refl

store_lines_all :
    (lines : List Bytes) (msg : OopsLogMsg)
    → AreTexts lines
    → length msg.lines + length lines ≤ max_lines
    → store_lines lines [] msg ≡ done (record msg { lines = msg.lines ++ lines })
unfolding store_lines push_line
store_lines_all [] msg h room =
    ap (λ ls. done (record msg { lines = ls })) (sym (append-nil msg.lines))
store_lines_all (line ∷ lines) msg h room =
    let fits : ltb (length msg.lines) max_lines ≡ true = ground (arith, room) in
    rw (fits, c_string_all line h.0.1)
      (store_lines_all lines (record msg { lines = msg.lines ++ line ∷ [] }) h.1
          (omega (arith, room, length-append msg.lines (line ∷ [])))
        ∙ ap (λ ls. done (record msg { lines = ls })) (append_assoc msg.lines (line ∷ []) lines))

entire_from-IsOops :
    (regexec : Regexec) (start : Bytes) (others : List Bytes) (pattern : OopsPattern)
    → find_pattern regexec oops_patterns_arr start ≡ some pattern
    → AreTexts (start ∷ others)
    → length (start ∷ others) ≤ max_lines
    → entire_from regexec (start ∷ others) []
      ≡ done (some (record { lines = start ∷ others; pattern = some pattern }))
unfolding entire_from store_oops
entire_from-IsOops regexec start others pattern found texts bounded =
    rw
      (
        found,
        store_oops,
        store_lines_all (start ∷ others) (record { lines = []; pattern = some pattern }) texts
            (omega (arith, bounded)),
      )
      refl

-- klog_process_oops_msgs, with a message of 1 to 100 lines of text whose pattern is the first that
-- matches its first line, finds just that message again in the buffer that it makes of the lines.
pub klog_process_oops_msgs-IsOops :
    (regexec : Regexec) (msg : OopsLogMsg)
    → IsOops regexec msg
    → klog_process_oops_msgs regexec msg ≡ done (some msg)
unfolding klog_process_oops_msgs handle_entire_oops
klog_process_oops_msgs-IsOops regexec msg o =
    let cut = cut_lines-klog_contents msg.lines o.texts in
    let texts : AreTexts (o.start ∷ o.others) = rw o.lines at o.texts in
    let bounded : length (o.start ∷ o.others) ≤ max_lines = rw o.lines at o.bounded in
    let same : record { lines = o.start ∷ o.others; pattern = some o.matched } ≡ msg =
      rw (sym o.lines, sym o.pattern) refl in
    ap (λ (lines, rest). entire_from regexec lines rest) cut
    ∙ ap (λ lines. entire_from regexec lines []) o.lines
    ∙ entire_from-IsOops regexec o.start o.others o.matched o.found texts bounded
    ∙ ap (λ m. done (some m)) same
