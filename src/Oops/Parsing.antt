-- ===== src/Oops/Parsing.antt =====
-- That `parse_single_line` stays in its array and hands over oops messages only.
use telemetrics_client.Base.{
  or_left, suc, ◌≤◌, ◌≡◌, ◌⊎◌, inl, inr, refl, ap, ◌∙◌, Bool, true, false, not, ◌&&◌, ◌||◌, List,
  [], ◌∷◌, ◌++◌, Option, none, some, ltb, leb, ◌==◌, length, length-append, arith, Bool-cases,
}
use telemetrics_client.Base.Bytes.{Bytes, codes, Lacks, Lacks-c_string, c_string, c_string_ends}
use telemetrics_client.Base.Run.{done}
use telemetrics_client.Oops.{
  OopsLogMsg, ParserState, max_lines, skip_log_level, skip_timestamp, skip_space, contains,
  push_line, handle_msg_end, start_oops, scan_end, is_alsa, new_starts, end_or_store, continue_oops,
  parse_single_line, str_starts_with_casei,
}
use telemetrics_client.Oops.Entire.{AreTexts, IsOops}
use telemetrics_client.Oops.Patterns.{OopsPattern, oops_patterns_arr, Regexec, find_pattern}
use telemetrics_client.Oops.Texts.{
  Lacks-skip_log_level, Lacks-skip_timestamp, Lacks-skip_space, oops_patterns-AreNulFree,
  find_pattern-c_string, AreLines, cut_lines-AreLines,
}
use telemetrics_client.Oops.Scanner.{cut_lines, parse_lines, split_buf_by_line}

abbrev pub AllOops : Regexec → List OopsLogMsg → Type 0
AllOops regexec [] = Unit
AllOops regexec (m ∷ ms) = IsOops regexec m × AllOops regexec ms

-- No oops has started, or the message so far is one; and only such messages were handed over.
pub record IsParser (regexec : Regexec) (s : ParserState) : Type 0 where
  pub oops : (s.oops_msg.lines ≡ []) ⊎ IsOops regexec s.oops_msg
  pub handled : AllOops regexec s.handled

AreTexts-append :
    (ls : List Bytes) (l : Bytes)
    → AreTexts ls
    → Lacks b'\n' l × Lacks 0 l
    → AreTexts (ls ++ l ∷ [])
AreTexts-append [] l h k = (k, tt)
AreTexts-append (x ∷ ls) l h k = (h.0, AreTexts-append ls l h.1 k)

text_of : (s : Bytes) → Lacks b'\n' s → Lacks b'\n' (c_string s) × Lacks 0 (c_string s)
text_of s h = (Lacks-c_string b'\n' s h, c_string_ends s)

start_oops-IsParser :
    (regexec : Regexec) (s : ParserState) (start : Bytes) (o : Option OopsPattern)
    → IsParser regexec s
    → s.oops_msg.lines ≡ []
    → Lacks b'\n' start
    → find_pattern regexec oops_patterns_arr start ≡ o
    → (t : ParserState) × (start_oops s start o ≡ done t) × IsParser regexec t
unfolding start_oops push_line
start_oops-IsParser regexec s start none h e l found = (s, refl, h)
start_oops-IsParser regexec s start (some p) h e l found =
    let first : OopsLogMsg = record { lines = c_string start ∷ []; pattern = some p } in
    let t : ParserState = record s { oops_msg = first; in_stack_dump = false } in
    (
      t,
      rw e refl,
      record {
        oops = inr (record {
          start = c_string start;
          others = [];
          matched = p;
          lines = refl;
          found =
              find_pattern-c_string regexec oops_patterns_arr start oops_patterns-AreNulFree
              ∙ found;
          pattern = refl;
          bounded = omega arith;
          texts = (text_of start l, tt);
        });
        handled = h.handled;
      },
    )

-- A line that is stored keeps the message an oops.
push_line-IsOops :
    (regexec : Regexec) (msg : OopsLogMsg) (line : Bytes)
    → IsOops regexec msg
    → suc (length msg.lines) ≤ max_lines
    → Lacks b'\n' line
    → (m : OopsLogMsg) × (push_line line msg ≡ done m) × IsOops regexec m
unfolding push_line
push_line-IsOops regexec msg line o room l =
    let fits : ltb (length msg.lines) max_lines ≡ true = ground (arith, room) in
    let longer : OopsLogMsg = record msg { lines = msg.lines ++ c_string line ∷ [] } in
    (
      longer,
      rw fits refl,
      record {
        start = o.start;
        others = o.others ++ c_string line ∷ [];
        matched = o.matched;
        lines = ap (λ ls. ls ++ c_string line ∷ []) o.lines;
        found = o.found;
        pattern = o.pattern;
        bounded = omega (arith, length-append msg.lines (c_string line ∷ []), room);
        texts = AreTexts-append msg.lines (c_string line) o.texts (text_of line l);
      },
    )

new_starts_total :
    (regexec : Regexec) (msg : OopsLogMsg) (start : Bytes)
    → IsOops regexec msg
    → (b : Bool) × (new_starts msg start ≡ done b)
unfolding new_starts is_alsa
new_starts_total regexec msg start o =
    elim (Bool-cases (
      contains (codes "WARNING:") (c_string start)
      || contains (codes "Unable to handle") (c_string start))) [
        | inl starts ↦ (
          not (o.matched.is_regex && str_starts_with_casei o.matched.begin_line (codes "^ALSA")),
          rw (starts, o.pattern) refl,
        )
        | inr other ↦ (false, rw other refl)
      ]

-- A full array ends the message.
scan_end_room :
    (s : ParserState) (start : Bytes)
    → (scan_end s start).0 ≡ false
    → suc (length s.oops_msg.lines) ≤ max_lines
unfolding scan_end
scan_end_room s start e = elim (Bool-cases (leb max_lines (length s.oops_msg.lines))) [
  | inl full ↦ let ends : (scan_end s start).0 ≡ true = rw full refl in absurd cc
  | inr room ↦ ground (arith, room)
]

-- The handler is called, or the line is stored.
end_or_store-IsParser :
    (regexec : Regexec) (s : ParserState) (start : Bytes) (ends : Bool)
    → IsOops regexec s.oops_msg
    → AllOops regexec s.handled
    → Lacks b'\n' start
    → (ends ≡ false → suc (length s.oops_msg.lines) ≤ max_lines)
    → (t : ParserState) × (end_or_store s start ends ≡ done t) × IsParser regexec t
unfolding end_or_store handle_msg_end
end_or_store-IsParser regexec s start true o h l room =
    (_, refl, record { oops = inl refl; handled = (o, h) })
end_or_store-IsParser regexec s start false o h l room =
    let (m, stored, is) = push_line-IsOops regexec s.oops_msg start o (room refl) l in
    (record s { oops_msg = m }, rw stored refl, record { oops = inr is; handled = h })

continue_oops-IsParser :
    (regexec : Regexec) (s : ParserState) (start : Bytes)
    → IsOops regexec s.oops_msg
    → AllOops regexec s.handled
    → Lacks b'\n' start
    → (t : ParserState) × (continue_oops s start ≡ done t) × IsParser regexec t
unfolding continue_oops
continue_oops-IsParser regexec s start o h l =
    let (starts, asked) = new_starts_total regexec s.oops_msg start o in
    let (t, ended, is) =
      end_or_store-IsParser regexec (record s { in_stack_dump = (scan_end s start).1 }) start
        ((scan_end s start).0 || starts) o h l
        (λ e. scan_end_room s start (or_left (scan_end s start).0 starts e)) in
    (t, rw (asked, ended) refl, is)

-- Every line without a newline is parsed within the array, whatever the patterns match.
pub parse_single_line-IsParser :
    (regexec : Regexec) (s : ParserState) (line : Bytes)
    → IsParser regexec s
    → Lacks b'\n' line
    → (t : ParserState) × (parse_single_line regexec s line ≡ done t) × IsParser regexec t
unfolding parse_single_line
parse_single_line-IsParser regexec s line h l =
    let start = skip_space (skip_timestamp (skip_log_level line)) in
    let plain =
      Lacks-skip_space b'\n' _ (Lacks-skip_timestamp b'\n' _ (Lacks-skip_log_level b'\n' line l)) in
    elim h.oops [
      | inl empty ↦
          let none_yet : (length s.oops_msg.lines == 0) ≡ true = rw empty refl in
          let (t, e, is) = start_oops-IsParser regexec s start _ h empty plain refl in
          (t, rw none_yet e, is)
      | inr o ↦
          let some_are : (length s.oops_msg.lines == 0) ≡ false = rw o.lines (ground arith) in
          let (t, e, is) = continue_oops-IsParser regexec s start o h.handled plain in
          (t, rw some_are e, is)
    ]

parse_lines-IsParser :
    (regexec : Regexec) (s : ParserState) (lines : List Bytes)
    → IsParser regexec s
    → AreLines lines
    → (t : ParserState) × (parse_lines regexec s lines ≡ done t) × IsParser regexec t
unfolding parse_lines
parse_lines-IsParser regexec s [] h a = (s, refl, h)
parse_lines-IsParser regexec s (line ∷ lines) h a =
    let (t, parsed, is) = parse_single_line-IsParser regexec s line h a.0 in
    elim (Bool-cases (length t.handled == length s.handled)) [
      | inl quiet ↦
          let (u, rest, then_is) = parse_lines-IsParser regexec t lines is a.1 in
          (u, rw (parsed, quiet, rest) refl, then_is)
      | inr called ↦ (t, rw (parsed, called) refl, is)
    ]

-- Whatever the buffer holds and the patterns match: when the message so far is empty or an oops
-- message, of 1 to 100 lines of text with the first pattern that matches its first line,
-- split_buf_by_line runs through without leaving the array of lines, and the message after it and each
-- that it hands to the handler is one too.
pub split_buf_by_line-IsParser :
    (regexec : Regexec) (s : ParserState) (buf : Bytes)
    → IsParser regexec s
    → (t : ParserState) × (split_buf_by_line regexec s buf ≡ done t) × IsParser regexec t
unfolding split_buf_by_line
split_buf_by_line-IsParser regexec s buf h =
    parse_lines-IsParser regexec s (cut_lines buf).0 h (cut_lines-AreLines buf)
