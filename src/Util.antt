-- ===== src/Util.antt =====
-- src/util.c, and the event id checks of src/telemetry.c and src/journal/journal.c.
-- A possibly null `char *` is an Option. Allocation is taken to succeed.
pub mod Classification
pub mod RandomId
use telemetrics_client.Base.{
  ℕ, suc, ◌+◌, ◌*◌, ◌≡◌, Bool, true, false, not, ◌&&◌, ◌||◌, List, [], ◌∷◌, ◌++◌, Option, none,
  some, ltb, leb, ◌==◌, if◌then◌else◌, length,
}
use telemetrics_client.Base.Bytes.{Bytes, is_prefix, after}
use telemetrics_client.Base.Run.{Run, done, fault, ◌>>=◌}
use telemetrics_client.Common.{max_class_length, max_subcat_length, event_id_len, event_id_alphab}

-- The copied line, if the text starts with the header's name.
unfoldable pub get_header : Option Bytes → Bytes → Option Bytes
get_header none needle = none
get_header (some haystack) needle = if is_prefix needle haystack then some haystack else none

skip_one_space : Bytes → Bytes
skip_one_space [] = []
skip_one_space (c ∷ cs) = if c == b' ' then cs else c ∷ cs

value_after : Option Bytes → Option Bytes
value_after none = none
value_after (some sep) = some (skip_one_space sep)

unfoldable pub get_header_value : Option Bytes → Option Bytes
unfolding skip_one_space value_after
get_header_value none = none
get_header_value (some header) = value_after (after b':' header)

-- `*addr` and its size; `realloc` succeeds. The result is the new `*allocated`.
unfoldable pub reallocate : ℕ → ℕ → ℕ
reallocate allocated requested = if leb requested allocated then allocated else requested * 2

-- The loop over the text: `none` is `return 1`, else the number of slashes.
unfoldable pub scan_classification : ℕ → ℕ → Bytes → Option ℕ
scan_classification x slashes [] = some slashes
scan_classification x slashes (c ∷ cs) =
    let at_slash = scan_classification 1 (slashes + 1) cs in
    let other = scan_classification (x + 1) slashes cs in
    if c == b'/' then at_slash else if ltb max_subcat_length x then none else other

slashes_verdict : Option ℕ → ℕ
slashes_verdict none = 1
slashes_verdict (some slashes) = if slashes == 2 then 0 else 1

-- The loop's bound `j - 1` is the largest size_t for the empty text: the loop leaves the text.
unfoldable pub validate_classification : Option Bytes → Run ℕ
unfolding slashes_verdict scan_classification
validate_classification none = done 1
validate_classification (some []) = fault
validate_classification (some (c ∷ cs)) =
    if ltb max_class_length (length (c ∷ cs))
    then done 1
    else done (slashes_verdict (scan_classification 0 0 (c ∷ cs)))

unfoldable pub is_member : ℕ → Bytes → Bool
is_member c [] = false
is_member c (d ∷ ds) = c == d || is_member c ds

-- strspn(s, accept)
unfoldable pub span_length : Bytes → Bytes → ℕ
span_length [] accept = 0
span_length (c ∷ cs) accept =
    let more = span_length cs accept in if is_member c accept then suc more else 0

-- Both files define it, with the same tests.
unfoldable pub validate_event_id : Option Bytes → ℕ
unfolding is_member span_length
validate_event_id none = 1
validate_event_id (some id) =
    if not (length id == event_id_len)
    then 1
    else if not (span_length id event_id_alphab == event_id_len)
    then 1
    else 0
