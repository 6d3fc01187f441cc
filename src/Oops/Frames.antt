-- ===== src/Oops/Frames.antt =====
-- `stack_frame_append` of src/probes/oops_parser.c.
use telemetrics_client.Base.{
  ℕ, ◌-◌, ◌^◌, Bool, ◌||◌, List, [], ◌∷◌, Option, none, some, ◌==◌, if◌then◌else◌,
}
use telemetrics_client.Base.Bytes.{Bytes, codes, is_prefix, after}
use telemetrics_client.Oops.Numbers.{skip_spaces, strtoll_16}
use telemetrics_client.Record.Payload.{is_space}

-- `offset` by its 64 bits.
pub record FrameText : Type 0 where
  pub function : Bytes
  pub offset : ℕ
  pub module_name : Bytes

-- The fields of `text` are not initialised where it is none.
pub record StackFrame : Type 0 where
  pub addr : ℕ
  pub text : Option FrameText

unfoldable pub skip_word : Bytes → Bytes
skip_word [] = []
skip_word (c ∷ cs) = if is_space c then c ∷ cs else skip_word cs

-- Behind the word, unless the text ends with it.
unfoldable pub behind_word : Bytes → Option Bytes
unfolding skip_spaces
behind_word [] = none
behind_word (c ∷ cs) = some (skip_spaces (c ∷ cs))

unfoldable pub is_mark : Bytes → Bool
is_mark start =
    is_prefix (codes "<IRQ>") start
    || (is_prefix (codes "<NMI>") start
        || (is_prefix (codes "<EOI>") start || is_prefix (codes "<<EOE>>") start))

unfoldable pub skip_mark : Bytes → Option Bytes
unfolding is_mark skip_word behind_word
skip_mark start = if is_mark start then behind_word (skip_word start) else some start

unfoldable pub before : ℕ → Bytes → Bytes
before b [] = []
before b (c ∷ cs) = if c == b then [] else c ∷ before b cs

-- -1 where there is no offset.
unfoldable pub offset_of : Option Bytes → ℕ
unfolding strtoll_16
offset_of none = 2 ^ 64 - 1
offset_of (some digits) = (strtoll_16 digits).0

unfoldable pub frame_text : Bytes → FrameText
unfolding before offset_of
frame_text start = record {
  function = before b'+' start;
  offset = offset_of (after b'+' start);
  module_name = codes "kernel";
}

-- Behind the opening bracket.
unfoldable pub frame_addr : Bytes → ℕ × Bytes
unfolding strtoll_16
frame_addr [] = (0, [])
frame_addr (c ∷ cs) = if c == b'<' then strtoll_16 cs else (0, c ∷ cs)

unfoldable pub text_at : Option Bytes → Option FrameText
unfolding frame_text
text_at none = none
text_at (some start) = some (frame_text start)

unfoldable pub frame_at : Bytes → StackFrame
unfolding frame_addr text_at skip_word behind_word
frame_at [] = record { addr = 0; text = text_at (some []) }
frame_at (c ∷ cs) =
    let (addr, rest) = frame_addr cs in
    if c == b'['
    then record { addr = addr; text = text_at (behind_word (skip_word rest)) }
    else record { addr = 0; text = text_at (some (c ∷ cs)) }

unfoldable pub append_at : List StackFrame → Option Bytes → List StackFrame
unfolding frame_at
append_at frames none = frames
append_at frames (some start) = frame_at start ∷ frames

unfoldable pub stack_frame_append : List StackFrame → Bytes → List StackFrame
unfolding append_at skip_mark skip_spaces
stack_frame_append frames start = append_at frames (skip_mark (skip_spaces start))
