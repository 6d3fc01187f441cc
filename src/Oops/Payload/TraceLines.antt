-- ===== src/Oops/Payload/TraceLines.antt =====
-- src/probes/oops_parser.c: what stack_frame_append makes of one line of a stack trace.
use telemetrics_client.Base.{
  ℕ, suc, ◌≡◌, ◌≢◌, refl, ap, ◌∙◌, false, List, [], ◌∷◌, ◌++◌, some, arith,
}
use telemetrics_client.Base.Bytes.{Bytes, Lacks, codes, is_prefix, after-Lacks}
use telemetrics_client.Journal.{decimal}
use telemetrics_client.Oops.Frames.{
  StackFrame, before, frame_text, frame_at, append_at, is_mark, skip_mark, offset_of,
  stack_frame_append, text_at,
}
use telemetrics_client.Oops.Numbers.{skip_spaces}
use telemetrics_client.Record.Payload.{is_space}

-- A line of a stack trace without an address, such as ` do_one_initcall+0xb8/0x1e0`.
pub record TraceLine : Type 0 where
  pub first : ℕ
  pub others : Bytes
  pub offset : Bytes
  pub no_space : is_space first ≡ false
  pub no_mark : first ≢ b'<'
  pub no_bracket : first ≢ b'['
  pub no_plus : Lacks b'+' (first ∷ others)

abbrev pub trace_line : TraceLine → Bytes
trace_line t = b' ' ∷ t.first ∷ (t.others ++ (b'+' ∷ t.offset))

abbrev pub frame_of : TraceLine → StackFrame
frame_of t = record {
  addr = 0;
  text = some (record {
    function = t.first ∷ t.others;
    offset = offset_of (some t.offset);
    module_name = codes "kernel";
  });
}

-- "#1 do_one_initcall - [kernel]" for each line, numbered from `k` on.
abbrev pub numbered : ℕ → List TraceLine → Bytes
numbered k [] = []
numbered k (t ∷ ts) =
    (b'#' ∷ decimal k ++ (b' ' ∷ (t.first ∷ t.others) ++ codes " - [kernel]\n"))
    ++ numbered (suc k) ts

before-Lacks : (b : ℕ) (s t : Bytes) → Lacks b s → before b (s ++ b ∷ t) ≡ s
unfolding before
before-Lacks b [] t h = ground arith
before-Lacks b (c ∷ s) t h = ground (arith, before-Lacks b s t h.1)

skip_mark-plain : (c : ℕ) (s : Bytes) → c ≢ b'<' → skip_mark (c ∷ s) ≡ some (c ∷ s)
unfolding skip_mark is_mark is_prefix
skip_mark-plain c s h = ground (arith, h)

frame_at-plain :
    (c : ℕ) (s : Bytes)
    → c ≢ b'['
    → frame_at (c ∷ s) ≡ record { addr = 0; text = some (frame_text (c ∷ s)) }
unfolding frame_at text_at
frame_at-plain c s h = ground (arith, h)

skip_spaces-plain : (c : ℕ) (s : Bytes) → is_space c ≡ false → skip_spaces (b' ' ∷ c ∷ s) ≡ c ∷ s
unfolding skip_spaces
skip_spaces-plain c s h = rw (h, skip_spaces) (unfold is_space in refl)

frame_text-trace_line :
    (t : TraceLine)
    → frame_text (t.first ∷ (t.others ++ (b'+' ∷ t.offset))) ≡ record {
      function = t.first ∷ t.others;
      offset = offset_of (some t.offset);
      module_name = codes "kernel";
    }
unfolding frame_text
frame_text-trace_line t =
    rw
      (
        before-Lacks b'+' (t.first ∷ t.others) t.offset t.no_plus,
        after-Lacks b'+' (t.first ∷ t.others) t.offset t.no_plus,
      )
      refl

pub stack_frame_append-trace_line :
    (frames : List StackFrame) (t : TraceLine)
    → stack_frame_append frames (trace_line t) ≡ frame_of t ∷ frames
unfolding stack_frame_append append_at
stack_frame_append-trace_line frames t =
    let text = t.others ++ (b'+' ∷ t.offset) in
    ap (λ s. append_at frames (skip_mark s)) (skip_spaces-plain t.first text t.no_space)
    ∙ ap (λ s. append_at frames s) (skip_mark-plain t.first text t.no_mark)
    ∙ ap (λ f. f ∷ frames)
        (frame_at-plain t.first text t.no_bracket
          ∙ ap (λ f. record { addr = 0; text = some f }) (frame_text-trace_line t))
