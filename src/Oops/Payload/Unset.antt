-- ===== src/Oops/Payload/Unset.antt =====
-- A line of a stack trace with an address and nothing behind it.
use mathlib.Core.List.{reverse}
use telemetrics_client.Base.{
  ℕ, suc, ◌≡◌, ◌⊎◌, inl, inr, refl, ap, ◌∙◌, Bool, true, false, ◌&&◌, ◌||◌, List, [], ◌∷◌, ◌++◌,
  Option, none, some, if◌then◌else◌, length, drop, arith, Option-cases,
}
use telemetrics_client.Base.Bytes.{Bytes, codes, is_prefix}
use telemetrics_client.Base.Run.{Run, done, exit, fault, ◌>>=◌}
use telemetrics_client.Oops.{str_starts_with_casei}
use telemetrics_client.Oops.Cpu.{
  parse_kernel_cpu_line, cpu_line, strstr, kernel_version_in, version_before, behind_flag,
  split_hash,
}
use telemetrics_client.Oops.Frames.{
  StackFrame, behind_word, skip_mark, frame_addr, frame_at, append_at, text_at, stack_frame_append,
  is_mark,
}
use telemetrics_client.Oops.Numbers.{skip_spaces}
use telemetrics_client.Oops.Payload.{
  Backtrace, no_backtrace, scan_other, scan_line, scan_lines, frame_lines, print_backtrace,
  parse_backtrace, parse_payload,
}
use telemetrics_client.Oops.Payload.Traces.{scan_lines-reverse}
use telemetrics_client.Oops.Payload.Turns.{parse_registers_returns}
use telemetrics_client.Oops.Registers.{Register, parse_registers}
use telemetrics_client.Record.Payload.{is_space}
use telemetrics_client.Oops.Payload.Addresses.{NoSpace, skip_word-NoSpace, frame_addr-NoSpace}

-- One of the frames is not initialised behind its address.
abbrev HasUnset : List StackFrame → Type 0
HasUnset [] = ⊥
HasUnset (f ∷ fs) = (f.text ≡ none) ⊎ HasUnset fs

frame_at-unset : (word : Bytes) → NoSpace word → (frame_at (b'[' ∷ word)).text ≡ none
unfolding frame_at
frame_at-unset word h =
    ap (λ rest. text_at (behind_word rest))
      (skip_word-NoSpace (frame_addr word).1 (frame_addr-NoSpace word h))
    ∙ unfold behind_word text_at in refl

frame_lines-unset : (k : ℕ) (fs : List StackFrame) → HasUnset fs → frame_lines k fs ≡ fault
unfolding frame_lines
frame_lines-unset k [] h = absurd h
frame_lines-unset k (f ∷ fs) h = elim (Option-cases f.text) [
  | inl unset ↦ rw (unset, frame_lines) refl
  | inr (text, is) ↦ elim h [
    | inl unset ↦ cc (is, unset)
    | inr later ↦ rw (is, frame_lines) (rw (frame_lines-unset (suc k) fs later) refl)
  ]
]

HasUnset-append_at :
    (frames : List StackFrame) (start : Option Bytes)
    → HasUnset frames
    → HasUnset (append_at frames start)
unfolding append_at
HasUnset-append_at frames none h = h
HasUnset-append_at frames (some start) h = inr h

-- It does not return, or a frame is not initialised.
abbrev Unset : Run Backtrace → Type 0
Unset (done b) = HasUnset b.frames
Unset exit = ⊥
Unset fault = Unit

abbrev Returns {ℓ} : {A : Type ℓ} → Run A → Type 0
Returns (done a) = Unit
Returns exit = ⊥
Returns fault = Unit

Returns-bind {ℓ κ} :
    {A : Type ℓ} {B : Type κ} (m : Run A) (f : A → Run B)
    → Returns m
    → ((a : A) → Returns (f a))
    → Returns (m >>= f)
Returns-bind (done a) f h k = k a
Returns-bind exit f h k = h
Returns-bind fault f h k = tt

Returns-version_before :
    (first : Bool) (o : Option (Bytes × Bytes)) → Returns (version_before first o)
unfolding version_before
Returns-version_before true none = tt
Returns-version_before false none = tt
Returns-version_before true (some ([], hash)) = tt
Returns-version_before false (some ([], hash)) = tt
Returns-version_before true (some (c ∷ back, hash)) = tt
Returns-version_before false (some (c ∷ back, hash)) = tt

Returns-kernel_version_in : (first : Bool) (line : Bytes) → Returns (kernel_version_in first line)
unfolding kernel_version_in
Returns-kernel_version_in first line = Returns-version_before first (split_hash [] line)

Returns-behind_flag : (s : Bytes) → Returns (behind_flag s)
unfolding behind_flag
Returns-behind_flag [] = tt
Returns-behind_flag (c ∷ cs) = Returns-kernel_version_in false cs

Returns-cpu_line : (line : Bytes) (o p : Option Bytes) → Returns (cpu_line line o p)
unfolding cpu_line
Returns-cpu_line line (some end) p =
    Returns-bind (kernel_version_in false (drop 12 end)) _
      (Returns-kernel_version_in false (drop 12 end)) (λ _. tt)
Returns-cpu_line line none (some end) =
    Returns-bind (behind_flag (drop 9 end)) _ (Returns-behind_flag (drop 9 end)) (λ _. tt)
Returns-cpu_line line none none =
    Returns-bind (kernel_version_in true line) _ (Returns-kernel_version_in true line) (λ _. tt)

Unset-bind {ℓ} :
    {A : Type ℓ} (m : Run A) (f : A → Run Backtrace)
    → Returns m
    → ((a : A) → Unset (f a))
    → Unset (m >>= f)
Unset-bind (done a) f h k = k a
Unset-bind exit f h k = h
Unset-bind fault f h k = tt

Unset-if : (c : Bool) (x y : Run Backtrace) → Unset x → Unset y → Unset (if c then x else y)
Unset-if true x y h k = h
Unset-if false x y h k = k

Returns-registers :
    (line : Bytes) (regs : List Register) → Returns (parse_registers (suc (length line)) line regs)
Returns-registers line regs =
    let (r, e) = parse_registers_returns (suc (length line)) line regs (omega arith) in rw e tt

scan_other-Unset : (b : Backtrace) (line : Bytes) → HasUnset b.frames → Unset (scan_other b line)
unfolding scan_other parse_kernel_cpu_line
scan_other-Unset b line h =
    Unset-if (str_starts_with_casei line (codes "Modules linked in: ")) _ _ h (
      Unset-if
        (str_starts_with_casei line (codes "CPU: ") || str_starts_with_casei line (codes "PID: ")) _
        _
        (Unset-bind
          (cpu_line line (strstr line (codes " Not tainted ")) (strstr line (codes "Tainted: "))) _
          (Returns-cpu_line line (strstr line (codes " Not tainted "))
            (strstr line (codes "Tainted: ")))
          (λ _. h))
        (Unset-bind (parse_registers (suc (length line)) line b.registers) _
          (Returns-registers line b.registers) (λ _. h)))

scan_line-Unset : (b : Backtrace) (line : Bytes) → HasUnset b.frames → Unset (scan_line b line)
unfolding scan_line stack_frame_append
scan_line-Unset b line h =
    Unset-if (b.in_trace && is_prefix (codes " ") line) _ _
      (HasUnset-append_at b.frames (skip_mark (skip_spaces line)) h)
      (scan_other-Unset (record b { in_trace = false }) line h)

stack_frame_append-unset :
    (word : Bytes) → NoSpace word → HasUnset (stack_frame_append [] (codes " [" ++ word))
unfolding stack_frame_append append_at skip_spaces is_space skip_mark is_mark is_prefix
stack_frame_append-unset word h = inl (frame_at-unset word h)

Unset-bind_line :
    (r : Run Backtrace) (line : Bytes) → Unset r → Unset (r >>= (λ b. scan_line b line))
Unset-bind_line (done b) line h = scan_line-Unset b line h
Unset-bind_line exit line h = h
Unset-bind_line fault line h = tt

-- The unset frame that the last line leaves stays.
scan_lines-Unset :
    (lines : List Bytes) (word : Bytes)
    → NoSpace word
    → Unset (scan_lines no_backtrace (reverse (lines ++ (codes " [" ++ word) ∷ [])))
scan_lines-Unset [] word h =
    unfold scan_lines scan_line no_backtrace is_prefix in stack_frame_append-unset word h
scan_lines-Unset (line ∷ lines) word h =
    rw (scan_lines-reverse no_backtrace line (lines ++ (codes " [" ++ word) ∷ []))
      (Unset-bind_line _ line (scan_lines-Unset lines word h))

print-Unset :
    (override : Bool) (r : Run Backtrace)
    → Unset r
    → (r >>= (λ b. print_backtrace override b)) ≡ fault
unfolding print_backtrace
print-Unset override (done b) h = rw (frame_lines-unset 1 b.frames h) refl
print-Unset override exit h = absurd h
print-Unset override fault h = refl

-- If the last line of a message, behind its first, is a space and `[` with no other space behind, such
-- as ` [<ffffffffa1002128>]`, then parse_payload reads a function name that was never written,
-- whatever the other lines are.
pub parse_payload-unset :
    (override : Bool) (reason : Bytes) (lines : List Bytes) (word : Bytes)
    → NoSpace word
    → parse_payload override (reason ∷ (lines ++ (codes " [" ++ word) ∷ [])) ≡ fault
unfolding parse_payload parse_backtrace
parse_payload-unset override reason lines word h =
    rw (print-Unset override _ (scan_lines-Unset lines word h)) refl
