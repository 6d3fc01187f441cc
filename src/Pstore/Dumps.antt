-- ===== src/Pstore/Dumps.antt =====
-- When `handle_crash_dump` comes to an end.
use telemetrics_client.Base.{◌≤◌, ◌≡◌, ◌⊎◌, Bool, true, false, [], ◌∷◌, none, some, ◌==◌, length}
use telemetrics_client.Base.Bytes.{Bytes, Lacks}
use telemetrics_client.Pstore.{split_line}

-- No byte, or a newline as the last one.
abbrev pub ends_whole : Bytes → Bool
ends_whole [] = true
ends_whole (c ∷ []) = c == b'\n'
ends_whole (c ∷ d ∷ s) = ends_whole (d ∷ s)

-- There is no newline; or there is a first line, and what stands behind it ends alike.
abbrev Splits : Bytes → Bytes → Type 0
Splits cs s =
    ((split_line s ≡ none) × (ends_whole s ≡ false))
    ⊎ ((line : Bytes) × (rest : Bytes) × (split_line s ≡ some (line, rest))
        × Lacks b'\n' line
        × (ends_whole rest ≡ ends_whole s)
        × (length rest ≤ length cs))
