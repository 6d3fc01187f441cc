-- ===== src/Util/Classification.antt =====
-- `validate_classification` against a description by the parts between the slashes.
use telemetrics_client.Base.{
  ℕ, ◌+◌, ◌≤◌, ◌≡◌, ◌↔◌, Bool, true, ◌&&◌, List, [], ◌∷◌, none, some, ltb, leb, ◌==◌, if◌then◌else◌,
  length, arith, Bool-cases, inl, inr,
}
use telemetrics_client.Base.Bytes.{Bytes}
use telemetrics_client.Base.Run.{done}
use telemetrics_client.Common.{max_class_length, max_subcat_length}
use telemetrics_client.Util.{scan_classification, validate_classification}

-- The text before the first slash, and the texts after each slash.
pub parts : Bytes → Bytes × List Bytes
parts [] = ([], [])
parts (c ∷ cs) =
    let (first, rest) = parts cs in if c == b'/' then ([], first ∷ rest) else (c ∷ first, rest)

all_short : List Bytes → Bool
all_short [] = true
all_short (p ∷ ps) = leb (length p) max_subcat_length && all_short ps

fits : ℕ → Bytes × List Bytes → Bool
fits x (first, rest) = leb (x + length first) (max_subcat_length + 1) && all_short rest

scan-parts :
    (x slashes : ℕ) (s : Bytes)
    → x ≤ max_subcat_length + 1
    → scan_classification x slashes s
      ≡ (if fits x (parts s) then some (slashes + length (parts s).1) else none)
unfolding scan_classification parts fits all_short
scan-parts x slashes [] h = ground arith
scan-parts x slashes (c ∷ cs) h = elim (Bool-cases (c == b'/')) [
  | inl slash ↦ rw (slash, scan-parts 1 (slashes + 1) cs (omega arith)) (ground arith)
  | inr other ↦ elim (Bool-cases (ltb max_subcat_length x)) [
    | inl long ↦ rw (other, long) (ground arith)
    | inr short ↦ rw (other, short, scan-parts (x + 1) slashes cs (ground arith)) (ground arith)
  ]
]

-- Three parts, of which the first may be one byte longer than the others.
abbrev pub IsThreeParts : Bytes × List Bytes → Type 0
IsThreeParts (a, b ∷ c ∷ []) =
    (length a ≤ max_subcat_length + 1)
    × (length b ≤ max_subcat_length)
    × (length c ≤ max_subcat_length)
IsThreeParts _ = ⊥

fits_iff : (p : Bytes × List Bytes) → ((fits 0 p ≡ true) × (length p.1 ≡ 2)) ↔ IsThreeParts p
unfolding fits all_short
fits_iff (a, []) = ground arith
fits_iff (a, b ∷ []) = ground arith
fits_iff (a, b ∷ c ∷ []) = ground arith
fits_iff (a, b ∷ c ∷ d ∷ rest) = ground arith

-- A non-empty text is accepted exactly when it has at most 122 bytes and two slashes, with at most
-- 41 bytes before the first slash and at most 40 after each.
pub validate_iff_parts :
    (c : ℕ) (cs : Bytes)
    → (validate_classification (some (c ∷ cs)) ≡ done 0)
      ↔ ((length (c ∷ cs) ≤ max_class_length) × IsThreeParts (parts (c ∷ cs)))
unfolding validate_classification
validate_iff_parts c cs =
    rw (scan-parts 0 0 (c ∷ cs) (omega arith)) (ground (arith, fits_iff (parts (c ∷ cs))))
