-- ===== src/Client/EventId.antt =====
-- src/telemetry.c: `tm_set_event_id`, and that a record keeps its headers.
use telemetrics_client.Base.{
  ℕ, zero, suc, ◌≡◌, ◌≢◌, ◌⊎◌, inl, inr, refl, sym, ap, ◌∙◌, false, List, [], ◌∷◌, ◌++◌, Option,
  none, some, ◌==◌, if◌then◌else◌, length, length-append, get_elem?, set, arith, Bool-cases, ==_iff,
}
use telemetrics_client.Base.Bytes.{Bytes, codes, Lacks, Lacks-append, is_prefix-append}
use telemetrics_client.Base.Int.{ℤ, pos, negsuc}
use telemetrics_client.Client.Creation.{HasHeaders}
use telemetrics_client.Client.Fields.{header_text_line}
use telemetrics_client.Client.Headers.{header_text}
use telemetrics_client.Common.{header_names, tm_event_id, event_id_alphab}
use telemetrics_client.Record.Lines.{IsHeader, AreHeaders}
use telemetrics_client.Record.Packets.{header_lines}
use telemetrics_client.Record.Wire.{TelemRecord, concat}
use telemetrics_client.Util.{validate_event_id, is_member, span_length}

-- The record is there; header_size is not touched.
unfoldable pub tm_set_event_id : Option Bytes → TelemRecord → ℤ × TelemRecord
unfolding header_text
tm_set_event_id none r = (negsuc 0, r)
tm_set_event_id (some event_id) r =
    if validate_event_id (some event_id) == 0
    then (
      pos 0,
      record r { headers = set r.headers tm_event_id (header_text (codes "event_id") event_id) },
    )
    else (negsuc 0, r)

header_lines-set :
    (hs : List Bytes) (i : ℕ) (h : Bytes)
    → set (header_lines hs) i (h ++ b'\n' ∷ []) ≡ header_lines (set hs i h)
unfolding header_lines
header_lines-set [] i h = refl
header_lines-set (x ∷ hs) zero h = refl
header_lines-set (x ∷ hs) (suc i) h = ap (◌∷◌ (x ++ b'\n' ∷ [])) (header_lines-set hs i h)

get_elem?-header_lines :
    (hs : List Bytes) (i : ℕ) (h : Bytes)
    → get_elem? hs i ≡ some h
    → get_elem? (header_lines hs) i ≡ some (h ++ b'\n' ∷ [])
unfolding header_lines
get_elem?-header_lines [] i h e = absurd cc
get_elem?-header_lines (x ∷ hs) zero h e = let same : x ≡ h = cc in rw same refl
get_elem?-header_lines (x ∷ hs) (suc i) h e = get_elem?-header_lines hs i h e

length-concat-set :
    (xs : List Bytes) (i : ℕ) (x y : Bytes)
    → get_elem? xs i ≡ some x
    → length y ≡ length x
    → length (concat (set xs i y)) ≡ length (concat xs)
unfolding concat
length-concat-set [] i x y e h = absurd cc
length-concat-set (z ∷ xs) zero x y e h =
    let same : z ≡ x = cc in
    omega (arith, length-append y (concat xs), length-append z (concat xs), h, ap length same)
length-concat-set (z ∷ xs) (suc i) x y e h = omega (
  arith,
  length-append z (concat (set xs i y)),
  length-append z (concat xs),
  length-concat-set xs i x y e h,
)

AreHeaders-set :
    (names hs : List Bytes) (i : ℕ) (name h : Bytes)
    → get_elem? names i ≡ some name
    → IsHeader name h
    → AreHeaders names hs
    → AreHeaders names (set hs i h)
AreHeaders-set [] [] i name h e is a = tt
AreHeaders-set [] (x ∷ hs) i name h e is a = absurd a
AreHeaders-set (n ∷ names) [] i name h e is a = absurd a
AreHeaders-set (n ∷ names) (x ∷ hs) zero name h e is a =
    let same : n ≡ name = cc in (rw same is, a.1)
AreHeaders-set (n ∷ names) (x ∷ hs) (suc i) name h e is a =
    (a.0, AreHeaders-set names hs i name h e is a.1)

span_length-Lacks :
    (b : ℕ) (s accept : Bytes)
    → is_member b accept ≡ false
    → span_length s accept ≡ length s
    → Lacks b s
unfolding span_length
span_length-Lacks b [] accept h e = tt
span_length-Lacks b (c ∷ cs) accept h e = elim (Bool-cases (is_member c accept)) [
  | inr strange ↦ absurd (ground (arith, e, strange))
  | inl known ↦
      let more : span_length cs accept ≡ length cs = ground (arith, e, known) in
      (
        λ same. ground (arith, known, h, ap (λ x. is_member x accept) same),
        span_length-Lacks b cs accept h more,
      )
]

-- A valid id is 32 bytes, none of them a newline or NUL.
valid_id :
    (id : Bytes) → validate_event_id (some id) ≡ 0 → (length id ≡ 32) × Lacks b'\n' id × Lacks 0 id
unfolding validate_event_id is_member
valid_id id e = elim (Bool-cases (length id == 32)) [
  | inr other ↦
      let refused : validate_event_id (some id) ≡ 1 = rw other refl in
      absurd (omega (arith, e, refused))
  | inl size ↦ elim (Bool-cases (span_length id event_id_alphab == 32)) [
    | inr other ↦
        let refused : validate_event_id (some id) ≡ 1 = rw (size, other) refl in
        absurd (omega (arith, e, refused))
    | inl span ↦
        let n = (==_iff (length id) 32).0 size in
        let all = (==_iff (span_length id event_id_alphab) 32).0 span ∙ sym n in
        (
          n,
          span_length-Lacks b'\n' id event_id_alphab refl all,
          span_length-Lacks 0 id event_id_alphab refl all,
        )
  ]
]

abbrev event_id_header : Bytes → Bytes
event_id_header id = codes "event_id" ++ (codes ": " ++ id)

event_id_header-IsHeader :
    (id : Bytes)
    → (length id ≡ 32) × Lacks b'\n' id × Lacks 0 id
    → IsHeader (codes "event_id") (event_id_header id)
event_id_header-IsHeader id (size, line, text) = record {
  named = is_prefix-append (codes "event_id") (codes ": " ++ id);
  line = record {
    no_newline = Lacks-append b'\n' (codes "event_id: ") id (omega arith) line;
    no_nul = Lacks-append 0 (codes "event_id: ") id (omega arith) text;
    fits = omega (arith, size);
  };
}

set_header-HasHeaders :
    (r : TelemRecord) (hs : List Bytes) (old id : Bytes)
    → HasHeaders r hs
    → get_elem? hs tm_event_id ≡ some old
    → length old ≡ 42
    → (length id ≡ 32) × Lacks b'\n' id × Lacks 0 id
    → HasHeaders
        (record r { headers = set r.headers tm_event_id (header_text (codes "event_id") id) })
        (set hs tm_event_id (event_id_header id))
unfolding header_names
set_header-HasHeaders r hs old id h at usual is =
    let text = header_text_line (codes "event_id") id in
    let before : get_elem? r.headers tm_event_id ≡ some (old ++ b'\n' ∷ []) =
      ap (λ l. get_elem? l tm_event_id) h.lines ∙ get_elem?-header_lines hs tm_event_id old at in
    let size : length (header_text (codes "event_id") id) ≡ length (old ++ b'\n' ∷ []) = omega (
      arith,
      ap length text,
      length-append old (b'\n' ∷ []),
      length-append (event_id_header id) (b'\n' ∷ []),
      usual,
      is.0,
    ) in
    record {
      lines =
          ap (λ t. set r.headers tm_event_id t) text
          ∙ ap (λ l. set l tm_event_id (event_id_header id ++ b'\n' ∷ [])) h.lines
          ∙ header_lines-set hs tm_event_id (event_id_header id);
      named =
          AreHeaders-set header_names hs tm_event_id (codes "event_id") (event_id_header id) refl
            (event_id_header-IsHeader id is) h.named;
      header_size =
          h.header_size
          ∙ sym (length-concat-set r.headers tm_event_id (old ++ b'\n' ∷ []) _ before size);
    }

-- tm_set_event_id on a record whose event id header has its usual 42 bytes: with a valid id it returns
-- 0 and the record has its headers with the new event id among them, header_size still right; with any
-- other id it returns -1 and the record is as before.
pub tm_set_event_id-HasHeaders :
    (r : TelemRecord) (hs : List Bytes) (old id : Bytes)
    → HasHeaders r hs
    → get_elem? hs tm_event_id ≡ some old
    → length old ≡ 42
    → ((validate_event_id (some id) ≡ 0)
        × ((tm_set_event_id (some id) r).0 ≡ pos 0)
        × HasHeaders
            (tm_set_event_id (some id) r).1
            (set hs tm_event_id (codes "event_id" ++ (codes ": " ++ id))))
      ⊎ ((validate_event_id (some id) ≢ 0) × (tm_set_event_id (some id) r ≡ (negsuc 0, r)))
unfolding tm_set_event_id
tm_set_event_id-HasHeaders r hs old id h at usual =
    elim (Bool-cases (validate_event_id (some id) == 0)) [
      | inr refused ↦ inr (λ e. ground (arith, e, refused), rw refused refl)
      | inl accepted ↦
          let valid = (==_iff (validate_event_id (some id)) 0).0 accepted in
          let is = valid_id id valid in
          inl
            (valid, rw accepted refl, rw accepted (set_header-HasHeaders r hs old id h at usual is))
    ]
