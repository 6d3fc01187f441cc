-- ===== src/Journal/Print/Filters.antt =====
-- src/journal/journal.c: which entries the filters of `print_journal` let through.
use mathlib.Core.List.{append_assoc}
use telemetrics_client.Base.{
  ℕ, suc, ◌+◌, ◌-◌, ◌≤◌, ◌≡◌, ◌≢◌, ◌⊎◌, inl, inr, ◌∙◌, refl, ap, sym, true, false, [], ◌∷◌, ◌++◌,
  Option, none, some, ltb, length, length-append, take-append-drop, take, drop, arith, Bool-cases,
}
use telemetrics_client.Base.Bytes.{
  Bytes, codes, equal, equal_refl, equal→eq, is_prefix, is_prefix-append, is_prefix→append,
}
use telemetrics_client.Base.Run.{done}
use telemetrics_client.Journal.{JournalEntry}
use telemetrics_client.Journal.Print.{
  Printing, differs, ends_in_star, is_class_prefix, class_differs, is_skipped,
}

-- The text is the one that the filter names, if there is a filter.
abbrev pub Agrees : Option Bytes → Bytes → Type 0
Agrees none text = Unit
Agrees (some filter) text = text ≡ filter

-- A class with "/*" at its end stands for all classes below it, any other for itself.
abbrev pub OfClass : Option Bytes → Bytes → Type 0
OfClass none text = Unit
OfClass (some class) text =
    ((above : Bytes) × (class ≡ above ++ codes "/*")
      × (rest : Bytes) × (text ≡ above ++ b'/' ∷ rest))
    ⊎ (((above : Bytes) → class ≢ above ++ codes "/*") × (text ≡ class))

abbrev pub Matches : Printing → JournalEntry → Type 0
Matches p e =
    Agrees p.record_id e.record_id
    × Agrees p.boot_id e.boot_id
    × Agrees p.event_id e.event_id
    × OfClass p.classification e.classification

-- The class to look for has two bytes or more.
abbrev pub IsLong : Option Bytes → Type 0
IsLong none = Unit
IsLong (some class) = 2 ≤ length class

differs_cases :
    (filter : Option Bytes) (text : Bytes)
    → ((differs filter text ≡ true) × ¬ Agrees filter text)
      ⊎ ((differs filter text ≡ false) × Agrees filter text)
unfolding differs
differs_cases none text = inr (refl, tt)
differs_cases (some filter) text = elim (Bool-cases (equal text filter)) [
  | inl same ↦ inr (rw same refl, equal→eq text filter same)
  | inr other ↦
      inl
        (rw other refl, λ e. let alike : equal text filter ≡ true = rw e (equal_refl filter) in cc)
]

drop-append : (s t : Bytes) → drop (length s) (s ++ t) ≡ t
drop-append [] t = refl
drop-append (c ∷ s) t = drop-append s t

take-append : (s t : Bytes) (c : ℕ) → take (suc (length s)) (s ++ c ∷ t) ≡ s ++ c ∷ []
take-append [] t c = refl
take-append (b ∷ s) t c = ap (◌∷◌ b) (take-append s t c)

-- The lengths that strncmp and strcmp work with.
star_lengths :
    (class above : Bytes)
    → class ≡ above ++ codes "/*"
    → (drop (length class - 2) class ≡ codes "/*")
      × (take (length class - 1) class ≡ above ++ b'/' ∷ [])
star_lengths class above e =
    let size : length class ≡ length above + 2 = ap length e ∙ length-append above (codes "/*") in
    let front : length class - 2 ≡ length above = omega (arith, size) in
    let more : length class - 1 ≡ suc (length above) = omega (arith, size) in
    (
      rw (front, e) (drop-append above (codes "/*")),
      rw (more, e) (take-append above (b'*' ∷ []) b'/'),
    )

ends_in_star_cases :
    (class : Bytes)
    → ((ends_in_star class ≡ true) × (above : Bytes) × (class ≡ above ++ codes "/*"))
      ⊎ ((ends_in_star class ≡ false) × ((above : Bytes) → class ≢ above ++ codes "/*"))
unfolding ends_in_star
ends_in_star_cases class = elim (Bool-cases (ends_in_star class)) [
  | inl star ↦ inl (
    star,
    take (length class - 2) class,
    sym (take-append-drop (length class - 2) class)
        ∙ ap (λ s. take (length class - 2) class ++ s) (equal→eq _ _ star),
  )
  | inr plain ↦ inr (
    plain,
    λ above e.
        let star : ends_in_star class ≡ true =
          rw (star_lengths class above e).0 (equal_refl (codes "/*")) in
        cc,
  )
]

class_differs_cases :
    (class : Option Bytes) (text : Bytes)
    → IsLong class
    → ((class_differs class text ≡ done true) × ¬ OfClass class text)
      ⊎ ((class_differs class text ≡ done false) × OfClass class text)
unfolding class_differs is_class_prefix
class_differs_cases none text l = inr (refl, tt)
class_differs_cases (some class) text l =
    let long : ltb (length class) 2 ≡ false = ground (arith, l) in
    elim (ends_in_star_cases class) [
      | inl (star, above, e) ↦
          let front = (star_lengths class above e).1 in
          elim (Bool-cases (is_prefix (take (length class - 1) class) text)) [
            | inl below ↦
                let (rest, s) = is_prefix→append _ text below in
                inr (
                  rw (long, star, below) refl,
                  inl (above, e, rest, s ∙ rw front (append_assoc above (b'/' ∷ []) rest)),
                )
            | inr other ↦ inl (
              rw (long, star, other) refl,
              λ m. elim m [
                | inl (above', e', rest, s) ↦
                    let below : is_prefix (take (length class - 1) class) text ≡ true =
                      rw
                        (
                          (star_lengths class above' e').1,
                          s,
                          sym (append_assoc above' (b'/' ∷ []) rest),
                        )
                        (is_prefix-append (above' ++ b'/' ∷ []) rest) in
                    absurd cc
                | inr (plain, _) ↦ plain above e
              ],
            )
          ]
      | inr (plain, never) ↦ elim (Bool-cases (equal text class)) [
        | inl same ↦ inr (rw (long, plain, same) refl, inr (never, equal→eq text class same))
        | inr other ↦ inl (
          rw (long, plain, other) refl,
          λ m. elim m [
            | inl (above, e, _, _) ↦ never above e
            | inr (_, e) ↦
                let alike : equal text class ≡ true = rw e (equal_refl class) in absurd cc
          ],
        )
      ]
    ]

pub is_skipped_cases :
    (p : Printing) (e : JournalEntry)
    → IsLong p.classification
    → ((is_skipped p e ≡ done true) × ¬ Matches p e) ⊎ ((is_skipped p e ≡ done false) × Matches p e)
unfolding is_skipped
is_skipped_cases p e l = elim (differs_cases p.record_id e.record_id) [
  | inl (d, apart) ↦ inl (rw d refl, λ m. apart m.0)
  | inr (d, same) ↦ elim (differs_cases p.boot_id e.boot_id) [
    | inl (d', apart) ↦ inl (rw (d, d') refl, λ m. apart m.1)
    | inr (d', same') ↦ elim (differs_cases p.event_id e.event_id) [
      | inl (d'', apart) ↦ inl (rw (d, d', d'') refl, λ m. apart m.2)
      | inr (d'', same'') ↦ elim (class_differs_cases p.classification e.classification l) [
        | inl (d3, apart) ↦ inl (rw (d, d', d'') d3, λ m. apart m.3)
        | inr (d3, of_class) ↦ inr (rw (d, d', d'') d3, (same, same', same'', of_class))
      ]
    ]
  ]
]
