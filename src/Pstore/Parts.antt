-- ===== src/Pstore/Parts.antt =====
-- The chunks of a dump give the dump again, in whatever order the directory lists them.
use mathlib.Core.List.{append-nil}
use telemetrics_client.Base.{
  ℕ, zero, suc, ◌-◌, ◌<◌, ◌≡◌, ◌⊎◌, inl, inr, refl, sym, ap, ◌∙◌, List, [], ◌∷◌, Option, none, some,
  ltb, length, get_elem?, set, map, replicate, arith, if_true, lt→ltb,
}
use telemetrics_client.Base.Bytes.{Bytes}
use telemetrics_client.Base.Int.{pos}
use telemetrics_client.Base.Run.{done, ◌>>=◌}
use telemetrics_client.Pstore.{
  Chunk, measure, place_chunk, place_chunks, combine, in_dump, assemble_up_to, assemble,
}
use telemetrics_client.Pstore.Pieces.{
  whole, AreFilled, AreParts, Has, sizes, Below, AtLeast, measure-Below, measure-AtLeast,
  measure-sizes,
}

-- Each entry is empty or the piece at its place.
abbrev Agrees : List Bytes → List (Option Bytes) → Type 0
Agrees [] [] = Unit
Agrees (p ∷ ps) (a ∷ parts) = ((a ≡ none) ⊎ (a ≡ some p)) × Agrees ps parts
Agrees _ _ = ⊥

abbrev IsPlaced : ℕ → List (Option Bytes) → Type 0
IsPlaced k parts = (p : Bytes) × (get_elem? parts k ≡ some (some p))

Agrees-none : (ps : List Bytes) → Agrees ps (replicate (length ps) none)
Agrees-none [] = tt
Agrees-none (p ∷ ps) = (inl refl, Agrees-none ps)

Agrees-set :
    (ps : List Bytes) (parts : List (Option Bytes)) (n : ℕ) (p : Bytes)
    → Agrees ps parts
    → get_elem? ps n ≡ some p
    → Agrees ps (set parts n (some p)) × (n < length parts) × IsPlaced n (set parts n (some p))
Agrees-set [] parts n p h e = absurd cc
Agrees-set (q ∷ ps) [] n p h e = absurd h
Agrees-set (q ∷ ps) (a ∷ parts) zero p h e =
    let same : q ≡ p = cc in ((inr (ap some (sym same)), h.1), omega arith, (p, refl))
Agrees-set (q ∷ ps) (a ∷ parts) (suc n) p h e =
    let (agrees, below, is) = Agrees-set ps parts n p h.1 e in
    ((h.0, agrees), omega (arith, below), is)

IsPlaced-set :
    (parts : List (Option Bytes)) (n k : ℕ) (p : Bytes)
    → IsPlaced k parts
    → IsPlaced k (set parts n (some p))
IsPlaced-set [] n k p h = h
IsPlaced-set (a ∷ parts) zero zero p h = (p, refl)
IsPlaced-set (a ∷ parts) zero (suc k) p h = h
IsPlaced-set (a ∷ parts) (suc n) zero p h = h
IsPlaced-set (a ∷ parts) (suc n) (suc k) p h = IsPlaced-set parts n k p h

place_chunk_there :
    (parts : List (Option Bytes)) (e : Chunk) (n : ℕ) (p : Bytes)
    → e.part ≡ pos n
    → e.contents ≡ some p
    → n < length parts
    → place_chunk parts e e.part ≡ done (set parts n (some p))
unfolding place_chunk
place_chunk_there parts e n p part contents below =
    ap (λ j. place_chunk parts e j) part
    ∙ if_true (ltb n (length parts)) _ _ (lt→ltb n (length parts) below)
    ∙ ap (λ c. done (set parts n c)) contents

place_chunks-Agrees :
    (pieces : List Bytes) (parts : List (Option Bytes)) (es : List Chunk)
    → AreParts pieces es
    → Agrees pieces parts
    → (ps : List (Option Bytes)) × (place_chunks parts es ≡ done ps)
      × Agrees pieces ps
      × ((k : ℕ) → IsPlaced k parts ⊎ Has k es → IsPlaced k ps)
unfolding place_chunks place_chunk
place_chunks-Agrees pieces parts [] a h =
    (parts, refl, h, λ k s. elim s [ inl h' ↦ h' | inr none_is ↦ absurd none_is ])
place_chunks-Agrees pieces parts (e ∷ es) (holds, a) h =
    let (agrees, below, is) = Agrees-set pieces parts holds.place holds.piece h holds.there in
    let (ps, placed, agrees', sets) =
      place_chunks-Agrees pieces (set parts holds.place (some holds.piece)) es a agrees in
    (
      ps,
      rw (place_chunk_there parts e holds.place holds.piece holds.part holds.contents below) placed,
      agrees',
      λ k s. elim s [
        | inl h' ↦ sets k (inl (IsPlaced-set parts holds.place k holds.piece h'))
        | inr (inl this) ↦
            let same : holds.place ≡ k = cc (holds.part, this) in sets k (inl (rw (sym same) is))
        | inr (inr later) ↦ sets k (inr later)
      ],
    )

Agrees-set_all :
    (ps : List Bytes) (parts : List (Option Bytes))
    → Agrees ps parts
    → ((k : ℕ) → k < length ps → IsPlaced k parts)
    → parts ≡ map some ps
Agrees-set_all [] [] h s = refl
Agrees-set_all [] (a ∷ parts) h s = absurd h
Agrees-set_all (p ∷ ps) [] h s = absurd h
Agrees-set_all (p ∷ ps) (a ∷ parts) (is, h) s =
    let rest = Agrees-set_all ps parts h (λ k l. s (suc k) (omega (arith, l))) in
    let (q, there) = s 0 (omega arith) in
    elim is [ inl empty ↦ cc (empty, there) | inr holds ↦ cc (holds, rest) ]

combine-pieces : (ps : List Bytes) → AreFilled ps → combine (map some ps) ≡ some (whole ps)
unfolding combine
combine-pieces [] h = refl
combine-pieces ([] ∷ ps) h = absurd (h.0 refl)
combine-pieces ((c ∷ cs) ∷ ps) h = rw (combine-pieces ps h.1, combine) refl

exact : (m n : ℕ) (o : Option ℕ) → n ≡ suc m → Below n o → AtLeast m o → o ≡ some m
exact m n none l b a = absurd a
exact m n (some k) l b a = ap some (omega arith)

-- The greatest part is the last place.
measure_max :
    (pieces : List Bytes) (m : ℕ) (es : List Chunk)
    → length pieces ≡ suc m
    → AreParts pieces es
    → Has m es
    → (measure none 0 es).0 ≡ some m
measure_max pieces m es l a h =
    exact m (length pieces) (measure none 0 es).0 l (measure-Below pieces none 0 es a tt)
      (measure-AtLeast m none 0 es (inr h))

in_dump_exact : (left_over text : Bytes) → in_dump (length text) left_over (some text) ≡ some text
unfolding in_dump
in_dump_exact left_over text =
    let nothing : length text - length text ≡ 0 = omega arith in
    rw nothing (ap some (append-nil text))

-- When a dump is cut into two or more pieces, none of them empty, each chunk holds the piece of its
-- part, each piece has a chunk, and the sizes of the chunks add up to that of the dump, then the
-- chunks in any order give the dump, its pieces from the last part to part 0.
pub assemble-pieces :
    (left_over : Bytes) (p q : Bytes) (pieces : List Bytes) (es : List Chunk)
    → AreFilled (p ∷ q ∷ pieces)
    → AreParts (p ∷ q ∷ pieces) es
    → ((k : ℕ) → k < length (p ∷ q ∷ pieces) → Has k es)
    → sizes es ≡ length (whole (p ∷ q ∷ pieces))
    → assemble left_over es ≡ done (some (whole (p ∷ q ∷ pieces)))
unfolding assemble assemble_up_to
assemble-pieces left_over p q pieces es f a h total =
    let ps = p ∷ q ∷ pieces in
    let highest =
      measure_max ps (suc (length pieces)) es refl a (h (suc (length pieces)) (omega arith)) in
    let (parts, placed, agrees, sets) =
      place_chunks-Agrees ps (replicate (length ps) none) es a (Agrees-none ps) in
    let full = Agrees-set_all ps parts agrees (λ k l. sets k (inr (h k l))) in
    let combined = ap combine full ∙ combine-pieces ps f in
    let size : (measure none 0 es).1 ≡ length (whole ps) =
      omega (arith, measure-sizes none 0 es, total) in
    ap (λ m. assemble_up_to left_over es (m, (measure none 0 es).1)) highest
    ∙ ap (λ r. r >>= (λ parts'. done (in_dump (measure none 0 es).1 left_over (combine parts'))))
        placed
    ∙ ap (λ o. done (in_dump (measure none 0 es).1 left_over o)) combined
    ∙ ap (λ n. done (in_dump n left_over (some (whole ps)))) size
    ∙ ap done (in_dump_exact left_over (whole ps))
