-- ===== src/Pstore/Pieces.antt =====
-- The pieces of a dump, and what measuring its chunks finds.
use telemetrics_client.Base.{
  ℕ, zero, suc, ◌+◌, ◌≤◌, ◌<◌, ◌≡◌, ◌≢◌, ◌⊎◌, inl, inr, List, [], ◌∷◌, ◌++◌, Option, none, some,
  length, get_elem?, arith,
}
use telemetrics_client.Base.Bytes.{Bytes}
use telemetrics_client.Base.Int.{ℤ, pos, negsuc}
use telemetrics_client.Pstore.{Chunk, size_of, max_with, measure}

-- The pieces of a dump, the last one first, as the parts are numbered.
abbrev pub whole : List Bytes → Bytes
whole [] = []
whole (p ∷ ps) = whole ps ++ p

abbrev pub AreFilled : List Bytes → Type 0
AreFilled [] = Unit
AreFilled (p ∷ ps) = (p ≢ []) × AreFilled ps

-- The chunk holds the piece of its part.
pub record Holds (pieces : List Bytes) (e : Chunk) : Type 0 where
  pub place : ℕ
  pub piece : Bytes
  pub part : e.part ≡ pos place
  pub there : get_elem? pieces place ≡ some piece
  pub contents : e.contents ≡ some piece

abbrev pub AreParts : List Bytes → List Chunk → Type 0
AreParts pieces [] = Unit
AreParts pieces (e ∷ es) = Holds pieces e × AreParts pieces es

-- One of the chunks has the part `k`.
abbrev pub Has : ℕ → List Chunk → Type 0
Has k [] = ⊥
Has k (e ∷ es) = (e.part ≡ pos k) ⊎ Has k es

abbrev pub sizes : List Chunk → ℕ
sizes [] = 0
sizes (e ∷ es) = size_of e.contents + sizes es

abbrev pub Below : ℕ → Option ℕ → Type 0
Below n none = Unit
Below n (some m) = m < n

abbrev pub AtLeast : ℕ → Option ℕ → Type 0
AtLeast k none = ⊥
AtLeast k (some m) = k ≤ m

get_elem?_below : (ps : List Bytes) (i : ℕ) (p : Bytes) → get_elem? ps i ≡ some p → i < length ps
get_elem?_below [] i p e = absurd cc
get_elem?_below (q ∷ ps) zero p e = omega arith
get_elem?_below (q ∷ ps) (suc i) p e = omega (arith, get_elem?_below ps i p e)

Below-max_with : (n : ℕ) (m : Option ℕ) (k : ℕ) → Below n m → k < n → Below n (max_with m (pos k))
unfolding max_with
Below-max_with n none k h l = l
Below-max_with n (some m) k h l = ground (arith, h, l)

AtLeast-max_with :
    (m : Option ℕ) (j : ℤ) (k : ℕ) → AtLeast k m ⊎ (j ≡ pos k) → AtLeast k (max_with m j)
unfolding max_with
AtLeast-max_with none (negsuc n) k (inl h) = h
AtLeast-max_with none (negsuc n) k (inr e) = absurd cc
AtLeast-max_with none (pos n) k (inl h) = absurd h
AtLeast-max_with none (pos n) k (inr e) = ground (arith, e)
AtLeast-max_with (some m) (negsuc n) k (inl h) = h
AtLeast-max_with (some m) (negsuc n) k (inr e) = absurd cc
AtLeast-max_with (some m) (pos n) k (inl h) = ground (arith, h)
AtLeast-max_with (some m) (pos n) k (inr e) = ground (arith, e)

pub measure-Below :
    (pieces : List Bytes) (m : Option ℕ) (t : ℕ) (es : List Chunk)
    → AreParts pieces es
    → Below (length pieces) m
    → Below (length pieces) (measure m t es).0
unfolding measure
measure-Below pieces m t [] a h = h
measure-Below pieces m t (e ∷ es) a h =
    measure-Below pieces (max_with m e.part) (t + size_of e.contents) es a.1 (
      rw a.0.part (
        Below-max_with (length pieces) m a.0.place h
          (get_elem?_below pieces a.0.place a.0.piece a.0.there)))

pub measure-AtLeast :
    (k : ℕ) (m : Option ℕ) (t : ℕ) (es : List Chunk)
    → AtLeast k m ⊎ Has k es
    → AtLeast k (measure m t es).0
unfolding measure
measure-AtLeast k m t [] (inl h) = h
measure-AtLeast k m t [] (inr h) = absurd h
measure-AtLeast k m t (e ∷ es) (inl h) =
    measure-AtLeast k (max_with m e.part) (t + size_of e.contents) es
      (inl (AtLeast-max_with m e.part k (inl h)))
measure-AtLeast k m t (e ∷ es) (inr (inl is)) =
    measure-AtLeast k (max_with m e.part) (t + size_of e.contents) es
      (inl (AtLeast-max_with m e.part k (inr is)))
measure-AtLeast k m t (e ∷ es) (inr (inr later)) =
    measure-AtLeast k (max_with m e.part) (t + size_of e.contents) es (inr later)

pub measure-sizes : (m : Option ℕ) (t : ℕ) (es : List Chunk) → (measure m t es).1 ≡ t + sizes es
unfolding measure
measure-sizes m t [] = omega arith
measure-sizes m t (e ∷ es) =
    omega (arith, measure-sizes (max_with m e.part) (t + size_of e.contents) es)
