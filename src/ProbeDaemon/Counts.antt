-- ===== src/ProbeDaemon/Counts.antt =====
-- How often a descriptor stands in a list, and where.
use telemetrics_client.Base.{
  ℕ, zero, suc, ◌+◌, ◌≡◌, ◌≢◌, ◌≤◌, refl, sym, ap, ◌∙◌, inl, inr, true, List, [], ◌∷◌, ◌++◌, none,
  some, ◌==◌, if◌then◌else◌, length, get_elem?, map, arith, Bool-cases, Option-cases, ==_iff,
}
use telemetrics_client.ProbeDaemon.{remove_at, find_client}

unfoldable pub count : ℕ → List ℕ → ℕ
count x [] = 0
count x (y ∷ ys) = let more = count x ys in if y == x then suc more else more

pub count-append : (x : ℕ) (xs ys : List ℕ) → count x (xs ++ ys) ≡ count x xs + count x ys
unfolding count
count-append x [] ys = omega arith
count-append x (y ∷ xs) ys = ground (arith, count-append x xs ys)

pub count-remove_at :
    (x i a : ℕ) (xs : List ℕ) → get_elem? xs i ≡ some a → count x (a ∷ remove_at i xs) ≡ count x xs
unfolding count
count-remove_at x i a [] e = absurd cc
count-remove_at x zero a (y ∷ ys) e = let same : y ≡ a = cc in rw same refl
count-remove_at x (suc i) a (y ∷ ys) e = ground (arith, count-remove_at x i a ys e)

pub count_of_get : (i a : ℕ) (xs : List ℕ) → get_elem? xs i ≡ some a → count a xs ≢ 0
unfolding count
count_of_get i a xs e = ground (arith, count-remove_at a i a xs e)

pub find_client-get :
    (fd : ℕ) (cs : List ℕ) (place : ℕ)
    → find_client fd cs ≡ some place
    → get_elem? cs place ≡ some fd
unfolding find_client
find_client-get fd [] place e = absurd cc
find_client-get fd (c ∷ cs) place e = elim (Option-cases (find_client fd cs)) [
  | inr (later, found) ↦
      let here : some (suc later) ≡ some place = rw (sym e, found) refl in
      let same : suc later ≡ place = cc in rw (sym same) (find_client-get fd cs later found)
  | inl absent ↦ elim (Bool-cases (c == fd)) [
    | inl is ↦
        let here : some 0 ≡ some place = rw (sym e, absent, is) refl in
        let same : 0 ≡ place = cc in rw (sym same) (ap some ((==_iff c fd).0 is))
    | inr other ↦ let none_is : none ≡ some place = rw (sym e, absent, other) refl in absurd cc
  ]
]

pub find_client-finds :
    (fd : ℕ) (cs : List ℕ)
    → count fd cs ≢ 0
    → (place : ℕ) × (find_client fd cs ≡ some place) × (get_elem? cs place ≡ some fd)
unfolding find_client count
find_client-finds fd [] h = absurd (h refl)
find_client-finds fd (c ∷ cs) h = elim (Option-cases (find_client fd cs)) [
  | inr (later, found) ↦ (suc later, rw found refl, find_client-get fd cs later found)
  | inl absent ↦ elim (Bool-cases (count fd cs == 0)) [
    | inl last ↦
        let is : (c == fd) ≡ true = ground (arith, h, last) in
        (0, rw (absent, is) refl, ap some ((==_iff c fd).0 is))
    | inr more ↦
        let (place, found, _) = find_client-finds fd cs (ground (arith, more)) in
        let clash : none ≡ some place = sym absent ∙ found in absurd cc
  ]
]

pub map-remove_at {ℓ κ} :
    {A : Type ℓ} {B : Type κ} (f : A → B) (i : ℕ) (xs : List A)
    → map f (remove_at i xs) ≡ remove_at i (map f xs)
map-remove_at f i [] = refl
map-remove_at f zero (x ∷ xs) = refl
map-remove_at f (suc i) (x ∷ xs) = ap (◌∷◌ (f x)) (map-remove_at f i xs)

pub get_elem?-map {ℓ κ} :
    {A : Type ℓ} {B : Type κ} (f : A → B) (i : ℕ) (xs : List A) (a : A)
    → get_elem? xs i ≡ some a
    → get_elem? (map f xs) i ≡ some (f a)
get_elem?-map f i [] a e = absurd cc
get_elem?-map f zero (x ∷ xs) a e = let same : x ≡ a = cc in ap (λ z. some (f z)) same
get_elem?-map f (suc i) (x ∷ xs) a e = get_elem?-map f i xs a e

pub length-remove_at {ℓ} :
    {A : Type ℓ} (i : ℕ) (xs : List A) (a : A)
    → get_elem? xs i ≡ some a
    → suc (length (remove_at i xs)) ≡ length xs
length-remove_at i [] a e = absurd cc
length-remove_at zero (x ∷ xs) a e = refl
length-remove_at (suc i) (x ∷ xs) a e = ap suc (length-remove_at i xs a e)

pub get_elem?_inside {ℓ} :
    {A : Type ℓ} (i : ℕ) (xs : List A) (a : A) → get_elem? xs i ≡ some a → suc i ≤ length xs
get_elem?_inside i [] a e = absurd cc
get_elem?_inside zero (x ∷ xs) a e = omega arith
get_elem?_inside (suc i) (x ∷ xs) a e = omega (arith, get_elem?_inside i xs a e)
