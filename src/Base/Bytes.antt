-- ===== src/Base/Bytes.antt =====
-- C strings and buffers as lists of byte values, and the string functions that the source calls.
use Prim.Native.Char.{code}
use Prim.Native.String.{String}
use telemetrics_client.Base.{
  ltb, ◌+◌, ◌-◌, ◌≡◌, refl, ◌≢◌, Bool, true, false, ◌&&◌, List, [], ◌∷◌, ◌++◌, Option, none, some,
  arith, ◌==◌, if◌then◌else◌, ℕ, zero, suc, ◌≤◌, length, take, drop, if_cases, inl, inr, sym,
}

abbrev pub Bytes : Type 0
Bytes = List ℕ

-- The code points of a text: its bytes, as every literal here is ASCII.
abbrev pub codes : String → Bytes
codes String.[] = []
codes (String.◌∷◌ c s) = code c ∷ codes s

-- A digit below 16, as "%x" prints it.
abbrev pub hex_char : ℕ → ℕ
hex_char d = if ltb d 10 then b'0' + d else b'a' + (d - 10)

-- The C string that a buffer holds: what stands before its first NUL.
unfoldable pub c_string : Bytes → Bytes
c_string [] = []
c_string (c ∷ cs) = if c == 0 then [] else c ∷ c_string cs

-- A byte in front of the first line.
unfoldable pub push_byte : ℕ → List Bytes → List Bytes
push_byte c [] = (c ∷ []) ∷ []
push_byte c (line ∷ lines) = (c ∷ line) ∷ lines

-- strcmp(a, b) == 0
unfoldable pub equal : Bytes → Bytes → Bool
equal [] [] = true
equal (x ∷ xs) (y ∷ ys) = x == y && equal xs ys
equal _ _ = false

-- strncmp(s, p, strlen(p)) == 0
unfoldable pub is_prefix : Bytes → Bytes → Bool
is_prefix [] s = true
is_prefix (p ∷ ps) [] = false
is_prefix (p ∷ ps) (c ∷ cs) = p == c && is_prefix ps cs

-- strchr(s, c): the text after the first `c`, if there is one.
unfoldable pub after : ℕ → Bytes → Option Bytes
after b [] = none
after b (c ∷ cs) = if c == b then some cs else after b cs

-- No byte of `s` is `b`.
abbrev pub Lacks : ℕ → Bytes → Type 0
Lacks b [] = Unit
Lacks b (c ∷ cs) = (c ≢ b) × Lacks b cs

pub Lacks-append : (b : ℕ) (s t : Bytes) → Lacks b s → Lacks b t → Lacks b (s ++ t)
Lacks-append b [] t h k = k
Lacks-append b (c ∷ s) t h k = (h.0, Lacks-append b s t h.1 k)

pub c_string-Lacks : (s t : Bytes) → Lacks 0 s → c_string (s ++ 0 ∷ t) ≡ s
unfolding c_string
c_string-Lacks [] t h = refl
c_string-Lacks (c ∷ s) t h = ground (arith, c_string-Lacks s t h.1)

pub c_string_all : (s : Bytes) → Lacks 0 s → c_string s ≡ s
unfolding c_string
c_string_all [] h = refl
c_string_all (c ∷ s) h = ground (arith, c_string_all s h.1)

pub equal_refl : (s : Bytes) → equal s s ≡ true
unfolding equal
equal_refl [] = refl
equal_refl (c ∷ s) = ground (arith, equal_refl s)

pub equal→eq : (s t : Bytes) → equal s t ≡ true → s ≡ t
unfolding equal
equal→eq (x ∷ s) (y ∷ t) h = ground (arith, equal→eq s t)
equal→eq _ _ h = ground arith

pub is_prefix-append : (p s : Bytes) → is_prefix p (p ++ s) ≡ true
unfolding is_prefix
is_prefix-append [] s = refl
is_prefix-append (c ∷ p) s = ground (arith, is_prefix-append p s)

pub is_prefix→append : (p s : Bytes) → is_prefix p s ≡ true → (t : Bytes) × (s ≡ p ++ t)
unfolding is_prefix
is_prefix→append [] s h = (s, refl)
is_prefix→append (p ∷ ps) [] h = cc
is_prefix→append (p ∷ ps) (c ∷ cs) h =
    let (t, e) = is_prefix→append ps cs (ground arith) in (t, ground arith)

pub after-Lacks : (b : ℕ) (s t : Bytes) → Lacks b s → after b (s ++ b ∷ t) ≡ some t
unfolding after
after-Lacks b [] t h = ground arith
after-Lacks b (c ∷ s) t h = ground (arith, after-Lacks b s t h.1)

pub length-c_string : (s : Bytes) → length (c_string s) ≤ length s
unfolding c_string
length-c_string [] = omega arith
length-c_string (c ∷ cs) = ground (arith, length-c_string cs)

pub c_string_ends : (s : Bytes) → Lacks 0 (c_string s)
unfolding c_string
c_string_ends [] = tt
c_string_ends (c ∷ cs) = ground (arith, c_string_ends cs)

pub Lacks-take : (b n : ℕ) (s : Bytes) → Lacks b s → Lacks b (take n s)
Lacks-take b zero s h = tt
Lacks-take b (suc n) [] h = tt
Lacks-take b (suc n) (c ∷ s) h = (h.0, Lacks-take b n s h.1)

pub Lacks-drop : (b n : ℕ) (s : Bytes) → Lacks b s → Lacks b (drop n s)
Lacks-drop b zero s h = h
Lacks-drop b (suc n) [] h = tt
Lacks-drop b (suc n) (c ∷ s) h = Lacks-drop b n s h.1

pub Lacks-after : (b m : ℕ) (s t : Bytes) → Lacks b s → after m s ≡ some t → Lacks b t
unfolding after
Lacks-after b m [] t h e = cc
Lacks-after b m (c ∷ s) t h e = elim (if_cases (c == m) e) [
  | inl (_, here) ↦ let same : s ≡ t = cc in rw (sym same) h.1
  | inr (_, later) ↦ Lacks-after b m s t h.1 later
]

pub Lacks-c_string : (b : ℕ) (s : Bytes) → Lacks b s → Lacks b (c_string s)
unfolding c_string
Lacks-c_string b [] h = tt
Lacks-c_string b (c ∷ cs) h = ground (arith, Lacks-c_string b cs h.1, h)
