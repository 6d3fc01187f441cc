-- ===== src/Journal/Files.antt =====
-- The lines of a journal file.
use mathlib.Core.List.{append_assoc}
use telemetrics_client.Base.{
  ℕ, zero, suc, ◌≡◌, ◌∙◌, refl, ap, List, [], ◌∷◌, ◌++◌, map, take, drop, arith,
}
use telemetrics_client.Base.Bytes.{Bytes, Lacks, Lacks-append, c_string_all, c_string}
use telemetrics_client.Journal.{get_lines}
use telemetrics_client.Journal.Store.{copy_lines}

abbrev pub whole_line : Bytes → Bytes
whole_line text = text ++ b'\n' ∷ []

-- The file that holds these texts, a line each.
unfoldable pub unlines : List Bytes → Bytes
unlines [] = []
unlines (text ∷ texts) = text ++ (b'\n' ∷ unlines texts)

abbrev pub IsText : Bytes → Type 0
IsText text = Lacks b'\n' text × Lacks 0 text

abbrev pub AreTexts : List Bytes → Type 0
AreTexts [] = Unit
AreTexts (text ∷ texts) = IsText text × AreTexts texts

pub AreTexts-append : (a b : List Bytes) → AreTexts a → AreTexts b → AreTexts (a ++ b)
AreTexts-append [] b h k = k
AreTexts-append (t ∷ a) b h k = (h.0, AreTexts-append a b h.1 k)

pub AreTexts-drop : (n : ℕ) (texts : List Bytes) → AreTexts texts → AreTexts (drop n texts)
AreTexts-drop zero texts a = a
AreTexts-drop (suc n) [] a = tt
AreTexts-drop (suc n) (t ∷ texts) a = AreTexts-drop n texts a.1

pub unlines-append : (a b : List Bytes) → unlines (a ++ b) ≡ unlines a ++ unlines b
unfolding unlines
unlines-append [] b = refl
unlines-append (t ∷ a) b = rw (unlines-append a b, append_assoc t (b'\n' ∷ unlines a) (unlines b))

get_lines-line :
    (text rest : Bytes)
    → Lacks b'\n' text
    → get_lines (text ++ b'\n' ∷ rest) ≡ whole_line text ∷ get_lines rest
unfolding get_lines
get_lines-line [] rest l = refl
get_lines-line (c ∷ text) rest l = rw (get_lines-line text rest l.1) (ground arith)

pub get_lines-unlines :
    (texts : List Bytes) → AreTexts texts → get_lines (unlines texts) ≡ map whole_line texts
unfolding unlines
get_lines-unlines [] a = unfold get_lines in refl
get_lines-unlines (t ∷ texts) a =
    get_lines-line t (unlines texts) a.0.0 ∙ ap (◌∷◌ (whole_line t)) (get_lines-unlines texts a.1)

pub drop-map :
    (n : ℕ) (texts : List Bytes) → drop n (map whole_line texts) ≡ map whole_line (drop n texts)
drop-map zero texts = refl
drop-map (suc n) [] = refl
drop-map (suc n) (t ∷ texts) = drop-map n texts

pub take-map :
    (n : ℕ) (texts : List Bytes) → take n (map whole_line texts) ≡ map whole_line (take n texts)
take-map zero texts = refl
take-map (suc n) [] = refl
take-map (suc n) (t ∷ texts) = ap (◌∷◌ (whole_line t)) (take-map n texts)

pub c_string-whole_line :
    (text : Bytes) → Lacks 0 text → c_string (whole_line text) ≡ whole_line text
c_string-whole_line text l = c_string_all _ (Lacks-append 0 text (b'\n' ∷ []) l (ground arith, tt))

pub copy_lines-unlines :
    (texts : List Bytes) → AreTexts texts → copy_lines (map whole_line texts) ≡ unlines texts
unfolding copy_lines unlines
copy_lines-unlines [] a = refl
copy_lines-unlines (t ∷ texts) a = rw (
  c_string-whole_line t a.0.1,
  copy_lines-unlines texts a.1,
  append_assoc t (b'\n' ∷ []) (unlines texts),
)
