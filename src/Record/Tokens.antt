-- ===== src/Record/Tokens.antt =====
-- How `process_record` takes a packet apart: the pieces of the buffer, and the header tokens.
use telemetrics_client.Base.{
  ℕ, ◌<◌, ◌^◌, ◌≡◌, ◌≢◌, ◌∙◌, refl, ap, List, [], ◌∷◌, ◌++◌, some, length, drop, take, arith,
}
use mathlib.Core.List.{append_assoc, append-nil}
use telemetrics_client.Base.Bytes.{Bytes, Lacks, Lacks-append, is_prefix}
use telemetrics_client.Base.Run.{done}
use telemetrics_client.Record.{le32, read_u32, tokens_from}
use telemetrics_client.Record.Lines.{AreHeaders}
use telemetrics_client.Record.Probd.{
  c_string_in, strndup_in, stage_headers, take_headers, replace_header,
}
use telemetrics_client.Util.{get_header}

pub read_u32-le32 : (n : ℕ) (rest : Bytes) → n < 2 ^ 32 → read_u32 (le32 n ++ rest) ≡ done n
unfolding read_u32 le32
read_u32-le32 n rest h = ap done (omega arith)

pub c_string_in-nul : (s rest : Bytes) → Lacks 0 s → c_string_in (s ++ 0 ∷ rest) ≡ done s
unfolding c_string_in
c_string_in-nul [] rest l = refl
c_string_in-nul (c ∷ s) rest l = rw (c_string_in-nul s rest l.1) (ground arith)

pub strndup_in-append : (s rest : Bytes) → Lacks 0 s → strndup_in (length s) (s ++ rest) ≡ done s
unfolding strndup_in
strndup_in-append [] rest l = refl
strndup_in-append (c ∷ s) rest l = rw (strndup_in-append s rest l.1) (ground arith)

pub drop-append {ℓ} : {A : Type ℓ} (s rest : List A) → drop (length s) (s ++ rest) ≡ rest
drop-append [] rest = refl
drop-append (c ∷ s) rest = drop-append s rest

pub take_all {ℓ} : {A : Type ℓ} (s : List A) → take (length s) s ≡ s
take_all [] = refl
take_all (c ∷ s) = ap (◌∷◌ c) (take_all s)

pub Lacks-stage_headers : (names hs : List Bytes) → AreHeaders names hs → Lacks 0 (stage_headers hs)
unfolding stage_headers
Lacks-stage_headers names [] a = tt
Lacks-stage_headers [] (h ∷ hs) a = absurd a
Lacks-stage_headers (name ∷ names) (h ∷ hs) a =
    Lacks-append 0 h _ a.0.line.no_nul (ground arith, Lacks-stage_headers names hs a.1)

tokens_from-line :
    (c : ℕ) (w s rest : Bytes)
    → Lacks b'\n' s
    → tokens_from (c ∷ w) (s ++ b'\n' ∷ rest) ≡ ((c ∷ w) ++ s) ∷ tokens_from [] rest
unfolding tokens_from
tokens_from-line c w [] rest l = rw append-nil refl
tokens_from-line c w (d ∷ s) rest l =
    rw (tokens_from-line c (w ++ d ∷ []) s rest l.1, append_assoc) (ground arith)

tokens_from-header :
    (h rest : Bytes)
    → h ≢ []
    → Lacks b'\n' h
    → tokens_from [] (h ++ b'\n' ∷ rest) ≡ h ∷ tokens_from [] rest
unfolding tokens_from
tokens_from-header [] rest ne l = absurd (ne refl)
tokens_from-header (c ∷ h) rest ne l = let split = tokens_from-line c [] h rest l.1 in ground arith

-- No name is empty, so no header is.
abbrev pub AreNames : List Bytes → Type 0
AreNames [] = Unit
AreNames (name ∷ names) = (name ≢ []) × AreNames names

-- `strtok` finds the header texts in the block of header lines.
pub tokens_from-stage_headers :
    (names hs : List Bytes)
    → AreNames names
    → AreHeaders names hs
    → tokens_from [] (stage_headers hs) ≡ hs
unfolding stage_headers
tokens_from-stage_headers names [] n a = unfold tokens_from in refl
tokens_from-stage_headers [] (h ∷ hs) n a = absurd a
tokens_from-stage_headers ([] ∷ names) (h ∷ hs) n a = absurd (n.0 refl)
tokens_from-stage_headers ((p ∷ ps) ∷ names) ([] ∷ hs) n a =
    absurd (unfold is_prefix in cc (a.0.named))
tokens_from-stage_headers ((p ∷ ps) ∷ names) ((c ∷ h) ∷ hs) n a =
    tokens_from-header (c ∷ h) (stage_headers hs) (λ e. cc) a.0.line.no_newline
    ∙ ap (◌∷◌ (c ∷ h)) (tokens_from-stage_headers names hs n.1 a.1)

-- The headers that the daemon stages: those of the client but for the machine id.
unfoldable pub replace_headers : Bytes → List Bytes → List Bytes → List Bytes
replace_headers id [] hs = []
replace_headers id (name ∷ names) [] = []
replace_headers id (name ∷ names) (h ∷ hs) = replace_header id name h ∷ replace_headers id names hs

pub take_headers-named :
    (id : Bytes) (names hs : List Bytes)
    → AreHeaders names hs
    → take_headers id names hs ≡ some (replace_headers id names hs)
unfolding take_headers get_header replace_headers
take_headers-named id [] [] a = refl
take_headers-named id [] (h ∷ hs) a = absurd a
take_headers-named id (name ∷ names) [] a = absurd a
take_headers-named id (name ∷ names) (h ∷ hs) a =
    rw (a.0.named, get_header, take_headers, take_headers-named id names hs a.1)
