-- ===== src/Spool/Transmission.antt =====
-- What `transmit_spooled_record` posts, against `read_record` on the same file.
use telemetrics_client.Base.{
  ℕ, zero, suc, ◌+◌, ◌-◌, ◌≤◌, ◌≡◌, ◌≢◌, refl, ap, ◌∙◌, true, false, List, [], ◌∷◌, ◌++◌, Option,
  some, none, length, take, drop, ◌==◌, arith, inl, inr, Bool-cases, ==_iff, some_first,
  length-drop,
}
use telemetrics_client.Record.Lines.{AreHeaders}
use telemetrics_client.Record.Probd.{stage_record}
use telemetrics_client.Record.RoundTrip.{IsConfig, read_record-stage_record}
use telemetrics_client.Base.Bytes.{length-c_string, Bytes, Lacks, c_string, is_prefix}
use telemetrics_client.Base.Run.{Run, done, ◌>>=◌}
use telemetrics_client.Common.{header_names, cfg_prefix_length, path_max}
use telemetrics_client.PostDaemon.{Backend}
use telemetrics_client.Record.{StagedRecord, read_u32, cfg_prefix_32bit}
use telemetrics_client.Record.Staged.{
  take_line, fgets, fgets_chomp, chomp, read_headers, read_rest, read_config, read_record,
}
use telemetrics_client.Spool.{
  Outcome, strtok_line, transmit_headers, read_payload, transmit_payload, transmit_rest,
  transmit_config, transmit_spooled_record,
}
use telemetrics_client.Util.{get_header}

-- A name that no line starting with a newline matches.
abbrev IsName : Bytes → Type 0
IsName [] = ⊥
IsName (c ∷ cs) = c ≢ b'\n'

abbrev AreNames : List Bytes → Type 0
AreNames [] = Unit
AreNames (name ∷ names) = IsName name × AreNames names

header_names-AreNames : AreNames header_names
unfolding header_names
header_names-AreNames = ground arith

-- The two ways to cut a line give the same header.
get_header_cut :
    (name line : Bytes)
    → IsName name
    → get_header (some (strtok_line line)) name ≡ get_header (some (chomp line)) name
unfolding get_header strtok_line chomp is_prefix
get_header_cut [] line h = absurd h
get_header_cut (n ∷ ns) [] h = refl
get_header_cut (n ∷ ns) (c ∷ cs) h = ground arith

-- One turn of the loop, with the line that `fgets` gives and the header found in it.
transmit_headers_line :
    (name : Bytes) (names : List Bytes) (stream line rest : Bytes) (header : Option Bytes)
    → fgets stream ≡ some (line, rest)
    → get_header (some (chomp (c_string line))) name ≡ header
    → IsName name
    → ((rest : Bytes) → transmit_headers names rest ≡ read_headers names rest)
    → transmit_headers (name ∷ names) stream ≡ read_headers (name ∷ names) stream
unfolding transmit_headers read_headers fgets_chomp
transmit_headers_line name names stream line rest none e found h ih =
    rw (e, get_header_cut name (c_string line) h, found, transmit_headers, read_headers) refl
transmit_headers_line name names stream line rest (some header) e found h ih =
    rw (e, get_header_cut name (c_string line) h, found, ih rest, transmit_headers, read_headers)

transmit_headers_turn :
    (name : Bytes) (names : List Bytes) (stream : Bytes) (next : Option (Bytes × Bytes))
    → fgets stream ≡ next
    → IsName name
    → ((rest : Bytes) → transmit_headers names rest ≡ read_headers names rest)
    → transmit_headers (name ∷ names) stream ≡ read_headers (name ∷ names) stream
unfolding transmit_headers read_headers fgets_chomp
transmit_headers_turn name names stream none e h ih = rw (e, transmit_headers, read_headers) refl
transmit_headers_turn name names stream (some (line, rest)) e h ih =
    transmit_headers_line name names stream line rest _ e refl h ih

transmit_headers-eq :
    (names : List Bytes) (stream : Bytes)
    → AreNames names
    → transmit_headers names stream ≡ read_headers names stream
unfolding transmit_headers read_headers
transmit_headers-eq [] stream h = refl
transmit_headers-eq (name ∷ names) stream h =
    transmit_headers_turn name names stream (fgets stream) refl h.0
      (λ rest. transmit_headers-eq names rest h.1)

length-take_line : (n : ℕ) (s : Bytes) → length (take_line n s).1 ≤ length s
unfolding take_line
length-take_line zero s = omega arith
length-take_line (suc n) [] = omega arith
length-take_line (suc n) (c ∷ cs) = ground (arith, length-take_line n cs)

length-fgets :
    (stream line rest : Bytes) → fgets stream ≡ some (line, rest) → length rest ≤ length stream
unfolding fgets
length-fgets [] line rest e = cc
length-fgets (c ∷ cs) line rest e =
    let same : (take_line path_max (c ∷ cs)).1 ≡ rest = ground arith in
    omega (arith, length-take_line path_max (c ∷ cs), ap length same)

length-fgets_chomp :
    (stream line rest : Bytes)
    → fgets_chomp stream ≡ some (line, rest)
    → length rest ≤ length stream
unfolding fgets_chomp fgets
length-fgets_chomp [] line rest e = cc
length-fgets_chomp (c ∷ cs) line rest e =
    length-fgets (c ∷ cs) (take_line path_max (c ∷ cs)).0 rest (ground arith)

take_long : (n : ℕ) (s : Bytes) → length s ≤ n → take n s ≡ s
take_long zero [] h = refl
take_long zero (c ∷ cs) h = absurd (omega arith)
take_long (suc n) [] h = refl
take_long (suc n) (c ∷ cs) h = ap (λ s. c ∷ s) (take_long n cs (omega arith))

-- The buffer holds what is left of the file, and its NUL.
read_payload_whole :
    (c : ℕ) (cs : Bytes)
    → read_payload (suc (length (c ∷ cs))) (c ∷ cs) ≡ done (some (c_string (c ∷ cs)))
unfolding read_payload
read_payload_whole c cs =
    rw (take_long (suc (length (c ∷ cs))) (c ∷ cs) (omega arith))
      (let short = length-c_string (c ∷ cs) in ground (arith, short))

-- The outcome for a file that `read_record` reads as `record`.
abbrev pub transmit_outcome : Backend → Option StagedRecord → Run Outcome
transmit_outcome post none = done (true, false)
transmit_outcome post (some r) = post r.headers r.body r.cfg_file >>= (λ sent. done (sent, sent))

-- The headers leave no more than there was.
length-read_headers :
    (names : List Bytes) (stream : Bytes) (hs : List Bytes) (rest : Bytes)
    → read_headers names stream ≡ some (hs, rest)
    → length rest ≤ length stream
unfolding read_headers
length-read_headers [] stream hs rest e =
    let same : stream ≡ rest = cc in omega (arith, ap length same)
length-read_headers (name ∷ names) stream hs rest e =
    let ((line, after), got, e1) = some_first (fgets_chomp stream) _ e in
    let (header, found, e2) = some_first (get_header (some line) name) _ e1 in
    let ((headers, body), more, e3) = some_first (read_headers names after) _ e2 in
    let same : body ≡ rest = cc in
    omega (
      arith,
      length-fgets_chomp stream line after got,
      length-read_headers names after headers body more,
      ap length same,
    )

transmit_rest_turn :
    (post : Backend) (total : ℕ) (cfg : Option Bytes) (stream : Bytes)
    (next : Option (List Bytes × Bytes))
    → read_headers header_names stream ≡ next
    → length stream ≤ total
    → transmit_rest post total total cfg stream ≡ transmit_outcome post (read_rest cfg stream)
unfolding transmit_rest read_rest transmit_payload
transmit_rest_turn post total cfg stream none e h =
    let same = transmit_headers-eq header_names stream header_names-AreNames in
    rw (same, e, transmit_rest, read_rest) refl
transmit_rest_turn post total cfg stream (some (hs, [])) e h =
    let same = transmit_headers-eq header_names stream header_names-AreNames in
    rw (same, e, transmit_rest, read_rest) (unfold read_payload in ground arith)
transmit_rest_turn post total cfg stream (some (hs, c ∷ cs)) e h =
    let same = transmit_headers-eq header_names stream header_names-AreNames in
    let fits : total + 1 - (total - suc (length cs)) ≡ suc (suc (length cs)) =
      omega (arith, length-read_headers header_names stream hs (c ∷ cs) e) in
    rw (same, e, transmit_rest, read_rest) (rw (fits, read_payload_whole c cs) refl)

transmit_config_line :
    (post : Backend) (file : Bytes) (next : Option (Bytes × Bytes))
    → fgets_chomp (drop cfg_prefix_length file) ≡ next
    → transmit_config post (length file) (length file) file cfg_prefix_32bit
      ≡ transmit_outcome post (read_config file cfg_prefix_32bit)
unfolding transmit_config read_config
transmit_config_line post file none e = rw (e, transmit_config, read_config) refl
transmit_config_line post file (some (line, rest)) e =
    let shorter = length-fgets_chomp (drop cfg_prefix_length file) line rest e in
    let fits = length-drop cfg_prefix_length file in
    rw (e, transmit_config, read_config)
      (transmit_rest_turn post (length file) (some line) rest _ refl (omega (arith, shorter, fits)))

transmit_config_outcome :
    (post : Backend) (file : Bytes) (prefix : ℕ)
    → transmit_config post (length file) (length file) file prefix
      ≡ transmit_outcome post (read_config file prefix)
unfolding transmit_config read_config
transmit_config_outcome post file prefix = elim (Bool-cases (prefix == cfg_prefix_32bit)) [
  | inl same ↦ rw ((==_iff prefix cfg_prefix_32bit).0 same) (transmit_config_line post file _ refl)
  | inr different ↦
      rw (different, transmit_config, read_config)
        (transmit_rest_turn post (length file) none file _ refl (omega arith))
]

-- A spooled file whose length is what `stat` said has the fate of the record that `read_record`
-- reads in it: exactly that record is posted, and the file is unlinked when the post returns with success. A
-- file in which there is no record stays, and the post counts as succeeded all the same. In no case
-- does the payload's buffer lack its NUL.
pub transmit_spooled_record-read_record :
    (post : Backend) (file : Bytes)
    → transmit_spooled_record post (some file) (length file)
      ≡ transmit_outcome post (read_record (some file))
unfolding transmit_spooled_record read_record read_u32
transmit_spooled_record-read_record post [] = refl
transmit_spooled_record-read_record post (a ∷ []) = refl
transmit_spooled_record-read_record post (a ∷ b ∷ []) = refl
transmit_spooled_record-read_record post (a ∷ b ∷ c ∷ []) = refl
transmit_spooled_record-read_record post (a ∷ b ∷ c ∷ d ∷ rest) =
    transmit_config_outcome post (a ∷ b ∷ c ∷ d ∷ rest) _

-- A record whose headers start with their names and fit on a line, whose payload and configuration
-- path have no NUL, and whose path has no newline and fits on a line: staged by stage_record and
-- kept in the spool, it is posted with its headers, its payload with a newline, and its
-- configuration path, and is unlinked when the post succeeds.
pub transmit_spooled_record-stage_record :
    (post : Backend) (hs : List Bytes) (body : Bytes) (cfg : Option Bytes)
    → AreHeaders header_names hs
    → Lacks 0 body
    → IsConfig cfg
    → transmit_spooled_record post
        (some (stage_record hs body cfg))
        (length (stage_record hs body cfg))
      ≡ (post hs (body ++ b'\n' ∷ []) cfg >>= (λ sent. done (sent, sent)))
transmit_spooled_record-stage_record post hs body cfg a l c =
    transmit_spooled_record-read_record post (stage_record hs body cfg)
    ∙ ap (transmit_outcome post) (read_record-stage_record hs body cfg a l c)
