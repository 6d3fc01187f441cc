-- ===== src/Client/Fields.antt =====
-- The values of the fifteen headers, and the headers made of them, fit on a line each.
use mathlib.Core.List.{append_assoc}
use telemetrics_client.Base.{
  ℕ, zero, suc, ◌+◌, ◌≤◌, ◌≡◌, refl, sym, List, [], ◌∷◌, ◌++◌, some, length, length-append, ltb,
  ◌/◌, ◌%◌, if_cases, inl, inr, arith,
}
use telemetrics_client.Base.Bytes.{Bytes, codes, Lacks-append, is_prefix-append}
use telemetrics_client.Base.Run.{done}
use telemetrics_client.Client.Attributes.{StartsText, get_dmi_value-IsValue}
use telemetrics_client.Client.Headers.{
  ClientSystem, header_text, or_unknown, host_type, board_value, clamp_severity,
}
use telemetrics_client.Client.Lines.{IsValue}
use telemetrics_client.Client.Values.{version_file, system_name}
use telemetrics_client.Client.Words.{ShortVersion}
use telemetrics_client.Common.{header_names}
use telemetrics_client.Journal.{decimal, digits}
use telemetrics_client.Journal.RoundTrip.{decimal-IsField}
use telemetrics_client.Record.Lines.{AreHeaders}
use telemetrics_client.Record.Packets.{header_lines}
use telemetrics_client.Util.{validate_classification}

-- The texts of uname and the random id fit on a line, /proc/cpuinfo opens, the version of os-release
-- is short, and no DMI file starts with NUL.
pub record IsUsable (sys : ClientSystem) : Type 0 where
  pub machine : IsValue 64 (or_unknown sys.machine)
  pub release : IsValue 64 (or_unknown sys.release)
  pub version : ShortVersion (version_file sys.site_version sys.dist_version)
  pub cpuinfo : (file : Bytes) × (sys.cpuinfo ≡ some file)
  pub sys_vendor : StartsText sys.sys_vendor
  pub product_name : StartsText sys.product_name
  pub product_version : StartsText sys.product_version
  pub board_name : StartsText sys.board_name
  pub board_vendor : StartsText sys.board_vendor
  pub bios_version : StartsText sys.bios_version
  pub random_id : (id : Bytes) × (sys.random_id ≡ some id) × IsValue 32 id

-- The headers with these values, and the texts that asprintf makes of them.
unfoldable pub headers_of : List Bytes → List Bytes → List Bytes
headers_of (name ∷ names) (v ∷ vs) = (name ++ (codes ": " ++ v)) ∷ headers_of names vs
headers_of _ _ = []

unfoldable pub header_texts : List Bytes → List Bytes → List Bytes
header_texts (name ∷ names) (v ∷ vs) = header_text name v ∷ header_texts names vs
header_texts _ _ = []

abbrev pub AreValues : List Bytes → List Bytes → Type 0
AreValues [] [] = Unit
AreValues (name ∷ names) (v ∷ vs) = IsValue 300 v × AreValues names vs
AreValues _ _ = ⊥

abbrev pub AreNames : List Bytes → Type 0
AreNames [] = Unit
AreNames (name ∷ names) = IsValue 30 name × AreNames names

pub header_names-AreNames : AreNames header_names
unfolding header_names
header_names-AreNames = omega arith

pub header_text_line :
    (name v : Bytes) → header_text name v ≡ (name ++ (codes ": " ++ v)) ++ b'\n' ∷ []
unfolding header_text
header_text_line name v = sym (append_assoc name (codes ": " ++ v) (b'\n' ∷ []))

pub header_texts_lines :
    (names vs : List Bytes) → header_texts names vs ≡ header_lines (headers_of names vs)
unfolding header_texts header_lines headers_of
header_texts_lines [] vs = refl
header_texts_lines (name ∷ names) [] = refl
header_texts_lines (name ∷ names) (v ∷ vs) =
    rw (header_text_line name v, header_texts_lines names vs)

pub headers_of-AreHeaders :
    (names vs : List Bytes)
    → AreNames names
    → AreValues names vs
    → AreHeaders names (headers_of names vs)
unfolding headers_of
headers_of-AreHeaders [] [] n a = tt
headers_of-AreHeaders [] (v ∷ vs) n a = absurd a
headers_of-AreHeaders (name ∷ names) [] n a = absurd a
headers_of-AreHeaders (name ∷ names) (v ∷ vs) n a = (
  record {
    named = is_prefix-append name (codes ": " ++ v);
    line = record {
      no_newline =
          Lacks-append b'\n' name (codes ": " ++ v) n.0.no_newline
            (Lacks-append b'\n' (codes ": ") v (omega arith) a.0.no_newline);
      no_nul =
          Lacks-append 0 name (codes ": " ++ v) n.0.no_nul
            (Lacks-append 0 (codes ": ") v (omega arith) a.0.no_nul);
      fits = omega (arith, length-append name (codes ": " ++ v), a.0.short, n.0.short);
    };
  },
  headers_of-AreHeaders names vs n.1 a.1,
)

join_values :
    (m n : ℕ) (s t : Bytes) → IsValue m s → IsValue n t → IsValue (m + n + 1) (s ++ b'|' ∷ t)
join_values m n s t v w = record {
  no_newline = Lacks-append b'\n' s (b'|' ∷ t) v.no_newline (ground arith, w.no_newline);
  no_nul = Lacks-append 0 s (b'|' ∷ t) v.no_nul (ground arith, w.no_nul);
  short = omega (arith, length-append s (b'|' ∷ t), v.short, w.short);
}

pub weaken : (m : ℕ) (s : Bytes) → m ≤ 300 → IsValue m s → IsValue 300 s
weaken m s h v = record {
  no_newline = v.no_newline;
  no_nul = v.no_nul;
  short = omega (arith, h, v.short);
}

length-digits : (fuel n : ℕ) → length (digits fuel n) ≤ fuel
unfolding digits
length-digits zero n = omega arith
length-digits (suc fuel) n = ground (
  arith,
  length-append (digits fuel (n / 10)) ((b'0' + n % 10) ∷ []),
  length-digits fuel (n / 10),
)

pub decimal-IsValue : (n : ℕ) → IsValue 300 (decimal n)
unfolding decimal
decimal-IsValue n =
    let field = decimal-IsField n in
    record {
      no_newline = field.no_newline;
      no_nul = field.no_nul;
      short = omega (arith, length-digits 20 n);
    }

pub host_type-IsValue :
    (sys : ClientSystem) → IsUsable sys → (v : Bytes) × (host_type sys ≡ done v) × IsValue 300 v
unfolding host_type
host_type-IsValue sys u =
    let (sv, e, s) = get_dmi_value-IsValue (codes "sv") sys.sys_vendor (omega arith) u.sys_vendor in
    let (pn, f, p) =
      get_dmi_value-IsValue (codes "pn") sys.product_name (omega arith) u.product_name in
    let (pvr, g, q) =
      get_dmi_value-IsValue (codes "pvr") sys.product_version (omega arith) u.product_version in
    (
      sv ++ b'|' ∷ pn ++ b'|' ∷ pvr,
      rw (e, f, g) refl,
      weaken 239 _ (omega arith) (join_values 159 79 _ pvr (join_values 79 79 sv pn s p) q),
    )

pub board_value-IsValue :
    (sys : ClientSystem) → IsUsable sys → (v : Bytes) × (board_value sys ≡ done v) × IsValue 300 v
unfolding board_value
board_value-IsValue sys u =
    let (bn, e, s) = get_dmi_value-IsValue (codes "bn") sys.board_name (omega arith) u.board_name in
    let (bv, f, p) =
      get_dmi_value-IsValue (codes "bv") sys.board_vendor (omega arith) u.board_vendor in
    (bn ++ b'|' ∷ bv, rw (e, f) refl, weaken 159 _ (omega arith) (join_values 79 79 bn bv s p))

pub classification_short :
    (classification : Bytes)
    → validate_classification (some classification) ≡ done 0
    → length classification ≤ 122
unfolding validate_classification
classification_short [] e = absurd cc
classification_short (c ∷ cs) e = elim (if_cases (ltb 122 (length (c ∷ cs))) e) [
  | inl (_, long) ↦ absurd cc
  | inr (short, _) ↦ ground (arith, short)
]

-- The fifteen values.
abbrev pub values :
    ClientSystem → ℕ → Bytes → ℕ → Bytes → Bytes → Bytes → Bytes → Bytes → Bytes → List Bytes
values sys severity classification version host build board cpu bios id =
    decimal 4
    ∷ classification
    ∷ decimal (clamp_severity severity)
    ∷ codes "FFFFFFFF"
    ∷ decimal sys.now
    ∷ or_unknown sys.machine
    ∷ host
    ∷ build
    ∷ or_unknown sys.release
    ∷ decimal version
    ∷ system_name (version_file sys.site_version sys.dist_version)
    ∷ board
    ∷ cpu
    ∷ bios
    ∷ id
    ∷ []
