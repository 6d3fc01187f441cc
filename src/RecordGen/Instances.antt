-- ===== src/RecordGen/Instances.antt =====
-- What telem-record-gen makes of options that `validate_opts` accepts.
use telemetrics_client.Base.{
  and_left, and_right, ℕ, ◌≤◌, ◌≡◌, inl, inr, refl, sym, ap, ◌∙◌, true, ◌&&◌, List, [], ◌∷◌, ◌++◌,
  Option, none, some, leb, length, get_elem?, set, set-get_elem?, get_elem?-set_there,
  get_elem?-set_ne, arith, Option-cases, ==_iff,
}
use telemetrics_client.Base.Bytes.{Bytes, codes, Lacks}
use telemetrics_client.Base.Int.{ℤ, pos, negsuc}
use telemetrics_client.Base.Run.{done}
use telemetrics_client.Client.Creation.{HasHeaders, tm_create_record-HasHeaders}
use telemetrics_client.Client.EventId.{tm_set_event_id, tm_set_event_id-HasHeaders}
use telemetrics_client.Client.Fields.{IsUsable}
use telemetrics_client.Client.Headers.{ClientSystem, made, clamp_severity}
use telemetrics_client.Journal.{decimal}
use telemetrics_client.Record.Payload.{IsText, tm_set_payload_takes}
use telemetrics_client.Record.Wire.{TelemRecord}
use telemetrics_client.RecordGen.{of_status, with_event_id, class_of, instanciate_record}
use telemetrics_client.RecordGen.Options.{
  GenOptions, class_accepted, two_slashes, event_id_accepted, validate_opts,
}
use telemetrics_client.Util.{validate_classification, validate_event_id, scan_classification}

class_accepted_valid :
    (c : ℕ) (cs : Bytes)
    → class_accepted (some (c ∷ cs)) ≡ true
    → validate_classification (some (c ∷ cs)) ≡ done 0
unfolding class_accepted validate_classification two_slashes
class_accepted_valid c cs e = elim (Option-cases (scan_classification 0 0 (c ∷ cs))) [
  | inl long ↦ absurd (ground (arith, e, long))
  | inr (slashes, found) ↦ ground (arith, e, found)
]

class_given :
    (sys_class : Option Bytes) (class : Bytes)
    → sys_class ≡ some class
    → class_accepted sys_class ≡ true
    → validate_classification (some class) ≡ done 0
unfolding class_accepted
class_given none class e a = cc
class_given (some []) class e a = cc
class_given (some (c ∷ cs)) class e a =
    let same : c ∷ cs ≡ class = cc in rw (sym same) (class_accepted_valid c cs a)

-- The event id that a record has: the one that is given, or the random one.
abbrev pub chosen_id : Option Bytes → Bytes → Bytes
chosen_id none random = random
chosen_id (some id) random = id

abbrev id_header : Bytes → Bytes
id_header id = codes "event_id" ++ (codes ": " ++ id)

of_status_zero : (p : ℤ × TelemRecord) → p.0 ≡ pos 0 → of_status p ≡ made p.1
unfolding of_status
of_status_zero (pos n, r) e = refl
of_status_zero (negsuc n, r) e = absurd cc

with_event_id-HasHeaders :
    (given : Option Bytes) (r : TelemRecord) (hs : List Bytes) (random : Bytes)
    → event_id_accepted given ≡ true
    → HasHeaders r hs
    → get_elem? hs 14 ≡ some (id_header random)
    → length random ≡ 32
    → (s : TelemRecord) × (with_event_id given r ≡ done (made s))
      × HasHeaders s (set hs 14 (id_header (chosen_id given random)))
unfolding with_event_id event_id_accepted of_status
with_event_id-HasHeaders none r hs random a h at usual =
    (r, refl, rw (set-get_elem? hs 14 (id_header random) at) h)
with_event_id-HasHeaders (some id) r hs random a h at usual =
    elim (tm_set_event_id-HasHeaders r hs (id_header random) id h at (omega (arith, usual))) [
      | inl (valid, returns, has) ↦ (
        (tm_set_event_id (some id) r).1,
        ap done (of_status_zero (tm_set_event_id (some id) r) returns),
        has,
      )
      | inr (invalid, _) ↦ absurd (invalid ((==_iff (validate_event_id (some id)) 0).0 a))
    ]

clamp_kept : (n : ℕ) → (leb 1 n && leb n 4) ≡ true → clamp_severity n ≡ n
unfolding clamp_severity
clamp_kept n h = ground (arith, h)

-- With options that validate_opts accepts, on a usable system whose random ids have 32 bytes, and with
-- a class that holds no newline and no NUL: when the payload has at most
-- 8192 bytes, printable or white space, the record is made. It has a header for each name in order,
-- each on one line, with the class, the severity as it was given and the given event id, or else the
-- random one; and it has the payload.
pub instanciate_record-HasHeaders :
    (sys : ClientSystem) (left_over : ℕ) (g : GenOptions) (class text : Bytes) (u : IsUsable sys)
    → length u.random_id.0 ≡ 32
    → g.opt_class ≡ some class
    → validate_opts g ≡ true
    → Lacks b'\n' class
    → Lacks 0 class
    → length text ≤ 8192
    → IsText text
    → (r : TelemRecord) × (hs : List Bytes) × (instanciate_record sys left_over g text
        ≡ done (made r))
      × HasHeaders r hs
      × (r.payload ≡ text)
      × (r.payload_size ≡ length text)
      × (get_elem? hs 1 ≡ some (codes "classification" ++ (codes ": " ++ class)))
      × (get_elem? hs 2 ≡ some (codes "severity" ++ (codes ": " ++ decimal g.severity)))
      × (get_elem? hs 14 ≡ some (id_header (chosen_id g.opt_event_id u.random_id.0)))
unfolding validate_opts instanciate_record class_of
instanciate_record-HasHeaders sys left_over g class text u usual given valid line nul short texts =
    let id_ok =
      and_right (leb 1 g.severity && leb g.severity 4) _
        (and_right (class_accepted g.opt_class) _ valid) in
    let level =
      and_left (leb 1 g.severity && leb g.severity 4) _
        (and_right (class_accepted g.opt_class) _ valid) in
    let class_ok =
      class_given g.opt_class class given (and_left (class_accepted g.opt_class) _ valid) in
    let (r, hs, created, has, at_1, at_2, at_14) =
      tm_create_record-HasHeaders sys left_over g.severity class g.payload_version u class_ok line
        nul in
    let (s, named, has') =
      with_event_id-HasHeaders g.opt_event_id r hs u.random_id.0 id_ok has at_14 usual in
    let hs' = set hs 14 (id_header (chosen_id g.opt_event_id u.random_id.0)) in
    let exact : clamp_severity g.severity ≡ g.severity = clamp_kept g.severity level in
    (
      record s { payload = text; payload_size = length text },
      hs',
      rw (given, created, named, tm_set_payload_takes text s short texts)
          (unfold of_status in refl),
      record { lines = has'.lines; named = has'.named; header_size = has'.header_size },
      refl,
      refl,
      get_elem?-set_ne hs (id_header _) (omega arith) ∙ at_1,
      get_elem?-set_ne hs (id_header _) (omega arith)
          ∙ at_2
          ∙ ap (λ n. some (codes "severity" ++ (codes ": " ++ decimal n))) exact,
      get_elem?-set_there hs 14 _ _ at_14,
    )
