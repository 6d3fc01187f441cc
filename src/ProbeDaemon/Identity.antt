-- ===== src/ProbeDaemon/Identity.antt =====
-- The machine id that the daemon generates, and the one that its records get.
use telemetrics_client.Base.{
  ℕ, ◌+◌, ◌<◌, ◌≡◌, refl, sym, ap, ◌∙◌, [], ◌∷◌, Option, none, some, length, take, arith,
}
use telemetrics_client.Base.Bytes.{Bytes, Lacks, c_string_all}
use telemetrics_client.Base.Int.{pos}
use telemetrics_client.Client.Values.{skip_spaces, take_word}
use telemetrics_client.Common.{event_id_alphab}
use telemetrics_client.ProbeDaemon.MachineId.{
  IdStat, absent, stat_fails, modified, writable, tm_machine_id_expiry, found_id, get_machine_id,
  machine_id_write, generate_machine_id, update_machine_id,
}
use telemetrics_client.Record.Payload.{is_space}
use telemetrics_client.Record.Probd.{machine_id}
use telemetrics_client.Record.Tokens.{take_all}
use telemetrics_client.Util.{span_length, validate_event_id}
use telemetrics_client.Util.RandomId.{
  AreHex, get_random_id, get_random_id_valid, span_length-AreHex,
}

take_word-AreHex : (s : Bytes) → AreHex s → take_word s ≡ s
unfolding take_word is_space
take_word-AreHex [] h = refl
take_word-AreHex (c ∷ cs) h = ground (arith, take_word-AreHex cs h.1, h.0)

skip_spaces-AreHex : (s : Bytes) → AreHex s → skip_spaces s ≡ s
unfolding skip_spaces is_space
skip_spaces-AreHex [] h = refl
skip_spaces-AreHex (c ∷ cs) h = ground (arith, h.0)

AreHex-Lacks : (s : Bytes) → AreHex s → Lacks 0 s
AreHex-Lacks [] h = tt
AreHex-Lacks (c ∷ cs) h = (ground (arith, h.0), AreHex-Lacks cs h.1)

-- What is written as the machine id is read as it is.
get_machine_id-AreHex :
    (id : Bytes) → AreHex id → length id ≡ 32 → get_machine_id (some id) ≡ some id
unfolding get_machine_id found_id
get_machine_id-AreHex id h size =
    let word : take_word (skip_spaces id) ≡ id =
      ap take_word (skip_spaces-AreHex id h) ∙ take_word-AreHex id h in
    let whole : take 32 id ≡ id = rw (sym size) (take_all id) in
    ap (λ w. found_id (take 32 w)) word ∙ ap found_id whole ∙ found id h size
  where
    found : (s : Bytes) → AreHex s → length s ≡ 32 → found_id s ≡ some s
    found [] k e = absurd (omega (arith, e))
    found (c ∷ cs) k e = ap some (c_string_all (c ∷ cs) (AreHex-Lacks (c ∷ cs) k))

-- The file is not there, or older than three days.
abbrev pub IsExpired : ℕ → IdStat → Type 0
IsExpired now absent = Unit
IsExpired now stat_fails = ⊥
IsExpired now (modified mtime) = mtime + tm_machine_id_expiry < now

update_expired :
    (st : IdStat) (now : ℕ) (id : Bytes)
    → IsExpired now st
    → update_machine_id st now (some id) writable ≡ (pos 0, some id)
unfolding update_machine_id generate_machine_id machine_id_write
update_expired absent now id h = refl
update_expired stat_fails now id h = absurd h
update_expired (modified mtime) now id h = ground (arith, h)

-- When the file of the machine id is not there or older than three days, the random bytes can be read
-- and the file written: update_machine_id writes an id, which any record gets from then on without an
-- override; it is a valid event id too, of 32 hexadecimal digits.
pub update_machine_id-identity :
    (st : IdStat) (now : ℕ) (urandom : Option Bytes) (id : Bytes)
    → IsExpired now st
    → get_random_id urandom ≡ some id
    → (update_machine_id st now (get_random_id urandom) writable ≡ (pos 0, some id))
      × (machine_id none (get_machine_id (some id)) ≡ id)
      × (validate_event_id (some id) ≡ 0)
unfolding validate_event_id machine_id
update_machine_id-identity st now urandom id expired read =
    let (hex, size) = get_random_id_valid urandom id read in
    let inside : span_length id event_id_alphab ≡ 32 = span_length-AreHex id hex ∙ size in
    (
      rw read (update_expired st now id expired),
      rw (get_machine_id-AreHex id hex size) refl,
      ground (arith, size, inside),
    )
