-- ===== src/PostDaemon/Process/Frames.antt =====
-- What the parts of `process_staged_record` leave alone.
use telemetrics_client.Base.{
  ◌≡◌, refl, true, false, Bool, List, Option, arith, Bool-cases, inl, inr, not, ◌||◌, ◌&&◌,
  if_cases,
}
use telemetrics_client.Base.Bytes.{Bytes}
use telemetrics_client.Base.Run.{done, >>=-eq-done}
use telemetrics_client.Journal.Store.{TelemJournal}
use telemetrics_client.PostDaemon.Process.{
  Surroundings, journal_after, save_entry_to_journal, save_local_copy, apply_retention_policies,
  record_first_time, dispatch,
}
use telemetrics_client.PostDaemon.{
  TelemPostDaemon, DeliveryClock, Backend, inside_direct_spool_window, windows_length_value_check,
  rate_limit_checks, after_attempt, attempt, deliver_record,
}
use telemetrics_client.Record.{StagedRecord}

-- Only the journal and the local copies differ.
abbrev pub SameButRecords : TelemPostDaemon → TelemPostDaemon → Type 0
SameButRecords d d' =
    (j : Option TelemJournal) × (files : Bytes → Option Bytes) × (d'
      ≡ record d { record_journal = j; retained = files })

apply_retention-SameButRecords :
    (d : TelemPostDaemon) (body : Bytes)
    → (files : Bytes → Option Bytes) × (apply_retention_policies d body
        ≡ record d { retained = files })
unfolding apply_retention_policies save_local_copy
apply_retention-SameButRecords d body = elim (Bool-cases d.record_retention_enabled) [
  | inl on ↦ ((save_local_copy d body).retained, rw on refl)
  | inr off ↦ (d.retained, rw off refl)
]

save_entry-SameButRecords :
    (env : Surroundings) (d : TelemPostDaemon) (headers : List Bytes) {d' : TelemPostDaemon}
    → save_entry_to_journal env d headers ≡ done d'
    → (j : Option TelemJournal) × (d' ≡ record d { record_journal = j })
unfolding save_entry_to_journal
save_entry-SameButRecords env d headers h =
    let (j, _, e) =
      >>=-eq-done (journal_after env d headers)
        (λ journal. done (record d { record_journal = journal })) h in
    (j, cc)

-- The journal entry and the local copy change nothing else; a retry changes nothing at all.
pub record_first_time-SameButRecords :
    (env : Surroundings) (is_retry : Bool) (d : TelemPostDaemon) (r : StagedRecord)
    {d' : TelemPostDaemon}
    → record_first_time env is_retry d r ≡ done d'
    → SameButRecords d d'
unfolding record_first_time
record_first_time-SameButRecords env true d r h = (d.record_journal, d.retained, cc)
record_first_time-SameButRecords env false d r h =
    let (d₁, saved, kept) =
      >>=-eq-done (save_entry_to_journal env d r.headers)
        (λ d₂. done (apply_retention_policies d₂ r.body)) h in
    let (j, e) = save_entry-SameButRecords env d r.headers saved in
    let (files, e') = apply_retention-SameButRecords d₁ r.body in (j, files, cc)

-- What a delivery that returns has done: the checks, perhaps an attempt, and what follows.
pub deliver_record_sent :
    (post : Backend) (clock : DeliveryClock) (d : TelemPostDaemon) (headers : List Bytes)
    (body : Bytes) (cfg : Option Bytes) {ret : Bool} {d' : TelemPostDaemon}
    → deliver_record post clock d headers body cfg ≡ done (ret, d')
    → (may_send : Bool) × (sent : Bool) × (attempt post may_send headers body cfg ≡ done sent)
      × (after_attempt (rate_limit_checks d clock.check_minute).2 clock sent ≡ (ret, d'))
unfolding deliver_record
deliver_record_sent post clock d headers body cfg h =
    let c = rate_limit_checks d clock.check_minute in
    let may_send = not c.2.rate_limit_enabled || (c.0 && c.1) in
    let (sent, tried, last) =
      >>=-eq-done (attempt post may_send headers body cfg) (λ s. done (after_attempt c.2 clock s))
        h in
    (may_send, sent, tried, cc)

deliver_record_spool_size :
    (post : Backend) (clock : DeliveryClock) (d : TelemPostDaemon) (headers : List Bytes)
    (body : Bytes) (cfg : Option Bytes) {ret : Bool} {d' : TelemPostDaemon}
    → deliver_record post clock d headers body cfg ≡ done (ret, d')
    → d'.current_spool_size ≡ d.current_spool_size
unfolding rate_limit_checks after_attempt
deliver_record_spool_size post clock d headers body cfg h =
    let (may_send, sent, tried, last) = deliver_record_sent post clock d headers body cfg h in
    ground (arith, last)

pub dispatch_spool_size :
    (post : Backend) (env : Surroundings) (d : TelemPostDaemon) (r : StagedRecord) {ret : Bool}
    {d' : TelemPostDaemon}
    → dispatch post env d r ≡ done (ret, d')
    → d'.current_spool_size ≡ d.current_spool_size
unfolding dispatch
dispatch_spool_size post env d r h = elim (if_cases (not d.record_server_delivery_enabled) h) [
  | inl (_, off) ↦ cc
  | inr (_, on) ↦ elim (if_cases (inside_direct_spool_window d env.window_time) on) [
    | inl (_, waits) ↦ cc
    | inr (_, direct) ↦ elim (if_cases (not (windows_length_value_check d)) direct) [
      | inl (_, invalid) ↦ absurd cc
      | inr (_, sends) ↦
          deliver_record_spool_size post env.clock d r.headers r.body r.cfg_file sends
    ]
  ]
]
