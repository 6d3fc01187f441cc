-- ===== src/Spool/Passes.antt =====
-- One pass over the spool: its bounds, when it ends early, and which files it lets go.
use telemetrics_client.Base.{
  suc, ◌≤◌, ◌<◌, ◌≡◌, inl, inr, refl, sym, Bool, true, false, List, [], ◌∷◌, Option, some, none,
  leb, ◌==◌, arith, if_cases,
}
use telemetrics_client.Base.Bytes.{Bytes}
use telemetrics_client.Base.Int.{ℤ}
use telemetrics_client.Base.Run.{done, >>=-eq-done}
use telemetrics_client.PostDaemon.{Backend}
use telemetrics_client.PostDaemon.Process.{FileStatus, is_expired}
use telemetrics_client.Spool.{
  SpoolEntry, Progress, Outcome, transmit_spooled_record, deduct, after_transmission,
  is_invalid_expiry, process_spooled_known, process_spooled_status, is_dots, process_spooled_record,
  spool_loop, spool_records_loop,
}

-- The counters of a pass: more than the 50 of TM_SPOOL_MAX_SEND_RECORDS can be sent, by one.
pub record IsWithin (p : Progress) : Type 0 where
  pub sent_processed : p.records_sent ≤ p.records_processed
  pub sent : p.records_sent ≤ 51

after_transmission_sent :
    (entry : SpoolEntry) (st : FileStatus) (p p' : Progress) (o : Outcome) {removed : Bool}
    → after_transmission entry st p o ≡ done (p', removed)
    → (p'.records_processed ≡ p.records_processed) × (p'.records_sent ≤ suc p.records_sent)
unfolding after_transmission
after_transmission_sent entry st p p' (false, r) e =
    let same : p ≡ p' = cc in rw same (refl, omega arith)
after_transmission_sent entry st p p' (true, r) e =
    let (size, _, e') = >>=-eq-done (deduct entry st p.current_spool_size) _ e in
    let same : (record p { records_sent = suc p.records_sent; current_spool_size = size }) ≡ p' =
      cc in
    rw (sym same) (refl, omega arith)

-- What one file does to the counter of the sent records.
record SentStep (p p' : Progress) : Type 0 where
  step : p'.records_sent ≤ suc p.records_sent
  limit : p.records_sent ≤ 51 → p'.records_sent ≤ 51

process_known_sent :
    (post : Backend) (expiry : ℤ) (entry : SpoolEntry) (p p' : Progress) (st : FileStatus)
    {removed : Bool}
    → process_spooled_known post expiry entry p st ≡ done (p', removed)
    → (p'.records_processed ≡ p.records_processed) × SentStep p p'
unfolding process_spooled_known
process_known_sent post expiry entry p p' st e =
    elim (if_cases (is_expired entry.current_time expiry st) e) [
      | inl (_, stays) ↦
          let same : p ≡ p' = cc in rw same (refl, record { step = omega arith; limit = λ h. h })
      | inr (_, e') ↦ elim (if_cases (leb p.records_sent 50) e') [
        | inl (low, run) ↦
            let (o, _, after) =
              >>=-eq-done (transmit_spooled_record post entry.content entry.size) _ run in
            let (same, step) = after_transmission_sent entry st p p' o after in
            (same, record { step = step; limit = λ _. ground (arith, low, step) })
        | inr (_, stays) ↦
            let same : p ≡ p' = cc in rw same (refl, record { step = omega arith; limit = λ h. h })
      ]
    ]

process_status_sent :
    (post : Backend) (expiry : ℤ) (entry : SpoolEntry) (p p' : Progress)
    (status : Option FileStatus) {removed : Bool}
    → process_spooled_status post expiry entry p status ≡ done (p', removed)
    → (p'.records_processed ≡ p.records_processed) × SentStep p p'
unfolding process_spooled_status
process_status_sent post expiry entry p p' none e =
    let same : p ≡ p' = cc in rw same (refl, record { step = omega arith; limit = λ h. h })
process_status_sent post expiry entry p p' (some st) e =
    elim (if_cases (is_invalid_expiry expiry) e) [
      | inl (_, e') ↦ absurd cc
      | inr (_, e') ↦ process_known_sent post expiry entry p p' st e'
    ]

process_spooled_record-IsWithin :
    (post : Backend) (expiry : ℤ) (entry : SpoolEntry) (p p' : Progress) {removed : Bool}
    → IsWithin p
    → process_spooled_record post expiry entry p ≡ done (p', removed)
    → IsWithin p' × (p'.records_processed ≤ suc p.records_processed)
unfolding process_spooled_record
process_spooled_record-IsWithin post expiry entry p p' w e =
    elim (if_cases (is_dots entry.name) e) [
      | inl (_, stays) ↦ let same : p ≡ p' = cc in rw (sym same) (w, omega arith)
      | inr (_, e') ↦
          let (count, s) = process_status_sent post expiry entry _ p' entry.status e' in
          (
            record {
              sent_processed = omega (arith, count, s.step, w.sent_processed);
              sent = s.limit w.sent;
            },
            omega (arith, count),
          )
    ]

spool_loop-IsWithin :
    (post : Backend) (expiry : ℤ) (entries : List SpoolEntry) (p p' : Progress) (gone : List Bytes)
    {gone' : List Bytes}
    → IsWithin p
    → p.records_processed < 60
    → spool_loop post expiry entries p gone ≡ done (p', gone')
    → IsWithin p' × (p'.records_processed ≤ 60)
unfolding spool_loop
spool_loop-IsWithin post expiry [] p p' gone w room e =
    let same : p ≡ p' = cc in rw (sym same) (w, omega arith)
spool_loop-IsWithin post expiry (entry ∷ entries) p p' gone w room e =
    let ((q, removed), ran, e1) = >>=-eq-done (process_spooled_record post expiry entry p) _ e in
    let (within, few) = process_spooled_record-IsWithin post expiry entry p q w ran in
    elim (if_cases (q.records_sent == 0) e1) [
      | inl (_, ends) ↦ let same : q ≡ p' = cc in rw (sym same) (within, omega (arith, few))
      | inr (_, e2) ↦ elim (if_cases (q.records_processed == 60) e2) [
        | inl (_, ends) ↦ let same : q ≡ p' = cc in rw (sym same) (within, omega (arith, few))
        | inr (below, e3) ↦
            spool_loop-IsWithin post expiry entries q p' _ within (ground (arith, few, below)) e3
      ]
    ]

-- Whatever the backend and the sorting do, a pass over the spool that runs to its end has processed
-- at most 60 files, and sent at most 51 and no more than it processed.
pub spool_records_loop-IsWithin :
    (qsort : (SpoolEntry → SpoolEntry → ℤ) → List SpoolEntry → List SpoolEntry) (post : Backend)
    (expiry : ℤ) (directory : Option (List SpoolEntry)) (size : ℤ) (p : Progress)
    (gone : List Bytes)
    → spool_records_loop qsort post expiry directory size ≡ done (p, gone)
    → IsWithin p × (p.records_processed ≤ 60)
unfolding spool_records_loop
spool_records_loop-IsWithin qsort post expiry none size p gone e =
    let same : (record { records_processed = 0; records_sent = 0; current_spool_size = size }) ≡ p =
      cc in
    rw (sym same) (record { sent_processed = omega arith; sent = omega arith }, omega arith)
spool_records_loop-IsWithin qsort post expiry (some directory) size p gone e =
    spool_loop-IsWithin post expiry _ _ p []
      (record { sent_processed = omega arith; sent = omega arith }) (omega arith) e
