-- ===== src/PostDaemon/Process/Removal.antt =====
-- When `process_staged_record` lets its caller remove the file, and how the spool size follows.
use telemetrics_client.Base.{
  ◌≡◌, ◌⊎◌, inl, inr, ◌∙◌, refl, ap, true, false, Bool, some, if◌then◌else◌, Bool-cases,
}
use telemetrics_client.Base.Bytes.{Bytes}
use telemetrics_client.Base.Int.{ℤ, ◌+ℤ◌, ◌-ℤ◌, +ℤ_cancel}
use telemetrics_client.Base.Run.{Run, done, exit, fault, ◌>>=◌, >>=-eq-done}
use telemetrics_client.PostDaemon.Process.Frames.{
  record_first_time-SameButRecords, dispatch_spool_size,
}
use telemetrics_client.PostDaemon.Process.{
  FileStatus, StagedFile, Surroundings, is_expired, file_size, record_first_time, spool_is_full,
  dispatch, end_processing, process_known, process_staged_record,
}
use telemetrics_client.PostDaemon.{TelemPostDaemon, Backend}
use telemetrics_client.Record.Staged.{read_record}
use telemetrics_client.Record.{StagedRecord}

-- The daemon with the size of a file counted in.
abbrev pub with_size : TelemPostDaemon → FileStatus → TelemPostDaemon
with_size d st = record d { current_spool_size = d.current_spool_size +ℤ file_size st }

-- A readable record with a known status goes through `process_known`.
pub process_of_known :
    (post : Backend) (env : Surroundings) (is_retry : Bool) (d : TelemPostDaemon)
    (file : StagedFile) (r : StagedRecord) (st : FileStatus)
    → read_record file.content ≡ some r
    → file.status ≡ some st
    → process_staged_record post env is_retry d file ≡ (
        process_known post env is_retry (with_size d st) st r >>= λ x.
        done (end_processing (file_size st) x))
unfolding process_staged_record
process_of_known post env is_retry d file r st e s = rw (e, s)

end_processing_inversion :
    (size : ℤ) (m : Run (Bool × TelemPostDaemon)) (ret : Bool) (d' : TelemPostDaemon)
    → (m >>= λ x. done (end_processing size x)) ≡ done (ret, d')
    → (d₁ : TelemPostDaemon) × (m ≡ done (ret, d₁)) × (end_processing size (ret, d₁) ≡ (ret, d'))
unfolding end_processing
end_processing_inversion size (done (true, d₁)) true d' h = (d₁, refl, cc)
end_processing_inversion size (done (true, d₁)) false d' h = cc
end_processing_inversion size (done (false, d₁)) true d' h = cc
end_processing_inversion size (done (false, d₁)) false d' h = (d₁, refl, cc)
end_processing_inversion size exit ret d' h = cc
end_processing_inversion size fault ret d' h = cc

-- The reasons for which a file may be removed that was read and whose status is known.
abbrev pub MayRemove :
    (StagedRecord → Type 0) → Surroundings → TelemPostDaemon → FileStatus → StagedRecord → Type 0
MayRemove Taken env d st r =
    (is_expired env.start_time env.record_expiry st ≡ true)
    ⊎ (d.record_server_delivery_enabled ≡ false)
    ⊎ (spool_is_full env (d.current_spool_size +ℤ file_size st) ≡ true)
    ⊎ Taken r

-- Nothing before `end_processing` changes the counted spool size.
known_spool_size :
    (post : Backend) (env : Surroundings) (is_retry : Bool) (d : TelemPostDaemon) (st : FileStatus)
    (r : StagedRecord) {ret : Bool} {d' : TelemPostDaemon}
    → process_known post env is_retry d st r ≡ done (ret, d')
    → d'.current_spool_size ≡ d.current_spool_size
unfolding process_known
known_spool_size post env is_retry d st r h =
    elim (Bool-cases (is_expired env.start_time env.record_expiry st)) [
      | inl old ↦ let e = rw old at h in cc e
      | inr fresh ↦
          let (d₁, first, sent) =
            >>=-eq-done (record_first_time env is_retry d r) (λ d₂. dispatch post env d₂ r)
              (rw fresh at h) in
          let (j, files, same) = record_first_time-SameButRecords env is_retry d r first in
          dispatch_spool_size post env d₁ r sent
          ∙ ap (λ (x : TelemPostDaemon). x.current_spool_size) same
    ]

end_processing_size :
    (size : ℤ) (ret : Bool) (d d' d₁ : TelemPostDaemon)
    → d₁.current_spool_size ≡ d.current_spool_size +ℤ size
    → end_processing size (ret, d₁) ≡ (ret, d')
    → d'.current_spool_size ≡ (if ret then d.current_spool_size else d.current_spool_size +ℤ size)
unfolding end_processing
end_processing_size size true d d' d₁ e h =
    cc (ap (λ (x : ℤ). x -ℤ size) e, +ℤ_cancel d.current_spool_size size, h)
end_processing_size size false d d' d₁ e h = cc

-- If the file holds a record and has a status, and process_staged_record returns, then the spool
-- size that the daemon counts grows by the blocks of a file that stays, and is as before
-- if the file goes.
pub process_staged_record_spool_size :
    (post : Backend) (env : Surroundings) (is_retry : Bool) (d : TelemPostDaemon)
    (file : StagedFile) (r : StagedRecord) (st : FileStatus) {ret : Bool} {d' : TelemPostDaemon}
    → read_record file.content ≡ some r
    → file.status ≡ some st
    → process_staged_record post env is_retry d file ≡ done (ret, d')
    → d'.current_spool_size
      ≡ (if ret then d.current_spool_size else d.current_spool_size +ℤ file_size st)
process_staged_record_spool_size post env is_retry d file r st {ret = ret} {d' = d'} e s h =
    let (d₁, run, last) =
      end_processing_inversion (file_size st)
        (process_known post env is_retry (with_size d st) st r) ret d'
        (rw (process_of_known post env is_retry d file r st e s) at h) in
    let same = known_spool_size post env is_retry (with_size d st) st r run in
    end_processing_size (file_size st) ret d d' d₁ same last
