-- ===== src/Spool/Progresses.antt =====
-- A pass over the spool comes to its end, and ends early when its first record is refused.
use telemetrics_client.Base.{
  ℕ, suc, ◌-◌, ◌*◌, ◌≤◌, ◌<◌, ◌≡◌, refl, Bool, true, false, List, [], ◌∷◌, Option, some, none,
  length, leb, ◌==◌, if◌then◌else◌, arith, ap, ◌∙◌,
}
use telemetrics_client.Base.Bytes.{Bytes}
use telemetrics_client.Base.Int.{ℤ, pos, ltb_ℤ, ◌-ℤ◌}
use telemetrics_client.Base.Run.{Run, done, exit, fault, ◌>>=◌}
use telemetrics_client.PostDaemon.{Backend}
use telemetrics_client.PostDaemon.Process.{FileStatus, is_expired, file_size}
use telemetrics_client.Record.{StagedRecord}
use telemetrics_client.Record.Staged.{read_record}
use telemetrics_client.Spool.{
  SpoolEntry, Progress, Outcome, transmit_spooled_record, deduct, get_spool_dir_size, is_enomem,
  after_transmission, is_invalid_expiry, process_spooled_known, process_spooled_status, is_dots,
  process_spooled_record, spool_loop,
}
use telemetrics_client.Spool.Removal.{IsSized}
use telemetrics_client.Spool.Transmission.{transmit_outcome, transmit_spooled_record-read_record}

-- The run returns a value.
abbrev pub Returns {ℓ} : {A : Type ℓ} → Run A → Type ℓ
Returns {A} run = (a : A) × (run ≡ done a)

-- A file that does not change while it is read, in a directory whose size can be told; and the backend
-- returns for the record in it.
pub record IsSteady (post : Backend) (entry : SpoolEntry) : Type 0 where
  pub sized : IsSized entry
  pub has_memory : is_enomem entry.directory_size ≡ false
  pub posts :
      (r : StagedRecord)
      → read_record entry.content ≡ some r
      → Returns (post r.headers r.body r.cfg_file)

abbrev pub AreSteady : Backend → List SpoolEntry → Type 0
AreSteady post [] = Unit
AreSteady post (entry ∷ entries) = IsSteady post entry × AreSteady post entries

bind-Returns :
    {A B : Type 0} (run : Run A) (f : A → Run B)
    → Returns run
    → ((a : A) → Returns (f a))
    → Returns (run >>= f)
bind-Returns (done a) f r h = h a
bind-Returns exit f r h = absurd cc
bind-Returns fault f r h = absurd cc

if_Returns :
    {A : Type 0} (b : Bool) (x y : Run A) → Returns x → Returns y → Returns (if b then x else y)
if_Returns true x y h k = h
if_Returns false x y h k = k

transmit_outcome-Returns :
    (post : Backend) (o : Option StagedRecord)
    → ((r : StagedRecord) → o ≡ some r → Returns (post r.headers r.body r.cfg_file))
    → Returns (transmit_outcome post o)
transmit_outcome-Returns post none posts = (_, refl)
transmit_outcome-Returns post (some r) posts =
    bind-Returns (post r.headers r.body r.cfg_file) (λ sent. done (sent, sent)) (posts r refl)
      (λ sent. (_, refl))

transmit-Returns :
    (post : Backend) (entry : SpoolEntry) (content : Option Bytes)
    → IsSteady post entry
    → entry.content ≡ content
    → Returns (transmit_spooled_record post content entry.size)
unfolding transmit_spooled_record
transmit-Returns post entry none s c = (_, refl)
transmit-Returns post entry (some file) s c =
    let (outcome, same) =
      transmit_outcome-Returns post (read_record (some file))
        (λ r e. s.posts r (ap read_record c ∙ e)) in
    (outcome, rw (s.sized file c) (transmit_spooled_record-read_record post file ∙ same))

deduct-Returns :
    (post : Backend) (entry : SpoolEntry) (st : FileStatus) (size : ℤ)
    → IsSteady post entry
    → Returns (deduct entry st size)
unfolding deduct get_spool_dir_size
deduct-Returns post entry st size s =
    let known : get_spool_dir_size entry.directory_size ≡ done entry.directory_size =
      rw s.has_memory refl in
    if_Returns (ltb_ℤ (if ltb_ℤ (pos 0) size then size -ℤ file_size st else size) (pos 0))
      (get_spool_dir_size entry.directory_size)
      (done (if ltb_ℤ (pos 0) size then size -ℤ file_size st else size))
      (entry.directory_size, known) (_, refl)

after_transmission-Returns :
    (post : Backend) (entry : SpoolEntry) (st : FileStatus) (p : Progress) (o : Outcome)
    → IsSteady post entry
    → Returns (after_transmission entry st p o)
unfolding after_transmission
after_transmission-Returns post entry st p (false, r) s = (_, refl)
after_transmission-Returns post entry st p (true, r) s =
    bind-Returns (deduct entry st p.current_spool_size) _ (deduct-Returns post entry st _ s)
      (λ size. (_, refl))

process_status-Returns :
    (post : Backend) (expiry : ℤ) (entry : SpoolEntry) (p : Progress) (status : Option FileStatus)
    → is_invalid_expiry expiry ≡ false
    → IsSteady post entry
    → Returns (process_spooled_status post expiry entry p status)
unfolding process_spooled_status process_spooled_known
process_status-Returns post expiry entry p none valid s = (_, refl)
process_status-Returns post expiry entry p (some st) valid s =
    let run =
      bind-Returns (transmit_spooled_record post entry.content entry.size)
        (after_transmission entry st p) (transmit-Returns post entry entry.content s refl)
        (λ o. after_transmission-Returns post entry st p o s) in
    rw valid (if_Returns _ _ _ (_, refl) (if_Returns _ _ _ run (_, refl)))

process_spooled_record-Returns :
    (post : Backend) (expiry : ℤ) (entry : SpoolEntry) (p : Progress)
    → is_invalid_expiry expiry ≡ false
    → IsSteady post entry
    → Returns (process_spooled_record post expiry entry p)
unfolding process_spooled_record
process_spooled_record-Returns post expiry entry p valid s =
    if_Returns _ _ _ (_, refl) (process_status-Returns post expiry entry _ entry.status valid s)

-- If the configured expiry is not -1, no file changes its length between stat and fread, the size of
-- the directory can be told, and the backend returns, rather than end the process, for every record
-- that read_record reads in one of the files, then the loop over the files returns: it neither ends
-- the process nor leaves a buffer.
pub spool_loop-Returns :
    (post : Backend) (expiry : ℤ) (entries : List SpoolEntry) (p : Progress) (gone : List Bytes)
    → is_invalid_expiry expiry ≡ false
    → AreSteady post entries
    → Returns (spool_loop post expiry entries p gone)
unfolding spool_loop
spool_loop-Returns post expiry [] p gone valid s = (_, refl)
spool_loop-Returns post expiry (entry ∷ entries) p gone valid s =
    bind-Returns (process_spooled_record post expiry entry p) _
      (process_spooled_record-Returns post expiry entry p valid s.0)
      (λ (q, removed).
        let gone' : List Bytes = if removed then entry.name ∷ gone else gone in
        let rest = spool_loop post expiry entries q gone' in
        if_Returns (q.records_sent == 0) (done (q, gone'))
          (if q.records_processed == 60 then done (q, gone') else rest) ((q, gone'), refl)
          (if_Returns (q.records_processed == 60) (done (q, gone')) rest ((q, gone'), refl)
            (spool_loop-Returns post expiry entries q gone' valid s.1)))

-- If the expiry is not -1, and the first file of the loop is regular, not expired, the user's own
-- and unchanged while it is read, and the backend refuses the record in it, then no other file is
-- looked at: one file is processed, none is sent, none goes, and the size stays.
pub spool_loop_refused :
    (post : Backend) (expiry : ℤ) (entry : SpoolEntry) (entries : List SpoolEntry) (size : ℤ)
    (st : FileStatus) (file : Bytes) (r : StagedRecord)
    → is_invalid_expiry expiry ≡ false
    → is_dots entry.name ≡ false
    → entry.status ≡ some st
    → is_expired entry.current_time expiry st ≡ false
    → entry.content ≡ some file
    → entry.size ≡ length file
    → read_record (some file) ≡ some r
    → post r.headers r.body r.cfg_file ≡ done false
    → spool_loop post expiry
        (entry ∷ entries)
        (record { records_processed = 0; records_sent = 0; current_spool_size = size })
        []
      ≡ done (record { records_processed = 1; records_sent = 0; current_spool_size = size }, [])
unfolding spool_loop process_spooled_record process_spooled_status process_spooled_known
    after_transmission
spool_loop_refused post expiry entry entries size st file r valid named known fresh opens sized
      reads refused =
    let outcome = transmit_spooled_record-read_record post file in
    rw (named, known, valid, fresh, opens, sized, outcome, reads, refused) refl

deduct_within :
    (entry : SpoolEntry) (st : FileStatus) (size : ℕ)
    → 0 < st.blocks
    → st.blocks * 512 ≤ size
    → deduct entry st (pos size) ≡ done (pos (size - st.blocks * 512))
unfolding deduct ◌-ℤ◌ file_size
deduct_within entry st size blocks enough = ground arith

-- A regular, unexpired file of the user's own in which read_record finds no record stays in the
-- spool, if it is unchanged while it is read and at most 50 records were sent before; but it counts
-- as sent, and its blocks are taken off the size of the spool. The size before is at least that of
-- the file, which has blocks, and the expiry is not -1.
pub process_spooled_record_unread :
    (post : Backend) (expiry : ℤ) (entry : SpoolEntry) (p : Progress) (st : FileStatus)
    (file : Bytes) (size : ℕ)
    → is_invalid_expiry expiry ≡ false
    → is_dots entry.name ≡ false
    → entry.status ≡ some st
    → is_expired entry.current_time expiry st ≡ false
    → entry.content ≡ some file
    → entry.size ≡ length file
    → read_record (some file) ≡ none
    → p.records_sent ≤ 50
    → p.current_spool_size ≡ pos size
    → 0 < st.blocks
    → st.blocks * 512 ≤ size
    → process_spooled_record post expiry entry p
      ≡ done (
        record {
          records_processed = suc p.records_processed;
          records_sent = suc p.records_sent;
          current_spool_size = pos (size - st.blocks * 512);
        },
        false,
      )
unfolding process_spooled_record process_spooled_status process_spooled_known after_transmission
process_spooled_record_unread post expiry entry p st file size valid named known fresh opens sized
      unread few counted blocks enough =
    let outcome = transmit_spooled_record-read_record post file in
    let low : leb p.records_sent 50 ≡ true = ground arith in
    let read : SpoolEntry = record entry {
      content = some file;
      status = some st;
      size = length file;
    } in
    let less = deduct_within read st size blocks enough in
    rw (named, known, valid, fresh, opens, sized, outcome, unread, low, counted) (rw less refl)
