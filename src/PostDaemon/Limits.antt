-- ===== src/PostDaemon/Limits.antt =====
-- Rate limiting and the network bypass, as the deliveries show them.
use telemetrics_client.Base.{
  ℕ, ◌+◌, ◌≤◌, ◌<◌, ◌≡◌, ◌⊎◌, inl, inr, ◌∙◌, refl, sym, ap, true, false, Bool, List, Option, arith,
  ◌&&◌, not, if◌then◌else◌, Bool-cases, Option-cases, length, get_or,
}
use telemetrics_client.Base.Bytes.{Bytes}
use telemetrics_client.Base.Int.{pos}
use telemetrics_client.Base.Run.{Run, done, ◌>>=◌, bind_congr, >>=-eq-done}
use telemetrics_client.PostDaemon.Process.{
  Surroundings, StagedFile, FileStatus, is_expired, file_size, dispatch, end_processing,
  process_known, record_first_time, process_staged_record,
}
use telemetrics_client.PostDaemon.Process.Frames.{record_first_time-SameButRecords}
use telemetrics_client.PostDaemon.Process.Removal.{with_size, process_of_known}
use telemetrics_client.Record.Staged.{read_record}
use telemetrics_client.PostDaemon.{
  TelemPostDaemon, DeliveryClock, Backend, inside_direct_spool_window, rate_limit_checks,
  count_sent, after_attempt, attempt, deliver_record, to_window,
}
use telemetrics_client.RateLimit.Update.{recent-rate_limit_update}
use telemetrics_client.RateLimit.Window.{recent, check_iff_recent}
use telemetrics_client.RateLimit.{
  tm_rate_limit_slots, tm_record_counter, size_mod, burst_limit_enabled, rate_limit_check,
  rate_limit_update,
}
use telemetrics_client.Record.{StagedRecord}

-- A daemon that limits the records of the last `window` minutes to `limit`, with room to count.
pub record LimitsRecords (d : TelemPostDaemon) (limit window minute : ℕ) : Type 0 where
  pub enabled : d.rate_limit_enabled ≡ true
  pub burst : d.record_burst_limit ≡ pos limit
  pub window_is : d.record_window_length ≡ pos window
  pub window_pos : 0 < window
  pub window_fits : window ≤ tm_rate_limit_slots
  pub minute_fits : minute < tm_rate_limit_slots
  pub slots : length d.record_burst_array ≡ tm_rate_limit_slots
  pub room : recent minute window d.record_burst_array + tm_record_counter + 1 < size_mod
  pub slot_room : get_or d.record_burst_array minute 0 + tm_record_counter < size_mod

-- What the record check says.
check_of_limit :
    (d : TelemPostDaemon) (limit window minute : ℕ)
    → LimitsRecords d limit window minute
    → rate_limit_check minute (pos limit) window d.record_burst_array tm_record_counter ≡ true
    → recent minute window d.record_burst_array + 1 ≤ limit
check_of_limit d limit window minute l ok =
    (check_iff_recent minute limit window tm_record_counter d.record_burst_array l.minute_fits
        l.window_fits l.room).0
      ok

burst_limit_enabled_pos : (limit : ℕ) → burst_limit_enabled (pos limit) ≡ true
unfolding burst_limit_enabled
burst_limit_enabled_pos limit = ground arith

-- The checks of such a daemon: that of the records, and some answer for the bytes.
checks_of_limit :
    (d : TelemPostDaemon) (limit window minute : ℕ)
    → LimitsRecords d limit window minute
    → (bytes_pass : Bool) × (rate_limit_checks d minute ≡ (
      rate_limit_check minute (pos limit) window d.record_burst_array tm_record_counter,
      bytes_pass,
      d,
    ))
checks_of_limit d limit window minute l =
    let burst : burst_limit_enabled d.record_burst_limit ≡ true =
      rw l.burst (burst_limit_enabled_pos limit) in
    let limited : rate_limit_check minute d.record_burst_limit (to_window d.record_window_length)
          d.record_burst_array tm_record_counter
        ≡ rate_limit_check minute (pos limit) window d.record_burst_array tm_record_counter =
      cc (l.burst, ap to_window l.window_is) in
    (
      (rate_limit_checks d minute).1,
      unfold rate_limit_checks in ground (arith, burst, limited, l.enabled),
    )

-- Rate limiting is on with the record limit `limit` over a window of 1 to 60 minutes, the burst
-- array has its 60 slots, and the counters of the window stay below the largest size_t. Then, if
-- the last `window` minutes already hold `limit` records, the backend does not matter: whatever it
-- would say, the delivery comes out the same.
pub deliver_record_at_limit :
    (post post' : Backend) (clock : DeliveryClock) (d : TelemPostDaemon) (limit window : ℕ)
    (headers : List Bytes) (body : Bytes) (cfg : Option Bytes)
    → LimitsRecords d limit window clock.check_minute
    → limit ≤ recent clock.check_minute window d.record_burst_array
    → deliver_record post clock d headers body cfg ≡ deliver_record post' clock d headers body cfg
unfolding deliver_record attempt
deliver_record_at_limit post post' clock d limit window headers body cfg l full =
    let (bytes_pass, checks) = checks_of_limit d limit window clock.check_minute l in
    let refused : rate_limit_check clock.check_minute (pos limit) window d.record_burst_array
          tm_record_counter
        ≡ false =
      elim (Bool-cases (
        rate_limit_check clock.check_minute (pos limit) window d.record_burst_array
          tm_record_counter)) [
            | inl ok ↦ absurd (omega (arith, check_of_limit d limit window clock.check_minute l ok))
            | inr no_room ↦ no_room
          ] in
    let closed : (not d.rate_limit_enabled) ≡ false = ap not l.enabled in
    rw (checks, refused, closed) refl

recent-count_sent :
    (d : TelemPostDaemon) (limit window minute : ℕ)
    → LimitsRecords d limit window minute
    → recent minute window (count_sent d minute).record_burst_array
      ≡ recent minute window d.record_burst_array + 1
recent-count_sent d limit window minute l =
    let burst : burst_limit_enabled d.record_burst_limit ≡ true =
      rw l.burst (burst_limit_enabled_pos limit) in
    let counts : (count_sent d minute).record_burst_array
        ≡ rate_limit_update minute window d.record_burst_array tm_record_counter =
      unfold count_sent in rw burst (cc (ap to_window l.window_is)) in
    rw counts (
      recent-rate_limit_update minute window tm_record_counter d.record_burst_array l.minute_fits
        l.window_fits l.window_pos l.slots l.slot_room)

-- An attempt changes the record counters only if the record was sent.
attempt_counts :
    (d : TelemPostDaemon) (clock : DeliveryClock) (sent : Bool)
    → (after_attempt d clock sent).1.record_burst_array ≡ (
        if sent
        then (count_sent d clock.deliver_minute).record_burst_array
        else d.record_burst_array)
unfolding after_attempt
attempt_counts d clock true = refl
attempt_counts d clock false = ground arith

-- Only a record that passed the checks is sent.
attempt_allowed :
    (post : Backend) (ok bytes_pass : Bool) (headers : List Bytes) (body : Bytes)
    (cfg : Option Bytes)
    → attempt post (ok && bytes_pass) headers body cfg ≡ done true
    → ok ≡ true
unfolding attempt
attempt_allowed post true bytes_pass headers body cfg h = refl
attempt_allowed post false bytes_pass headers body cfg h = absurd cc

-- Rate limiting is on with the record limit `limit` over a window of 1 to 60 minutes, the burst
-- array has its 60 slots, and the counters of the window stay below the largest size_t. Then a
-- delivery that returns, and whose two clock readings fall into one minute, leaves the record counters alone, or
-- counts one record more in the window, which holds at most `limit` after it.
pub deliver_record_keeps_limit :
    (post : Backend) (clock : DeliveryClock) (d : TelemPostDaemon) (limit window : ℕ)
    (headers : List Bytes) (body : Bytes) (cfg : Option Bytes) {ret : Bool} {d' : TelemPostDaemon}
    → clock.deliver_minute ≡ clock.check_minute
    → LimitsRecords d limit window clock.check_minute
    → deliver_record post clock d headers body cfg ≡ done (ret, d')
    → (d'.record_burst_array ≡ d.record_burst_array)
      ⊎ ((recent clock.check_minute window d'.record_burst_array
            ≡ recent clock.check_minute window d.record_burst_array + 1)
          × (recent clock.check_minute window d'.record_burst_array ≤ limit))
unfolding deliver_record
deliver_record_keeps_limit post clock d limit window headers body cfg {ret} {d'} same l h =
    let minute = clock.check_minute in
    let (bytes_pass, checks) = checks_of_limit d limit window minute l in
    let closed : (not d.rate_limit_enabled) ≡ false = ap not l.enabled in
    let ok = rate_limit_check minute (pos limit) window d.record_burst_array tm_record_counter in
    let (sent, tried, last) =
      >>=-eq-done (attempt post (ok && bytes_pass) headers body cfg) _ (rw (checks, closed) at h) in
    let after : after_attempt d clock sent ≡ (ret, d') = cc in
    let array : d'.record_burst_array ≡ (
        if sent
        then (count_sent d clock.deliver_minute).record_burst_array
        else d.record_burst_array) =
      ap (λ x. x.1.record_burst_array) (sym after) ∙ attempt_counts d clock sent in
    elim (Bool-cases sent) [
      | inr kept ↦ inl (rw kept at array)
      | inl was_sent ↦
          let left_alone : d'.record_burst_array ≡ (count_sent d minute).record_burst_array =
            (rw was_sent at array) ∙ ap (λ (m : ℕ). (count_sent d m).record_burst_array) same in
          let grown =
            ap (recent minute window) left_alone ∙ recent-count_sent d limit window minute l in
          let passed : ok ≡ true =
            attempt_allowed post ok bytes_pass headers body cfg (tried ∙ ap done was_sent) in
          inr (grown, omega (arith, check_of_limit d limit window minute l passed))
    ]

dispatch_in_window :
    (post post' : Backend) (env : Surroundings) (d : TelemPostDaemon) (r : StagedRecord)
    → inside_direct_spool_window d env.window_time ≡ true
    → dispatch post env d r ≡ dispatch post' env d r
unfolding dispatch
dispatch_in_window post post' env d r inside = rw inside refl

known_in_window :
    (post post' : Backend) (env : Surroundings) (is_retry : Bool) (d : TelemPostDaemon)
    (st : FileStatus) (r : StagedRecord)
    → inside_direct_spool_window d env.window_time ≡ true
    → process_known post env is_retry d st r ≡ process_known post' env is_retry d st r
unfolding process_known
known_in_window post post' env is_retry d st r inside =
    ap
      (λ (m : Run (Bool × TelemPostDaemon)).
        if is_expired env.start_time env.record_expiry st then done (true, d) else m)
      (bind_congr (record_first_time env is_retry d r) (λ d'. dispatch post env d' r)
        (λ d'. dispatch post' env d' r)
        λ d' first.
          let (j, files, same) = record_first_time-SameButRecords env is_retry d r first in
          dispatch_in_window post post' env d' r
            (rw same (unfold inside_direct_spool_window in inside)))

-- Inside the direct spool window nothing is sent: whatever the backend would say, a staged file is
-- treated the same.
pub process_staged_record_in_window :
    (post post' : Backend) (env : Surroundings) (is_retry : Bool) (d : TelemPostDaemon)
    (file : StagedFile)
    → inside_direct_spool_window d env.window_time ≡ true
    → process_staged_record post env is_retry d file
      ≡ process_staged_record post' env is_retry d file
process_staged_record_in_window post post' env is_retry d file inside =
    elim (Option-cases (read_record file.content)) [
      | inl unread ↦ unfold process_staged_record in rw unread refl
      | inr (r, e) ↦ elim (Option-cases file.status) [
        | inl gone ↦ unfold process_staged_record in rw (e, gone) refl
        | inr (st, s) ↦
            process_of_known post env is_retry d file r st e s
            ∙ ap
                (λ (m : Run (Bool × TelemPostDaemon)).
                  m >>= λ x. done (end_processing (file_size st) x))
                (known_in_window post post' env is_retry (with_size d st) st r
                  (unfold inside_direct_spool_window in inside))
            ∙ sym (process_of_known post' env is_retry d file r st e s)
      ]
    ]
