-- ===== src/PostDaemon.antt =====
-- src/telempostdaemon.c: the post daemon's state, its rate limiting, and the delivery of a record.
-- `time(NULL)` and `tm_min` are arguments, one for each place that reads the clock; the backend,
-- `post_record_ptr`, is an argument too, and Http has the one that is used.
pub mod Process
pub mod Http
pub mod Limits
pub mod Loop
use telemetrics_client.Base.{
  ℕ, zero, suc, ◌+◌, ◌*◌, Bool, true, false, not, ◌&&◌, ◌||◌, List, Option, none, some, ltb,
  if◌then◌else◌,
}
use telemetrics_client.Base.Bytes.{Bytes, codes, equal}
use telemetrics_client.Base.Int.{ℤ, pos, negsuc, is_minus_one}
use telemetrics_client.Base.Run.{Run, done, ◌>>=◌}
use telemetrics_client.Common.{record_size_len, tm_daemon_exit_time}
use telemetrics_client.Journal.Store.{TelemJournal}
use telemetrics_client.RateLimit.{
  burst_limit_enabled, rate_limit_check, rate_limit_update, tm_record_counter,
}

-- struct TelemPostDaemon, without the file descriptors. `retained` is the directory of local
-- copies: the text under each record id.
pub record TelemPostDaemon : Type 0 where
  pub record_journal : Option TelemJournal
  pub bypass_http_post_ts : ℕ
  pub record_burst_array : List ℕ
  pub byte_burst_array : List ℕ
  pub rate_limit_enabled : Bool
  pub record_burst_limit : ℤ
  pub record_window_length : ℤ
  pub byte_burst_limit : ℤ
  pub byte_window_length : ℤ
  pub rate_limit_strategy : Bytes
  pub current_spool_size : ℤ
  pub record_retention_enabled : Bool
  pub record_server_delivery_enabled : Bool
  pub retained : Bytes → Option Bytes

-- The clock during one delivery: the minutes that `deliver_record` and `rate_limit_checks` read,
-- and the time of `start_network_bypass`.
pub record DeliveryClock : Type 0 where
  pub deliver_minute : ℕ
  pub check_minute : ℕ
  pub bypass_time : ℕ

-- post_record_ptr(headers, body, cfg_file), whose call may end the process
abbrev pub Backend : Type 0
Backend = List Bytes → Bytes → Option Bytes → Run Bool

abbrev pub network_bypass_duration : ℕ
network_bypass_duration = tm_daemon_exit_time

unfoldable pub inside_direct_spool_window : TelemPostDaemon → ℕ → Bool
inside_direct_spool_window d current_time =
    ltb current_time (d.bypass_http_post_ts + network_bypass_duration)

unfoldable pub start_network_bypass : TelemPostDaemon → ℕ → TelemPostDaemon
start_network_bypass d now = record d { bypass_http_post_ts = now }

abbrev pub strategy_spool : Bytes
strategy_spool = codes "spool"

unfoldable pub spool_strategy_selected : TelemPostDaemon → Bool
spool_strategy_selected d = equal d.rate_limit_strategy strategy_spool

unfoldable pub windows_length_value_check : TelemPostDaemon → Bool
windows_length_value_check d =
    not (is_minus_one d.record_window_length || is_minus_one d.byte_window_length)

-- A window length that passed the check; the configuration gives -1 or a length below 60.
abbrev pub to_window : ℤ → ℕ
to_window (pos n) = n
to_window (negsuc n) = 0

-- Whether the record check and the byte check pass, and the daemon.
unfoldable pub rate_limit_checks : TelemPostDaemon → ℕ → Bool × Bool × TelemPostDaemon
rate_limit_checks d current_minute =
    let record_burst_enabled = burst_limit_enabled d.record_burst_limit in
    let byte_burst_enabled = burst_limit_enabled d.byte_burst_limit in
    let record_check_passed =
      not record_burst_enabled
      || rate_limit_check current_minute d.record_burst_limit (to_window d.record_window_length)
          d.record_burst_array tm_record_counter in
    let byte_check_passed =
      not byte_burst_enabled
      || rate_limit_check current_minute d.byte_burst_limit (to_window d.byte_window_length)
          d.byte_burst_array record_size_len in
    if d.rate_limit_enabled
    then (
      record_check_passed,
      byte_check_passed,
      (if not record_burst_enabled && not byte_burst_enabled
          then record d { rate_limit_enabled = false }
          else d),
    )
    else (true, true, d)

-- The arrays after a record was sent.
unfoldable pub count_sent : TelemPostDaemon → ℕ → TelemPostDaemon
count_sent d current_minute = record d {
  record_burst_array =
      if burst_limit_enabled d.record_burst_limit
      then rate_limit_update current_minute (to_window d.record_window_length) d.record_burst_array
          tm_record_counter
      else d.record_burst_array;
  byte_burst_array =
      if burst_limit_enabled d.byte_burst_limit
      then rate_limit_update current_minute (to_window d.byte_window_length) d.byte_burst_array
          record_size_len
      else d.byte_burst_array;
}

-- What follows the attempt to send.
unfoldable pub after_attempt : TelemPostDaemon → DeliveryClock → Bool → Bool × TelemPostDaemon
unfolding count_sent start_network_bypass spool_strategy_selected
after_attempt d clock record_sent =
    let do_spool = spool_strategy_selected d in
    if not record_sent && not do_spool
    then (true, d)
    else if not record_sent && do_spool
    then (false, start_network_bypass d clock.bypass_time)
    else (record_sent, count_sent d clock.deliver_minute)

-- The record is only given to the backend if it may be sent.
unfoldable pub attempt : Backend → Bool → List Bytes → Bytes → Option Bytes → Run Bool
attempt post false headers body cfg_file = done false
attempt post true headers body cfg_file = post headers body cfg_file

-- The result true lets the caller remove the record's file.
unfoldable pub deliver_record :
    Backend
    → DeliveryClock
    → TelemPostDaemon
    → List Bytes
    → Bytes
    → Option Bytes
    → Run (Bool × TelemPostDaemon)
unfolding attempt
deliver_record post clock d headers body cfg_file =
    let (record_check_passed, byte_check_passed, d') = rate_limit_checks d clock.check_minute in
    let may_send = not d'.rate_limit_enabled || (record_check_passed && byte_check_passed) in
    attempt post may_send headers body cfg_file
    >>= (λ record_sent. done (after_attempt d' clock record_sent))
