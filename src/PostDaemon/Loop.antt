-- ===== src/PostDaemon/Loop.antt =====
-- src/telempostdaemon.c: `staging_records_loop`, and `run_daemon` as one step for each return of
-- `poll`, with what the calls of that turn give.
pub mod Retries
use telemetrics_client.Base.{
  ℕ, zero, suc, ◌+◌, ◌*◌, ◌≡◌, Bool, true, false, ◌&&◌, List, [], ◌∷◌, Option, none, some, ltb, leb,
  ◌==◌, if◌then◌else◌, length,
}
use telemetrics_client.Base.Bytes.{Bytes, equal}
use telemetrics_client.Base.Int.{ℤ, pos, negsuc, sub_ℕ, is_zero}
use telemetrics_client.Base.Run.{Run, done, exit, fault, ◌>>=◌}
use telemetrics_client.Common.{tm_daemon_exit_time}
use telemetrics_client.Journal.Store.{
  TelemJournal, FilePtr, opened, PruneFiles, prune_journal, deviation,
}
use telemetrics_client.PostDaemon.{TelemPostDaemon, Backend}
use telemetrics_client.PostDaemon.Process.{StagedFile, Surroundings, process_staged_record}
use telemetrics_client.Spool.{SpoolEntry, spool_records_loop}

-- A file of the staging directory, and the surroundings in which it is processed.
abbrev pub Visit : Type 0
Visit = Surroundings × StagedFile

-- How many files were removed.
unfoldable pub staging_loop : Backend → List Visit → TelemPostDaemon → ℕ → Run (ℕ × TelemPostDaemon)
staging_loop post [] d processed = done (processed, d)
staging_loop post ((env, file) ∷ visits) d processed =
    process_staged_record post env true d file >>= (λ (removed, d').
      staging_loop post visits d' (if removed then suc processed else processed))

-- The result is how many files are left, or negative when `scandir` fails.
unfoldable pub staging_records_loop :
    Backend → Option (List Visit) → TelemPostDaemon → Run (ℤ × TelemPostDaemon)
staging_records_loop post none d = done (negsuc 0, d)
staging_records_loop post (some visits) d =
    staging_loop post visits d 0 >>= (λ (processed, d'). done (sub_ℕ (length visits) processed, d'))

abbrev pub max_retry_attempts : ℕ
max_retry_attempts = 8

-- The variables of `run_daemon`.
pub record LoopState : Type 0 where
  pub daemon : TelemPostDaemon
  pub retry_attempt : ℕ
  pub last_spool_run_time : ℕ
  pub last_record_received : ℕ

-- What does not change while it runs; `qsort` is the C library's.
pub record LoopConfig : Type 0 where
  pub post : Backend
  pub qsort : (SpoolEntry → SpoolEntry → ℤ) → List SpoolEntry → List SpoolEntry
  pub spool_process_time : ℕ
  pub daemon_recycling_enabled : Bool

-- One inotify event: whether it has a name, whether a file was closed after writing, the file, and
-- the time after it was processed.
pub record WatchEvent : Type 0 where
  pub has_name : Bool
  pub is_written : Bool
  pub visit : Visit
  pub received : ℕ

-- A turn in which `poll` timed out: the time, both directories, the configured expiry, and the time
-- after the spool was run.
pub record QuietTurn : Type 0 where
  pub now : ℕ
  pub staging : Option (List Visit)
  pub spool : Option (List SpoolEntry)
  pub record_expiry : ℤ
  pub spool_run_end : ℕ

-- What `poll` and the reads after it give. `signal true` is SIGTERM or SIGINT.
pub data PollResult : Type 0 where
  poll_failed : PollResult
  signal_unreadable : PollResult
  signal : Bool → PollResult
  watch_unreadable : PollResult
  watch : List WatchEvent → PollResult
  none_ready : PollResult
  timed_out : QuietTurn → PollResult

-- The time in seconds that `poll` waits.
unfoldable pub retry_delay : LoopConfig → LoopState → ℕ
retry_delay cfg s =
    if ltb 0 s.retry_attempt then s.retry_attempt * s.retry_attempt else cfg.spool_process_time

unfoldable pub before_poll : LoopState → LoopState
before_poll s =
    if ltb 0 s.retry_attempt
    then record s { daemon = record s.daemon { bypass_http_post_ts = 0 } }
    else s

-- The files that were written are processed, and removed if the result says so.
unfoldable pub process_events : LoopConfig → List WatchEvent → LoopState → Run LoopState
process_events cfg [] s = done s
process_events cfg (event ∷ events) s =
    let next =
      process_staged_record cfg.post event.visit.0 false s.daemon event.visit.1 >>= (λ (_, d').
        process_events cfg events
          (record s { daemon = d'; last_record_received = event.received })) in
    let skipped = process_events cfg events s in
    if event.has_name && event.is_written then next else skipped

-- The counter after the files were tried again, with what is left of them.
unfoldable pub next_attempt : ℕ → ℤ → ℕ
next_attempt attempt left =
    let next = if is_zero left then 0 else suc attempt in
    if next == max_retry_attempts then 0 else next

unfoldable pub retry_staging : LoopConfig → QuietTurn → LoopState → Run LoopState
retry_staging cfg turn s =
    if ltb 0 s.retry_attempt
    then (staging_records_loop cfg.post turn.staging s.daemon >>= (λ (left, d').
        done (record s { daemon = d'; retry_attempt = next_attempt s.retry_attempt left })))
    else done s

unfoldable pub check_spool : LoopConfig → QuietTurn → LoopState → Run LoopState
check_spool cfg turn s =
    if leb (s.last_spool_run_time + cfg.spool_process_time) turn.now
    then (spool_records_loop cfg.qsort cfg.post turn.record_expiry turn.spool
          s.daemon.current_spool_size
        >>= (λ (p, _). done (record s {
          daemon = record s.daemon { current_spool_size = p.current_spool_size };
          last_spool_run_time = turn.spool_run_end;
        })))
    else done s

-- delete_record_by_id for each id.
unfoldable pub delete_records : List Bytes → (Bytes → Option Bytes) → Bytes → Option Bytes
delete_records [] files = files
delete_records (id ∷ ids) files = delete_records ids (λ k. if equal k id then none else files k)

-- A journal whose file pointer is not an open file is only counted.
unfoldable pub prune_opened :
    PruneFiles → FilePtr → TelemPostDaemon → TelemJournal → Run TelemPostDaemon
prune_opened fs opened d j =
    let ((_, j'), ids) = prune_journal fs j in
    done (record d { record_journal = some j'; retained = delete_records ids d.retained })
prune_opened fs _ d j =
    if ltb (deviation + j.record_count_limit) j.record_count then fault else done d

unfoldable pub prune_daemon :
    PruneFiles → TelemPostDaemon → Option TelemJournal → Run TelemPostDaemon
prune_daemon fs d none = done d
prune_daemon fs d (some j) = prune_opened fs j.fptr d j

-- The end of a turn.
unfoldable pub prune_turn : PruneFiles → LoopState → Run (Option LoopState)
prune_turn fs s =
    prune_daemon fs s.daemon s.daemon.record_journal
    >>= (λ d. done (some (record s { daemon = d })))

unfoldable pub quiet_turn : LoopConfig → PruneFiles → QuietTurn → LoopState → Run (Option LoopState)
quiet_turn cfg fs turn s =
    if cfg.daemon_recycling_enabled && leb (s.last_record_received + tm_daemon_exit_time) turn.now
    then done none
    else retry_staging cfg turn s >>= check_spool cfg turn >>= prune_turn fs

unfoldable pub after_poll :
    LoopConfig → PruneFiles → PollResult → LoopState → Run (Option LoopState)
after_poll cfg fs poll_failed s = done none
after_poll cfg fs signal_unreadable s = exit
after_poll cfg fs (signal true) s = done none
after_poll cfg fs (signal false) s = prune_turn fs s
after_poll cfg fs watch_unreadable s = exit
after_poll cfg fs (watch events) s = process_events cfg events s >>= prune_turn fs
after_poll cfg fs none_ready s = prune_turn fs s
after_poll cfg fs (timed_out turn) s = quiet_turn cfg fs turn s

-- One turn of the loop; `none` is its end.
unfoldable pub loop_step : LoopConfig → PruneFiles → PollResult → LoopState → Run (Option LoopState)
loop_step cfg fs result s = after_poll cfg fs result (before_poll s)

-- Before the first turn.
unfoldable pub loop_start : TelemPostDaemon → ℕ → ℕ → LoopState
loop_start d spool_time record_time = record {
  daemon = d;
  retry_attempt = if d.bypass_http_post_ts == 0 then 0 else 1;
  last_spool_run_time = spool_time;
  last_record_received = record_time;
}

-- The states that the loop comes through from its start.
pub data Reachable (cfg : LoopConfig) (d : TelemPostDaemon) : LoopState → Type 0 where
  starts : (spool_time record_time : ℕ) → Reachable cfg d (loop_start d spool_time record_time)
  turns :
      {s s' : LoopState} (fs : PruneFiles) (result : PollResult)
      → Reachable cfg d s
      → loop_step cfg fs result s ≡ done (some s')
      → Reachable cfg d s'
