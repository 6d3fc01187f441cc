-- ===== src/Checks/Loops.antt =====
-- The loop of the post daemon at a concrete state.
use telemetrics_client.Base.{ℕ, true, false, none, replicate}
use telemetrics_client.Base.Int.{pos, negsuc}
use telemetrics_client.Base.Run.{done}
use telemetrics_client.Journal.Store.{PruneFiles}
use telemetrics_client.PostDaemon.{TelemPostDaemon, strategy_spool}
use telemetrics_client.PostDaemon.Loop.{Visit, LoopState, LoopConfig, QuietTurn}

abbrev daemon : ℕ → TelemPostDaemon
daemon bypass = record {
  record_journal = none;
  bypass_http_post_ts = bypass;
  record_burst_array = replicate 60 0;
  byte_burst_array = replicate 60 0;
  rate_limit_enabled = false;
  record_burst_limit = negsuc 0;
  record_window_length = pos 15;
  byte_burst_limit = negsuc 0;
  byte_window_length = pos 20;
  rate_limit_strategy = strategy_spool;
  current_spool_size = pos 0;
  record_retention_enabled = false;
  record_server_delivery_enabled = true;
  retained = λ id. none;
}

-- A file that does not open.
abbrev visit : Visit
visit = (
  record {
    start_time = 1200;
    window_time = 1200;
    clock = record { deliver_minute = 20; check_minute = 20; bypass_time = 1200 };
    random_id = none;
    boot_id = none;
    record_expiry = pos 1200;
    spool_max_size = pos 5120;
  },
  record { content = none; status = none },
)

abbrev config : LoopConfig
config = record {
  post = λ headers body cfg. done false;
  qsort = λ compare entries. entries;
  spool_process_time = 120;
  daemon_recycling_enabled = true;
}

-- Neither directory can be listed.
abbrev turn : QuietTurn
turn = record {
  now = 1010;
  staging = none;
  spool = none;
  record_expiry = pos 1200;
  spool_run_end = 1010;
}

abbrev files : PruneFiles
files = record { tmp_open = 0; close = 0; rename = 0; reopens = true }

abbrev after_turn : ℕ → LoopState
after_turn attempt = record {
  daemon = daemon 0;
  retry_attempt = attempt;
  last_spool_run_time = 1000;
  last_record_received = 1000;
}
