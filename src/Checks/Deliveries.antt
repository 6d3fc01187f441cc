-- ===== src/Checks/Deliveries.antt =====
-- The post daemon at a concrete state and file.
use telemetrics_client.Base.{
  ℕ, ◌+◌, ◌≤◌, ◌≡◌, ◌⊎◌, refl, true, false, List, Option, [], ◌∷◌, some, none, replicate, arith,
}
use telemetrics_client.Base.Bytes.{Bytes, codes}
use telemetrics_client.Base.Run.{done}
use telemetrics_client.Base.Int.{pos, negsuc}
use telemetrics_client.Checks.Configurations.{system}
use telemetrics_client.Checks.Samples.{texts}
use telemetrics_client.Configuration.{stat_failed}
use telemetrics_client.PostDaemon.Http.{PostCall}
use telemetrics_client.PostDaemon.Limits.{
  LimitsRecords, deliver_record_at_limit, deliver_record_keeps_limit,
}
use telemetrics_client.PostDaemon.Process.{FileStatus, StagedFile, Surroundings}
use telemetrics_client.PostDaemon.{
  TelemPostDaemon, DeliveryClock, Backend, strategy_spool, deliver_record, rate_limit_checks,
  after_attempt, attempt, count_sent,
}
use telemetrics_client.RateLimit.{burst_limit_enabled, rate_limit_check}
use telemetrics_client.RateLimit.Window.{recent}
use telemetrics_client.Record.Probd.{stage_record}
use telemetrics_client.Record.{StagedRecord}

abbrev accepts : Backend
accepts headers body cfg = done true

abbrev rejects : Backend
rejects headers body cfg = done false

-- Five records in minute 10, and a bypass at time 1000.
abbrev daemon : ℕ → TelemPostDaemon
daemon bypass = record {
  record_journal = none;
  bypass_http_post_ts = bypass;
  record_burst_array = 0 ∷ 0 ∷ 5 ∷ replicate 57 0;
  byte_burst_array = replicate 60 0;
  rate_limit_enabled = true;
  record_burst_limit = pos 5;
  record_window_length = pos 3;
  byte_burst_limit = negsuc 0;
  byte_window_length = pos 20;
  rate_limit_strategy = strategy_spool;
  current_spool_size = pos 0;
  record_retention_enabled = false;
  record_server_delivery_enabled = true;
  retained = λ id. none;
}

abbrev at_minute : ℕ → DeliveryClock
at_minute minute = record { deliver_minute = minute; check_minute = minute; bypass_time = 5000 }

abbrev status : FileStatus
status = record { is_regular = true; mtime = 900; blocks = 8; owned = true }

abbrev file : StagedFile
file = record { content = some (stage_record texts (codes "hello") none); status = some status }

abbrev env : Surroundings
env = record {
  start_time = 1200;
  window_time = 1200;
  clock = at_minute 30;
  random_id = none;
  boot_id = none;
  record_expiry = pos 1200;
  spool_max_size = pos 5120;
}

abbrev sample_record : StagedRecord
sample_record = record { headers = texts; body = codes "hello\n"; cfg_file = none }

-- The server creates what is posted.
abbrev pub world : List Bytes → Bytes → Option Bytes → PostCall
world headers body cfg = record {
  system = system;
  stat = λ path. stat_failed 2;
  state = record {
    config_file = none;
    cmd_line_cfg = false;
    config = record { str_values = []; int_values = []; bool_values = []; initialized = true };
  };
  curl_easy_init = true;
  curl_easy_perform = λ request. (0, 201);
}

daemon-LimitsRecords_2 : LimitsRecords (daemon 0) 5 3 2
unfolding recent
daemon-LimitsRecords_2 = record {
  enabled = refl;
  burst = refl;
  window_is = refl;
  window_pos = omega arith;
  window_fits = omega arith;
  minute_fits = omega arith;
  slots = refl;
  room = omega arith;
  slot_room = omega arith;
}

daemon-LimitsRecords_5 : LimitsRecords (daemon 0) 5 3 5
unfolding recent
daemon-LimitsRecords_5 = record {
  enabled = refl;
  burst = refl;
  window_is = refl;
  window_pos = omega arith;
  window_fits = omega arith;
  minute_fits = omega arith;
  slots = refl;
  room = omega arith;
  slot_room = omega arith;
}

deliver_record_at_limit_example :
    deliver_record accepts (at_minute 2) (daemon 0) texts [] none
    ≡ deliver_record rejects (at_minute 2) (daemon 0) texts [] none
deliver_record_at_limit_example =
    deliver_record_at_limit accepts rejects (at_minute 2) (daemon 0) 5 3 texts [] none
      daemon-LimitsRecords_2 (unfold recent in omega arith)

deliver_record_keeps_limit_example :
    ((count_sent (daemon 0) 5).record_burst_array ≡ (daemon 0).record_burst_array)
    ⊎ ((recent 5 3 (count_sent (daemon 0) 5).record_burst_array
          ≡ recent 5 3 (daemon 0).record_burst_array + 1)
        × (recent 5 3 (count_sent (daemon 0) 5).record_burst_array ≤ 5))
unfolding deliver_record rate_limit_checks burst_limit_enabled rate_limit_check after_attempt
    attempt
deliver_record_keeps_limit_example =
    deliver_record_keeps_limit accepts (at_minute 5) (daemon 0) 5 3 texts [] none refl
      daemon-LimitsRecords_5 refl
