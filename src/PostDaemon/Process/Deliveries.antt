-- ===== src/PostDaemon/Process/Deliveries.antt =====
-- When the delivery of a record lets its file go.
use telemetrics_client.Base.{
  ℕ, List, Option, not, if_cases, ◌≡◌, ◌⊎◌, inl, inr, ◌∙◌, refl, ap, true, false, Bool, arith,
}
use telemetrics_client.Base.Bytes.{Bytes}
use telemetrics_client.Base.Run.{done}
use telemetrics_client.PostDaemon.Process.Frames.{deliver_record_sent}
use telemetrics_client.PostDaemon.Process.{Surroundings, spool_is_full, dispatch}
use telemetrics_client.PostDaemon.{
  TelemPostDaemon, DeliveryClock, Backend, inside_direct_spool_window, windows_length_value_check,
  rate_limit_checks, after_attempt, attempt, spool_strategy_selected, deliver_record,
}
use telemetrics_client.Record.{StagedRecord}

checks_strategy :
    (d : TelemPostDaemon) (minute : ℕ)
    → spool_strategy_selected (rate_limit_checks d minute).2 ≡ spool_strategy_selected d
unfolding rate_limit_checks spool_strategy_selected
checks_strategy d minute = ground arith

after_attempt_removes :
    (d : TelemPostDaemon) (clock : DeliveryClock) (sent : Bool) {d' : TelemPostDaemon}
    → spool_strategy_selected d ≡ true
    → after_attempt d clock sent ≡ (true, d')
    → sent ≡ true
unfolding after_attempt
after_attempt_removes d clock true spool h = refl
after_attempt_removes d clock false spool h = ground arith

attempt_sent :
    (post : Backend) (may_send : Bool) (headers : List Bytes) (body : Bytes) (cfg : Option Bytes)
    → attempt post may_send headers body cfg ≡ done true
    → post headers body cfg ≡ done true
unfolding attempt
attempt_sent post true headers body cfg h = h
attempt_sent post false headers body cfg h = absurd cc

deliver_record_removes :
    (post : Backend) (clock : DeliveryClock) (d : TelemPostDaemon) (headers : List Bytes)
    (body : Bytes) (cfg : Option Bytes) {d' : TelemPostDaemon}
    → spool_strategy_selected d ≡ true
    → deliver_record post clock d headers body cfg ≡ done (true, d')
    → post headers body cfg ≡ done true
deliver_record_removes post clock d headers body cfg spool h =
    let checked = (rate_limit_checks d clock.check_minute).2 in
    let (may_send, sent, tried, last) = deliver_record_sent post clock d headers body cfg h in
    let went =
      after_attempt_removes checked clock sent (checks_strategy d clock.check_minute ∙ spool)
        last in
    attempt_sent post may_send headers body cfg (tried ∙ ap done went)

-- Why a delivery may let the file be removed, under the spool strategy.
pub dispatch_removes :
    (post : Backend) (env : Surroundings) (d : TelemPostDaemon) (r : StagedRecord)
    {d' : TelemPostDaemon}
    → spool_strategy_selected d ≡ true
    → dispatch post env d r ≡ done (true, d')
    → (d.record_server_delivery_enabled ≡ false)
      ⊎ (spool_is_full env d.current_spool_size ≡ true)
      ⊎ (post r.headers r.body r.cfg_file ≡ done true)
unfolding dispatch
dispatch_removes post env d r spool h = elim (if_cases (not d.record_server_delivery_enabled) h) [
  | inl (off, _) ↦ inl (ground (arith, off))
  | inr (_, on) ↦ elim (if_cases (inside_direct_spool_window d env.window_time) on) [
    | inl (_, waits) ↦ inr (inl cc)
    | inr (_, direct) ↦ elim (if_cases (not (windows_length_value_check d)) direct) [
      | inl (_, invalid) ↦ absurd cc
      | inr (_, sends) ↦
          inr
            (inr (deliver_record_removes post env.clock d r.headers r.body r.cfg_file spool sends))
    ]
  ]
]
