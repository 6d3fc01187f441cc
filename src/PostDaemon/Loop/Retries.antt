-- ===== src/PostDaemon/Loop/Retries.antt =====
-- The counter of the retries in `run_daemon`, and what `staging_records_loop` counts.
use telemetrics_client.Base.{
  ℕ, ◌+◌, ◌-◌, ◌≤◌, ◌<◌, ◌≡◌, ◌⊎◌, inl, inr, sym, ◌∙◌, true, List, [], ◌∷◌, some, length, arith,
  Bool-cases,
}
use telemetrics_client.Base.Int.{ℤ, pos, sub_ℕ}
use telemetrics_client.Base.Run.{done, >>=-eq-done}
use telemetrics_client.PostDaemon.{TelemPostDaemon, Backend}
use telemetrics_client.PostDaemon.Process.{process_staged_record}
use telemetrics_client.PostDaemon.Loop.{
  Visit, staging_loop, staging_records_loop, LoopState, next_attempt,
}

staging_loop_count :
    (post : Backend) (visits : List Visit) (d d' : TelemPostDaemon) (processed removed : ℕ)
    → staging_loop post visits d processed ≡ done (removed, d')
    → (processed ≤ removed) × (removed ≤ processed + length visits)
unfolding staging_loop
staging_loop_count post [] d d' processed removed e =
    let same : processed ≡ removed = cc in (omega arith, omega arith)
staging_loop_count post ((env, file) ∷ visits) d d' processed removed e =
    let ((gone, next), _, e') = >>=-eq-done (process_staged_record post env true d file) _ e in
    let (least, most) = staging_loop_count post visits next d' _ removed e' in
    elim (Bool-cases gone) [
      | inl counted ↦ (ground (arith, least, counted), ground (arith, most, counted))
      | inr kept ↦ (ground (arith, least, kept), ground (arith, most, kept))
    ]

-- If the staging directory can be listed and staging_records_loop returns, its result is a number
-- of files, at most those that were listed.
pub staging_records_loop_left :
    (post : Backend) (visits : List Visit) (d d' : TelemPostDaemon) (left : ℤ)
    → staging_records_loop post (some visits) d ≡ done (left, d')
    → (n : ℕ) × (left ≡ pos n) × (n ≤ length visits)
unfolding staging_records_loop
staging_records_loop_left post visits d d' left e =
    let ((removed, next), ran, e') = >>=-eq-done (staging_loop post visits d 0) _ e in
    let (_, most) = staging_loop_count post visits d next 0 removed ran in
    let value : sub_ℕ (length visits) removed ≡ left = cc in
    (length visits - removed, sym value ∙ ground (arith, most), omega arith)

-- The counter stays, or a retry was made and counted.
abbrev RetryStep : LoopState → LoopState → Type 0
RetryStep s s' =
    (s'.retry_attempt ≡ s.retry_attempt)
    ⊎ ((0 < s.retry_attempt) × (left : ℤ) × (s'.retry_attempt ≡ next_attempt s.retry_attempt left))
