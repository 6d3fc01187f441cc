-- ===== src/RateLimit/Window.antt =====
-- What `rate_limit_check` counts: the window described by the age of a slot, not by its index.
use telemetrics_client.Base.{
  ℕ, zero, suc, ◌+◌, ◌-◌, ◌%◌, ◌≤◌, ◌<◌, ◌≡◌, ◌↔◌, ◌∙◌, true, false, List, leb, get_or, arith,
}
use telemetrics_client.Base.Int.{pos}
use telemetrics_client.RateLimit.{
  tm_rate_limit_slots, size_mod, add_size, count_slots, window_start, rate_limit_check,
}

-- The slot of the minute that is `age` minutes before `minute`.
abbrev pub slot_ago : ℕ → ℕ → ℕ
slot_ago minute age = (minute + tm_rate_limit_slots - age) % tm_rate_limit_slots

-- The sum of the counters of the last `window` minutes.
unfoldable pub recent : ℕ → ℕ → List ℕ → ℕ
recent minute zero array = 0
recent minute (suc age) array = recent minute age array + get_or array (slot_ago minute age) 0

count_slots-recent :
    (n i minute count inc : ℕ) (array : List ℕ)
    → n ≤ tm_rate_limit_slots
    → i % tm_rate_limit_slots ≡ (minute + tm_rate_limit_slots + 1 - n) % tm_rate_limit_slots
    → count + recent minute n array + inc + 1 < size_mod
    → count_slots n i array inc count ≡ (count + recent minute n array, true)
unfolding count_slots recent
count_slots-recent zero i minute count inc array h e room = ground arith
count_slots-recent (suc n) i minute count inc array h e room =
    let slot = get_or array (slot_ago minute n) 0 in
    let at_slot : i % tm_rate_limit_slots ≡ slot_ago minute n = omega arith in
    let exact : add_size count slot ≡ count + slot = omega arith in
    let fits : leb (size_mod - 1) (add_size slot inc) ≡ false = ground arith in
    let rest =
      count_slots-recent n (i + 1) minute (count + slot) inc array (omega arith) (omega arith)
        (omega arith) in
    rw (at_slot, exact, fits) (rest ∙ ground arith)

-- If the minute is below 60, the window has at most 60 minutes, and the counters of the window and
-- the increment do not reach the largest size_t, then the check against a limit of 0 or more passes
-- exactly when the last `window` minutes with the new record stay within the limit.
pub check_iff_recent :
    (minute limit window inc : ℕ) (array : List ℕ)
    → minute < tm_rate_limit_slots
    → window ≤ tm_rate_limit_slots
    → recent minute window array + inc + 1 < size_mod
    → (rate_limit_check minute (pos limit) window array inc ≡ true)
      ↔ (recent minute window array + inc ≤ limit)
unfolding rate_limit_check window_start
check_iff_recent minute limit window inc array m w room =
    rw
      (count_slots-recent window ((tm_rate_limit_slots + minute + 1 - window) % tm_rate_limit_slots)
        minute 0 inc array w (omega arith) (omega arith))
      (ground arith)
